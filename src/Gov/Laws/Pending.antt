-- ===== src/Gov/Laws/Pending.antt =====
-- What the end of a block does to the parameters (`EndBlock` of ctrlers/gov/ctrler.go).
use rigo_go.Base.{
  ◌≡◌, inl, inr, Bool, true, false, Bool-cases, Option, none, some, List, [], ◌∷◌, refl, sym, ap,
  ◌∙◌, ◌==◌, if◌then◌else◌, arith,
}
use rigo_go.Base.Bytes.{Bytes}
use rigo_go.Base.Words.{Int64, slt}
use rigo_go.Base.Result.{Result, ok, err, from_error, Result-cases}
use rigo_go.Base.Store.{Ref, Store, allocate, cell-allocate}
use rigo_go.Ledger.Tree.{TreeOps}
use rigo_go.Ledger.Simple.{SimpleLedger, iterate_entries, iterate_read_all_items}
use rigo_go.Ledger.Finality.{FinalityLedger, del_finality, set_finality}
use rigo_go.Ledger.Laws.Iteration.{
  iterate_read_all_items-inv, iterate_entries-step, iterate_entries-first,
}
use rigo_go.Gov.Params.{GovParams, merge_gov_params}
use rigo_go.Gov.Params.Codec.{unmarshal_json}
use rigo_go.Gov.Proposal.{VoteOption, GovProposal}
use rigo_go.Gov.Ctrler.{GovCodec, GovCtrler, proposal_items, proposal_key, proposal_govparams}
use rigo_go.Gov.Ctrler.Blocks.{hotfix}
use rigo_go.Gov.Ctrler.Closing.{
  Freezing, Applying, Closed, froze, freeze_after, freeze_one, freeze_proposals, put_params,
  apply_option, apply_after, apply_one, apply_proposals, close_after, end_block, applied_too,
}

-- The parameters that a decided proposal sets: those that its major option says.
abbrev pub decided_params : GovCodec → Option VoteOption → Option GovParams
decided_params codec none = none
decided_params codec (some o) = elim (unmarshal_json codec.params (hotfix o.option)) [
  | ok params ↦ some params
  | err _ ↦ none
]

-- The parameters that a proposal sets at a height: none before its applying height, and none if it
-- is not one of parameters.
abbrev pub params_of : GovCodec → Int64 → GovProposal → Option GovParams
params_of codec height prop =
    if slt height prop.applying_height
    then none
    else if prop.opt_type == proposal_govparams
    then decided_params codec prop.major_option
    else none

abbrev pub set_by : GovParams → Option GovParams → Option GovParams → Option GovParams
set_by old none before = before
set_by old (some params) before = some (merge_gov_params old params)

-- The pending parameters after the frozen proposals of a tree: those of the last proposal that sets
-- any, merged with the parameters in force, or else those that were pending.
abbrev pub pending_after :
    GovCodec → Int64 → GovParams → List (Bytes × Bytes) → Option GovParams → Option GovParams
pending_after codec height old [] before = before
pending_after codec height old ((k, bz) ∷ rest) before =
    pending_after codec height old rest (elim (codec.unmarshal bz) [
      | ok prop ↦ set_by old (params_of codec height prop) before
      | err _ ↦ before
    ])

module _ {Tree : Type 0} (codec : GovCodec) (trees : TreeOps Tree) where
  -- The iteration that freezes proposals leaves the tree of the frozen ledger alone.
  abbrev Froze : SimpleLedger Tree Ref → Freezing Tree → Type 0
  Froze l f = f.frozen_ledger.simple ≡ l

  froze-Froze :
      (l : SimpleLedger Tree Ref) (r : Ref) (f : Freezing Tree) (h : Store GovProposal)
      (out : Result (Option VoteOption × GovProposal))
      → Froze l f
      → Froze l (froze codec trees r f h out).1
  unfolding froze set_finality
  froze-Froze l r f h (err e) kept = kept
  froze-Froze l r f h (ok (none, prop)) kept = kept
  froze-Froze l r f h (ok (some o, prop)) kept = kept

  freeze_after-Froze :
      (l : SimpleLedger Tree Ref) (r : Ref) (f : Freezing Tree)
      (out : Result Ref × FinalityLedger Tree Ref × Store GovProposal)
      → Froze l f
      → Froze l (freeze_after codec trees r f out).1
  unfolding freeze_after
  freeze_after-Froze l r f (err e, p, h) kept = kept
  freeze_after-Froze l r f (ok _, p, h) kept =
      froze-Froze l r (record f { proposal_ledger = p }) h _ kept

  freeze_one-Froze :
      (height : Int64) (l : SimpleLedger Tree Ref) (r : Ref) (f : Freezing Tree)
      (h : Store GovProposal)
      → Froze l f
      → Froze l (freeze_one codec trees height r (f, h)).1
  unfolding freeze_one
  freeze_one-Froze height l r f h kept =
      let deleted =
        del_finality (proposal_items codec) trees (proposal_key r) f.proposal_ledger h in
      elim (Bool-cases (slt (h.cell r.id).end_voting_height height)) [
        | inl ended ↦ rw ended (freeze_after-Froze l r f deleted kept)
        | inr going ↦ rw going kept
      ]

  freeze_proposals-Froze :
      (height : Int64) (s : GovCtrler Tree)
      → let s' = (freeze_proposals codec trees height s).1 in
        (s'.frozen_ledger.simple ≡ s.frozen_ledger.simple)
        × (s'.gov_params ≡ s.gov_params)
        × (s'.new_gov_params ≡ s.new_gov_params)
  unfolding freeze_proposals
  freeze_proposals-Froze height s = (
    iterate_read_all_items-inv (proposal_items codec) (Froze s.frozen_ledger.simple)
        (freeze_one codec trees height)
        (λ r f h. freeze_one-Froze height s.frozen_ledger.simple r f h) trees
        s.proposal_ledger.simple _ s.heap refl,
    refl,
    refl,
  )

  put_params_lem :
      (old : GovParams) (a : Applying Tree) (res : Result GovParams)
      → (put_params codec trees old a res).0 ≡ ok tt
      → (put_params codec trees old a res).1.new_gov_params
        ≡ set_by old (elim res [ ok params ↦ some params | err _ ↦ none ]) a.new_gov_params
  unfolding put_params
  put_params_lem old a (err e) done = cc
  put_params_lem old a (ok params) done = refl

  applied_too_lem :
      (tx_hash : Bytes) (out : Result (Unit {0}) × Applying Tree)
      → (applied_too codec trees tx_hash out).0 ≡ ok tt
      → (out.0 ≡ ok tt)
        × ((applied_too codec trees tx_hash out).1.new_gov_params ≡ out.1.new_gov_params)
  applied_too_lem tx_hash (err e, a) done = cc
  applied_too_lem tx_hash (ok _, a) done = (refl, refl)

  by_type_lem :
      (old : GovParams) (o : VoteOption) (a : Applying Tree) (test : Bool)
      → (if test
          then put_params codec trees old a (unmarshal_json codec.params (hotfix o.option))
          else (ok tt, a)).0
        ≡ ok tt
      → (if test
          then put_params codec trees old a (unmarshal_json codec.params (hotfix o.option))
          else (ok tt, a)).1.new_gov_params
        ≡ set_by old (if test then decided_params codec (some o) else none) a.new_gov_params
  by_type_lem old o a true done =
      put_params_lem old a (unmarshal_json codec.params (hotfix o.option)) done
  by_type_lem old o a false done = refl

  apply_option_lem :
      (old : GovParams) (prop : GovProposal) (o : VoteOption) (a : Applying Tree)
      → (apply_option codec trees old prop o a).0 ≡ ok tt
      → (apply_option codec trees old prop o a).1.new_gov_params
        ≡ set_by old
            (if prop.opt_type == proposal_govparams then decided_params codec (some o) else none)
            a.new_gov_params
  unfolding apply_option
  apply_option_lem old prop o a done =
      let (put, same) = applied_too_lem prop.tx_hash _ done in
      same ∙ by_type_lem old o a (prop.opt_type == proposal_govparams) put

  nothing_decided :
      (old : GovParams) (test : Bool) (before : Option GovParams)
      → before ≡ set_by old (if test then none else none) before
  nothing_decided old true before = refl
  nothing_decided old false before = refl

  apply_after_lem :
      (old : GovParams) (prop : GovProposal) (major : Option VoteOption) (a : Applying Tree)
      (out : Result Ref × FinalityLedger Tree Ref × Store GovProposal)
      → prop.major_option ≡ major
      → (apply_after codec trees old prop a out).0 ≡ ok tt
      → (apply_after codec trees old prop a out).1.new_gov_params
        ≡ set_by old
            (if prop.opt_type == proposal_govparams then decided_params codec major else none)
            a.new_gov_params
  unfolding apply_after
  apply_after_lem old prop major a (err x, l, h) same done = cc
  apply_after_lem old prop none a (ok r, l, h) same done =
      rw same (nothing_decided old (prop.opt_type == proposal_govparams) a.new_gov_params)
  apply_after_lem old prop (some o) a (ok r, l, h) same done =
      let run : apply_after codec trees old prop a (ok r, l, h) ≡ (
        (apply_option codec trees old prop o (record a { frozen_ledger = l })).0,
        (apply_option codec trees old prop o (record a { frozen_ledger = l })).1,
        h,
      ) =
        rw same refl in
      ap (λ (x : Result (Unit {0}) × Applying Tree × Store GovProposal). x.1.new_gov_params) run
      ∙ apply_option_lem old prop o (record a { frozen_ledger = l })
          (ap (λ (x : Result (Unit {0}) × Applying Tree × Store GovProposal). x.0) (sym run) ∙ done)

  apply_one_lem :
      (old : GovParams) (height : Int64) (r : Ref) (a : Applying Tree) (h : Store GovProposal)
      → (apply_one codec trees old height r (a, h)).0 ≡ ok tt
      → (apply_one codec trees old height r (a, h)).1.new_gov_params
        ≡ set_by old (params_of codec height (h.cell r.id)) a.new_gov_params
  unfolding apply_one
  apply_one_lem old height r a h done =
      let prop = h.cell r.id in
      let deleted = del_finality (proposal_items codec) trees (proposal_key r) a.frozen_ledger h in
      elim (Bool-cases (slt height prop.applying_height)) [
        | inl later ↦ rw later refl
        | inr due ↦
            let run : apply_one codec trees old height r (a, h)
                ≡ apply_after codec trees old prop a deleted =
              rw (due, apply_one) refl in
            rw (due, apply_one)
              (apply_after_lem old prop prop.major_option a deleted refl (
                ap (λ (x : Result (Unit {0}) × Applying Tree × Store GovProposal). x.0) (sym run)
                ∙ done))
      ]

  entries_lem :
      (old : GovParams) (height : Int64) (entries : List (Bytes × Bytes)) (a : Applying Tree)
      (h : Store GovProposal)
      → (iterate_entries
          (proposal_items codec)
          trees
          (apply_one codec trees old height)
          entries
          (a, h)).0
        ≡ ok tt
      → (iterate_entries
          (proposal_items codec)
          trees
          (apply_one codec trees old height)
          entries
          (a, h)).1.new_gov_params
        ≡ pending_after codec height old entries a.new_gov_params
  unfolding iterate_entries allocate
  entries_lem old height [] a h done = refl
  entries_lem old height ((k, bz) ∷ rest) a h done = elim (Result-cases (codec.unmarshal bz)) [
    | inr (x, d) ↦ absurd (ground (arith, d, done))
    | inl (prop, d) ↦
        let items = proposal_items codec in
        let cb = apply_one codec trees old height in
        let (r, h') = allocate prop.tx_hash prop h in
        let read : items.decode h bz ≡ ok (r, h') =
          ap {B = Result (Ref × Store GovProposal)}
            (λ (res : Result GovProposal). elim res [
              | ok p ↦ ok (allocate p.tx_hash p h)
              | err e ↦ err (from_error e)
            ])
            d in
        let (right, went) = iterate_entries-first items trees cb k bz rest a h h' r read done in
        let (_, a', h'') = cb r (a, h') in
        let run = iterate_entries-step items trees cb k bz rest a h h' r read right went in
        let set : a'.new_gov_params ≡ set_by old (params_of codec height prop) a.new_gov_params =
          apply_one_lem old height r a h' went
          ∙ ap (λ (p : GovProposal). set_by old (params_of codec height p) a.new_gov_params)
              (cell-allocate prop.tx_hash prop h) in
        let first : pending_after codec height old ((k, bz) ∷ rest) a.new_gov_params
            ≡ pending_after codec height old rest a'.new_gov_params =
          rw d (ap (pending_after codec height old rest) (sym set)) in
        ap (λ (x : Result (Unit {0}) × Applying Tree × Store GovProposal). x.1.new_gov_params) run
        ∙ entries_lem old height rest a' h'' (
            ap (λ (x : Result (Unit {0}) × Applying Tree × Store GovProposal). x.0) (sym run)
            ∙ done)
        ∙ sym first
  ]

  apply_proposals_lem :
      (height : Int64) (s : GovCtrler Tree) (applied : List Bytes)
      → (apply_proposals codec trees height s).0 ≡ ok applied
      → let s' = (apply_proposals codec trees height s).1 in
        (s'.gov_params ≡ s.gov_params)
        × (s'.new_gov_params
            ≡ pending_after codec height s.gov_params
                (trees.entries s.frozen_ledger.tree)
                s.new_gov_params)
  unfolding apply_proposals iterate_read_all_items
  apply_proposals_lem height s applied done =
      let out =
        iterate_entries (proposal_items codec) trees (apply_one codec trees s.gov_params height)
          (trees.entries s.frozen_ledger.tree)
          (
            record {
              frozen_ledger = s.frozen_ledger;
              params_ledger = s.params_ledger;
              new_gov_params = s.new_gov_params;
              applied = [];
            },
            s.heap,
          ) in
      elim (Result-cases out.0) [
        | inr (x, failed) ↦ absurd (ground (arith, failed, done))
        | inl (_, went) ↦ (refl, entries_lem s.gov_params height _ _ s.heap went)
      ]

  close_after_lem :
      (height : Int64) (out : Result (List Bytes × List Bytes) × GovCtrler Tree) (closed : Closed)
      → (close_after codec trees height out).0 ≡ ok closed
      → let s' = (close_after codec trees height out).1 in
        (s'.gov_params ≡ out.1.gov_params)
        × (s'.new_gov_params
            ≡ pending_after codec height out.1.gov_params
                (trees.entries out.1.frozen_ledger.tree)
                out.1.new_gov_params)
  unfolding close_after
  close_after_lem height (err x, s) closed done = cc
  close_after_lem height (ok lists, s) closed done =
      elim (Result-cases (apply_proposals codec trees height s).0) [
        | inr (x, failed) ↦ absurd (ground (arith, failed, done))
        | inl (applied, went) ↦ apply_proposals_lem height s applied went
      ]

  -- The end of a block that succeeds does not change the parameters in force. The parameters that it
  -- leaves pending, for the commit to adopt, are those of the last proposal, in the order of the frozen
  -- ledger's tree, that is due at the height, is one of parameters and has a major option: the
  -- parameters that this option says, merged with those in force, and not with those of an earlier
  -- proposal. Without such a proposal they are the ones that were pending.
  pub end_block-pending :
      (height : Int64) (s : GovCtrler Tree) (closed : Closed)
      → (end_block codec trees height s).0 ≡ ok closed
      → let s' = (end_block codec trees height s).1 in
        (s'.gov_params ≡ s.gov_params)
        × (s'.new_gov_params
            ≡ pending_after codec height s.gov_params
                (trees.entries s.frozen_ledger.tree)
                s.new_gov_params)
  unfolding end_block
  end_block-pending height s closed done =
      let out = freeze_proposals codec trees height s in
      let (tree, force, pending) = freeze_proposals-Froze height s in
      let (force', pending') = close_after_lem height out closed done in
      (
        force' ∙ force,
        pending'
            ∙ (λ i. pending_after codec height (force i) (trees.entries (tree i).tree) (pending i)),
      )
