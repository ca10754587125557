-- ===== src/Gov/Ctrler/Committing.antt =====
-- `GovCtrler` of ctrlers/gov/ctrler.go: the commit of its ledgers and the queries.
use rigo_go.Base.{ℕ, not, ◌||◌, ◌==◌, none, some, List, [], ◌∷◌, ◌++◌, if◌then◌else◌}
use rigo_go.Base.Bytes.{Bytes}
use rigo_go.Base.Result.{
  Result, ok, err, not_found_result, not_found_proposal, commit_error, XError,
}
use rigo_go.Base.Store.{Ref, Store}
use rigo_go.Ledger.Tree.{TreeOps}
use rigo_go.Ledger.Simple
use rigo_go.Ledger.Simple.{iterate_read_all_items, to_ledger_key}
use rigo_go.Ledger.Finality
use rigo_go.Gov.Proposal.{GovProposal}
use rigo_go.Gov.Ctrler.{GovCodec, GovCtrler, proposal_items, params_items}

-- the pending parameters, if there are any, become the parameters
abbrev pub adopted : {Tree : Type 0} → GovCtrler Tree → GovCtrler Tree
adopted s = elim s.new_gov_params [
  | none ↦ s
  | some params ↦ record s { gov_params = params; new_gov_params = none }
]

-- `crypto.DefaultHash`, of the concatenation of its arguments, is `hash`.
module _ {Tree : Type 0} (hash : Bytes → Bytes) (codec : GovCodec) (trees : TreeOps Tree) where
  -- what follows the three commits
  unfoldable pub committed :
      Bytes × ℕ → Bytes × ℕ → Bytes × ℕ → GovCtrler Tree → Result (Bytes × ℕ) × GovCtrler Tree
  committed (h0, v0) (h1, v1) (h2, v2) s =
      if not (v0 == v1) || not (v1 == v2)
      then (err commit_error, s)
      else (ok (hash (h0 ++ h1 ++ h2), v0), adopted s)

  unfoldable pub commit : GovCtrler Tree → Result (Bytes × ℕ) × GovCtrler Tree
  unfolding Finality.commit committed
  commit s =
      let (r0, l0) = Finality.commit (params_items codec.params) trees s.params_ledger tt in
      let s₁ = record s { params_ledger = l0 } in
      elim r0 [
        | err e ↦ (err e, s₁)
        | ok c0 ↦
            let (r1, l1) = Finality.commit (proposal_items codec) trees s.proposal_ledger s.heap in
            let s₂ = record s₁ { proposal_ledger = l1 } in
            elim r1 [
              | err e ↦ (err e, s₂)
              | ok c1 ↦
                  let (r2, l2) =
                    Finality.commit (proposal_items codec) trees s.frozen_ledger s.heap in
                  let s₃ = record s₂ { frozen_ledger = l2 } in
                  elim r2 [ err e ↦ (err e, s₃) | ok c2 ↦ committed c0 c1 c2 s₃ ]
            ]
      ]

  abbrev pub not_found_as_proposal : XError → XError
  not_found_as_proposal e = elim e [ not_found_result ↦ not_found_proposal | x ↦ x ]

  abbrev listed :
      Ref → List Ref × Store GovProposal → Result (Unit {0}) × List Ref × Store GovProposal
  listed r (rs, h) = (ok tt, rs ++ r ∷ [], h)

  unfoldable pub read_all_proposals : GovCtrler Tree → Result (List Ref) × GovCtrler Tree
  unfolding iterate_read_all_items
  read_all_proposals s =
      let (r, rs, h) =
        iterate_read_all_items (proposal_items codec) trees listed s.proposal_ledger.simple
          ([], s.heap) in
      (elim r [ ok _ ↦ ok rs | err e ↦ err (not_found_as_proposal e) ], record s { heap = h })

  unfoldable pub read_proposal : Bytes → GovCtrler Tree → Result Ref × GovCtrler Tree
  unfolding Simple.read to_ledger_key
  read_proposal tx_hash s =
      elim (Simple.read (proposal_items codec) trees (to_ledger_key tx_hash)
        s.proposal_ledger.simple s.heap) [
          | ok (r, h) ↦ (ok r, record s { heap = h })
          | err e ↦ (err (not_found_as_proposal e), s)
        ]
