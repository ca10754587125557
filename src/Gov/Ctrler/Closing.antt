-- ===== src/Gov/Ctrler/Closing.antt =====
-- `GovCtrler` of ctrlers/gov/ctrler.go: the end of a block, the commit and the queries. The
-- iterations decode the proposals of the last commit, as new objects.
use rigo_go.Base.{◌==◌, Option, none, some, List, [], ◌∷◌, ◌++◌, if◌then◌else◌}
use rigo_go.Base.Bytes.{Bytes}
use rigo_go.Base.Words.{Int64, slt}
use rigo_go.Base.Result.{Result, ok, err, from_error}
use rigo_go.Base.Store.{Ref, Store, assign}
use rigo_go.Ledger.Tree.{TreeOps}
use rigo_go.Ledger.Simple.{iterate_read_all_items}
use rigo_go.Ledger.Finality.{FinalityLedger, set_finality, del_finality}
use rigo_go.Gov.Params.{GovParams, merge_gov_params}
use rigo_go.Gov.Params.Codec.{unmarshal_json}
use rigo_go.Gov.Proposal.{VoteOption, GovProposal, update_major_option}
use rigo_go.Gov.Ctrler.{
  GovCodec, GovCtrler, proposal_items, params_items, proposal_key, proposal_govparams,
}
use rigo_go.Gov.Ctrler.Blocks.{hotfix}

-- What `freezeProposals` changes while it iterates.
pub record Freezing (Tree : Type 0) : Type 0 where
  pub proposal_ledger : FinalityLedger Tree Ref
  pub frozen_ledger : FinalityLedger Tree Ref
  pub frozen : List Bytes
  pub removed : List Bytes

-- What `applyProposals` changes while it iterates.
pub record Applying (Tree : Type 0) : Type 0 where
  pub frozen_ledger : FinalityLedger Tree Ref
  pub params_ledger : FinalityLedger Tree GovParams
  pub new_gov_params : Option GovParams
  pub applied : List Bytes

-- the lists of the three kinds of events of `EndBlock`
pub record Closed : Type 0 where
  pub frozen : List Bytes
  pub removed : List Bytes
  pub applied : List Bytes

module _ {Tree : Type 0} (codec : GovCodec) (trees : TreeOps Tree) where
  -- the callback of `freezeProposals` once the major option was looked for
  unfoldable pub froze :
      Ref
      → Freezing Tree
      → Store GovProposal
      → Result (Option VoteOption × GovProposal)
      → Result (Unit {0}) × Freezing Tree × Store GovProposal
  unfolding assign set_finality
  froze r f h (err e) = (err e, f, h)
  froze r f h (ok (none, prop)) =
      (ok tt, record f { removed = f.removed ++ prop.tx_hash ∷ [] }, assign r.id prop h)
  froze r f h (ok (some o, prop)) = (
    ok tt,
    record f {
      frozen_ledger = set_finality (proposal_items codec) trees r f.frozen_ledger;
      frozen = f.frozen ++ prop.tx_hash ∷ [];
    },
    assign r.id prop h,
  )

  unfoldable pub freeze_after :
      Ref
      → Freezing Tree
      → Result Ref × FinalityLedger Tree Ref × Store GovProposal
      → Result (Unit {0}) × Freezing Tree × Store GovProposal
  unfolding froze update_major_option
  freeze_after r f (err e, l, h) = (err e, record f { proposal_ledger = l }, h)
  freeze_after r f (ok _, l, h) =
      froze r (record f { proposal_ledger = l }) h (update_major_option (h.cell r.id))

  -- the callback of `freezeProposals`
  unfoldable pub freeze_one :
      Int64
      → Ref
      → Freezing Tree × Store GovProposal
      → Result (Unit {0}) × Freezing Tree × Store GovProposal
  unfolding slt del_finality freeze_after
  freeze_one height r (f, h) =
      if slt (h.cell r.id).end_voting_height height
      then freeze_after r f
          (del_finality (proposal_items codec) trees (proposal_key r) f.proposal_ledger h)
      else (ok tt, f, h)

  unfoldable pub freeze_proposals :
      Int64 → GovCtrler Tree → Result (List Bytes × List Bytes) × GovCtrler Tree
  unfolding iterate_read_all_items freeze_one
  freeze_proposals height s =
      let (r, f, h) =
        iterate_read_all_items (proposal_items codec) trees (freeze_one height)
          s.proposal_ledger.simple
          (
            record {
              proposal_ledger = s.proposal_ledger;
              frozen_ledger = s.frozen_ledger;
              frozen = [];
              removed = [];
            },
            s.heap,
          ) in
      (
        elim r [ ok _ ↦ ok (f.frozen, f.removed) | err e ↦ err e ],
        record s { proposal_ledger = f.proposal_ledger; frozen_ledger = f.frozen_ledger; heap = h },
      )

  -- a proposal of parameters, once its option was read
  unfoldable pub put_params :
      GovParams → Applying Tree → Result GovParams → Result (Unit {0}) × Applying Tree
  unfolding from_error merge_gov_params set_finality
  put_params old a (err e) = (err (from_error e), a)
  put_params old a (ok params) =
      let merged = merge_gov_params old params in
      (
        ok tt,
        record a {
          params_ledger = set_finality (params_items codec.params) trees merged a.params_ledger;
          new_gov_params = some merged;
        },
      )

  abbrev pub applied_too :
      Bytes → Result (Unit {0}) × Applying Tree → Result (Unit {0}) × Applying Tree
  applied_too tx_hash (err e, a) = (err e, a)
  applied_too tx_hash (ok _, a) = (ok tt, record a { applied = a.applied ++ tx_hash ∷ [] })

  -- the switch of `applyProposals` on the kind of a proposal with a major option
  unfoldable pub apply_option :
      GovParams → GovProposal → VoteOption → Applying Tree → Result (Unit {0}) × Applying Tree
  unfolding unmarshal_json hotfix put_params
  apply_option old prop opt a = applied_too prop.tx_hash (
      if prop.opt_type == proposal_govparams
      then put_params old a (unmarshal_json codec.params (hotfix opt.option))
      else (ok tt, a))

  unfoldable pub apply_after :
      GovParams
      → GovProposal
      → Applying Tree
      → Result Ref × FinalityLedger Tree Ref × Store GovProposal
      → Result (Unit {0}) × Applying Tree × Store GovProposal
  unfolding apply_option
  apply_after old prop a (err e, l, h) = (err e, record a { frozen_ledger = l }, h)
  apply_after old prop a (ok _, l, h) = elim prop.major_option [
    | none ↦ (ok tt, record a { frozen_ledger = l }, h)
    | some opt ↦
        let (r, a') = apply_option old prop opt (record a { frozen_ledger = l }) in (r, a', h)
  ]

  -- the callback of `applyProposals`
  unfoldable pub apply_one :
      GovParams
      → Int64
      → Ref
      → Applying Tree × Store GovProposal
      → Result (Unit {0}) × Applying Tree × Store GovProposal
  unfolding slt del_finality apply_after
  apply_one old height r (a, h) =
      if slt height (h.cell r.id).applying_height
      then (ok tt, a, h)
      else apply_after old (h.cell r.id) a
          (del_finality (proposal_items codec) trees (proposal_key r) a.frozen_ledger h)

  unfoldable pub apply_proposals : Int64 → GovCtrler Tree → Result (List Bytes) × GovCtrler Tree
  unfolding iterate_read_all_items apply_one
  apply_proposals height s =
      let (r, a, h) =
        iterate_read_all_items (proposal_items codec) trees (apply_one s.gov_params height)
          s.frozen_ledger.simple
          (
            record {
              frozen_ledger = s.frozen_ledger;
              params_ledger = s.params_ledger;
              new_gov_params = s.new_gov_params;
              applied = [];
            },
            s.heap,
          ) in
      (
        elim r [ ok _ ↦ ok a.applied | err e ↦ err e ],
        record s {
          frozen_ledger = a.frozen_ledger;
          params_ledger = a.params_ledger;
          new_gov_params = a.new_gov_params;
          heap = h;
        },
      )

  -- what follows `freezeProposals` in `EndBlock`
  unfoldable pub close_after :
      Int64 → Result (List Bytes × List Bytes) × GovCtrler Tree → Result Closed × GovCtrler Tree
  unfolding apply_proposals
  close_after height (err e, s) = (err e, s)
  close_after height (ok (frozen, removed), s) =
      let (r, s') = apply_proposals height s in
      (
        elim r [
          | ok applied ↦ ok (record { frozen = frozen; removed = removed; applied = applied })
          | err e ↦ err e
        ],
        s',
      )

  unfoldable pub end_block : Int64 → GovCtrler Tree → Result Closed × GovCtrler Tree
  unfolding freeze_proposals close_after
  end_block height s = close_after height (freeze_proposals height s)
