-- ===== src/Gov/Laws/Opening.antt =====
-- What `execProposing` of ctrlers/gov/ctrler.go makes of the validators.
use mathlib.Core.Path.{subst}
use rigo_go.Base.{◌^◌, ◌≡◌, ◌<◌, inl, some, List, [], ◌∷◌, arith, refl, sym, ap, ◌∙◌}
use rigo_go.Base.Bytes.{Bytes}
use rigo_go.Base.Lists.{length}
use rigo_go.Base.Words.{Int64}
use rigo_go.Base.Result.{ok}
use rigo_go.Base.Store.{Store, allocate, cell-allocate}
use rigo_go.Ledger.Map.{Map, insert, lookup, IsMap, insert-IsMap}
use rigo_go.Ledger.Tree.{TreeOps}
use rigo_go.Trx.{TrxContext, proposal, propose}
use rigo_go.Gov.Proposal.{Int32, Voter, GovProposal, not_choice, new_gov_proposal}
use rigo_go.Gov.Laws.Fresh.{IsUndecided, new_gov_proposal-IsTallied}
use rigo_go.Gov.Laws.Voting.{IsSound, set_proposal-heap}
use rigo_go.Gov.Ctrler.{
  GovCodec, StakeHandler, GovCtrler, voters_of, set_proposal, exec_proposing, execute_trx,
}

insert-IsUndecided :
    (k : Bytes) (v : Voter) (m : Map Voter)
    → v.choice ≡ not_choice
    → IsUndecided m
    → IsUndecided (insert k v m)
unfolding insert
insert-IsUndecided k v [] none_yet u = (none_yet, tt)
insert-IsUndecided k v ((j, w) ∷ m) none_yet u =
    ground (arith, none_yet, insert-IsUndecided k v m none_yet u.1)

lookup-IsUndecided :
    (k : Bytes) (v : Voter) (m : Map Voter)
    → IsUndecided m
    → lookup k m ≡ some v
    → v.choice ≡ not_choice
unfolding lookup
lookup-IsUndecided k v [] u e = cc
lookup-IsUndecided k v ((j, w) ∷ m) u e = ground (arith, u.0, lookup-IsUndecided k v m u.1, e)

module _ {Tree : Type 0} (codec : GovCodec) (trees : TreeOps Tree) where
  voters_of_lem :
      (vals : List (Bytes × Int64)) (voters : Map Voter)
      → IsMap voters
      → IsUndecided voters
      → IsMap (voters_of codec trees vals voters) × IsUndecided (voters_of codec trees vals voters)
  unfolding voters_of
  voters_of_lem [] voters distinct undecided = (distinct, undecided)
  voters_of_lem ((addr, power) ∷ vals) voters distinct undecided =
      let v : Voter = record { addr = addr; power = power; choice = not_choice } in
      voters_of_lem vals (insert addr v voters) (insert-IsMap addr v voters distinct)
        (insert-IsUndecided addr v voters refl undecided)

  new_proposal-IsSound :
      (stake : StakeHandler) (tx_hash : Bytes) (opt_type : Int32) (start period applying : Int64)
      (options : List Bytes)
      → length options < 2 ^ 31
      → IsSound (
          new_gov_proposal tx_hash opt_type start period stake.total_power applying
            (voters_of codec trees stake.validators [])
            options)
  unfolding new_gov_proposal
  new_proposal-IsSound stake tx_hash opt_type start period applying options few =
      let voters = voters_of codec trees stake.validators [] in
      let (distinct, undecided) = voters_of_lem stake.validators [] tt tt in
      record {
        tallied =
            new_gov_proposal-IsTallied tx_hash opt_type start period stake.total_power applying
              voters options distinct undecided few;
        chosen =
            λ addr v found. inl (ground (arith, lookup-IsUndecided addr v voters undecided found));
      }

  -- A proposal that is executed with less than 2^31 options succeeds, and the object that it makes
  -- is a tallied proposal in which every voter's choice is an option that there is or none.
  pub execute_trx-proposing :
      (stake : StakeHandler) (ctx : TrxContext) (s : GovCtrler Tree) (message : Bytes)
      (start period applying : Int64) (opt_type : Int32) (options : List Bytes)
      → ctx.tx.type ≡ proposal
      → ctx.tx.payload ≡ some (propose message start period applying opt_type options)
      → length options < 2 ^ 31
      → ((execute_trx codec trees stake ctx s).0 ≡ ok tt)
        × IsSound ((execute_trx codec trees stake ctx s).1.heap.cell s.heap.next)
  unfolding execute_trx exec_proposing
  execute_trx-proposing stake ctx s message start period applying opt_type options is_proposal
        has_payload few =
      let prop =
        new_gov_proposal ctx.tx_hash opt_type start period stake.total_power applying
          (voters_of codec trees stake.validators []) options in
      let (r, h) = allocate ctx.tx_hash prop s.heap in
      let sound =
        new_proposal-IsSound stake ctx.tx_hash opt_type start period applying options few in
      let kept = set_proposal-heap codec trees r ctx.exec (record s { heap = h }) in
      let at : (set_proposal codec trees r ctx.exec (record s { heap = h })).heap.cell s.heap.next
          ≡ prop =
        ap (λ (x : Store GovProposal). x.cell s.heap.next) kept
        ∙ cell-allocate ctx.tx_hash prop s.heap in
      rw (is_proposal, has_payload) (refl, subst (λ x. IsSound x) (sym at) sound)
