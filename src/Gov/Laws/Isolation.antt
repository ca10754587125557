-- ===== src/Gov/Laws/Isolation.antt =====
-- Transactions of governance outside a block (`exec` is false) do not touch the caches of the block
-- that is being executed, nor the parameters (ctrlers/gov/ctrler.go).
use rigo_go.Base.{◌≡◌, Bool, true, false, Option, refl, arith}
use rigo_go.Base.Bytes.{Bytes}
use rigo_go.Base.Store.{Ref}
use rigo_go.Ledger.MemItems.{MemItems}
use rigo_go.Ledger.Tree.{TreeOps}
use rigo_go.Ledger.Finality.{FinalityLedger}
use rigo_go.Gov.Params.{GovParams}
use rigo_go.Gov.Ctrler.{
  GovCodec, GovCtrler, StakeHandler, get_proposal, set_proposal, validate_trx, validate_proposing,
  validate_voting, proposing_after, voting_after, execute_trx, exec_proposing, exec_voting,
  exec_voting_after, voted,
}
use rigo_go.Trx.{TrxContext}

-- The caches of the block that is being executed, the trees that they are written to, and the
-- parameters.
pub record GovBlock (Tree : Type 0) : Type 0 where
  pub gov_params : GovParams
  pub new_gov_params : Option GovParams
  pub params_ledger : FinalityLedger Tree GovParams
  pub proposals : MemItems Ref
  pub proposal_tree : Tree
  pub frozen_ledger : FinalityLedger Tree Ref

abbrev pub gov_block : {Tree : Type 0} → GovCtrler Tree → GovBlock Tree
gov_block s = record {
  gov_params = s.gov_params;
  new_gov_params = s.new_gov_params;
  params_ledger = s.params_ledger;
  proposals = s.proposal_ledger.finality_items;
  proposal_tree = s.proposal_ledger.tree;
  frozen_ledger = s.frozen_ledger;
}

module _ {Tree : Type 0} (codec : GovCodec) (trees : TreeOps Tree) where
  get_proposal-block :
      (k : Bytes) (exec : Bool) (s : GovCtrler Tree)
      → exec ≡ false
      → gov_block (get_proposal codec trees k exec s).1 ≡ gov_block s
  unfolding get_proposal
  get_proposal-block k true s e = cc
  get_proposal-block k false s e = refl

  set_proposal-block :
      (r : Ref) (exec : Bool) (s : GovCtrler Tree)
      → exec ≡ false
      → gov_block (set_proposal codec trees r exec s) ≡ gov_block s
  unfolding set_proposal
  set_proposal-block r true s e = cc
  set_proposal-block r false s e = refl

  pub validate_trx-block :
      (stake : StakeHandler) (ctx : TrxContext) (s : GovCtrler Tree)
      → ctx.exec ≡ false
      → gov_block (validate_trx codec trees stake ctx s).1 ≡ gov_block s
  unfolding validate_trx validate_proposing validate_voting proposing_after voting_after
      get_proposal
  validate_trx-block stake ctx s e = ground (arith, e)

  pub execute_trx-block :
      (stake : StakeHandler) (ctx : TrxContext) (s : GovCtrler Tree)
      → ctx.exec ≡ false
      → gov_block (execute_trx codec trees stake ctx s).1 ≡ gov_block s
  unfolding execute_trx exec_proposing exec_voting exec_voting_after voted get_proposal set_proposal
  execute_trx-block stake ctx s e = ground (arith, e)
