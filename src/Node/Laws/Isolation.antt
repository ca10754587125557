-- ===== src/Node/Laws/Isolation.antt =====
-- The controllers as handlers of the executor outside a block (node/app.go): they leave the block
-- that is being executed alone.
use rigo_go.Base.{◌≡◌, false, refl, ap, arith}
use rigo_go.Base.Result.{ok}
use rigo_go.Account.Laws.Isolation.{AcctBlock, acct_block, execute_trx-acct_block}
use rigo_go.Gov.Params.{GovParams, min_trx_fee}
use rigo_go.Gov.Laws.Isolation as GovIsolation
use rigo_go.Gov.Laws.Isolation.{GovBlock, gov_block}
use rigo_go.Stake.Laws.Ctrler.Checking
use rigo_go.Stake.Laws.Ctrler.Isolation.{BlockState, block_state, execute_trx-block}
use rigo_go.Trx.{TrxContext}
use rigo_go.Node.Executor.{Ran, Handlers, accounts_execute}
use rigo_go.Node.Evm.{evm_handler, validate_evm, execute_evm}
use rigo_go.Node.App.{
  Ctrlers, AppWorld, Env, gov_handler, stake_handler, stake_handler_of, handlers_of,
}

-- The caches of the block that is being executed and the trees of all ledgers, the parameters, and
-- the state of the EVM.
pub record WorldBlock (Tree V : Type 0) : Type 0 where
  pub accts : AcctBlock Tree
  pub gov : GovBlock Tree
  pub stake : BlockState Tree
  pub vm : V

abbrev pub world_block : {Tree V : Type 0} → AppWorld Tree V → WorldBlock Tree V
world_block w = record {
  accts = acct_block w.accts;
  gov = gov_block w.rest.gov;
  stake = block_state w.rest.stake;
  vm = w.rest.vm;
}

both_parts :
    {Tree V : Type 0} (b : WorldBlock Tree V) {a : AcctBlock Tree} {s : BlockState Tree}
    → a ≡ b.accts
    → s ≡ b.stake
    → record b { accts = a; stake = s } ≡ b
both_parts b p q = cc

module _ {Tree V : Type 0} where
  -- a handler that leaves them, and leaves the mode of the context
  pub record IsIsolated (act : TrxContext → AppWorld Tree V → Ran Tree (Ctrlers Tree V))
      : Type 0 where
    pub isolated :
        (ctx : TrxContext) (w : AppWorld Tree V)
        → ctx.exec ≡ false
        → (world_block (act ctx w).world ≡ world_block w) × ((act ctx w).ctx.exec ≡ false)

  -- the handlers of the executor
  pub record AreIsolated (hs : Handlers Tree (Ctrlers Tree V)) : Type 0 where
    pub gov : IsIsolated hs.gov.validate_trx × IsIsolated hs.gov.execute_trx
    pub stake : IsIsolated hs.stake.validate_trx × IsIsolated hs.stake.execute_trx
    pub evm : IsIsolated hs.evm.validate_trx × IsIsolated hs.evm.execute_trx

module _ {Tree V Db : Type 0} (env : Env Tree V Db) where
  validate_gov-IsIsolated : IsIsolated (gov_handler env).validate_trx
  validate_gov-IsIsolated = record {
    isolated = λ ctx w e. (
      ap (λ (g : GovBlock Tree). record (world_block w) { gov = g })
          (GovIsolation.validate_trx-block env.gov_codec env.trees
            (stake_handler_of env w.rest.stake) ctx w.rest.gov e),
      e,
    );
  }

  execute_gov-IsIsolated : IsIsolated (gov_handler env).execute_trx
  execute_gov-IsIsolated = record {
    isolated = λ ctx w e. (
      ap (λ (g : GovBlock Tree). record (world_block w) { gov = g })
          (GovIsolation.execute_trx-block env.gov_codec env.trees
            (stake_handler_of env w.rest.stake) ctx w.rest.gov e),
      e,
    );
  }

  validate_stake-IsIsolated : IsIsolated (stake_handler env).validate_trx
  validate_stake-IsIsolated = record {
    isolated = λ ctx w e. (
      ap (λ (s : BlockState Tree). record (world_block w) { stake = s })
          (Checking.validate_trx-block env.stake_codec env.trees w.rest.gov.gov_params ctx
            w.rest.stake e),
      e,
    );
  }

  execute_stake-IsIsolated : IsIsolated (stake_handler env).execute_trx
  execute_stake-IsIsolated = record {
    isolated = λ ctx w e. (
      both_parts (world_block w)
          (Checking.execute_trx-acct_block env.stake_codec env.acct_codec env.trees env.sign
            w.rest.gov.gov_params ctx w.rest.stake w.accts e)
          (execute_trx-block env.stake_codec env.acct_codec env.trees env.sign w.rest.gov.gov_params
            ctx w.rest.stake w.accts e),
      e,
    );
  }

  evm-IsIsolated :
      IsIsolated (evm_handler env.vm.evm).validate_trx
      × IsIsolated (evm_handler env.vm.evm).execute_trx
  unfolding validate_evm execute_evm
  evm-IsIsolated = (
    record { isolated = λ ctx w e. (refl, e) },
    record { isolated = λ ctx w e. ground (arith, e) },
  )

  pub accounts-IsIsolated : IsIsolated {V = V} (accounts_execute env.acct_codec env.trees env.sign)
  accounts-IsIsolated = record {
    isolated = λ ctx w e. (
      ap (λ (a : AcctBlock Tree). record (world_block w) { accts = a })
          (execute_trx-acct_block env.acct_codec env.trees env.sign ctx w.accts e),
      e,
    );
  }

  pub handlers_of-AreIsolated :
      (params : GovParams) (hs : Handlers Tree (Ctrlers Tree V))
      → handlers_of env params ≡ ok hs
      → AreIsolated hs
  unfolding handlers_of min_trx_fee
  handlers_of-AreIsolated params hs e =
      let is_gov : gov_handler env ≡ hs.gov = ground (arith, e) in
      let is_stake : stake_handler env ≡ hs.stake = ground (arith, e) in
      let is_evm : evm_handler env.vm.evm ≡ hs.evm = ground (arith, e) in
      record {
        gov = rw (← is_gov) (validate_gov-IsIsolated, execute_gov-IsIsolated);
        stake = rw (← is_stake) (validate_stake-IsIsolated, execute_stake-IsIsolated);
        evm = rw (← is_evm) evm-IsIsolated;
      }
