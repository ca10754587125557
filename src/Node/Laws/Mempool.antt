-- ===== src/Node/Laws/Mempool.antt =====
-- What comes to the mempool does not touch the block that is being executed (`CheckTx` of
-- node/app.go, over node/trx_executor.go).
use rigo_go.Base.{
  ℕ, List, ◌≡◌, inl, inr, Bool, true, false, Option, none, some, refl, ap, ◌∙◌, arith,
}
use rigo_go.Base.Bytes.{Bytes}
use rigo_go.Base.Words.{Int64, add64}
use rigo_go.Base.Result.{Result, ok, err, Result-cases}
use rigo_go.Account.Ctrler.{AcctCtrler, find_account, set_account_committable}
use rigo_go.Account.Laws.Isolation.{
  AcctBlock, acct_block, find_account-block, find_or_new_account-block,
}
use rigo_go.Trx.{Trx, TrxContext}
use rigo_go.Node.Executor.{
  Ran, Handlers, common_validation0, common_validation1, validate_by_type, validate_trx,
  run_by_type, run_trx, post_run_trx, post_by, charge, charge_after, execute_sync, and_then,
}
use rigo_go.Node.App.{Ctrlers, AppWorld, Env, RigoApp, handlers_of, context_of}
use rigo_go.Node.BlockContext.{BlockContext}
use rigo_go.Node.App.Delivering.{Response, answered, check_tx, checked, execute}
use rigo_go.Node.Laws.Heights.{check_tx-contexts}
use rigo_go.Account.Struct.{Account}
use rigo_go.Stake.Delegatee.{Delegatee}
use rigo_go.Gov.Proposal.{GovProposal}
use rigo_go.Node.Laws.Pooled.{AreDelegatees, AreProposals, check_tx-Kept}
use rigo_go.Node.Laws.Objects.{AreOutside, check_tx-AreOutside}
use rigo_go.Node.Laws.Isolation.{
  world_block, IsIsolated, AreIsolated, accounts-IsIsolated, handlers_of-AreIsolated,
}

module _ {Tree V Db : Type 0} (env : Env Tree V Db) where
  validate_by_type-IsIsolated :
      (hs : Handlers Tree (Ctrlers Tree V))
      → AreIsolated hs
      → IsIsolated (validate_by_type env.acct_codec env.trees env.sign hs)
  unfolding validate_by_type
  validate_by_type-IsIsolated hs are = record {
    isolated = λ ctx w e. ground (
      arith,
      e,
      are.gov.0.isolated ctx w e,
      are.stake.0.isolated ctx w e,
      are.evm.0.isolated ctx w e,
    );
  }

  validated_exec :
      (hs : Handlers Tree (Ctrlers Tree V)) (ctx ctx' : TrxContext)
      → common_validation0 hs env.sign ctx ≡ ok ctx'
      → ctx'.exec ≡ ctx.exec
  unfolding common_validation0
  validated_exec hs ctx ctx' e = ground (arith, e)

  validate_trx-IsIsolated :
      (hs : Handlers Tree (Ctrlers Tree V))
      → AreIsolated hs
      → IsIsolated (validate_trx env.acct_codec env.trees env.sign hs)
  unfolding validate_trx
  validate_trx-IsIsolated hs are = record {
    isolated = λ ctx w e. elim (Result-cases (common_validation0 hs env.sign ctx)) [
      | inr (x, d) ↦ rw (d, validate_trx) (refl, e)
      | inl (ctx', d) ↦
          let e' = validated_exec hs ctx ctx' d ∙ e in
          elim (Result-cases (common_validation1 ctx'.tx (w.accts.heap.cell ctx'.sender.id))) [
            | inr (x, d') ↦ rw (d, d', validate_trx) (refl, e')
            | inl (_, d') ↦
                rw (d, d', validate_trx) ((validate_by_type-IsIsolated hs are).isolated ctx' w e')
          ]
    ];
  }

  run_by_type-IsIsolated :
      (hs : Handlers Tree (Ctrlers Tree V))
      → AreIsolated hs
      → IsIsolated (run_by_type env.acct_codec env.trees env.sign hs)
  unfolding run_by_type
  run_by_type-IsIsolated hs are = record {
    isolated = λ ctx w e. ground (
      arith,
      e,
      are.gov.1.isolated ctx w e,
      are.stake.1.isolated ctx w e,
      are.evm.1.isolated ctx w e,
      (accounts-IsIsolated env).isolated ctx w e,
    );
  }

  post_run_trx-IsIsolated : IsIsolated {V = V} (post_run_trx env.acct_codec env.trees env.sign)
  unfolding post_run_trx post_by charge charge_after set_account_committable
  post_run_trx-IsIsolated = record { isolated = λ ctx w e. ground (arith, e) }

  and_then-IsIsolated :
      (act next : TrxContext → AppWorld Tree V → Ran Tree (Ctrlers Tree V))
      → IsIsolated act
      → IsIsolated next
      → IsIsolated (λ ctx w. and_then env.acct_codec env.trees env.sign (act ctx w) next)
  and_then-IsIsolated act next first second = record {
    isolated = λ ctx w e.
        let (same, e') = first.isolated ctx w e in
        let (same', e'') = second.isolated (act ctx w).ctx (act ctx w).world e' in
        elim (Result-cases (act ctx w).result) [
          | inr (x, d) ↦ rw (d, and_then) (same, e')
          | inl (_, d) ↦ rw (d, and_then) (same' ∙ same, e'')
        ];
  }

  execute_sync-IsIsolated :
      (hs : Handlers Tree (Ctrlers Tree V))
      → AreIsolated hs
      → IsIsolated (execute_sync env.acct_codec env.trees env.sign hs)
  unfolding execute_sync run_trx
  execute_sync-IsIsolated hs are =
      let run = λ (ctx : TrxContext) (w : AppWorld Tree V).
        run_by_type env.acct_codec env.trees env.sign hs ctx w in
      let post = λ (ctx : TrxContext) (w : AppWorld Tree V).
        post_run_trx env.acct_codec env.trees env.sign ctx w in
      let both =
        and_then-IsIsolated run post (run_by_type-IsIsolated hs are) post_run_trx-IsIsolated in
      record {
        isolated =
            (and_then-IsIsolated
              (λ (ctx : TrxContext) (w : AppWorld Tree V).
                validate_trx env.acct_codec env.trees env.sign hs ctx w)
              (λ (ctx : TrxContext) (w : AppWorld Tree V).
                run_trx env.acct_codec env.trees env.sign hs ctx w)
              (validate_trx-IsIsolated hs are) (record { isolated = both.isolated })).isolated;
      }

  execute-IsIsolated : IsIsolated (execute env)
  unfolding execute
  execute-IsIsolated = record {
    isolated = λ ctx w e. elim (Result-cases (handlers_of env w.rest.gov.gov_params)) [
      | inr (x, d) ↦ rw (d, execute) (refl, e)
      | inl (hs, d) ↦
          rw (d, execute)
            ((execute_sync-IsIsolated hs
                (handlers_of-AreIsolated env w.rest.gov.gov_params hs d)).isolated
              ctx w e)
    ];
  }

  context_of-block :
      (tx : Trx) (hash : Bytes) (height : Int64) (s : AcctCtrler Tree)
      → let out = context_of env tx hash height false s in
        (acct_block out.1 ≡ acct_block s) × ((ctx : TrxContext) → out.0 ≡ ok ctx → ctx.exec ≡ false)
  unfolding context_of
  context_of-block tx hash height s =
      let (found, s₁) = find_account env.acct_codec env.trees env.sign tx.from false s in
      let first = find_account-block env.acct_codec env.trees env.sign tx.from false s refl in
      let second =
        find_or_new_account-block env.acct_codec env.trees env.sign tx.to false s₁ refl in
      (ground (arith, first, second), λ ctx e. ground (arith, e))

  checked-block :
      (a : RigoApp Tree V Db) (out : Result TrxContext × AcctCtrler Tree)
      → acct_block out.1 ≡ acct_block a.world.accts
      → ((ctx : TrxContext) → out.0 ≡ ok ctx → ctx.exec ≡ false)
      → let a' : RigoApp Tree V Db = record a { world = record a.world { accts = out.1 } } in
        world_block
          (elim out.0 as (λ _. Result Response × RigoApp Tree V Db) [
            | err e ↦ (answered e, a')
            | ok ctx ↦ checked env (execute env ctx a'.world) a'
          ]).1.world
        ≡ world_block a.world
  unfolding checked
  checked-block a (err x, s) same exec =
      ap (λ (b : AcctBlock Tree). record (world_block a.world) { accts = b }) same
  checked-block a (ok ctx, s) same exec =
      (execute-IsIsolated.isolated ctx (record a.world { accts = s }) (exec ctx refl)).0
      ∙ ap (λ (b : AcctBlock Tree). record (world_block a.world) { accts = b }) same

  check_tx-world :
      (new : Bool) (bz : Bytes) (a : RigoApp Tree V Db) (last : Option BlockContext)
      → a.last_block_ctx ≡ last
      → world_block (check_tx env new bz a).1.world ≡ world_block a.world
  unfolding check_tx
  check_tx-world false bz a last d = refl
  check_tx-world true bz a none d = rw (d, check_tx) refl
  check_tx-world true bz a (some last) d = elim (Result-cases (env.decode_trx bz)) [
    | inr (x, e) ↦ rw (d, e, check_tx) refl
    | inl (tx, e) ↦
        let height = add64 last.block_info.height 1 in
        let out = context_of env tx (env.hash_trx bz) height false a.world.accts in
        let (same, exec) = context_of-block tx (env.hash_trx bz) height a.world.accts in
        rw (d, e, check_tx) (checked-block a out same exec)
  ]

  -- `CheckTx`, whatever the transaction, its type and its outcome, leaves the caches of the block
  -- that is being executed, the trees of all ledgers, the parameters, the state of the EVM and the
  -- contexts of the last and the next block as they were. And, of any lists of objects in use, accounts,
  -- delegatees and proposals, that the caches of the checks do not hold, such as those of the block,
  -- it changes none, and the caches of the checks still hold none of them.
  pub check_tx-block :
      (objects : List (ℕ × Account)) (ds : List (ℕ × Delegatee)) (ps : List (ℕ × GovProposal))
      (new : Bool) (bz : Bytes) (a : RigoApp Tree V Db)
      → AreOutside objects a.world.accts
      → AreDelegatees ds a.world.rest.stake
      → AreProposals ps a.world.rest.gov
      → let a' = (check_tx env new bz a).1 in
        (world_block a'.world ≡ world_block a.world)
        × AreOutside objects a'.world.accts
        × AreDelegatees ds a'.world.rest.stake
        × AreProposals ps a'.world.rest.gov
        × (a'.last_block_ctx ≡ a.last_block_ctx)
        × (a'.next_block_ctx ≡ a.next_block_ctx)
  check_tx-block objects ds ps new bz a outside delegatees proposals =
      let (last, next) = check_tx-contexts env new bz a in
      let kept = check_tx-Kept env ds ps new bz a delegatees proposals in
      (
        check_tx-world new bz a a.last_block_ctx refl,
        check_tx-AreOutside env objects new bz a outside,
        kept.0,
        kept.1,
        last,
        next,
      )
