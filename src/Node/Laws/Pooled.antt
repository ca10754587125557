-- ===== src/Node/Laws/Pooled.antt =====
-- What comes to the mempool works on delegatee and proposal objects of its own (`CheckTx` of
-- node/app.go, over node/trx_executor.go).
use mathlib.Core.Path.{subst}
use rigo_go.Base.{
  ℕ, sym, ◌≡◌, inl, inr, Bool, true, false, Option, none, some, refl, arith, List, [], ◌∷◌,
}
use rigo_go.Base.Bytes.{Bytes}
use rigo_go.Base.Words.{Int64, add64}
use rigo_go.Base.Result.{Result, ok, err, Result-cases}
use rigo_go.Account.Heap.{Heap}
use rigo_go.Account.Ctrler.{AcctCtrler}
use rigo_go.Gov.Params.{GovParams, min_trx_fee}
use rigo_go.Gov.Proposal.{GovProposal}
use rigo_go.Gov.Ctrler.{GovCtrler}
use rigo_go.Gov.Laws.Objects as Proposals
use rigo_go.Stake.Delegatee.{Delegatee}
use rigo_go.Stake.Ctrler.{StakeCtrler}
use rigo_go.Stake.Laws.Ctrler.Delegatees
use rigo_go.Trx.{
  Trx, TrxContext, TrxType, transfer, staking, unstaking, proposal, voting, contract, setdoc,
  withdraw,
}
use rigo_go.Node.Executor.{
  Ran, Handlers, receiver_has_code, common_validation0, common_validation1, validate_by_type,
  validate_trx, run_by_type, run_trx, post_run_trx, post_by, charge, charge_after, execute_sync,
  and_then, accounts_execute,
}
use rigo_go.Node.Evm.{evm_handler, validate_evm, execute_evm}
use rigo_go.Node.App.{
  Ctrlers, AppWorld, Env, RigoApp, gov_handler, stake_handler, stake_handler_of, handlers_of,
  context_of,
}
use rigo_go.Node.BlockContext.{BlockContext}
use rigo_go.Node.App.Delivering.{Response, answered, check_tx, checked, execute}

-- Each of the listed objects is in use, has in it what is listed with it, and is not one that the
-- cache of the checks holds.
abbrev pub AreDelegatees : {Tree : Type 0} → List (ℕ × Delegatee) → StakeCtrler Tree → Type 0
AreDelegatees [] s = Unit
AreDelegatees ((i, d) ∷ objects) s = Delegatees.IsOutside i d s × AreDelegatees objects s

abbrev pub AreProposals : {Tree : Type 0} → List (ℕ × GovProposal) → GovCtrler Tree → Type 0
AreProposals [] s = Unit
AreProposals ((i, p) ∷ objects) s = Proposals.IsOutside i p s × AreProposals objects s

module _ {Tree V Db : Type 0} (env : Env Tree V Db) (ds : List (ℕ × Delegatee))
    (ps : List (ℕ × GovProposal)) where
  abbrev Kept : Ctrlers Tree V → Type 0
  Kept c = AreDelegatees ds c.stake × AreProposals ps c.gov

  validate_stake-AreDelegatees :
      (objects : List (ℕ × Delegatee)) (ctx : TrxContext) (w : AppWorld Tree V)
      → ctx.exec ≡ false
      → AreDelegatees objects w.rest.stake
      → AreDelegatees objects ((stake_handler env).validate_trx ctx w).world.rest.stake
  validate_stake-AreDelegatees [] ctx w e o = tt
  validate_stake-AreDelegatees ((i, d) ∷ objects) ctx w e o = (
    Delegatees.validate_trx-Outside env.stake_codec env.trees i d w.rest.gov.gov_params ctx
        w.rest.stake e o.0,
    validate_stake-AreDelegatees objects ctx w e o.1,
  )

  execute_stake-AreDelegatees :
      (objects : List (ℕ × Delegatee)) (ctx : TrxContext) (w : AppWorld Tree V)
      → ctx.exec ≡ false
      → AreDelegatees objects w.rest.stake
      → AreDelegatees objects ((stake_handler env).execute_trx ctx w).world.rest.stake
  execute_stake-AreDelegatees [] ctx w e o = tt
  execute_stake-AreDelegatees ((i, d) ∷ objects) ctx w e o = (
    Delegatees.execute_trx-Outside env.stake_codec env.acct_codec env.trees env.sign i d
        w.rest.gov.gov_params ctx w.rest.stake w.accts e o.0,
    execute_stake-AreDelegatees objects ctx w e o.1,
  )

  validate_gov-AreProposals :
      (objects : List (ℕ × GovProposal)) (ctx : TrxContext) (w : AppWorld Tree V)
      → ctx.exec ≡ false
      → AreProposals objects w.rest.gov
      → AreProposals objects ((gov_handler env).validate_trx ctx w).world.rest.gov
  validate_gov-AreProposals [] ctx w e o = tt
  validate_gov-AreProposals ((i, p) ∷ objects) ctx w e o = (
    Proposals.validate_trx-Outside env.gov_codec env.trees i p (stake_handler_of env w.rest.stake)
        ctx w.rest.gov e o.0,
    validate_gov-AreProposals objects ctx w e o.1,
  )

  execute_gov-AreProposals :
      (objects : List (ℕ × GovProposal)) (ctx : TrxContext) (w : AppWorld Tree V)
      → ctx.exec ≡ false
      → AreProposals objects w.rest.gov
      → AreProposals objects ((gov_handler env).execute_trx ctx w).world.rest.gov
  execute_gov-AreProposals [] ctx w e o = tt
  execute_gov-AreProposals ((i, p) ∷ objects) ctx w e o = (
    Proposals.execute_trx-Outside env.gov_codec env.trees i p (stake_handler_of env w.rest.stake)
        ctx w.rest.gov e o.0,
    execute_gov-AreProposals objects ctx w e o.1,
  )

  abbrev IsLeft : Ran Tree (Ctrlers Tree V) → Type 0
  IsLeft out = (out.ctx.exec ≡ false) × Kept out.world.rest

  record IsApart (act : TrxContext → AppWorld Tree V → Ran Tree (Ctrlers Tree V)) : Type 0 where
    apart :
        (ctx : TrxContext) (w : AppWorld Tree V)
        → ctx.exec ≡ false
        → Kept w.rest
        → IsLeft (act ctx w)

  record AreApart (hs : Handlers Tree (Ctrlers Tree V)) : Type 0 where
    gov : IsApart hs.gov.validate_trx × IsApart hs.gov.execute_trx
    stake : IsApart hs.stake.validate_trx × IsApart hs.stake.execute_trx
    evm : IsApart hs.evm.validate_trx × IsApart hs.evm.execute_trx

  gov-IsApart : IsApart (gov_handler env).validate_trx × IsApart (gov_handler env).execute_trx
  gov-IsApart = (
    record { apart = λ ctx w e o. (e, (o.0, validate_gov-AreProposals ps ctx w e o.1)) },
    record { apart = λ ctx w e o. (e, (o.0, execute_gov-AreProposals ps ctx w e o.1)) },
  )

  stake-IsApart : IsApart (stake_handler env).validate_trx × IsApart (stake_handler env).execute_trx
  stake-IsApart = (
    record { apart = λ ctx w e o. (e, (validate_stake-AreDelegatees ds ctx w e o.0, o.1)) },
    record { apart = λ ctx w e o. (e, (execute_stake-AreDelegatees ds ctx w e o.0, o.1)) },
  )

  IsLeft-as : {out out' : Ran Tree (Ctrlers Tree V)} → out' ≡ out → IsLeft out → IsLeft out'
  IsLeft-as e left = subst (λ x. IsLeft x) (sym e) left

  execute_evm-unused :
      (ctx : TrxContext) (w : AppWorld Tree V)
      → ctx.exec ≡ false
      → (evm_handler env.vm.evm).execute_trx ctx w ≡ record { result = ok tt; ctx = ctx; world = w }
  unfolding execute_evm
  execute_evm-unused ctx w e = ground (arith, e)

  evm-IsApart :
      IsApart (evm_handler env.vm.evm).validate_trx × IsApart (evm_handler env.vm.evm).execute_trx
  unfolding validate_evm execute_evm
  evm-IsApart = (
    record { apart = λ ctx w others o. (others, o) },
    record { apart = λ ctx w others o. IsLeft-as (execute_evm-unused ctx w others) (others, o) },
  )

  accounts-IsApart : IsApart (accounts_execute env.acct_codec env.trees env.sign)
  accounts-IsApart = record { apart = λ ctx w e o. (e, o) }

  handlers_of-AreApart :
      (params : GovParams) (hs : Handlers Tree (Ctrlers Tree V))
      → handlers_of env params ≡ ok hs
      → AreApart hs
  unfolding handlers_of min_trx_fee
  handlers_of-AreApart params hs e =
      let is_gov : gov_handler env ≡ hs.gov = ground (arith, e) in
      let is_stake : stake_handler env ≡ hs.stake = ground (arith, e) in
      let is_evm : evm_handler env.vm.evm ≡ hs.evm = ground (arith, e) in
      record {
        gov = rw (← is_gov) gov-IsApart;
        stake = rw (← is_stake) stake-IsApart;
        evm = rw (← is_evm) evm-IsApart;
      }

  validated_exec :
      (hs : Handlers Tree (Ctrlers Tree V)) (ctx ctx' : TrxContext)
      → common_validation0 hs env.sign ctx ≡ ok ctx'
      → ctx.exec ≡ false
      → ctx'.exec ≡ false
  unfolding common_validation0
  validated_exec hs ctx ctx' e exec = ground (arith, e, exec)

  by_type-IsLeft :
      (hs : Handlers Tree (Ctrlers Tree V)) (type : TrxType) (ctx : TrxContext)
      (w : AppWorld Tree V)
      → AreApart hs
      → ctx.tx.type ≡ type
      → ctx.exec ≡ false
      → Kept w.rest
      → IsLeft (validate_by_type env.acct_codec env.trees env.sign hs ctx w)
  unfolding validate_by_type
  by_type-IsLeft hs proposal ctx w are is others o =
      rw (is, validate_by_type) (are.gov.0.apart ctx w others o)
  by_type-IsLeft hs voting ctx w are is others o =
      rw (is, validate_by_type) (are.gov.0.apart ctx w others o)
  by_type-IsLeft hs staking ctx w are is others o =
      rw (is, validate_by_type) (are.stake.0.apart ctx w others o)
  by_type-IsLeft hs unstaking ctx w are is others o =
      rw (is, validate_by_type) (are.stake.0.apart ctx w others o)
  by_type-IsLeft hs withdraw ctx w are is others o =
      rw (is, validate_by_type) (are.stake.0.apart ctx w others o)
  by_type-IsLeft hs contract ctx w are is others o =
      rw (is, validate_by_type) (are.evm.0.apart ctx w others o)
  by_type-IsLeft hs _ ctx w are is others o = rw (is, validate_by_type) (others, o)

  validate_trx-IsApart :
      (hs : Handlers Tree (Ctrlers Tree V))
      → AreApart hs
      → IsApart (validate_trx env.acct_codec env.trees env.sign hs)
  unfolding validate_trx
  validate_trx-IsApart hs are = record {
    apart = λ ctx w others o. elim (Result-cases (common_validation0 hs env.sign ctx)) [
      | inr (x, d) ↦ rw (d, validate_trx) (others, o)
      | inl (ctx', d) ↦
          let others' = validated_exec hs ctx ctx' d others in
          elim (Result-cases (common_validation1 ctx'.tx (w.accts.heap.cell ctx'.sender.id))) [
            | inr (x, d') ↦ rw (d, d', validate_trx) (others', o)
            | inl (_, d') ↦
                rw (d, d', validate_trx) (by_type-IsLeft hs ctx'.tx.type ctx' w are refl others' o)
          ]
    ];
  }

  run-IsLeft :
      (hs : Handlers Tree (Ctrlers Tree V)) (type : TrxType) (has_code : Result Bool)
      (ctx : TrxContext) (w : AppWorld Tree V)
      → AreApart hs
      → ctx.tx.type ≡ type
      → receiver_has_code ctx w.accts.heap ≡ has_code
      → ctx.exec ≡ false
      → Kept w.rest
      → IsLeft (run_by_type env.acct_codec env.trees env.sign hs ctx w)
  unfolding run_by_type
  run-IsLeft hs proposal code ctx w are is has others o =
      rw (is, run_by_type) (are.gov.1.apart ctx w others o)
  run-IsLeft hs voting code ctx w are is has others o =
      rw (is, run_by_type) (are.gov.1.apart ctx w others o)
  run-IsLeft hs staking code ctx w are is has others o =
      rw (is, run_by_type) (are.stake.1.apart ctx w others o)
  run-IsLeft hs unstaking code ctx w are is has others o =
      rw (is, run_by_type) (are.stake.1.apart ctx w others o)
  run-IsLeft hs withdraw code ctx w are is has others o =
      rw (is, run_by_type) (are.stake.1.apart ctx w others o)
  run-IsLeft hs contract code ctx w are is has others o =
      rw (is, run_by_type) (are.evm.1.apart ctx w others o)
  run-IsLeft hs setdoc code ctx w are is has others o =
      rw (is, run_by_type) (accounts-IsApart.apart ctx w others o)
  run-IsLeft hs transfer (err x) ctx w are is has others o = rw (is, has, run_by_type) (others, o)
  run-IsLeft hs transfer (ok true) ctx w are is has others o =
      rw (is, has, run_by_type) (are.evm.1.apart ctx w others o)
  run-IsLeft hs transfer (ok false) ctx w are is has others o =
      rw (is, has, run_by_type) (accounts-IsApart.apart ctx w others o)
  run-IsLeft hs _ code ctx w are is has others o = rw (is, run_by_type) (others, o)

  run_by_type-IsApart :
      (hs : Handlers Tree (Ctrlers Tree V))
      → AreApart hs
      → IsApart (run_by_type env.acct_codec env.trees env.sign hs)
  run_by_type-IsApart hs are = record {
    apart = λ ctx w others o.
        run-IsLeft hs ctx.tx.type (receiver_has_code ctx w.accts.heap) ctx w are refl refl others o;
  }

  charge_after-IsLeft :
      (ctx : TrxContext) (w : AppWorld Tree V) (out : Result (Unit {0}) × Heap)
      → ctx.exec ≡ false
      → Kept w.rest
      → IsLeft (charge_after env.acct_codec env.trees env.sign ctx w out)
  unfolding charge_after
  charge_after-IsLeft ctx w (err x, h) e o = (e, o)
  charge_after-IsLeft ctx w (ok _, h) e o = (e, o)

  post-IsLeft :
      (has_code : Result Bool) (ctx : TrxContext) (w : AppWorld Tree V)
      → ctx.exec ≡ false
      → Kept w.rest
      → IsLeft (post_by env.acct_codec env.trees env.sign ctx w has_code)
  unfolding post_by charge
  post-IsLeft (err x) ctx w e o = (e, o)
  post-IsLeft (ok true) ctx w e o = (e, o)
  post-IsLeft (ok false) ctx w e o = charge_after-IsLeft ctx w _ e o

  post_run_trx-IsApart : IsApart (post_run_trx env.acct_codec env.trees env.sign)
  unfolding post_run_trx
  post_run_trx-IsApart = record { apart = λ ctx w others o. post-IsLeft _ ctx w others o }

  and_then-IsApart :
      (act next : TrxContext → AppWorld Tree V → Ran Tree (Ctrlers Tree V))
      → IsApart act
      → IsApart next
      → IsApart (λ ctx w. and_then env.acct_codec env.trees env.sign (act ctx w) next)
  and_then-IsApart act next first second = record {
    apart = λ ctx w others o.
        let (others', o') = first.apart ctx w others o in
        let left = second.apart (act ctx w).ctx (act ctx w).world others' o' in
        elim (Result-cases (act ctx w).result) [
          | inr (x, d) ↦ rw (d, and_then) (others', o')
          | inl (_, d) ↦ rw (d, and_then) left
        ];
  }

  execute_sync-IsApart :
      (hs : Handlers Tree (Ctrlers Tree V))
      → AreApart hs
      → IsApart (execute_sync env.acct_codec env.trees env.sign hs)
  unfolding execute_sync run_trx
  execute_sync-IsApart hs are =
      let run = λ (ctx : TrxContext) (w : AppWorld Tree V).
        run_by_type env.acct_codec env.trees env.sign hs ctx w in
      let post = λ (ctx : TrxContext) (w : AppWorld Tree V).
        post_run_trx env.acct_codec env.trees env.sign ctx w in
      let both = and_then-IsApart run post (run_by_type-IsApart hs are) post_run_trx-IsApart in
      record {
        apart =
            (and_then-IsApart
              (λ (ctx : TrxContext) (w : AppWorld Tree V).
                validate_trx env.acct_codec env.trees env.sign hs ctx w)
              (λ (ctx : TrxContext) (w : AppWorld Tree V).
                run_trx env.acct_codec env.trees env.sign hs ctx w)
              (validate_trx-IsApart hs are) (record { apart = both.apart })).apart;
      }

  execute-IsApart : IsApart (execute env)
  unfolding execute
  execute-IsApart = record {
    apart = λ ctx w others o. elim (Result-cases (handlers_of env w.rest.gov.gov_params)) [
      | inr (x, d) ↦ rw (d, execute) (others, o)
      | inl (hs, d) ↦
          rw (d, execute)
            ((execute_sync-IsApart hs (handlers_of-AreApart w.rest.gov.gov_params hs d)).apart ctx w
              others o)
    ];
  }

  context_of-exec :
      (tx : Trx) (hash : Bytes) (height : Int64) (s : AcctCtrler Tree) (ctx : TrxContext)
      → (context_of env tx hash height false s).0 ≡ ok ctx
      → ctx.exec ≡ false
  unfolding context_of
  context_of-exec tx hash height s ctx e = ground (arith, e)

  checked-Kept :
      (a : RigoApp Tree V Db) (out : Result TrxContext × AcctCtrler Tree)
      → ((ctx : TrxContext) → out.0 ≡ ok ctx → ctx.exec ≡ false)
      → Kept a.world.rest
      → let a' : RigoApp Tree V Db = record a { world = record a.world { accts = out.1 } } in
        Kept
          (elim out.0 as (λ _. Result Response × RigoApp Tree V Db) [
            | err e ↦ (answered e, a')
            | ok ctx ↦ checked env (execute env ctx a'.world) a'
          ]).1.world.rest
  unfolding checked
  checked-Kept a (err x, s) exec o = o
  checked-Kept a (ok ctx, s) exec o =
      (execute-IsApart.apart ctx (record a.world { accts = s }) (exec ctx refl) o).1

  check_tx-rest :
      (new : Bool) (bz : Bytes) (a : RigoApp Tree V Db) (last : Option BlockContext)
      → a.last_block_ctx ≡ last
      → Kept a.world.rest
      → Kept (check_tx env new bz a).1.world.rest
  unfolding check_tx
  check_tx-rest false bz a last d o = o
  check_tx-rest true bz a none d o = rw (d, check_tx) o
  check_tx-rest true bz a (some last) d o = elim (Result-cases (env.decode_trx bz)) [
    | inr (x, e) ↦ rw (d, e, check_tx) o
    | inl (tx, e) ↦
        let height = add64 last.block_info.height 1 in
        let out = context_of env tx (env.hash_trx bz) height false a.world.accts in
        rw (d, e, check_tx)
          (checked-Kept a out (context_of-exec tx (env.hash_trx bz) height a.world.accts) o)
  ]

  pub check_tx-Kept :
      (new : Bool) (bz : Bytes) (a : RigoApp Tree V Db)
      → AreDelegatees ds a.world.rest.stake
      → AreProposals ps a.world.rest.gov
      → let c = (check_tx env new bz a).1.world.rest in
        AreDelegatees ds c.stake × AreProposals ps c.gov
  check_tx-Kept new bz a o q = check_tx-rest new bz a a.last_block_ctx refl (o, q)
