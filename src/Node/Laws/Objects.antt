-- ===== src/Node/Laws/Objects.antt =====
-- What comes to the mempool works on account objects of its own (`CheckTx` of node/app.go, over
-- node/trx_executor.go).
use mathlib.Core.Path.{subst}
use rigo_go.Base.{
  ℕ, ◌≡◌, ◌==◌, inl, inr, Bool, true, false, Option, none, some, refl, sym, ap, ◌∙◌, arith,
  Option-cases, List, [], ◌∷◌,
}
use rigo_go.Base.Bytes.{Bytes}
use rigo_go.Base.Words.{Int64, add64}
use rigo_go.Base.Result.{Result, ok, err, Result-cases}
use rigo_go.Account.Struct.{Account}
use rigo_go.Account.Heap.{AcctRef, Heap, write}
use rigo_go.Account.Ctrler.{AcctCtrler, find_account}
use rigo_go.Account.Laws.Objects as Accounts
use rigo_go.Account.Laws.Objects.{
  IsOutside, AreOthers, Keeps, debit-Keeps, set_account_committable-Outside, find_account-Outside,
  find_or_new_account-Outside,
}
use rigo_go.Gov.Params.{GovParams, min_trx_fee}
use rigo_go.Stake.Laws.Ctrler.Objects as Staking
use rigo_go.Trx.{
  Trx, TrxContext, TrxType, transfer, staking, unstaking, proposal, voting, contract, setdoc,
  withdraw,
}
use rigo_go.Node.Executor.{
  Ran, Handlers, receiver_has_code, common_validation0, common_validation1, validate_by_type,
  validate_trx, fee_of, run_by_type, run_trx, post_run_trx, post_by, charge, charge_after,
  execute_sync, and_then, accounts_execute,
}
use rigo_go.Node.Evm.{evm_handler, validate_evm, execute_evm}
use rigo_go.Node.App.{
  Ctrlers, AppWorld, Env, RigoApp, gov_handler, stake_handler, handlers_of, context_of,
}
use rigo_go.Node.BlockContext.{BlockContext}
use rigo_go.Node.App.Delivering.{Response, answered, check_tx, checked, execute}

module _ {Tree V Db : Type 0} (env : Env Tree V Db) (i : ℕ) (acct : Account) where
  abbrev Others : TrxContext → Type 0
  Others ctx = (ctx.exec ≡ false) × AreOthers env.acct_codec env.trees env.sign i ctx

  abbrev IsLeft : Ran Tree (Ctrlers Tree V) → Type 0
  IsLeft out = Others out.ctx × IsOutside i acct out.world.accts

  IsLeft-as : {out out' : Ran Tree (Ctrlers Tree V)} → out' ≡ out → IsLeft out → IsLeft out'
  IsLeft-as e left = subst (λ x. IsLeft x) (sym e) left

  -- a step of the executor that leaves the object outside
  record IsApart (act : TrxContext → AppWorld Tree V → Ran Tree (Ctrlers Tree V)) : Type 0 where
    apart :
        (ctx : TrxContext) (w : AppWorld Tree V)
        → Others ctx
        → IsOutside i acct w.accts
        → IsLeft (act ctx w)

  record AreApart (hs : Handlers Tree (Ctrlers Tree V)) : Type 0 where
    gov : IsApart hs.gov.validate_trx × IsApart hs.gov.execute_trx
    stake : IsApart hs.stake.validate_trx × IsApart hs.stake.execute_trx
    evm : IsApart hs.evm.validate_trx × IsApart hs.evm.execute_trx

  gov-IsApart : IsApart (gov_handler env).validate_trx × IsApart (gov_handler env).execute_trx
  gov-IsApart = (
    record { apart = λ ctx w others o. (others, o) },
    record { apart = λ ctx w others o. (others, o) },
  )

  stake-IsApart : IsApart (stake_handler env).validate_trx × IsApart (stake_handler env).execute_trx
  stake-IsApart = (
    record { apart = λ ctx w others o. (others, o) },
    record {
      apart = λ ctx w others o. (
        others,
        Staking.execute_trx-Outside env.stake_codec env.acct_codec env.trees env.sign i acct
            w.rest.gov.gov_params ctx w.rest.stake w.accts others.0 others.1 o,
      );
    },
  )

  execute_evm-unused :
      (ctx : TrxContext) (w : AppWorld Tree V)
      → ctx.exec ≡ false
      → (evm_handler env.vm.evm).execute_trx ctx w ≡ record { result = ok tt; ctx = ctx; world = w }
  unfolding execute_evm
  execute_evm-unused ctx w e = ground (arith, e)

  evm-IsApart :
      IsApart (evm_handler env.vm.evm).validate_trx × IsApart (evm_handler env.vm.evm).execute_trx
  unfolding validate_evm execute_evm
  evm-IsApart = (
    record { apart = λ ctx w others o. (others, o) },
    record { apart = λ ctx w others o. IsLeft-as (execute_evm-unused ctx w others.0) (others, o) },
  )

  accounts-IsApart : IsApart (accounts_execute env.acct_codec env.trees env.sign)
  accounts-IsApart = record {
    apart = λ ctx w others o. (
      others,
      Accounts.execute_trx-Outside env.acct_codec env.trees env.sign i acct ctx w.accts others.0
          others.1 o,
    );
  }

  handlers_of-AreApart :
      (params : GovParams) (hs : Handlers Tree (Ctrlers Tree V))
      → handlers_of env params ≡ ok hs
      → AreApart hs
  unfolding handlers_of min_trx_fee
  handlers_of-AreApart params hs e =
      let is_gov : gov_handler env ≡ hs.gov = ground (arith, e) in
      let is_stake : stake_handler env ≡ hs.stake = ground (arith, e) in
      let is_evm : evm_handler env.vm.evm ≡ hs.evm = ground (arith, e) in
      record {
        gov = rw (← is_gov) gov-IsApart;
        stake = rw (← is_stake) stake-IsApart;
        evm = rw (← is_evm) evm-IsApart;
      }

  validated-Others :
      (hs : Handlers Tree (Ctrlers Tree V)) (ctx ctx' : TrxContext)
      → common_validation0 hs env.sign ctx ≡ ok ctx'
      → Others ctx
      → Others ctx'
  unfolding common_validation0
  validated-Others hs ctx ctx' e others =
      let same : ctx'.exec ≡ ctx.exec = ground (arith, e) in
      let sender : ctx'.sender ≡ ctx.sender = ground (arith, e) in
      let receiver : ctx'.receiver ≡ ctx.receiver = ground (arith, e) in
      (
        same ∙ others.0,
        (
          ap (λ (r : AcctRef). r.id == i) sender ∙ others.1.0,
          subst (λ x. Accounts.IsOther i x) (sym receiver) others.1.1,
        ),
      )

  by_type-IsLeft :
      (hs : Handlers Tree (Ctrlers Tree V)) (type : TrxType) (ctx : TrxContext)
      (w : AppWorld Tree V)
      → AreApart hs
      → ctx.tx.type ≡ type
      → Others ctx
      → IsOutside i acct w.accts
      → IsLeft (validate_by_type env.acct_codec env.trees env.sign hs ctx w)
  unfolding validate_by_type
  by_type-IsLeft hs proposal ctx w are is others o =
      rw (is, validate_by_type) (are.gov.0.apart ctx w others o)
  by_type-IsLeft hs voting ctx w are is others o =
      rw (is, validate_by_type) (are.gov.0.apart ctx w others o)
  by_type-IsLeft hs staking ctx w are is others o =
      rw (is, validate_by_type) (are.stake.0.apart ctx w others o)
  by_type-IsLeft hs unstaking ctx w are is others o =
      rw (is, validate_by_type) (are.stake.0.apart ctx w others o)
  by_type-IsLeft hs withdraw ctx w are is others o =
      rw (is, validate_by_type) (are.stake.0.apart ctx w others o)
  by_type-IsLeft hs contract ctx w are is others o =
      rw (is, validate_by_type) (are.evm.0.apart ctx w others o)
  by_type-IsLeft hs _ ctx w are is others o = rw (is, validate_by_type) (others, o)

  validate_trx-IsApart :
      (hs : Handlers Tree (Ctrlers Tree V))
      → AreApart hs
      → IsApart (validate_trx env.acct_codec env.trees env.sign hs)
  unfolding validate_trx
  validate_trx-IsApart hs are = record {
    apart = λ ctx w others o. elim (Result-cases (common_validation0 hs env.sign ctx)) [
      | inr (x, d) ↦ rw (d, validate_trx) (others, o)
      | inl (ctx', d) ↦
          let others' = validated-Others hs ctx ctx' d others in
          elim (Result-cases (common_validation1 ctx'.tx (w.accts.heap.cell ctx'.sender.id))) [
            | inr (x, d') ↦ rw (d, d', validate_trx) (others', o)
            | inl (_, d') ↦
                rw (d, d', validate_trx) (by_type-IsLeft hs ctx'.tx.type ctx' w are refl others' o)
          ]
    ];
  }

  run-IsLeft :
      (hs : Handlers Tree (Ctrlers Tree V)) (type : TrxType) (has_code : Result Bool)
      (ctx : TrxContext) (w : AppWorld Tree V)
      → AreApart hs
      → ctx.tx.type ≡ type
      → receiver_has_code ctx w.accts.heap ≡ has_code
      → Others ctx
      → IsOutside i acct w.accts
      → IsLeft (run_by_type env.acct_codec env.trees env.sign hs ctx w)
  unfolding run_by_type
  run-IsLeft hs proposal code ctx w are is has others o =
      rw (is, run_by_type) (are.gov.1.apart ctx w others o)
  run-IsLeft hs voting code ctx w are is has others o =
      rw (is, run_by_type) (are.gov.1.apart ctx w others o)
  run-IsLeft hs staking code ctx w are is has others o =
      rw (is, run_by_type) (are.stake.1.apart ctx w others o)
  run-IsLeft hs unstaking code ctx w are is has others o =
      rw (is, run_by_type) (are.stake.1.apart ctx w others o)
  run-IsLeft hs withdraw code ctx w are is has others o =
      rw (is, run_by_type) (are.stake.1.apart ctx w others o)
  run-IsLeft hs contract code ctx w are is has others o =
      rw (is, run_by_type) (are.evm.1.apart ctx w others o)
  run-IsLeft hs setdoc code ctx w are is has others o =
      rw (is, run_by_type) (accounts-IsApart.apart ctx w others o)
  run-IsLeft hs transfer (err x) ctx w are is has others o = rw (is, has, run_by_type) (others, o)
  run-IsLeft hs transfer (ok true) ctx w are is has others o =
      rw (is, has, run_by_type) (are.evm.1.apart ctx w others o)
  run-IsLeft hs transfer (ok false) ctx w are is has others o =
      rw (is, has, run_by_type) (accounts-IsApart.apart ctx w others o)
  run-IsLeft hs _ code ctx w are is has others o = rw (is, run_by_type) (others, o)

  run_by_type-IsApart :
      (hs : Handlers Tree (Ctrlers Tree V))
      → AreApart hs
      → IsApart (run_by_type env.acct_codec env.trees env.sign hs)
  run_by_type-IsApart hs are = record {
    apart = λ ctx w others o.
        run-IsLeft hs ctx.tx.type (receiver_has_code ctx w.accts.heap) ctx w are refl refl others o;
  }

  charge_after-IsLeft :
      (ctx : TrxContext) (w : AppWorld Tree V) (out : Result (Unit {0}) × Heap)
      → Others ctx
      → IsOutside i acct w.accts
      → Keeps env.acct_codec env.trees env.sign i acct out.1
      → IsLeft (charge_after env.acct_codec env.trees env.sign ctx w out)
  unfolding charge_after write
  charge_after-IsLeft ctx w (err x, h) others o kept = (others, (kept.0, kept.1, o.2))
  charge_after-IsLeft ctx w (ok _, h) others o kept =
      let other : (i == ctx.sender.id) ≡ false = ground (arith, others.1.0) in
      (
        others,
        set_account_committable-Outside env.acct_codec env.trees env.sign i acct ctx.sender ctx.exec
            _ others.0 others.1.0 (kept.0, rw other kept.1, o.2),
      )

  post-IsLeft :
      (has_code : Result Bool) (ctx : TrxContext) (w : AppWorld Tree V)
      → Others ctx
      → IsOutside i acct w.accts
      → IsLeft (post_by env.acct_codec env.trees env.sign ctx w has_code)
  unfolding post_by charge
  post-IsLeft (err x) ctx w others o = (others, o)
  post-IsLeft (ok true) ctx w others o = (others, o)
  post-IsLeft (ok false) ctx w others o = charge_after-IsLeft ctx w _ others o (
      debit-Keeps env.acct_codec env.trees env.sign i acct (fee_of ctx.tx) ctx.sender w.accts.heap
        others.1.0 (o.0, o.1))

  post_run_trx-IsApart : IsApart (post_run_trx env.acct_codec env.trees env.sign)
  unfolding post_run_trx
  post_run_trx-IsApart = record { apart = λ ctx w others o. post-IsLeft _ ctx w others o }

  and_then-IsApart :
      (act next : TrxContext → AppWorld Tree V → Ran Tree (Ctrlers Tree V))
      → IsApart act
      → IsApart next
      → IsApart (λ ctx w. and_then env.acct_codec env.trees env.sign (act ctx w) next)
  and_then-IsApart act next first second = record {
    apart = λ ctx w others o.
        let (others', o') = first.apart ctx w others o in
        let left = second.apart (act ctx w).ctx (act ctx w).world others' o' in
        elim (Result-cases (act ctx w).result) [
          | inr (x, d) ↦ rw (d, and_then) (others', o')
          | inl (_, d) ↦ rw (d, and_then) left
        ];
  }

  execute_sync-IsApart :
      (hs : Handlers Tree (Ctrlers Tree V))
      → AreApart hs
      → IsApart (execute_sync env.acct_codec env.trees env.sign hs)
  unfolding execute_sync run_trx
  execute_sync-IsApart hs are =
      let run = λ (ctx : TrxContext) (w : AppWorld Tree V).
        run_by_type env.acct_codec env.trees env.sign hs ctx w in
      let post = λ (ctx : TrxContext) (w : AppWorld Tree V).
        post_run_trx env.acct_codec env.trees env.sign ctx w in
      let both = and_then-IsApart run post (run_by_type-IsApart hs are) post_run_trx-IsApart in
      record {
        apart =
            (and_then-IsApart
              (λ (ctx : TrxContext) (w : AppWorld Tree V).
                validate_trx env.acct_codec env.trees env.sign hs ctx w)
              (λ (ctx : TrxContext) (w : AppWorld Tree V).
                run_trx env.acct_codec env.trees env.sign hs ctx w)
              (validate_trx-IsApart hs are) (record { apart = both.apart })).apart;
      }

  execute-IsApart : IsApart (execute env)
  unfolding execute
  execute-IsApart = record {
    apart = λ ctx w others o. elim (Result-cases (handlers_of env w.rest.gov.gov_params)) [
      | inr (x, d) ↦ rw (d, execute) (others, o)
      | inl (hs, d) ↦
          rw (d, execute)
            ((execute_sync-IsApart hs (handlers_of-AreApart w.rest.gov.gov_params hs d)).apart ctx w
              others o)
    ];
  }

  -- what the making of a context gives
  abbrev IsMade : Result TrxContext × AcctCtrler Tree → Type 0
  IsMade (err x, s) = IsOutside i acct s
  IsMade (ok ctx, s) = Others ctx × IsOutside i acct s

  context_of-IsMade :
      (tx : Trx) (hash : Bytes) (height : Int64) (s : AcctCtrler Tree)
      → IsOutside i acct s
      → IsMade (context_of env tx hash height false s)
  unfolding context_of
  context_of-IsMade tx hash height s o =
      let (found, s₁) = find_account env.acct_codec env.trees env.sign tx.from false s in
      let (other, o') =
        find_account-Outside env.acct_codec env.trees env.sign i acct tx.from false s refl o in
      let (other', o'') =
        find_or_new_account-Outside env.acct_codec env.trees env.sign i acct tx.to false s₁ refl
          o' in
      elim (Option-cases found) [
        | inl missing ↦ rw (missing, context_of) o'
        | inr (r, is) ↦
            rw (is, context_of) ((refl, (subst (λ x. Accounts.IsOther i x) is other, other')), o'')
      ]

  checked-Outside :
      (a : RigoApp Tree V Db) (out : Result TrxContext × AcctCtrler Tree)
      → IsMade out
      → let a' : RigoApp Tree V Db = record a { world = record a.world { accts = out.1 } } in
        IsOutside i acct
          (elim out.0 as (λ _. Result Response × RigoApp Tree V Db) [
            | err e ↦ (answered e, a')
            | ok ctx ↦ checked env (execute env ctx a'.world) a'
          ]).1.world.accts
  unfolding checked
  checked-Outside a (err x, s) made = made
  checked-Outside a (ok ctx, s) made =
      (execute-IsApart.apart ctx (record a.world { accts = s }) made.0 made.1).1

  check_tx-accts :
      (new : Bool) (bz : Bytes) (a : RigoApp Tree V Db) (last : Option BlockContext)
      → a.last_block_ctx ≡ last
      → IsOutside i acct a.world.accts
      → IsOutside i acct (check_tx env new bz a).1.world.accts
  unfolding check_tx
  check_tx-accts false bz a last d o = o
  check_tx-accts true bz a none d o = rw (d, check_tx) o
  check_tx-accts true bz a (some last) d o = elim (Result-cases (env.decode_trx bz)) [
    | inr (x, e) ↦ rw (d, e, check_tx) o
    | inl (tx, e) ↦
        let height = add64 last.block_info.height 1 in
        let out = context_of env tx (env.hash_trx bz) height false a.world.accts in
        rw (d, e, check_tx)
          (checked-Outside a out (context_of-IsMade tx (env.hash_trx bz) height a.world.accts o))
  ]

  check_tx-Outside :
      (new : Bool) (bz : Bytes) (a : RigoApp Tree V Db)
      → IsOutside i acct a.world.accts
      → IsOutside i acct (check_tx env new bz a).1.world.accts
  check_tx-Outside new bz a o = check_tx-accts new bz a a.last_block_ctx refl o

-- Each of the listed objects is in use, has the account listed with it, and is not one that the
-- cache of the checks holds.
abbrev pub AreOutside : {Tree : Type 0} → List (ℕ × Account) → AcctCtrler Tree → Type 0
AreOutside [] s = Unit
AreOutside ((i, acct) ∷ objects) s = IsOutside i acct s × AreOutside objects s

pub check_tx-AreOutside :
    {Tree V Db : Type 0} (env : Env Tree V Db) (objects : List (ℕ × Account)) (new : Bool)
    (bz : Bytes) (a : RigoApp Tree V Db)
    → AreOutside objects a.world.accts
    → AreOutside objects (check_tx env new bz a).1.world.accts
check_tx-AreOutside env [] new bz a outside = tt
check_tx-AreOutside env ((i, acct) ∷ objects) new bz a outside = (
  check_tx-Outside env i acct new bz a outside.0,
  check_tx-AreOutside env objects new bz a outside.1,
)
