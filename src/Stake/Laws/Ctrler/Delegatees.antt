-- ===== src/Stake/Laws/Ctrler/Delegatees.antt =====
-- The transactions of the pool of the node (`exec` is false) work on delegatee objects of the checks
-- (ctrlers/stake/ctrler.go).
use rigo_go.Base.{
  ℕ, ◌≡◌, ◌==◌, inl, inr, Bool, true, false, Bool-cases, Option, none, some, List, [], ◌∷◌, refl,
  if◌then◌else◌, arith,
}
use rigo_go.Base.Bytes.{Bytes, ◌=b◌}
use rigo_go.Base.Words.{Int64, UInt256, add64}
use rigo_go.Base.Result.{Result, ok, err, not_found_result, Result-cases}
use rigo_go.Base.Store.{Ref, Store, assign, allocate}
use rigo_go.Ledger.MemItems.{MemItems}
use rigo_go.Ledger.Tree.{TreeOps}
use rigo_go.Ledger.Simple
use rigo_go.Ledger.Simple.{to_ledger_key}
use rigo_go.Ledger.Laws.Objects.{
  Apart, IsFound, DecodesAfresh, get_item-IsFound, set_item-Apart, del_item-Apart,
}
use rigo_go.Account.Struct.{Sign}
use rigo_go.Account.Codec.{AcctCodec}
use rigo_go.Account.Heap.{Heap}
use rigo_go.Account.Ctrler
use rigo_go.Account.Ctrler.{AcctCtrler}
use rigo_go.Gov.Params.{GovParams}
use rigo_go.Stake.Item.{Stake}
use rigo_go.Stake.Delegatee.{Delegatee, del_stake}
use rigo_go.Stake.Reward.{Reward}
use rigo_go.Stake.Ctrler.{
  StakeCodec, StakeCtrler, delegatee_items, delegatee_key, get_delegatee, get_reward, or_nil,
  check_unstaking, check_limits, validate_trx, validate_staking, validate_unstaking,
  validate_withdraw, withdrawing_after, staking_after,
}
use rigo_go.Stake.Ctrler.Executing.{
  refunded_at, remaining, set_delegatee, del_delegatee, set_frozen, freeze_all, set_reward,
  cancel_set_reward, delegatee_for, delegate, unstaked_after, unstake, exe_unstaking, staked_after,
  stake_to, exe_staking, withdrawn_after, withdraw_from, exe_withdraw, execute_trx,
}
use rigo_go.Trx.{TrxContext, TrxType, TrxPayload, staking, unstaking, withdraw, withdraw_reward}

-- A delegatee object in use, which is not one of those of the checks, and what is in it.
abbrev pub IsOutside : {Tree : Type 0} → ℕ → Delegatee → StakeCtrler Tree → Type 0
IsOutside i d s = Apart i d s.delegatee_ledger.cached_items s.heap

module _ {Tree : Type 0} (codec : StakeCodec) (trees : TreeOps Tree) (i : ℕ) (d : Delegatee) where
  delegatees-DecodesAfresh : DecodesAfresh (delegatee_items codec) i
  unfolding allocate
  delegatees-DecodesAfresh h bz x e below = ground (arith, e, below)

  -- what a look-up of a delegatee gives
  abbrev IsLooked : Result Ref × StakeCtrler Tree → Type 0
  IsLooked (ok r, s) = ((r.id == i) ≡ false) × IsOutside i d s
  IsLooked (err e, s) = IsOutside i d s

  looked_lem :
      (s : StakeCtrler Tree) (out : Result Ref × MemItems Ref × Store Delegatee)
      → IsFound i d out
      → IsLooked (
        out.0,
        record s {
          delegatee_ledger = record s.delegatee_ledger {
            simple = record s.delegatee_ledger.simple { cached_items = out.1 };
          };
          heap = out.2;
        },
      )
  looked_lem s (ok r, m, h) found = found
  looked_lem s (err e, m, h) found = found

  get_delegatee-IsLooked :
      (addr : Bytes) (exec : Bool) (s : StakeCtrler Tree)
      → exec ≡ false
      → IsOutside i d s
      → IsLooked (get_delegatee codec trees addr exec s)
  unfolding get_delegatee Simple.get
  get_delegatee-IsLooked addr true s e o = cc
  get_delegatee-IsLooked addr false s e o = looked_lem s _ (
      get_item-IsFound (delegatee_items codec) trees i d (to_ledger_key addr)
        s.delegatee_ledger.tree s.delegatee_ledger.cached_items s.heap delegatees-DecodesAfresh o)

  get_reward-Outside :
      (addr : Bytes) (exec : Bool) (s : StakeCtrler Tree)
      → IsOutside i d s
      → IsOutside i d (get_reward codec trees addr exec s).1
  unfolding get_reward
  get_reward-Outside addr true s o = o
  get_reward-Outside addr false s o = o

  set_delegatee-Outside :
      (r : Ref) (exec : Bool) (s : StakeCtrler Tree)
      → exec ≡ false
      → (r.id == i) ≡ false
      → IsOutside i d s
      → IsOutside i d (set_delegatee codec trees r exec s)
  unfolding set_delegatee Simple.set
  set_delegatee-Outside r true s e other o = cc
  set_delegatee-Outside r false s e other o =
      set_item-Apart (delegatee_items codec) trees i d r s.delegatee_ledger.cached_items s.heap
        other o

  del_delegatee-Outside :
      (r : Ref) (exec : Bool) (s : StakeCtrler Tree)
      → exec ≡ false
      → IsOutside i d s
      → IsOutside i d (del_delegatee codec trees r exec s).1
  unfolding del_delegatee Simple.del
  del_delegatee-Outside r true s e o = cc
  del_delegatee-Outside r false s e o =
      del_item-Apart (delegatee_items codec) trees i d (delegatee_key r) s.delegatee_ledger.tree
        s.delegatee_ledger.cached_items s.heap delegatees-DecodesAfresh o

  assign-Outside :
      (r : Ref) (d' : Delegatee) (m : MemItems Ref) (h : Store Delegatee)
      → (r.id == i) ≡ false
      → Apart i d m h
      → Apart i d m (assign r.id d' h)
  unfolding assign
  assign-Outside r d' m h other o =
      let other' : (i == r.id) ≡ false = ground (arith, other) in (o.0, rw other' o.1, o.2)

  set_frozen-Outside :
      (s0 : Stake) (exec : Bool) (s : StakeCtrler Tree)
      → IsOutside i d s
      → IsOutside i d (set_frozen codec trees s0 exec s)
  unfolding set_frozen
  set_frozen-Outside s0 true s o = o
  set_frozen-Outside s0 false s o = o

  freeze_all-Outside :
      (ss : List Stake) (height : Int64) (exec : Bool) (s : StakeCtrler Tree)
      → IsOutside i d s
      → IsOutside i d (freeze_all codec trees ss height exec s)
  unfolding freeze_all
  freeze_all-Outside [] height exec s o = o
  freeze_all-Outside (s0 ∷ ss) height exec s o =
      freeze_all-Outside ss height exec _ (set_frozen-Outside _ exec s o)

  set_reward-Outside :
      (rwd : Reward) (exec : Bool) (s : StakeCtrler Tree)
      → IsOutside i d s
      → IsOutside i d (set_reward codec trees rwd exec s)
  unfolding set_reward
  set_reward-Outside rwd true s o = o
  set_reward-Outside rwd false s o = o

  cancel_set_reward-Outside :
      (k : Bytes) (exec : Bool) (s : StakeCtrler Tree)
      → IsOutside i d s
      → IsOutside i d (cancel_set_reward codec trees k exec s)
  unfolding cancel_set_reward
  cancel_set_reward-Outside k true s o = o
  cancel_set_reward-Outside k false s o = o

  either_Outside :
      (test : Bool) (x y : Result (Unit {0}) × StakeCtrler Tree)
      → IsOutside i d x.1
      → IsOutside i d y.1
      → IsOutside i d (if test then x else y).1
  either_Outside true x y p q = p
  either_Outside false x y p q = q

  unstaked_after-Outside :
      (ctx : TrxContext) (r : Ref) (refund : Int64) (d' : Delegatee) (s : StakeCtrler Tree)
      → ctx.exec ≡ false
      → (r.id == i) ≡ false
      → IsOutside i d s
      → IsOutside i d (unstaked_after codec trees ctx r refund d' s).1
  unfolding unstaked_after
  unstaked_after-Outside ctx r refund d' s e other o =
      let frozen = freeze_all codec trees (remaining d').0 refund ctx.exec s in
      let o₁ = freeze_all-Outside (remaining d').0 refund ctx.exec s o in
      let new =
        assign-Outside r (remaining d').1 frozen.delegatee_ledger.cached_items s.heap other
          (o.0, o.1, o₁.2) in
      either_Outside _ _ _ (del_delegatee-Outside r ctx.exec _ e new)
        (set_delegatee-Outside r ctx.exec _ e other new)

  unstake-Outside :
      (gov : GovParams) (ctx : TrxContext) (r : Ref) (found : Result Stake) (s : StakeCtrler Tree)
      → ctx.exec ≡ false
      → (r.id == i) ≡ false
      → IsOutside i d s
      → IsOutside i d (unstake codec trees gov ctx r found s).1
  unfolding unstake
  unstake-Outside gov ctx r (err x) s e other o = o
  unstake-Outside gov ctx r (ok s0) s e other o =
      let refund = add64 ctx.height gov.lazy_reward_blocks in
      unstaked_after-Outside ctx r refund (del_stake s0.tx_hash (s.heap.cell r.id)).1 _ e other
        (set_frozen-Outside (refunded_at refund s0) ctx.exec s o)

  unstake_found-Outside :
      (gov : GovParams) (ctx : TrxContext) (found : Result Ref × StakeCtrler Tree)
      → IsLooked found
      → ctx.exec ≡ false
      → IsOutside i d
          (elim found.0 as (λ _. Result (Unit {0}) × StakeCtrler Tree) [
            | err e ↦ (err e, found.1)
            | ok r ↦
                unstake codec trees gov ctx r
                  (check_unstaking codec trees ctx.tx.from ctx.tx.payload (found.1.heap.cell r.id))
                  found.1
          ]).1
  unstake_found-Outside gov ctx (err x, s) looked e = looked
  unstake_found-Outside gov ctx (ok r, s) looked e =
      unstake-Outside gov ctx r
        (check_unstaking codec trees ctx.tx.from ctx.tx.payload (s.heap.cell r.id)) s e looked.0
        looked.1

  exe_unstaking-Outside :
      (gov : GovParams) (ctx : TrxContext) (s : StakeCtrler Tree)
      → IsOutside i d s
      → ctx.exec ≡ false
      → IsOutside i d (exe_unstaking codec trees gov ctx s).1
  unfolding exe_unstaking
  exe_unstaking-Outside gov ctx s o e =
      unstake_found-Outside gov ctx (get_delegatee codec trees ctx.tx.to ctx.exec s)
        (get_delegatee-IsLooked ctx.tx.to ctx.exec s e o) e

  delegate-Outside :
      (ctx : TrxContext) (r : Ref) (power : Result Int64) (s : StakeCtrler Tree)
      → ctx.exec ≡ false
      → (r.id == i) ≡ false
      → IsOutside i d s
      → IsOutside i d (delegate codec trees ctx r power s).1
  unfolding delegate
  delegate-Outside ctx r (err x) s e other o = o
  delegate-Outside ctx r (ok p) s e other o =
      set_delegatee-Outside r ctx.exec _ e other
        (assign-Outside r _ s.delegatee_ledger.cached_items s.heap other o)

  delegatee_for-IsLooked :
      (ctx : TrxContext) (s : StakeCtrler Tree)
      → IsOutside i d s
      → IsLooked (delegatee_for codec trees ctx none s)
  unfolding delegatee_for allocate
  delegatee_for-IsLooked ctx s o = elim (Bool-cases (ctx.tx.from =b ctx.tx.to)) [
    | inr other ↦ rw (other, delegatee_for) o
    | inl to_self ↦
        let fresh : (s.heap.next == i) ≡ false = ground (arith, o.0) in
        let fresh' : (i == s.heap.next) ≡ false = ground (arith, o.0) in
        rw (to_self, delegatee_for) (fresh, (omega (arith, o.0), rw fresh' o.1, o.2))
  ]

  validate_found-Outside :
      (gov : GovParams) (ctx : TrxContext) (found : Result Ref × StakeCtrler Tree)
      (s : StakeCtrler Tree)
      → get_delegatee codec trees ctx.tx.to ctx.exec s ≡ found
      → IsLooked found
      → IsOutside i d s
      → ctx.exec ≡ false
      → IsOutside i d (validate_trx codec trees gov ctx s).1
  unfolding validate_trx validate_staking validate_unstaking validate_withdraw withdrawing_after
      staking_after check_limits get_reward
  validate_found-Outside gov ctx (err x, s₁) s is looked o e = ground (arith, is, looked, o, e)
  validate_found-Outside gov ctx (ok r, s₁) s is looked o e = ground (arith, is, looked, o, e)

  pub validate_trx-Outside :
      (gov : GovParams) (ctx : TrxContext) (s : StakeCtrler Tree)
      → ctx.exec ≡ false
      → IsOutside i d s
      → IsOutside i d (validate_trx codec trees gov ctx s).1
  validate_trx-Outside gov ctx s e o =
      validate_found-Outside gov ctx (get_delegatee codec trees ctx.tx.to ctx.exec s) s refl
        (get_delegatee-IsLooked ctx.tx.to ctx.exec s e o) o e

module _ {Tree : Type 0} (codec : StakeCodec) (acct_codec : AcctCodec) (trees : TreeOps Tree)
    (sign : UInt256 → Sign) (i : ℕ) (d : Delegatee) where
  staked_after-Outside :
      (ctx : TrxContext) (r : Ref) (s : StakeCtrler Tree) (accts : AcctCtrler Tree)
      (out : Result (Unit {0}) × Heap)
      → ctx.exec ≡ false
      → ((r.id == i) ≡ false) × IsOutside i d s
      → IsOutside i d (staked_after codec acct_codec trees sign ctx r s accts out).1
  unfolding staked_after
  staked_after-Outside ctx r s accts (err x, h) e (other, o) = o
  staked_after-Outside ctx r s accts (ok _, h) e (other, o) =
      delegate-Outside codec trees i d ctx r _ s e other o

  stake_to-Outside :
      (ctx : TrxContext) (accts : AcctCtrler Tree) (chosen : Result Ref × StakeCtrler Tree)
      → ctx.exec ≡ false
      → IsLooked codec trees i d chosen
      → IsOutside i d (stake_to codec acct_codec trees sign ctx accts chosen).1
  unfolding stake_to
  stake_to-Outside ctx accts (err x, s) e looked = looked
  stake_to-Outside ctx accts (ok r, s) e looked = staked_after-Outside ctx r s accts _ e looked

  stake_found-Outside :
      (ctx : TrxContext) (accts : AcctCtrler Tree) (found : Result Ref × StakeCtrler Tree)
      → IsLooked codec trees i d found
      → ctx.exec ≡ false
      → IsOutside i d
          (elim (or_nil codec trees found.0)
            as (λ _. Result (Unit {0}) × StakeCtrler Tree × AcctCtrler Tree) [
              | err e ↦ (err e, found.1, accts)
              | ok known ↦
                  stake_to codec acct_codec trees sign ctx accts
                    (delegatee_for codec trees ctx known found.1)
            ]).1
  unfolding delegatee_for
  stake_found-Outside ctx accts (ok r, s) looked e = stake_to-Outside ctx accts (ok r, s) e looked
  stake_found-Outside ctx accts (err not_found_result, s) looked e =
      stake_to-Outside ctx accts _ e (delegatee_for-IsLooked codec trees i d ctx s looked)
  stake_found-Outside ctx accts (err x, s) looked e = looked

  exe_staking-Outside :
      (ctx : TrxContext) (s : StakeCtrler Tree) (accts : AcctCtrler Tree)
      → ctx.exec ≡ false
      → IsOutside i d s
      → IsOutside i d (exe_staking codec acct_codec trees sign ctx s accts).1
  unfolding exe_staking
  exe_staking-Outside ctx s accts e o =
      stake_found-Outside ctx accts (get_delegatee codec trees ctx.tx.to ctx.exec s)
        (get_delegatee-IsLooked codec trees i d ctx.tx.to ctx.exec s e o) e

  withdrawn_after-Outside :
      (ctx : TrxContext) (req_amt : UInt256) (taken : Result Reward) (s : StakeCtrler Tree)
      (accts : AcctCtrler Tree)
      → IsOutside i d s
      → IsOutside i d (withdrawn_after codec acct_codec trees sign ctx req_amt taken s accts).1
  unfolding withdrawn_after
  withdrawn_after-Outside ctx req_amt (err x) s accts o = o
  withdrawn_after-Outside ctx req_amt (ok rwd) s accts o =
      let set = set_reward-Outside codec trees i d rwd ctx.exec s o in
      elim (Result-cases
        (Ctrler.reward acct_codec trees sign ctx.sender.addr req_amt ctx.exec accts).0) [
          | inl (_, paid) ↦ rw (paid, withdrawn_after) set
          | inr (x, failed) ↦
              rw (failed, withdrawn_after)
                (cancel_set_reward-Outside codec trees i d _ ctx.exec _ set)
        ]

  withdraw_from-Outside :
      (ctx : TrxContext) (req_amt : UInt256) (found : Result Reward × StakeCtrler Tree)
      (accts : AcctCtrler Tree)
      → IsOutside i d found.1
      → IsOutside i d (withdraw_from codec acct_codec trees sign ctx req_amt found accts).1
  unfolding withdraw_from
  withdraw_from-Outside ctx req_amt (err x, s) accts o = o
  withdraw_from-Outside ctx req_amt (ok rwd, s) accts o =
      withdrawn_after-Outside ctx req_amt _ s accts o

  exe_withdraw-Outside :
      (ctx : TrxContext) (payload : Option TrxPayload) (s : StakeCtrler Tree)
      (accts : AcctCtrler Tree)
      → ctx.tx.payload ≡ payload
      → IsOutside i d s
      → IsOutside i d (exe_withdraw codec acct_codec trees sign ctx s accts).1
  unfolding exe_withdraw
  exe_withdraw-Outside ctx none s accts has o = rw (has, exe_withdraw) o
  exe_withdraw-Outside ctx (some (withdraw_reward req_amt)) s accts has o =
      rw (has, exe_withdraw)
        (withdraw_from-Outside ctx req_amt _ accts
          (get_reward-Outside codec trees i d ctx.tx.from ctx.exec s o))
  exe_withdraw-Outside ctx (some _) s accts has o = rw (has, exe_withdraw) o

  by_type-Outside :
      (gov : GovParams) (ctx : TrxContext) (type : TrxType) (s : StakeCtrler Tree)
      (accts : AcctCtrler Tree)
      → ctx.tx.type ≡ type
      → ctx.exec ≡ false
      → IsOutside i d s
      → IsOutside i d (execute_trx codec acct_codec trees sign gov ctx s accts).1
  unfolding execute_trx
  by_type-Outside gov ctx staking s accts is e o =
      rw (is, execute_trx) (exe_staking-Outside ctx s accts e o)
  by_type-Outside gov ctx unstaking s accts is e o =
      rw (is, execute_trx) (exe_unstaking-Outside codec trees i d gov ctx s o e)
  by_type-Outside gov ctx withdraw s accts is e o =
      rw (is, execute_trx) (exe_withdraw-Outside ctx ctx.tx.payload s accts refl o)
  by_type-Outside gov ctx _ s accts is e o = rw (is, execute_trx) o

  pub execute_trx-Outside :
      (gov : GovParams) (ctx : TrxContext) (s : StakeCtrler Tree) (accts : AcctCtrler Tree)
      → ctx.exec ≡ false
      → IsOutside i d s
      → IsOutside i d (execute_trx codec acct_codec trees sign gov ctx s accts).1
  execute_trx-Outside gov ctx s accts e o = by_type-Outside gov ctx ctx.tx.type s accts refl e o
