-- ===== src/Stake/Laws/Ctrler/Unstaking.antt =====
-- What an un-staking does (`exeUnstaking` of ctrlers/stake/ctrler.go).
use mathlib.Core.Path.{subst}
use rigo_go.Base.{
  ℕ, ◌≡◌, ◌<◌, ◌⊎◌, ◌%◌, ◌^◌, inl, inr, Bool, true, false, Bool-cases, Option-cases, Option, none,
  some, List, [], ◌∷◌, refl, sym, ap, ◌∙◌, ◌==◌, arith, if◌then◌else◌,
}
use rigo_go.Base.Bytes.{Bytes, ◌=b◌, =b_iff}
use rigo_go.Base.Lists.{length, remove_at}
use rigo_go.Base.Words.{Int64, add64}
use rigo_go.Base.Result.{Result, ok, err, Result-cases}
use rigo_go.Base.Store.{Ref, Store, assign}
use rigo_go.Ledger.Map.{lookup, lookup-insert}
use rigo_go.Ledger.Tree.{TreeOps}
use rigo_go.Ledger.Simple.{to_ledger_key, set_item}
use rigo_go.Ledger.Finality.{FinalityLedger, set_finality}
use rigo_go.Gov.Params.{GovParams}
use rigo_go.Stake.Item.{Stake}
use rigo_go.Stake.Delegatee.{Delegatee, find_stake, del_stake, del_all_stakes}
use rigo_go.Stake.Laws.Powers.{
  IsConsistent, powers, del_stake-IsConsistent, del_stake-found, del_all_stakes_lem,
}
use rigo_go.Stake.Laws.Ctrler.Stored.{
  IsStored, IsGone, set_delegatee-IsStored, set_delegatee-heap, del_delegatee_lem,
}
use rigo_go.Stake.Ctrler.{StakeCodec, StakeCtrler, delegatee_key, get_delegatee, check_unstaking}
use rigo_go.Stake.Ctrler.Executing.{
  refunded_at, remaining, set_delegatee, del_delegatee, set_frozen, freeze_all, unstaked_after,
  unstake, exe_unstaking,
}
use rigo_go.Trx.{TrxContext, TrxPayload, stake_out}

-- The owner of the delegatee has no power of its own among the stakes.
abbrev pub stops : Bytes → List Stake → Bool
stops addr rest = powers (some addr) rest % 2 ^ 64 == 0

-- With the last self stake a delegatee loses the other stakes too.
remaining-stakes :
    (d : Delegatee)
    → IsConsistent d
    → let gone = stops d.addr d.stakes in
      ((remaining d).0 ≡ (if gone then d.stakes else []))
      × ((remaining d).1.stakes ≡ (if gone then [] else d.stakes))
unfolding remaining del_all_stakes
remaining-stakes d c =
    let same : (d.self_power == 0) ≡ stops d.addr d.stakes = ap (λ (n : ℕ). n == 0) c.self in
    elim (Bool-cases (d.self_power == 0)) [
      | inl gone ↦ rw (gone, sym same ∙ gone) (refl, refl)
      | inr stays ↦ rw (stays, sym same ∙ stays) (refl, refl)
    ]

-- What is left of a delegatee has the powers of its stakes.
remaining-IsConsistent : (d : Delegatee) → IsConsistent d → IsConsistent (remaining d).1
unfolding remaining del_all_stakes powers
remaining-IsConsistent d c = elim (Bool-cases (d.self_power == 0)) [
  | inr stays ↦ rw (stays, remaining) c
  | inl stops ↦
      let (_, _, total, self) = del_all_stakes_lem d c in
      rw (stops, remaining)
        (record { total = total; self = ground (arith, stops, self); all_to = tt })
]

-- What the frozen ledger holds at a key after the stakes were put there, one after the other, each
-- with the refund height.
abbrev pub frozen_at : Bytes → Int64 → List Stake → Option Stake → Option Stake
frozen_at k refund [] old = old
frozen_at k refund (s0 ∷ ss) old =
    frozen_at k refund ss
      (if to_ledger_key s0.tx_hash =b k then some (record s0 { refund_height = refund }) else old)

module _ {Tree : Type 0} (codec : StakeCodec) (trees : TreeOps Tree) where
  -- The block's cache of frozen stakes holds them at a key, over what it held before.
  abbrev pub IsFrozen : Bytes → Int64 → List Stake → StakeCtrler Tree → StakeCtrler Tree → Type 0
  IsFrozen k refund ss s s' =
      let m = s.frozen_ledger.finality_items in
      let m' = s'.frozen_ledger.finality_items in
      (lookup k m'.got_items ≡ frozen_at k refund ss (lookup k m.got_items))
      × (lookup k m'.updated_items ≡ frozen_at k refund ss (lookup k m.updated_items))

  freeze_all-IsFrozen :
      (k : Bytes) (ss : List Stake) (refund : Int64) (s : StakeCtrler Tree)
      → IsFrozen k refund ss s (freeze_all codec trees ss refund true s)
  unfolding freeze_all set_frozen set_finality set_item
  freeze_all-IsFrozen k [] refund s = (refl, refl)
  freeze_all-IsFrozen k (s0 ∷ ss) refund s =
      let m = s.frozen_ledger.finality_items in
      let j = to_ledger_key s0.tx_hash in
      let rest =
        freeze_all-IsFrozen k ss refund (set_frozen codec trees (refunded_at refund s0) true s) in
      (
        rest.0 ∙ ap (frozen_at k refund ss) (lookup-insert k j (refunded_at refund s0) m.got_items),
        rest.1
            ∙ ap (frozen_at k refund ss)
                (lookup-insert k j (refunded_at refund s0) m.updated_items),
      )

  -- A delegatee without power is gone from the ledger, another one is stored there.
  abbrev pub IsUpdated : Ref → StakeCtrler Tree → Type 0
  IsUpdated r s =
      let m = s.delegatee_ledger.finality_items in
      let power = (s.heap.cell r.id).total_power in
      (((power == 0) ≡ true) × IsGone (delegatee_key r) m)
      ⊎ (((power == 0) ≡ false) × IsStored (delegatee_key r) r m)

  set_delegatee-frozen :
      (r : Ref) (s : StakeCtrler Tree)
      → (set_delegatee codec trees r true s).frozen_ledger ≡ s.frozen_ledger
  unfolding set_delegatee
  set_delegatee-frozen r s = refl

  abbrev ending : Ref → Bool → StakeCtrler Tree → Result (Unit {0}) × StakeCtrler Tree
  ending r test s =
      if test
      then del_delegatee codec trees r true s
      else (ok tt, set_delegatee codec trees r true s)

  ending_lem :
      (r : Ref) (d : Delegatee) (s : StakeCtrler Tree) (test : Bool)
      → s.heap.cell r.id ≡ d
      → r.id < s.heap.next
      → (d.total_power == 0) ≡ test
      → (ending r test s).0 ≡ ok tt
      → let s' = (ending r test s).1 in
        (s'.heap.cell r.id ≡ d) × (s'.frozen_ledger ≡ s.frozen_ledger) × IsUpdated r s'
  ending_lem r d s true is used powerless done =
      let (same, gone, others) = del_delegatee_lem codec trees r d s is used done in
      (same, others, inl (ap (λ (x : Delegatee). x.total_power == 0) same ∙ powerless, gone))
  ending_lem r d s false is used powerful done =
      let same = set_delegatee-heap codec trees r true s in
      let is' = ap (λ (h : Store Delegatee). h.cell r.id) same ∙ is in
      (
        is',
        set_delegatee-frozen r s,
        inr (
          ap (λ (x : Delegatee). x.total_power == 0) is' ∙ powerful,
          set_delegatee-IsStored codec trees r true s,
        ),
      )

  unstaked_after_lem :
      (k : Bytes) (ctx : TrxContext) (r : Ref) (refund : Int64) (d : Delegatee)
      (s : StakeCtrler Tree)
      → ctx.exec ≡ true
      → r.id < s.heap.next
      → (unstaked_after codec trees ctx r refund d s).0 ≡ ok tt
      → let s' = (unstaked_after codec trees ctx r refund d s).1 in
        (s'.heap.cell r.id ≡ (remaining d).1)
        × IsFrozen k refund (remaining d).0 s s'
        × IsUpdated r s'
  unfolding unstaked_after assign
  unstaked_after_lem k ctx r refund d s exec used done =
      let d' = (remaining d).1 in
      let frozen = freeze_all codec trees (remaining d).0 refund true s in
      let s₁ : StakeCtrler Tree = record frozen { heap = assign r.id d' s.heap } in
      let run : unstaked_after codec trees ctx r refund d s ≡ ending r (d'.total_power == 0) s₁ =
        rw exec refl in
      let (same, others, updated) =
        ending_lem r d' s₁ (d'.total_power == 0) (ground arith) used refl
          (ap (λ (x : Result (Unit {0}) × StakeCtrler Tree). x.0) (sym run) ∙ done) in
      rw run (
        same,
        subst
            (λ (l : FinalityLedger Tree Stake).
              (lookup k l.finality_items.got_items
                ≡ frozen_at k refund (remaining d).0
                    (lookup k s.frozen_ledger.finality_items.got_items))
              × (lookup k l.finality_items.updated_items
                  ≡ frozen_at k refund (remaining d).0
                      (lookup k s.frozen_ledger.finality_items.updated_items)))
            (sym others) (freeze_all-IsFrozen k (remaining d).0 refund s),
        updated,
      )

  -- the stake that a payload takes back
  abbrev pub IsTaken : TrxContext → Bytes → ℕ → Stake → Delegatee → Type 0
  IsTaken ctx hash i s0 d =
      (ctx.tx.payload ≡ some (stake_out (some hash)))
      × (length hash ≡ 32)
      × (find_stake hash d ≡ some (i, s0))
      × (ctx.tx.from ≡ s0.from)

  check_unstaking_lem :
      (ctx : TrxContext) (payload : Option TrxPayload) (d : Delegatee) (s0 : Stake)
      → ctx.tx.payload ≡ payload
      → check_unstaking codec trees ctx.tx.from payload d ≡ ok s0
      → (hash : Bytes) × (i : ℕ) × IsTaken ctx hash i s0 d
  unfolding check_unstaking
  check_unstaking_lem ctx none d s0 has e = cc
  check_unstaking_lem ctx (some (stake_out none)) d s0 has e = cc
  check_unstaking_lem ctx (some (stake_out (some hash))) d s0 has e =
      elim (Option-cases (find_stake hash d)) [
        | inl missing ↦ absurd (ground (arith, missing, e))
        | inr ((i, s1), found) ↦
            let same : s1 ≡ s0 = ground (arith, found, e) in
            let taken : IsTaken ctx hash i s0 d = (
              has,
              ground (arith, e),
              found ∙ ap (λ (x : Stake). some (i, x)) same,
              ground (arith, found, e, =b_iff ctx.tx.from s1.from),
            ) in
            (hash, i, taken)
      ]
  check_unstaking_lem ctx (some _) d s0 has e = cc

  -- What a successful un-staking in a block did, at a key of the frozen ledger: it took a stake of
  -- the sender out of the delegatee, and with the last self stake the others too; the recorded powers
  -- are those of the stakes that are left; the frozen ledger holds all that were taken, each with
  -- its refund height and otherwise as it was; and the delegatee is updated or gone.
  abbrev pub IsUnstaked :
      Bytes
      → GovParams
      → TrxContext
      → Result Ref × StakeCtrler Tree
      → Result (Unit {0}) × StakeCtrler Tree
      → Type 0
  IsUnstaked k gov ctx found out =
      (r : Ref) × (hash : Bytes) × (i : ℕ) × (s0 : Stake) × (found.0 ≡ ok r)
      × (let d = found.1.heap.cell r.id in
          let rest = remove_at i d.stakes in
          let gone = stops d.addr rest in
          IsTaken ctx hash i s0 d
          × ((out.1.heap.cell r.id).stakes ≡ (if gone then [] else rest))
          × IsConsistent (out.1.heap.cell r.id)
          × IsFrozen k (add64 ctx.height gov.lazy_reward_blocks) (s0 ∷ (if gone then rest else []))
              found.1 out.1
          × IsUpdated r out.1)

  set_frozen-heap :
      (s0 : Stake) (exec : Bool) (s : StakeCtrler Tree)
      → (set_frozen codec trees s0 exec s).heap ≡ s.heap
  unfolding set_frozen
  set_frozen-heap s0 true s = refl
  set_frozen-heap s0 false s = refl

  IsFrozen-trans :
      (k : Bytes) (refund : Int64) (s0 : Stake) (ss : List Stake) (s s₁ s' : StakeCtrler Tree)
      → IsFrozen k refund (s0 ∷ []) s s₁
      → IsFrozen k refund ss s₁ s'
      → IsFrozen k refund (s0 ∷ ss) s s'
  IsFrozen-trans k refund s0 ss s s₁ s' first rest =
      (rest.0 ∙ ap (frozen_at k refund ss) first.0, rest.1 ∙ ap (frozen_at k refund ss) first.1)

  set_frozen-IsFrozen :
      (k : Bytes) (refund : Int64) (s0 : Stake) (exec : Bool) (s : StakeCtrler Tree)
      → exec ≡ true
      → IsFrozen k refund (s0 ∷ []) s (set_frozen codec trees (refunded_at refund s0) exec s)
  unfolding freeze_all
  set_frozen-IsFrozen k refund s0 false s e = cc
  set_frozen-IsFrozen k refund s0 true s e = freeze_all-IsFrozen k (s0 ∷ []) refund s

  unstake-IsUnstaked :
      (k : Bytes) (gov : GovParams) (ctx : TrxContext) (r : Ref) (s : StakeCtrler Tree)
      (taken : Result Stake)
      → check_unstaking codec trees ctx.tx.from ctx.tx.payload (s.heap.cell r.id) ≡ taken
      → IsConsistent (s.heap.cell r.id)
      → r.id < s.heap.next
      → ctx.exec ≡ true
      → (unstake codec trees gov ctx r taken s).0 ≡ ok tt
      → IsUnstaked k gov ctx (ok r, s) (unstake codec trees gov ctx r taken s)
  unfolding unstake
  unstake-IsUnstaked k gov ctx r s (err x) check c used exec e = cc
  unstake-IsUnstaked k gov ctx r s (ok s0) check c used exec e =
      let d = s.heap.cell r.id in
      let refund = add64 ctx.height gov.lazy_reward_blocks in
      let (hash, i, taken) = check_unstaking_lem ctx ctx.tx.payload d s0 refl check in
      let (named, _, _, _) = del_stake-found hash d i s0 taken.2 in
      let found : find_stake s0.tx_hash d ≡ some (i, s0) =
        ap (λ (h : Bytes). find_stake h d) named ∙ taken.2 in
      let (_, _, rest, addr) = del_stake-found s0.tx_hash d i s0 found in
      let d₁ = (del_stake s0.tx_hash d).1 in
      let c₁ = (del_stake-IsConsistent s0.tx_hash d c).0 in
      let (freed, kept) = remaining-stakes d₁ c₁ in
      let left_over = remove_at i d.stakes in
      let others = if stops d.addr left_over then left_over else [] in
      let s₁ = set_frozen codec trees (refunded_at refund s0) ctx.exec s in
      let used₁ : r.id < s₁.heap.next =
        subst (λ (h : Store Delegatee). r.id < h.next)
          (sym (set_frozen-heap (refunded_at refund s0) ctx.exec s)) used in
      let (left, frozen, updated) = unstaked_after_lem k ctx r refund d₁ s₁ exec used₁ e in
      let s' = (unstaked_after codec trees ctx r refund d₁ s₁).1 in
      (
        r,
        hash,
        i,
        s0,
        refl,
        (
          taken,
          ap Delegatee.stakes left ∙ kept ∙ (λ j. if stops (addr j) (rest j) then [] else rest j),
          subst (λ (x : Delegatee). IsConsistent x) (sym left) (remaining-IsConsistent d₁ c₁),
          IsFrozen-trans k refund s0 others s s₁ s'
              (set_frozen-IsFrozen k refund s0 ctx.exec s exec)
              (subst (λ (ss : List Stake). IsFrozen k refund ss s₁ s')
                (freed ∙ (λ j. if stops (addr j) (rest j) then rest j else [])) frozen),
          updated,
        ),
      )

  -- At any key: an un-staking in a block that succeeds, from a delegatee in use whose recorded powers
  -- are those of its stakes, takes from it a stake that the sender owns and names by its hash. If no
  -- power of the delegatee's own is then left, modulo 2^64, it loses the other stakes too; else they
  -- stay, in their order. The recorded powers are those of the stakes that are left. The block's cache
  -- of the frozen ledger holds what it held, overwritten by all the stakes that were taken, each as it
  -- was but for its refund height, the lazy reward blocks later. And the delegatee, if its total
  -- power is 0, is gone from the block's cache and listed for removal, and else stored there.
  pub exe_unstaking-IsUnstaked :
      (k : Bytes) (gov : GovParams) (ctx : TrxContext) (s : StakeCtrler Tree)
      → ((r : Ref)
          → (get_delegatee codec trees ctx.tx.to ctx.exec s).0 ≡ ok r
          → IsConsistent ((get_delegatee codec trees ctx.tx.to ctx.exec s).1.heap.cell r.id)
            × (r.id < (get_delegatee codec trees ctx.tx.to ctx.exec s).1.heap.next))
      → ctx.exec ≡ true
      → (exe_unstaking codec trees gov ctx s).0 ≡ ok tt
      → IsUnstaked k gov ctx
          (get_delegatee codec trees ctx.tx.to ctx.exec s)
          (exe_unstaking codec trees gov ctx s)
  unfolding exe_unstaking
  exe_unstaking-IsUnstaked k gov ctx s good exec e =
      let (found, s₁) = get_delegatee codec trees ctx.tx.to ctx.exec s in
      elim (Result-cases found) [
        | inr (x, missing) ↦ absurd (ground (arith, missing, e))
        | inl (r, known) ↦
            let check =
              check_unstaking codec trees ctx.tx.from ctx.tx.payload (s₁.heap.cell r.id) in
            let run : exe_unstaking codec trees gov ctx s ≡ unstake codec trees gov ctx r check s₁ =
              rw (known, exe_unstaking) refl in
            let done = ap (λ (x : Result (Unit {0}) × StakeCtrler Tree). x.0) (sym run) ∙ e in
            let (c, used) = good r known in
            subst (λ x. IsUnstaked k gov ctx x (exe_unstaking codec trees gov ctx s))
              (ap (λ (x : Result Ref). (x, s₁)) (sym known))
              (subst (λ x. IsUnstaked k gov ctx (ok r, s₁) x) (sym run)
                (unstake-IsUnstaked k gov ctx r s₁ check refl c used exec done))
      ]
