-- ===== src/Stake/Laws/Ctrler/Eligible.antt =====
-- Who may become a validator (`BeginBlock` and `EndBlock` of ctrlers/stake/ctrler.go).
use mathlib.Core.Path.{subst}
use rigo_go.Base.{
  ℕ, suc, zero, ◌≡◌, ◌≤◌, inl, inr, Bool, false, Bool-cases, List, [], ◌∷◌, ◌++◌, refl, sym, ap,
  ◌∙◌, arith,
}
use rigo_go.Base.Lists.{length, take}
use rigo_go.Base.Words.{Int64, UInt256, slt, is_negative}
use rigo_go.Base.Sort.{sort, sort_insert}
use rigo_go.Base.Result.{ok, Result-cases}
use rigo_go.Base.Store.{Ref, Store}
use rigo_go.Ledger.Tree.{TreeOps}
use rigo_go.Ledger.Laws.Iteration.{iterate_read_all_items-inv}
use rigo_go.Gov.Params.{GovParams}
use rigo_go.Gov.Ctrler.Blocks.{Evidence}
use rigo_go.Stake.Delegatee.{Delegatee, power_order, address_order}
use rigo_go.Stake.Validators.{ValidatorUpdate, select_validators, update_validators}
use rigo_go.Stake.Ctrler.{StakeCodec, StakeCtrler, delegatee_items, min_validator_power}
use rigo_go.Stake.Ctrler.Blocks.{collect, select_delegatees, punish_all}
use rigo_go.Account.Struct.{Sign}
use rigo_go.Account.Codec.{AcctCodec}
use rigo_go.Account.Ctrler.{AcctCtrler}
use rigo_go.Stake.Ctrler.Closing.{unfreezing_stakes, report_validators, end_block}
use rigo_go.Stake.Laws.Ctrler.Kept.{punish_all-chosen, reward_block-chosen}
use rigo_go.Stake.Ctrler.Rewarding.{VoteInfo, begin_block}

-- The self power of each is no smaller than the minimum.
abbrev pub AreEligible : Int64 → List Delegatee → Type 0
AreEligible min_power [] = Unit
AreEligible min_power (d ∷ ds) = (slt d.self_power min_power ≡ false) × AreEligible min_power ds

append-AreEligible :
    (min_power : Int64) (ds es : List Delegatee)
    → AreEligible min_power ds
    → AreEligible min_power es
    → AreEligible min_power (ds ++ es)
append-AreEligible min_power [] es p q = q
append-AreEligible min_power (d ∷ ds) es p q = (p.0, append-AreEligible min_power ds es p.1 q)

take-AreEligible :
    (min_power : Int64) (n : ℕ) (ds : List Delegatee)
    → AreEligible min_power ds
    → AreEligible min_power (take n ds)
take-AreEligible min_power zero ds p = tt
take-AreEligible min_power (suc n) [] p = tt
take-AreEligible min_power (suc n) (d ∷ ds) p = (p.0, take-AreEligible min_power n ds p.1)

sort_insert-AreEligible :
    (less : Delegatee → Delegatee → Bool) (min_power : Int64) (d : Delegatee) (ds : List Delegatee)
    → slt d.self_power min_power ≡ false
    → AreEligible min_power ds
    → AreEligible min_power (sort_insert less d ds)
unfolding sort_insert
sort_insert-AreEligible less min_power d [] p q = (p, tt)
sort_insert-AreEligible less min_power d (e ∷ es) p q = elim (Bool-cases (less e d)) [
  | inl before ↦ rw before (q.0, sort_insert-AreEligible less min_power d es p q.1)
  | inr after ↦ rw after (p, q)
]

sort-AreEligible :
    (less : Delegatee → Delegatee → Bool) (min_power : Int64) (ds : List Delegatee)
    → AreEligible min_power ds
    → AreEligible min_power (sort less ds)
unfolding sort
sort-AreEligible less min_power [] p = tt
sort-AreEligible less min_power (d ∷ ds) p =
    sort_insert-AreEligible less min_power d (sort less ds) p.0
      (sort-AreEligible less min_power ds p.1)

length-sort_insert :
    (less : Delegatee → Delegatee → Bool) (d : Delegatee) (ds : List Delegatee)
    → length (sort_insert less d ds) ≡ suc (length ds)
unfolding sort_insert
length-sort_insert less d [] = refl
length-sort_insert less d (e ∷ es) = ground (arith, length-sort_insert less d es)

length-sort :
    (less : Delegatee → Delegatee → Bool) (ds : List Delegatee) → length (sort less ds) ≡ length ds
unfolding sort
length-sort less [] = refl
length-sort less (d ∷ ds) = length-sort_insert less d (sort less ds) ∙ ap suc (length-sort less ds)

length-take : (n : ℕ) (ds : List Delegatee) → length (take n ds) ≤ n
length-take zero ds = omega arith
length-take (suc n) [] = omega arith
length-take (suc n) (d ∷ ds) = omega (arith, length-take n ds)

AreEligible-as :
    (min_power : Int64) {ds es : List Delegatee}
    → ds ≡ es
    → AreEligible min_power ds
    → AreEligible min_power es
AreEligible-as min_power e p = subst (λ x. AreEligible min_power x) e p

select_validators-AreEligible :
    (n : ℕ) (min_power : Int64) (ds : List Delegatee)
    → AreEligible min_power ds
    → AreEligible min_power (select_validators n ds)
unfolding select_validators
select_validators-AreEligible n min_power ds p = take-AreEligible min_power _ ds p

length-select_validators : (n : ℕ) (ds : List Delegatee) → length (select_validators n ds) ≤ n
unfolding select_validators
length-select_validators n ds = ground (arith, length-take (length ds) ds, length-take n ds)

module _ {Tree : Type 0} (codec : StakeCodec) (trees : TreeOps Tree) where
  collect-AreEligible :
      (min_power : Int64) (r : Ref) (ds : List Delegatee) (h : Store Delegatee)
      → AreEligible min_power ds
      → AreEligible min_power (collect codec trees (ok min_power) r (ds, h)).1
  unfolding collect
  collect-AreEligible min_power r ds h p =
      elim (Bool-cases (slt (h.cell r.id).self_power min_power)) [
        | inl small ↦ rw small p
        | inr large ↦ rw large (append-AreEligible min_power ds (h.cell r.id ∷ []) p (large, tt))
      ]

  select_delegatees-AreEligible :
      (gov : GovParams) (min_power : Int64) (s : StakeCtrler Tree)
      → min_validator_power gov ≡ ok min_power
      → AreEligible min_power (select_delegatees codec trees gov s).1.all_delegatees
  unfolding select_delegatees
  select_delegatees-AreEligible gov min_power s e = rw e (
      sort-AreEligible power_order min_power _ (
        iterate_read_all_items-inv (delegatee_items codec) (AreEligible min_power)
          (collect codec trees (ok min_power)) (collect-AreEligible min_power) trees
          s.delegatee_ledger.simple [] s.heap tt))

  -- The delegatees that the begin of a block chooses from the ledger, in their order, are the chosen
  -- ones when it is over, through the punishments and the rewards of the block and whatever its
  -- outcome; and each of them has the self power of a validator.
  pub begin_block-AreEligible :
      (gov : GovParams) (min_power height : Int64) (byzantines : List Evidence)
      (votes : List VoteInfo) (s : StakeCtrler Tree)
      → min_validator_power gov ≡ ok min_power
      → let s' = (begin_block codec trees gov height byzantines votes s).1 in
        (s'.all_delegatees ≡ (select_delegatees codec trees gov s).1.all_delegatees)
        × AreEligible min_power s'.all_delegatees
  unfolding begin_block
  begin_block-AreEligible gov min_power height byzantines votes s e =
      let selected = select_delegatees-AreEligible gov min_power s e in
      let (r, s₁) = select_delegatees codec trees gov s in
      let (evts, s₂) = punish_all codec trees gov.slash_ratio byzantines s₁ in
      let punished = punish_all-chosen codec trees gov.slash_ratio byzantines s₁ in
      let rewarded = reward_block-chosen codec trees gov height votes evts s₂ in
      elim (Result-cases r) [
        | inr (x, d) ↦ rw (d, begin_block) (refl, selected)
        | inl (_, d) ↦
            rw (d, begin_block)
              (rewarded ∙ punished, AreEligible-as min_power (sym (rewarded ∙ punished)) selected)
      ]

module _ {Tree : Type 0} (codec : StakeCodec) (acct_codec : AcctCodec) (trees : TreeOps Tree)
    (sign : UInt256 → Sign) where
  report_validators-AreEligible :
      (max_vals min_power : Int64) (s : StakeCtrler Tree) (updates : List ValidatorUpdate)
      → AreEligible min_power s.all_delegatees
      → (report_validators codec acct_codec trees sign max_vals s).0 ≡ ok updates
      → let s' = (report_validators codec acct_codec trees sign max_vals s).1 in
        AreEligible min_power s'.last_validators × (length s'.last_validators ≤ max_vals)
  unfolding report_validators update_validators select_validators
  report_validators-AreEligible max_vals min_power s updates eligible e =
      elim (Bool-cases (is_negative max_vals)) [
        | inl negative ↦ absurd (ground (arith, negative, e))
        | inr positive ↦
            let ds = select_validators max_vals s.all_delegatees in
            let in_order = sort address_order ds in
            let few : length ds ≤ max_vals = length-select_validators max_vals s.all_delegatees in
            rw (positive, report_validators)
              (
                sort-AreEligible power_order min_power in_order (
                    sort-AreEligible address_order min_power ds
                      (select_validators-AreEligible max_vals min_power s.all_delegatees eligible)),
                omega (arith, few, length-sort power_order in_order, length-sort address_order ds),
              )
      ]

  -- The end of a block that succeeds leaves, as the validators, no more delegatees than the
  -- parameters allow, and only ones with the self power of a validator, if those that were chosen at
  -- its begin have it.
  pub end_block-AreEligible :
      (gov : GovParams) (min_power height : Int64) (s : StakeCtrler Tree) (accts : AcctCtrler Tree)
      (updates : List ValidatorUpdate)
      → AreEligible min_power s.all_delegatees
      → (end_block codec acct_codec trees sign gov height s accts).0 ≡ ok updates
      → let s' = (end_block codec acct_codec trees sign gov height s accts).1 in
        AreEligible min_power s'.last_validators
        × (length s'.last_validators ≤ gov.max_validator_cnt)
  unfolding end_block unfreezing_stakes
  end_block-AreEligible gov min_power height s accts updates eligible e =
      let (res, s₁, accts') = unfreezing_stakes codec acct_codec trees sign height s accts in
      elim (Result-cases res) [
        | inr (x, d) ↦ absurd (ground (arith, d, e))
        | inl (_, d) ↦
            let ended : (report_validators codec acct_codec trees sign gov.max_validator_cnt s₁).0
                ≡ ok updates =
              ground (arith, d, e) in
            rw (d, end_block)
              (report_validators-AreEligible gov.max_validator_cnt min_power s₁ updates eligible
                ended)
      ]
