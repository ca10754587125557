-- ===== src/Stake/Laws/Limits.antt =====
-- What `CheckLimit` of ctrlers/stake/limiter.go keeps of the share of power that changes in a block.
use rigo_go.Base.{
  ℕ, ◌≡◌, inl, inr, ◌⊎◌, false, Option, List, [], ◌∷◌, refl, ap, ◌∙◌, ◌==◌, Bool-cases,
}
use rigo_go.Base.Words.{Int64, mul64, sdiv, slt, add64, sdiv_zero}
use rigo_go.Base.Result.{Result, ok, Result-cases}
use rigo_go.Stake.Delegatee.{Delegatee}
use rigo_go.Stake.Limiter.{
  PowerObj, StakeLimiter, reset, find_power_obj, updated_by, check_individual_power_limit,
  check_updatable_power_limit, check_limit, accept, check_with, obj_of,
}

-- The power updated in the block is no greater part of the base than the limit, as the code divides.
abbrev pub IsWithinLimit : StakeLimiter → Type 0
IsWithinLimit sl =
    slt sl.updatable_limit_ratio (sdiv (mul64 sl.updated_power 100) sl.base_total_power) ≡ false

-- the limits and the base
abbrev pub SameLimits : StakeLimiter → StakeLimiter → Type 0
SameLimits a b =
    (a.individual_limit_ratio ≡ b.individual_limit_ratio)
    × (a.updatable_limit_ratio ≡ b.updatable_limit_ratio)
    × (a.max_validator_cnt ≡ b.max_validator_cnt)
    × (a.base_total_power ≡ b.base_total_power)

-- What a check leaves: an accepted change is counted, and within the limit; a refused one is not
-- counted; the limits and the base stay.
abbrev pub IsChecked : StakeLimiter → Result (Unit {0}) × StakeLimiter → Type 0
IsChecked sl (r, sl') =
    SameLimits sl' sl × ((sl'.updated_power ≡ sl.updated_power) ⊎ (r ≡ ok tt) × IsWithinLimit sl')

accept-IsChecked :
    (sl : StakeLimiter) (found : Option (ℕ × PowerObj)) (obj : PowerObj) (diff updated : Int64)
    → IsChecked sl (accept sl found obj diff updated)
unfolding accept
accept-IsChecked sl found obj diff updated = elim (Bool-cases (sl.base_total_power == 0)) [
  | inl zero_base ↦ rw (zero_base, accept) ((refl, refl, refl, refl), inl refl)
  | inr base ↦
      elim (Bool-cases
        (slt sl.updatable_limit_ratio (sdiv (mul64 updated 100) sl.base_total_power))) [
          | inl over ↦ rw (base, over, accept) ((refl, refl, refl, refl), inl refl)
          | inr within ↦ elim (Bool-cases (slt (add64 obj.power diff) 0)) [
            | inl negative ↦
                rw (base, within, negative, accept) ((refl, refl, refl, refl), inl refl)
            | inr positive ↦
                rw (base, within, positive, accept) ((refl, refl, refl, refl), inr (refl, within))
          ]
        ]
]

check_with-IsChecked :
    (sl : StakeLimiter) (d : Delegatee) (diff : Int64) (found : Option (ℕ × PowerObj))
    → IsChecked sl (check_with sl d diff found)
unfolding check_with
check_with-IsChecked sl d diff found = elim (Bool-cases ((obj_of d found).power == d.total_power)) [
  | inr unequal ↦ rw (unequal, check_with) ((refl, refl, refl, refl), inl refl)
  | inl equal ↦ elim (Result-cases (updated_by sl found (obj_of d found) diff)) [
    | inl (updated, e) ↦
        rw (equal, e, check_with) (accept-IsChecked sl found (obj_of d found) diff updated)
    | inr (x, e) ↦ rw (equal, e, check_with) ((refl, refl, refl, refl), inl refl)
  ]
]

check_updatable-IsChecked :
    (sl : StakeLimiter) (d : Delegatee) (diff : Int64)
    → IsChecked sl (check_updatable_power_limit sl d diff)
unfolding check_updatable_power_limit
check_updatable-IsChecked sl d diff =
    check_with-IsChecked sl d diff (find_power_obj d.addr 0 sl.power_objs)

nil_or_not : (os : List PowerObj) → (os ≡ []) ⊎ (p : PowerObj × List PowerObj) × (os ≡ p.0 ∷ p.1)
nil_or_not [] = inl refl
nil_or_not (o ∷ os) = inr ((o, os), refl)

within :
    (sl : StakeLimiter) (r : Result (Unit {0}) × StakeLimiter)
    → IsWithinLimit sl
    → IsChecked sl r
    → IsWithinLimit r.1 × SameLimits r.1 sl
within sl (r, sl') w (same, inr (accepted, w')) = (w', same)
within sl (r, sl') w ((i, u, m, b), inl e) = (rw (e, u, b) w, (i, u, m, b))

check_limit-IsChecked :
    (sl : StakeLimiter) (d : Delegatee) (diff : Int64)
    → IsWithinLimit sl
    → let sl' = (check_limit sl d diff).1 in IsWithinLimit sl' × SameLimits sl' sl
unfolding check_limit
check_limit-IsChecked sl d diff w = elim (nil_or_not sl.power_objs) [
  | inl empty ↦ rw (empty, check_limit) (w, (refl, refl, refl, refl))
  | inr ((o, os), objs) ↦ elim (Result-cases (check_individual_power_limit sl d diff)) [
    | inr (x, e) ↦ rw (objs, e, check_limit) (w, (refl, refl, refl, refl))
    | inl (u, e) ↦
        rw (objs, e, check_limit)
          (within sl (check_updatable_power_limit sl d diff) w
            (check_updatable-IsChecked sl d diff))
  ]
]

-- The changes of a block's transactions, one after the other.
abbrev pub check_all : List (Delegatee × Int64) → StakeLimiter → StakeLimiter
check_all [] sl = sl
check_all ((d, diff) ∷ cs) sl = check_all cs (check_limit sl d diff).1

check_all-IsWithinLimit :
    (cs : List (Delegatee × Int64)) (sl : StakeLimiter)
    → IsWithinLimit sl
    → IsWithinLimit (check_all cs sl) × SameLimits (check_all cs sl) sl
check_all-IsWithinLimit [] sl w = (w, (refl, refl, refl, refl))
check_all-IsWithinLimit ((d, diff) ∷ cs) sl w =
    let (w', (i, u, m, b)) = check_limit-IsChecked sl d diff w in
    let (w'', (i', u', m', b')) = check_all-IsWithinLimit cs (check_limit sl d diff).1 w' in
    (w'', (i' ∙ i, u' ∙ u, m' ∙ m, b' ∙ b))

-- After `Reset` to a limit that is not negative, whatever changes are asked for and however each is
-- answered, the part of the base power that has been updated is within the limit, and the limits
-- and the base are those of the reset.
pub check_all-reset :
    (ds : List Delegatee) (max indi up : Int64) (cs : List (Delegatee × Int64))
    → slt up 0 ≡ false
    → let sl = reset ds max indi up in
      IsWithinLimit (check_all cs sl) × SameLimits (check_all cs sl) sl
unfolding reset mul64
check_all-reset ds max indi up cs p =
    let start : IsWithinLimit (reset ds max indi up) =
      ap (λ (q : Int64). slt up q) (sdiv_zero (reset ds max indi up).base_total_power) ∙ p in
    check_all-IsWithinLimit cs (reset ds max indi up) start
