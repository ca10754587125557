-- ===== src/Stake/Limiter.antt =====
-- ctrlers/stake/limiter.go: the limits on how much power one delegatee may have, and on how much
-- of the validators' power may change in a block. `handledAddrs` is never used.
use rigo_go.Base.{
  ℕ, suc, ◌&&◌, ◌==◌, Bool, false, not, Option, none, some, List, [], ◌∷◌, if◌then◌else◌,
}
use rigo_go.Base.Bytes.{Bytes, ◌=b◌, bytes_lt}
use rigo_go.Base.Lists.{length, get_elem?, set}
use rigo_go.Base.Words.{Int64, add64, sub64, mul64, sdiv, slt, neg64}
use rigo_go.Base.Sort.{sort}
use rigo_go.Base.Result.{Result, ok, err, ordinary, panicked}
use rigo_go.Stake.Delegatee.{Delegatee}

pub record PowerObj : Type 0 where
  pub addr : Bytes
  pub power : Int64

-- `orderedPowerObj.Less`: by power and then by address, each descending
unfoldable pub power_obj_order : PowerObj → PowerObj → Bool
unfolding slt bytes_lt
power_obj_order a b =
    if not (a.power == b.power) then slt b.power a.power else bytes_lt b.addr a.addr

pub record StakeLimiter : Type 0 where
  pub individual_limit_ratio : Int64
  pub updatable_limit_ratio : Int64
  pub max_validator_cnt : Int64
  -- nil and empty are one here: `append` makes a list that is not nil as soon as it has an item
  pub power_objs : List PowerObj
  pub base_total_power : Int64
  pub updated_power : Int64

-- the loop of `reset` over the delegatees, from index `i`
unfoldable pub reset_loop : Int64 → ℕ → List Delegatee → Int64 → List PowerObj × Int64
unfolding slt add64
reset_loop max_val_cnt i [] base = ([], base)
reset_loop max_val_cnt i (d ∷ ds) base =
    let (objs, base') =
      reset_loop max_val_cnt (suc i) ds
        (if slt i max_val_cnt then add64 base d.total_power else base) in
    (record { addr = d.addr; power = d.total_power } ∷ objs, base')

unfoldable pub reset : List Delegatee → Int64 → Int64 → Int64 → StakeLimiter
unfolding reset_loop
reset delgs max_val_cnt indi_limit_ratio up_limit_ratio =
    let (objs, base) = reset_loop max_val_cnt 0 delgs 0 in
    record {
      individual_limit_ratio = indi_limit_ratio;
      updatable_limit_ratio = up_limit_ratio;
      max_validator_cnt = max_val_cnt;
      power_objs = objs;
      base_total_power = base;
      updated_power = 0;
    }

unfoldable pub find_power_obj : Bytes → ℕ → List PowerObj → Option (ℕ × PowerObj)
find_power_obj addr i [] = none
find_power_obj addr i (o ∷ os) =
    if o.addr =b addr then some (i, o) else find_power_obj addr (suc i) os

abbrev divided : Int64 → Int64 → Result Int64
divided a b = if b == 0 then err panicked else ok (sdiv a b)

unfoldable pub check_individual_power_limit : StakeLimiter → Delegatee → Int64 → Result (Unit {0})
unfolding slt add64 mul64 sdiv
check_individual_power_limit sl delg diff_power =
    if not (slt 0 diff_power)
    then ok tt
    else elim (divided (mul64 (add64 delg.total_power diff_power) 100)
        (add64 sl.base_total_power diff_power)) [
          | err e ↦ err e
          | ok individual_ratio ↦
              if slt sl.individual_limit_ratio individual_ratio
              then err (ordinary "exceeding individual power limit")
              else ok tt
        ]

-- An index of the power objects: out of range it panics. A negative one is a large pattern.
abbrev power_at : Int64 → List PowerObj → Result PowerObj
power_at i objs = elim (get_elem? objs i) [ some o ↦ ok o | none ↦ err panicked ]

-- What an un-staking of a validator adds to the updated power: the whole of its power if the first
-- candidate takes its place, and otherwise what it takes back.
unfoldable pub unstaked : StakeLimiter → PowerObj → Int64 → Result Int64
unfolding slt add64 neg64
unstaked sl obj diff_power =
    if slt sl.max_validator_cnt (length sl.power_objs)
    then elim (power_at sl.max_validator_cnt sl.power_objs) [
      | err e ↦ err e
      | ok candidate ↦
          if slt (add64 obj.power diff_power) candidate.power
          then ok (add64 sl.updated_power obj.power)
          else ok (add64 sl.updated_power (neg64 diff_power))
    ]
    else ok (add64 sl.updated_power (neg64 diff_power))

-- What a staking by one who is no validator adds: the power of the last validator, if it is pushed
-- out.
unfoldable pub staked : StakeLimiter → PowerObj → Int64 → Result Int64
unfolding slt add64 sub64
staked sl obj diff_power =
    if not (slt (length sl.power_objs) sl.max_validator_cnt)
    then elim (power_at (sub64 sl.max_validator_cnt 1) sl.power_objs) [
      | err e ↦ err e
      | ok last_val ↦
          if slt last_val.power (add64 obj.power diff_power)
          then ok (add64 sl.updated_power last_val.power)
          else ok sl.updated_power
    ]
    else ok sl.updated_power

-- the index of `findPowerObj` is that of a validator; none is -1
abbrev is_validator_idx : StakeLimiter → Option (ℕ × PowerObj) → Bool
is_validator_idx sl none = false
is_validator_idx sl (some (i, o)) = slt i sl.max_validator_cnt

-- The two conditions exclude each other, so one of the two additions is made, or none.
unfoldable pub updated_by : StakeLimiter → Option (ℕ × PowerObj) → PowerObj → Int64 → Result Int64
unfolding unstaked staked slt
updated_by sl found obj diff_power =
    if is_validator_idx sl found && slt diff_power 0
    then unstaked sl obj diff_power
    else if not (is_validator_idx sl found) && slt 0 diff_power
    then staked sl obj diff_power
    else ok sl.updated_power

-- `powObj.Power += diffPower`, on the object in the list if it is one of them
abbrev bumped : Option (ℕ × PowerObj) → PowerObj → List PowerObj → List PowerObj
bumped none obj objs = objs
bumped (some (i, o)) obj objs = set objs i obj

-- What follows once `updatedPower` is known.
unfoldable pub accept :
    StakeLimiter
    → Option (ℕ × PowerObj)
    → PowerObj
    → Int64
    → Int64
    → Result (Unit {0}) × StakeLimiter
unfolding mul64 sdiv slt add64 power_obj_order
accept sl found obj diff_power updated_power =
    elim (divided (mul64 updated_power 100) sl.base_total_power) [
      | err e ↦ (err e, sl)
      | ok ratio ↦
          if slt sl.updatable_limit_ratio ratio
          then (err (ordinary "exceeding the updatable power limit"), sl)
          else (let obj' = record obj { power = add64 obj.power diff_power } in
              let objs = bumped found obj' sl.power_objs in
              if slt obj'.power 0
              then (err (ordinary "power is negative"), record sl { power_objs = objs })
              else (
                ok tt,
                record sl { updated_power = updated_power; power_objs = sort power_obj_order objs },
              ))
    ]

-- the object of `findPowerObj`, or a new one
abbrev pub obj_of : Delegatee → Option (ℕ × PowerObj) → PowerObj
obj_of delg none = record { addr = delg.addr; power = delg.total_power }
obj_of delg (some (i, o)) = o

-- The check with what `findPowerObj` returns.
unfoldable pub check_with :
    StakeLimiter → Delegatee → Int64 → Option (ℕ × PowerObj) → Result (Unit {0}) × StakeLimiter
unfolding updated_by accept
check_with sl delg diff_power found =
    let obj = obj_of delg found in
    if not (obj.power == delg.total_power)
    then (err (ordinary "power object is not equal to delegatee's power"), sl)
    else elim (updated_by sl found obj diff_power) [
      | err e ↦ (err e, sl)
      | ok updated_power ↦ accept sl found obj diff_power updated_power
    ]

unfoldable pub check_updatable_power_limit :
    StakeLimiter → Delegatee → Int64 → Result (Unit {0}) × StakeLimiter
unfolding find_power_obj check_with
check_updatable_power_limit sl delg diff_power =
    check_with sl delg diff_power (find_power_obj delg.addr 0 sl.power_objs)

unfoldable pub check_limit : StakeLimiter → Delegatee → Int64 → Result (Unit {0}) × StakeLimiter
unfolding check_individual_power_limit check_updatable_power_limit
check_limit sl delg change_power = elim sl.power_objs [
  | [] ↦ (ok tt, sl)
  | o ∷ os ↦ elim (check_individual_power_limit sl delg change_power) [
    | err e ↦ (err e, sl)
    | ok _ ↦ check_updatable_power_limit sl delg change_power
  ]
]
