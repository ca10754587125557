-- ===== src/Stake/Delegatee.antt =====
-- ctrlers/stake/delegatee.go: a delegatee, its stakes and its powers.
use rigo_go.Base.{
  ℕ, suc, Bool, true, not, Option, none, some, List, [], ◌∷◌, ◌++◌, ◌==◌, ltb, leb, if◌then◌else◌,
}
use rigo_go.Base.Bytes.{Bytes, ◌=b◌, bytes_lt}
use rigo_go.Base.Lists.{length, get_elem?, remove_at}
use rigo_go.Base.Words.{Int64, add64, sub64, mul64, sdiv, slt}
use rigo_go.Base.Result.{Result, ok, err, panicked}
use rigo_go.Stake.Item.{Stake, is_self_stake}
use rigo_go.Stake.BlockMarker.{BlockMarker, mark, count_in_window}

pub record Delegatee : Type 0 where
  pub addr : Bytes
  pub pub_key : Bytes
  pub self_power : Int64
  pub total_power : Int64
  pub slashed_power : Int64
  pub stakes : List Stake
  pub not_signed_heights : BlockMarker

unfoldable pub new_delegatee : Bytes → Bytes → Delegatee
new_delegatee addr pub_key = record {
  addr = addr;
  pub_key = pub_key;
  self_power = 0;
  total_power = 0;
  slashed_power = 0;
  stakes = [];
  not_signed_heights = record { block_heights = [] };
}

-- one round of the loop of `addStake`
unfoldable pub add_powers : Stake → Delegatee → Delegatee
unfolding add64 is_self_stake
add_powers s d = record d {
  self_power = if is_self_stake s then add64 d.self_power s.power else d.self_power;
  total_power = add64 d.total_power s.power;
}

unfoldable pub add_all_powers : List Stake → Delegatee → Delegatee
unfolding add_powers
add_all_powers [] d = d
add_all_powers (s ∷ ss) d = add_all_powers ss (add_powers s d)

unfoldable pub add_stake : List Stake → Delegatee → Delegatee
unfolding add_all_powers
add_stake ss d = add_all_powers ss (record d { stakes = d.stakes ++ ss })

-- `findStake`, from an index on
unfoldable pub find_from : Bytes → ℕ → List Stake → Option (ℕ × Stake)
find_from tx_hash i [] = none
find_from tx_hash i (s ∷ ss) =
    if tx_hash =b s.tx_hash then some (i, s) else find_from tx_hash (suc i) ss

unfoldable pub find_stake : Bytes → Delegatee → Option (ℕ × Stake)
unfolding find_from
find_stake tx_hash d = find_from tx_hash 0 d.stakes

-- `delStakeByIdx`; `getStake` is its first component
unfoldable pub del_stake_by_idx : ℕ → Delegatee → Option Stake × Delegatee
del_stake_by_idx idx d =
    if leb (length d.stakes) idx
    then (none, d)
    else (get_elem? d.stakes idx, record d { stakes = remove_at idx d.stakes })

unfoldable pub del_stake_by_hash : Bytes → Delegatee → Option Stake × Delegatee
unfolding find_stake del_stake_by_idx
del_stake_by_hash tx_hash d = elim (find_stake tx_hash d) [
  | none ↦ (none, d)
  | some (i, s0) ↦ del_stake_by_idx i d
]

abbrev pub sub_powers : Option Stake × Delegatee → Option Stake × Delegatee
sub_powers (none, d) = (none, d)
sub_powers (some s, d) = (
  some s,
  record d {
    self_power = if is_self_stake s then sub64 d.self_power s.power else d.self_power;
    total_power = sub64 d.total_power s.power;
  },
)

unfoldable pub del_stake : Bytes → Delegatee → Option Stake × Delegatee
unfolding del_stake_by_hash is_self_stake sub64
del_stake tx_hash d = sub_powers (del_stake_by_hash tx_hash d)

-- `DelStakeByIdx`
unfoldable pub del_stake_at : ℕ → Delegatee → Option Stake × Delegatee
unfolding del_stake_by_idx is_self_stake sub64
del_stake_at idx d = sub_powers (del_stake_by_idx idx d)

unfoldable pub sub_all_powers : List Stake → Int64 → Int64
unfolding sub64
sub_all_powers [] total = total
sub_all_powers (s ∷ ss) total = sub_all_powers ss (sub64 total s.power)

-- Only the total power is brought down.
unfoldable pub del_all_stakes : Delegatee → List Stake × Delegatee
unfolding sub_all_powers
del_all_stakes d =
    (d.stakes, record d { stakes = []; total_power = sub_all_powers d.stakes d.total_power })

unfoldable pub stakes_of : Bytes → List Stake → List Stake
stakes_of addr [] = []
stakes_of addr (s ∷ ss) = let rest = stakes_of addr ss in if addr =b s.from then s ∷ rest else rest

-- `addr == nil || bytes.Compare(addr, s.From) == 0`
abbrev pub is_owner : Option Bytes → Stake → Bool
is_owner none s = true
is_owner (some addr) s = addr =b s.from

unfoldable pub sum_power_loop : Option Bytes → List Stake → Int64 → Int64
unfolding add64
sum_power_loop addr [] power = power
sum_power_loop addr (s ∷ ss) power =
    sum_power_loop addr ss (if is_owner addr s then add64 power s.power else power)

unfoldable pub sum_power_of : Option Bytes → Delegatee → Int64
unfolding sum_power_loop
sum_power_of addr d = sum_power_loop addr d.stakes 0

-- `SelfStakeRatio`; a zero divisor panics
unfoldable pub self_stake_ratio : Int64 → Delegatee → Result Int64
unfolding mul64 sdiv add64
self_stake_ratio added d =
    let divisor = add64 d.total_power added in
    if divisor == 0 then err panicked else ok (sdiv (mul64 d.self_power 100) divisor)

-- The first loop of `doSlashAll`: it gives the stakes with their new powers, those to remove, and
-- the sum of what was slashed.
unfoldable pub slash_loop :
    Int64 → List Stake → List Stake × Int64 → List Stake × List Stake × Int64
unfolding sdiv mul64 sub64 add64 slt
slash_loop ratio [] (removing, sum) = ([], removing, sum)
slash_loop ratio (s0 ∷ ss) (removing, sum) =
    let slashed_power = sdiv (mul64 s0.power ratio) 100 in
    let too_small = slt slashed_power 1 in
    let (kept, removing', sum') =
      slash_loop ratio ss
        (if too_small then (removing ++ s0 ∷ [], sum) else (removing, add64 sum slashed_power)) in
    (
      (if too_small then s0 else record s0 { power = sub64 s0.power slashed_power }) ∷ kept,
      removing',
      sum',
    )

unfoldable pub remove_stakes : List Stake → Delegatee → Delegatee
unfolding del_stake_by_hash
remove_stakes [] d = d
remove_stakes (s1 ∷ ss) d = remove_stakes ss (del_stake_by_hash s1.tx_hash d).1

-- `doSlashAll`
unfoldable pub do_slash : Int64 → Delegatee → Int64 × Delegatee
unfolding slash_loop remove_stakes sum_power_of
do_slash ratio d =
    let (kept, removing, sum) = slash_loop ratio d.stakes ([], 0) in
    let d' = remove_stakes removing (record d { stakes = kept }) in
    (
      sum,
      record d' { self_power = sum_power_of (some d'.addr) d'; total_power = sum_power_of none d' },
    )

unfoldable pub process_not_signed_block : Int64 → Delegatee → Result (Unit {0}) × Delegatee
unfolding mark
process_not_signed_block height d =
    let (r, bm) = mark height d.not_signed_heights in (r, record d { not_signed_heights = bm })

unfoldable pub get_not_signed_block_count : Int64 → Int64 → Delegatee → ℕ × Delegatee
unfolding count_in_window
get_not_signed_block_count h0 h1 d =
    let (n, bm) = count_in_window h0 h1 true d.not_signed_heights in
    (n, record d { not_signed_heights = bm })

-- `DelegateeArray`
unfoldable pub sum_total_power : List Delegatee → Int64 → Int64
unfolding add64
sum_total_power [] power = power
sum_total_power (d ∷ ds) power = sum_total_power ds (add64 power d.total_power)

unfoldable pub find_delegatee : Bytes → List Delegatee → Option Delegatee
find_delegatee addr [] = none
find_delegatee addr (d ∷ ds) = if addr =b d.addr then some d else find_delegatee addr ds

-- `PowerOrderDelegatees.Less`: by power, then by the number of stakes, then by address, each
-- descending
unfoldable pub power_order : Delegatee → Delegatee → Bool
unfolding slt bytes_lt
power_order a b =
    if not (a.total_power == b.total_power)
    then slt b.total_power a.total_power
    else if not (length a.stakes == length b.stakes)
    then ltb (length b.stakes) (length a.stakes)
    else bytes_lt b.addr a.addr

-- `AddressOrderDelegatees.Less`
unfoldable pub address_order : Delegatee → Delegatee → Bool
unfolding bytes_lt
address_order a b = bytes_lt a.addr b.addr
