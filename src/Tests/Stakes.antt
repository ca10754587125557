-- ===== src/Tests/Stakes.antt =====
-- The theorems on staking at small delegatees, heights, rewards and validators.
use rigo_go.Base.{ℕ, ◌+◌, ◌%◌, ◌^◌, ◌≡◌, ◌⊎◌, true, false, none, some, List, [], ◌∷◌, refl, arith}
use rigo_go.Base.Bytes.{Bytes, bytes_lt}
use rigo_go.Base.Lists.{get_elem?, remove_at}
use rigo_go.Base.Words.{slt}
use rigo_go.Base.Result.{ok}
use rigo_go.Stake.Item.{Stake}
use rigo_go.Stake.BlockMarker.{BlockMarker, count_in_window}
use rigo_go.Stake.Delegatee.{Delegatee, add_stake, del_stake}
use rigo_go.Stake.Reward.{Reward}
use rigo_go.Stake.Limiter.{reset}
use rigo_go.Stake.Validators.{validator_updates}
use rigo_go.Stake.Laws.Powers.{powers, IsConsistent, add_stake-IsConsistent, del_stake-IsConsistent}
use rigo_go.Stake.Laws.Cutting.{left, slashed}
use rigo_go.Stake.Laws.Marker.{IsIncreasing, marked, count_in_window_lem}
use rigo_go.Stake.Laws.Rewards.{Call, issued, withdrawn, calls, IsOrdered, calls_lem, earned, taken}
use rigo_go.Stake.Laws.Limits.{IsWithinLimit, SameLimits, check_all, check_all-reset}
use rigo_go.Stake.Laws.Updates.{power_in, updated, IsByAddress, validator_updates_lem}

abbrev validator : Bytes
validator = 9 ∷ []

abbrev own_stake : Stake
own_stake = record {
  from = validator;
  to = validator;
  tx_hash = 1 ∷ [];
  start_height = 5;
  refund_height = 0;
  power = 70;
}

abbrev other_stake : Stake
other_stake = record {
  from = 4 ∷ [];
  to = validator;
  tx_hash = 2 ∷ [];
  start_height = 6;
  refund_height = 0;
  power = 30;
}

abbrev stakes : List Stake
stakes = own_stake ∷ other_stake ∷ []

abbrev empty : Delegatee
empty = record {
  addr = validator;
  pub_key = 99 ∷ [];
  self_power = 0;
  total_power = 0;
  slashed_power = 0;
  stakes = [];
  not_signed_heights = record { block_heights = [] };
}

empty-IsConsistent : IsConsistent empty
unfolding powers
empty-IsConsistent = record { total = refl; self = refl; all_to = tt }

staked : Delegatee
unfolding add_stake
staked = add_stake stakes empty

staked-IsConsistent : IsConsistent staked
unfolding staked
staked-IsConsistent = add_stake-IsConsistent stakes empty empty-IsConsistent (refl, (refl, tt))

del_stake-IsConsistent_example :
    IsConsistent (del_stake (2 ∷ []) staked).1
    × ((del_stake (2 ∷ []) staked ≡ (none, staked))
        ⊎ (s : Stake) × (k : ℕ) × ((del_stake (2 ∷ []) staked).0 ≡ some s)
          × (s.tx_hash ≡ 2 ∷ [])
          × (get_elem? staked.stakes k ≡ some s)
          × ((del_stake (2 ∷ []) staked).1.stakes ≡ remove_at k staked.stakes))
del_stake-IsConsistent_example = del_stake-IsConsistent (2 ∷ []) staked staked-IsConsistent

-- A slash of two hundredths takes 1 from the larger stake and removes the smaller.
slashed_two : left 2 staked.stakes ≡ record own_stake { power = 69 } ∷ []
unfolding left staked add_stake
slashed_two = refl

abbrev heights : BlockMarker
heights = record { block_heights = 3 ∷ 5 ∷ 8 ∷ [] }

heights-IsIncreasing : IsIncreasing heights.block_heights
unfolding slt
heights-IsIncreasing = ((refl, (refl, tt)), ((refl, tt), (tt, tt)))

not_above : slt 8 4 ≡ false
unfolding slt
not_above = refl

no_earlier : slt 5 4 ≡ false
unfolding slt
no_earlier = refl

count_in_window_lem_example :
    ((count_in_window 4 8 true heights).0 ≡ marked 4 8 heights.block_heights)
    × (marked 5 9 (count_in_window 4 8 true heights).1.block_heights
        ≡ marked 5 9 heights.block_heights)
count_in_window_lem_example =
    count_in_window_lem 4 8 true heights 5 9 heights-IsIncreasing not_above no_earlier

abbrev reward : Reward
reward = record {
  address = validator;
  issued = 0;
  withdrawn = 0;
  slashed = 0;
  cumulated = 0;
  height = 0;
}

abbrev two_calls : List Call
two_calls = issued 10 1 ∷ withdrawn 4 1 ∷ []

ordered : IsOrdered reward.height two_calls
unfolding slt
ordered = (omega arith, refl, (omega arith, refl, tt))

calls_lem_example :
    (rwd : Reward) × (calls two_calls reward ≡ ok rwd)
    × ((rwd.cumulated + taken two_calls) % 2 ^ 256
        ≡ (reward.cumulated + earned two_calls) % 2 ^ 256)
calls_lem_example = calls_lem two_calls reward (omega arith) ordered

positive_limit : slt 30 0 ≡ false
unfolding slt
positive_limit = refl

check_all-reset_example :
    let sl = reset (staked ∷ []) 3 50 30 in
    IsWithinLimit (check_all ((staked, 20) ∷ []) sl)
    × SameLimits (check_all ((staked, 20) ∷ []) sl) sl
check_all-reset_example = check_all-reset (staked ∷ []) 3 50 30 ((staked, 20) ∷ []) positive_limit

abbrev address_of_key : Bytes → Bytes
address_of_key [] = []
address_of_key (x ∷ xs) = xs

abbrev weighing : ℕ → ℕ → Delegatee
weighing n power = record empty { addr = n ∷ []; pub_key = 0 ∷ n ∷ []; total_power = power }

abbrev before : List Delegatee
before = weighing 1 10 ∷ weighing 2 20 ∷ []

abbrev after : List Delegatee
after = weighing 2 25 ∷ weighing 3 30 ∷ []

before-IsByAddress : IsByAddress before
unfolding bytes_lt
before-IsByAddress = ((refl, tt), (tt, tt))

after-IsByAddress : IsByAddress after
unfolding bytes_lt
after-IsByAddress = ((refl, tt), (tt, tt))

validator_updates_lem_example :
    updated address_of_key (2 ∷ []) (validator_updates before after) (power_in (2 ∷ []) before)
    ≡ power_in (2 ∷ []) after
validator_updates_lem_example =
    validator_updates_lem address_of_key (2 ∷ []) before after before-IsByAddress after-IsByAddress
      (refl, (refl, tt)) (refl, (refl, tt))
