-- ===== src/Gov/Params.antt =====
-- `GovParams` of ctrlers/types/gov_params.go: the parameters of the chain, their encodings and how
-- a new set of them is merged into the old. A nil `*uint256.Int` is `none`; the mutex makes every
-- method one step. The generated `GovParamsProto`, `proto.Marshal`, `tmjson` and the two texts of a
-- `uint256.Int` are parameters (Gov/Params/Codec).
pub mod Codec
use Prim.Native.String.{String}
use rigo_go.Base.{
  ℕ, ◌≡◌, ◌<◌, ◌^◌, ◌%◌, ◌/◌, Option, none, some, List, [], ◌==◌, true, false, if◌then◌else◌,
}
use rigo_go.Base.Bytes.{Bytes}
use rigo_go.Base.Lists.{replicate}
use rigo_go.Base.Words.{Int64, UInt256, mul256}
use rigo_go.Base.Result.{Result, ok, err, from_error, panicked, ◌>>=◌}
use rigo_go.Ledger.Simple.{to_ledger_key}

pub record GovParams : Type 0 where
  pub version : Int64
  pub max_validator_cnt : Int64
  pub min_validator_stake : Option UInt256
  pub min_delegator_stake : Option UInt256
  pub reward_per_power : Option UInt256
  pub lazy_reward_blocks : Int64
  pub lazy_applying_blocks : Int64
  pub gas_price : Option UInt256
  pub min_trx_gas : ℕ
  pub max_trx_gas : ℕ
  pub max_block_gas : ℕ
  pub min_voting_period_blocks : Int64
  pub max_voting_period_blocks : Int64
  pub min_self_stake_ratio : Int64
  pub max_updatable_stake_ratio : Int64
  pub max_individual_stake_ratio : Int64
  pub slash_ratio : Int64
  pub signed_blocks_window : Int64
  pub min_signed_blocks : Int64

-- `&GovParams{}`
abbrev pub empty_params : GovParams
empty_params = record {
  version = 0;
  max_validator_cnt = 0;
  min_validator_stake = none;
  min_delegator_stake = none;
  reward_per_power = none;
  lazy_reward_blocks = 0;
  lazy_applying_blocks = 0;
  gas_price = none;
  min_trx_gas = 0;
  max_trx_gas = 0;
  max_block_gas = 0;
  min_voting_period_blocks = 0;
  max_voting_period_blocks = 0;
  min_self_stake_ratio = 0;
  max_updatable_stake_ratio = 0;
  max_individual_stake_ratio = 0;
  slash_ratio = 0;
  signed_blocks_window = 0;
  min_signed_blocks = 0;
}

abbrev pub default_gov_params : GovParams
default_gov_params = record {
  version = 1;
  max_validator_cnt = 21;
  min_validator_stake = some 7000000000000000000000000;
  min_delegator_stake = some 0;
  reward_per_power = some 4756468797;
  lazy_reward_blocks = 2592000;
  lazy_applying_blocks = 259200;
  gas_price = some 250000000000;
  min_trx_gas = 4000;
  max_trx_gas = 25000000;
  max_block_gas = 18446744073709551615;
  min_voting_period_blocks = 259200;
  max_voting_period_blocks = 2592000;
  min_self_stake_ratio = 50;
  max_updatable_stake_ratio = 33;
  max_individual_stake_ratio = 33;
  slash_ratio = 50;
  signed_blocks_window = 10000;
  min_signed_blocks = 500;
}

-- The key that every set of parameters has.
abbrev pub params_key : GovParams → Bytes
params_key r = to_ledger_key (replicate 32 0)

-- the number behind a pointer; nil is dereferenced
abbrev pub deref : Option UInt256 → Result UInt256
deref (some n) = ok n
deref none = err panicked

-- `MinDelegatorStake`: 0 for nil
unfoldable pub min_delegator_stake_of : GovParams → UInt256
min_delegator_stake_of r = elim r.min_delegator_stake [ some n ↦ n | none ↦ 0 ]

-- `RewardPerPower`
unfoldable pub reward_per_power_of : GovParams → Result UInt256
reward_per_power_of r = deref r.reward_per_power

abbrev fee_at : ℕ → UInt256 → Result UInt256
fee_at gas price = ok (mul256 gas price)

unfoldable pub min_trx_fee : GovParams → Result UInt256
unfolding mul256
min_trx_fee r = deref r.gas_price >>= fee_at r.min_trx_gas

unfoldable pub max_trx_fee : GovParams → Result UInt256
unfolding mul256
max_trx_fee r = deref r.gas_price >>= fee_at r.max_trx_gas

-- `uint256.Int.Div` gives 0 for a division by 0, and `Uint64` the low 64 bits.
unfoldable pub fee_to_gas : UInt256 → UInt256 → ℕ
fee_to_gas fee price = if price == 0 then 0 else (fee / price) % 2 ^ 64

unfoldable pub gas_to_fee : ℕ → UInt256 → UInt256
unfolding mul256
gas_to_fee gas price = mul256 gas price

-- one statement of `MergeGovParams`, for a number and for a pointer to one
unfoldable pub merge_int : ℕ → ℕ → ℕ
merge_int old new = if new == 0 then old else new

unfoldable pub merge_ptr : Option UInt256 → Option UInt256 → Option UInt256
merge_ptr old none = old
merge_ptr old (some n) = if n == 0 then old else some n

-- `MergeGovParams`: what it leaves in `newParams`; the old ones are only read.
unfoldable pub merge_gov_params : GovParams → GovParams → GovParams
unfolding merge_int merge_ptr
merge_gov_params old new = record {
  version = merge_int old.version new.version;
  max_validator_cnt = merge_int old.max_validator_cnt new.max_validator_cnt;
  min_validator_stake = merge_ptr old.min_validator_stake new.min_validator_stake;
  min_delegator_stake = merge_ptr old.min_delegator_stake new.min_delegator_stake;
  reward_per_power = merge_ptr old.reward_per_power new.reward_per_power;
  lazy_reward_blocks = merge_int old.lazy_reward_blocks new.lazy_reward_blocks;
  lazy_applying_blocks = merge_int old.lazy_applying_blocks new.lazy_applying_blocks;
  gas_price = merge_ptr old.gas_price new.gas_price;
  min_trx_gas = merge_int old.min_trx_gas new.min_trx_gas;
  max_trx_gas = merge_int old.max_trx_gas new.max_trx_gas;
  max_block_gas = merge_int old.max_block_gas new.max_block_gas;
  min_voting_period_blocks = merge_int old.min_voting_period_blocks new.min_voting_period_blocks;
  max_voting_period_blocks = merge_int old.max_voting_period_blocks new.max_voting_period_blocks;
  min_self_stake_ratio = merge_int old.min_self_stake_ratio new.min_self_stake_ratio;
  max_updatable_stake_ratio = merge_int old.max_updatable_stake_ratio new.max_updatable_stake_ratio;
  max_individual_stake_ratio =
      merge_int old.max_individual_stake_ratio new.max_individual_stake_ratio;
  slash_ratio = merge_int old.slash_ratio new.slash_ratio;
  signed_blocks_window = merge_int old.signed_blocks_window new.signed_blocks_window;
  min_signed_blocks = merge_int old.min_signed_blocks new.min_signed_blocks;
}
