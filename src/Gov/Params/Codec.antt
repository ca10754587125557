-- ===== src/Gov/Params/Codec.antt =====
-- The encodings of `GovParams` of ctrlers/types/gov_params.go: the message of the generated
-- `GovParamsProto`, and the struct that is written as JSON, whose texts are byte strings.
use rigo_go.Base.{ℕ, ◌≡◌, ◌≢◌, ◌<◌, ◌^◌, Option, none, some, [], ◌∷◌}
use rigo_go.Base.Bytes.{Bytes}
use rigo_go.Base.Words.{Int64, UInt256}
use rigo_go.Base.Result.{Result, ok, err, from_error, ◌>>=◌}
use rigo_go.Gov.Params.{GovParams, deref}

pub record GovParamsProto : Type 0 where
  pub version : Int64
  pub max_validator_cnt : Int64
  pub x_min_validator_stake : Bytes
  pub x_min_delegator_stake : Bytes
  pub x_reward_per_power : Bytes
  pub lazy_reward_blocks : Int64
  pub lazy_applying_blocks : Int64
  pub x_gas_price : Bytes
  pub min_trx_gas : ℕ
  pub max_trx_gas : ℕ
  pub max_block_gas : ℕ
  pub min_voting_period_blocks : Int64
  pub max_voting_period_blocks : Int64
  pub min_self_stake_ratio : Int64
  pub max_updatable_stake_ratio : Int64
  pub max_individual_stake_ratio : Int64
  pub slash_ratio : Int64
  pub signed_blocks_window : Int64
  pub min_signed_blocks : Int64

-- the struct of `MarshalJSON` and `UnmarshalJSON`
pub record GovParamsJson : Type 0 where
  pub version : Int64
  pub max_validator_cnt : Int64
  pub min_validator_stake : Bytes
  pub min_delegator_stake : Bytes
  pub reward_per_power : Bytes
  pub lazy_reward_blocks : Int64
  pub lazy_applying_blocks : Int64
  pub gas_price : Bytes
  pub min_trx_gas : ℕ
  pub max_trx_gas : ℕ
  pub max_block_gas : ℕ
  pub min_voting_period_blocks : Int64
  pub max_voting_period_blocks : Int64
  pub min_self_stake_ratio : Int64
  pub max_updatable_stake_ratio : Int64
  pub max_individual_stake_ratio : Int64
  pub slash_ratio : Int64
  pub signed_blocks_window : Int64
  pub min_signed_blocks : Int64

pub record ParamsCodec : Type 0 where
  pub marshal : GovParamsProto → Result Bytes
  pub unmarshal : Bytes → Result GovParamsProto
  pub marshal_json : GovParamsJson → Result Bytes
  pub unmarshal_json : Bytes → Result GovParamsJson
  -- `uint256.Int.Bytes` and `SetBytes`, `Dec` and `FromDecimal`
  pub to_bytes : UInt256 → Bytes
  pub set_bytes : Bytes → UInt256
  pub dec : UInt256 → Bytes
  pub from_decimal : Bytes → Result UInt256

-- What the libraries document: what was written is read back, and no number is written as nothing.
pub record ParamsCodecLaws (codec : ParamsCodec) : Type 0 where
  pub unmarshal-marshal :
      (m : GovParamsProto) (bz : Bytes) → codec.marshal m ≡ ok bz → codec.unmarshal bz ≡ ok m
  pub unmarshal_json-marshal_json :
      (m : GovParamsJson) (bz : Bytes)
      → codec.marshal_json m ≡ ok bz
      → codec.unmarshal_json bz ≡ ok m
  pub set_bytes-to_bytes : (n : UInt256) → n < 2 ^ 256 → codec.set_bytes (codec.to_bytes n) ≡ n
  pub from_decimal-dec : (n : UInt256) → n < 2 ^ 256 → codec.from_decimal (codec.dec n) ≡ ok n
  pub dec_nonempty : (n : UInt256) → codec.dec n ≢ []

module _ (codec : ParamsCodec) where
  -- `toProto`; `Bytes` of a nil pointer panics
  unfoldable pub to_proto : GovParams → Result GovParamsProto
  to_proto r = do
    min_validator_stake ← deref r.min_validator_stake
    min_delegator_stake ← deref r.min_delegator_stake
    reward_per_power ← deref r.reward_per_power
    gas_price ← deref r.gas_price
    ok (record {
      version = r.version;
      max_validator_cnt = r.max_validator_cnt;
      x_min_validator_stake = codec.to_bytes min_validator_stake;
      x_min_delegator_stake = codec.to_bytes min_delegator_stake;
      x_reward_per_power = codec.to_bytes reward_per_power;
      lazy_reward_blocks = r.lazy_reward_blocks;
      lazy_applying_blocks = r.lazy_applying_blocks;
      x_gas_price = codec.to_bytes gas_price;
      min_trx_gas = r.min_trx_gas;
      max_trx_gas = r.max_trx_gas;
      max_block_gas = r.max_block_gas;
      min_voting_period_blocks = r.min_voting_period_blocks;
      max_voting_period_blocks = r.max_voting_period_blocks;
      min_self_stake_ratio = r.min_self_stake_ratio;
      max_updatable_stake_ratio = r.max_updatable_stake_ratio;
      max_individual_stake_ratio = r.max_individual_stake_ratio;
      slash_ratio = r.slash_ratio;
      signed_blocks_window = r.signed_blocks_window;
      min_signed_blocks = r.min_signed_blocks;
    })

  -- `fromProto`
  unfoldable pub from_proto : GovParamsProto → GovParams
  from_proto pm = record {
    version = pm.version;
    max_validator_cnt = pm.max_validator_cnt;
    min_validator_stake = some (codec.set_bytes pm.x_min_validator_stake);
    min_delegator_stake = some (codec.set_bytes pm.x_min_delegator_stake);
    reward_per_power = some (codec.set_bytes pm.x_reward_per_power);
    lazy_reward_blocks = pm.lazy_reward_blocks;
    lazy_applying_blocks = pm.lazy_applying_blocks;
    gas_price = some (codec.set_bytes pm.x_gas_price);
    min_trx_gas = pm.min_trx_gas;
    max_trx_gas = pm.max_trx_gas;
    max_block_gas = pm.max_block_gas;
    min_voting_period_blocks = pm.min_voting_period_blocks;
    max_voting_period_blocks = pm.max_voting_period_blocks;
    min_self_stake_ratio = pm.min_self_stake_ratio;
    max_updatable_stake_ratio = pm.max_updatable_stake_ratio;
    max_individual_stake_ratio = pm.max_individual_stake_ratio;
    slash_ratio = pm.slash_ratio;
    signed_blocks_window = pm.signed_blocks_window;
    min_signed_blocks = pm.min_signed_blocks;
  }

  unfoldable pub encode : GovParams → Result Bytes
  unfolding to_proto from_error
  encode r = elim (to_proto r) [
    | err e ↦ err e
    | ok pm ↦ elim (codec.marshal pm) [ ok bz ↦ ok bz | err e ↦ err (from_error e) ]
  ]

  unfoldable pub decode : Bytes → Result GovParams
  unfolding from_proto from_error
  decode bz = elim (codec.unmarshal bz) [ ok pm ↦ ok (from_proto pm) | err e ↦ err (from_error e) ]

  unfoldable pub uint256_to_string : Option UInt256 → Bytes
  uint256_to_string none = []
  uint256_to_string (some n) = codec.dec n

  unfoldable pub string_to_uint256 : Bytes → Result (Option UInt256)
  string_to_uint256 [] = ok none
  string_to_uint256 (c ∷ cs) = elim (codec.from_decimal (c ∷ cs)) [
    | ok n ↦ ok (some n)
    | err e ↦ err e
  ]

  -- the struct that `MarshalJSON` fills
  unfoldable pub to_json : GovParams → GovParamsJson
  unfolding uint256_to_string
  to_json r = record {
    version = r.version;
    max_validator_cnt = r.max_validator_cnt;
    min_validator_stake = uint256_to_string r.min_validator_stake;
    min_delegator_stake = uint256_to_string r.min_delegator_stake;
    reward_per_power = uint256_to_string r.reward_per_power;
    lazy_reward_blocks = r.lazy_reward_blocks;
    lazy_applying_blocks = r.lazy_applying_blocks;
    gas_price = uint256_to_string r.gas_price;
    min_trx_gas = r.min_trx_gas;
    max_trx_gas = r.max_trx_gas;
    max_block_gas = r.max_block_gas;
    min_voting_period_blocks = r.min_voting_period_blocks;
    max_voting_period_blocks = r.max_voting_period_blocks;
    min_self_stake_ratio = r.min_self_stake_ratio;
    max_updatable_stake_ratio = r.max_updatable_stake_ratio;
    max_individual_stake_ratio = r.max_individual_stake_ratio;
    slash_ratio = r.slash_ratio;
    signed_blocks_window = r.signed_blocks_window;
    min_signed_blocks = r.min_signed_blocks;
  }

  unfoldable pub marshal_json : GovParams → Result Bytes
  unfolding to_json
  marshal_json r = codec.marshal_json (to_json r)

  -- a nil minimum of delegators is 0
  abbrev pub or_zero : Option UInt256 → Option UInt256
  or_zero none = some 0
  or_zero (some n) = some n

  -- What `UnmarshalJSON` assigns from the struct. A text that is not a decimal number ends it; what
  -- was assigned before that is left out, since no caller reads it.
  unfoldable pub of_json : GovParamsJson → Result GovParams
  unfolding string_to_uint256
  of_json tm = do
    min_validator_stake ← string_to_uint256 tm.min_validator_stake
    min_delegator_stake ← string_to_uint256 tm.min_delegator_stake
    reward_per_power ← string_to_uint256 tm.reward_per_power
    gas_price ← string_to_uint256 tm.gas_price
    ok (record {
      version = tm.version;
      max_validator_cnt = tm.max_validator_cnt;
      min_validator_stake = min_validator_stake;
      min_delegator_stake = or_zero min_delegator_stake;
      reward_per_power = reward_per_power;
      lazy_reward_blocks = tm.lazy_reward_blocks;
      lazy_applying_blocks = tm.lazy_applying_blocks;
      gas_price = gas_price;
      min_trx_gas = tm.min_trx_gas;
      max_trx_gas = tm.max_trx_gas;
      max_block_gas = tm.max_block_gas;
      min_voting_period_blocks = tm.min_voting_period_blocks;
      max_voting_period_blocks = tm.max_voting_period_blocks;
      min_self_stake_ratio = tm.min_self_stake_ratio;
      max_updatable_stake_ratio = tm.max_updatable_stake_ratio;
      max_individual_stake_ratio = tm.max_individual_stake_ratio;
      slash_ratio = tm.slash_ratio;
      signed_blocks_window = tm.signed_blocks_window;
      min_signed_blocks = tm.min_signed_blocks;
    })

  unfoldable pub unmarshal_json : Bytes → Result GovParams
  unfolding of_json
  unmarshal_json bz = codec.unmarshal_json bz >>= of_json
