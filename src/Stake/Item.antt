-- ===== src/Stake/Item.antt =====
-- `Stake` of ctrlers/stake/stake.go, and the conversions of amounts and powers of
-- ctrlers/types/gov_params.go.
use rigo_go.Base.{◌/◌, ◌%◌, ◌^◌, ◌&&◌, Bool, ◌==◌, if◌then◌else◌}
use rigo_go.Base.Bytes.{Bytes, ◌=b◌}
use rigo_go.Base.Words.{Int64, UInt256, mul256, is_negative}
use rigo_go.Base.Result.{Result, ok, err, panicked}

pub record Stake : Type 0 where
  pub from : Bytes
  pub to : Bytes
  pub tx_hash : Bytes
  pub start_height : Int64
  pub refund_height : Int64
  pub power : Int64

-- `amountPerPower`: 10^18
abbrev pub amount_per_power : UInt256
amount_per_power = 10 ^ 18

-- The quotient's low 64 bits as an int64; a negative one panics.
unfoldable pub amount_to_power : UInt256 → Result Int64
amount_to_power amt =
    let vp = (amt / amount_per_power) % 2 ^ 64 in if is_negative vp then err panicked else ok vp

unfoldable pub power_to_amount : Int64 → UInt256
unfolding mul256
power_to_amount power = mul256 power amount_per_power

unfoldable pub new_stake_with_power : Bytes → Bytes → Int64 → Int64 → Bytes → Stake
new_stake_with_power owner to power start_height tx_hash = record {
  from = owner;
  to = to;
  tx_hash = tx_hash;
  start_height = start_height;
  refund_height = 0;
  power = power;
}

unfoldable pub new_stake_with_amount : Bytes → Bytes → UInt256 → Int64 → Bytes → Result Stake
unfolding amount_to_power new_stake_with_power
new_stake_with_amount owner to amt start_height tx_hash = elim (amount_to_power amt) [
  | ok power ↦ ok (new_stake_with_power owner to power start_height tx_hash)
  | err e ↦ err e
]

-- `Equal` does not compare the refund heights.
unfoldable pub equal : Stake → Stake → Bool
equal s o =
    s.from =b o.from
    && s.to =b o.to
    && s.tx_hash =b o.tx_hash
    && s.start_height == o.start_height
    && s.power == o.power

unfoldable pub is_self_stake : Stake → Bool
is_self_stake s = s.from =b s.to
