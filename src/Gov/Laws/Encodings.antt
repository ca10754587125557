-- ===== src/Gov/Laws/Encodings.antt =====
-- The encodings of the parameters (`Encode`, `Decode`, `MarshalJSON` and `UnmarshalJSON` of
-- ctrlers/types/gov_params.go) read back.
use rigo_go.Base.{◌≡◌, ◌<◌, ◌^◌, Option, none, some, [], ◌∷◌, arith, ◌≢◌, refl, inl, inr}
use rigo_go.Base.Words.{UInt256}
use rigo_go.Base.Bytes.{Bytes}
use rigo_go.Base.Result.{ok, Result-cases}
use rigo_go.Gov.Params.{GovParams}
use rigo_go.Gov.Params.Codec.{
  GovParamsProto, ParamsCodec, ParamsCodecLaws, to_proto, from_proto, encode, decode, or_zero,
  uint256_to_string, string_to_uint256, to_json, of_json, marshal_json, unmarshal_json,
}

abbrev pub Fits : Option UInt256 → Type 0
Fits none = Unit
Fits (some n) = n < 2 ^ 256

-- The amounts are 256-bit numbers.
pub record IsRanged (r : GovParams) : Type 0 where
  pub min_validator_stake : Fits r.min_validator_stake
  pub min_delegator_stake : Fits r.min_delegator_stake
  pub reward_per_power : Fits r.reward_per_power
  pub gas_price : Fits r.gas_price

module _ (codec : ParamsCodec) (laws : ParamsCodecLaws codec) where
  read_text :
      (n : UInt256) (t : Bytes)
      → t ≢ []
      → codec.from_decimal t ≡ ok n
      → string_to_uint256 codec t ≡ ok (some n)
  unfolding string_to_uint256
  read_text n [] ne e = absurd (ne refl)
  read_text n (c ∷ cs) ne e = rw (e, string_to_uint256) refl

  string_to_uint256-uint256_to_string :
      (n : Option UInt256) → Fits n → string_to_uint256 codec (uint256_to_string codec n) ≡ ok n
  unfolding string_to_uint256 uint256_to_string
  string_to_uint256-uint256_to_string none f = refl
  string_to_uint256-uint256_to_string (some n) f =
      read_text n (codec.dec n) (laws.dec_nonempty n) (laws.from_decimal-dec n f)

  -- Parameters of 256-bit amounts that were written as JSON are read back as they were, but that a
  -- minimum stake of delegators that was nil is 0.
  pub unmarshal_json-marshal_json :
      (r : GovParams) (bz : Bytes)
      → IsRanged r
      → marshal_json codec r ≡ ok bz
      → unmarshal_json codec bz
        ≡ ok (record r { min_delegator_stake = or_zero codec r.min_delegator_stake })
  unfolding marshal_json unmarshal_json of_json to_json
  unmarshal_json-marshal_json r bz ranged e =
      rw
        (
          laws.unmarshal_json-marshal_json (to_json codec r) bz e,
          string_to_uint256-uint256_to_string r.min_validator_stake ranged.min_validator_stake,
          string_to_uint256-uint256_to_string r.min_delegator_stake ranged.min_delegator_stake,
          string_to_uint256-uint256_to_string r.reward_per_power ranged.reward_per_power,
          string_to_uint256-uint256_to_string r.gas_price ranged.gas_price,
        )
        refl

  -- a number that is there is read back from its bytes
  abbrev IsReadBack : Option UInt256 → Type 0
  IsReadBack none = Unit
  IsReadBack (some v) = codec.set_bytes (codec.to_bytes v) ≡ v

  Fits-IsReadBack : (n : Option UInt256) → Fits n → IsReadBack n
  Fits-IsReadBack none f = tt
  Fits-IsReadBack (some v) f = laws.set_bytes-to_bytes v f

  from_proto-to_proto :
      (r : GovParams) (pm : GovParamsProto)
      → IsRanged r
      → to_proto codec r ≡ ok pm
      → from_proto codec pm ≡ r
  unfolding to_proto from_proto
  from_proto-to_proto r pm ranged e =
      let a = Fits-IsReadBack r.min_validator_stake ranged.min_validator_stake in
      let b = Fits-IsReadBack r.min_delegator_stake ranged.min_delegator_stake in
      let c = Fits-IsReadBack r.reward_per_power ranged.reward_per_power in
      let d = Fits-IsReadBack r.gas_price ranged.gas_price in ground (arith, a, b, c, d, e)

  -- Parameters of 256-bit amounts whose encoding succeeds, which it does for none with an amount
  -- that is nil, are decoded as they were.
  pub decode_params-encode_params :
      (r : GovParams) (bz : Bytes) → IsRanged r → encode codec r ≡ ok bz → decode codec bz ≡ ok r
  unfolding encode decode
  decode_params-encode_params r bz ranged e = elim (Result-cases (to_proto codec r)) [
    | inr (x, failed) ↦ ground (arith, failed, e)
    | inl (pm, made) ↦
        ground (arith, made, e, from_proto-to_proto r pm ranged made, laws.unmarshal-marshal pm bz)
  ]
