-- ===== src/Tests/ParamsFixture.antt =====
-- A codec of the parameters that keeps a struct as the list of its numbers and texts, each text
-- with its length before it.
use rigo_go.Base.{ℕ, ◌≡◌, ◌≢◌, [], ◌∷◌, ◌++◌, refl, sym, ap, ◌∙◌}
use rigo_go.Base.Bytes.{Bytes}
use rigo_go.Base.Lists.{length, take, drop}
use rigo_go.Base.Words.{UInt256}
use rigo_go.Base.Result.{Result, ok, err, ordinary}
use rigo_go.Gov.Params.Codec.{GovParamsProto, GovParamsJson, ParamsCodec, ParamsCodecLaws}

put : Bytes → Bytes → Bytes
put xs ys = length xs ∷ xs ++ ys

get : Bytes → Bytes × Bytes
get [] = ([], [])
get (n ∷ r) = (take n r, drop n r)

take-append : (xs ys : Bytes) → take (length xs) (xs ++ ys) ≡ xs
take-append [] ys = refl
take-append (x ∷ xs) ys = rw (take-append xs ys) refl

drop-append : (xs ys : Bytes) → drop (length xs) (xs ++ ys) ≡ ys
drop-append [] ys = refl
drop-append (x ∷ xs) ys = drop-append xs ys

-- four texts
put_all : Bytes → Bytes → Bytes → Bytes → Bytes
unfolding put
put_all a b c d = put a (put b (put c (put d [])))

record Texts : Type 0 where
  first : Bytes
  second : Bytes
  third : Bytes
  fourth : Bytes

get_all : Bytes → Texts
unfolding get
get_all bz =
    let (a, r) = get bz in
    let (b, r') = get r in
    let (c, r'') = get r' in
    let (d, _) = get r'' in record { first = a; second = b; third = c; fourth = d }

get_all-put_all :
    (a b c d : Bytes)
    → get_all (put_all a b c d) ≡ record { first = a; second = b; third = c; fourth = d }
unfolding get_all put_all get put
get_all-put_all a b c d =
    let r3 : Bytes = put d [] in
    let r2 : Bytes = put c r3 in
    let r1 : Bytes = put b r2 in
    rw
      (
        take-append a r1,
        drop-append a r1,
        take-append b r2,
        drop-append b r2,
        take-append c r3,
        drop-append c r3,
        take-append d [],
      )
      refl

write_proto : GovParamsProto → Bytes
write_proto m =
    m.version
    ∷ m.max_validator_cnt
    ∷ m.lazy_reward_blocks
    ∷ m.lazy_applying_blocks
    ∷ m.min_trx_gas
    ∷ m.max_trx_gas
    ∷ m.max_block_gas
    ∷ m.min_voting_period_blocks
    ∷ m.max_voting_period_blocks
    ∷ m.min_self_stake_ratio
    ∷ m.max_updatable_stake_ratio
    ∷ m.max_individual_stake_ratio
    ∷ m.slash_ratio
    ∷ m.signed_blocks_window
    ∷ m.min_signed_blocks
    ∷ put_all m.x_min_validator_stake m.x_min_delegator_stake m.x_reward_per_power m.x_gas_price

read_proto : Bytes → Result GovParamsProto
read_proto (a0 ∷ a1 ∷ a2 ∷ a3 ∷ a4 ∷ a5 ∷ a6 ∷ a7 ∷ a8 ∷ a9 ∷ a10 ∷ a11 ∷ a12 ∷ a13 ∷ a14 ∷ bz) =
    let t = get_all bz in
    ok (record {
      version = a0;
      max_validator_cnt = a1;
      x_min_validator_stake = t.first;
      x_min_delegator_stake = t.second;
      x_reward_per_power = t.third;
      lazy_reward_blocks = a2;
      lazy_applying_blocks = a3;
      x_gas_price = t.fourth;
      min_trx_gas = a4;
      max_trx_gas = a5;
      max_block_gas = a6;
      min_voting_period_blocks = a7;
      max_voting_period_blocks = a8;
      min_self_stake_ratio = a9;
      max_updatable_stake_ratio = a10;
      max_individual_stake_ratio = a11;
      slash_ratio = a12;
      signed_blocks_window = a13;
      min_signed_blocks = a14;
    })
read_proto _ = err (ordinary "not a struct")

read-write_proto : (m : GovParamsProto) → read_proto (write_proto m) ≡ ok m
unfolding read_proto write_proto
read-write_proto m =
    rw
      (get_all-put_all m.x_min_validator_stake m.x_min_delegator_stake m.x_reward_per_power
        m.x_gas_price)
      refl

write_json : GovParamsJson → Bytes
write_json m =
    m.version
    ∷ m.max_validator_cnt
    ∷ m.lazy_reward_blocks
    ∷ m.lazy_applying_blocks
    ∷ m.min_trx_gas
    ∷ m.max_trx_gas
    ∷ m.max_block_gas
    ∷ m.min_voting_period_blocks
    ∷ m.max_voting_period_blocks
    ∷ m.min_self_stake_ratio
    ∷ m.max_updatable_stake_ratio
    ∷ m.max_individual_stake_ratio
    ∷ m.slash_ratio
    ∷ m.signed_blocks_window
    ∷ m.min_signed_blocks
    ∷ put_all m.min_validator_stake m.min_delegator_stake m.reward_per_power m.gas_price

read_json : Bytes → Result GovParamsJson
read_json (a0 ∷ a1 ∷ a2 ∷ a3 ∷ a4 ∷ a5 ∷ a6 ∷ a7 ∷ a8 ∷ a9 ∷ a10 ∷ a11 ∷ a12 ∷ a13 ∷ a14 ∷ bz) =
    let t = get_all bz in
    ok (record {
      version = a0;
      max_validator_cnt = a1;
      min_validator_stake = t.first;
      min_delegator_stake = t.second;
      reward_per_power = t.third;
      lazy_reward_blocks = a2;
      lazy_applying_blocks = a3;
      gas_price = t.fourth;
      min_trx_gas = a4;
      max_trx_gas = a5;
      max_block_gas = a6;
      min_voting_period_blocks = a7;
      max_voting_period_blocks = a8;
      min_self_stake_ratio = a9;
      max_updatable_stake_ratio = a10;
      max_individual_stake_ratio = a11;
      slash_ratio = a12;
      signed_blocks_window = a13;
      min_signed_blocks = a14;
    })
read_json _ = err (ordinary "not a struct")

read-write_json : (m : GovParamsJson) → read_json (write_json m) ≡ ok m
unfolding read_json write_json
read-write_json m =
    rw (get_all-put_all m.min_validator_stake m.min_delegator_stake m.reward_per_power m.gas_price)
      refl

cons_is_not_nil : {x : ℕ} {xs : Bytes} → (x ∷ xs) ≢ []
cons_is_not_nil e = cc

first_of : Bytes → UInt256
first_of [] = 0
first_of (x ∷ xs) = x

unfoldable pub the_params : ParamsCodec
unfolding first_of put_all get_all put get write_proto read_proto write_json read_json
the_params = record {
  marshal = λ m. ok (write_proto m);
  unmarshal = read_proto;
  marshal_json = λ m. ok (write_json m);
  unmarshal_json = read_json;
  to_bytes = λ n. n ∷ [];
  set_bytes = first_of;
  dec = λ n. n ∷ [];
  from_decimal = λ t. ok (first_of t);
}

read_back_proto :
    (m : GovParamsProto) (bz : Bytes)
    → Path (Result Bytes) (ok (write_proto m)) (ok bz)
    → read_proto bz ≡ ok m
read_back_proto m bz e =
    let written : write_proto m ≡ bz = cc in ap read_proto (sym written) ∙ read-write_proto m

read_back_json :
    (m : GovParamsJson) (bz : Bytes)
    → Path (Result Bytes) (ok (write_json m)) (ok bz)
    → read_json bz ≡ ok m
read_back_json m bz e =
    let written : write_json m ≡ bz = cc in ap read_json (sym written) ∙ read-write_json m

pub the_params-ParamsCodecLaws : ParamsCodecLaws the_params
unfolding the_params first_of
the_params-ParamsCodecLaws = record {
  unmarshal-marshal = λ m bz e. read_back_proto m bz e;
  unmarshal_json-marshal_json = λ m bz e. read_back_json m bz e;
  set_bytes-to_bytes = λ n lt. refl;
  from_decimal-dec = λ n lt. refl;
  dec_nonempty = λ n e. cons_is_not_nil e;
}
