-- ===== src/Tests/Stakers.antt =====
-- The theorems on the controller of staking at small states.
use rigo_go.Base.{
  ℕ, ◌^◌, ◌*◌, ◌≡◌, ◌≤◌, ◌<◌, ◌⊎◌, inl, inr, Bool, true, false, Option, none, some, List, [], ◌∷◌,
  ◌++◌, refl, arith, ap,
}
use rigo_go.Base.Bytes.{Bytes}
use rigo_go.Base.Lists.{replicate, length}
use rigo_go.Base.Words.{Int64}
use rigo_go.Base.Store.{Ref}
use rigo_go.Base.Result.{Result, ok, err, ordinary}
use rigo_go.Ledger.Map.{Map}
use rigo_go.Ledger.Finality.{opened}
use rigo_go.Account.Struct.{Account}
use rigo_go.Account.Ctrler.{AcctCtrler}
use rigo_go.Trx.{TrxContext, TrxType, TrxPayload, staking, unstaking, stake_in, stake_out}
use rigo_go.Gov.Params.{GovParams, default_gov_params}
use rigo_go.Stake.Item.{Stake, amount_per_power, amount_to_power, power_to_amount}
use rigo_go.Stake.Delegatee.{Delegatee}
use rigo_go.Stake.Limiter.{StakeLimiter}
use rigo_go.Stake.Laws.Powers.{IsConsistent}
use rigo_go.Stake.Ctrler.{StakeCodec, StakeCtrler, get_delegatee, validate_trx}
use rigo_go.Stake.Ctrler.Executing.{exe_unstaking}
use rigo_go.Stake.Ctrler.Blocks.{init_stakes, select_delegatees}
use rigo_go.Stake.Ctrler.Rewarding.{VoteInfo, begin_block}
use rigo_go.Stake.Ctrler.Closing.{end_block}
use rigo_go.Stake.Laws.Ctrler.Staking.{validate_trx-staking}
use rigo_go.Stake.Laws.Ctrler.Unstaking.{IsUnstaked, exe_unstaking-IsUnstaked}
use rigo_go.Stake.Laws.Ctrler.Eligible.{AreEligible, begin_block-AreEligible, end_block-AreEligible}
use rigo_go.Stake.Laws.Ctrler.Genesis.{IsLast, init_stakes-IsLast}
use rigo_go.Tests.Fixture.{map_trees, the_codec, the_sign}

abbrev address : Bytes
address = replicate 20 9

abbrev own_stake : Stake
own_stake = record {
  from = address;
  to = address;
  tx_hash = replicate 32 1;
  start_height = 5;
  refund_height = 0;
  power = 70;
}

abbrev other_stake : Stake
other_stake = record own_stake { from = replicate 20 4; tx_hash = replicate 32 2; power = 30 }

abbrev pub delegatee : Delegatee
delegatee = record {
  addr = address;
  pub_key = 99 ∷ [];
  self_power = 70;
  total_power = 100;
  slashed_power = 0;
  stakes = own_stake ∷ other_stake ∷ [];
  not_signed_heights = record { block_heights = [] };
}

-- only one delegatee can be decoded
abbrev pub codec : StakeCodec
codec = record {
  marshal_delegatee = λ d. ok [];
  unmarshal_delegatee = λ bz. ok delegatee;
  marshal_stake = λ s0. ok [];
  unmarshal_stake = λ bz. err (ordinary "no stake");
  marshal_reward = λ r. ok [];
  unmarshal_reward = λ bz. err (ordinary "no reward");
}

abbrev pub limiter : StakeLimiter
limiter = record {
  individual_limit_ratio = 33;
  updatable_limit_ratio = 33;
  max_validator_cnt = 21;
  power_objs = [];
  base_total_power = 0;
  updated_power = 0;
}

abbrev key : Bytes
key = address ++ replicate 12 0

-- the delegatee was read
abbrev state : StakeCtrler (Map Bytes)
state = record {
  all_delegatees = [];
  last_validators = [];
  delegatee_ledger = record (opened []) {
    finality_items = record {
      got_items = (key, record { name = address; id = 0 }) ∷ [];
      updated_items = [];
      removed_keys = [];
    };
    simple = record {
      tree = [];
      cached_items = record {
        got_items = (key, record { name = address; id = 0 }) ∷ [];
        updated_items = [];
        removed_keys = [];
      };
    };
  };
  frozen_ledger = opened [];
  reward_ledger = opened [];
  stake_limiter = limiter;
  last_rwd_hash = [];
  heap = record { cell = λ i. delegatee; next = 1 };
}

abbrev rich : Account
rich = record {
  address = address;
  name = [];
  nonce = 6;
  balance = 100 * amount_per_power;
  code = none;
  doc_url = [];
}

abbrev accounts : AcctCtrler (Map Bytes)
accounts = record { acct_ledger = opened []; heap = record { cell = λ i. rich; next = 1 } }

abbrev context : TrxType → TrxPayload → ℕ → Bool → TrxContext
context type payload amount exec = record {
  height = 15;
  tx_hash = replicate 32 6;
  tx = record {
    nonce = 6;
    from = address;
    to = address;
    amount = amount;
    gas = 4000;
    gas_price = 10;
    type = type;
    payload = some payload;
  };
  exec = exec;
  sender_pub_key = 99 ∷ [];
  sender = record { addr = address; id = 0 };
  receiver = none;
  gas_used = 0;
}

abbrev five : ℕ
five = 5 * amount_per_power

abbrev gov : GovParams
gov = record default_gov_params { min_validator_stake = some amount_per_power }

abbrev staking_five : TrxContext
staking_five = context staking stake_in five true

abbrev taking_back : TrxContext
taking_back = context unstaking (stake_out (some (replicate 32 1))) 0 true

validate_trx-staking_example :
    (p : Int64) × (amount_to_power five ≡ ok p)
    × (0 < p)
    × (p < 2 ^ 63)
    × (power_to_amount p ≡ five)
unfolding validate_trx rigo_go.Ledger.Map.elem rigo_go.Ledger.Map.lookup rigo_go.Base.Bytes.◌=b◌
validate_trx-staking_example =
    validate_trx-staking codec map_trees gov staking_five state refl (omega arith) refl

delegatee-IsConsistent : IsConsistent delegatee
unfolding rigo_go.Stake.Laws.Powers.powers rigo_go.Base.Bytes.◌=b◌
delegatee-IsConsistent = record { total = refl; self = refl; all_to = (refl, (refl, tt)) }

exe_unstaking-IsUnstaked_example :
    IsUnstaked codec map_trees
      (replicate 32 1)
      gov
      taking_back
      (get_delegatee codec map_trees address true state)
      (exe_unstaking codec map_trees gov taking_back state)
unfolding get_delegatee rigo_go.Ledger.Map.elem rigo_go.Ledger.Map.lookup rigo_go.Base.Bytes.◌=b◌
    exe_unstaking
exe_unstaking-IsUnstaked_example =
    exe_unstaking-IsUnstaked codec map_trees (replicate 32 1) gov taking_back state
      (λ r e. (
        delegatee-IsConsistent,
        omega (arith, ap {B = ℕ} (λ (x : Result Ref). elim x [ ok q ↦ q.id | err _ ↦ 0 ]) e),
      ))
      refl refl

abbrev checking : TrxContext
checking = context staking stake_in five false

abbrev signed : VoteInfo
signed = record { address = address; power = 100; signed_last_block = true }

-- the delegatee was committed
abbrev elected : StakeCtrler (Map Bytes)
elected = record state { delegatee_ledger = opened ((key, []) ∷ []) }

elected_one :
    (begin_block codec map_trees gov 9 [] (signed ∷ []) elected).1.all_delegatees ≡ delegatee ∷ []
unfolding begin_block map_trees rigo_go.Base.Sort.sort rigo_go.Stake.Ctrler.Blocks.select_delegatees
    rigo_go.Base.Bytes.◌=b◌ rigo_go.Base.Store.allocate rigo_go.Ledger.Map.elem
    rigo_go.Ledger.Simple.read_item
elected_one = refl

begin_block-AreEligible_example :
    let s' = (begin_block codec map_trees gov 9 [] (signed ∷ []) elected).1 in
    (s'.all_delegatees ≡ (select_delegatees codec map_trees gov elected).1.all_delegatees)
    × AreEligible 1 s'.all_delegatees
unfolding rigo_go.Stake.Ctrler.min_validator_power
begin_block-AreEligible_example =
    begin_block-AreEligible codec map_trees gov 1 9 [] (signed ∷ []) elected refl

abbrev chosen : StakeCtrler (Map Bytes)
chosen = record state { all_delegatees = delegatee ∷ [] }

end_block-AreEligible_example :
    AreEligible 1
      (end_block codec the_codec map_trees the_sign gov 9 chosen accounts).1.last_validators
    × (length (end_block codec the_codec map_trees the_sign gov 9 chosen accounts).1.last_validators
        ≤ 21)
unfolding rigo_go.Base.Words.slt end_block map_trees rigo_go.Base.Sort.sort
end_block-AreEligible_example =
    end_block-AreEligible codec the_codec map_trees the_sign gov 1 9 chosen accounts
      (record { pub_key = 99 ∷ []; power = 100 } ∷ []) (refl, tt) refl

init_stakes-IsLast_example :
    IsLast codec map_trees
      (99 ∷ [])
      own_stake
      (init_stakes codec map_trees (99 ∷ []) (other_stake ∷ own_stake ∷ []) state)
unfolding rigo_go.Ledger.MemItems.is_removed_key rigo_go.Ledger.Map.elem
init_stakes-IsLast_example =
    init_stakes-IsLast codec map_trees (99 ∷ []) (other_stake ∷ []) own_stake state refl
