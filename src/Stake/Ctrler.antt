-- ===== src/Stake/Ctrler.antt =====
-- `StakeCtrler` of ctrlers/stake/ctrler.go: its state, and the validation of its transactions. Its
-- mutex makes each exported method one step. A delegatee is an object in a store; a stake belongs to
-- one delegatee, or to the frozen ledger once it was taken from it, and a reward is set again
-- whenever it was changed, so these are values. The lists of validators and of all delegatees hold
-- objects that were decoded for them and that nothing else refers to. The parameters of the chain
-- (`IGovHandler`) are an argument, as are the encodings of the items. `Set` and `SetFinality` of a
-- ledger never fail, so what follows an error of them is left out.
pub mod Executing
pub mod Blocks
pub mod Rewarding
pub mod Closing
use rigo_go.Base.{
  ℕ, ◌+◌, ◌/◌, ◌%◌, ◌^◌, Bool, true, false, not, ◌&&◌, ◌==◌, ltb, leb, Option, none, some, List, [],
  ◌∷◌, if◌then◌else◌,
}
use rigo_go.Base.Bytes.{Bytes, ◌=b◌}
use rigo_go.Base.Lists.{length}
use rigo_go.Base.Words.{Int64, UInt256, add64, slt, neg64}
use rigo_go.Base.Result.{
  Result, ok, err, ◌>>=◌, ◌>>◌, XError, from_error, not_found_result, not_found_delegatee,
  not_found_stake, invalid_trx, invalid_trx_payload_type, invalid_trx_payload_params,
  updatable_stake_ratio, unknown_trx_type, ordinary, panicked,
}
use rigo_go.Base.Store.{Ref, Store, allocate}
use rigo_go.Ledger.Tree.{TreeOps}
use rigo_go.Ledger.Simple
use rigo_go.Ledger.Simple.{ItemOps, to_ledger_key}
use rigo_go.Ledger.Finality.{FinalityLedger, get_finality}
use rigo_go.Gov.Params.{GovParams, deref, min_delegator_stake_of}
use rigo_go.Stake.Item.{Stake, amount_per_power, amount_to_power}
use rigo_go.Stake.Delegatee.{Delegatee, find_stake, self_stake_ratio}
use rigo_go.Stake.Reward.{Reward}
use rigo_go.Stake.Limiter.{StakeLimiter, check_limit}
use rigo_go.Trx.{TrxContext, TrxPayload, staking, unstaking, withdraw, stake_out, withdraw_reward}

-- The encodings of the items: `json.Marshal` and `json.Unmarshal` of delegatees and stakes, and
-- `Encode` and `Decode` of rewards, over the generated `RewardProto`.
pub record StakeCodec : Type 0 where
  pub marshal_delegatee : Delegatee → Result Bytes
  pub unmarshal_delegatee : Bytes → Result Delegatee
  pub marshal_stake : Stake → Result Bytes
  pub unmarshal_stake : Bytes → Result Stake
  pub marshal_reward : Reward → Result Bytes
  pub unmarshal_reward : Bytes → Result Reward

pub record StakeCtrler (Tree : Type 0) : Type 0 where
  pub all_delegatees : List Delegatee
  pub last_validators : List Delegatee
  pub delegatee_ledger : FinalityLedger Tree Ref
  pub frozen_ledger : FinalityLedger Tree Stake
  pub reward_ledger : FinalityLedger Tree Reward
  pub stake_limiter : StakeLimiter
  pub last_rwd_hash : Bytes
  pub heap : Store Delegatee

abbrev erred : {A : Type 0} → Result A → Result A
erred (ok a) = ok a
erred (err e) = err (from_error e)

-- `Delegatee.Key`
abbrev pub delegatee_key : Ref → Bytes
delegatee_key r = to_ledger_key r.name

-- A delegatee as an item of a ledger.
abbrev pub delegatee_items : StakeCodec → ItemOps (Store Delegatee) Ref
delegatee_items codec = record {
  key = delegatee_key;
  encode = λ h r. erred (codec.marshal_delegatee (h.cell r.id));
  decode = λ h bz. elim (codec.unmarshal_delegatee bz) [
    | ok d ↦ ok (allocate d.addr d h)
    | err e ↦ err (from_error e)
  ];
}

abbrev value : {A : Type 0} → Result A → Result (A × Unit {0})
value (ok a) = ok (a, tt)
value (err e) = err (from_error e)

-- A stake and a reward as items of a ledger.
abbrev pub stake_items : StakeCodec → ItemOps (Unit {0}) Stake
stake_items codec = record {
  key = λ s. to_ledger_key s.tx_hash;
  encode = λ h s. erred (codec.marshal_stake s);
  decode = λ h bz. value (codec.unmarshal_stake bz);
}

abbrev pub reward_items : StakeCodec → ItemOps (Unit {0}) Reward
reward_items codec = record {
  key = λ r. to_ledger_key r.address;
  encode = λ h r. erred (codec.marshal_reward r);
  decode = λ h bz. value (codec.unmarshal_reward bz);
}

-- The power of a staked amount, which is a positive multiple of `AmountPerPower()`. (The quotient
-- has no sign bit.)
unfoldable pub staking_power : UInt256 → Result Int64
unfolding amount_to_power
staking_power amt =
    if amt / amount_per_power == 0
    then err invalid_trx
    else if not (amt % amount_per_power == 0)
    then err invalid_trx
    else amount_to_power amt

-- `AmountToPower(govParams.MinValidatorStake())`
unfoldable pub min_validator_power : GovParams → Result Int64
unfolding amount_to_power
min_validator_power gov = deref gov.min_validator_stake >>= amount_to_power

-- the checks of a staking to oneself, and the total power before it
unfoldable pub check_self_staking : GovParams → Int64 → Option Delegatee → Result Int64
unfolding min_validator_power add64 slt
check_self_staking gov tx_power found =
    let self_power : Int64 = elim found [
      | none ↦ tx_power
      | some d ↦ add64 tx_power d.self_power
    ] in
    let total_power : Int64 = elim found [ none ↦ 0 | some d ↦ d.total_power ] in
    elim (min_validator_power gov) [
      | err e ↦ err e
      | ok min_power ↦ if slt self_power min_power then err invalid_trx else ok total_power
    ]

-- the checks of a staking to another delegatee, and its total power
unfoldable pub check_delegating : GovParams → Int64 → Option Delegatee → Result Int64
unfolding amount_to_power min_delegator_stake_of self_stake_ratio slt
check_delegating gov tx_power none = err not_found_delegatee
check_delegating gov tx_power (some d) = elim (amount_to_power (min_delegator_stake_of gov)) [
  | err e ↦ err e
  | ok min_power ↦
      if slt 0 min_power && slt tx_power min_power
      then err invalid_trx
      else elim (self_stake_ratio tx_power d) [
        | err e ↦ err e
        | ok ratio ↦
            if slt ratio gov.min_self_stake_ratio
            then err (ordinary "not enough self power")
            else ok d.total_power
      ]
]

-- `len(lastValidators) >= 3`, and the limiter is asked; its error is wrapped
abbrev wrapped : Result (Unit {0}) × StakeLimiter → Result (Unit {0}) × StakeLimiter
wrapped (ok _, sl) = (ok tt, sl)
wrapped (err e, sl) = (elim e [ panicked ↦ err panicked | _ ↦ err updatable_stake_ratio ], sl)

-- `&Delegatee{Addr: to, TotalPower: 0}`
abbrev pub no_delegatee : Bytes → Delegatee
no_delegatee addr = record {
  addr = addr;
  pub_key = [];
  self_power = 0;
  total_power = 0;
  slashed_power = 0;
  stakes = [];
  not_signed_heights = record { block_heights = [] };
}

module _ {Tree : Type 0} (codec : StakeCodec) (trees : TreeOps Tree) where
  -- `getDelegatee` of a handler: `GetFinality` for a block's transactions, and `Get` otherwise
  unfoldable pub get_delegatee : Bytes → Bool → StakeCtrler Tree → Result Ref × StakeCtrler Tree
  unfolding get_finality Simple.get to_ledger_key
  get_delegatee addr true s =
      let (r, l, h) =
        get_finality (delegatee_items codec) trees (to_ledger_key addr) s.delegatee_ledger s.heap in
      (r, record s { delegatee_ledger = l; heap = h })
  get_delegatee addr false s =
      let (r, l, h) =
        Simple.get (delegatee_items codec) trees (to_ledger_key addr) s.delegatee_ledger.simple
          s.heap in
      (r, record s { delegatee_ledger = record s.delegatee_ledger { simple = l }; heap = h })

  -- `getReward` of a handler
  unfoldable pub get_reward : Bytes → Bool → StakeCtrler Tree → Result Reward × StakeCtrler Tree
  unfolding get_finality Simple.get to_ledger_key
  get_reward addr true s =
      let (r, l, _) =
        get_finality (reward_items codec) trees (to_ledger_key addr) s.reward_ledger tt in
      (r, record s { reward_ledger = l })
  get_reward addr false s =
      let (r, l, _) =
        Simple.get (reward_items codec) trees (to_ledger_key addr) s.reward_ledger.simple tt in
      (r, record s { reward_ledger = record s.reward_ledger { simple = l } })

  -- a delegatee that is not found is nil
  abbrev pub or_nil : Result Ref → Result (Option Ref)
  or_nil (ok r) = ok (some r)
  or_nil (err e) = elim e [ not_found_result ↦ ok none | x ↦ err x ]

  -- the limits on the change of a delegatee's power
  unfoldable pub check_limits :
      Delegatee → Int64 → StakeCtrler Tree → Result (Unit {0}) × StakeCtrler Tree
  unfolding check_limit
  check_limits d change s =
      if leb 3 (length s.last_validators)
      then (let (r, sl) = wrapped (check_limit s.stake_limiter d change) in
          (r, record s { stake_limiter = sl }))
      else (ok tt, s)

  -- what follows once the checks of the stake gave the total power
  unfoldable pub staking_after :
      Bytes
      → Int64
      → Option Delegatee
      → Int64
      → StakeCtrler Tree
      → Result (Unit {0}) × StakeCtrler Tree
  unfolding add64 slt check_limits
  staking_after to tx_power found total_power s =
      if not (slt 0 (add64 total_power tx_power))
      then (err panicked, s)
      else check_limits (elim found [ none ↦ no_delegatee to | some d ↦ d ]) tx_power s

  unfoldable pub validate_staking :
      GovParams → TrxContext → StakeCtrler Tree → Result (Unit {0}) × StakeCtrler Tree
  unfolding staking_power get_delegatee check_self_staking check_delegating staking_after
  validate_staking gov ctx s = elim (staking_power ctx.tx.amount) [
    | err e ↦ (err e, s)
    | ok tx_power ↦
        let (r, s₁) = get_delegatee ctx.tx.to ctx.exec s in
        elim (or_nil r) [
          | err e ↦ (err e, s₁)
          | ok found ↦
              let d : Option Delegatee = elim found [
                | none ↦ none
                | some r ↦ some (s₁.heap.cell r.id)
              ] in
              elim (if ctx.tx.from =b ctx.tx.to
                then check_self_staking gov tx_power d
                else check_delegating gov tx_power d) [
                  | err e ↦ (err e, s₁)
                  | ok total ↦ staking_after ctx.tx.to tx_power d total s₁
                ]
        ]
  ]

  -- the checks of an un-staking on the delegatee that was found: the stake that it takes back
  unfoldable pub check_unstaking : Bytes → Option TrxPayload → Delegatee → Result Stake
  unfolding find_stake
  check_unstaking from payload d = elim payload [
    | none ↦ err panicked
    | some p ↦ elim p [
      | stake_out tx_hash ↦ elim tx_hash [
        | none ↦ err invalid_trx_payload_params
        | some hash ↦
            if not (length hash == 32)
            then err invalid_trx_payload_params
            else elim (find_stake hash d) [
              | none ↦ err not_found_stake
              | some (_, s0) ↦ if from =b s0.from then ok s0 else err not_found_stake
            ]
      ]
      | _ ↦ err panicked
    ]
  ]

  unfoldable pub validate_unstaking :
      TrxContext → StakeCtrler Tree → Result (Unit {0}) × StakeCtrler Tree
  unfolding get_delegatee check_unstaking neg64 check_limits
  validate_unstaking ctx s =
      let (r, s₁) = get_delegatee ctx.tx.to ctx.exec s in
      elim r [
        | err e ↦ (err e, s₁)
        | ok r ↦
            let d = s₁.heap.cell r.id in
            elim (check_unstaking ctx.tx.from ctx.tx.payload d) [
              | err e ↦ (err e, s₁)
              | ok s0 ↦ check_limits d (neg64 s0.power) s₁
            ]
      ]

  -- what follows the look for the reward
  unfoldable pub withdrawing_after :
      UInt256 → Result Reward × StakeCtrler Tree → Result (Unit {0}) × StakeCtrler Tree
  withdrawing_after req_amt (err e, s) = (err e, s)
  withdrawing_after req_amt (ok rwd, s) =
      (if ltb rwd.cumulated req_amt then err invalid_trx else ok tt, s)

  unfoldable pub validate_withdraw :
      TrxContext → StakeCtrler Tree → Result (Unit {0}) × StakeCtrler Tree
  unfolding get_reward withdrawing_after
  validate_withdraw ctx s =
      if not (ctx.tx.amount == 0) then (err invalid_trx, s) else elim ctx.tx.payload [
        | none ↦ (err invalid_trx_payload_type, s)
        | some payload ↦ elim payload [
          | withdraw_reward req_amt ↦ withdrawing_after req_amt (get_reward ctx.tx.from ctx.exec s)
          | _ ↦ (err invalid_trx_payload_type, s)
        ]
      ]

  unfoldable pub validate_trx :
      GovParams → TrxContext → StakeCtrler Tree → Result (Unit {0}) × StakeCtrler Tree
  unfolding validate_staking validate_unstaking validate_withdraw
  validate_trx gov ctx s = elim ctx.tx.type [
    | staking ↦ validate_staking gov ctx s
    | unstaking ↦ validate_unstaking ctx s
    | withdraw ↦ validate_withdraw ctx s
    | _ ↦ (err unknown_trx_type, s)
  ]
