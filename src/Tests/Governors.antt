-- ===== src/Tests/Governors.antt =====
-- The theorems on the controller of governance at small states.
use rigo_go.Base.{
  ℕ, ◌^◌, ◌-◌, ◌≡◌, ◌<◌, ◌⊎◌, inl, inr, Bool, true, false, Option, none, some, List, [], ◌∷◌, refl,
  arith,
}
use rigo_go.Base.Bytes.{Bytes, =b_iff}
use rigo_go.Base.Lists.{replicate, length}
use rigo_go.Base.Result.{ok, err, ordinary}
use rigo_go.Base.Store.{Ref}
use rigo_go.Account.Heap.{array32}
use rigo_go.Ledger.Map.{Map, lookup}
use rigo_go.Ledger.Finality.{FinalityLedger, opened}
use rigo_go.Trx.{Trx, TrxContext, TrxType, TrxPayload, proposal, voting, propose, vote}
use rigo_go.Gov.Params.{GovParams, default_gov_params, merge_gov_params, empty_params}
use rigo_go.Gov.Params.Codec.{marshal_json, unmarshal_json}
use rigo_go.Gov.Proposal.{Voter, GovProposal}
use rigo_go.Gov.Ctrler.{
  GovCodec, proposal_govparams, StakeHandler, GovCtrler, zero_address, get_proposal, validate_trx,
  execute_trx,
}
use rigo_go.Gov.Ctrler.Closing.{Closed, end_block}
use rigo_go.Gov.Laws.Votes.{IsChoiceOf}
use rigo_go.Gov.Laws.Encodings.{IsRanged, unmarshal_json-marshal_json}
use rigo_go.Gov.Laws.Proposing.{IsSane, IsScheduled, validate_trx-IsScheduled}
use rigo_go.Gov.Laws.Voting.{IsSound, IsCast, voted_on, execute_trx-validate_trx}
use rigo_go.Gov.Laws.Opening.{execute_trx-proposing}
use rigo_go.Gov.Laws.Pending.{pending_after, end_block-pending}
use rigo_go.Tests.Fixture.{map_trees}
use rigo_go.Tests.ParamsFixture.{the_params, the_params-ParamsCodecLaws}
use rigo_go.Tests.Proposals
use rigo_go.Tests.Proposals.{first_voter, second_voter, proposal-IsTallied}

-- a change of one parameter
abbrev cheaper : GovParams
cheaper = record empty_params { gas_price = some 7 }

cheaper-IsRanged : IsRanged cheaper
cheaper-IsRanged = record {
  min_validator_stake = tt;
  min_delegator_stake = tt;
  reward_per_power = tt;
  gas_price = omega arith;
}

abbrev cheaper_json : Bytes
cheaper_json = 0 ∷ 0 ∷ 0 ∷ 0 ∷ 0 ∷ 0 ∷ 0 ∷ 0 ∷ 0 ∷ 0 ∷ 0 ∷ 0 ∷ 0 ∷ 0 ∷ 0 ∷ 0 ∷ 0 ∷ 0 ∷ 1 ∷ 7 ∷ []

unmarshal_json-marshal_json_example :
    unmarshal_json the_params cheaper_json ≡ ok (record cheaper { min_delegator_stake = some 0 })
unfolding marshal_json the_params
unmarshal_json-marshal_json_example =
    unmarshal_json-marshal_json the_params the_params-ParamsCodecLaws cheaper cheaper_json
      cheaper-IsRanged refl

abbrev pub codec : GovCodec
codec = record {
  marshal = λ p. ok [];
  unmarshal = λ bz. err (ordinary "no proposal");
  params = the_params;
}

abbrev vote_key : Bytes
vote_key = replicate 32 5

abbrev proposal_ref : Ref
proposal_ref = record { name = vote_key; id = 0 }

-- a ledger that has read the proposal of Tests/Proposals
abbrev holding : FinalityLedger (Map Bytes) Ref
holding = record (opened []) {
  finality_items = record {
    got_items = (vote_key, proposal_ref) ∷ [];
    updated_items = [];
    removed_keys = [];
  };
}

abbrev state : GovCtrler (Map Bytes)
state = record {
  gov_params = default_gov_params;
  new_gov_params = none;
  params_ledger = opened [];
  proposal_ledger = holding;
  frozen_ledger = opened [];
  heap = record { cell = λ i. Proposals.proposal; next = 1 };
}

abbrev stakers : StakeHandler
stakers = record {
  is_validator = λ addr. true;
  validators = (1 ∷ [], 70) ∷ (2 ∷ [], 30) ∷ [];
  total_power = 100;
}

abbrev gov_tx : TrxType → TrxPayload → Trx
gov_tx type payload = record {
  nonce = 0;
  from = 1 ∷ [];
  to = zero_address;
  amount = 0;
  gas = 4000;
  gas_price = 10;
  type = type;
  payload = some payload;
}

abbrev context : TrxType → TrxPayload → TrxContext
context type payload = record {
  height = 15;
  tx_hash = replicate 32 6;
  tx = gov_tx type payload;
  exec = true;
  sender_pub_key = [];
  sender = record { addr = 1 ∷ []; id = 0 };
  receiver = none;
  gas_used = 0;
}

abbrev proposing : TrxContext
proposing = context proposal (propose [] 20 259200 600000 512 ((8 ∷ []) ∷ []))

abbrev voting_no : TrxContext
voting_no = context voting (vote vote_key 1)

default-IsSane : IsSane default_gov_params
default-IsSane = record { min_period = omega arith; max_period = omega arith; lazy = omega arith }

validate_trx-IsScheduled_example :
    (true ≡ true) × IsScheduled default_gov_params 15 20 259200 600000
unfolding validate_trx rigo_go.Base.Bytes.◌=b◌ rigo_go.Ledger.Map.elem array32
    rigo_go.Ledger.Simple.read_item map_trees
validate_trx-IsScheduled_example =
    validate_trx-IsScheduled codec map_trees stakers proposing state [] 20 259200 600000 512
      ((8 ∷ []) ∷ []) default-IsSane (omega arith) (omega arith) (omega arith) (omega arith) refl
      refl refl

chosen :
    (addr : Bytes) (v : Voter)
    → lookup addr Proposals.proposal.voters ≡ some v
    → IsChoiceOf (length Proposals.proposal.options) v.choice
unfolding lookup
chosen addr v e = ground (arith, e)

proposal-IsSound : IsSound Proposals.proposal
proposal-IsSound = record { tallied = proposal-IsTallied; chosen = chosen }

execute_trx-validate_trx_example :
    (r : Ref) × ((voted_on codec map_trees voting_no vote_key state).0 ≡ ok r)
    × IsCast codec map_trees r (
        execute_trx codec map_trees stakers voting_no
          (validate_trx codec map_trees stakers voting_no state).1)
unfolding get_proposal rigo_go.Ledger.Map.elem lookup rigo_go.Base.Bytes.◌=b◌ array32 validate_trx
execute_trx-validate_trx_example =
    execute_trx-validate_trx codec map_trees stakers voting_no state vote_key 1 refl refl
      (omega arith) (λ r e. proposal-IsSound) refl

execute_trx-proposing_example :
    ((execute_trx codec map_trees stakers proposing state).0 ≡ ok tt)
    × IsSound ((execute_trx codec map_trees stakers proposing state).1.heap.cell 1)
execute_trx-proposing_example =
    execute_trx-proposing codec map_trees stakers proposing state [] 20 259200 600000 512
      ((8 ∷ []) ∷ []) refl refl (omega arith)

-- a frozen proposal to make gas cheaper, decided and due
abbrev decided : GovProposal
decided = record Proposals.proposal {
  tx_hash = vote_key;
  opt_type = proposal_govparams;
  applying_height = 8;
  major_option = some (record { option = cheaper_json; votes = 70 });
}

abbrev deciding : GovCodec
deciding = record codec { unmarshal = λ bz. ok decided }

abbrev due : GovCtrler (Map Bytes)
due = record state { frozen_ledger = opened ((vote_key, []) ∷ []) }

abbrev closing : Closed
closing = record { frozen = []; removed = []; applied = vote_key ∷ [] }

end_block-pending_example :
    ((end_block deciding map_trees 9 due).1.gov_params ≡ default_gov_params)
    × ((end_block deciding map_trees 9 due).1.new_gov_params
        ≡ pending_after deciding 9 default_gov_params ((vote_key, []) ∷ []) none)
unfolding end_block map_trees rigo_go.Base.Bytes.◌=b◌ array32 rigo_go.Base.Store.allocate
    rigo_go.Ledger.Simple.get_item rigo_go.Ledger.Map.elem rigo_go.Ledger.Simple.read_item
    the_params
end_block-pending_example = end_block-pending deciding map_trees 9 due closing refl

-- the gas price that is pending then
cheaper_gas :
    elim (pending_after deciding 9 default_gov_params ((vote_key, []) ∷ []) none) [
      | some p ↦ p.gas_price
      | none ↦ none
    ]
    ≡ some 7
unfolding rigo_go.Base.Words.slt unmarshal_json the_params rigo_go.Gov.Ctrler.Blocks.hotfix
    rigo_go.Base.Bytes.◌=b◌ merge_gov_params
cheaper_gas = refl
