-- ===== src/Gov/Ctrler.antt =====
-- `GovCtrler` of ctrlers/gov/ctrler.go: its state, and the validation and the execution of its
-- transactions. Its mutex makes each exported method one step. The proposals are objects in a store;
-- their JSON and the decimal texts of the parameters are parameters. The parameters' ledger is only
-- read when the node starts, so its items are values. `Set` and `SetFinality` of a ledger never
-- fail, so what follows an error of them is left out.
pub mod Blocks
pub mod Closing
pub mod Committing
use rigo_go.Base.{
  ℕ, ◌+◌, ◌^◌, ◌%◌, Bool, true, false, not, ◌||◌, ◌&&◌, ◌==◌, ltb, leb, Option, none, some, List,
  [], ◌∷◌, if◌then◌else◌,
}
use rigo_go.Base.Bytes.{Bytes, ◌=b◌}
use rigo_go.Base.Lists.{length, replicate}
use rigo_go.Base.Words.{Int64, add64, slt}
use rigo_go.Base.Result.{
  Result, ok, err, ◌>>=◌, ◌>>◌, XError, from_error, not_found_result, duplicated_key, invalid_trx,
  invalid_trx_payload_type, invalid_trx_payload_params, no_right, not_voting_period,
  unknown_trx_type, panicked,
}
use rigo_go.Base.Store.{Ref, Store, allocate, assign}
use rigo_go.Ledger.Map.{Map, insert}
use rigo_go.Ledger.Tree.{TreeOps}
use rigo_go.Ledger.Simple
use rigo_go.Ledger.Simple.{ItemOps, to_ledger_key}
use rigo_go.Ledger.Finality.{FinalityLedger, get_finality, set_finality}
use rigo_go.Account.Heap.{array32}
use rigo_go.Gov.Params.{GovParams, empty_params, params_key}
use rigo_go.Gov.Params.Codec
use rigo_go.Gov.Params.Codec.{ParamsCodec, unmarshal_json}
use rigo_go.Gov.Proposal.{
  Int32, Voter, GovProposal, not_choice, is_choice, new_gov_proposal, is_voter, do_vote,
}
use rigo_go.Trx.{Trx, TrxContext, TrxPayload, proposal, voting, propose, vote}

-- What the controller uses of the encodings of its items.
pub record GovCodec : Type 0 where
  -- `json.Marshal` and `json.Unmarshal` of a proposal
  pub marshal : GovProposal → Result Bytes
  pub unmarshal : Bytes → Result GovProposal
  pub params : ParamsCodec

-- `IStakeHandler`, as far as it is used: `IsValidator`, and `Validators`, which gives the addresses
-- with their powers and the sum of these.
pub record StakeHandler : Type 0 where
  pub is_validator : Bytes → Bool
  pub validators : List (Bytes × Int64)
  pub total_power : Int64

pub record GovCtrler (Tree : Type 0) : Type 0 where
  pub gov_params : GovParams
  -- nil if no change of the parameters is pending
  pub new_gov_params : Option GovParams
  pub params_ledger : FinalityLedger Tree GovParams
  pub proposal_ledger : FinalityLedger Tree Ref
  pub frozen_ledger : FinalityLedger Tree Ref
  pub heap : Store GovProposal

-- `GovProposal.Key`
abbrev pub proposal_key : Ref → Bytes
proposal_key r = array32 r.name

abbrev decode_proposal : GovCodec → Store GovProposal → Bytes → Result (Ref × Store GovProposal)
decode_proposal codec h bz = elim (codec.unmarshal bz) [
  | ok prop ↦ ok (allocate prop.tx_hash prop h)
  | err e ↦ err (from_error e)
]

abbrev encode_proposal : GovCodec → Store GovProposal → Ref → Result Bytes
encode_proposal codec h r = elim (codec.marshal (h.cell r.id)) [
  | ok bz ↦ ok bz
  | err e ↦ err (from_error e)
]

-- A proposal as an item of a ledger.
abbrev pub proposal_items : GovCodec → ItemOps (Store GovProposal) Ref
proposal_items codec = record {
  key = proposal_key;
  encode = encode_proposal codec;
  decode = decode_proposal codec;
}

-- A set of parameters as an item of a ledger.
abbrev pub params_items : ParamsCodec → ItemOps (Unit {0}) GovParams
params_items codec = record {
  key = params_key;
  encode = λ h r. Codec.encode codec r;
  decode = λ h bz. elim (Codec.decode codec bz) [ ok r ↦ ok (r, tt) | err e ↦ err e ];
}

-- `types.ZeroAddress()`
abbrev pub zero_address : Bytes
zero_address = replicate 20 0

-- `PROPOSAL_GOVPARAMS`
abbrev pub proposal_govparams : Int32
proposal_govparams = 257

-- the order of int32
unfoldable pub slt32 : Int32 → Int32 → Bool
slt32 a b = ltb ((a + 2 ^ 31) % 2 ^ 32) ((b + 2 ^ 31) % 2 ^ 32)

-- the loop over the options of a proposal of parameters
unfoldable pub check_options : ParamsCodec → List Bytes → Result (Unit {0})
unfolding unmarshal_json
check_options codec [] = ok tt
check_options codec (option ∷ options) = elim (unmarshal_json codec option) [
  | err e ↦ err invalid_trx_payload_params
  | ok _ ↦ check_options codec options
]

-- the checks of the heights and the options of a proposal
unfoldable pub check_proposing :
    ParamsCodec → GovParams → Int64 → Int64 → Int64 → Int64 → Int32 → List Bytes → Result (Unit {0})
unfolding slt add64 check_options
check_proposing codec params height start period applying opt_type options =
    let end_height = add64 start period in
    let min_applying = add64 end_height params.lazy_applying_blocks in
    if not (slt height start)
    then err invalid_trx_payload_params
    else if slt params.max_voting_period_blocks period || slt period params.min_voting_period_blocks
    then err invalid_trx_payload_params
    else elim (if opt_type == proposal_govparams then check_options codec options else ok tt) [
      | err e ↦ err e
      | ok _ ↦
          if slt end_height start
          then err invalid_trx_payload_params
          else if slt applying min_applying || slt applying end_height
          then err invalid_trx_payload_params
          else if length options == 0
          then err invalid_trx_payload_params
          else ok tt
    ]

-- the checks of a vote on the proposal that it is for
unfoldable pub check_voting : Int64 → Bytes → Int32 → GovProposal → Result (Unit {0})
unfolding is_voter slt slt32
check_voting height from choice prop =
    if not (is_voter from prop)
    then err no_right
    else if not (is_choice choice) || not (slt32 choice (length prop.options % 2 ^ 32))
    then err invalid_trx_payload_params
    else if slt prop.end_voting_height height || slt height prop.start_voting_height
    then err not_voting_period
    else ok tt

module _ {Tree : Type 0} (codec : GovCodec) (trees : TreeOps Tree) where
  -- `getProposal` of a handler: `GetFinality` for a block's transactions, and `Get` otherwise
  unfoldable pub get_proposal : Bytes → Bool → GovCtrler Tree → Result Ref × GovCtrler Tree
  unfolding get_finality Simple.get
  get_proposal k true s =
      let (r, l, h) = get_finality (proposal_items codec) trees k s.proposal_ledger s.heap in
      (r, record s { proposal_ledger = l; heap = h })
  get_proposal k false s =
      let (r, l, h) = Simple.get (proposal_items codec) trees k s.proposal_ledger.simple s.heap in
      (r, record s { proposal_ledger = record s.proposal_ledger { simple = l }; heap = h })

  -- `setProposal` of a handler
  unfoldable pub set_proposal : Ref → Bool → GovCtrler Tree → GovCtrler Tree
  unfolding set_finality Simple.set
  set_proposal r true s = record s {
    proposal_ledger = set_finality (proposal_items codec) trees r s.proposal_ledger;
  }
  set_proposal r false s = record s {
    proposal_ledger = record s.proposal_ledger {
      simple = Simple.set (proposal_items codec) trees r s.proposal_ledger.simple;
    };
  }

  -- what follows the look for a proposal of the same hash
  unfoldable pub proposing_after :
      TrxContext
      → Int64 × Int64 × Int64 × Int32 × List Bytes
      → Result Ref × GovCtrler Tree
      → Result (Unit {0}) × GovCtrler Tree
  unfolding check_proposing
  proposing_after ctx p (ok _, s) = (err duplicated_key, s)
  proposing_after ctx (start, period, applying, opt_type, options) (err e, s) = elim e [
    | not_found_result ↦ (
      check_proposing codec.params s.gov_params ctx.height start period applying opt_type options,
      s,
    )
    | x ↦ (err x, s)
  ]

  unfoldable pub validate_proposing :
      StakeHandler → TrxContext → GovCtrler Tree → Result (Unit {0}) × GovCtrler Tree
  unfolding get_proposal proposing_after
  validate_proposing stake ctx s =
      if not (ctx.tx.to =b zero_address)
      then (err invalid_trx, s)
      else if not (stake.is_validator ctx.tx.from)
      then (err no_right, s)
      else elim ctx.tx.payload [
        | some payload ↦ elim payload [
          | propose message start period applying opt_type options ↦
              proposing_after ctx (start, period, applying, opt_type, options)
                (get_proposal (array32 ctx.tx_hash) ctx.exec s)
          | _ ↦ (err invalid_trx_payload_type, s)
        ]
        | none ↦ (err invalid_trx_payload_type, s)
      ]

  -- what follows the look for the proposal that is voted on
  unfoldable pub voting_after :
      TrxContext → Int32 → Result Ref × GovCtrler Tree → Result (Unit {0}) × GovCtrler Tree
  unfolding check_voting
  voting_after ctx choice (err e, s) = (err e, s)
  voting_after ctx choice (ok r, s) =
      (check_voting ctx.height ctx.tx.from choice (s.heap.cell r.id), s)

  unfoldable pub validate_voting : TrxContext → GovCtrler Tree → Result (Unit {0}) × GovCtrler Tree
  unfolding get_proposal voting_after
  validate_voting ctx s =
      if not (ctx.tx.to =b zero_address)
      then (err invalid_trx_payload_params, s)
      else elim ctx.tx.payload [
        | some payload ↦ elim payload [
          | vote tx_hash choice ↦
              voting_after ctx choice (get_proposal (array32 tx_hash) ctx.exec s)
          | _ ↦ (err invalid_trx_payload_type, s)
        ]
        | none ↦ (err invalid_trx_payload_type, s)
      ]

  unfoldable pub validate_trx :
      StakeHandler → TrxContext → GovCtrler Tree → Result (Unit {0}) × GovCtrler Tree
  unfolding validate_proposing validate_voting
  validate_trx stake ctx s = elim ctx.tx.type [
    | proposal ↦ validate_proposing stake ctx s
    | voting ↦ validate_voting ctx s
    | _ ↦ (err unknown_trx_type, s)
  ]

  -- the voters of a new proposal: the validators, none of which has chosen
  unfoldable pub voters_of : List (Bytes × Int64) → Map Voter → Map Voter
  unfolding insert
  voters_of [] voters = voters
  voters_of ((addr, power) ∷ vals) voters =
      voters_of vals
        (insert addr (record { addr = addr; power = power; choice = not_choice }) voters)

  -- `execProposing`; a payload of another type is nil and dereferenced
  unfoldable pub exec_proposing :
      StakeHandler → TrxContext → GovCtrler Tree → Result (Unit {0}) × GovCtrler Tree
  unfolding new_gov_proposal voters_of allocate set_proposal
  exec_proposing stake ctx s = elim ctx.tx.payload [
    | some payload ↦ elim payload [
      | propose message start period applying opt_type options ↦
          let prop =
            new_gov_proposal ctx.tx_hash opt_type start period stake.total_power applying
              (voters_of stake.validators []) options in
          let (r, h) = allocate ctx.tx_hash prop s.heap in
          (ok tt, set_proposal r ctx.exec (record s { heap = h }))
      | _ ↦ (err panicked, s)
    ]
    | none ↦ (err panicked, s)
  ]

  -- what follows the look for the proposal, and the vote in it
  unfoldable pub voted :
      Bool → Ref → GovCtrler Tree → Result GovProposal → Result (Unit {0}) × GovCtrler Tree
  unfolding assign set_proposal
  voted exec r s (err e) = (err e, s)
  voted exec r s (ok prop) =
      (ok tt, set_proposal r exec (record s { heap = assign r.id prop s.heap }))

  unfoldable pub exec_voting_after :
      TrxContext → Int32 → Result Ref × GovCtrler Tree → Result (Unit {0}) × GovCtrler Tree
  unfolding do_vote voted
  exec_voting_after ctx choice (err e, s) = (err e, s)
  exec_voting_after ctx choice (ok r, s) =
      voted ctx.exec r s (do_vote ctx.tx.from choice (s.heap.cell r.id))

  -- `execVoting`
  unfoldable pub exec_voting : TrxContext → GovCtrler Tree → Result (Unit {0}) × GovCtrler Tree
  unfolding get_proposal exec_voting_after to_ledger_key
  exec_voting ctx s = elim ctx.tx.payload [
    | some payload ↦ elim payload [
      | vote tx_hash choice ↦
          exec_voting_after ctx choice (get_proposal (to_ledger_key tx_hash) ctx.exec s)
      | _ ↦ (err panicked, s)
    ]
    | none ↦ (err panicked, s)
  ]

  unfoldable pub execute_trx :
      StakeHandler → TrxContext → GovCtrler Tree → Result (Unit {0}) × GovCtrler Tree
  unfolding exec_proposing exec_voting
  execute_trx stake ctx s = elim ctx.tx.type [
    | proposal ↦ exec_proposing stake ctx s
    | voting ↦ exec_voting ctx s
    | _ ↦ (err unknown_trx_type, s)
  ]
