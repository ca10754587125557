-- ===== src/Gov/Proposal.antt =====
-- ctrlers/gov/proposal/header.go, option.go and proposal.go: a proposal, its voters and its options.
-- A choice is an int32 as a bit pattern; a voter's key is its address. An index out of range and a
-- division by zero panic.
use rigo_go.Base.{
  ℕ, ◌-◌, ◌*◌, ◌/◌, ◌%◌, ◌^◌, Bool, true, false, not, Option, none, some, List, [], ◌∷◌, leb,
  if◌then◌else◌,
}
use rigo_go.Base.Bytes.{Bytes}
use rigo_go.Base.Lists.{get_elem?, set}
use rigo_go.Base.Words.{Int64, add64, sub64, mul64, sdiv, slt}
use rigo_go.Base.Sort.{sort}
use rigo_go.Base.Result.{Result, ok, err, ordinary, panicked, not_found_voter}
use rigo_go.Ledger.Map.{Map, lookup, insert, erase}

abbrev pub Int32 : Type 0
Int32 = ℕ

-- `NOT_CHOICE`: -1
abbrev pub not_choice : Int32
not_choice = 2 ^ 32 - 1

abbrev pub is_choice : Int32 → Bool
is_choice choice = not (leb (2 ^ 31) choice)

pub record Voter : Type 0 where
  pub addr : Bytes
  pub power : Int64
  pub choice : Int32

pub record VoteOption : Type 0 where
  pub option : Bytes
  pub votes : Int64

unfoldable pub new_vote_options : List Bytes → List VoteOption
new_vote_options [] = []
new_vote_options (opt ∷ opts) = record { option = opt; votes = 0 } ∷ new_vote_options opts

-- `DoVote` and `CancelVote` of an option
unfoldable pub add_votes : Int64 → VoteOption → VoteOption
unfolding add64
add_votes power opt = record opt { votes = add64 opt.votes power }

unfoldable pub cancel_votes : Int64 → VoteOption → VoteOption
unfolding sub64
cancel_votes power opt = record opt { votes = sub64 opt.votes power }

pub record GovProposal : Type 0 where
  pub tx_hash : Bytes
  pub start_voting_height : Int64
  pub end_voting_height : Int64
  pub applying_height : Int64
  pub total_voting_power : Int64
  pub majority_power : Int64
  pub voters : Map Voter
  pub opt_type : Int32
  pub options : List VoteOption
  pub major_option : Option VoteOption

-- `(totalVotingPower * 2) / 3`
unfoldable pub majority_of : Int64 → Int64
unfolding mul64 sdiv
majority_of total = sdiv (mul64 total 2) 3

unfoldable pub new_gov_proposal :
    Bytes → Int32 → Int64 → Int64 → Int64 → Int64 → Map Voter → List Bytes → GovProposal
unfolding add64 majority_of new_vote_options
new_gov_proposal tx_hash opt_type start_height voting_blocks total applying_height voters options =
    record {
      tx_hash = tx_hash;
      start_voting_height = start_height;
      end_voting_height = add64 start_height voting_blocks;
      applying_height = applying_height;
      total_voting_power = total;
      majority_power = majority_of total;
      voters = voters;
      opt_type = opt_type;
      options = new_vote_options options;
      major_option = none;
    }

unfoldable pub sum_voting_powers : Map Voter → Int64 → Int64
unfolding add64
sum_voting_powers [] sum = sum
sum_voting_powers ((k, v) ∷ vs) sum = sum_voting_powers vs (add64 sum v.power)

unfoldable pub get_voter : Bytes → GovProposal → Option Voter
unfolding lookup
get_voter addr prop = lookup addr prop.voters

unfoldable pub is_voter : Bytes → GovProposal → Bool
unfolding lookup
is_voter addr prop = elim (lookup addr prop.voters) [ none ↦ false | some _ ↦ true ]

-- `prop.Options[choice]`
abbrev option_at : Int32 → List VoteOption → Result VoteOption
option_at choice opts = elim (get_elem? opts choice) [ some o ↦ ok o | none ↦ err panicked ]

-- `cancelVote` and `doVote`, on the voter and the options
unfoldable pub cancel_vote : Voter → List VoteOption → Result (Voter × List VoteOption)
unfolding cancel_votes
cancel_vote voter opts =
    if is_choice voter.choice
    then elim (option_at voter.choice opts) [
      | err e ↦ err e
      | ok opt ↦ ok (
        record voter { choice = not_choice },
        set opts voter.choice (cancel_votes voter.power opt),
      )
    ]
    else ok (voter, opts)

unfoldable pub cast_vote : Voter → Int32 → List VoteOption → Result (Voter × List VoteOption)
unfolding add_votes
cast_vote voter choice opts =
    if is_choice choice
    then elim (option_at choice opts) [
      | err e ↦ err e
      | ok opt ↦ ok (record voter { choice = choice }, set opts choice (add_votes voter.power opt))
    ]
    else ok (voter, opts)

-- `cancelVote` and then `doVote`
unfoldable pub vote_again : Voter → Int32 → List VoteOption → Result (Voter × List VoteOption)
unfolding cancel_vote cast_vote
vote_again voter choice opts = elim (cancel_vote voter opts) [
  | err e ↦ err e
  | ok (voter', opts') ↦ cast_vote voter' choice opts'
]

abbrev pub put_voter : Bytes → GovProposal → Voter × List VoteOption → GovProposal
put_voter addr prop (voter, opts) = record prop {
  voters = insert addr voter prop.voters;
  options = opts;
}

unfoldable pub do_vote : Bytes → Int32 → GovProposal → Result GovProposal
unfolding lookup insert vote_again
do_vote addr choice prop = elim (lookup addr prop.voters) [
  | none ↦ err (ordinary "not found voter")
  | some voter ↦ elim (vote_again voter choice prop.options) [
    | err e ↦ err e
    | ok r ↦ ok (put_voter addr prop r)
  ]
]

-- `_p0 * ratio / 100` of `DoPunish`, on 256-bit numbers, and its low 64 bits
unfoldable pub slashing_power : Int64 → Int64 → Int64
slashing_power power ratio = (power * ratio % 2 ^ 256 / 100) % 2 ^ 64

-- The voter once punished: left out if it has no power, and voting again with its choice otherwise.
unfoldable pub punished :
    Bytes → Int32 → Voter → List VoteOption → Map Voter → Result (Map Voter × List VoteOption)
unfolding insert erase cast_vote slt
punished addr choice voter opts voters =
    if not (slt 0 voter.power)
    then ok (erase addr voters, opts)
    else elim (cast_vote voter choice opts) [
      | err e ↦ err e
      | ok (voter', opts') ↦ ok (insert addr voter' voters, opts')
    ]

abbrev pub after_slash : GovProposal → Int64 → Map Voter × List VoteOption → GovProposal
after_slash prop slashing (voters, opts) =
    let total = sub64 prop.total_voting_power slashing in
    record prop {
      voters = voters;
      options = opts;
      total_voting_power = total;
      majority_power = majority_of total;
    }

-- `DoPunish`; `cancelVote` and `doVote` do nothing of themselves for a negative choice.
unfoldable pub do_punish : Bytes → Int64 → GovProposal → Result (Int64 × GovProposal)
unfolding lookup cancel_vote slashing_power punished sub64 majority_of
do_punish addr ratio prop = elim (lookup addr prop.voters) [
  | none ↦ err not_found_voter
  | some voter ↦ elim (cancel_vote voter prop.options) [
    | err e ↦ err e
    | ok (voter', opts) ↦
        let slashing = slashing_power voter.power ratio in
        let slashed = record voter' { power = sub64 voter.power slashing } in
        elim (punished addr voter.choice slashed opts prop.voters) [
          | err e ↦ err e
          | ok r ↦ ok (slashing, after_slash prop slashing r)
        ]
  ]
]

-- `powerOrderVoteOptions.Less`
unfoldable pub more_votes : VoteOption → VoteOption → Bool
unfolding slt
more_votes a b = slt b.votes a.votes

-- The options are sorted by Go's `sort.Sort`, which is an insertion sort up to 12 of them; the
-- order of options with as many votes is unspecified beyond.
unfoldable pub update_major_option : GovProposal → Result (Option VoteOption × GovProposal)
unfolding sort more_votes slt
update_major_option prop =
    let opts = sort more_votes prop.options in
    elim opts [
      | [] ↦ err panicked
      | o ∷ os ↦
          let major = if not (slt o.votes prop.majority_power) then some o else prop.major_option in
          ok (major, record prop { options = o ∷ os; major_option = major })
    ]
