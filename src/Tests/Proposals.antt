-- ===== src/Tests/Proposals.antt =====
-- The theorems on proposals at one with two voters and two options.
use rigo_go.Base.{
  ℕ, zero, suc, ◌+◌, ◌-◌, ◌<◌, ◌^◌, ◌≡◌, inl, inr, Option, none, some, List, [], ◌∷◌, refl, ap,
  arith,
}
use rigo_go.Base.Bytes.{Bytes}
use rigo_go.Base.Words.{sub64}
use rigo_go.Base.Sort.{sort}
use rigo_go.Base.Result.{ok}
use rigo_go.Ledger.Map.{lookup}
use rigo_go.Gov.Proposal.{
  Voter, VoteOption, GovProposal, do_vote, do_punish, slashing_power, more_votes,
  update_major_option,
}
use rigo_go.Gov.Laws.Votes.{Votes, tally}
use rigo_go.Gov.Laws.Tally.{IsTallied, do_vote-IsTallied, do_punish-IsTallied}
use rigo_go.Gov.Laws.Fresh.{new_gov_proposal-IsTallied}
use rigo_go.Gov.Proposal.{new_gov_proposal, not_choice}
use rigo_go.Gov.Laws.Major.{IsMajority, update_major_option_lem}

-- the first voter has chosen the first option
abbrev pub first_voter : Voter
first_voter = record { addr = 1 ∷ []; power = 70; choice = 0 }

abbrev pub second_voter : Voter
second_voter = record { addr = 2 ∷ []; power = 30; choice = 2 ^ 32 - 1 }

abbrev pub yes : VoteOption
yes = record { option = 8 ∷ []; votes = 70 }

abbrev pub no : VoteOption
no = record { option = 9 ∷ []; votes = 0 }

abbrev pub proposal : GovProposal
proposal = record {
  tx_hash = 5 ∷ [];
  start_voting_height = 10;
  end_voting_height = 20;
  applying_height = 30;
  total_voting_power = 100;
  majority_power = 66;
  voters = (1 ∷ [], first_voter) ∷ (2 ∷ [], second_voter) ∷ [];
  opt_type = 257;
  options = yes ∷ no ∷ [];
  major_option = none;
}

yes_is : (o : VoteOption) → Path (Option VoteOption) (some yes) (some o) → o ≡ yes
yes_is o e = cc

no_is : (o : VoteOption) → Path (Option VoteOption) (some no) (some o) → o ≡ no
no_is o e = cc

votes : Votes (λ i. tally i proposal.voters) proposal.options
unfolding tally
votes zero o e = ap (λ (x : VoteOption). x.votes) (yes_is o e)
votes (suc zero) o e = ap (λ (x : VoteOption). x.votes) (no_is o e)
votes (suc (suc i)) o e = cc

absent : lookup (1 ∷ []) ((2 ∷ [], second_voter) ∷ []) ≡ none
unfolding lookup rigo_go.Base.Bytes.◌=b◌
absent = refl

absent' : lookup {T = Voter} (2 ∷ []) [] ≡ none
unfolding lookup
absent' = refl

pub proposal-IsTallied : IsTallied proposal
proposal-IsTallied = record { distinct = (absent, (absent', tt)); votes = votes; few = omega arith }

there : lookup (1 ∷ []) proposal.voters ≡ some first_voter
unfolding lookup rigo_go.Base.Bytes.◌=b◌
there = refl

do_vote-IsTallied_example :
    (prop' : GovProposal) × (do_vote (1 ∷ []) 1 proposal ≡ ok prop') × IsTallied prop'
do_vote-IsTallied_example =
    do_vote-IsTallied (1 ∷ []) 1 first_voter proposal proposal-IsTallied there (inr (omega arith))
      (inr (omega arith))

do_punish-IsTallied_example :
    (prop' : GovProposal) × (do_punish (1 ∷ []) 10 proposal ≡ ok (slashing_power 70 10, prop'))
    × IsTallied prop'
    × (prop'.total_voting_power ≡ sub64 100 (slashing_power 70 10))
do_punish-IsTallied_example =
    do_punish-IsTallied (1 ∷ []) 10 first_voter proposal proposal-IsTallied there
      (inr (omega arith))

update_major_option_lem_example :
    (major : Option VoteOption) × (prop' : GovProposal) × (update_major_option proposal
      ≡ ok (major, prop'))
    × (prop'.major_option ≡ major)
    × (prop'.options ≡ sort more_votes proposal.options)
    × IsMajority proposal major
update_major_option_lem_example = update_major_option_lem yes (no ∷ []) proposal refl

abbrev undecided : Voter
undecided = record { addr = 1 ∷ []; power = 70; choice = not_choice }

alone : lookup {T = Voter} (1 ∷ []) [] ≡ none
unfolding lookup
alone = refl

new_gov_proposal-IsTallied_example : IsTallied (
    new_gov_proposal
      (5 ∷ [])
      257
      10
      10
      100
      30
      ((1 ∷ [], undecided) ∷ [])
      ((8 ∷ []) ∷ (9 ∷ []) ∷ []))
new_gov_proposal-IsTallied_example =
    new_gov_proposal-IsTallied (5 ∷ []) 257 10 10 100 30 ((1 ∷ [], undecided) ∷ [])
      ((8 ∷ []) ∷ (9 ∷ []) ∷ []) (alone, tt) (refl, tt) (omega arith)
