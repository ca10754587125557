-- ===== src/Gov/Laws/Fresh.antt =====
-- A proposal that was just made (`NewGovProposal` of ctrlers/gov/proposal/proposal.go).
use rigo_go.Base.{ℕ, zero, suc, ◌^◌, ◌≡◌, ◌<◌, some, List, [], ◌∷◌, arith, refl, ap}
use rigo_go.Base.Bytes.{Bytes}
use rigo_go.Base.Lists.{length, get_elem?}
use rigo_go.Base.Words.{Int64}
use rigo_go.Ledger.Map.{Map, IsMap}
use rigo_go.Gov.Proposal.{Int32, Voter, VoteOption, not_choice, new_vote_options, new_gov_proposal}
use rigo_go.Gov.Laws.Votes.{tally, get_elem?_lt}
use rigo_go.Gov.Laws.Tally.{IsTallied}

-- No voter has chosen yet.
abbrev pub IsUndecided : Map Voter → Type 0
IsUndecided [] = Unit
IsUndecided ((k, v) ∷ vs) = (v.choice ≡ not_choice) × IsUndecided vs

tally-IsUndecided : (i : ℕ) (vs : Map Voter) → i < 2 ^ 31 → IsUndecided vs → tally i vs ≡ 0
unfolding tally
tally-IsUndecided i [] lt u = refl
tally-IsUndecided i ((k, v) ∷ vs) lt u = ground (arith, u.0, tally-IsUndecided i vs lt u.1)

length-new_vote_options : (opts : List Bytes) → length (new_vote_options opts) ≡ length opts
unfolding new_vote_options
length-new_vote_options [] = refl
length-new_vote_options (o ∷ os) = ap suc (length-new_vote_options os)

new_vote_options_votes :
    (opts : List Bytes) (i : ℕ) (o : VoteOption)
    → get_elem? (new_vote_options opts) i ≡ some o
    → o.votes ≡ 0
unfolding new_vote_options
new_vote_options_votes [] i o e = cc
new_vote_options_votes (x ∷ xs) zero o e = cc
new_vote_options_votes (x ∷ xs) (suc i) o e = new_vote_options_votes xs i o e

-- A new proposal, of voters that are distinct and have not chosen and of less than 2^31 options,
-- is tallied: every option has no votes.
pub new_gov_proposal-IsTallied :
    (tx_hash : Bytes) (opt_type : Int32) (start blocks total applying : Int64) (voters : Map Voter)
    (options : List Bytes)
    → IsMap voters
    → IsUndecided voters
    → length options < 2 ^ 31
    → IsTallied (new_gov_proposal tx_hash opt_type start blocks total applying voters options)
unfolding new_gov_proposal
new_gov_proposal-IsTallied tx_hash opt_type start blocks total applying voters options distinct u
      few =
    record {
      distinct = distinct;
      votes = λ i o e.
          let inside = get_elem?_lt (new_vote_options options) i o e in
          let small : i < 2 ^ 31 = omega (arith, inside, few, length-new_vote_options options) in
          let none_yet = tally-IsUndecided i voters small u in
          let no_votes = new_vote_options_votes options i o e in omega (arith, none_yet, no_votes);
      few = omega (arith, few, length-new_vote_options options);
    }
