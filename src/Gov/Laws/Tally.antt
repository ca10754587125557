-- ===== src/Gov/Laws/Tally.antt =====
-- The votes of each option are the powers of the voters that chose it.
use rigo_go.Base.{
  ℕ, ◌+◌, ◌%◌, ◌^◌, ◌≡◌, ◌<◌, inl, inr, some, List, arith, refl, ap, ◌∙◌, Bool-cases, sym,
}
use rigo_go.Base.Bytes.{Bytes}
use rigo_go.Base.Lists.{length}
use rigo_go.Base.Words.{Int64, sub64, slt}
use rigo_go.Base.Result.{ok}
use rigo_go.Ledger.Map.{lookup, insert, erase, IsMap, insert-IsMap, erase-IsMap}
use rigo_go.Gov.Proposal.{
  Int32, Voter, VoteOption, GovProposal, do_vote, do_punish, punished, put_voter, after_slash,
  slashing_power,
}
use rigo_go.Gov.Laws.Votes.{
  vote_for, tally, Votes, IsChoiceOf, cancel_total, Cast-total, vote_again_lem, tally-insert,
  tally-erase,
}

pub record IsTallied (prop : GovProposal) : Type 0 where
  pub distinct : IsMap prop.voters
  pub votes : Votes (λ i. tally i prop.voters) prop.options
  pub few : length prop.options < 2 ^ 31

-- the votes of the others, for a voter that there is
others :
    (addr : Bytes) (v : Voter) (prop : GovProposal)
    → IsTallied prop
    → lookup addr prop.voters ≡ some v
    → Votes (λ i. tally i (erase addr prop.voters) + vote_for i v) prop.options
others addr v prop t found = λ i o e.
    t.votes i o e
    ∙ ap (λ (n : ℕ). n % 2 ^ 64) (sym (tally-erase i addr v prop.voters t.distinct found))

with_voter :
    (addr : Bytes) (v w : Voter) (prop : GovProposal) (opts : List VoteOption)
    → IsTallied prop
    → lookup addr prop.voters ≡ some v
    → Votes (λ i. tally i (erase addr prop.voters) + vote_for i w) opts
    → Votes (λ i. tally i (insert addr w prop.voters)) opts
with_voter addr v w prop opts t found votes i o e =
    let erased = tally-erase i addr v prop.voters t.distinct found in
    let inserted = tally-insert i addr v w prop.voters t.distinct found in
    let same : tally i (erase addr prop.voters) + vote_for i w
        ≡ tally i (insert addr w prop.voters) =
      omega (arith, erased, inserted) in
    votes i o e ∙ ap (λ (n : ℕ). n % 2 ^ 64) same

-- A vote of a voter of a tallied proposal, for an option that there is or for none, succeeds when
-- its earlier choice is one too, and leaves the proposal tallied: the votes of each option are the
-- powers of the voters that chose it, modulo 2^64.
pub do_vote-IsTallied :
    (addr : Bytes) (choice : Int32) (v : Voter) (prop : GovProposal)
    → IsTallied prop
    → lookup addr prop.voters ≡ some v
    → IsChoiceOf (length prop.options) v.choice
    → IsChoiceOf (length prop.options) choice
    → (prop' : GovProposal) × (do_vote addr choice prop ≡ ok prop') × IsTallied prop'
unfolding do_vote
do_vote-IsTallied addr choice v prop t found old new =
    let g : ℕ → ℕ = λ i. tally i (erase addr prop.voters) in
    let (w, opts, e, votes, len) =
      vote_again_lem g v choice prop.options t.few (others addr v prop t found) old new in
    let run : do_vote addr choice prop ≡ ok (put_voter addr prop (w, opts)) =
      rw (found, e, do_vote) refl in
    let tallied : IsTallied (put_voter addr prop (w, opts)) = record {
      distinct = insert-IsMap addr w prop.voters t.distinct;
      votes = with_voter addr v w prop opts t found votes;
      few = omega (arith, t.few, len);
    } in
    (put_voter addr prop (w, opts), run, tallied)

-- A punishment of a voter of a tallied proposal with a choice that there is, or none, succeeds and
-- leaves the proposal tallied, whether the voter keeps power or is left out; the slashed power is
-- the power times the ratio over 100 on 256-bit numbers, and it is taken from the total.
pub do_punish-IsTallied :
    (addr : Bytes) (ratio : Int64) (v : Voter) (prop : GovProposal)
    → IsTallied prop
    → lookup addr prop.voters ≡ some v
    → IsChoiceOf (length prop.options) v.choice
    → (prop' : GovProposal) × (do_punish addr ratio prop ≡ ok (slashing_power v.power ratio, prop'))
      × IsTallied prop'
      × (prop'.total_voting_power ≡ sub64 prop.total_voting_power (slashing_power v.power ratio))
unfolding do_punish punished
do_punish-IsTallied addr ratio v prop t found old =
    let g : ℕ → ℕ = λ i. tally i (erase addr prop.voters) in
    let (v1, opts1, e1, (votes1, len1, power1, none1)) =
      cancel_total g v prop.options t.few (others addr v prop t found) old in
    let few1 : length opts1 < 2 ^ 31 = omega (arith, t.few, len1) in
    let slashing = slashing_power v.power ratio in
    let slashed : Voter = record v1 { power = sub64 v.power slashing } in
    elim (Bool-cases (slt 0 (sub64 v.power slashing))) [
      | inr gone ↦
          let p' = after_slash prop slashing (erase addr prop.voters, opts1) in
          let run : do_punish addr ratio prop ≡ ok (slashing, p') =
            rw (found, e1, gone, do_punish, punished) refl in
          (
            p',
            run,
            record {
              distinct = erase-IsMap addr prop.voters t.distinct;
              votes = votes1;
              few = few1;
            },
            refl,
          )
      | inl stays ↦
          let new1 : IsChoiceOf (length opts1) v.choice = rw len1 old in
          let (w, opts2, e2, (votes2, len2, power2)) =
            Cast-total g slashed v.choice opts1 few1 none1 votes1 new1 in
          let p' = after_slash prop slashing (insert addr w prop.voters, opts2) in
          let run : do_punish addr ratio prop ≡ ok (slashing, p') =
            rw (found, e1, stays, e2, do_punish, punished) refl in
          (
            p',
            run,
            record {
              distinct = insert-IsMap addr w prop.voters t.distinct;
              votes = with_voter addr v w prop opts2 t found votes2;
              few = omega (arith, few1, len2);
            },
            refl,
          )
    ]
