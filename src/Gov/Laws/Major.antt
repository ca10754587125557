-- ===== src/Gov/Laws/Major.antt =====
-- The option that `UpdateMajorOption` of ctrlers/gov/proposal/proposal.go finds.
use rigo_go.Base.{
  ℕ, suc, ◌≡◌, inl, inr, ◌⊎◌, true, false, Option, some, List, [], ◌∷◌, arith, refl, Bool-cases,
  sym,
}
use rigo_go.Base.Lists.{get_elem?}
use rigo_go.Base.Words.{slt}
use rigo_go.Base.Sort.{sort, sort_insert}
use rigo_go.Base.Result.{ok}
use rigo_go.Gov.Proposal.{VoteOption, GovProposal, more_votes, update_major_option}

-- No option of the list has more votes than the one.
abbrev pub NoneAbove : VoteOption → List VoteOption → Type 0
NoneAbove h [] = Unit
NoneAbove h (o ∷ os) = (slt h.votes o.votes ≡ false) × NoneAbove h os

-- Every option has fewer votes than the power.
abbrev pub AllBelow : ℕ → List VoteOption → Type 0
AllBelow p [] = Unit
AllBelow p (o ∷ os) = (slt o.votes p ≡ true) × AllBelow p os

-- The first of the one list has the most votes of the other, where it stands too.
abbrev HasMost : List VoteOption → List VoteOption → Type 0
HasMost [] opts = opts ≡ []
HasMost (h ∷ t) opts = NoneAbove h opts × (k : ℕ) × (get_elem? opts k ≡ some h)

NoneAbove-trans :
    (x h : VoteOption) (os : List VoteOption)
    → slt x.votes h.votes ≡ false
    → NoneAbove h os
    → NoneAbove x os
unfolding slt
NoneAbove-trans x h [] p q = tt
NoneAbove-trans x h (o ∷ os) p q = (ground arith, NoneAbove-trans x h os p q.1)

slt-asymm : (a b : ℕ) → slt a b ≡ true → slt b a ≡ false
unfolding slt
slt-asymm a b p = ground arith

slt_irrefl : (a : ℕ) → slt a a ≡ false
unfolding slt
slt_irrefl a = ground arith

sort_insert-HasMost :
    (x : VoteOption) (l opts : List VoteOption)
    → HasMost l opts
    → HasMost (sort_insert more_votes x l) (x ∷ opts)
unfolding sort_insert more_votes
sort_insert-HasMost x [] opts h = rw h ((slt_irrefl x.votes, tt), 0, refl)
sort_insert-HasMost x (y ∷ ys) opts (above, k, at) = elim (Bool-cases (slt x.votes y.votes)) [
  | inl more ↦ rw more ((slt-asymm x.votes y.votes more, above), suc k, at)
  | inr no_more ↦ rw no_more ((slt_irrefl x.votes, NoneAbove-trans x y opts no_more above), 0, refl)
]

sort-HasMost : (opts : List VoteOption) → HasMost (sort more_votes opts) opts
unfolding sort
sort-HasMost [] = refl
sort-HasMost (o ∷ os) = sort_insert-HasMost o (sort more_votes os) os (sort-HasMost os)

below :
    (h : VoteOption) (p : ℕ) (os : List VoteOption)
    → slt h.votes p ≡ true
    → NoneAbove h os
    → AllBelow p os
unfolding slt
below h p [] q above = tt
below h p (o ∷ os) q above = (ground arith, below h p os q above.1)

-- What `UpdateMajorOption` finds: an option of the proposal with the most votes and no fewer than
-- the majority power; or what was found before, when every option has fewer.
abbrev pub IsMajority : GovProposal → Option VoteOption → Type 0
IsMajority prop major =
    ((h : VoteOption) × (k : ℕ) × (major ≡ some h)
      × (get_elem? prop.options k ≡ some h)
      × NoneAbove h prop.options
      × (slt h.votes prop.majority_power ≡ false))
    ⊎ (major ≡ prop.major_option) × AllBelow prop.majority_power prop.options

nil_or_not :
    (os : List VoteOption) → (os ≡ []) ⊎ (p : VoteOption × List VoteOption) × (os ≡ p.0 ∷ p.1)
nil_or_not [] = inl refl
nil_or_not (o ∷ os) = inr ((o, os), refl)

HasMost-as :
    (opts : List VoteOption) {l l' : List VoteOption} → l ≡ l' → HasMost l opts → HasMost l' opts
HasMost-as opts e h = rw (sym e) h

-- On a proposal with an option, `UpdateMajorOption` records and gives back an option with the most
-- votes, if these are no fewer than the majority power, and otherwise what was recorded, every
-- option having fewer votes; the votes are compared as int64s.
pub update_major_option_lem :
    (o : VoteOption) (os : List VoteOption) (prop : GovProposal)
    → prop.options ≡ o ∷ os
    → (major : Option VoteOption) × (prop' : GovProposal) × (update_major_option prop
        ≡ ok (major, prop'))
      × (prop'.major_option ≡ major)
      × (prop'.options ≡ sort more_votes prop.options)
      × IsMajority prop major
unfolding update_major_option
update_major_option_lem o os prop nonempty =
    let most = sort-HasMost prop.options in
    elim (nil_or_not (sort more_votes prop.options)) [
      | inl empty ↦
          let none_there : prop.options ≡ [] = HasMost-as prop.options empty most in
          absurd (ground (arith, none_there, nonempty))
      | inr ((h, t), sorted) ↦
          let (above, k, at) : HasMost (h ∷ t) prop.options = HasMost-as prop.options sorted most in
          elim (Bool-cases (slt h.votes prop.majority_power)) [
            | inl few ↦
                let run : update_major_option prop
                    ≡ ok (prop.major_option, record prop { options = h ∷ t }) =
                  rw (sorted, few, update_major_option) refl in
                (
                  _,
                  _,
                  run,
                  refl,
                  sym sorted,
                  inr (refl, below h prop.majority_power prop.options few above),
                )
            | inr enough ↦
                let run : update_major_option prop
                    ≡ ok (some h, record prop { options = h ∷ t; major_option = some h }) =
                  rw (sorted, enough, update_major_option) refl in
                (_, _, run, refl, sym sorted, inl (h, k, refl, at, above, enough))
          ]
    ]
