-- ===== src/Gov/Laws/Votes.antt =====
-- What cancelling a vote and voting do to the votes of the options and the powers of the voters.
use rigo_go.Base.{
  ℕ, zero, suc, ◌+◌, ◌%◌, ◌^◌, ◌≡◌, ◌≤◌, ◌<◌, inl, inr, ◌⊎◌, true, false, Option, none, some, List,
  [], ◌∷◌, arith, refl, ap, ◌∙◌, ◌==◌, if◌then◌else◌, Bool-cases, Option-cases, sym,
}
use rigo_go.Base.Bytes.{Bytes, ◌=b◌, =b_iff}
use rigo_go.Base.Lists.{length, get_elem?, set}
use rigo_go.Base.Words.{add64, sub64}
use rigo_go.Base.Result.{Result, ok, err, Result-cases}
use rigo_go.Ledger.Map.{Map, lookup, insert, erase, IsMap}
use rigo_go.Gov.Proposal.{
  Int32, Voter, VoteOption, is_choice, cancel_vote, cast_vote, vote_again, add_votes, cancel_votes,
}

-- What a voter adds to the votes of an option.
abbrev pub vote_for : ℕ → Voter → ℕ
vote_for i v = if v.choice == i then v.power else 0

-- The powers of the voters that chose the option.
unfoldable pub tally : ℕ → Map Voter → ℕ
tally i [] = 0
tally i ((k, v) ∷ m) = vote_for i v + tally i m

-- The votes of the options are, modulo 2^64, those that the function tells.
abbrev pub Votes : (ℕ → ℕ) → List VoteOption → Type 0
Votes f opts = (i : ℕ) (o : VoteOption) → get_elem? opts i ≡ some o → o.votes ≡ f i % 2 ^ 64

-- The choice is of an option that there is, or of none.
abbrev pub IsChoiceOf : ℕ → Int32 → Type 0
IsChoiceOf n choice = (is_choice choice ≡ false) ⊎ (choice < n)

first :
    (k : Bytes) (v : Voter) (j : Bytes) (x : Voter) (m : Map Voter)
    → (j =b k) ≡ true
    → lookup k ((j, x) ∷ m) ≡ some v
    → x ≡ v
unfolding lookup
first k v j x m hit e =
    let e' : Path (Option Voter) (some x) (some v) = ground (arith, hit, e) in cc

erase-missing : (k : Bytes) (m : Map Voter) → lookup k m ≡ none → erase k m ≡ m
unfolding erase lookup
erase-missing k [] e = refl
erase-missing k ((j, x) ∷ m) e = elim (Bool-cases (j =b k)) [
  | inl hit ↦ absurd (ground (arith, hit, e))
  | inr miss ↦
      let e' : lookup k m ≡ none = ground (arith, miss, e) in rw (miss, erase-missing k m e') refl
]

pub tally-insert :
    (i : ℕ) (k : Bytes) (v w : Voter) (m : Map Voter)
    → IsMap m
    → lookup k m ≡ some v
    → tally i (insert k w m) + vote_for i v ≡ tally i m + vote_for i w
unfolding tally insert lookup
tally-insert i k v w [] h e = cc
tally-insert i k v w ((j, x) ∷ m) h e = elim (Bool-cases (j =b k)) [
  | inl hit ↦
      let same : x ≡ v = first k v j x m hit e in
      let x_v : vote_for i x ≡ vote_for i v = ap (λ (y : Voter). vote_for i y) same in
      ground (arith, hit, x_v)
  | inr miss ↦
      let e' : lookup k m ≡ some v = ground (arith, miss, e) in
      ground (arith, miss, tally-insert i k v w m h.1 e')
]

pub tally-erase :
    (i : ℕ) (k : Bytes) (v : Voter) (m : Map Voter)
    → IsMap m
    → lookup k m ≡ some v
    → tally i (erase k m) + vote_for i v ≡ tally i m
unfolding tally erase lookup
tally-erase i k v [] h e = cc
tally-erase i k v ((j, x) ∷ m) h e = elim (Bool-cases (j =b k)) [
  | inl hit ↦
      let same : x ≡ v = first k v j x m hit e in
      let x_v : vote_for i x ≡ vote_for i v = ap (λ (y : Voter). vote_for i y) same in
      let j_k : j ≡ k = ground (arith, hit, =b_iff j k) in
      let erased : erase k m ≡ m =
        erase-missing k m (ap (λ (y : Bytes). lookup y m) (sym j_k) ∙ h.0) in
      let kept : tally i (erase k m) ≡ tally i m = ap (λ (y : Map Voter). tally i y) erased in
      ground (arith, hit, x_v, kept)
  | inr miss ↦
      let e' : lookup k m ≡ some v = ground (arith, miss, e) in
      ground (arith, miss, tally-erase i k v m h.1 e')
]

pub get_elem?_lt :
    (opts : List VoteOption) (i : ℕ) (o : VoteOption) → get_elem? opts i ≡ some o → i < length opts
get_elem?_lt [] i o e = cc
get_elem?_lt (x ∷ xs) zero o e = omega arith
get_elem?_lt (x ∷ xs) (suc i) o e = omega (arith, get_elem?_lt xs i o e)

get_elem?-missing : (opts : List VoteOption) (i : ℕ) → get_elem? opts i ≡ none → length opts ≤ i
get_elem?-missing [] i e = omega arith
get_elem?-missing (x ∷ xs) zero e = cc
get_elem?-missing (x ∷ xs) (suc i) e = omega (arith, get_elem?-missing xs i e)

length-set : (opts : List VoteOption) (c : ℕ) (o : VoteOption) → length (set opts c o) ≡ length opts
length-set [] c o = refl
length-set (x ∷ xs) zero o = refl
length-set (x ∷ xs) (suc c) o = ap suc (length-set xs c o)

get_elem?-set :
    (opts : List VoteOption) (c i : ℕ) (y o : VoteOption)
    → get_elem? (set opts c y) i ≡ some o
    → (i ≡ c) × (o ≡ y) ⊎ ((c == i) ≡ false) × (get_elem? opts i ≡ some o)
get_elem?-set [] c i y o e = cc
get_elem?-set (x ∷ xs) zero zero y o e = inl (refl, cc)
get_elem?-set (x ∷ xs) zero (suc i) y o e = inr (ground arith, e)
get_elem?-set (x ∷ xs) (suc c) zero y o e = inr (ground arith, e)
get_elem?-set (x ∷ xs) (suc c) (suc i) y o e = elim (get_elem?-set xs c i y o e) [
  | inl (at, is_y) ↦ inl (ap suc at, is_y)
  | inr (apart, old) ↦ inr (ground (arith, apart), old)
]

-- What cancelling leaves: the other voters' votes, and a voter with the same power and no choice.
abbrev pub Cancelled : (ℕ → ℕ) → Voter → List VoteOption → Result (Voter × List VoteOption) → Type 0
Cancelled g v opts (err e) = (is_choice v.choice ≡ true) × (length opts ≤ v.choice)
Cancelled g v opts (ok (v', opts')) =
    Votes g opts'
    × (length opts' ≡ length opts)
    × (v'.power ≡ v.power)
    × (is_choice v'.choice ≡ false)

cancel_vote_lem :
    (g : ℕ → ℕ) (v : Voter) (opts : List VoteOption)
    → length opts < 2 ^ 31
    → Votes (λ i. g i + vote_for i v) opts
    → Cancelled g v opts (cancel_vote v opts)
unfolding cancel_vote cancel_votes sub64
cancel_vote_lem g v opts few votes = elim (Bool-cases (is_choice v.choice)) [
  | inr no_choice ↦
      rw (no_choice, cancel_vote)
        (
          λ i o e.
              let small = get_elem?_lt opts i o e in
              let here = votes i o e in ground (arith, small, here, no_choice, few),
          refl,
          refl,
          no_choice,
        )
  | inl choice ↦ elim (Option-cases (get_elem? opts v.choice)) [
    | inl missing ↦
        rw (choice, missing, cancel_vote) (choice, get_elem?-missing opts v.choice missing)
    | inr (x, at) ↦
        rw (choice, at, cancel_vote)
          (
            λ i o e. elim (get_elem?-set opts v.choice i (cancel_votes v.power x) o e) [
              | inl (i_c, o_x) ↦
                  let here = votes v.choice x at in
                  let there : o.votes ≡ (cancel_votes v.power x).votes =
                    ap (λ (y : VoteOption). y.votes) o_x in
                  let same : g i ≡ g v.choice = ap g i_c in ground (arith, here, there, same)
              | inr (apart, old) ↦ let here = votes i o old in ground (arith, here, apart)
            ],
            length-set opts v.choice (cancel_votes v.power x),
            refl,
            refl,
          )
  ]
]

-- What voting leaves: the other voters' votes and its power for its choice.
abbrev pub Cast :
    (ℕ → ℕ) → Voter → Int32 → List VoteOption → Result (Voter × List VoteOption) → Type 0
Cast g v choice opts (err e) = (is_choice choice ≡ true) × (length opts ≤ choice)
Cast g v choice opts (ok (v', opts')) =
    Votes (λ i. g i + vote_for i v') opts' × (length opts' ≡ length opts) × (v'.power ≡ v.power)

cast_vote_lem :
    (g : ℕ → ℕ) (v : Voter) (choice : Int32) (opts : List VoteOption)
    → length opts < 2 ^ 31
    → is_choice v.choice ≡ false
    → Votes g opts
    → Cast g v choice opts (cast_vote v choice opts)
unfolding cast_vote add_votes add64
cast_vote_lem g v choice opts few none_yet votes = elim (Bool-cases (is_choice choice)) [
  | inr no_choice ↦
      rw (no_choice, cast_vote)
        (
          λ i o e.
              let small = get_elem?_lt opts i o e in
              let here = votes i o e in ground (arith, small, here, none_yet, few),
          refl,
          refl,
        )
  | inl is ↦ elim (Option-cases (get_elem? opts choice)) [
    | inl missing ↦ rw (is, missing, cast_vote) (is, get_elem?-missing opts choice missing)
    | inr (x, at) ↦
        rw (is, at, cast_vote)
          (
            λ i o e. elim (get_elem?-set opts choice i (add_votes v.power x) o e) [
              | inl (i_c, o_x) ↦
                  let here = votes choice x at in
                  let there : o.votes ≡ (add_votes v.power x).votes =
                    ap (λ (y : VoteOption). y.votes) o_x in
                  let same : g i ≡ g choice = ap g i_c in ground (arith, here, there, same, i_c)
              | inr (apart, old) ↦ let here = votes i o old in ground (arith, here, apart)
            ],
            length-set opts choice (add_votes v.power x),
            refl,
          )
  ]
]

Cancelled-as :
    (g : ℕ → ℕ) (v : Voter) (opts : List VoteOption) {r r' : Result (Voter × List VoteOption)}
    → r ≡ r'
    → Cancelled g v opts r
    → Cancelled g v opts r'
Cancelled-as g v opts e c = rw (sym e) c

Cast-as :
    (g : ℕ → ℕ) (v : Voter) (choice : Int32) (opts : List VoteOption)
    {r r' : Result (Voter × List VoteOption)}
    → r ≡ r'
    → Cast g v choice opts r
    → Cast g v choice opts r'
Cast-as g v choice opts e c = rw (sym e) c

pub cancel_total :
    (g : ℕ → ℕ) (v : Voter) (opts : List VoteOption)
    → length opts < 2 ^ 31
    → Votes (λ i. g i + vote_for i v) opts
    → IsChoiceOf (length opts) v.choice
    → (v' : Voter) × (opts' : List VoteOption) × (cancel_vote v opts ≡ ok (v', opts'))
      × Cancelled g v opts (ok (v', opts'))
cancel_total g v opts few votes old =
    let cancelled = cancel_vote_lem g v opts few votes in
    elim (Result-cases (cancel_vote v opts)) [
      | inr (x, e) ↦
          let stuck : Cancelled g v opts (err x) = Cancelled-as g v opts e cancelled in
          absurd (ground (arith, stuck, old))
      | inl ((v', opts'), e) ↦ (v', opts', e, Cancelled-as g v opts e cancelled)
    ]

pub Cast-total :
    (g : ℕ → ℕ) (v : Voter) (choice : Int32) (opts : List VoteOption)
    → length opts < 2 ^ 31
    → is_choice v.choice ≡ false
    → Votes g opts
    → IsChoiceOf (length opts) choice
    → (v' : Voter) × (opts' : List VoteOption) × (cast_vote v choice opts ≡ ok (v', opts'))
      × Cast g v choice opts (ok (v', opts'))
Cast-total g v choice opts few none_yet votes new =
    let cast = cast_vote_lem g v choice opts few none_yet votes in
    elim (Result-cases (cast_vote v choice opts)) [
      | inr (x, e) ↦
          let stuck : Cast g v choice opts (err x) = Cast-as g v choice opts e cast in
          absurd (ground (arith, stuck, new))
      | inl ((v', opts'), e) ↦ (v', opts', e, Cast-as g v choice opts e cast)
    ]

pub vote_again_lem :
    (g : ℕ → ℕ) (v : Voter) (choice : Int32) (opts : List VoteOption)
    → length opts < 2 ^ 31
    → Votes (λ i. g i + vote_for i v) opts
    → IsChoiceOf (length opts) v.choice
    → IsChoiceOf (length opts) choice
    → (v' : Voter) × (opts' : List VoteOption) × (vote_again v choice opts ≡ ok (v', opts'))
      × Votes (λ i. g i + vote_for i v') opts'
      × (length opts' ≡ length opts)
unfolding vote_again
vote_again_lem g v choice opts few votes old new =
    let (v1, opts1, e1, (votes1, len1, power1, none1)) = cancel_total g v opts few votes old in
    let few1 : length opts1 < 2 ^ 31 = omega (arith, few, len1) in
    let new1 : IsChoiceOf (length opts1) choice = rw len1 new in
    let (v2, opts2, e2, (votes2, len2, power2)) =
      Cast-total g v1 choice opts1 few1 none1 votes1 new1 in
    let run : vote_again v choice opts ≡ ok (v2, opts2) = rw (e1, vote_again) e2 in
    (v2, opts2, run, votes2, len2 ∙ len1)
