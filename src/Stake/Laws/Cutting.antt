-- ===== src/Stake/Laws/Cutting.antt =====
-- What `doSlash` of ctrlers/stake/delegatee.go takes from the stakes, and which it leaves.
use mathlib.Core.List.{append_assoc, append-nil}
use rigo_go.Base.{
  ℕ, zero, suc, ◌+◌, ◌-◌, ◌*◌, ◌/◌, ◌%◌, ◌^◌, ◌<◌, ◌≤◌, ◌≡◌, ◌==◌, false, true, refl, sym, ap, ◌∙◌,
  arith, if◌then◌else◌, inl, inr, some, List, [], ◌∷◌, ◌++◌, leb, Bool-cases,
}
use rigo_go.Base.Bytes.{Bytes, ◌=b◌, =b_refl, =b_sym}
use rigo_go.Base.Lists.{length, remove_at}
use rigo_go.Base.Words.{Int64, add64, sub64, mul64, sdiv, slt}
use rigo_go.Stake.Item.{Stake}
use rigo_go.Stake.Delegatee.{
  Delegatee, find_from, find_stake, del_stake_by_idx, del_stake_by_hash, slash_loop, remove_stakes,
}

-- what a slash takes from a stake, as a number
abbrev pub cut : ℕ → Stake → ℕ
cut ratio s = s.power * ratio / 100

abbrev after_cut : ℕ → Stake → Stake
after_cut ratio s = record s { power = s.power - cut ratio s }

-- The stakes that a slash leaves: those of which it takes something, with what is left of them.
unfoldable pub left : ℕ → List Stake → List Stake
left ratio [] = []
left ratio (s ∷ ss) = if cut ratio s == 0 then left ratio ss else after_cut ratio s ∷ left ratio ss

-- what it takes from all of them
unfoldable pub slashed : ℕ → List Stake → ℕ
slashed ratio [] = 0
slashed ratio (s ∷ ss) = cut ratio s + slashed ratio ss

-- The products of the powers and the ratio are int64s.
abbrev pub AreSmall : ℕ → List Stake → Type 0
AreSmall ratio [] = Unit
AreSmall ratio (s ∷ ss) = (s.power * ratio < 2 ^ 63) × AreSmall ratio ss

abbrev pub Lacks : Bytes → List Stake → Type 0
Lacks tx_hash [] = Unit
Lacks tx_hash (s ∷ ss) = ((tx_hash =b s.tx_hash) ≡ false) × Lacks tx_hash ss

-- No two stakes have one hash.
abbrev pub AreDistinct : List Stake → Type 0
AreDistinct [] = Unit
AreDistinct (s ∷ ss) = Lacks s.tx_hash ss × AreDistinct ss

-- the stakes to remove, and all of them with their new powers
unfoldable pub smalls : ℕ → List Stake → List Stake
smalls ratio [] = []
smalls ratio (s ∷ ss) = if cut ratio s == 0 then s ∷ smalls ratio ss else smalls ratio ss

unfoldable pub all_cut : ℕ → List Stake → List Stake
all_cut ratio [] = []
all_cut ratio (s ∷ ss) = (if cut ratio s == 0 then s else after_cut ratio s) ∷ all_cut ratio ss

mul_within : (p r : ℕ) → r ≤ 100 → p * r ≤ 100 * p
mul_within p r small = grind arith

mul_above : (p r : ℕ) → 0 < r → p ≤ p * r
mul_above p zero positive = absurd (omega arith)
mul_above p (suc r) positive = grind arith

mul_zero : (p r : ℕ) → r ≡ 0 → p * r ≡ 0
mul_zero p r e = rw e (omega arith)

cut_lem :
    (ratio : ℕ) (s : Stake)
    → ratio ≤ 100
    → s.power * ratio < 2 ^ 63
    → (sdiv (mul64 s.power ratio) 100 ≡ cut ratio s) × (cut ratio s < 2 ^ 63)
unfolding sdiv mul64
cut_lem ratio s percent small = (ground (arith, small), omega (arith, small))

rest_lem :
    (ratio : ℕ) (s : Stake)
    → ratio ≤ 100
    → s.power * ratio < 2 ^ 63
    → (cut ratio s == 0) ≡ false
    → sub64 s.power (cut ratio s) ≡ s.power - cut ratio s
unfolding sub64
rest_lem ratio s percent small some_cut =
    let within = mul_within s.power ratio percent in
    let positive : 0 < ratio = elim (Bool-cases (ratio == 0)) [
      | inl nothing ↦
          absurd (ground (arith, some_cut, mul_zero s.power ratio (ground (arith, nothing))))
      | inr more ↦ ground (arith, more)
    ] in
    omega (arith, within, small, mul_above s.power ratio positive)

too_small : (c : ℕ) → c < 2 ^ 63 → slt c 1 ≡ (c == 0)
unfolding slt
too_small c small = ground (arith, small)

three :
    {x x' y y' : List Stake} {n n' : ℕ}
    → x ≡ x'
    → y ≡ y'
    → n ≡ n'
    → ◌≡◌ {A = List Stake × List Stake × ℕ} (x, y, n) (x', y', n')
three e f g = λ i. (e i, f i, g i)

pub slash_loop_lem :
    (ratio : ℕ) (ss removing : List Stake) (t : ℕ)
    → ratio ≤ 100
    → AreSmall ratio ss
    → slash_loop ratio ss (removing, t % 2 ^ 64)
      ≡ (all_cut ratio ss, removing ++ smalls ratio ss, (t + slashed ratio ss) % 2 ^ 64)
unfolding slash_loop all_cut smalls slashed add64
slash_loop_lem ratio [] removing t percent small =
    three refl (sym (append-nil removing)) (ground arith)
slash_loop_lem ratio (s ∷ ss) removing t percent (small, rest) =
    let (exact, below) = cut_lem ratio s percent small in
    let test : slt (sdiv (mul64 s.power ratio) 100) 1 ≡ (cut ratio s == 0) =
      ap (λ (c : ℕ). slt c 1) exact ∙ too_small (cut ratio s) below in
    elim (Bool-cases (cut ratio s == 0)) [
      | inl nothing ↦
          let skip = slash_loop_lem ratio ss (removing ++ s ∷ []) t percent rest in
          rw (test ∙ nothing, nothing)
            (three (ap (λ (x : List Stake × List Stake × Int64). s ∷ x.0) skip)
              (ap (λ (x : List Stake × List Stake × Int64). x.1) skip
                ∙ append_assoc removing (s ∷ []) (smalls ratio ss))
              (ap (λ (x : List Stake × List Stake × Int64). x.2) skip ∙ ground (arith, nothing)))
      | inr more ↦
          let go = slash_loop_lem ratio ss removing (t + cut ratio s) percent rest in
          let new = rest_lem ratio s percent small more in
          let run : slash_loop ratio ss (removing, add64 (t % 2 ^ 64) (cut ratio s)) ≡ (
            all_cut ratio ss,
            removing ++ smalls ratio ss,
            (t + cut ratio s + slashed ratio ss) % 2 ^ 64,
          ) =
            ap (λ (n : ℕ). slash_loop ratio ss (removing, n)) (ground arith) ∙ go in
          rw (test ∙ more, exact, more)
            (three (λ i. record s { power = new i } ∷ (run i).0)
              (ap (λ (x : List Stake × List Stake × Int64). x.1) run)
              (ap (λ (x : List Stake × List Stake × Int64). x.2) run ∙ ground arith))
    ]

-- the hashes of the later stakes are none of those of the earlier
abbrev pub AreApart : List Stake → List Stake → Type 0
AreApart pre [] = Unit
AreApart pre (s ∷ ss) = Lacks s.tx_hash pre × AreApart pre ss

pub AreApart-nil : (ss : List Stake) → AreApart [] ss
AreApart-nil [] = tt
AreApart-nil (s ∷ ss) = (tt, AreApart-nil ss)

Lacks-append :
    (h : Bytes) (pre : List Stake) (s : Stake)
    → Lacks h pre
    → (h =b s.tx_hash) ≡ false
    → Lacks h (pre ++ s ∷ [])
Lacks-append h [] s lacks other = (other, tt)
Lacks-append h (q ∷ pre) s lacks other = (lacks.0, Lacks-append h pre s lacks.1 other)

AreApart-append :
    (pre : List Stake) (s : Stake) (ss : List Stake)
    → AreApart pre ss
    → Lacks s.tx_hash ss
    → AreApart (pre ++ s ∷ []) ss
unfolding AreApart
AreApart-append pre s [] apart lacks = tt
AreApart-append pre s (q ∷ ss) apart lacks = (
  Lacks-append q.tx_hash pre s apart.0 (=b_sym q.tx_hash s.tx_hash ∙ lacks.0),
  AreApart-append pre s ss apart.1 lacks.1,
)

find_from_lem :
    (h : Bytes) (j : ℕ) (pre : List Stake) (s : Stake) (ss : List Stake)
    → Lacks h pre
    → (h =b s.tx_hash) ≡ true
    → find_from h j (pre ++ s ∷ ss) ≡ some (j + length pre, s)
unfolding find_from
find_from_lem h j [] s ss lacks is = rw is (ap (λ (n : ℕ). some (n, s)) (omega arith))
find_from_lem h j (q ∷ pre) s ss lacks is =
    rw (lacks.0, find_from)
      (find_from_lem h (suc j) pre s ss lacks.1 is ∙ ap (λ (n : ℕ). some (n, s)) (omega arith))

remove_at_lem :
    (pre : List Stake) (s : Stake) (ss : List Stake)
    → remove_at (length pre) (pre ++ s ∷ ss) ≡ pre ++ ss
remove_at_lem [] s ss = refl
remove_at_lem (q ∷ pre) s ss = ap (λ (l : List Stake). q ∷ l) (remove_at_lem pre s ss)

length_past :
    (pre : List Stake) (s : Stake) (ss : List Stake)
    → leb (length (pre ++ s ∷ ss)) (length pre) ≡ false
length_past [] s ss = ground arith
length_past (q ∷ pre) s ss = ground (arith, length_past pre s ss)

del_stake_by_hash_lem :
    (d : Delegatee) (pre : List Stake) (s : Stake) (ss : List Stake)
    → Lacks s.tx_hash pre
    → (del_stake_by_hash s.tx_hash (record d { stakes = pre ++ s ∷ ss })).1
      ≡ record d { stakes = pre ++ ss }
unfolding del_stake_by_hash find_stake del_stake_by_idx
del_stake_by_hash_lem d pre s ss lacks =
    let found : find_from s.tx_hash 0 (pre ++ s ∷ ss) ≡ some (length pre, s) =
      find_from_lem s.tx_hash 0 pre s ss lacks (=b_refl s.tx_hash)
      ∙ ap (λ (n : ℕ). some (n, s)) (omega arith) in
    rw (found, del_stake_by_hash) (rw (length_past pre s ss, remove_at_lem pre s ss) refl)

-- The removal of the stakes of which nothing is taken leaves the others, in their order.
pub remove_stakes_lem :
    (ratio : ℕ) (d : Delegatee) (pre ss : List Stake)
    → AreApart pre ss
    → AreDistinct ss
    → remove_stakes (smalls ratio ss) (record d { stakes = pre ++ all_cut ratio ss })
      ≡ record d { stakes = pre ++ left ratio ss }
unfolding remove_stakes smalls all_cut left AreApart
remove_stakes_lem ratio d pre [] apart distinct = refl
remove_stakes_lem ratio d pre (s ∷ ss) apart distinct = elim (Bool-cases (cut ratio s == 0)) [
  | inl nothing ↦ rw nothing (
      ap (remove_stakes (smalls ratio ss))
        (del_stake_by_hash_lem d pre s (all_cut ratio ss) apart.0)
      ∙ remove_stakes_lem ratio d pre ss apart.1 distinct.1)
  | inr more ↦
      let s' = after_cut ratio s in
      let next =
        remove_stakes_lem ratio d (pre ++ s' ∷ []) ss (AreApart-append pre s' ss apart.1 distinct.0)
          distinct.1 in
      let joined = append_assoc pre (s' ∷ []) in
      rw more (
        ap (λ (l : List Stake). remove_stakes (smalls ratio ss) (record d { stakes = l }))
          (sym (joined (all_cut ratio ss)))
        ∙ next
        ∙ ap (λ (l : List Stake). record d { stakes = l }) (joined (left ratio ss)))
]
