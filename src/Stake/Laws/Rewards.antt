-- ===== src/Stake/Laws/Rewards.antt =====
-- What a `Reward` of ctrlers/stake/reward.go has cumulated after any sequence of calls.
use rigo_go.Base.{
  ℕ, ◌+◌, ◌%◌, ◌^◌, ◌≡◌, ◌<◌, inl, inr, true, false, List, [], ◌∷◌, arith, refl, ◌∙◌, ◌==◌,
  Bool-cases,
}
use rigo_go.Base.Words.{Int64, UInt256, add256, sub256, slt}
use rigo_go.Base.Result.{Result, ok, err}
use rigo_go.Stake.Reward.{Reward, issue, withdraw, slash}

-- One call on a reward.
pub data Call : Type 0 where
  issued : UInt256 → Int64 → Call
  withdrawn : UInt256 → Int64 → Call
  slashed : UInt256 → Int64 → Call

abbrev pub height_of : Call → Int64
height_of (issued r h) = h
height_of (withdrawn r h) = h
height_of (slashed r h) = h

abbrev pub call : Call → Reward → Result Reward
call (issued r h) rwd = issue r h rwd
call (withdrawn r h) rwd = withdraw r h rwd
call (slashed r h) rwd = slash r h rwd

abbrev pub calls : List Call → Reward → Result Reward
calls [] rwd = ok rwd
calls (c ∷ cs) rwd = elim (call c rwd) [ ok rwd' ↦ calls cs rwd' | err e ↦ err e ]

-- What the calls add to and take from what is cumulated.
pub earned : List Call → ℕ
earned [] = 0
earned (issued r h ∷ cs) = r + earned cs
earned (withdrawn r h ∷ cs) = earned cs
earned (slashed r h ∷ cs) = earned cs

pub taken : List Call → ℕ
taken [] = 0
taken (issued r h ∷ cs) = taken cs
taken (withdrawn r h ∷ cs) = r + taken cs
taken (slashed r h ∷ cs) = r + taken cs

-- The heights are int64s, and no call is at a height below that of a call before it.
abbrev pub IsOrdered : Int64 → List Call → Type 0
IsOrdered h [] = Unit
IsOrdered h (c ∷ cs) =
    (height_of c < 2 ^ 64) × (slt (height_of c) h ≡ false) × IsOrdered (height_of c) cs

same_or_later :
    (a b : Int64) → a < 2 ^ 64 → b < 2 ^ 64 → slt b a ≡ false → slt a b ≡ false → (a == b) ≡ true
unfolding slt
same_or_later a b p q r s = ground arith

call_lem :
    (c : Call) (rwd : Reward)
    → rwd.height < 2 ^ 64
    → height_of c < 2 ^ 64
    → slt (height_of c) rwd.height ≡ false
    → (rwd' : Reward) × (call c rwd ≡ ok rwd')
      × (rwd'.height ≡ height_of c)
      × ((rwd'.cumulated + taken (c ∷ [])) % 2 ^ 256 ≡ (rwd.cumulated + earned (c ∷ [])) % 2 ^ 256)
unfolding issue withdraw slash earned taken add256 sub256
call_lem (issued r h) rwd small small' p = elim (Bool-cases (slt rwd.height h)) [
  | inl above ↦ rw (above, issue) (_, refl, refl, omega arith)
  | inr not_above ↦
      let same = same_or_later rwd.height h small small' p not_above in
      rw (not_above, same, issue) (_, refl, ground arith, omega arith)
]
call_lem (withdrawn r h) rwd small small' p = elim (Bool-cases (slt rwd.height h)) [
  | inl above ↦ rw (above, withdraw) (_, refl, refl, omega arith)
  | inr not_above ↦
      let same = same_or_later rwd.height h small small' p not_above in
      rw (not_above, same, withdraw) (_, refl, ground arith, omega arith)
]
call_lem (slashed r h) rwd small small' p = elim (Bool-cases (slt rwd.height h)) [
  | inl above ↦ rw (above, slash) (_, refl, refl, omega arith)
  | inr not_above ↦
      let same = same_or_later rwd.height h small small' p not_above in
      rw (not_above, same, slash) (_, refl, ground arith, omega arith)
]

earned-first : (c : Call) (cs : List Call) → earned (c ∷ cs) ≡ earned (c ∷ []) + earned cs
unfolding earned
earned-first (issued r h) cs = omega arith
earned-first (withdrawn r h) cs = omega arith
earned-first (slashed r h) cs = omega arith

taken-first : (c : Call) (cs : List Call) → taken (c ∷ cs) ≡ taken (c ∷ []) + taken cs
unfolding taken
taken-first (issued r h) cs = omega arith
taken-first (withdrawn r h) cs = omega arith
taken-first (slashed r h) cs = omega arith

calls-first :
    (c : Call) (cs : List Call) (rwd rwd' : Reward)
    → call c rwd ≡ ok rwd'
    → calls (c ∷ cs) rwd ≡ calls cs rwd'
calls-first c cs rwd rwd' e = rw (e, calls) refl

-- Any sequence of calls of `Issue`, `Withdraw` and `Slash` at int64 heights that never go down
-- succeeds, and what is cumulated in the end, with all that was withdrawn and slashed, is what was
-- cumulated before with all that was issued, modulo 2^256.
pub calls_lem :
    (cs : List Call) (rwd : Reward)
    → rwd.height < 2 ^ 64
    → IsOrdered rwd.height cs
    → (rwd' : Reward) × (calls cs rwd ≡ ok rwd')
      × ((rwd'.cumulated + taken cs) % 2 ^ 256 ≡ (rwd.cumulated + earned cs) % 2 ^ 256)
unfolding earned taken
calls_lem [] rwd small ordered = (rwd, refl, refl)
calls_lem (c ∷ cs) rwd small ordered =
    let (rwd', called, at, sum) = call_lem c rwd small ordered.0 ordered.1 in
    let small' : rwd'.height < 2 ^ 64 = omega (arith, at, ordered.0) in
    let (rwd'', rest, sum') = calls_lem cs rwd' small' (rw at ordered.2) in
    (
      rwd'',
      calls-first c cs rwd rwd' called ∙ rest,
      omega (arith, sum, sum', earned-first c cs, taken-first c cs),
    )
