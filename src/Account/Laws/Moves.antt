-- ===== src/Account/Laws/Moves.antt =====
-- Moving an amount between two account objects, which may be one object.
use rigo_go.Base.{
  ℕ, zero, suc, ◌==◌, ◌%◌, Bool-cases, inl, inr, ◌+◌, ◌-◌, ◌≡◌, ◌≢◌, ◌<◌, ◌≤◌, ◌^◌, arith, refl,
  ltb, if◌then◌else◌,
}
use rigo_go.Base.Words.{UInt256, add256, sub256}
use rigo_go.Base.Result.{XError, ok, err, invalid_amount, insufficient_fund}
use rigo_go.Account.Struct.{Account, Sign, is_neg}
use rigo_go.Account.Heap.{AcctRef, Heap, write, move}

abbrev pub balance_at : ℕ → Heap → UInt256
balance_at i h = (h.cell i).balance

-- The balances of the first `n` objects together, as a number without bound.
unfoldable pub total : ℕ → Heap → ℕ
total zero h = 0
total (suc n) h = balance_at n h + total n h

total-write_out :
    (i : ℕ) (acct : Account) (n : ℕ) (h : Heap) → n ≤ i → total n (write i acct h) ≡ total n h
unfolding total write
total-write_out i acct zero h le = refl
total-write_out i acct (suc n) h le = ground (arith, total-write_out i acct n h)

total-write :
    (i : ℕ) (acct : Account) (n : ℕ) (h : Heap)
    → i < n
    → total n (write i acct h) + balance_at i h ≡ total n h + acct.balance
unfolding total write
total-write i acct zero h lt = absurd (omega arith)
total-write i acct (suc n) h lt = elim (Bool-cases (n == i)) [
  | inl here ↦ ground (arith, total-write_out i acct n h)
  | inr there ↦ ground (arith, total-write i acct n h)
]

module _ (sign : UInt256 → Sign) (from to : AcctRef) (amt : UInt256) (h : Heap) where
  -- How a move ends, whatever the objects: it is refused for a negative amount, else for one above
  -- the sender's balance, and else it succeeds.
  pub move_outcome : (move sign from to amt h).0 ≡ (
      if is_neg (sign amt)
      then err invalid_amount
      else if ltb (balance_at from.id h) amt
      then err insufficient_fund
      else ok tt)
  unfolding move
  move_outcome = ground arith

  -- A move that is refused changes no object.
  pub move_atomic :
      {e : XError} → (move sign from to amt h).0 ≡ err e → (move sign from to amt h).1 ≡ h
  unfolding move
  move_atomic e = ground arith

  -- A move between two objects that succeeds, from a balance below 2^256, takes the amount from
  -- the first and adds it to the second, modulo 2^256, and changes the balance of no other object.
  pub move_balances :
      (i : ℕ)
      → balance_at from.id h < 2 ^ 256
      → from.id ≢ to.id
      → (move sign from to amt h).0 ≡ ok tt
      → balance_at i (move sign from to amt h).1 ≡ (
          if i == from.id
          then balance_at from.id h - amt
          else if i == to.id
          then (balance_at to.id h + amt) % 2 ^ 256
          else balance_at i h)
  unfolding move
  move_balances i word apart e = ground arith

  -- A move from an object to itself, of a balance below 2^256, changes no balance, whether it is
  -- refused or not.
  pub move_self :
      (i : ℕ)
      → balance_at from.id h < 2 ^ 256
      → from.id ≡ to.id
      → balance_at i (move sign from to amt h).1 ≡ balance_at i h
  unfolding move
  move_self i word same = ground arith

  -- Whatever comes of a move, also from an object to itself, the balances of the objects together
  -- stay the same, if the sender's is below 2^256 and the receiver's does not overflow.
  pub total-move :
      (n : ℕ)
      → from.id < n
      → to.id < n
      → balance_at from.id h < 2 ^ 256
      → balance_at to.id h + amt < 2 ^ 256
      → total n (move sign from to amt h).1 ≡ total n h
  unfolding move
  total-move n p q word room =
      let paid = record (h.cell from.id) { balance = sub256 (balance_at from.id h) amt } in
      let h₁ = write from.id paid h in
      let got = record (h₁.cell to.id) { balance = add256 (balance_at to.id h₁) amt } in
      ground (arith, total-write from.id paid n h p, total-write to.id got n h₁ q)

total-same :
    (n : ℕ) (h h' : Heap) → ((i : ℕ) → balance_at i h' ≡ balance_at i h) → total n h' ≡ total n h
unfolding total
total-same zero h h' same = refl
total-same (suc n) h h' same = omega (arith, same n, total-same n h h' same)

-- When one object has paid an amount to another, and a fee to neither, the balances together are
-- less by the fee.
pub total-paid :
    (n from to : ℕ) (amt fee : UInt256) (h h' : Heap)
    → from < n
    → to < n
    → from ≢ to
    → amt + fee ≤ balance_at from h
    → balance_at to h + amt < 2 ^ 256
    → ((i : ℕ)
        → balance_at i h' ≡ (
            if i == from
            then balance_at from h - (amt + fee)
            else if i == to
            then (balance_at to h + amt) % 2 ^ 256
            else balance_at i h))
    → total n h' + fee ≡ total n h
unfolding write
total-paid n from to amt fee h h' p q apart enough room paid =
    let payer = record (h.cell from) { balance = balance_at from h - (amt + fee) } in
    let h₁ = write from payer h in
    let payee = record (h₁.cell to) { balance = balance_at to h + amt } in
    let h₂ = write to payee h₁ in
    let same = total-same n h₂ h' (λ i. ground (arith, paid i, apart, room)) in
    let there : balance_at to h₁ ≡ balance_at to h = ground (arith, apart) in
    omega (arith, same, there, enough, total-write from payer n h p, total-write to payee n h₁ q)
