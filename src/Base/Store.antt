-- ===== src/Base/Store.antt =====
-- Objects that Go code shares through pointers, one kind of them in a store. A pointer is a
-- reference, which carries the bytes that the object's key is made of: no code assigns them after
-- the object was made.
use Prim.Native.Nat.{ℕ, ◌+◌}
use mathlib.Core.Path.{◌≡◌}
use native.Mathlib.Omega.{arith}
use rigo_go.Base.Booleans.{◌==◌, if◌then◌else◌}
use rigo_go.Base.Bytes.{Bytes}

pub record Ref : Type 0 where
  pub name : Bytes
  pub id : ℕ

-- The cells from `next` on are free.
pub record Store (A : Type 0) : Type 0 where
  pub cell : ℕ → A
  pub next : ℕ

module _ {A : Type 0} where
  -- an assignment through a pointer
  unfoldable pub assign : ℕ → A → Store A → Store A
  assign i a h = record h { cell = λ j. if j == i then a else h.cell j }

  unfoldable pub allocate : Bytes → A → Store A → Ref × Store A
  allocate name a h = (
    record { name = name; id = h.next },
    record { cell = λ j. if j == h.next then a else h.cell j; next = h.next + 1 },
  )

  pub cell-assign :
      (i j : ℕ) (a : A) (h : Store A) → (assign i a h).cell j ≡ (if j == i then a else h.cell j)
  unfolding assign
  cell-assign i j a h = ground arith

  pub cell-allocate : (name : Bytes) (a : A) (h : Store A) → (allocate name a h).1.cell h.next ≡ a
  unfolding allocate
  cell-allocate name a h = ground arith
