-- ===== src/Base/Bytes.antt =====
-- Byte strings (types/bytes/hex_bytes.go, Go's `[]byte` and `[32]byte`) as lists of numbers, with
-- `bytes.Compare`.
use Prim.Native.Nat.{ℕ}
use mathlib.Core.Path.{◌≡◌, refl}
use mathlib.Core.Logic.{◌↔◌}
use mathlib.Core.Bool.{Bool, true, false, ◌&&◌}
use mathlib.Core.List.{List, [], ◌∷◌}
use native.Mathlib.Omega.{arith}
use rigo_go.Base.Booleans.{if◌then◌else◌, ltb, ◌==◌}

abbrev pub Bytes : Type 0
Bytes = List ℕ

infix 50 ◌=b◌
unfoldable pub ◌=b◌ : Bytes → Bytes → Bool
[] =b [] = true
[] =b (y ∷ ys) = false
(x ∷ xs) =b [] = false
(x ∷ xs) =b (y ∷ ys) = x == y && xs =b ys

pub =b_iff : (a b : Bytes) → ((a =b b) ≡ true) ↔ (a ≡ b)
unfolding ◌=b◌
=b_iff [] [] = ground arith
=b_iff [] (y ∷ ys) = ground arith
=b_iff (x ∷ xs) [] = ground arith
=b_iff (x ∷ xs) (y ∷ ys) = ground (arith, =b_iff xs ys)

pub =b_sym : (a b : Bytes) → (a =b b) ≡ (b =b a)
unfolding ◌=b◌
=b_sym [] [] = refl
=b_sym [] (y ∷ ys) = refl
=b_sym (x ∷ xs) [] = refl
=b_sym (x ∷ xs) (y ∷ ys) = ground (arith, =b_sym xs ys)

pub =b_refl : (a : Bytes) → (a =b a) ≡ true
=b_refl a = (=b_iff a a).1 refl

-- `bytes.Compare(a, b) < 0`
unfoldable pub bytes_lt : Bytes → Bytes → Bool
bytes_lt [] [] = false
bytes_lt [] (y ∷ ys) = true
bytes_lt (x ∷ xs) [] = false
bytes_lt (x ∷ xs) (y ∷ ys) =
    let rest = bytes_lt xs ys in if ltb x y then true else if x == y then rest else false

pub bytes_lt_irrefl : (a : Bytes) → bytes_lt a a ≡ false
unfolding bytes_lt
bytes_lt_irrefl [] = refl
bytes_lt_irrefl (x ∷ xs) = ground (arith, bytes_lt_irrefl xs)

pub bytes_lt_trans :
    (a b c : Bytes) → bytes_lt a b ≡ true → bytes_lt b c ≡ true → bytes_lt a c ≡ true
unfolding bytes_lt
bytes_lt_trans [] [] c p q = cc
bytes_lt_trans [] (y ∷ ys) [] p q = cc
bytes_lt_trans [] (y ∷ ys) (z ∷ zs) p q = refl
bytes_lt_trans (x ∷ xs) [] c p q = cc
bytes_lt_trans (x ∷ xs) (y ∷ ys) [] p q = cc
bytes_lt_trans (x ∷ xs) (y ∷ ys) (z ∷ zs) p q = ground (arith, bytes_lt_trans xs ys zs)

-- Of two different byte strings exactly one is smaller.
pub bytes_lt-total : (a b : Bytes) → bytes_lt a b ≡ false → bytes_lt b a ≡ false → a ≡ b
unfolding bytes_lt
bytes_lt-total [] [] p q = refl
bytes_lt-total [] (y ∷ ys) p q = cc
bytes_lt-total (x ∷ xs) [] p q = cc
bytes_lt-total (x ∷ xs) (y ∷ ys) p q = ground (arith, bytes_lt-total xs ys)

pub bytes_lt-asymm : (a b : Bytes) → bytes_lt a b ≡ true → bytes_lt b a ≡ false
unfolding bytes_lt
bytes_lt-asymm [] [] p = cc
bytes_lt-asymm [] (y ∷ ys) p = refl
bytes_lt-asymm (x ∷ xs) [] p = cc
bytes_lt-asymm (x ∷ xs) (y ∷ ys) p = ground (arith, bytes_lt-asymm xs ys)
