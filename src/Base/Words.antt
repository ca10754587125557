-- ===== src/Base/Words.antt =====
-- Go's int64 as bit patterns below 2^64, and 256-bit unsigned integers as numbers below 2^256.
use Prim.Native.Nat.{ℕ, ◌+◌, ◌-◌, ◌*◌, ◌/◌, ◌%◌, ◌^◌}
use mathlib.Core.Path.{◌≡◌}
use mathlib.Core.Bool.{Bool}
use native.Mathlib.Omega.{arith}
use rigo_go.Base.Booleans.{if◌then◌else◌, ltb, leb}

abbrev pub Int64 : Type 0
Int64 = ℕ

unfoldable pub add64 : Int64 → Int64 → Int64
add64 a b = (a + b) % 2 ^ 64

unfoldable pub sub64 : Int64 → Int64 → Int64
sub64 a b = (a + (2 ^ 64 - b % 2 ^ 64)) % 2 ^ 64

unfoldable pub mul64 : Int64 → Int64 → Int64
mul64 a b = (a * b) % 2 ^ 64

unfoldable pub neg64 : Int64 → Int64
neg64 a = (2 ^ 64 - a % 2 ^ 64) % 2 ^ 64

-- The sign bit.
abbrev pub is_negative : Int64 → Bool
is_negative a = leb (2 ^ 63) a

-- The order of two's complement: the order of the patterns with the sign bit turned round.
unfoldable pub slt : Int64 → Int64 → Bool
slt a b = ltb ((a + 2 ^ 63) % 2 ^ 64) ((b + 2 ^ 63) % 2 ^ 64)

abbrev magnitude : Int64 → ℕ
magnitude a = if is_negative a then 2 ^ 64 - a else a

-- Go's `/`, which rounds to zero; a division by zero panics, and callers test for it.
unfoldable pub sdiv : Int64 → Int64 → Int64
unfolding neg64
sdiv a b =
    let q = magnitude a / magnitude b in
    if is_negative a
    then (if is_negative b then q % 2 ^ 64 else neg64 q)
    else (if is_negative b then neg64 q else q)

pub sdiv_zero : (b : Int64) → sdiv 0 b ≡ 0
unfolding sdiv neg64
sdiv_zero b = ground arith

abbrev pub UInt256 : Type 0
UInt256 = ℕ

unfoldable pub add256 : UInt256 → UInt256 → UInt256
add256 a b = (a + b) % 2 ^ 256

unfoldable pub sub256 : UInt256 → UInt256 → UInt256
sub256 a b = (a + (2 ^ 256 - b % 2 ^ 256)) % 2 ^ 256

unfoldable pub mul256 : UInt256 → UInt256 → UInt256
mul256 a b = (a * b) % 2 ^ 256
