-- ===== src/Base/Int.antt =====
-- Signed integers over the native numbers, under the library's names, as `int` values that stay
-- within range.
use Prim.Native.Nat.{ℕ, suc, ◌+◌, ◌-◌, ◌≤◌}
use mathlib.Core.Path.{◌≡◌}
use mathlib.Core.Bool.{Bool, false}
use native.Mathlib.Omega.{arith}
use rosx.Base.Tests.{ltb, leb, if◌then◌else◌}

-- `negsuc n` is -(n + 1).
pub data ℤ : Type 0 where
  pos : ℕ → ℤ
  negsuc : ℕ → ℤ

abbrev pos_part : ℤ → ℕ
pos_part (pos n) = n
pos_part (negsuc n) = 0

abbrev pub neg_part : ℤ → ℕ
neg_part (pos n) = 0
neg_part (negsuc n) = suc n

-- a - b, as an integer.
abbrev sub_ℕ : ℕ → ℕ → ℤ
sub_ℕ a b = if leb b a then pos (a - b) else negsuc (b - a - 1)

infix 50 ◌≤ℤ◌
abbrev ◌≤ℤ◌ : ℤ → ℤ → Type 0
a ≤ℤ b = pos_part a + neg_part b ≤ pos_part b + neg_part a

abbrev pub ltb_ℤ : ℤ → ℤ → Bool
ltb_ℤ a b = ltb (pos_part a + neg_part b) (pos_part b + neg_part a)

-- `n++` and `n--`
unfoldable pub inc : ℤ → ℤ
inc a = sub_ℕ (suc (pos_part a)) (neg_part a)

unfoldable pub dec : ℤ → ℤ
dec a = sub_ℕ (pos_part a) (suc (neg_part a))

inc-dec : (a : ℤ) → inc (dec a) ≡ a
unfolding inc dec
inc-dec a = ground arith

abbrev pub is_zero : ℤ → Bool
is_zero (pos n) = leb n 0
is_zero (negsuc n) = false
