-- ===== src/Common/Int.antt =====
-- The values of `int` and `std::int32_t`: `negsuc n` is -(n + 1).
use Prim.Native.Nat.{ℕ, ◌+◌, ◌-◌, ◌^◌, ◌<◌, compare, Ordering}
use mathlib.Core.Path.{◌≡◌}
use mathlib.Core.Bool.{Bool, true, false}
use native.Mathlib.Omega.{arith}
use hibp.Common.Tests.{ltb, ◌==◌}

pub data ℤ : Type 0 where
  pos : ℕ → ℤ
  negsuc : ℕ → ℤ

-- The range of `std::int32_t`.
abbrev pub IsInt32 : ℤ → Type 0
IsInt32 (pos n) = n < 2 ^ 31
IsInt32 (negsuc n) = n < 2 ^ 31

-- a - b for two unsigned operands that are promoted to `int`.
abbrev pub sub_ℕ : ℕ → ℕ → ℤ
sub_ℕ a b = elim (compare a b) [ Ordering.lt ↦ negsuc (b - a - 1) | _ ↦ pos (a - b) ]

-- The sign of an integer, as the ordering that it stands for in a three-way comparison.
abbrev pub sign : ℤ → Ordering
sign (pos n) = compare n 0
sign (negsuc n) = Ordering.lt

-- `==` and `<` of two integers.
abbrev pub eq_ℤ : ℤ → ℤ → Bool
eq_ℤ (pos a) (pos b) = a == b
eq_ℤ (pos a) (negsuc b) = false
eq_ℤ (negsuc a) (pos b) = false
eq_ℤ (negsuc a) (negsuc b) = a == b

abbrev pub lt_ℤ : ℤ → ℤ → Bool
lt_ℤ (pos a) (pos b) = ltb a b
lt_ℤ (pos a) (negsuc b) = false
lt_ℤ (negsuc a) (pos b) = true
lt_ℤ (negsuc a) (negsuc b) = ltb b a

-- Larger 32-bit integers come first.
abbrev pub descending : ℤ → ℕ
descending (pos n) = 2 ^ 31 - 1 - n
descending (negsuc n) = 2 ^ 31 + n

pub eq_ℤ-descending : (a b : ℤ) → IsInt32 a → IsInt32 b → eq_ℤ a b ≡ (descending a == descending b)
eq_ℤ-descending (pos a) (pos b) h k = ground arith
eq_ℤ-descending (pos a) (negsuc b) h k = ground arith
eq_ℤ-descending (negsuc a) (pos b) h k = ground arith
eq_ℤ-descending (negsuc a) (negsuc b) h k = ground arith

pub lt_ℤ-descending :
    (a b : ℤ) → IsInt32 a → IsInt32 b → lt_ℤ b a ≡ ltb (descending a) (descending b)
lt_ℤ-descending (pos a) (pos b) h k = ground arith
lt_ℤ-descending (pos a) (negsuc b) h k = ground arith
lt_ℤ-descending (negsuc a) (pos b) h k = ground arith
lt_ℤ-descending (negsuc a) (negsuc b) h k = ground arith

pub eq_ℤ-eq : (a b : ℤ) → eq_ℤ a b ≡ true → a ≡ b
eq_ℤ-eq (pos a) (pos b) h = ground arith
eq_ℤ-eq (pos a) (negsuc b) h = cc
eq_ℤ-eq (negsuc a) (pos b) h = cc
eq_ℤ-eq (negsuc a) (negsuc b) h = ground arith
