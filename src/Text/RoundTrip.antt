-- ===== src/Text/RoundTrip.antt =====
-- `std::from_chars` on what `std::to_chars` and the prefix format print.
use hibp.Common.{
  [], ◌∷◌, ◌==◌, Bool-cases, inl, inr, ℕ, zero, suc, ◌+◌, ◌-◌, ◌^◌, ◌≤◌, ◌<◌, ◌≡◌, refl, true,
  false, List, ◌++◌, some, lt→ltb, ◌==◌, length, replicate, arith, ℤ, pos, negsuc, IsInt32,
}
use hibp.Text.{
  digit_in, print_digits, read_digits, to_chars, from_unsigned, from_negative, starts_number,
  from_chars, from_chars_hex, format_05X,
}
use hibp.Text.Digits.{
  read_digits-print_digits, print_digits-head, length-print_digits-le, length-print_digits_pos,
}

starts_number-print_digits :
    (base : ℕ)
    → 10 ≤ base
    → base ≤ 16
    → (f n : ℕ) → starts_number base (print_digits base (suc f) n) ≡ true
unfolding starts_number
starts_number-print_digits base lo hi f n =
    let (c, cs, e, q) = print_digits-head base lo hi f n in rw (e, q.1, starts_number)

minus-not-IsDigit : (c d : ℕ) → digit_in 10 c ≡ some d → (c == b'-') ≡ false
unfolding digit_in
minus-not-IsDigit c d h = ground arith

from_unsigned-print_digits :
    (n : ℕ) (old : ℤ) → n < 2 ^ 31 → from_unsigned (print_digits 10 10 n) old ≡ pos n
unfolding from_unsigned
from_unsigned-print_digits n old h = rw (
  starts_number-print_digits 10 (omega arith) (omega arith) 9 n,
  read_digits-print_digits 10 (omega arith) (omega arith) 10 n (omega arith),
  lt→ltb n (2 ^ 31) h,
)

from_negative-print_digits :
    (n : ℕ) (old : ℤ) → n < 2 ^ 31 → from_negative (print_digits 10 10 (n + 1)) old ≡ negsuc n
unfolding from_negative
from_negative-print_digits n old h =
    rw
      (
        starts_number-print_digits 10 (omega arith) (omega arith) 9 (n + 1),
        read_digits-print_digits 10 (omega arith) (omega arith) 10 (n + 1) (omega arith),
      )
      (ground arith)

from_chars-positive : (n : ℕ) (old : ℤ) → n < 2 ^ 31 → from_chars (print_digits 10 10 n) old ≡ pos n
unfolding from_chars
from_chars-positive n old h =
    let (c, cs, e, q) = print_digits-head 10 (omega arith) (omega arith) 9 n in
    rw e (rw (minus-not-IsDigit c q.0 q.1) (rw (← e) (from_unsigned-print_digits n old h)))

-- `from_chars` reads every 32-bit count back from what `to_chars` makes of it, whatever the target
-- held before.
pub from_chars-to_chars : (v old : ℤ) → IsInt32 v → from_chars (to_chars v) old ≡ v
from_chars-to_chars (pos n) old h = unfold to_chars in from_chars-positive n old h
from_chars-to_chars (negsuc n) old h =
    unfold to_chars from_chars in from_negative-print_digits n old h

pub length-to_chars-le : (v : ℤ) → length (to_chars v) ≤ 11
unfolding to_chars
length-to_chars-le (pos n) =
    omega (arith, length-print_digits-le 10 (omega arith) (omega arith) 10 n)
length-to_chars-le (negsuc n) =
    omega (arith, length-print_digits-le 10 (omega arith) (omega arith) 10 (n + 1))

pub length-to_chars_pos : (v : ℤ) → 1 ≤ length (to_chars v)
unfolding to_chars
length-to_chars_pos (pos n) = length-print_digits_pos 10 (omega arith) (omega arith) 9 n
length-to_chars_pos (negsuc n) = omega arith

read_digits-zeros :
    (k : ℕ) (text : List ℕ) → read_digits 16 0 (replicate k b'0' ++ text) ≡ read_digits 16 0 text
unfolding read_digits
read_digits-zeros zero text = refl
read_digits-zeros (suc k) text = read_digits-zeros k text

starts_number-zeros :
    (k : ℕ) (text : List ℕ)
    → starts_number 16 text ≡ true
    → starts_number 16 (replicate k b'0' ++ text) ≡ true
unfolding starts_number
starts_number-zeros zero text h = h
starts_number-zeros (suc k) text h = refl

-- `from_chars` in base 16 reads every 64-bit index back from its prefix of five or more digits,
-- whatever the target held before.
pub from_chars_hex-format_05X : (n old : ℕ) → n < 2 ^ 64 → from_chars_hex (format_05X n) old ≡ n
unfolding from_chars_hex format_05X
from_chars_hex-format_05X n old h =
    let digits = print_digits 16 16 n in
    rw
      (
        read_digits-zeros (5 - length digits) digits,
        read_digits-print_digits 16 (omega arith) (omega arith) 16 n (omega arith),
        starts_number-zeros (5 - length digits) digits
            (starts_number-print_digits 16 (omega arith) (omega arith) 15 n),
        lt→ltb n (2 ^ 64) h,
      )
      refl

from_unsigned-IsInt32 : (text : List ℕ) (old : ℤ) → IsInt32 old → IsInt32 (from_unsigned text old)
unfolding from_unsigned
from_unsigned-IsInt32 text old h = ground arith

from_negative-IsInt32 : (text : List ℕ) (old : ℤ) → IsInt32 old → IsInt32 (from_negative text old)
unfolding from_negative
from_negative-IsInt32 text old h = ground arith

-- What is read is always in range, if the target was.
pub from_chars-IsInt32 : (text : List ℕ) (old : ℤ) → IsInt32 old → IsInt32 (from_chars text old)
from_chars-IsInt32 [] old h = unfold from_chars in h
from_chars-IsInt32 (c ∷ cs) old h =
    unfold from_chars in
    elim (Bool-cases (c == b'-')) [
      | inl e ↦ rw e (from_negative-IsInt32 cs old h)
      | inr e ↦ rw e (from_unsigned-IsInt32 (c ∷ cs) old h)
    ]
