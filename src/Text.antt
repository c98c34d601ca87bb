-- ===== src/Text.antt =====
-- Strings as lists of character codes, and what the sources use of the C++ library to print and
-- read numbers: `std::to_chars`, `std::from_chars` and the format `{:05X}` of fmt.
pub mod Digits
pub mod RoundTrip
pub mod Lines
use hibp.Common.{
  true, false, ◌&&◌, ℕ, zero, suc, ◌+◌, ◌-◌, ◌*◌, ◌/◌, ◌%◌, ◌^◌, Bool, List, [], ◌∷◌, ◌++◌, Option,
  none, some, ltb, leb, ◌==◌, ◌&&◌, if◌then◌else◌, length, replicate, ℤ, pos, negsuc,
}
use Prim.Native.Char.{code}
use Prim.Native.String.{String}

abbrev pub codes : String → List ℕ
codes String.[] = []
codes (String.◌∷◌ letter rest) = code letter ∷ codes rest

-- The digits are 0-9 and A-Z.
unfoldable pub digit_to_char : ℕ → ℕ
digit_to_char d = if ltb d 10 then d + 48 else d + 55

-- Either case is read.
unfoldable pub char_to_digit : ℕ → Option ℕ
char_to_digit c =
    if leb 48 c && leb c 57
    then some (c - 48)
    else if leb 65 c && leb c 90
    then some (c - 55)
    else if leb 97 c && leb c 122
    then some (c - 87)
    else none

-- The digit of `c` in a base, if it has one there.
unfoldable pub digit_in : ℕ → ℕ → Option ℕ
unfolding char_to_digit
digit_in base c = elim (char_to_digit c) [
  | none ↦ none
  | some d ↦ if ltb d base then some d else none
]

-- The fuel bounds the number of digits.
unfoldable pub print_digits : ℕ → ℕ → ℕ → List ℕ
unfolding digit_to_char
print_digits base zero n = []
print_digits base (suc fuel) n =
    let last : List ℕ = digit_to_char (n % base) ∷ [] in
    let rest = print_digits base fuel (n / base) in if ltb n base then last else rest ++ last

-- The value of the digits at the front of a text.
unfoldable pub read_digits : ℕ → ℕ → List ℕ → ℕ
unfolding digit_in
read_digits base acc [] = acc
read_digits base acc (c ∷ cs) = elim (digit_in base c) [
  | none ↦ acc
  | some d ↦ read_digits base (acc * base + d) cs
]

-- `std::to_chars` at a `std::int32_t`, which has ten digits at most.
unfoldable pub to_chars : ℤ → List ℕ
unfolding print_digits
to_chars (pos n) = print_digits 10 10 n
to_chars (negsuc n) = b'-' ∷ print_digits 10 10 (n + 1)

-- Whether a number can begin with `c`.
unfoldable pub starts_number : ℕ → List ℕ → Bool
unfolding digit_in
starts_number base [] = Bool.false
starts_number base (c ∷ cs) = elim (digit_in base c) [ none ↦ Bool.false | some _ ↦ Bool.true ]

-- `std::from_chars` into a `std::int32_t`: where no number stands, or one out of range, the target
-- keeps the value that it had.
from_unsigned : List ℕ → ℤ → ℤ
unfolding starts_number read_digits
from_unsigned text old =
    let n = read_digits 10 0 text in
    if starts_number 10 text then if ltb n (2 ^ 31) then pos n else old else old

from_negative : List ℕ → ℤ → ℤ
unfolding starts_number read_digits
from_negative text old =
    let n = read_digits 10 0 text in
    if starts_number 10 text
    then if leb n (2 ^ 31) then if n == 0 then pos 0 else negsuc (n - 1) else old
    else old

unfoldable pub from_chars : List ℕ → ℤ → ℤ
unfolding from_unsigned from_negative
from_chars [] old = old
from_chars (c ∷ cs) old = if c == b'-' then from_negative cs old else from_unsigned (c ∷ cs) old

-- `std::from_chars` in base 16 into a `std::size_t`.
unfoldable pub from_chars_hex : List ℕ → ℕ → ℕ
unfolding starts_number read_digits
from_chars_hex text old =
    let n = read_digits 16 0 text in
    if starts_number 16 text then if ltb n (2 ^ 64) then n else old else old

-- `fmt::format("{:05X}", n)` at a number of 64 bits.
unfoldable pub format_05X : ℕ → List ℕ
unfolding print_digits
format_05X n = let digits = print_digits 16 16 n in replicate (5 - length digits) b'0' ++ digits

abbrev lengthen : ℕ → List (List ℕ) → List (List ℕ)
lengthen c [] = (c ∷ []) ∷ []
lengthen c (line ∷ lines) = (c ∷ line) ∷ lines

-- What `std::getline` gives, again and again until it fails.
unfoldable pub getlines : List ℕ → List (List ℕ)
getlines [] = []
getlines (c ∷ text) = if c == 10 then [] ∷ getlines text else lengthen c (getlines text)

-- The text that has these lines, each with its newline.
abbrev pub unlines : List (List ℕ) → List ℕ
unlines [] = []
unlines (line ∷ lines) = line ++ 10 ∷ unlines lines

-- `==` of strings.
abbrev pub same_text : List ℕ → List ℕ → Bool
same_text [] [] = true
same_text (a ∷ x) (b ∷ y) = (a == b) && same_text x y
same_text _ _ = false
