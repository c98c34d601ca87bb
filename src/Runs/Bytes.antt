-- ===== src/Runs/Bytes.antt =====
-- Byte arrays, hash texts and numbers.
use hibp.Common.{
  ℕ, ◌≤◌, ◌≡◌, refl, List, [], ◌∷◌, Ordering, compare, arith, All, pos, negsuc, take, sign, length,
}
use Prim.{tt}
use hibp.ArrCmp.{array_compare, three_way, three_way_int}
use hibp.ArrCmp.Isa.{sse, avx2}
use hibp.ArrCmp.Endian.{little, big}
use hibp.ArrCmp.Agreement.{array_compare-three_way-lex, sign-array_compare-three_way_int}
use hibp.Hibp.{PawnedPw, IsRecord, IsByte, of_text, to_string, write_hash, is_valid_hash, sha1t64}
use hibp.Hibp.Order.{key, pw_compare, pw_compare-key}
use hibp.Hibp.RoundTrip.{of_text-to_string}
use hibp.Hibp.Valid.{write_hash-of_text, length-to_string-le}
use hibp.Hibp.Truncated.{of_text-truncates}
use hibp.Text.{to_chars, from_chars, codes}
use hibp.Text.RoundTrip.{from_chars-to_chars}

abbrev pub zeros : List ℕ
zeros = 0 ∷ 0 ∷ 0 ∷ 0 ∷ 0 ∷ 0 ∷ 0 ∷ 0 ∷ 0 ∷ 0 ∷ 0 ∷ 0 ∷ 0 ∷ 0 ∷ 0 ∷ 0 ∷ 0 ∷ 0 ∷ []

abbrev pub low : List ℕ
low = 1 ∷ 9 ∷ zeros

abbrev pub high : List ℕ
high = 1 ∷ 10 ∷ zeros

zeros-IsByte : All IsByte zeros
zeros-IsByte = (
  omega arith,
  (
    omega arith,
    (
      omega arith,
      (
        omega arith,
        (
          omega arith,
          (
            omega arith,
            (
              omega arith,
              (
                omega arith,
                (
                  omega arith,
                  (
                    omega arith,
                    (
                      omega arith,
                      (
                        omega arith,
                        (
                          omega arith,
                          (
                            omega arith,
                            (omega arith, (omega arith, (omega arith, (omega arith, tt)))),
                          ),
                        ),
                      ),
                    ),
                  ),
                ),
              ),
            ),
          ),
        ),
      ),
    ),
  ),
)

low-IsByte : All IsByte low
low-IsByte = (omega arith, (omega arith, zeros-IsByte))

high-IsByte : All IsByte high
high-IsByte = (omega arith, (omega arith, zeros-IsByte))

array_compare-three_way-lex_example :
    array_compare sse (three_way sse little) 20 low high ≡ Ordering.lt
array_compare-three_way-lex_example =
    array_compare-three_way-lex sse little low high refl low-IsByte high-IsByte

sign-array_compare-three_way_int_example :
    sign (array_compare avx2 (three_way_int avx2 little) 20 high low) ≡ Ordering.gt
sign-array_compare-three_way_int_example =
    sign-array_compare-three_way_int avx2 little high low refl high-IsByte low-IsByte

abbrev pub low_pw : PawnedPw
low_pw = record { hash = low; count = pos 42 }

abbrev pub high_pw : PawnedPw
high_pw = record { hash = high; count = negsuc 0 }

pub low_pw-IsRecord : IsRecord 20 low_pw
low_pw-IsRecord = record { sized = refl; bytes = low-IsByte; counted = omega arith }

pub high_pw-IsRecord : IsRecord 20 high_pw
high_pw-IsRecord = record { sized = refl; bytes = high-IsByte; counted = omega arith }

pw_compare-key_example : pw_compare sse big 20 low_pw high_pw ≡ compare (key low_pw) (key high_pw)
pw_compare-key_example = pw_compare-key sse big 20 low_pw high_pw low_pw-IsRecord high_pw-IsRecord

of_text-to_string_example : of_text 20 (to_string low_pw) ≡ low_pw
of_text-to_string_example = of_text-to_string 20 low_pw low_pw-IsRecord

write_hash-of_text_example : write_hash (of_text 2 (codes "0AFF")).hash ≡ codes "0AFF"
unfolding is_valid_hash
write_hash-of_text_example = write_hash-of_text 2 (codes "0AFF") refl

length-to_string-le_example : length (to_string low_pw) ≤ 52
length-to_string-le_example = length-to_string-le 20 low_pw (omega arith) low_pw-IsRecord

of_text-truncates_example :
    of_text sha1t64 (to_string low_pw) ≡ record { hash = take 8 low; count = pos 42 }
of_text-truncates_example = of_text-truncates low_pw low_pw-IsRecord

from_chars-to_chars_example : from_chars (to_chars (negsuc 41)) (pos 7) ≡ negsuc 41
from_chars-to_chars_example = from_chars-to_chars (negsuc 41) (pos 7) (omega arith)
