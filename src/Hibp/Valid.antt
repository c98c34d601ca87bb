-- ===== src/Hibp/Valid.antt =====
-- `is_valid_hash` of include/hibp.hpp, and what the constructor makes of a text.
use hibp.Common.{
  ℕ, zero, suc, ◌+◌, ◌*◌, ◌/◌, ◌≤◌, ◌≡◌, refl, ap, true, List, [], ◌∷◌, ◌++◌, append_assoc, ltb,
  bit_and, length, length-append, get_or, drop, All, arith, negsuc, IsInt32, Bool-cases, inl, inr,
}
use hibp.Text.{to_chars}
use hibp.Text.RoundTrip.{from_chars-IsInt32, length-to_chars-le}
use hibp.Hibp.{
  IsByte, PawnedPw, read_hash, count_index, of_text, write_hash, to_string, all_upper_hex,
  is_valid_hash, IsRecord,
}
use hibp.Hibp.Hex.{
  nibble_to_char-make_byte, nibble_to_char-is_upper_hex, make_byte-lt, bit_and-low_nibble,
}
use hibp.Hibp.RoundTrip.{length-write_hash, read_hash_step, read_count}

write_hash-read_hash :
    (n : ℕ) (text front : List ℕ) (i : ℕ)
    → length text ≡ n * 2
    → all_upper_hex text ≡ true
    → length front ≡ 2 * i
    → write_hash (read_hash n i (front ++ text)) ≡ text
unfolding all_upper_hex write_hash
write_hash-read_hash zero [] front i e valid f = unfold read_hash in refl
write_hash-read_hash zero (c ∷ text) front i e valid f = absurd (omega arith)
write_hash-read_hash (suc n) [] front i e valid f = absurd (omega arith)
write_hash-read_hash (suc n) (c ∷ []) front i e valid f = absurd (omega arith)
write_hash-read_hash (suc n) (c ∷ d ∷ text) front i e valid f =
    let (same_c, same_d) = nibble_to_char-make_byte c d (ground arith) (ground arith) in
    let grown : length (front ++ c ∷ d ∷ []) ≡ 2 * (i + 1) =
      omega (arith, length-append front (c ∷ d ∷ [])) in
    let later =
      write_hash-read_hash n text (front ++ c ∷ d ∷ []) (i + 1) (omega arith) (ground arith)
        grown in
    rw (read_hash_step n i front c d text f, same_c, same_d)
      (ap (λ r. c ∷ d ∷ r) (rw append_assoc at later))

-- A text that the check for a valid hash accepts is, once read, written back as it was.
pub write_hash-of_text :
    (n : ℕ) (text : List ℕ) → is_valid_hash n text ≡ true → write_hash (of_text n text).hash ≡ text
unfolding is_valid_hash of_text
write_hash-of_text n text valid =
    write_hash-read_hash n text [] 0 (ground arith) (ground arith) (omega arith)

pub all_upper_hex-write_hash : (hs : List ℕ) → All IsByte hs → all_upper_hex (write_hash hs) ≡ true
unfolding write_hash all_upper_hex
all_upper_hex-write_hash [] all = refl
all_upper_hex-write_hash (h ∷ hs) all =
    rw
      (
        nibble_to_char-is_upper_hex (h / 16) (omega arith),
        nibble_to_char-is_upper_hex (bit_and h 0x0f) (omega (arith, bit_and-low_nibble h all.0)),
      )
      (all_upper_hex-write_hash hs all.1)

-- The hash part of the text of every well-formed record passes the check for a valid hash.
pub is_valid_hash-write_hash :
    (n : ℕ) (pw : PawnedPw) → IsRecord n pw → is_valid_hash n (write_hash pw.hash) ≡ true
unfolding is_valid_hash
is_valid_hash-write_hash n pw r =
    ground (arith, length-write_hash pw.hash, all_upper_hex-write_hash pw.hash r.bytes)

read_hash-IsByte :
    (k i : ℕ) (text : List ℕ) → (length (read_hash k i text) ≡ k) × All IsByte (read_hash k i text)
unfolding read_hash
read_hash-IsByte zero i text = (refl, tt)
read_hash-IsByte (suc k) i text =
    let (n, all) = read_hash-IsByte k (i + 1) text in
    (ap suc n, (make_byte-lt (get_or text (2 * i) 0) (get_or text (2 * i + 1) 0), all))

read_count-IsInt32 : (n : ℕ) (text : List ℕ) → IsInt32 (read_count n text)
read_count-IsInt32 n text = elim (Bool-cases (ltb (count_index n text) (length text))) [
  | inl e ↦ rw e (from_chars-IsInt32 (drop (count_index n text) text) (negsuc 0) (omega arith))
  | inr e ↦ rw e (omega arith)
]

-- Whatever the line, the constructor makes a well-formed record of it: of the right size, of bytes,
-- with a count of 32 bits.
pub of_text-IsRecord : (n : ℕ) (text : List ℕ) → IsRecord n (of_text n text)
unfolding of_text
of_text-IsRecord n text =
    let (size, all) = read_hash-IsByte n 0 text in
    record { sized = size; bytes = all; counted = read_count-IsInt32 n text }

-- The text of every well-formed record with a hash of at most 20 bytes has at most 52 characters,
-- so it fits the buffer of 60.
pub length-to_string-le :
    (n : ℕ) (pw : PawnedPw) → n ≤ 20 → IsRecord n pw → length (to_string pw) ≤ 52
length-to_string-le n pw h r =
    unfold to_string in
    omega (
      arith,
      length-write_hash pw.hash,
      length-to_chars-le pw.count,
      length-append (write_hash pw.hash) (b':' ∷ to_chars pw.count),
    )
