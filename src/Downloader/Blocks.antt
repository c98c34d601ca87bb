-- ===== src/Downloader/Blocks.antt =====
-- The prefix of a file as the first 20 bits of the hashes of its records.
use hibp.Common.{
  ℕ, ◌+◌, ◌-◌, ◌*◌, ◌/◌, ◌%◌, ◌^◌, ◌≤◌, ◌<◌, ◌≡◌, inl, inr, refl, sym, ap, ◌∙◌, true, List, [], ◌∷◌,
  some, take, length, All, arith, ltb, lt→ltb, Bool-cases, bit_and,
}
use native.Mathlib.Nat.{zero-div}
use hibp.Text.{format_05X, digit_in, read_digits, starts_number, from_chars_hex}
use hibp.Text.RoundTrip.{from_chars_hex-format_05X}
use hibp.ArrCmp.{load_be}
use hibp.Hibp.{PawnedPw, IsRecord, to_string, nibble_to_char}
use hibp.Hibp.Hex.{bit_and-low_nibble}
use hibp.Hibp.Order.{key, load_be-take}
use hibp.Download.Lines.{StartsWith}
use hibp.Toc.Prefix.{div-le-div}

digit_in-nibble_to_char : (n : ℕ) → n < 16 → digit_in 16 (nibble_to_char n) ≡ some n
unfolding digit_in nibble_to_char
digit_in-nibble_to_char n h = ground arith

read_digits-nibble :
    (acc n : ℕ) (text : List ℕ)
    → n < 16
    → read_digits 16 acc (nibble_to_char n ∷ text) ≡ read_digits 16 (acc * 16 + n) text
unfolding read_digits
read_digits-nibble acc n text h = rw (read_digits, digit_in-nibble_to_char n h) refl

read_digits-nil : (acc : ℕ) → read_digits 16 acc [] ≡ acc
unfolding read_digits
read_digits-nil acc = refl

starts_number-nibble :
    (n : ℕ) (text : List ℕ) → n < 16 → starts_number 16 (nibble_to_char n ∷ text) ≡ true
unfolding starts_number
starts_number-nibble n text h = rw (starts_number, digit_in-nibble_to_char n h) refl

-- The number that five hexadecimal characters stand for.
from_chars_hex-nibbles :
    (a b c d e : ℕ)
    → a < 16
    → b < 16
    → c < 16
    → d < 16
    → e < 16
    → from_chars_hex
        (nibble_to_char a
          ∷ nibble_to_char b
          ∷ nibble_to_char c
          ∷ nibble_to_char d
          ∷ nibble_to_char e
          ∷ [])
        0
      ≡ (((a * 16 + b) * 16 + c) * 16 + d) * 16 + e
unfolding from_chars_hex
from_chars_hex-nibbles a b c d e ha hb hc hd he =
    let text =
      nibble_to_char a
      ∷ nibble_to_char b
      ∷ nibble_to_char c
      ∷ nibble_to_char d
      ∷ nibble_to_char e
      ∷ [] in
    let value : read_digits 16 0 text ≡ (((a * 16 + b) * 16 + c) * 16 + d) * 16 + e =
      rw
        (
          read_digits-nibble 0 a _ ha,
          read_digits-nibble _ b _ hb,
          read_digits-nibble _ c _ hc,
          read_digits-nibble _ d _ hd,
          read_digits-nibble _ e _ he,
          read_digits-nil,
        )
        (omega arith) in
    let small : ltb ((((a * 16 + b) * 16 + c) * 16 + d) * 16 + e) (2 ^ 64) ≡ true =
      lt→ltb _ (2 ^ 64) (omega arith) in
    rw (from_chars_hex, value, starts_number-nibble a _ ha, small) refl

module _ (hash_size : ℕ) (large : 3 ≤ hash_size) where
  -- The first 20 bits of a hash, of a number with as many bytes.
  abbrev pub block : ℕ → ℕ
  block k = k / 256 ^ (hash_size - 3) / 16

  take-to_string :
      (x y z : ℕ) (rest : List ℕ) (pw : PawnedPw)
      → pw.hash ≡ x ∷ y ∷ z ∷ rest
      → take 5 (to_string pw)
        ≡ nibble_to_char (x / 16)
          ∷ nibble_to_char (bit_and x 0x0f)
          ∷ nibble_to_char (y / 16)
          ∷ nibble_to_char (bit_and y 0x0f)
          ∷ nibble_to_char (z / 16)
          ∷ []
  unfolding to_string
  take-to_string x y z rest pw e = rw (to_string, e) refl

  first_bytes :
      (x y z : ℕ) (rest : List ℕ) (pw : PawnedPw)
      → pw.hash ≡ x ∷ y ∷ z ∷ rest
      → IsRecord hash_size pw
      → (x * 256 + y) * 256 + z ≡ key pw / 256 ^ (hash_size - 3)
  unfolding load_be
  first_bytes x y z rest pw e v =
      let front : load_be (take 3 pw.hash) ≡ (x * 256 + y) * 256 + z = rw e (omega arith) in
      sym front ∙ load_be-take 3 pw.hash v.bytes ∙ ap (λ n. key pw / 256 ^ (n - 3)) v.sized

  prefix-block :
      (pw : PawnedPw) (hash : List ℕ)
      → pw.hash ≡ hash
      → IsRecord hash_size pw
      → from_chars_hex (take 5 (to_string pw)) 0 ≡ block (key pw)
  prefix-block pw [] e v = absurd (omega (arith, v.sized, ap (length {0}) e))
  prefix-block pw (x ∷ []) e v = absurd (omega (arith, v.sized, ap (length {0}) e))
  prefix-block pw (x ∷ y ∷ []) e v = absurd (omega (arith, v.sized, ap (length {0}) e))
  prefix-block pw (x ∷ y ∷ z ∷ rest) e v =
      let (bx, (by, (bz, others))) : All (λ b. b < 256) (x ∷ y ∷ z ∷ rest) = rw e at v.bytes in
      let digits =
        rw (bit_and-low_nibble x bx, bit_and-low_nibble y by) at (take-to_string x y z rest pw e) in
      ap (λ t. from_chars_hex t 0) digits
      ∙ from_chars_hex-nibbles (x / 16) (x % 16) (y / 16) (y % 16) (z / 16) (omega arith)
          (omega arith) (omega arith) (omega arith) (omega arith)
      ∙ sum x y z by bz
      ∙ ap (λ n. n / 16) (first_bytes x y z rest pw e v)
    where
      sum :
          (x y z : ℕ)
          → y < 256
          → z < 256
          → (((x / 16 * 16 + x % 16) * 16 + y / 16) * 16 + y % 16) * 16 + z / 16
            ≡ ((x * 256 + y) * 256 + z) / 16
      sum x y z hy hz = omega arith

  -- The records of the file of an index have it as their block.
  pub StartsWith-block :
      (i : ℕ) (pw : PawnedPw)
      → i < 2 ^ 64
      → IsRecord hash_size pw
      → StartsWith (format_05X i) pw
      → block (key pw) ≡ i
  StartsWith-block i pw h v s =
      sym (prefix-block pw pw.hash refl v)
      ∙ ap (λ t. from_chars_hex t 0) s
      ∙ from_chars_hex-format_05X i 0 h

  pub block-lt : (a b : ℕ) → block a < block b → a ≤ b
  block-lt a b h = elim (Bool-cases (ltb b a)) [
    | inl e ↦
        let whole = div-le-div (256 ^ (hash_size - 3)) b a (ground arith) in
        absurd (
          omega
            (arith, div-le-div 16 (b / 256 ^ (hash_size - 3)) (a / 256 ^ (hash_size - 3)) whole))
    | inr e ↦ ground arith
  ]

  pub block-zero : block 0 ≡ 0
  block-zero = rw (zero-div (256 ^ (hash_size - 3)), zero-div 16) refl
