-- ===== src/Hibp/Hex.antt =====
-- Bytes and their two hexadecimal characters, by tables over all bytes.
use hibp.Common.{
  ℕ, zero, suc, ◌+◌, ◌*◌, ◌/◌, ◌%◌, ◌<◌, ◌≡◌, refl, Bool, true, ◌==◌, ==_iff, ◌&&◌, not, ◌||◌,
  bit_and, Bool-cases, inl, inr, bit_or, arith, ltb, ltb→lt,
}
use hibp.Hibp.{make_nibble, make_byte, nibble_to_char, is_upper_hex}

-- A table of all bytes is computed at once: the test `t` holds from 0 on for as long as `limit` says.
passes_until : (ℕ → Bool) → ℕ → Bool
passes_until t zero = true
passes_until t (suc limit) = passes_until t limit && t limit

passes_until-test :
    (t : ℕ → Bool) (limit byte : ℕ) → byte < limit → passes_until t limit ≡ true → t byte ≡ true
unfolding passes_until
passes_until-test t zero byte below passed = absurd (omega arith)
passes_until-test t (suc limit) byte below passed = elim (Bool-cases (byte == limit)) [
  | inl e ↦ let last : byte ≡ limit = ground arith in rw last (ground arith)
  | inr e ↦ passes_until-test t limit byte (ground arith) (ground arith)
]

byte_table :
    passes_until
      (λ b. make_byte (nibble_to_char (b / 16)) (nibble_to_char (bit_and b 0x0f)) == b)
      256
    ≡ true
unfolding passes_until make_byte nibble_to_char
byte_table = refl

-- The two characters of a byte are read back as the byte.
pub make_byte-nibble_to_char :
    (b : ℕ) → b < 256 → make_byte (nibble_to_char (b / 16)) (nibble_to_char (bit_and b 0x0f)) ≡ b
make_byte-nibble_to_char b h = (==_iff _ b).0 (passes_until-test _ 256 b h byte_table)

nibble_table :
    passes_until
      (λ c. not (is_upper_hex c) || (ltb (make_nibble c) 16 && nibble_to_char (make_nibble c) == c))
      256
    ≡ true
unfolding passes_until make_nibble nibble_to_char is_upper_hex
nibble_table = refl

upper_hex-lt : (c : ℕ) → is_upper_hex c ≡ true → c < 256
unfolding is_upper_hex
upper_hex-lt c h = ground arith

nibble_facts :
    (c : ℕ) → is_upper_hex c ≡ true → (make_nibble c < 16) × (nibble_to_char (make_nibble c) ≡ c)
nibble_facts c h = ground (arith, passes_until-test _ 256 c (upper_hex-lt c h) nibble_table)

pack_table :
    passes_until (λ x. bit_or (x / 16 * 16 % 256) (x % 16) == x && bit_and x 0x0f == x % 16) 256
    ≡ true
unfolding passes_until
pack_table = refl

pack_facts :
    (x : ℕ) → x < 256 → (bit_or (x / 16 * 16 % 256) (x % 16) ≡ x) × (bit_and x 0x0f ≡ x % 16)
pack_facts x h = ground (arith, passes_until-test _ 256 x h pack_table)

pub bit_and-low_nibble : (x : ℕ) → x < 256 → bit_and x 0x0f ≡ x % 16
bit_and-low_nibble x h = (pack_facts x h).1

pack_nibbles : (x y : ℕ) → x < 16 → y < 16 → bit_or (x * 16 % 256) y ≡ x * 16 + y
pack_nibbles x y hx hy =
    let high : (x * 16 + y) / 16 * 16 % 256 ≡ x * 16 % 256 = omega arith in
    let low : (x * 16 + y) % 16 ≡ y = omega arith in
    rw (high, low) at (pack_facts (x * 16 + y) (omega arith)).0

make_byte-pack :
    (c d : ℕ)
    → is_upper_hex c ≡ true
    → is_upper_hex d ≡ true
    → make_byte c d ≡ make_nibble c * 16 + make_nibble d
unfolding make_byte
make_byte-pack c d hc hd = pack_nibbles _ _ (nibble_facts c hc).0 (nibble_facts d hd).0

-- The byte of two upper-case characters is written as those characters.
pub nibble_to_char-make_byte :
    (c d : ℕ)
    → is_upper_hex c ≡ true
    → is_upper_hex d ≡ true
    → (nibble_to_char (make_byte c d / 16) ≡ c)
      × (nibble_to_char (bit_and (make_byte c d) 0x0f) ≡ d)
nibble_to_char-make_byte c d hc hd =
    let (small, same) = nibble_facts c hc in
    let (small', same') = nibble_facts d hd in
    let high : (make_nibble c * 16 + make_nibble d) / 16 ≡ make_nibble c = omega arith in
    let low : (make_nibble c * 16 + make_nibble d) % 16 ≡ make_nibble d = omega arith in
    rw
      (
        make_byte-pack c d hc hd,
        bit_and-low_nibble (make_nibble c * 16 + make_nibble d) (omega arith),
        high,
        low,
      )
      (same, same')

char_table : passes_until (λ n. is_upper_hex (nibble_to_char n)) 16 ≡ true
unfolding passes_until nibble_to_char is_upper_hex
char_table = refl

pub nibble_to_char-is_upper_hex : (n : ℕ) → n < 16 → is_upper_hex (nibble_to_char n) ≡ true
nibble_to_char-is_upper_hex n h = passes_until-test _ 16 n h char_table

or_table : passes_until (λ z. ltb (bit_or (z / 256 * 16) (z % 256)) 256) 4096 ≡ true
unfolding passes_until
or_table = refl

or-lt : (x y : ℕ) → y < 256 → bit_or (x * 16 % 256) y < 256
or-lt x y h =
    let high : (x % 16 * 256 + y) / 256 * 16 ≡ x * 16 % 256 = omega arith in
    let low : (x % 16 * 256 + y) % 256 ≡ y = omega arith in
    rw (high, low) at
      (ltb→lt _ _ (passes_until-test _ 4096 (x % 16 * 256 + y) (omega arith) or_table))

make_nibble-lt : (c : ℕ) → make_nibble c < 256
unfolding make_nibble
make_nibble-lt c = ground arith

-- Whatever the characters are, the result is a byte.
pub make_byte-lt : (c d : ℕ) → make_byte c d < 256
unfolding make_byte
make_byte-lt c d = or-lt (make_nibble c) (make_nibble d) (make_nibble-lt d)
