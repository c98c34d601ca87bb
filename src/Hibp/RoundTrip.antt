-- ===== src/Hibp/RoundTrip.antt =====
-- The text form of a record and the constructor from text.
use hibp.Common.{
  ℕ, suc, ◌+◌, ◌*◌, ◌/◌, ◌<◌, ◌≡◌, refl, ap, List, [], ◌∷◌, ◌++◌, append_assoc, ltb, lt→ltb,
  if◌then◌else◌, bit_and, length, length-append, get_or, get_or-append, drop-append, drop, All,
  arith, ℤ, negsuc, IsInt32,
}
use hibp.Text.{to_chars, from_chars}
use hibp.Text.RoundTrip.{from_chars-to_chars, length-to_chars_pos}
use hibp.Hibp.{
  IsByte, make_byte, nibble_to_char, PawnedPw, read_hash, count_index, of_text, write_hash,
  to_string, IsRecord,
}
use hibp.Hibp.Hex.{make_byte-nibble_to_char}

pub length-write_hash : (hs : List ℕ) → length (write_hash hs) ≡ 2 * length hs
unfolding write_hash
length-write_hash [] = omega arith
length-write_hash (h ∷ hs) = omega (arith, length-write_hash hs)

-- The two characters behind `front` are those that the loop reads at its index.
pub read_hash_step :
    (k i : ℕ) (front : List ℕ) (c d : ℕ) (rest : List ℕ)
    → length front ≡ 2 * i
    → read_hash (suc k) i (front ++ c ∷ d ∷ rest)
      ≡ make_byte c d ∷ read_hash k (i + 1) (front ++ c ∷ d ∷ rest)
unfolding read_hash
read_hash_step k i front c d rest e =
    let first : get_or (front ++ c ∷ d ∷ rest) (2 * i) 0 ≡ c =
      get_or-append front c (d ∷ rest) (2 * i) 0 e in
    let grown : length (front ++ c ∷ []) ≡ 2 * i + 1 =
      omega (arith, length-append front (c ∷ [])) in
    let second : get_or (front ++ c ∷ d ∷ rest) (2 * i + 1) 0 ≡ d =
      rw (append_assoc front (c ∷ []) (d ∷ rest)) at
        (get_or-append (front ++ c ∷ []) d rest (2 * i + 1) 0 grown) in
    rw (first, second)

pub read_hash-write_hash :
    (hs front rest : List ℕ) (i : ℕ)
    → All IsByte hs
    → length front ≡ 2 * i
    → read_hash (length hs) i (front ++ (write_hash hs ++ rest)) ≡ hs
unfolding write_hash
read_hash-write_hash [] front rest i all e = unfold read_hash in refl
read_hash-write_hash (h ∷ hs) front rest i all e =
    let c : ℕ = nibble_to_char (h / 16) in
    let d : ℕ = nibble_to_char (bit_and h 0x0f) in
    let grown : length (front ++ c ∷ d ∷ []) ≡ 2 * (i + 1) =
      omega (arith, length-append front (c ∷ d ∷ [])) in
    let later = read_hash-write_hash hs (front ++ c ∷ d ∷ []) rest (i + 1) all.1 grown in
    rw
      (
        read_hash_step (length hs) i front c d (write_hash hs ++ rest) e,
        make_byte-nibble_to_char h all.0,
      )
      (ap (◌∷◌ h) (rw append_assoc at later))

count_index-to_string :
    (n : ℕ) (hs count : List ℕ)
    → length hs ≡ n
    → count_index n (write_hash hs ++ b':' ∷ count) ≡ n * 2 + 1
unfolding count_index
count_index-to_string n hs count e =
    let colon =
      get_or-append (write_hash hs) b':' count (n * 2) 0 (omega (arith, length-write_hash hs)) in
    ground (arith, colon)

pub behind_colon :
    (n : ℕ) (hs count : List ℕ)
    → length hs ≡ n
    → drop (n * 2 + 1) (write_hash hs ++ b':' ∷ count) ≡ count
behind_colon n hs count e =
    let grown : length (write_hash hs ++ b':' ∷ []) ≡ n * 2 + 1 =
      omega (arith, length-write_hash hs, length-append (write_hash hs) (b':' ∷ [])) in
    rw (append_assoc (write_hash hs) (b':' ∷ []) count) at
      (drop-append (write_hash hs ++ b':' ∷ []) count (n * 2 + 1) grown)

-- The value that the constructor gives to `count`.
abbrev pub read_count : ℕ → List ℕ → ℤ
read_count n text =
    if ltb (count_index n text) (length text)
    then from_chars (drop (count_index n text) text) (negsuc 0)
    else negsuc 0

read_count-to_string :
    (n : ℕ) (hs : List ℕ) (v : ℤ)
    → length hs ≡ n
    → IsInt32 v
    → read_count n (write_hash hs ++ b':' ∷ to_chars v) ≡ v
read_count-to_string n hs v e h =
    let longer : n * 2 + 1 < length (write_hash hs ++ b':' ∷ to_chars v) = omega (
      arith,
      length-write_hash hs,
      length-append (write_hash hs) (b':' ∷ to_chars v),
      length-to_chars_pos v,
    ) in
    rw
      (
        count_index-to_string n hs (to_chars v) e,
        lt→ltb _ _ longer,
        behind_colon n hs (to_chars v) e,
      )
      (from_chars-to_chars v (negsuc 0) h)

-- The constructor reads every well-formed record back from the text that `to_string` makes of it.
pub of_text-to_string : (n : ℕ) (pw : PawnedPw) → IsRecord n pw → of_text n (to_string pw) ≡ pw
of_text-to_string n pw r =
    let rest : List ℕ = b':' ∷ to_chars pw.count in
    let bytes : read_hash n 0 (write_hash pw.hash ++ rest) ≡ pw.hash =
      rw r.sized at (read_hash-write_hash pw.hash [] rest 0 r.bytes refl) in
    let number = read_count-to_string n pw.hash pw.count r.sized r.counted in
    unfold of_text to_string in λ i. record { hash = bytes i; count = number i }
