-- ===== src/Hibp/Truncated.antt =====
-- The line of a full sha1 record, read as a sha1t64 record.
use hibp.Common.{
  get_or-append_left, ℕ, zero, suc, ◌*◌, ◌≤◌, ◌<◌, ◌≡◌, refl, sym, ◌∙◌, true, false, List, [], ◌∷◌,
  ◌++◌, append_assoc, lt→ltb, ◌==◌, length, length-append, get_or, take, drop, take-append-drop,
  length-take, All, All-take, arith, ℤ, negsuc, IsInt32,
}
use hibp.Text.{to_chars}
use hibp.Text.RoundTrip.{from_chars-to_chars, length-to_chars_pos}
use hibp.Hibp.{
  IsByte, PawnedPw, read_hash, count_index, of_text, write_hash, to_string, all_upper_hex,
  is_upper_hex, IsRecord, sha1t64, sha1,
}
use hibp.Hibp.RoundTrip.{behind_colon, length-write_hash, read_hash-write_hash, read_count}
use hibp.Hibp.Valid.{all_upper_hex-write_hash}

write_hash-append : (xs ys : List ℕ) → write_hash (xs ++ ys) ≡ write_hash xs ++ write_hash ys
unfolding write_hash
write_hash-append [] ys = refl
write_hash-append (x ∷ xs) ys = rw (write_hash-append xs ys)

all_upper_hex-get_or :
    (t : List ℕ) (i : ℕ)
    → all_upper_hex t ≡ true
    → i < length t
    → is_upper_hex (get_or t i 0) ≡ true
unfolding all_upper_hex
all_upper_hex-get_or [] i e h = absurd (omega arith)
all_upper_hex-get_or (c ∷ t) zero e h = ground arith
all_upper_hex-get_or (c ∷ t) (suc i) e h = all_upper_hex-get_or t i (ground arith) (omega arith)

-- No character of a hash is the colon.
not_colon :
    (hs rest : List ℕ) (i : ℕ)
    → All IsByte hs
    → i < 2 * length hs
    → (get_or (write_hash hs ++ rest) i 0 == b':') ≡ false
unfolding is_upper_hex
not_colon hs rest i all h =
    let inside : i < length (write_hash hs) = omega (arith, length-write_hash hs) in
    let digit = all_upper_hex-get_or (write_hash hs) i (all_upper_hex-write_hash hs all) inside in
    rw (get_or-append_left (write_hash hs) rest i 0 inside) (ground (arith, digit))

count_index-sha1t64 :
    (hs count : List ℕ)
    → length hs ≡ 20
    → All IsByte hs
    → count_index 8 (write_hash hs ++ b':' ∷ count) ≡ 41
unfolding count_index
count_index-sha1t64 hs count e all = ground (
  arith,
  not_colon hs (b':' ∷ count) 16 all (omega arith),
  length-write_hash hs,
  length-append (write_hash hs) (b':' ∷ count),
)

read_count-sha1t64 :
    (hs : List ℕ) (v : ℤ)
    → length hs ≡ 20
    → All IsByte hs
    → IsInt32 v
    → read_count 8 (write_hash hs ++ b':' ∷ to_chars v) ≡ v
read_count-sha1t64 hs v e all h =
    let longer : 41 < length (write_hash hs ++ b':' ∷ to_chars v) = omega (
      arith,
      length-write_hash hs,
      length-append (write_hash hs) (b':' ∷ to_chars v),
      length-to_chars_pos v,
    ) in
    rw
      (
        count_index-sha1t64 hs (to_chars v) e all,
        lt→ltb _ _ longer,
        behind_colon 20 hs (to_chars v) e,
      )
      (from_chars-to_chars v (negsuc 0) h)

pub read_hash-take :
    (k : ℕ) (hs rest : List ℕ)
    → k ≤ length hs
    → All IsByte hs
    → read_hash k 0 (write_hash hs ++ rest) ≡ take k hs
read_hash-take k hs rest h all =
    let front =
      read_hash-write_hash (take k hs) [] (write_hash (drop k hs) ++ rest) 0
        (All-take IsByte k hs all) refl in
    let cut : length (take k hs) ≡ k = omega (arith, length-take k hs) in
    let whole : write_hash (take k hs) ++ (write_hash (drop k hs) ++ rest) ≡ write_hash hs ++ rest =
      sym (append_assoc (write_hash (take k hs)) (write_hash (drop k hs)) rest)
      ∙ rw (← write_hash-append, take-append-drop k hs) in
    rw (cut, whole) at front

-- The text of every well-formed sha1 record, read as a sha1t64 record, gives the first 64 bits of its
-- hash and the same count.
pub of_text-truncates :
    (pw : PawnedPw)
    → IsRecord sha1 pw
    → of_text sha1t64 (to_string pw) ≡ record { hash = take 8 pw.hash; count = pw.count }
of_text-truncates pw r =
    let bytes =
      read_hash-take 8 pw.hash (b':' ∷ to_chars pw.count) (omega (arith, r.sized)) r.bytes in
    let number = read_count-sha1t64 pw.hash pw.count r.sized r.bytes r.counted in
    unfold of_text to_string in λ i. record { hash = bytes i; count = number i }
