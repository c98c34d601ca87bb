-- ===== src/Resume/Served.antt =====
-- The texts that src/dnl/resume.cpp takes apart: those of a record, and of a file of the server.
use hibp.Common.{
  ℕ, ◌+◌, ◌*◌, ◌≤◌, ◌≡◌, ◌≢◌, refl, sym, ap, ◌∙◌, Bool, true, false, List, [], ◌∷◌, ◌++◌,
  append_assoc, none, some, ◌==◌, length, length-take, take, drop, take-append, take-append-drop,
  drop-append, map, All, arith, ℤ, pos, negsuc,
}
use Prim.{tt}
use hibp.Text.{same_text, to_chars, print_digits, digit_in}
use hibp.Text.Digits.{IsDigit, print_digits-IsDigit}
use hibp.Hibp.{PawnedPw, IsRecord, to_string, write_hash}
use hibp.Hibp.RoundTrip.{length-write_hash}
use hibp.Download.Lines.{file_text, suffix_of}
use hibp.Resume.{find_last_of}

abbrev pub NoColon : List ℕ → Type 0
NoColon text = All (λ c. c ≢ 58) text

digit-NoColon : (c d : ℕ) → digit_in 10 c ≡ some d → c ≢ 58
unfolding digit_in
digit-NoColon c d e q = ground arith

digits-NoColon : (text : List ℕ) → All (IsDigit 10) text → NoColon text
digits-NoColon [] h = tt
digits-NoColon (c ∷ text) h = ((λ q. digit-NoColon c h.0.0 h.0.1 q), digits-NoColon text h.1)

pub to_chars-NoColon : (v : ℤ) → NoColon (to_chars v)
unfolding to_chars
to_chars-NoColon (pos n) =
    digits-NoColon (print_digits 10 10 n) (print_digits-IsDigit 10 (omega arith) (omega arith) 10 n)
to_chars-NoColon (negsuc n) = (
  (λ q. omega (arith, q)),
  digits-NoColon (print_digits 10 10 (n + 1))
      (print_digits-IsDigit 10 (omega arith) (omega arith) 10 (n + 1)),
)

pub find_last_of-none : (text : List ℕ) → NoColon text → find_last_of 58 text ≡ none
unfolding find_last_of
find_last_of-none [] h = refl
find_last_of-none (c ∷ text) h =
    let other : (c == 58) ≡ false = ground (arith, h.0) in
    rw (find_last_of-none text h.1, other) refl

pub find_last_of-colon :
    (front tail : List ℕ)
    → NoColon tail
    → find_last_of 58 (front ++ 58 ∷ tail) ≡ some (length front)
unfolding find_last_of
find_last_of-colon [] tail h = rw (find_last_of-none tail h) refl
find_last_of-colon (c ∷ front) tail h = rw (find_last_of-colon front tail h) (ap some (omega arith))

pub same_text_refl : (text : List ℕ) → same_text text text ≡ true
same_text_refl [] = refl
same_text_refl (c ∷ text) =
    let same : (c == c) ≡ true = ground arith in rw (same, same_text_refl text) refl

-- What is before the last line of a file.
abbrev pub ended : List (List ℕ) → List ℕ
ended [] = []
ended (line ∷ lines) = line ++ 13 ∷ 10 ∷ ended lines

-- What is behind it.
abbrev pub line_end : Bool → List ℕ
line_end true = 13 ∷ 10 ∷ []
line_end false = []

pub line_end-NoColon : (terminated : Bool) → NoColon (line_end terminated)
line_end-NoColon true = ((λ q. omega (arith, q)), ((λ q. omega (arith, q)), tt))
line_end-NoColon false = tt

pub append-nothing : (text : List ℕ) → text ≡ text ++ []
append-nothing [] = refl
append-nothing (c ∷ text) = ap (◌∷◌ c) (append-nothing text)

file_text-last :
    (terminated : Bool) (lines : List (List ℕ)) (last : List ℕ)
    → file_text terminated (lines ++ last ∷ []) ≡ ended lines ++ (last ++ line_end terminated)
file_text-last true [] last = refl
file_text-last false [] last = append-nothing last
file_text-last terminated (line ∷ []) last =
    ap (λ t. line ++ 13 ∷ 10 ∷ t) (file_text-last terminated [] last)
    ∙ sym (append_assoc line (13 ∷ 10 ∷ []) (last ++ line_end terminated))
file_text-last terminated (line ∷ next ∷ lines) last =
    ap (λ t. line ++ 13 ∷ 10 ∷ t) (file_text-last terminated (next ∷ lines) last)
    ∙ sym (append_assoc line (13 ∷ 10 ∷ ended (next ∷ lines)) (last ++ line_end terminated))

pub map-append :
    (f : PawnedPw → List ℕ) (xs ys : List PawnedPw) → map f (xs ++ ys) ≡ map f xs ++ map f ys
map-append f [] ys = refl
map-append f (x ∷ xs) ys = ap (◌∷◌ (f x)) (map-append f xs ys)

module _ (hash_size : ℕ) (large : 3 ≤ hash_size) where
  pub suffix_of-split :
      (pw : PawnedPw)
      → IsRecord hash_size pw
      → suffix_of pw ≡ drop 5 (write_hash pw.hash) ++ 58 ∷ to_chars pw.count
  unfolding to_string
  suffix_of-split pw v =
      let text = write_hash pw.hash in
      let five : length (take 5 text) ≡ 5 =
        omega (arith, length-take 5 text, length-write_hash pw.hash, v.sized) in
      ap (λ t. drop 5 (t ++ 58 ∷ to_chars pw.count)) (sym (take-append-drop 5 text))
      ∙ ap (drop 5) (append_assoc (take 5 text) (drop 5 text) (58 ∷ to_chars pw.count))
      ∙ drop-append (take 5 text) (drop 5 text ++ 58 ∷ to_chars pw.count) 5 five

  pub take-to_string :
      (pw : PawnedPw)
      → IsRecord hash_size pw
      → take (hash_size * 2) (to_string pw) ≡ write_hash pw.hash
  unfolding to_string
  take-to_string pw v =
      take-append (write_hash pw.hash) (58 ∷ to_chars pw.count) (hash_size * 2)
        (omega (arith, length-write_hash pw.hash, v.sized))

  -- The text of a record and its hash begin alike.
  pub take-write_hash :
      (pw : PawnedPw) → IsRecord hash_size pw → take 5 (write_hash pw.hash) ≡ take 5 (to_string pw)
  unfolding to_string
  take-write_hash pw v =
      let text = write_hash pw.hash in
      let five : length (take 5 text) ≡ 5 =
        omega (arith, length-take 5 text, length-write_hash pw.hash, v.sized) in
      sym (
        ap (λ t. take 5 (t ++ 58 ∷ to_chars pw.count)) (sym (take-append-drop 5 text))
        ∙ ap (take 5) (append_assoc (take 5 text) (drop 5 text) (58 ∷ to_chars pw.count))
        ∙ take-append (take 5 text) (drop 5 text ++ 58 ∷ to_chars pw.count) 5 five)

  pub served-split :
      (terminated : Bool) (others : List PawnedPw) (last : PawnedPw)
      → IsRecord hash_size last
      → file_text terminated (map suffix_of (others ++ last ∷ []))
        ≡ ended (map suffix_of others)
          ++ (drop 5 (write_hash last.hash) ++ 58 ∷ (to_chars last.count ++ line_end terminated))
  served-split terminated others last v =
      ap (file_text terminated) (map-append suffix_of others (last ∷ []))
      ∙ file_text-last terminated (map suffix_of others) (suffix_of last)
      ∙ ap (λ t. ended (map suffix_of others) ++ (t ++ line_end terminated))
          (suffix_of-split last v)
      ∙ ap (λ t. ended (map suffix_of others) ++ t)
          (append_assoc (drop 5 (write_hash last.hash)) (58 ∷ to_chars last.count)
            (line_end terminated))
