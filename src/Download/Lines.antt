-- ===== src/Download/Lines.antt =====
-- `write_lines` of src/dnl/queuemgt.cpp: the lines of a downloaded file, each with the prefix of the
-- file before it.
use hibp.Common.{
  ℕ, ◌≤◌, ◌≡◌, ◌≢◌, refl, sym, ap, ◌∙◌, ◌<◌, Bool, true, false, List, length, length-append,
  length-drop, [], ◌∷◌, ◌++◌, append_assoc, ◌==◌, ◌&&◌, if◌then◌else◌, map, take, drop,
  take-append-drop, All, All-append, All-drop, arith,
}
use Prim.{tt}
use hibp.Text.{getlines, to_chars}
use hibp.Text.RoundTrip.{length-to_chars_pos}
use hibp.Text.Lines.{IsLine, getlines-line, getlines-last}
use hibp.Hibp.{PawnedPw, IsRecord, of_text, to_string, write_hash}
use hibp.Hibp.RoundTrip.{of_text-to_string, length-write_hash}
use hibp.Hibp.Printable.{Printable, Printable-IsLine, to_string-Printable}
use hibp.Download.{Transfer, is_empty}

-- `erase(find_last_not_of('\r') + 1)`
unfoldable pub erase_cr : List ℕ → List ℕ
erase_cr [] = []
erase_cr (c ∷ line) =
    let rest = erase_cr line in if (c == 13) && is_empty rest then [] else c ∷ rest

unfoldable pub prefix_lines : List ℕ → List (List ℕ) → List (List ℕ)
unfolding erase_cr
prefix_lines prefix [] = []
prefix_lines prefix (line ∷ lines) =
    let rest = prefix_lines prefix lines in
    if is_empty line then rest else erase_cr (prefix ++ line) ∷ rest

-- The calls of `write_fn`.
unfoldable pub write_lines : Transfer → List (List ℕ)
unfolding prefix_lines getlines
write_lines dl = prefix_lines dl.prefix (getlines dl.buffer)

erase_cr_one : (text : List ℕ) → Printable text → erase_cr (text ++ 13 ∷ []) ≡ text
unfolding erase_cr
erase_cr_one [] h = refl
erase_cr_one (c ∷ text) h =
    let other : (c == 13) ≡ false = ground (arith, h.0) in rw (other, erase_cr_one text h.1) refl

erase_cr_none : (text : List ℕ) → Printable text → erase_cr text ≡ text
unfolding erase_cr
erase_cr_none [] h = refl
erase_cr_none (c ∷ text) h =
    let other : (c == 13) ≡ false = ground (arith, h.0) in rw (other, erase_cr_none text h.1) refl

-- Lines with carriage return and newline between them, and behind the last one if it is terminated,
-- which it is not in the files that the server gives.
abbrev pub file_text : Bool → List (List ℕ) → List ℕ
file_text terminated [] = []
file_text terminated (line ∷ []) = if terminated then line ++ 13 ∷ 10 ∷ [] else line
file_text terminated (line ∷ next ∷ lines) = line ++ 13 ∷ 10 ∷ file_text terminated (next ∷ lines)

abbrev Filled : List ℕ → Type 0
Filled line = is_empty line ≡ false

with_cr-filled : (line : List ℕ) → is_empty (line ++ 13 ∷ []) ≡ false
with_cr-filled [] = refl
with_cr-filled (c ∷ line) = refl

with_cr-IsLine : (line : List ℕ) → Printable line → IsLine (line ++ 13 ∷ [])
with_cr-IsLine line h =
    All-append line (13 ∷ []) (λ c. c ≢ 10) ((λ q. omega (arith, q)), tt) (Printable-IsLine line h)

prefix_lines-ended :
    (prefix line rest : List ℕ)
    → Printable prefix
    → Printable line
    → prefix_lines prefix (getlines (line ++ 13 ∷ 10 ∷ rest))
      ≡ (prefix ++ line) ∷ prefix_lines prefix (getlines rest)
unfolding prefix_lines
prefix_lines-ended prefix line rest p h =
    let whole : erase_cr (prefix ++ (line ++ 13 ∷ [])) ≡ prefix ++ line =
      rw (append_assoc prefix line (13 ∷ [])) at
        (erase_cr_one (prefix ++ line) (All-append prefix line (λ c. 32 ≤ c) h p)) in
    let cut : getlines (line ++ 13 ∷ 10 ∷ rest) ≡ (line ++ 13 ∷ []) ∷ getlines rest =
      ap getlines (sym (append_assoc line (13 ∷ []) (10 ∷ rest)))
      ∙ getlines-line (line ++ 13 ∷ []) rest (with_cr-IsLine line h) in
    rw (cut, with_cr-filled line, whole) refl

prefix_lines-last :
    (prefix line : List ℕ)
    → Printable prefix
    → Printable line
    → Filled line
    → prefix_lines prefix (getlines line) ≡ (prefix ++ line) ∷ []
unfolding prefix_lines
prefix_lines-last prefix [] p h filled = cc
prefix_lines-last prefix (c ∷ line) p h filled =
    let whole =
      erase_cr_none (prefix ++ c ∷ line) (All-append prefix (c ∷ line) (λ d. 32 ≤ d) h p) in
    rw (getlines-last c line (Printable-IsLine (c ∷ line) h), whole) refl

prefix_lines-file_text :
    (terminated : Bool) (prefix : List ℕ) (lines : List (List ℕ))
    → Printable prefix
    → All Printable lines
    → All Filled lines
    → prefix_lines prefix (getlines (file_text terminated lines))
      ≡ map (λ line. prefix ++ line) lines
prefix_lines-file_text terminated prefix [] p h f = unfold prefix_lines getlines in refl
prefix_lines-file_text true prefix (line ∷ []) p h f =
    prefix_lines-ended prefix line [] p h.0 ∙ unfold prefix_lines getlines in refl
prefix_lines-file_text false prefix (line ∷ []) p h f = prefix_lines-last prefix line p h.0 f.0
prefix_lines-file_text terminated prefix (line ∷ next ∷ lines) p h f =
    prefix_lines-ended prefix line (file_text terminated (next ∷ lines)) p h.0
    ∙ ap (◌∷◌ (prefix ++ line)) (prefix_lines-file_text terminated prefix (next ∷ lines) p h.1 f.1)

-- Of such a file of lines of printable characters, none of them empty, every line is written with the
-- prefix before it, in order and without its end.
pub write_lines-map :
    (terminated : Bool) (dl : Transfer) (lines : List (List ℕ))
    → Printable dl.prefix
    → All Printable lines
    → All Filled lines
    → dl.buffer ≡ file_text terminated lines
    → write_lines dl ≡ map (λ line. dl.prefix ++ line) lines
unfolding write_lines
write_lines-map terminated dl lines p h f e =
    ap (λ t. prefix_lines dl.prefix (getlines t)) e
    ∙ prefix_lines-file_text terminated dl.prefix lines p h f

-- What the server has of a record in the file of its prefix.
abbrev pub suffix_of : PawnedPw → List ℕ
suffix_of pw = drop 5 (to_string pw)

-- The records whose text starts with the prefix.
abbrev pub StartsWith : List ℕ → PawnedPw → Type 0
StartsWith prefix pw = take 5 (to_string pw) ≡ prefix

suffixes-Printable :
    (n : ℕ) (rs : List PawnedPw) → All (IsRecord n) rs → All Printable (map suffix_of rs)
suffixes-Printable n [] h = tt
suffixes-Printable n (pw ∷ rs) h = (
  All-drop (λ c. 32 ≤ c) 5 (to_string pw) (to_string-Printable n pw h.0),
  suffixes-Printable n rs h.1,
)

suffix_of-Filled : (n : ℕ) (pw : PawnedPw) → 2 ≤ n → IsRecord n pw → Filled (suffix_of pw)
unfolding to_string
suffix_of-Filled n pw h v = filled (suffix_of pw) (
    omega (
      arith,
      length-drop 5 (to_string pw),
      length-append (write_hash pw.hash) (b':' ∷ to_chars pw.count),
      length-write_hash pw.hash,
      length-to_chars_pos pw.count,
      v.sized,
    ))
  where
    filled : (text : List ℕ) → 0 < length text → is_empty text ≡ false
    filled [] h = absurd (omega arith)
    filled (c ∷ text) h = refl

suffixes-Filled :
    (n : ℕ) (rs : List PawnedPw) → 2 ≤ n → All (IsRecord n) rs → All Filled (map suffix_of rs)
suffixes-Filled n [] h v = tt
suffixes-Filled n (pw ∷ rs) h v = (suffix_of-Filled n pw h v.0, suffixes-Filled n rs h v.1)

records-of_lines :
    (n : ℕ) (prefix : List ℕ) (rs : List PawnedPw)
    → All (IsRecord n) rs
    → All (StartsWith prefix) rs
    → map (of_text n) (map (λ line. prefix ++ line) (map suffix_of rs)) ≡ rs
records-of_lines n prefix [] h s = refl
records-of_lines n prefix (pw ∷ rs) h s =
    let whole : prefix ++ suffix_of pw ≡ to_string pw =
      ap (λ t. t ++ suffix_of pw) (sym s.0) ∙ take-append-drop 5 (to_string pw) in
    rw (whole, of_text-to_string n pw h.0, records-of_lines n prefix rs h.1 s.1) refl

-- A downloaded file that holds, for well-formed records with its prefix and hashes of two bytes or
-- more, what follows the prefix in their texts, with carriage return and newline between them, and
-- with or without these at its end, becomes exactly these records, in order, if the prefix is
-- printable.
pub write_lines-of_text :
    (terminated : Bool) (n : ℕ) (dl : Transfer) (rs : List PawnedPw)
    → 2 ≤ n
    → Printable dl.prefix
    → All (IsRecord n) rs
    → All (StartsWith dl.prefix) rs
    → dl.buffer ≡ file_text terminated (map suffix_of rs)
    → map (of_text n) (write_lines dl) ≡ rs
write_lines-of_text terminated n dl rs large p h s e =
    ap (map (of_text n)) (
      write_lines-map terminated dl (map suffix_of rs) p (suffixes-Printable n rs h)
        (suffixes-Filled n rs large h) e)
    ∙ records-of_lines n dl.prefix rs h s
