-- ===== src/Convert/RoundTrip.antt =====
-- The outputs of `txt_to_bin` and `bin_to_txt` of app/hibp_convert.cpp.
use hibp.Common.{
  ℕ, zero, suc, ◌+◌, ◌≤◌, ◌≡◌, refl, sym, ap, ◌∙◌, true, false, List, [], ◌∷◌, ◌++◌, append_assoc,
  append-nil, ◌==◌, length, take, map, All, arith,
}
use Prim.{tt}
use hibp.Text.{getlines, unlines}
use hibp.Text.Lines.{IsLine, getlines-unlines}
use hibp.Hibp.{PawnedPw, IsRecord, of_text, to_string}
use hibp.Hibp.Printable.{Printable-IsLine, to_string-Printable}
use hibp.Hibp.RoundTrip.{of_text-to_string}
use hibp.FlatFile.{Writer, new_writer, write, write_all, close, Db, ok}
use hibp.FlatFile.Writing.{close-write_all}
use hibp.FlatFile.Reading.{Ready}
use hibp.Loops.Taken.{kept, add_all, for_records-kept}
use hibp.Convert.{add_line, convert_lines, txt_to_bin, bin_to_txt}

texts-IsLine : (n : ℕ) (rs : List PawnedPw) → All (IsRecord n) rs → All IsLine (map to_string rs)
texts-IsLine n [] h = tt
texts-IsLine n (pw ∷ rs) h =
    (Printable-IsLine (to_string pw) (to_string-Printable n pw h.0), texts-IsLine n rs h.1)

read-texts :
    (n : ℕ) (rs : List PawnedPw) → All (IsRecord n) rs → map (of_text n) (map to_string rs) ≡ rs
read-texts n [] h = refl
read-texts n (pw ∷ rs) h = rw (of_text-to_string n pw h.0, read-texts n rs h.1) refl

convert_lines-write_all :
    (n limit : ℕ) (lines : List (List ℕ)) (k count : ℕ) (w : Writer PawnedPw)
    → count + k ≡ limit
    → convert_lines n limit lines count w ≡ write_all w (map (of_text n) (take k lines))
unfolding convert_lines write_all
convert_lines-write_all n limit [] zero count w e = refl
convert_lines-write_all n limit [] (suc k) count w e = refl
convert_lines-write_all n limit (line ∷ lines) zero count w e =
    let last : (count == limit) ≡ true = ground arith in rw (convert_lines, last) refl
convert_lines-write_all n limit (line ∷ lines) (suc k) count w e =
    let more : (count == limit) ≡ false = ground arith in
    rw (convert_lines, more)
      (convert_lines-write_all n limit lines k (count + 1) (write w (of_text n line)) (omega arith))

txt_to_bin_step :
    (n limit : ℕ) (blank : PawnedPw) (input : List ℕ) (out : List PawnedPw)
    → txt_to_bin n limit blank input out
      ≡ close (convert_lines n limit (getlines input) 0 (new_writer out 1000 blank))
unfolding txt_to_bin
txt_to_bin_step n limit blank input out = refl

-- `txt_to_bin` adds to its output the records of the first lines of its input, as many as the limit
-- says, or all if there are fewer.
pub txt_to_bin-take :
    (n limit : ℕ) (blank : PawnedPw) (input : List ℕ) (out : List PawnedPw)
    → txt_to_bin n limit blank input out ≡ out ++ map (of_text n) (take limit (getlines input))
txt_to_bin-take n limit blank input out =
    txt_to_bin_step n limit blank input out
    ∙ ap close (
        convert_lines-write_all n limit (getlines input) limit 0 (new_writer out 1000 blank)
          (omega arith))
    ∙ close-write_all out (map (of_text n) (take limit (getlines input))) 1000 blank (omega arith)

abbrev pub texts : List PawnedPw → List ℕ
texts rs = unlines (map to_string rs)

texts_more :
    (out : List ℕ) (x : PawnedPw) (rs : List PawnedPw)
    → (out ++ (to_string x ++ 10 ∷ [])) ++ texts rs ≡ out ++ texts (x ∷ rs)
texts_more out x rs =
    append_assoc out (to_string x ++ 10 ∷ []) (texts rs)
    ∙ ap (λ t. out ++ t) (append_assoc (to_string x) (10 ∷ []) (texts rs))

add_all-texts : (out : List ℕ) (rs : List PawnedPw) → add_all add_line out rs ≡ out ++ texts rs
unfolding add_line
add_all-texts out [] = sym (append-nil out)
add_all-texts out (x ∷ rs) = add_all-texts (add_line out x) rs ∙ texts_more out x rs

-- In a database that is ready, `bin_to_txt` adds to its output the texts of the records, each with a
-- newline: as many as the limit says, or all if there are fewer, but all if the limit is 0.
pub bin_to_txt-kept :
    (limit : ℕ) (rs : List PawnedPw) (out : List ℕ) (db : Db PawnedPw)
    → Ready rs db
    → (db' : Db PawnedPw) × (bin_to_txt limit out db ≡ (ok (out ++ texts (kept limit rs)), db'))
      × Ready rs db'
unfolding bin_to_txt
bin_to_txt-kept limit rs out db r =
    let (db', e, r') =
      for_records-kept add_line (λ count. count == limit) rs limit out db r (λ c h. refl) in
    (db', e ∙ ap (λ t. (ok t, db')) (add_all-texts out (kept limit rs)), r')

take-texts :
    (k : ℕ) (rs : List PawnedPw) → length rs ≤ k → take k (map to_string rs) ≡ map to_string rs
take-texts zero [] h = refl
take-texts zero (x ∷ rs) h = absurd (omega arith)
take-texts (suc k) [] h = refl
take-texts (suc k) (x ∷ rs) h = ap (◌∷◌ (to_string x)) (take-texts k rs (omega arith))

pub txt_to_bin-texts :
    (n limit : ℕ) (blank : PawnedPw) (rs : List PawnedPw)
    → All (IsRecord n) rs
    → length rs ≤ limit
    → txt_to_bin n limit blank (texts rs) [] ≡ rs
txt_to_bin-texts n limit blank rs all h =
    txt_to_bin-take n limit blank (texts rs) []
    ∙ (rw (getlines-unlines (map to_string rs) (texts-IsLine n rs all))
        (ap (map (of_text n)) (take-texts limit rs h) ∙ read-texts n rs all))

-- A database of well-formed records that is converted to text, without a limit, and back, with a
-- limit that is at least its size, gives the same records.
txt_to_bin-bin_to_txt :
    (n limit : ℕ) (blank : PawnedPw) (rs : List PawnedPw) (db : Db PawnedPw)
    → Ready rs db
    → All (IsRecord n) rs
    → length rs ≤ limit
    → (text : List ℕ) × (db' : Db PawnedPw) × (bin_to_txt 0 [] db ≡ (ok text, db'))
      × (txt_to_bin n limit blank text [] ≡ rs)
txt_to_bin-bin_to_txt n limit blank rs db r all h =
    let (db', e, r') = bin_to_txt-kept 0 rs [] db r in
    (texts rs, db', e, txt_to_bin-texts n limit blank rs all h)
