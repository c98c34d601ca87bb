-- ===== src/Runs/Resumes.antt =====
-- Downloads that are resumed behind a whole file, and behind a part of one.
use hibp.Common.{ℕ, ◌≡◌, refl, ap, List, [], ◌∷◌, map, true, false, arith, get_or}
use Prim.{tt}
use hibp.Text.{format_05X}
use hibp.ArrCmp.Isa.{avx2}
use hibp.ArrCmp.Endian.{little}
use hibp.Hibp.{PawnedPw, to_string}
use hibp.FlatFile.{File}
use hibp.Download.Lines.{file_text, suffix_of}
use hibp.Resume.{resumed, get_last_prefix}
use hibp.Resume.Incomplete.{get_last_prefix_incomplete}
use hibp.Runs.Completed.{pw, first_pw, second_pw, pw-IsRecord}
use hibp.Runs.Searches.{password}

abbrev whole : File PawnedPw
whole = record { records = first_pw ∷ second_pw ∷ []; tail_bytes = 3; readable = true }

-- The server has three records for the prefix, of which the file has two.
abbrev partial : File PawnedPw
partial = record { records = first_pw ∷ second_pw ∷ pw 20 2 ∷ []; tail_bytes = 0; readable = true }

abbrev third_byte : List ℕ → ℕ
third_byte hash = get_or hash 2 0

get_last_prefix_incomplete_example :
    get_last_prefix avx2 little 8
      (λ prefix. file_text false (map suffix_of (second_pw ∷ pw 20 2 ∷ pw 21 5 ∷ [])))
      (password 0 0)
      partial
    ≡ resumed 0 (first_pw ∷ [])
unfolding format_05X to_string
get_last_prefix_incomplete_example =
    get_last_prefix_incomplete avx2 little 8 (omega arith)
      (λ prefix. file_text false (map suffix_of (second_pw ∷ pw 20 2 ∷ pw 21 5 ∷ [])))
      (password 0 0) (first_pw ∷ []) (pw 20 2 ∷ []) (first_pw ∷ second_pw ∷ [])
      (pw 20 2 ∷ pw 21 5 ∷ []) (second_pw ∷ pw 20 2 ∷ []) second_pw (pw 20 2) second_pw (pw 21 5)
      partial 1 false refl refl refl (omega arith) (omega arith)
      (pw-IsRecord 20 2 (omega arith) (omega arith))
      (
        pw-IsRecord 19 1 (omega arith) (omega arith),
        (pw-IsRecord 20 2 (omega arith) (omega arith), tt),
      )
      (
        pw-IsRecord 19 1 (omega arith) (omega arith),
        (pw-IsRecord 21 5 (omega arith) (omega arith), tt),
      )
      (refl, (refl, (refl, tt))) refl refl ((λ p. omega (arith, ap third_byte p)), tt)
      (λ p. omega (arith, ap third_byte p)) refl
