-- ===== src/Runs/Programs.antt =====
-- The converter, the lines of a download and the search for duplicates.
use hibp.Common.{◌≡◌, refl, [], ◌∷◌, map, arith, false}
use Prim.{tt}
use hibp.ArrCmp.{bytearray_cast}
use hibp.ArrCmp.Endian.{little}
use hibp.Text.{codes}
use hibp.Hibp.{PawnedPw, of_text, to_string}
use hibp.FlatFile.{Db, ok}
use hibp.FlatFile.Reading.{Ready}
use hibp.Convert.{bin_to_txt}
use hibp.Convert.RoundTrip.{texts, bin_to_txt-kept}
use hibp.Download.{Transfer}
use hibp.Download.Lines.{write_lines, file_text, suffix_of, write_lines-of_text}
use hibp.Programs.{run_dupes}
use hibp.Programs.Decisions.{repeats, run_dupes-repeats}
use hibp.Runs.Bytes.{low_pw, low_pw-IsRecord}
use hibp.Runs.Searches.{password, three, three_db, three-Ready}

bin_to_txt-kept_example :
    (db' : Db PawnedPw) × (bin_to_txt 1 [] three_db ≡ (ok (texts (password 0 10 ∷ [])), db'))
    × Ready three db'
bin_to_txt-kept_example = bin_to_txt-kept 1 three [] three_db three-Ready

abbrev transfer : Transfer
transfer = record {
  index = 0x01090;
  prefix = codes "01090";
  buffer = file_text false (map suffix_of (low_pw ∷ []));
  retries_left = 10;
}

write_lines-of_text_example : map (of_text 20) (write_lines transfer) ≡ (low_pw ∷ [])
unfolding to_string
write_lines-of_text_example =
    write_lines-of_text false 20 transfer (low_pw ∷ []) (omega arith)
      (omega arith, (omega arith, (omega arith, (omega arith, (omega arith, tt)))))
      (low_pw-IsRecord, tt) (refl, tt) refl

run_dupes-repeats_example :
    (db' : Db PawnedPw) × (run_dupes little 32 three_db ≡ (ok [], db')) × Ready three db'
unfolding repeats bytearray_cast
run_dupes-repeats_example = run_dupes-repeats little 32 three three_db three-Ready
