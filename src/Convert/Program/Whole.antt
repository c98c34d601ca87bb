-- ===== src/Convert/Program/Whole.antt =====
-- What the program of app/hibp_convert.cpp does to a whole database.
use hibp.Common.{
  ℕ, ◌+◌, ◌/◌, ◌≤◌, ◌<◌, ◌^◌, ◌≡◌, inl, inr, refl, ap, ◌∙◌, Bool, true, false, List, [], none, some,
  length, All, arith, Bool-cases, if◌then◌else◌,
}
use Prim.{tt}
use hibp.Hibp.{PawnedPw, IsRecord, sha1, ntlm}
use hibp.FlatFile.{Db, File, ok, open_db}
use hibp.FlatFile.Reading.{Ready, fits_one, open_db-Ready}
use hibp.Convert.{Config, check_options, txt_to_bin}
use hibp.Convert.RoundTrip.{texts, bin_to_txt-kept, txt_to_bin-texts}
use hibp.Loops.Taken.{kept-all}
use hibp.Convert.Program.{
  Files, text_written, records_written, get_input_stream, get_output_stream, emptied, open_output,
  size_of_hash, between, convert, run_converter, text_of_db,
}

-- The options and the files are such that `convert` comes to its loop.
pub record Runs (cli : Config) (files : Files) : Type 0 where
  pub options : check_options cli ≡ none
  pub input : get_input_stream cli files ≡ none
  pub output : get_output_stream cli files ≡ none

run_converter-between :
    (blank : PawnedPw) (cli : Config) (files : Files)
    → Runs cli files
    → run_converter blank cli files ≡ between blank cli (open_output cli files)
unfolding run_converter convert
run_converter-between blank cli files r = rw (r.options, r.input, r.output) refl

between_text :
    (blank : PawnedPw) (cli : Config) (files : Files)
    → cli.txt_to_bin ≡ true
    → between blank cli files
      ≡ records_written (
          txt_to_bin
            (size_of_hash cli)
            cli.limit
            blank
            (if cli.standard_input then files.stdin else files.text)
            [])
unfolding between
between_text blank cli files e = rw (between, e) refl

between_db :
    (blank : PawnedPw) (cli : Config) (files : Files)
    → cli.txt_to_bin ≡ false
    → cli.bin_to_txt ≡ true
    → between blank cli files
      ≡ text_of_db cli.limit
          (open_db (size_of_hash cli + 4) (4096 / (size_of_hash cli + 4)) blank files.db)
unfolding between
between_db blank cli files e e' = rw (between, e, e') refl

-- A readable file of whole well-formed records, as few as a position can count.
pub record IsWhole (hash_size : ℕ) (f : File PawnedPw) : Type 0 where
  pub valid : All (IsRecord hash_size) f.records
  pub whole : f.tail_bytes ≡ 0
  pub readable : f.readable ≡ true
  pub small : length f.records < 2 ^ 64

size_of_hash-le : (cli : Config) → size_of_hash cli ≤ 20
size_of_hash-le cli = elim (Bool-cases cli.ntlm) [
  | inl e ↦ rw e (omega arith)
  | inr e ↦ rw e (omega arith)
]

opened :
    (blank : PawnedPw) (cli : Config) (f : File PawnedPw)
    → f.tail_bytes ≡ 0
    → f.readable ≡ true
    → length f.records < 2 ^ 64
    → (db : Db PawnedPw) × (open_db
          (size_of_hash cli + 4)
          (4096 / (size_of_hash cli + 4))
          blank
          (some f)
        ≡ ok db)
      × Ready f.records db
opened blank cli f whole readable small =
    let n = size_of_hash cli in
    open_db-Ready (n + 4) (4096 / (n + 4)) blank f (omega arith)
      (fits_one (n + 4) 4096 (omega arith) (omega (arith, size_of_hash-le cli))) whole readable
      small

text_of_db-texts :
    (blank : PawnedPw) (cli : Config) (f : File PawnedPw)
    → f.tail_bytes ≡ 0
    → f.readable ≡ true
    → length f.records < 2 ^ 64
    → length f.records ≤ cli.limit
    → text_of_db cli.limit
        (open_db (size_of_hash cli + 4) (4096 / (size_of_hash cli + 4)) blank (some f))
      ≡ text_written (texts f.records)
text_of_db-texts blank cli f whole readable small h =
    let (db, opens, r) = opened blank cli f whole readable small in
    let (db', e, r') = bin_to_txt-kept cli.limit f.records [] db r in
    rw (opens, e, kept-all cli.limit f.records h) refl

one_direction :
    (cli : Config) → check_options cli ≡ none → cli.bin_to_txt ≡ true → cli.txt_to_bin ≡ false
unfolding check_options
one_direction cli e b = ground arith

other_direction :
    (cli : Config) → check_options cli ≡ none → cli.txt_to_bin ≡ false → cli.bin_to_txt ≡ true
unfolding check_options
other_direction cli e b = ground arith

open_output_apart :
    (cli : Config) (files : Files) → files.same ≡ false → open_output cli files ≡ files
unfolding open_output
open_output_apart cli files e = elim (Bool-cases cli.standard_output) [
  | inl o ↦ rw (open_output, e, o) refl
  | inr o ↦ rw (open_output, e, o) refl
]

same_branches : {A : Type 0} (b : Bool) (x : A) → (if b then x else x) ≡ x
same_branches true x = refl
same_branches false x = refl

-- What a program reads when its input is this text, whether from a file or from standard input.
abbrev pub reading : List ℕ → Files → Files
reading text files = record files { stdin = text; text = text; same = false }

reading-Runs :
    (cli : Config) (files : Files) (text : List ℕ) → Runs cli files → Runs cli (reading text files)
unfolding get_input_stream get_output_stream
reading-Runs cli files text r = record { options = r.options; input = r.input; output = r.output }

-- A database in a readable file of whole well-formed records, fewer than 2 ^ 64, is converted to text,
-- by options and to files that are not refused, and the output is another file; the text is converted to
-- a database, by options and to files that are not refused, from a file or from standard input, with the
-- same kind of hashes. With limits that are at least the number of records, the result has exactly the
-- records of the database.
pub run_converter-run_converter :
    (blank : PawnedPw) (f : File PawnedPw) (there back : Config) (files files' : Files)
    → Runs there files
    → Runs back files'
    → there.bin_to_txt ≡ true
    → back.txt_to_bin ≡ true
    → back.ntlm ≡ there.ntlm
    → files.db ≡ some f
    → files.same ≡ false
    → IsWhole (size_of_hash there) f
    → length f.records ≤ there.limit
    → length f.records ≤ back.limit
    → (text : List ℕ) × (run_converter blank there files ≡ text_written text)
      × (run_converter blank back (reading text files') ≡ records_written f.records)
run_converter-run_converter blank f there back files files' r r' to_text to_bin kind held apart
      whole h h' =
    let text = texts f.records in
    (
      text,
      run_converter-between blank there files r
          ∙ ap (between blank there) (open_output_apart there files apart)
          ∙ between_db blank there files (one_direction there r.options to_text) to_text
          ∙ rw held (text_of_db-texts blank there f whole.whole whole.readable whole.small h),
      run_converter-between blank back (reading text files') (reading-Runs back files' text r')
          ∙ ap (between blank back) (open_output_apart back (reading text files') refl)
          ∙ between_text blank back (reading text files') to_bin
          ∙ ap (λ t. records_written (txt_to_bin (size_of_hash back) back.limit blank t []))
              (same_branches back.standard_input text)
          ∙ ap
              (λ t.
                records_written (txt_to_bin (if t then ntlm else sha1) back.limit blank text []))
              kind
          ∙ ap records_written
              (txt_to_bin-texts (size_of_hash there) back.limit blank f.records whole.valid h'),
    )

open_output_same :
    (cli : Config) (files : Files)
    → cli.standard_output ≡ false
    → files.same ≡ true
    → open_output cli files ≡ record files { text = []; db = emptied files.db }
unfolding open_output
open_output_same cli files o e = rw (open_output, e, o) refl

-- When the output is the file that is the input, which options and files that are not refused allow with
-- --force, its contents are lost: whatever records, or text, the file has, and in either direction,
-- nothing is written. For a readable file.
pub run_converter_emptied :
    (blank : PawnedPw) (f : File PawnedPw) (cli : Config) (files : Files)
    → Runs cli files
    → cli.standard_input ≡ false
    → cli.standard_output ≡ false
    → files.same ≡ true
    → files.db ≡ some f
    → f.readable ≡ true
    → run_converter blank cli files
      ≡ (if cli.txt_to_bin then records_written [] else text_written [])
run_converter_emptied blank f cli files r i o same held readable =
    let opened =
      run_converter-between blank cli files r
      ∙ ap (between blank cli) (open_output_same cli files o same) in
    elim (Bool-cases cli.txt_to_bin) [
      | inl e ↦
          opened
          ∙ between_text blank cli (record files { text = []; db = emptied files.db }) e
          ∙ rw (i, e)
              (ap records_written
                (txt_to_bin-texts (size_of_hash cli) cli.limit blank [] tt (omega arith)))
      | inr e ↦
          opened
          ∙ between_db blank cli (record files { text = []; db = emptied files.db }) e
              (other_direction cli r.options e)
          ∙ rw (held, e)
              (text_of_db-texts blank cli (record f { records = []; tail_bytes = 0 }) refl readable
                (omega arith) (omega arith))
    ]
