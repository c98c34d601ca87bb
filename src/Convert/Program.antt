-- ===== src/Convert/Program.antt =====
-- The program of app/hibp_convert.cpp: the check of its options, and `convert` with its two streams.
pub mod Whole
use hibp.Common.{
  ℕ, ◌+◌, ◌/◌, ◌&&◌, Bool, true, false, not, List, [], Option, none, some, if◌then◌else◌,
}
use hibp.Hibp.{PawnedPw, sha1, ntlm}
use hibp.FlatFile.{Db, File, Result, ok, err, Error, open_db}
use hibp.Convert.{Config, OptionError, check_options, txt_to_bin, bin_to_txt}

-- Standard input, and the files that have the names of the options. The input file as an `ifstream`
-- sees it, and as a database; whether the output file is there, and can be opened; and whether both
-- names are those of one file.
pub record Files : Type 0 where
  pub stdin : List ℕ
  pub opens : Bool
  pub text : List ℕ
  pub db : Option (File PawnedPw)
  pub output_exists : Bool
  pub writable : Bool
  pub same : Bool

pub data ConvertError : Type 0 where
  option : OptionError → ConvertError
  cannot_read not_forced cannot_write : ConvertError
  database_error : Error → ConvertError

-- What is added to the output. After an exception the output is left out.
pub data Converted : Type 0 where
  records_written : List PawnedPw → Converted
  text_written : List ℕ → Converted
  refused : ConvertError → Converted
  nothing : Converted

unfoldable pub get_input_stream : Config → Files → Option ConvertError
get_input_stream cli files =
    if cli.standard_input then none else if files.opens then none else some cannot_read

unfoldable pub get_output_stream : Config → Files → Option ConvertError
get_output_stream cli files =
    if cli.standard_output
    then none
    else if not cli.force && files.output_exists
    then some not_forced
    else if files.writable
    then none
    else some cannot_write

abbrev pub emptied : Option (File PawnedPw) → Option (File PawnedPw)
emptied none = none
emptied (some f) = some (record f { records = []; tail_bytes = 0 })

-- An `ofstream` makes the file that it opens empty.
unfoldable pub open_output : Config → Files → Files
open_output cli files =
    if not cli.standard_output && files.same
    then record files { text = []; db = emptied files.db }
    else files

abbrev pub text_or_error : Result (List ℕ) × Db PawnedPw → Converted
text_or_error (ok text, db) = text_written text
text_or_error (err e, db) = refused (database_error e)

abbrev pub text_of_db : ℕ → Result (Db PawnedPw) → Converted
text_of_db limit (ok db) = text_or_error (bin_to_txt limit [] db)
text_of_db limit (err e) = refused (database_error e)

abbrev pub unless : Option ConvertError → Converted → Converted
unless none result = result
unless (some e) result = refused e

abbrev pub size_of_hash : Config → ℕ
size_of_hash cli = if cli.ntlm then ntlm else sha1

-- `convert`, when its streams are open.
unfoldable pub between : PawnedPw → Config → Files → Converted
unfolding txt_to_bin bin_to_txt open_db
between blank cli files =
    let n = size_of_hash cli in
    if cli.txt_to_bin
    then records_written
        (txt_to_bin n cli.limit blank (if cli.standard_input then files.stdin else files.text) [])
    else if cli.bin_to_txt
    then text_of_db cli.limit (open_db (n + 4) (4096 / (n + 4)) blank files.db)
    else nothing

unfoldable pub convert : PawnedPw → Config → Files → Converted
unfolding get_input_stream get_output_stream open_output between
convert blank cli files =
    unless (get_input_stream cli files)
      (unless (get_output_stream cli files) (between blank cli (open_output cli files)))

abbrev pub complaint : Option OptionError → Option ConvertError
complaint none = none
complaint (some e) = some (option e)

-- `main`
unfoldable pub run_converter : PawnedPw → Config → Files → Converted
unfolding check_options convert
run_converter blank cli files = unless (complaint (check_options cli)) (convert blank cli files)
