-- ===== src/TopN.antt =====
-- app/hibp_topn.cpp: the most common passwords of a database, as a database. The text of what is
-- printed is left out.
pub mod Selection
use hibp.Common.{
  ℕ, ◌+◌, ◌/◌, ◌^◌, Bool, true, false, not, ◌&&◌, ◌||◌, List, [], ◌∷◌, Option, none, some,
  if◌then◌else◌, leb, take,
}
use hibp.ArrCmp.{Isa, Endian}
use hibp.Hibp.{PawnedPw, sha1, ntlm, sha1t64}
use hibp.Hibp.Order.{pw_less}
use hibp.FlatFile.{Db, File, Result, ok, err, Error, new_writer, write_all, close, open_db}
use hibp.Convert.{is_empty}
use hibp.Sorting.{sort}
use hibp.Disksort.{read_range}
use hibp.Sorter.{less_by_count}

pub record TopNOptions : Type 0 where
  pub output_filename : List ℕ
  pub force : Bool
  pub standard_output : Bool
  pub ntlm : Bool
  pub sha1t64 : Bool
  pub topn : ℕ

pub data TopNError : Type 0 where
  one_output two_formats output_exists cannot_write output_would_be_identical : TopNError
  database_error : Error → TopNError

-- The records in the output; with --stdout they are mixed with the messages about the progress, which
-- go to standard output as well, before the records and behind them.
pub data TopN : Type 0 where
  written mixed : List PawnedPw → TopN
  refused : TopNError → TopN

-- What the program finds of the output file: whether it is there, and whether it can be opened.
pub record OutputFile : Type 0 where
  pub exists : Bool
  pub writable : Bool

-- Whether there is a reason not to write to the file.
unfoldable pub get_output_stream : OutputFile → Bool → Option TopNError
get_output_stream file force =
    if not force && file.exists
    then some output_exists
    else if not file.writable
    then some cannot_write
    else none

module _ (isa : Isa) (endian : Endian) (hash_size : ℕ) (blank : PawnedPw) where
  -- `std::partial_sort_copy` into the first `topn` places.
  unfoldable pub partial_sort_copy : ℕ → List PawnedPw → List PawnedPw
  unfolding sort less_by_count
  partial_sort_copy topn records = take topn (sort (less_by_count isa endian hash_size) records)

  -- Behind the messages, if they share the stream.
  abbrev output_of : Bool → List PawnedPw → TopN
  output_of standard_output records = if standard_output then mixed records else written records

  abbrev pub write_sorted : Bool → List PawnedPw → TopN
  write_sorted standard_output memdb =
      output_of standard_output
        (close (write_all (new_writer [] 1000 blank) (sort (pw_less isa endian hash_size) memdb)))

  abbrev pub from_records : Bool → ℕ → Result (List PawnedPw) × Db PawnedPw → TopN
  from_records standard_output topn (err e, db) = refused (database_error e)
  from_records standard_output topn (ok records, db) =
      write_sorted standard_output (partial_sort_copy topn records)

  abbrev pub from_db : Bool → ℕ → Result (Db PawnedPw) → TopN
  from_db standard_output topn (err e) = refused (database_error e)
  from_db standard_output topn (ok db) =
      if leb db.dbsize topn
      then refused output_would_be_identical
      else from_records standard_output topn (read_range db.dbsize 0 [] db)

  abbrev pub into : Option TopNError → TopN → TopN
  into (some e) result = refused e
  into none result = result

  unfoldable pub build_topn : TopNOptions → OutputFile → Option (File PawnedPw) → TopN
  unfolding partial_sort_copy sort pw_less less_by_count read_range open_db get_output_stream
      write_all new_writer close
  build_topn cli output input =
      into (if cli.standard_output then none else get_output_stream output cli.force) (
        from_db cli.standard_output cli.topn
          (open_db (hash_size + 4) (2 ^ 16 / (hash_size + 4)) blank input))

-- `main`
unfoldable pub run_topn :
    Isa → Endian → PawnedPw → TopNOptions → OutputFile → Option (File PawnedPw) → TopN
unfolding build_topn
run_topn isa endian blank cli output input =
    if (not (is_empty cli.output_filename) && cli.standard_output)
      || (is_empty cli.output_filename && not cli.standard_output)
    then refused one_output
    else if cli.ntlm && cli.sha1t64
    then refused two_formats
    else if cli.ntlm
    then build_topn isa endian ntlm blank cli output input
    else if cli.sha1t64
    then build_topn isa endian sha1t64 blank cli output input
    else build_topn isa endian sha1 blank cli output input
