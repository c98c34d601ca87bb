-- ===== src/Runs/Conversions.antt =====
-- A database of one record, converted to text and back, and converted onto itself.
use hibp.Common.{ℕ, ◌-◌, ◌^◌, ◌≡◌, refl, List, [], ◌∷◌, some, arith, true, false}
use Prim.{tt}
use hibp.Text.{codes}
use hibp.Hibp.{PawnedPw}
use hibp.FlatFile.{File}
use hibp.Convert.{Config, check_options, one_output}
use hibp.Convert.Program.{
  Files, text_written, records_written, refused, option, get_input_stream, get_output_stream,
  run_converter,
}
use hibp.Convert.Program.Whole.{
  Runs, IsWhole, reading, run_converter-run_converter, run_converter_emptied,
}
use hibp.Runs.Bytes.{low_pw, low_pw-IsRecord}
use hibp.Runs.Searches.{password}

abbrev pub one_record : File PawnedPw
one_record = record { records = low_pw ∷ []; tail_bytes = 0; readable = true }

abbrev there : Config
there = record {
  input_filename = codes "db.bin";
  output_filename = codes "db.txt";
  standard_input = false;
  standard_output = false;
  force = false;
  txt_to_bin = false;
  bin_to_txt = true;
  ntlm = false;
  limit = 2 ^ 64 - 1;
}

abbrev back : Config
back = record there {
  input_filename = [];
  standard_input = true;
  txt_to_bin = true;
  bin_to_txt = false;
}

abbrev files : Files
files = record {
  stdin = [];
  opens = true;
  text = [];
  db = some one_record;
  output_exists = false;
  writable = true;
  same = false;
}

abbrev onto_itself : Config
onto_itself = record there { output_filename = codes "db.bin"; force = true }

abbrev same_file : Files
same_file = record files { output_exists = true; same = true }

there-Runs : Runs there files
unfolding check_options get_input_stream get_output_stream
there-Runs = record { options = refl; input = refl; output = refl }

back-Runs : Runs back files
unfolding check_options get_input_stream get_output_stream
back-Runs = record { options = refl; input = refl; output = refl }

onto_itself-Runs : Runs onto_itself same_file
unfolding check_options get_input_stream get_output_stream
onto_itself-Runs = record { options = refl; input = refl; output = refl }

one_record-IsWhole : IsWhole 20 one_record
one_record-IsWhole = record {
  valid = (low_pw-IsRecord, tt);
  whole = refl;
  readable = refl;
  small = omega arith;
}

run_converter-run_converter_example :
    (text : List ℕ) × (run_converter (password 0 0) there files ≡ text_written text)
    × (run_converter (password 0 0) back (reading text files) ≡ records_written (low_pw ∷ []))
run_converter-run_converter_example =
    run_converter-run_converter (password 0 0) one_record there back files files there-Runs
      back-Runs refl refl refl refl refl one_record-IsWhole (omega arith) (omega arith)

run_converter_emptied_example : run_converter (password 0 0) onto_itself same_file ≡ text_written []
run_converter_emptied_example =
    run_converter_emptied (password 0 0) one_record onto_itself same_file onto_itself-Runs refl refl
      refl refl refl

-- An output has to be named.
no_output :
    run_converter (password 0 0) (record there { output_filename = [] }) files
    ≡ refused (option one_output)
unfolding run_converter
no_output = refl
