-- ===== src/Convert.antt =====
-- app/hibp_convert.cpp: between the text and the binary format.
pub mod RoundTrip
pub mod Program
use hibp.Common.{
  ℕ, zero, suc, ◌+◌, ◌-◌, ◌/◌, Bool, true, false, List, [], ◌∷◌, ◌++◌, Option, none, some, ◌==◌,
  ◌&&◌, ◌||◌, not, if◌then◌else◌, length,
}
use hibp.Text.{getlines}
use hibp.Hibp.{PawnedPw, of_text, to_string}
use hibp.FlatFile.{Writer, new_writer, write, close, Db, Result, M, ok, err, return, ◌>>=◌, deref}
use hibp.Loops.{for_records}

pub record Config : Type 0 where
  pub input_filename : List ℕ
  pub output_filename : List ℕ
  pub standard_input : Bool
  pub standard_output : Bool
  pub force : Bool
  pub txt_to_bin : Bool
  pub bin_to_txt : Bool
  pub ntlm : Bool
  pub limit : ℕ

abbrev pub is_empty : List ℕ → Bool
is_empty [] = true
is_empty (c ∷ cs) = false

-- The four complaints of `check_options`, in its order.
pub data OptionError : Type 0 where
  one_direction one_input no_binary_stdin one_output : OptionError

unfoldable pub check_options : Config → Option OptionError
check_options cli =
    if (cli.bin_to_txt && cli.txt_to_bin) || (not cli.bin_to_txt && not cli.txt_to_bin)
    then some one_direction
    else if (not (is_empty cli.input_filename) && cli.standard_input)
        || (is_empty cli.input_filename && not cli.standard_input)
    then some one_input
    else if cli.bin_to_txt && cli.standard_input
    then some no_binary_stdin
    else if (not (is_empty cli.output_filename) && cli.standard_output)
        || (is_empty cli.output_filename && not cli.standard_output)
    then some one_output
    else none

-- The loop over the lines, `count` of which are done.
unfoldable pub convert_lines : ℕ → ℕ → List (List ℕ) → ℕ → Writer PawnedPw → Writer PawnedPw
unfolding write
convert_lines hash_size limit [] count writer = writer
convert_lines hash_size limit (line ∷ lines) count writer =
    let rest =
      convert_lines hash_size limit lines (count + 1) (write writer (of_text hash_size line)) in
    if count == limit then writer else rest

-- `txt_to_bin`: the records of the output, which has `out` before.
unfoldable pub txt_to_bin : ℕ → ℕ → PawnedPw → List ℕ → List PawnedPw → List PawnedPw
unfolding convert_lines getlines new_writer close
txt_to_bin hash_size limit blank input out =
    close (convert_lines hash_size limit (getlines input) 0 (new_writer out 1000 blank))

abbrev pub add_line : List ℕ → PawnedPw → List ℕ
unfolding to_string
add_line out pw = out ++ (to_string pw ++ 10 ∷ [])

-- What the output has, with what is added.
unfoldable pub bin_to_txt : ℕ → List ℕ → M (Db PawnedPw) (List ℕ)
unfolding for_records add_line
bin_to_txt limit out db = for_records add_line (λ count. count == limit) db.dbsize 0 0 out db
