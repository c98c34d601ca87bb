-- ===== src/Resume.antt =====
-- src/dnl/resume.cpp: how far an earlier download has come. The file of a prefix, as the server gives
-- it now, is a parameter.
pub mod Trimming
pub mod Served
pub mod Complete
pub mod Trimmed
pub mod Incomplete
use hibp.Common.{
  ℕ, zero, suc, ◌+◌, ◌-◌, ◌*◌, Bool, true, false, List, [], ◌∷◌, ◌++◌, Option, none, some, ◌==◌,
  if◌then◌else◌, ltb, take, drop,
}
use hibp.Text.{same_text, from_chars_hex}
use hibp.ArrCmp.{Isa, Endian}
use hibp.Hibp.{PawnedPw, of_text, to_string}
use hibp.Hibp.Order.{pw_equal}
use hibp.FlatFile.{Db, File, Result, M, ok, err, Error, return, ◌>>=◌, sub64, deref, back, open_db}
use hibp.Search.{at}

pub data ResumeError : Type 0 where
  database_error : Error → ResumeError
  corrupt_download not_found : ResumeError

-- The last prefix, and the records that the file has afterwards.
pub data Resumed : Type 0 where
  resumed : ℕ → List PawnedPw → Resumed
  refused : ResumeError → Resumed

abbrev shift : Option ℕ → Bool → Option ℕ
shift (some i) here = some (i + 1)
shift none true = some 0
shift none false = none

-- `find_last_of`
unfoldable pub find_last_of : ℕ → List ℕ → Option ℕ
find_last_of c [] = none
find_last_of c (x ∷ text) = shift (find_last_of c text) (x == c)

abbrev pub substr : List ℕ → ℕ → ℕ → List ℕ
substr text pos n = take n (drop pos text)

module _ (isa : Isa) (endian : Endian) (hash_size : ℕ) where
  -- `std::find` over the reversed iterators: from the last of `n` records to the first.
  unfoldable pub find_from_back : PawnedPw → ℕ → M (Db PawnedPw) (Option ℕ)
  unfolding deref pw_equal
  find_from_back needle zero = return none
  find_from_back needle (suc n) = do
    (x, it) ← deref (at n)
    elim (pw_equal isa endian hash_size x needle) [
      | true ↦ return (some n)
      | false ↦ find_from_back needle n
    ]

  -- The file is cut before the record that was found, and its prefix is to be downloaded again.
  abbrev pub trimmed : List ℕ → List PawnedPw → Result (Option ℕ) × Db PawnedPw → Resumed
  trimmed first_file_hash records (err e, db) = refused (database_error e)
  trimmed first_file_hash records (ok none, db) = refused not_found
  trimmed first_file_hash records (ok (some i), db) =
      resumed (sub64 (from_chars_hex (take 5 first_file_hash) 0) 1) (take i records)

  abbrev suffix_str_size : ℕ
  suffix_str_size = hash_size * 2 - 5

  -- With the text of the last record, and the file of its prefix.
  unfoldable pub compare_file : List ℕ → List ℕ → Option ℕ → List PawnedPw → Db PawnedPw → Resumed
  unfolding find_from_back of_text from_chars_hex
  compare_file last_db_hash filebody none records db = refused corrupt_download
  compare_file last_db_hash filebody (some pos_colon) records db =
      if ltb pos_colon suffix_str_size
      then refused corrupt_download
      else if same_text (substr filebody (pos_colon - suffix_str_size) suffix_str_size)
          (substr last_db_hash 5 suffix_str_size)
      then resumed (from_chars_hex (take 5 last_db_hash) 0) records
      else (let first_file_hash = take 5 last_db_hash ++ take suffix_str_size filebody in
          trimmed first_file_hash records
            (find_from_back (of_text hash_size first_file_hash) db.dbsize db))

  abbrev pub with_last : (List ℕ → List ℕ) → List PawnedPw → Result PawnedPw × Db PawnedPw → Resumed
  unfolding compare_file find_last_of to_string
  with_last web records (err e, db) = refused (database_error e)
  with_last web records (ok last, db) =
      let last_db_hash = take (hash_size * 2) (to_string last) in
      let filebody = web (take 5 last_db_hash) in
      compare_file last_db_hash filebody (find_last_of 58 filebody) records db

  abbrev with_db : (List ℕ → List ℕ) → List PawnedPw → Result (Db PawnedPw) → Resumed
  unfolding with_last back
  with_db web records (err e) = refused (database_error e)
  with_db web records (ok db) = with_last web records (back db)

  -- Bytes behind the last whole record are cut off first.
  unfoldable pub get_last_prefix : (List ℕ → List ℕ) → PawnedPw → File PawnedPw → Resumed
  unfolding with_db open_db
  get_last_prefix web blank file =
      with_db web file.records
        (open_db (hash_size + 4) 1 blank (some (record file { tail_bytes = 0 })))
