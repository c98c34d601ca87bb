-- ===== src/FilterBuilder.antt =====
-- app/hibp_build_filter.cpp: the keys that are handed to the library of filters, for a filter of 8 bits.
pub mod Keys
use hibp.Common.{ℕ, ◌+◌, ◌/◌, ◌%◌, ◌^◌, ◌==◌, true, List, [], ◌∷◌, ◌++◌, Option}
use hibp.ArrCmp.{Endian, bytearray_cast}
use hibp.Hibp.{PawnedPw, sha1}
use hibp.FlatFile.{Db, File, Result, ok, err, open_db}
use hibp.Loops.{for_records}

module _ (endian : Endian) where
  -- The first eight bytes of the hash, as they lie in memory and then swapped to big-endian.
  abbrev pub filter_key : PawnedPw → ℕ
  filter_key pw = bytearray_cast endian 8 true pw.hash

  -- `stream_add`
  abbrev pub add_key : List ℕ → PawnedPw → List ℕ
  add_key keys pw = keys ++ (filter_key pw ∷ [])

  abbrev keys_of : ℕ → Result (Db PawnedPw) → Result (List ℕ)
  unfolding for_records
  keys_of limit (err e) = err e
  keys_of limit (ok db) =
      (for_records add_key (λ count. count % 2 ^ 32 == limit) db.dbsize 0 0 [] db).0

  -- `build`; the count is an `unsigned`.
  unfoldable pub build_filter : ℕ → PawnedPw → Option (File PawnedPw) → Result (List ℕ)
  unfolding keys_of open_db
  build_filter limit blank input =
      keys_of limit (open_db (sha1 + 4) (2 ^ 16 / (sha1 + 4)) blank input)
