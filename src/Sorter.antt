-- ===== src/Sorter.antt =====
-- app/hibp_sort.cpp: a database file is sorted by hash, or by falling counts.
pub mod Ranks
pub mod Sorts
use hibp.Common.{
  ℕ, ◌+◌, ◌*◌, ◌/◌, ◌%◌, ◌^◌, Bool, true, false, List, [], ◌∷◌, Option, if◌then◌else◌, eq_ℤ, lt_ℤ,
}
use hibp.ArrCmp.{Isa, Endian}
use hibp.Hibp.{PawnedPw}
use hibp.Hibp.Order.{pw_less}
use hibp.FlatFile.{Db, File, Result, ok, err, open_db}
use hibp.Disksort.{disksort}

module _ (isa : Isa) (endian : Endian) (hash_size : ℕ) where
  -- The larger count first; records of one count by hash.
  unfoldable pub less_by_count : PawnedPw → PawnedPw → Bool
  unfolding pw_less
  less_by_count a b =
      if eq_ℤ a.count b.count then pw_less isa endian hash_size a b else lt_ℤ b.count a.count

  abbrev pub comparison : Bool → PawnedPw → PawnedPw → Bool
  comparison sort_by_count = if sort_by_count then less_by_count else pw_less isa endian hash_size

  abbrev pub record_size : ℕ
  record_size = hash_size + 4

  abbrev pub sort_opened : Bool → ℕ → PawnedPw → Result (Db PawnedPw) → Result (List PawnedPw)
  sort_opened sort_by_count max_memory blank (err e) = err e
  sort_opened sort_by_count max_memory blank (ok db) =
      (disksort (comparison sort_by_count) record_size blank (max_memory * 1024 * 1024 % 2 ^ 64)
        db).0

  -- `max_memory` is in megabytes. The result is what the sorted file holds.
  unfoldable pub sort_db : Bool → ℕ → PawnedPw → Option (File PawnedPw) → Result (List PawnedPw)
  unfolding less_by_count pw_less disksort open_db
  sort_db sort_by_count max_memory blank file =
      sort_opened sort_by_count max_memory blank
        (open_db record_size (4096 / record_size) blank file)
