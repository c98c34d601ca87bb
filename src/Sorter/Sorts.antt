-- ===== src/Sorter/Sorts.antt =====
-- What the sorter makes of a database file.
use hibp.Common.{
  ℕ, ◌+◌, ◌*◌, ◌/◌, ◌%◌, ◌^◌, ◌≤◌, ◌<◌, ◌≡◌, ap, ◌∙◌, Bool, true, false, List, some, length, All,
  arith,
}
use hibp.ArrCmp.{Isa, Endian}
use hibp.Hibp.{PawnedPw, IsRecord}
use hibp.Hibp.Order.{key}
use hibp.FlatFile.{Db, File, Result, ok, open_db}
use hibp.FlatFile.Reading.{fits_one, open_db-Ready}
use hibp.Sorting.{SameElements, IsRanked}
use hibp.Sorting.Order.{Compares}
use hibp.Search.Lookup.{IsDatabase}
use hibp.Disksort.Sorted.{disksort-IsRanked}
use hibp.Sorter.{comparison, sort_opened, sort_db}
use hibp.Sorter.Ranks.{
  rank_by_count, pw_less-Compares, less_by_count-Compares, IsCountOrder, IsRanked-IsCountOrder,
  IsRanked-IsDatabase,
}

module _ (isa : Isa) (endian : Endian) (hash_size : ℕ) where
  -- What the sorter takes for granted: a readable file of whole well-formed records, not none and
  -- fewer than 2 ^ 64, of at most 4096 bytes, and memory for one of them at least.
  pub record IsSortable (max_memory : ℕ) (f : File PawnedPw) : Type 0 where
    pub valid : All (IsRecord hash_size) f.records
    pub whole : f.tail_bytes ≡ 0
    pub readable : f.readable ≡ true
    pub some_records : 0 < length f.records
    pub countable : length f.records < 2 ^ 64
    pub short : hash_size + 4 ≤ 4096
    pub room : hash_size + 4 ≤ max_memory * 1024 * 1024 % 2 ^ 64

  sort_db_step :
      (sort_by_count : Bool) (max_memory : ℕ) (blank : PawnedPw) (f : File PawnedPw)
      {db : Db PawnedPw}
      → open_db (hash_size + 4) (4096 / (hash_size + 4)) blank (some f) ≡ ok db
      → sort_db isa endian hash_size sort_by_count max_memory blank (some f)
        ≡ sort_opened isa endian hash_size sort_by_count max_memory blank (ok db)
  unfolding sort_db
  sort_db_step sort_by_count max_memory blank f e =
      ap (sort_opened isa endian hash_size sort_by_count max_memory blank) e

  sort_db-IsRanked :
      (rank : PawnedPw → ℕ) (sort_by_count : Bool) (max_memory : ℕ) (blank : PawnedPw)
      (f : File PawnedPw)
      → Compares (IsRecord hash_size) rank (comparison isa endian hash_size sort_by_count)
      → IsSortable max_memory f
      → (sorted : List PawnedPw) × (sort_db isa endian hash_size sort_by_count max_memory blank
            (some f)
          ≡ ok sorted)
        × IsRanked rank sorted
        × All (IsRecord hash_size) sorted
        × SameElements sorted f.records
  sort_db-IsRanked rank sort_by_count max_memory blank f c s =
      let size = hash_size + 4 in
      let bytes = max_memory * 1024 * 1024 % 2 ^ 64 in
      let (db, opened, r) =
        open_db-Ready size (4096 / size) blank f (omega arith)
          (fits_one size 4096 (omega arith) s.short) s.whole s.readable s.countable in
      let one = fits_one size bytes (omega arith) s.room in
      let (sorted, db', sorts, ranked, kept, same, r') =
        disksort-IsRanked (IsRecord hash_size) rank (comparison isa endian hash_size sort_by_count)
          c size blank bytes f.records db r s.valid (omega arith)
          (omega (arith, one, s.some_records)) in
      (
        sorted,
        sort_db_step sort_by_count max_memory blank f opened
            ∙ ap (λ (t : Result (List PawnedPw) × Db PawnedPw). t.0) sorts,
        ranked,
        kept,
        same,
      )

  -- Without --sort-by-count, the sorter makes of a sortable file a database: sorted by hash, with
  -- exactly the records of the file. Sortable is a readable file of whole well-formed records of at
  -- most 4096 bytes, not none and fewer than 2 ^ 64, with memory for one of them.
  pub sort_db-IsDatabase :
      (max_memory : ℕ) (blank : PawnedPw) (f : File PawnedPw)
      → IsSortable max_memory f
      → (sorted : List PawnedPw) × (sort_db isa endian hash_size false max_memory blank (some f)
          ≡ ok sorted)
        × IsDatabase hash_size sorted
        × SameElements sorted f.records
  sort_db-IsDatabase max_memory blank f s =
      let (sorted, sorts, ranked, kept, same) =
        sort_db-IsRanked key false max_memory blank f (pw_less-Compares isa endian hash_size) s in
      (sorted, sorts, IsRanked-IsDatabase hash_size sorted kept ranked, same)

  -- With --sort-by-count, each record of the sorted file has a larger count than the records behind
  -- it, or the same count and a hash that is not behind theirs; the records are exactly those of
  -- the file. The file is sortable.
  pub sort_db-IsCountOrder :
      (max_memory : ℕ) (blank : PawnedPw) (f : File PawnedPw)
      → IsSortable max_memory f
      → (sorted : List PawnedPw) × (sort_db isa endian hash_size true max_memory blank (some f)
          ≡ ok sorted)
        × IsCountOrder sorted
        × SameElements sorted f.records
  sort_db-IsCountOrder max_memory blank f s =
      let (sorted, sorts, ranked, kept, same) =
        sort_db-IsRanked (rank_by_count hash_size) true max_memory blank f
          (less_by_count-Compares isa endian hash_size) s in
      (sorted, sorts, IsRanked-IsCountOrder hash_size sorted kept ranked, same)
