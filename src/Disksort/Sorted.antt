-- ===== src/Disksort/Sorted.antt =====
-- `disksort` as a whole.
use hibp.Common.{
  ℕ, ◌+◌, ◌*◌, ◌/◌, ◌%◌, ◌≤◌, ◌<◌, ◌≡◌, ◌^◌, refl, ap, ◌∙◌, Bool, false, min, List, [], ◌∷◌, ◌==◌,
  if◌then◌else◌, length, drop, All, arith, Bool-cases, inl, inr,
}
use native.Mathlib.Nat.{div-add-mod', mod-lt}
use hibp.FlatFile.{Db, Result, ok, err, sub64, and_then}
use hibp.FlatFile.Reading.{Ready}
use hibp.Sorting.{count_if, SameElements, IsRanked}
use hibp.Sorting.Order.{Compares}
use hibp.Disksort.{
  sort_with, sort_chunks, number_of_chunks, sort_into_chunks, merge_or_rename, disksort_range,
  disksort,
}
use hibp.Disksort.Reference.{count_all}
use hibp.Disksort.Primed.{merge_sorted_chunks-IsRanked}
use hibp.Disksort.Chunks.{
  chunks_of, chunks_of-count, chunks_of-sizes, chunks_of-All, chunks_of-IsRanked,
  sort_chunks-chunks_of,
}

-- The number of chunks is enough for the records, and no chunk is empty.
chunk_count :
    (records chunk_size : ℕ)
    → 0 < chunk_size
    → (records ≤ (records / chunk_size + (if records % chunk_size == 0 then 0 else 1)) * chunk_size)
      × ((records / chunk_size + (if records % chunk_size == 0 then 0 else 1)) * chunk_size
          < records + chunk_size)
chunk_count records chunk_size h =
    let split = div-add-mod' records chunk_size in
    let small = mod-lt records h in
    elim (Bool-cases (records % chunk_size == 0)) [
      | inl e ↦
          let none_left : records % chunk_size ≡ 0 = ground arith in
          let e' : records / chunk_size + 0 ≡ records / chunk_size = omega arith in
          rw (e, e') (omega arith, omega arith)
      | inr e ↦
          let some_left : 0 < records % chunk_size = ground arith in
          let e' : (records / chunk_size + 1) * chunk_size
              ≡ records / chunk_size * chunk_size + chunk_size =
            omega arith in
          rw (e, e') (omega arith, omega arith)
    ]

module _ {A : Type 0} (P : A → Type 0) (rank : A → ℕ) (less : A → A → Bool)
    (compares : Compares P rank less) (record_size : ℕ) (blank : A) where
  merge_or_rename-IsRanked :
      (files : List (List A))
      → 0 < record_size
      → All (λ file. length file < 2 ^ 64) files
      → All (λ file. 0 < length file) files
      → All (All P) files
      → All (IsRanked rank) files
      → (sorted : List A) × (merge_or_rename less record_size blank files ≡ ok sorted)
        × IsRanked rank sorted
        × All P sorted
        × ((p : A → Bool) → count_if p sorted ≡ count_all p files)
  merge_or_rename-IsRanked [] h small filled valid ranked =
      merge_sorted_chunks-IsRanked P rank less compares record_size blank [] h small filled valid
        ranked
  merge_or_rename-IsRanked (file ∷ []) h small filled valid ranked =
      (file, refl, ranked.0, valid.0, λ p. omega arith)
  merge_or_rename-IsRanked (file ∷ file' ∷ files) h small filled valid ranked =
      merge_sorted_chunks-IsRanked P rank less compares record_size blank (file ∷ file' ∷ files) h
        small filled valid ranked

module _ {A : Type 0} (less : A → A → Bool) (record_size : ℕ) (blank : A) where
  sort_with_some :
      (first records chunk_size : ℕ) (db : Db A)
      → (chunk_size == 0) ≡ false
      → sort_with less record_size blank first records chunk_size db
        ≡ sort_chunks less record_size blank first records chunk_size
            (number_of_chunks less record_size blank records chunk_size)
            0
            []
            db
  unfolding sort_with
  sort_with_some first records chunk_size db e = rw (e, sort_with) refl

  -- What the sorter makes of its chunk files.
  abbrev from_files : Result (List (List A)) × Db A → Result (List A) × Db A
  from_files (err e, db) = (err e, db)
  from_files (ok files, db) = (merge_or_rename less record_size blank files, db)

  from_files_bind :
      (r : Result (List (List A)) × Db A)
      → and_then r (λ files db. (merge_or_rename less record_size blank files, db)) ≡ from_files r
  from_files_bind (err e, db) = refl
  from_files_bind (ok files, db) = refl

  disksort_whole :
      (max_memory_usage : ℕ) (db : Db A)
      → db.dbsize < 2 ^ 64
      → disksort less record_size blank max_memory_usage db
        ≡ from_files (
            sort_with less record_size blank 0 db.dbsize
              (min db.dbsize (max_memory_usage / record_size))
              db)
  unfolding disksort_range disksort sort_into_chunks
  disksort_whole max_memory_usage db small =
      let whole : sub64 db.dbsize 0 ≡ db.dbsize = omega arith in
      from_files_bind (
        sort_with less record_size blank 0 (sub64 db.dbsize 0)
          (min (sub64 db.dbsize 0) (max_memory_usage / record_size)) db)
      ∙ ap
          (λ n.
            from_files
              (sort_with less record_size blank 0 n (min n (max_memory_usage / record_size)) db))
          whole

module _ {A : Type 0} (P : A → Type 0) (rank : A → ℕ) (less : A → A → Bool)
    (compares : Compares P rank less) (record_size : ℕ) (blank : A) where
  -- A ready database of records of a kind that the comparison orders by rank, each of one byte or
  -- more, is sorted, in chunks of any number of records but none, and merged: the sorter ends,
  -- throws nothing, and its file has exactly the records of the database, by rank.
  pub disksort-IsRanked :
      (max_memory_usage : ℕ) (rs : List A) (db : Db A)
      → Ready rs db
      → All P rs
      → 0 < record_size
      → 0 < min (length rs) (max_memory_usage / record_size)
      → (sorted : List A) × (db' : Db A) × (disksort less record_size blank max_memory_usage db
          ≡ (ok sorted, db'))
        × IsRanked rank sorted
        × All P sorted
        × SameElements sorted rs
        × Ready rs db'
  disksort-IsRanked max_memory_usage rs db r valid h fits =
      let sized = r.coherent.sized in
      let small = r.coherent.small in
      let chunk_size = min (length rs) (max_memory_usage / record_size) in
      let n = number_of_chunks less record_size blank (length rs) chunk_size in
      let (enough, filled) = chunk_count (length rs) chunk_size fits in
      let (db', sorts, r') =
        sort_chunks-chunks_of less chunk_size record_size blank rs n 0 [] db r fits (omega arith) in
      let start : drop (0 * chunk_size) rs ≡ rs =
        let e : 0 * chunk_size ≡ 0 = omega arith in rw e refl in
      let files = chunks_of less chunk_size n rs in
      let (some_records, bounded) =
        chunks_of-sizes less chunk_size (2 ^ 64) n rs fits filled small in
      let (sorted, merges, ranked, kept, same) =
        merge_or_rename-IsRanked P rank less compares record_size blank files h bounded some_records
          (chunks_of-All less chunk_size P n rs valid)
          (chunks_of-IsRanked less chunk_size P rank n rs compares valid) in
      (
        sorted,
        db',
        disksort_whole less record_size blank max_memory_usage db (omega (arith, sized, small))
            ∙ ap
                (λ t. from_files less record_size blank (
                  sort_with less record_size blank 0 t (min t (max_memory_usage / record_size)) db))
                sized
            ∙ ap (from_files less record_size blank) (
                sort_with_some less record_size blank 0 (length rs) chunk_size db (ground arith)
                ∙ sorts
                ∙ ap (λ t. (ok (chunks_of less chunk_size n t), db')) start)
            ∙ ap (λ t. (t, db')) merges,
        ranked,
        kept,
        λ p. same p ∙ chunks_of-count less chunk_size p n rs enough,
        r',
      )
