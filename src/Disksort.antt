-- ===== src/Disksort.antt =====
-- include/flat_file.hpp, `disksort` and what it calls: the range is sorted in chunks, each written to
-- a file, and the files are merged. A file is the list of its records; `less` is `comp` behind `proj`.
-- Chunk files are read and written without faults of the disk.

pub mod Reference
pub mod Merging
pub mod Merged
pub mod Primed
pub mod Chunks
pub mod Sorted
pub mod Reading
use hibp.Common.{
  ℕ, zero, suc, ◌+◌, ◌-◌, ◌*◌, ◌/◌, ◌%◌, min, Bool, true, false, List, [], ◌∷◌, ◌++◌, Option, none,
  some, ◌==◌, if◌then◌else◌, length, get_elem?, set,
}
use hibp.FlatFile.{
  Writer, new_writer, write, write_all, close, Db, File, Result, M, ok, err, undefined, return,
  ◌>>=◌, deref, open_db, sub64, Iterator,
}
use Prim.{Unit, tt}
use hibp.Search.{at}
use hibp.Sorting.{insert_in_order, sort}

module _ {A : Type 0} where
  -- `std::copy` of `n` records to the end of a vector.
  unfoldable pub read_range : ℕ → ℕ → List A → M (Db A) (List A)
  unfolding deref
  read_range zero pos objs = return objs
  read_range (suc n) pos objs = do
    (x, it) ← deref (at pos)
    read_range n (pos + 1) (objs ++ (x ∷ []))

-- An open chunk file, and the position of `current`; `end` is the end of the file.
pub record Chunk (A : Type 0) : Type 0 where
  pub db : Db A
  pub current : ℕ

-- `idx` is the chunk that the value comes from.
pub record Head (A : Type 0) : Type 0 where
  pub value : A
  pub idx : ℕ

pub record Merge (A : Type 0) : Type 0 where
  pub chunks : List (Chunk A)
  pub heads : List (Head A)
  pub sorted : Writer A

-- `total` counts the records of some files.
module _ {A : Type 0} where
  abbrev pub is_at_end : Option (Chunk A) → Bool
  is_at_end none = true
  is_at_end (some c) = c.current == c.db.dbsize

  -- Which head the queue gives first. The source hands the queue the negation of `comp`, as the largest
  -- comes first in a `std::priority_queue`; that is no strict weak ordering, since two equal heads each
  -- count as less than the other. Here the queue gives a least head nonetheless.
  abbrev pub head_less : (A → A → Bool) → Head A → Head A → Bool
  head_less less a b = less a.value b.value

  abbrev pub total : List (List A) → ℕ
  total [] = 0
  total (file ∷ files) = length file + total files

module _ {A : Type 0} (less : A → A → Bool) (record_size : ℕ) (blank : A) where
  -- The record goes into the queue, and the chunk's iterator forward.
  abbrev pub pulled :
      ℕ → Merge A → Chunk A → Result (A × Iterator) × Db A → Result (Unit {0}) × Merge A
  pulled idx m c (err e, db) =
      (err e, record m { chunks = set m.chunks idx (record c { db = db }) })
  pulled idx m c (ok (x, it), db) = (
    ok tt,
    record m {
      chunks = set m.chunks idx (record { db = db; current = c.current + 1 });
      heads = insert_in_order (head_less less) (record { value = x; idx = idx }) m.heads;
    },
  )

  abbrev pub pull_from : ℕ → Merge A → Option (Chunk A) → Result (Unit {0}) × Merge A
  pull_from idx m none = (err undefined, m)
  pull_from idx m (some c) = pulled idx m c (deref (at c.current) c.db)

  unfoldable pub pull : ℕ → M (Merge A) (Unit {0})
  unfolding insert_in_order deref
  pull idx m = pull_from idx m (get_elem? m.chunks idx)

  -- One record of each of the `n` chunks from `i`.
  unfoldable pub prime : ℕ → ℕ → M (Merge A) (Unit {0})
  unfolding pull
  prime zero i = return tt
  prime (suc n) i = do done ← pull i; prime n (i + 1)

  -- After the queue's first head is written and taken off, the next record of its chunk is put in.
  unfoldable pub refill : ℕ → M (Merge A) (Unit {0})
  unfolding pull
  refill idx m = elim (is_at_end (get_elem? m.chunks idx)) [
    | true ↦ (ok tt, m)
    | false ↦ pull idx m
  ]

  abbrev pub write_head : Merge A → Head A → List (Head A) → Merge A
  write_head m t rest = record m { sorted = write m.sorted t.value; heads = rest }

  -- The loop while the queue is not empty, on fuel.
  unfoldable pub merge_loop : ℕ → List (Head A) → M (Merge A) (Unit {0})
  unfolding refill write
  merge_loop fuel [] m = (ok tt, m)
  merge_loop zero (t ∷ rest) m = (err undefined, m)
  merge_loop (suc fuel) (t ∷ rest) m =
      (do done ← refill t.idx; λ m'. merge_loop fuel m'.heads m') (write_head m t rest)

  abbrev pub whole_file : List A → File A
  whole_file records = record { records = records; tail_bytes = 0; readable = true }

  abbrev pub and_chunk : Result (Db A) → Result (List (Chunk A)) → Result (List (Chunk A))
  and_chunk (err e) r = err e
  and_chunk (ok db) (err e) = err e
  and_chunk (ok db) (ok chunks) = ok (record { db = db; current = 0 } ∷ chunks)

  unfoldable pub open_chunks : List (List A) → Result (List (Chunk A))
  unfolding open_db
  open_chunks [] = ok []
  open_chunks (file ∷ files) =
      and_chunk (open_db record_size 1000 blank (some (whole_file file))) (open_chunks files)

  abbrev pub merge_result : Result (Unit {0}) × Merge A → Result (List A)
  merge_result (err e, m) = err e
  merge_result (ok done, m) = ok (close m.sorted)

  abbrev pub merge_opened : ℕ → Result (List (Chunk A)) → Result (List A)
  merge_opened fuel (err e) = err e
  merge_opened fuel (ok chunks) = merge_result (
      (do done ← prime (length chunks) 0; λ m. merge_loop fuel m.heads m)
        (record { chunks = chunks; heads = []; sorted = new_writer [] 1000 blank }))

  -- One round for each record is enough fuel.
  unfoldable pub merge_sorted_chunks : List (List A) → Result (List A)
  unfolding merge_loop prime new_writer close open_chunks
  merge_sorted_chunks files = merge_opened (total files) (open_chunks files)

  -- The records of the chunk file, for those that were read.
  unfoldable pub write_chunk : List A → List A
  unfolding sort write_all new_writer close
  write_chunk objs = close (write_all (new_writer [] 1000 blank) (sort less objs))

  -- The loop over the `n` chunks from `chunk`; `files` are those before.
  unfoldable pub sort_chunks : ℕ → ℕ → ℕ → ℕ → ℕ → List (List A) → M (Db A) (List (List A))
  unfolding read_range write_chunk
  sort_chunks first records_to_sort chunk_size zero chunk files = return files
  sort_chunks first records_to_sort chunk_size (suc n) chunk files = do
    objs ←
        read_range (min chunk_size (records_to_sort - chunk * chunk_size))
          (first + chunk * chunk_size) []
    sort_chunks first records_to_sort chunk_size n (chunk + 1) (files ++ (write_chunk objs ∷ []))

  abbrev pub number_of_chunks : ℕ → ℕ → ℕ
  number_of_chunks records_to_sort chunk_size =
      records_to_sort / chunk_size + (if records_to_sort % chunk_size == 0 then 0 else 1)

  -- A chunk size of zero, of an empty range or of less memory than a record takes, divides by zero.
  unfoldable pub sort_with : ℕ → ℕ → ℕ → M (Db A) (List (List A))
  unfolding sort_chunks
  sort_with first records_to_sort chunk_size db = elim (chunk_size == 0) [
    | true ↦ (err undefined, db)
    | false ↦
        sort_chunks first records_to_sort chunk_size (number_of_chunks records_to_sort chunk_size) 0
          [] db
  ]

  unfoldable pub sort_into_chunks : ℕ → ℕ → ℕ → M (Db A) (List (List A))
  unfolding sort_with
  sort_into_chunks first last max_memory_usage =
      let records_to_sort = sub64 last first in
      sort_with first records_to_sort (min records_to_sort (max_memory_usage / record_size))

  -- A single chunk file is renamed.
  abbrev pub merge_or_rename : List (List A) → Result (List A)
  merge_or_rename [] = merge_sorted_chunks []
  merge_or_rename (file ∷ []) = ok file
  merge_or_rename (file ∷ file' ∷ files) = merge_sorted_chunks (file ∷ file' ∷ files)

  -- The records of the sorted file.
  unfoldable pub disksort_range : ℕ → ℕ → ℕ → M (Db A) (List A)
  unfolding sort_into_chunks merge_sorted_chunks
  disksort_range first last max_memory_usage = do
    files ← sort_into_chunks first last max_memory_usage
    λ db. (merge_or_rename files, db)

  unfoldable pub disksort : ℕ → M (Db A) (List A)
  unfolding disksort_range
  disksort max_memory_usage db = disksort_range 0 db.dbsize max_memory_usage db
