-- ===== src/Toc.antt =====
-- src/toc.cpp: the table of contents. Entry `p` of the table is the position in the database of the
-- first record whose hash starts with the bits of `p`; a search looks between two entries.
pub mod Prefix
pub mod Entries
pub mod Build
pub mod Lookup
pub mod Stored
use hibp.Common.{
  ℕ, zero, suc, ◌+◌, ◌-◌, ◌*◌, ◌/◌, ◌%◌, ◌^◌, Bool, true, false, List, [], ◌∷◌, ◌++◌, Option, none,
  some, ltb, leb, ◌==◌, if◌then◌else◌, length, take, drop, get_or,
}
use hibp.ArrCmp.{Isa, Endian, load, bytearray_cast}
use hibp.ArrCmp.Endian.{little, big}
use hibp.Hibp.{PawnedPw}
use hibp.FlatFile.{
  Db, File, Result, M, ok, err, Error, value_type_too_small, missing_prefix, undefined, return,
  ◌>>=◌, deref, open_db, back,
}
use hibp.Search.{at, lower_bound, if_equal, plain_search}

abbrev pub toc_entry_size : ℕ
toc_entry_size = 4

abbrev pub throw : {S A : Type 0} → Error → M S A
throw e s = (err e, s)

module _ (endian : Endian) (bits : ℕ) where
  -- `bits` is 1 to 32: a shift by 32 bits or more is undefined.
  unfoldable pub pw_to_prefix : PawnedPw → ℕ
  unfolding bytearray_cast
  pw_to_prefix pw =
      bytearray_cast endian toc_entry_size true pw.hash / 2 ^ (toc_entry_size * 8 - bits)

  -- `std::find_if` over the `n` records from `pos`.
  unfoldable pub find_prefix : ℕ → ℕ → ℕ → M (Db PawnedPw) ℕ
  unfolding deref pw_to_prefix
  find_prefix prefix zero pos = return pos
  find_prefix prefix (suc n) pos = do
    (x, it) ← deref (at pos)
    elim (pw_to_prefix x == prefix) [ true ↦ return pos | false ↦ find_prefix prefix n (pos + 1) ]

  -- The loop over the `n` prefixes from `prefix`; `table` is what it has pushed so far.
  unfoldable pub build_entries : ℕ → ℕ → ℕ → List ℕ → M (Db PawnedPw) (List ℕ)
  unfolding find_prefix
  build_entries zero prefix last_pos table db = (ok table, db)
  build_entries (suc n) prefix last_pos table db =
      (do
        found ← find_prefix prefix (db.dbsize - last_pos) last_pos
        elim (found == db.dbsize) [
          | true ↦ throw (missing_prefix prefix)
          | false ↦ build_entries n (prefix + 1) (found % 2 ^ 32) (table ++ (found % 2 ^ 32 ∷ []))
        ])
        db

  -- One entry for each prefix, or for each up to the last record's; the sum is one of 32 bits.
  unfoldable pub toc_entries : ℕ → ℕ
  toc_entries last_pw_prefix =
      let next = (last_pw_prefix + 1) % 2 ^ 32 in if ltb next (2 ^ bits) then next else 2 ^ bits

  -- `build` on the opened database; a division by zero has no defined result.
  unfoldable pub build_from : M (Db PawnedPw) (List ℕ)
  unfolding pw_to_prefix build_entries toc_entries back
  build_from db =
      (do
        last ← back
        elim (ltb (2 ^ 32 - 1) db.dbsize) [
          | true ↦ throw value_type_too_small
          | false ↦ elim (toc_entries (pw_to_prefix last) == 0) [
            | true ↦ throw undefined
            | false ↦ build_entries (toc_entries (pw_to_prefix last)) 0 0 []
          ]
        ])
        db

  abbrev built : Result (Db PawnedPw) → Result (List ℕ)
  built (ok db) = (build_from db).0
  built (err e) = err e

  unfoldable pub build : ℕ → PawnedPw → Option (File PawnedPw) → Result (List ℕ)
  unfolding build_from open_db
  build record_size blank file = built (open_db record_size (2 ^ 16 / record_size) blank file)

-- A word of `n` bytes as it stands in memory.
unfoldable pub store_le : ℕ → ℕ → List ℕ
store_le zero x = []
store_le (suc n) x = (x % 256) ∷ store_le n (x / 256)

unfoldable pub store_be : ℕ → ℕ → List ℕ
store_be zero x = []
store_be (suc n) x = store_be n (x / 256) ++ (x % 256 ∷ [])

unfoldable pub store : Endian → ℕ → ℕ → List ℕ
unfolding store_le store_be
store little n x = store_le n x
store big n x = store_be n x

unfoldable pub save : Endian → List ℕ → List ℕ
unfolding store
save endian [] = []
save endian (x ∷ table) = store endian toc_entry_size x ++ save endian table

-- As many entries as the file's size holds.
unfoldable pub load_entries : Endian → ℕ → List ℕ → List ℕ
unfolding load
load_entries endian zero bytes = []
load_entries endian (suc n) bytes =
    load endian (take toc_entry_size bytes) ∷ load_entries endian n (drop toc_entry_size bytes)

unfoldable pub load_toc : Endian → List ℕ → List ℕ
unfolding load_entries
load_toc endian bytes = load_entries endian (length bytes / toc_entry_size) bytes

-- A file that may be there, with its time and its bytes.
pub record TocFile : Type 0 where
  pub time : ℕ
  pub bytes : List ℕ

-- `toc_build`: the table, and the file beside the database. A table is built anew when there is
-- none, or one that is no newer than the database.
abbrev pub Built : Type 0
Built = Result (List ℕ) × Option TocFile

abbrev saved : Endian → ℕ → Option TocFile → Result (List ℕ) → Built
saved endian now old (ok table) =
    (ok table, some (record { time = now; bytes = save endian table }))
saved endian now old (err e) = (err e, old)

unfoldable pub toc_build :
    Endian → ℕ → ℕ → PawnedPw → Option (File PawnedPw) → ℕ → ℕ → Option TocFile → Built
unfolding build save load_toc
toc_build endian bits record_size blank file db_time now none =
    saved endian now none (build endian bits record_size blank file)
toc_build endian bits record_size blank file db_time now (some toc_file) =
    elim (leb toc_file.time db_time) [
      | true ↦ saved endian now (some toc_file) (build endian bits record_size blank file)
      | false ↦ (ok (load_toc endian toc_file.bytes), some toc_file)
    ]

module _ (isa : Isa) (endian : Endian) (hash_size bits : ℕ) (table : List ℕ)
    (needle : PawnedPw) where
  abbrev pub begin_offset : ℕ → ℕ
  begin_offset prefix = get_or table prefix 0

  abbrev pub end_offset : ℕ → ℕ → ℕ
  end_offset prefix dbsize =
      let next = (prefix + 1) % 2 ^ 32 in
      if ltb next (length table) then get_or table next 0 else dbsize

  unfoldable pub toc_search : M (Db PawnedPw) (Option PawnedPw)
  unfolding pw_to_prefix lower_bound if_equal
  toc_search db =
      let prefix = pw_to_prefix endian bits needle in
      elim (leb (length table) prefix) [
        | true ↦ (ok none, db)
        | false ↦
            (do
              pos ←
                  lower_bound isa endian hash_size needle (begin_offset prefix)
                    (end_offset prefix db.dbsize)
              if_equal isa endian hash_size needle pos)
              db
      ]

  -- `search_and_respond` of src/srv/server.cpp and `run_search` of app/hibp_search.cpp.
  unfoldable pub search_db : Bool → M (Db PawnedPw) (Option PawnedPw)
  unfolding toc_search plain_search
  search_db true = toc_search
  search_db false = plain_search isa endian hash_size needle
