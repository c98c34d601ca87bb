-- ===== src/TopN/Selection.antt =====
-- Which records app/hibp_topn.cpp keeps.
use hibp.Common.{
  refl, ℕ, zero, suc, ◌+◌, ◌/◌, ◌^◌, ◌≤◌, ◌<◌, ◌≡◌, sym, ap, ◌∙◌, true, false, List, [], ◌∷◌, ◌++◌,
  some, none, leb, length, take-length, length-take, take, drop, take-append-drop, All, All-take,
  All-drop, arith,
}
use Prim.{tt}
use hibp.ArrCmp.{Isa, Endian}
use hibp.Hibp.{PawnedPw, IsRecord}
use hibp.Hibp.Order.{key, pw_less}
use hibp.FlatFile.{Db, File, ok, open_db}
use hibp.FlatFile.Reading.{fits_one, Ready, open_db-Ready}
use hibp.FlatFile.Writing.{close-write_all}
use hibp.Sorting.{sort, count_if, SameElements, IsRanked}
use hibp.Sorting.Order.{count_if-append, sort-SameElements, sort-All, sort-IsRanked, length-sort}
use hibp.Search.Lookup.{IsDatabase}
use hibp.Disksort.{read_range}
use hibp.Disksort.Reading.{read_range-take}
use hibp.Sorter.{less_by_count}
use hibp.Sorter.Ranks.{
  rank_by_count, pw_less-Compares, less_by_count-Compares, Follows, All-Follows,
  IsRanked-IsDatabase,
}
use hibp.TopN.{
  TopNOptions, OutputFile, written, get_output_stream, partial_sort_copy, write_sorted,
  from_records, from_db, build_topn,
}

-- Every record of the second list follows every record of the first in the order of counts.
abbrev pub AllFollow : List PawnedPw → List PawnedPw → Type 0
AllFollow kept left = All (λ x. All (Follows x) left) kept

module _ (isa : Isa) (endian : Endian) (hash_size : ℕ) where
  IsRanked-split :
      (n : ℕ) (xs : List PawnedPw)
      → All (IsRecord hash_size) xs
      → IsRanked (rank_by_count hash_size) xs
      → AllFollow (take n xs) (drop n xs)
  IsRanked-split zero xs h r = tt
  IsRanked-split (suc n) [] h r = tt
  IsRanked-split (suc n) (x ∷ xs) h r = (
    All-Follows hash_size x (drop n xs) h.0 (All-drop (IsRecord hash_size) n xs h.1)
        (All-drop (λ y. rank_by_count hash_size x ≤ rank_by_count hash_size y) n xs r.0),
    IsRanked-split n xs h.1 r.1,
  )

  -- What the program takes for granted, and that there is a record more than asked for.
  pub record IsSelectable (topn : ℕ) (f : File PawnedPw) : Type 0 where
    pub valid : All (IsRecord hash_size) f.records
    pub whole : f.tail_bytes ≡ 0
    pub readable : f.readable ≡ true
    pub more : topn < length f.records
    pub countable : length f.records < 2 ^ 64
    pub short : hash_size + 4 ≤ 2 ^ 16

  module _ (blank : PawnedPw) where
    build_topn_step :
        (cli : TopNOptions) (output : OutputFile) (f : File PawnedPw) {db : Db PawnedPw}
        → cli.standard_output ≡ false
        → get_output_stream output cli.force ≡ none
        → open_db (hash_size + 4) (2 ^ 16 / (hash_size + 4)) blank (some f) ≡ ok db
        → build_topn isa endian hash_size blank cli output (some f)
          ≡ from_db isa endian hash_size blank false cli.topn (ok db)
    unfolding build_topn
    build_topn_step cli output f to_file free opened = rw (build_topn, to_file, free, opened) refl

    from_db_step :
        (topn : ℕ) (db db' : Db PawnedPw) (records : List PawnedPw)
        → topn < db.dbsize
        → read_range db.dbsize 0 [] db ≡ (ok records, db')
        → from_db isa endian hash_size blank false topn (ok db)
          ≡ write_sorted isa endian hash_size blank false
              (partial_sort_copy isa endian hash_size blank topn records)
    from_db_step topn db db' records more read =
        let some_more : leb db.dbsize topn ≡ false = ground arith in
        rw some_more (ap (from_records isa endian hash_size blank false topn) read)

    write_sorted_lem :
        (topn : ℕ) (records : List PawnedPw)
        → write_sorted isa endian hash_size blank false
            (partial_sort_copy isa endian hash_size blank topn records)
          ≡ written (
              sort
                (pw_less isa endian hash_size)
                (take topn (sort (less_by_count isa endian hash_size) records)))
    unfolding partial_sort_copy
    write_sorted_lem topn records = ap written (close-write_all [] _ 1000 blank (omega arith))

    read_all :
        (rs : List PawnedPw) (db : Db PawnedPw)
        → Ready rs db
        → (db' : Db PawnedPw) × (read_range db.dbsize 0 [] db ≡ (ok rs, db'))
    read_all rs db r =
        let (db', read, r') = read_range-take rs (length rs) 0 [] db r (omega arith) in
        (
          db',
          ap (λ n. read_range n 0 [] db) r.coherent.sized
              ∙ read
              ∙ ap (λ t. (ok t, db')) (take-length rs),
        )

    -- From a file of more well-formed records than are asked for, to an output file that may be written
    -- to, build_topn writes as many records as are asked for, as a database: sorted by hash. With some
    -- others they are the records of the file, and each of the others has a smaller count than each
    -- that is written, or the same count and a hash that is not before.
    pub build_topn-most_common :
        (cli : TopNOptions) (output : OutputFile) (f : File PawnedPw)
        → cli.standard_output ≡ false
        → get_output_stream output cli.force ≡ none
        → IsSelectable cli.topn f
        → (kept : List PawnedPw) × (left : List PawnedPw) × (build_topn isa endian hash_size blank
              cli output
              (some f)
            ≡ written kept)
          × IsDatabase hash_size kept
          × (length kept ≡ cli.topn)
          × SameElements (kept ++ left) f.records
          × AllFollow kept left
    build_topn-most_common cli output f to_file free s =
        let size = hash_size + 4 in
        let room = fits_one size (2 ^ 16) (omega arith) (omega (arith, s.short)) in
        let (db, opened, r) =
          open_db-Ready size (2 ^ 16 / size) blank f (omega arith) room s.whole s.readable
            s.countable in
        let sized = r.coherent.sized in
        let rs = f.records in
        let (db', read) = read_all rs db r in
        let by_count = less_by_count isa endian hash_size in
        let by_hash = pw_less isa endian hash_size in
        let ordered = sort by_count rs in
        let valid = sort-All by_count (IsRecord hash_size) rs s.valid in
        let ranked =
          sort-IsRanked (IsRecord hash_size) (rank_by_count hash_size) by_count
            (less_by_count-Compares isa endian hash_size) rs s.valid in
        let top = take cli.topn ordered in
        let top_valid = All-take (IsRecord hash_size) cli.topn ordered valid in
        (
          sort by_hash top,
          drop cli.topn ordered,
          build_topn_step cli output f to_file free opened
              ∙ from_db_step cli.topn db db' rs (omega (arith, sized, s.more)) read
              ∙ write_sorted_lem cli.topn rs,
          IsRanked-IsDatabase hash_size (sort by_hash top)
              (sort-All by_hash (IsRecord hash_size) top top_valid)
              (sort-IsRanked (IsRecord hash_size) key by_hash
                (pw_less-Compares isa endian hash_size) top top_valid),
          omega (
            arith,
            length-sort by_hash top,
            length-take cli.topn ordered,
            length-sort by_count rs,
            s.more,
          ),
          λ p.
              count_if-append p (sort by_hash top) (drop cli.topn ordered)
              ∙ ap (λ (t : ℕ). t + count_if p (drop cli.topn ordered))
                  (sort-SameElements by_hash top p)
              ∙ sym (count_if-append p top (drop cli.topn ordered))
              ∙ ap (count_if p) (take-append-drop cli.topn ordered)
              ∙ sort-SameElements by_count rs p,
          sort-All by_hash (λ x. All (Follows x) (drop cli.topn ordered)) top
              (IsRanked-split cli.topn ordered valid ranked),
        )
