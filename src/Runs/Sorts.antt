-- ===== src/Runs/Sorts.antt =====
-- Files of three records, out of order: sorted in two chunks, sorted as databases, and the two most
-- common of them selected.
use hibp.Common.{ℕ, ◌≡◌, refl, true, false, List, [], ◌∷◌, ◌++◌, some, ltb, length, arith, All}
use Prim.{Unit, tt}
use hibp.ArrCmp.Isa.{avx2}
use hibp.ArrCmp.Endian.{little}
use hibp.Hibp.{PawnedPw}
use hibp.FlatFile.{Db, File, ok, new_writer, write_all}
use hibp.FlatFile.Reading.{Ready}
use hibp.Sorting.{SameElements, IsRanked}
use hibp.Search.Lookup.{IsDatabase}
use hibp.Disksort.{Merge, merge_loop, disksort}
use hibp.Disksort.Reference.{merge_lists}
use hibp.Disksort.Merged.{merge_loop-merge_lists}
use hibp.Disksort.Sorted.{disksort-IsRanked}
use hibp.Sorter.{sort_db}
use hibp.Sorter.Ranks.{IsCountOrder}
use hibp.Sorter.Sorts.{IsSortable, sort_db-IsDatabase, sort_db-IsCountOrder}
use hibp.TopN.{TopNOptions, OutputFile, build_topn, written, get_output_stream}
use hibp.TopN.Selection.{AllFollow, IsSelectable, build_topn-most_common}
use hibp.Runs.Searches.{password, password-IsRecord}

abbrev shuffled : List ℕ
shuffled = 30 ∷ 10 ∷ 20 ∷ []

abbrev db_of : List ℕ → Db ℕ
db_of records = record {
  records = records;
  dbsize = length records;
  failed = false;
  buf_start = 0;
  buf_end = 0;
  buf = 0 ∷ 0 ∷ [];
}

shuffled-Ready : Ready shuffled (db_of shuffled)
shuffled-Ready = record {
  coherent = record {
    same = refl;
    sized = refl;
    small = omega arith;
    ordered = omega arith;
    inside = omega arith;
    held = λ i lo hi. absurd (omega arith);
  };
  healthy = refl;
  room = omega arith;
}

disksort_in_two_chunks : (disksort ltb 1 0 2 (db_of shuffled)).0 ≡ ok (10 ∷ 20 ∷ 30 ∷ [])
unfolding disksort
disksort_in_two_chunks = refl

disksort-IsRanked_example :
    (sorted : List ℕ) × (db' : Db ℕ) × (disksort ltb 1 0 2 (db_of shuffled) ≡ (ok sorted, db'))
    × IsRanked (λ n. n) sorted
    × All (λ n. Unit {0}) sorted
    × SameElements sorted shuffled
    × Ready shuffled db'
disksort-IsRanked_example =
    disksort-IsRanked (λ n. Unit {0}) (λ n. n) ltb (λ a b va vb. refl) 1 0 2 shuffled
      (db_of shuffled) shuffled-Ready (tt, (tt, (tt, tt))) (omega arith) (omega arith)

abbrev shuffled_passwords : File PawnedPw
shuffled_passwords = record {
  records = password 130 7 ∷ password 0 9 ∷ password 100 7 ∷ [];
  tail_bytes = 0;
  readable = true;
}

passwords-IsSortable : IsSortable avx2 little 8 1 shuffled_passwords
passwords-IsSortable = record {
  valid = (
    password-IsRecord 130 7 (omega arith) (omega arith),
    (
      password-IsRecord 0 9 (omega arith) (omega arith),
      (password-IsRecord 100 7 (omega arith) (omega arith), tt),
    ),
  );
  whole = refl;
  readable = refl;
  some_records = omega arith;
  countable = omega arith;
  short = omega arith;
  room = omega arith;
}

sort_db-IsDatabase_example :
    (sorted : List PawnedPw) × (sort_db avx2 little 8 false 1
        (password 0 0)
        (some shuffled_passwords)
      ≡ ok sorted)
    × IsDatabase 8 sorted
    × SameElements sorted shuffled_passwords.records
sort_db-IsDatabase_example =
    sort_db-IsDatabase avx2 little 8 1 (password 0 0) shuffled_passwords passwords-IsSortable

sort_db-IsCountOrder_example :
    (sorted : List PawnedPw) × (sort_db avx2 little 8 true 1
        (password 0 0)
        (some shuffled_passwords)
      ≡ ok sorted)
    × IsCountOrder sorted
    × SameElements sorted shuffled_passwords.records
sort_db-IsCountOrder_example =
    sort_db-IsCountOrder avx2 little 8 1 (password 0 0) shuffled_passwords passwords-IsSortable

abbrev two_to_a_file : TopNOptions
two_to_a_file = record {
  output_filename = 111 ∷ [];
  force = false;
  standard_output = false;
  ntlm = false;
  sha1t64 = true;
  topn = 2;
}

abbrev new_file : OutputFile
new_file = record { exists = false; writable = true }

passwords-IsSelectable : IsSelectable avx2 little 8 2 shuffled_passwords
passwords-IsSelectable = record {
  valid = passwords-IsSortable.valid;
  whole = refl;
  readable = refl;
  more = omega arith;
  countable = omega arith;
  short = omega arith;
}

build_topn-most_common_example :
    (kept : List PawnedPw) × (left : List PawnedPw) × (build_topn avx2 little 8
        (password 0 0)
        two_to_a_file
        new_file
        (some shuffled_passwords)
      ≡ written kept)
    × IsDatabase 8 kept
    × (length kept ≡ 2)
    × SameElements (kept ++ left) shuffled_passwords.records
    × AllFollow kept left
unfolding get_output_stream
build_topn-most_common_example =
    build_topn-most_common avx2 little 8 (password 0 0) two_to_a_file new_file shuffled_passwords
      refl refl passwords-IsSelectable

merge_loop-merge_lists_example :
    (m' : Merge ℕ) × (merge_loop ltb 1 0 4 (record { value = 25; idx = 0 } ∷ []) (record {
      chunks = record { db = db_of shuffled; current = 0 } ∷ [];
      heads = record { value = 25; idx = 0 } ∷ [];
      sorted = new_writer [] 1000 0;
    })
      ≡ (ok tt, m'))
    × (m'.sorted
        ≡ write_all
            (new_writer [] 1000 0)
            (merge_lists ltb 4 (shuffled ∷ [], record { value = 25; idx = 0 } ∷ [])))
merge_loop-merge_lists_example =
    merge_loop-merge_lists ltb 1 0 4 (record { db = db_of shuffled; current = 0 } ∷ [])
      (record { value = 25; idx = 0 } ∷ []) (new_writer [] 1000 0) (shuffled ∷ [])
      (record { file = shuffled; ready = shuffled-Ready; within = omega arith; rest = refl }, tt)
      (omega arith)
