-- ===== src/Runs/Diffs.antt =====
-- A database of two hashes, and one with a new count and another hash at the end. And databases of
-- four records, with buffers of two.
use hibp.Common.{◌≡◌, refl, List, [], ◌∷◌, some, arith, true}
use Prim.{tt}
use hibp.ArrCmp.Isa.{avx2}
use hibp.ArrCmp.Endian.{little}
use hibp.Hibp.{PawnedPw}
use hibp.FlatFile.{File, ok, err, replacement_implies_deletion}
use hibp.Diff.{update, insert, run_diff}
use hibp.Diff.Patch.{diff_lists, patch}
use hibp.Diff.Agreement.{FitsBuffer, run_diff-diff_lists, patch-run_diff}
use hibp.Runs.Searches.{password, password-IsRecord}

abbrev file_of : List PawnedPw → File PawnedPw
file_of records = record { records = records; tail_bytes = 0; readable = true }

abbrev two : List PawnedPw
two = password 1 5 ∷ password 7 5 ∷ []

abbrev newer : List PawnedPw
newer = password 1 6 ∷ password 7 5 ∷ password 9 1 ∷ []

two-FitsBuffer : FitsBuffer 8 4 (file_of two)
two-FitsBuffer = record {
  valid = (
    password-IsRecord 1 5 (omega arith) (omega arith),
    (password-IsRecord 7 5 (omega arith) (omega arith), tt),
  );
  whole = refl;
  readable = refl;
  fits = omega arith;
}

newer-FitsBuffer : FitsBuffer 8 4 (file_of newer)
newer-FitsBuffer = record {
  valid = (
    password-IsRecord 1 6 (omega arith) (omega arith),
    (
      password-IsRecord 7 5 (omega arith) (omega arith),
      (password-IsRecord 9 1 (omega arith) (omega arith), tt),
    ),
  );
  whole = refl;
  readable = refl;
  fits = omega arith;
}

run_diff-diff_lists_example :
    run_diff avx2 little 8 4 (password 0 0) (some (file_of two)) (some (file_of newer))
    ≡ diff_lists avx2 little 8 two newer 0
run_diff-diff_lists_example =
    run_diff-diff_lists avx2 little 8 4 (password 0 0) (file_of two) (file_of newer) (omega arith)
      (omega arith) two-FitsBuffer newer-FitsBuffer

two_hunks : run_diff avx2 little 8 4 (password 0 0) (some (file_of two)) (some (file_of newer)) ≡ (
  ok tt,
  record { type = update; pos = 0; pw = password 1 6 }
      ∷ record { type = insert; pos = 2; pw = password 9 1 }
      ∷ [],
)
unfolding run_diff
two_hunks = refl

patch-run_diff_example :
    patch two 0
      (run_diff avx2 little 8 4 (password 0 0) (some (file_of two)) (some (file_of newer))).1
    ≡ newer
unfolding run_diff
patch-run_diff_example =
    patch-run_diff avx2 little 8 4 (password 0 0) (file_of two) (file_of newer) (omega arith)
      (omega arith) two-FitsBuffer newer-FitsBuffer refl

-- Where a buffer is filled anew between the comparison and the hunk, the hunk has another record.
stale_hunk :
    run_diff avx2 little 8 2
      (password 0 0)
      (some (file_of (password 1 5 ∷ password 2 5 ∷ password 3 5 ∷ password 4 5 ∷ [])))
      (some (file_of (password 1 5 ∷ password 2 6 ∷ password 3 5 ∷ password 4 5 ∷ [])))
    ≡ (ok tt, record { type = update; pos = 1; pw = password 4 5 } ∷ [])
unfolding run_diff
stale_hunk = refl

-- Two new hashes in one place are taken for a deletion.
two_inserts_refused :
    run_diff avx2 little 8 4
      (password 0 0)
      (some (file_of two))
      (some (file_of (password 1 5 ∷ password 2 1 ∷ password 3 1 ∷ password 7 5 ∷ [])))
    ≡ (err replacement_implies_deletion, [])
unfolding run_diff
two_inserts_refused = refl
