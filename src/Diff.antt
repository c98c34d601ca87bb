-- ===== src/Diff.antt =====
-- src/diffutils.cpp, for app/hibp_diff.cpp: two databases are compared record by record, each through
-- its own buffer. What has been written to `diff` before an exception stays.
pub mod Patch
pub mod Whole
pub mod Steps
pub mod Mismatch
pub mod Neighbours
pub mod Heads
pub mod Rounds
pub mod Agreement
use hibp.Common.{
  ℕ, zero, suc, ◌+◌, ◌-◌, ◌/◌, ◌%◌, ◌^◌, Bool, true, false, ◌&&◌, ◌||◌, ◌==◌, List, [], ◌∷◌, ◌++◌,
  Option, eq_ℤ,
}
use Prim.{Unit, tt}
use hibp.ArrCmp.{Isa, Endian}
use hibp.Hibp.{PawnedPw}
use hibp.Hibp.Order.{pw_equal}
use hibp.FlatFile.{
  Db, File, Iterator, begin, advance, Result, M, ok, err, Error, undefined, new_was_shorter,
  deletion_from_old, replacement_implies_deletion, return, ◌>>=◌, deref, open_db,
}

pub data HunkType : Type 0 where
  update insert : HunkType

pub record Hunk : Type 0 where
  pub type : HunkType
  pub pos : ℕ
  pub pw : PawnedPw

pub record DiffState : Type 0 where
  pub old : Db PawnedPw
  pub new : Db PawnedPw
  pub diff : List Hunk

abbrev pub on_old :
    DiffState
    → Result (PawnedPw × Iterator) × Db PawnedPw
    → Result (PawnedPw × Iterator) × DiffState
on_old s (r, db) = (r, record s { old = db })

abbrev pub on_new :
    DiffState
    → Result (PawnedPw × Iterator) × Db PawnedPw
    → Result (PawnedPw × Iterator) × DiffState
on_new s (r, db) = (r, record s { new = db })

unfoldable pub deref_old : Iterator → M DiffState (PawnedPw × Iterator)
unfolding deref
deref_old it s = on_old s (deref it s.old)

unfoldable pub deref_new : Iterator → M DiffState (PawnedPw × Iterator)
unfolding deref
deref_new it s = on_new s (deref it s.new)

-- `diff << h`; the position is an `unsigned`.
abbrev pub emit : HunkType → ℕ → PawnedPw → M DiffState (Unit {0})
emit type pos pw s = (
  ok tt,
  record s { diff = s.diff ++ (record { type = type; pos = pos % 2 ^ 32; pw = pw } ∷ []) },
)

abbrev pub fail : Error → M DiffState (Unit {0})
fail e s = (err e, s)

-- The rest of the new database, as inserts at the end of the old one.
unfoldable pub insert_rest : ℕ → ℕ → Iterator → M DiffState (Unit {0})
unfolding deref_new
insert_rest zero pos j = return tt
insert_rest (suc n) pos j = do
  (y, j') ← deref_new j
  done ← emit insert pos y
  insert_rest n pos (advance j' 1)

module _ (isa : Isa) (endian : Endian) (hash_size : ℕ) where
  abbrev pub deep_equals : PawnedPw → PawnedPw → Bool
  deep_equals a b = pw_equal isa endian hash_size a b && eq_ℤ a.count b.count

  -- `std::mismatch`, for at most as many records as the old database has left.
  unfoldable pub mismatch : ℕ → Iterator → Iterator → M DiffState (Iterator × Iterator)
  unfolding deref_old deref_new pw_equal
  mismatch zero i j s = return (i, j) s
  mismatch (suc n) i j s = elim (i.pos == s.old.dbsize || j.pos == s.new.dbsize) [
    | true ↦ return (i, j) s
    | false ↦
        (do
          (x, i') ← deref_old i
          (y, j') ← deref_new j
          elim (deep_equals x y) [
            | true ↦ mismatch n (advance i' 1) (advance j' 1)
            | false ↦ return (i', j')
          ])
          s
  ]

  -- `std::next(i) != end && deep_equals(*std::next(i), *j)`. What `std::next` makes is a copy, and `j` has
  -- been dereferenced before, so that `*` leaves it as it is.
  unfoldable pub next_old_equals : Iterator → Iterator → M DiffState Bool
  unfolding deref_old deref_new pw_equal
  next_old_equals i j s = elim ((advance i 1).pos == s.old.dbsize) [
    | true ↦ return false s
    | false ↦
        (do (x, i') ← deref_old (advance i 1); (y, j') ← deref_new j; return (deep_equals x y)) s
  ]

  unfoldable pub next_new_equals : Iterator → Iterator → M DiffState Bool
  unfolding deref_old deref_new pw_equal
  next_new_equals i j s = elim ((advance j 1).pos == s.new.dbsize) [
    | true ↦ return false s
    | false ↦
        (do (x, i') ← deref_old i; (y, j') ← deref_new (advance j 1); return (deep_equals x y)) s
  ]

  -- The records at two iterators that are not at their ends differ; `continue` is the loop.
  unfoldable pub compare_heads :
      (Iterator → Iterator → M DiffState (Unit {0})) → Iterator → Iterator → M DiffState (Unit {0})
  unfolding next_old_equals next_new_equals
  compare_heads continue i j = do
    deleted ← next_old_equals i j
    elim deleted [
      | true ↦ fail deletion_from_old
      | false ↦ do
        inserted ← next_new_equals i j
        elim inserted [
          | true ↦ do (y, j') ← deref_new j; done ← emit insert i.pos y; continue i (advance j 1)
          | false ↦ do
            (x, i') ← deref_old i
            (y, j') ← deref_new j
            elim (pw_equal isa endian hash_size x y) [
              | false ↦ fail replacement_implies_deletion
              | true ↦ do done ← emit update i.pos y; continue (advance i 1) (advance j 1)
            ]
        ]
    ]

  unfoldable pub after_mismatch :
      (Iterator → Iterator → M DiffState (Unit {0})) → Iterator → Iterator → M DiffState (Unit {0})
  unfolding insert_rest compare_heads
  after_mismatch continue i j s = elim (i.pos == s.old.dbsize) [
    | true ↦ insert_rest (s.new.dbsize - j.pos) i.pos j s
    | false ↦ elim (j.pos == s.new.dbsize) [
      | true ↦ fail new_was_shorter s
      | false ↦ compare_heads continue i j s
    ]
  ]

  -- The loop, on fuel for its rounds.
  unfoldable pub diff_loop : ℕ → Iterator → Iterator → M DiffState (Unit {0})
  unfolding mismatch after_mismatch
  diff_loop zero old_begin new_begin s = fail undefined s
  diff_loop (suc n) old_begin new_begin s =
      (do
        (i, j) ← mismatch (s.old.dbsize - old_begin.pos) old_begin new_begin
        after_mismatch (λ i' j'. diff_loop n i' j') i j)
        s

  abbrev pub diff_opened :
      Result (Db PawnedPw) → Result (Db PawnedPw) → Result (Unit {0}) × List Hunk
  diff_opened (err e) new = (err e, [])
  diff_opened (ok old) (err e) = (err e, [])
  diff_opened (ok old) (ok new) =
      let (r, s) =
        diff_loop (new.dbsize + 1) begin begin (record { old = old; new = new; diff = [] }) in
      (r, s.diff)

  -- With buffers of `buf_size` records, which is 2 ^ 16 by the size of a record in the program.
  unfoldable pub run_diff :
      ℕ → PawnedPw → Option (File PawnedPw) → Option (File PawnedPw) → Result (Unit {0}) × List Hunk
  unfolding diff_loop open_db
  run_diff buf_size blank old_file new_file =
      diff_opened (open_db (hash_size + 4) buf_size blank old_file)
        (open_db (hash_size + 4) buf_size blank new_file)
