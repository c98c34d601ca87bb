-- ===== src/Diff/Agreement.antt =====
-- The comparison of src/diffutils.cpp, through buffers that hold the databases, is that on lists.
use hibp.Common.{
  ℕ, ◌+◌, ◌^◌, ◌≤◌, ◌<◌, ◌≡◌, inr, refl, sym, ap, ◌∙◌, true, [], some, length, All, arith,
}
use Prim.{tt}
use hibp.ArrCmp.{Isa, Endian}
use hibp.Hibp.{PawnedPw, IsRecord}
use hibp.FlatFile.{Db, File, begin, ok, open_db}
use hibp.FlatFile.Reading.{open_db_fresh}
use hibp.Diff.{diff_loop, run_diff}
use hibp.Diff.Patch.{Diffed, diff_lists, patch, patch-diff_lists}
use hibp.Diff.Whole.{Points, size-Points}
use hibp.Diff.Steps.{state}
use hibp.Diff.Rounds.{Agrees, diff_loop-lists}

-- A file that fits its buffer.
pub record FitsBuffer (hash_size buf_size : ℕ) (f : File PawnedPw) : Type 0 where
  pub valid : All (IsRecord hash_size) f.records
  pub whole : f.tail_bytes ≡ 0
  pub readable : f.readable ≡ true
  pub fits : length f.records ≤ buf_size

module _ (isa : Isa) (endian : Endian) (hash_size buf_size : ℕ) (blank : PawnedPw) where
  opened :
      (f : File PawnedPw)
      → 0 < buf_size
      → buf_size < 2 ^ 32
      → FitsBuffer hash_size buf_size f
      → (db : Db PawnedPw) × (open_db (hash_size + 4) buf_size blank (some f) ≡ ok db)
        × Points f.records begin db
  opened f h small v =
      let (db, opens, r, start, sized) =
        open_db_fresh (hash_size + 4) buf_size blank f (omega arith) h v.whole v.readable
          (omega (arith, v.fits)) in
      (
        db,
        opens,
        inr (record { ready = r; fits = omega (arith, v.fits, sized); unread = start }, refl, refl),
      )

  run_diff_step :
      (f g : File PawnedPw) (old new : Db PawnedPw) (d : Diffed)
      → open_db (hash_size + 4) buf_size blank (some f) ≡ ok old
      → open_db (hash_size + 4) buf_size blank (some g) ≡ ok new
      → Agrees [] (diff_loop isa endian hash_size (new.dbsize + 1) begin begin (state old new [])) d
      → run_diff isa endian hash_size buf_size blank (some f) (some g) ≡ d
  unfolding run_diff
  run_diff_step f g old new d eo en a = rw (eo, en) (λ t. (a.0 t, a.1 t))

  -- For two readable files of whole well-formed records, none with more than a buffer holds, and buffers
  -- of any size but zero and below 2 ^ 32: the comparison ends, writes the hunks of the comparison on
  -- lists, and throws what that says and nothing else.
  pub run_diff-diff_lists :
      (f g : File PawnedPw)
      → 0 < buf_size
      → buf_size < 2 ^ 32
      → FitsBuffer hash_size buf_size f
      → FitsBuffer hash_size buf_size g
      → run_diff isa endian hash_size buf_size blank (some f) (some g)
        ≡ diff_lists isa endian hash_size f.records g.records 0
  run_diff-diff_lists f g h small vf vg =
      let (old, opens, po) = opened f h small vf in
      let (new, opens', pn) = opened g h small vg in
      let size = size-Points g.records begin new pn in
      run_diff_step f g old new (diff_lists isa endian hash_size f.records g.records 0) opens opens'
        (diff_loop-lists isa endian hash_size f.records g.records (omega (arith, vf.fits))
          (omega (arith, vg.fits)) (new.dbsize + 1) begin begin old new [] po pn (omega arith)
          (omega arith) (omega arith))

  -- For two readable files of whole well-formed records, none with more than a buffer holds, and buffers
  -- of any size but zero and below 2 ^ 32: where the comparison ends without an exception, the old
  -- records with the hunks applied are the new ones.
  pub patch-run_diff :
      (f g : File PawnedPw)
      → 0 < buf_size
      → buf_size < 2 ^ 32
      → FitsBuffer hash_size buf_size f
      → FitsBuffer hash_size buf_size g
      → (run_diff isa endian hash_size buf_size blank (some f) (some g)).0 ≡ ok tt
      → patch f.records 0 (run_diff isa endian hash_size buf_size blank (some f) (some g)).1
        ≡ g.records
  patch-run_diff f g h small vf vg w =
      let same = run_diff-diff_lists f g h small vf vg in
      ap (λ (d : Diffed). patch f.records 0 d.1) same
      ∙ patch-diff_lists isa endian hash_size f.records g.records 0 vf.valid vg.valid
          (omega (arith, vf.fits)) (ap (λ (d : Diffed). d.0) (sym same) ∙ w)
