-- ===== src/Diff/Heads.antt =====
-- A round of src/diffutils.cpp, for what the looks at the next records have found.
use hibp.Common.{ℕ, ◌-◌, ◌≡◌, refl, true, false, ◌==◌, List, [], ◌∷◌, ◌++◌}
use Prim.{Unit}
use hibp.ArrCmp.{Isa, Endian}
use hibp.Hibp.{PawnedPw}
use hibp.Hibp.Order.{pw_equal}
use hibp.FlatFile.{
  Db, Iterator, advance, M, ok, err, new_was_shorter, deletion_from_old,
  replacement_implies_deletion, when_true, when_false,
}
use hibp.Diff.{
  Hunk, DiffState, insert, update, deref_old, deref_new, insert_rest, next_old_equals,
  next_new_equals, compare_heads, after_mismatch, fail,
}
use hibp.Diff.Patch.{hunk}
use hibp.Diff.Steps.{state}

module _ (isa : Isa) (endian : Endian) (hash_size : ℕ)
    (continue : Iterator → Iterator → M DiffState (Unit {0})) (i j : Iterator) where
  pub after_old_ends :
      (s : DiffState)
      → (i.pos == s.old.dbsize) ≡ true
      → after_mismatch isa endian hash_size continue i j s
        ≡ insert_rest (s.new.dbsize - j.pos) i.pos j s
  unfolding after_mismatch
  after_old_ends s e = rw (e, after_mismatch) refl

  pub after_new_ends :
      (s : DiffState)
      → (i.pos == s.old.dbsize) ≡ false
      → (j.pos == s.new.dbsize) ≡ true
      → after_mismatch isa endian hash_size continue i j s ≡ (err new_was_shorter, s)
  unfolding after_mismatch
  after_new_ends s e e' = rw (e, after_mismatch) (rw e' refl)

  pub after_differs :
      (s : DiffState)
      → (i.pos == s.old.dbsize) ≡ false
      → (j.pos == s.new.dbsize) ≡ false
      → after_mismatch isa endian hash_size continue i j s
        ≡ compare_heads isa endian hash_size continue i j s
  unfolding after_mismatch
  after_differs s e e' = rw (e, after_mismatch) (rw e' refl)

  module _ (s s' : DiffState) where
    pub heads_deleted :
        next_old_equals isa endian hash_size i j s ≡ (ok true, s')
        → compare_heads isa endian hash_size continue i j s ≡ (err deletion_from_old, s')
    unfolding compare_heads
    heads_deleted e = rw (compare_heads, e) refl

    module _ (s'' : DiffState)
        (kept : next_old_equals isa endian hash_size i j s ≡ (ok false, s')) where
      pub heads_inserted :
          (j' : Iterator) (y : PawnedPw) (old new : Db PawnedPw) (diff : List Hunk)
          → next_new_equals isa endian hash_size i j s' ≡ (ok true, s'')
          → deref_new j s'' ≡ (ok (y, j'), state old new diff)
          → compare_heads isa endian hash_size continue i j s
            ≡ continue i (advance j 1) (state old new (diff ++ (hunk insert i.pos y ∷ [])))
      unfolding compare_heads
      heads_inserted j' y old new diff e read = rw (compare_heads, kept) (rw e (rw read refl))

      module _ (i' j' : Iterator) (x y : PawnedPw) (s3 : DiffState) (old new : Db PawnedPw)
          (diff : List Hunk) (one : next_new_equals isa endian hash_size i j s' ≡ (ok false, s''))
          (read : deref_old i s'' ≡ (ok (x, i'), s3))
          (read' : deref_new j s3 ≡ (ok (y, j'), state old new diff)) where
        updating : M DiffState (Unit {0})
        updating t =
            continue (advance i 1) (advance j 1)
              (record t { diff = t.diff ++ (hunk update i.pos y ∷ []) })

        pub heads_updated :
            pw_equal isa endian hash_size x y ≡ true
            → compare_heads isa endian hash_size continue i j s
              ≡ continue
                  (advance i 1)
                  (advance j 1)
                  (state old new (diff ++ (hunk update i.pos y ∷ [])))
        unfolding compare_heads updating
        heads_updated e =
            rw (compare_heads, kept)
              (rw one (
                rw read (
                  rw read' (
                    when_true (pw_equal isa endian hash_size x y) updating
                      (fail replacement_implies_deletion) (state old new diff) e))))

        pub heads_replaced :
            pw_equal isa endian hash_size x y ≡ false
            → compare_heads isa endian hash_size continue i j s
              ≡ (err replacement_implies_deletion, state old new diff)
        unfolding compare_heads updating
        heads_replaced e =
            rw (compare_heads, kept)
              (rw one (
                rw read (
                  rw read' (
                    when_false (pw_equal isa endian hash_size x y) updating
                      (fail replacement_implies_deletion) (state old new diff) e))))
