-- ===== src/Diff/Neighbours.antt =====
-- The looks of src/diffutils.cpp at the next records, through buffers that hold the databases.
use hibp.Common.{
  ℕ, ◌+◌, ◌^◌, ◌<◌, ◌≡◌, inl, inr, refl, sym, ap, ◌∙◌, true, false, ◌==◌, List, some, length,
  get_elem?, drop-get_elem?, arith, Bool-cases,
}
use hibp.ArrCmp.{Isa, Endian}
use hibp.Hibp.{PawnedPw}
use hibp.FlatFile.{Db, Iterator, advance, ok}
use hibp.Search.{at}
use hibp.Diff.{Hunk, DiffState, deref_old, deref_new, deep_equals, next_old_equals, next_new_equals}
use hibp.Diff.Patch.{first_equals, equals_first}
use hibp.Diff.Whole.{Loaded, known, same_record}
use hibp.Diff.Steps.{state, from, next_of, drop-length}
use hibp.Diff.Mismatch.{Pair-of}

module _ (isa : Isa) (endian : Endian) (hash_size : ℕ) where
  next_old_end :
      (i j : Iterator) (s : DiffState)
      → ((advance i 1).pos == s.old.dbsize) ≡ true
      → next_old_equals isa endian hash_size i j s ≡ (ok false, s)
  unfolding next_old_equals
  next_old_end i j s e = rw (e, next_old_equals) refl

  next_old_reads :
      (i i' j j' : Iterator) (s s' s'' : DiffState) (x y : PawnedPw)
      → ((advance i 1).pos == s.old.dbsize) ≡ false
      → deref_old (advance i 1) s ≡ (ok (x, i'), s')
      → deref_new j s' ≡ (ok (y, j'), s'')
      → next_old_equals isa endian hash_size i j s
        ≡ (ok (deep_equals isa endian hash_size x y), s'')
  unfolding next_old_equals
  next_old_reads i i' j j' s s' s'' x y e read read' =
      rw (e, next_old_equals) (rw read (rw read' refl))

  next_new_end :
      (i j : Iterator) (s : DiffState)
      → ((advance j 1).pos == s.new.dbsize) ≡ true
      → next_new_equals isa endian hash_size i j s ≡ (ok false, s)
  unfolding next_new_equals
  next_new_end i j s e = rw (e, next_new_equals) refl

  next_new_reads :
      (i i' j j' : Iterator) (s s' s'' : DiffState) (x y : PawnedPw)
      → ((advance j 1).pos == s.new.dbsize) ≡ false
      → deref_old i s ≡ (ok (x, i'), s')
      → deref_new (advance j 1) s' ≡ (ok (y, j'), s'')
      → next_new_equals isa endian hash_size i j s
        ≡ (ok (deep_equals isa endian hash_size x y), s'')
  unfolding next_new_equals
  next_new_reads i i' j j' s s' s'' x y e read read' =
      rw (e, next_new_equals) (rw read (rw read' refl))

  module _ (olds news : List PawnedPw) (so : length olds < 2 ^ 64) (sn : length news < 2 ^ 64)
      (p q : ℕ) (x y : PawnedPw) (hp : p < length olds) (hq : q < length news)
      (ex : get_elem? olds p ≡ some x) (ey : get_elem? news q ≡ some y) where
    -- Whether a record follows, and which.
    pub next_old_equals_lem :
        (old new : Db PawnedPw) (diff : List Hunk)
        → Loaded olds old
        → Loaded news new
        → (old' new' : Db PawnedPw) × (next_old_equals isa endian hash_size
              (known p)
              (known q)
              (state old new diff)
            ≡ (ok (first_equals isa endian hash_size (from olds (p + 1)) y), state old' new' diff))
          × Loaded olds old'
          × Loaded news new'
    next_old_equals_lem old new diff lo ln = elim (Bool-cases (p + 1 == length olds)) [
      | inl last ↦
          let here : p + 1 ≡ length olds = ground arith in
          let size = lo.ready.coherent.sized in
          let stop : ((advance (known p) 1).pos == old.dbsize) ≡ true = ground arith in
          (
            old,
            new,
            next_old_end (known p) (known q) (state old new diff) stop
                ∙ ap (λ t. (ok (first_equals isa endian hash_size t y), state old new diff))
                    (sym (ap (from olds) here ∙ drop-length olds)),
            lo,
            ln,
          )
      | inr more ↦
          let inside : p + 1 < length olds = ground arith in
          let size = lo.ready.coherent.sized in
          let go : ((advance (known p) 1).pos == old.dbsize) ≡ false = ground arith in
          let r =
            Pair-of isa endian hash_size olds news (at (p + 1)) (known q) old new diff
              (inl (lo, inl refl)) (inl (ln, inr refl)) inside hq in
          (
            r.old',
            r.new',
            next_old_reads (known p) (known (p + 1)) (known q) (known q) (state old new diff)
                  (state r.old' new diff) (state r.old' r.new' diff) r.x r.y go
                  (ap (λ it. deref_old it (state old new diff))
                      (next_of p (known p) refl (omega arith))
                    ∙ r.read)
                  r.read'
                ∙ ap (λ t. (ok (deep_equals isa endian hash_size r.x t), state r.old' r.new' diff))
                    (same_record news q r.y y r.second ey)
                ∙ ap (λ t. (ok (first_equals isa endian hash_size t y), state r.old' r.new' diff))
                    (sym (drop-get_elem? olds (p + 1) r.x r.first)),
            r.loaded,
            r.loaded',
          )
    ]

    pub next_new_equals_lem :
        (old new : Db PawnedPw) (diff : List Hunk)
        → Loaded olds old
        → Loaded news new
        → (old' new' : Db PawnedPw) × (next_new_equals isa endian hash_size
              (known p)
              (known q)
              (state old new diff)
            ≡ (ok (equals_first isa endian hash_size x (from news (q + 1))), state old' new' diff))
          × Loaded olds old'
          × Loaded news new'
    next_new_equals_lem old new diff lo ln = elim (Bool-cases (q + 1 == length news)) [
      | inl last ↦
          let here : q + 1 ≡ length news = ground arith in
          let size = ln.ready.coherent.sized in
          let stop : ((advance (known q) 1).pos == new.dbsize) ≡ true = ground arith in
          (
            old,
            new,
            next_new_end (known p) (known q) (state old new diff) stop
                ∙ ap (λ t. (ok (equals_first isa endian hash_size x t), state old new diff))
                    (sym (ap (from news) here ∙ drop-length news)),
            lo,
            ln,
          )
      | inr more ↦
          let inside : q + 1 < length news = ground arith in
          let size = ln.ready.coherent.sized in
          let go : ((advance (known q) 1).pos == new.dbsize) ≡ false = ground arith in
          let r =
            Pair-of isa endian hash_size olds news (known p) (at (q + 1)) old new diff
              (inl (lo, inr refl)) (inl (ln, inl refl)) hp inside in
          (
            r.old',
            r.new',
            next_new_reads (known p) (known p) (known q) (known (q + 1)) (state old new diff)
                  (state r.old' new diff) (state r.old' r.new' diff) r.x r.y go r.read
                  (ap (λ it. deref_new it (state r.old' new diff))
                      (next_of q (known q) refl (omega arith))
                    ∙ r.read')
                ∙ ap (λ t. (ok (deep_equals isa endian hash_size t r.y), state r.old' r.new' diff))
                    (same_record olds p r.x x r.first ex)
                ∙ ap (λ t. (ok (equals_first isa endian hash_size x t), state r.old' r.new' diff))
                    (sym (drop-get_elem? news (q + 1) r.y r.second)),
            r.loaded,
            r.loaded',
          )
    ]
