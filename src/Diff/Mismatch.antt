-- ===== src/Diff/Mismatch.antt =====
-- `std::mismatch` through the two buffers, and where it stops.
use hibp.Common.{
  ℕ, zero, suc, ◌+◌, ◌^◌, ◌≤◌, ◌<◌, ◌≡◌, inl, inr, refl, sym, ap, ◌∙◌, true, false, ◌||◌, ◌==◌,
  List, [], ◌∷◌, some, length, get_elem?, get_elem?-some, drop-get_elem?, arith, Bool-cases,
}
use hibp.ArrCmp.{Isa, Endian}
use hibp.Hibp.{PawnedPw}
use hibp.FlatFile.{Db, Iterator, advance, ok, err, new_was_shorter, when_true, when_false, return}
use hibp.Search.{at}
use hibp.Diff.{Hunk, DiffState, deref_old, deref_new, deep_equals, mismatch}
use hibp.Diff.Patch.{diff_lists}
use hibp.Diff.Whole.{Loaded, Points, known, size-Points}
use hibp.Diff.Steps.{state, from, drop-length, next_of, deref_old_lem, deref_new_lem}

module _ (isa : Isa) (endian : Endian) (hash_size : ℕ) (olds news : List PawnedPw) where
  -- Where `std::mismatch` stops, in what state, and what of the comparison is still to be done.
  pub data Stops (n : ℕ) (i j : Iterator) (s : DiffState) : Type 0 where
    old_ends :
        (i' j' : Iterator) (old new : Db PawnedPw)
        → mismatch isa endian hash_size n i j s ≡ (ok (i', j'), state old new s.diff)
        → old.dbsize ≡ length olds
        → Points news j' new
        → i'.pos ≡ length olds
        → j'.pos ≤ length news
        → diff_lists isa endian hash_size (from olds i.pos) (from news j.pos) i.pos
          ≡ diff_lists isa endian hash_size [] (from news j'.pos) i'.pos
        → Stops n i j s
    new_ends :
        (i' j' : Iterator) (old new : Db PawnedPw)
        → mismatch isa endian hash_size n i j s ≡ (ok (i', j'), state old new s.diff)
        → old.dbsize ≡ length olds
        → new.dbsize ≡ length news
        → i'.pos < length olds
        → j'.pos ≡ length news
        → diff_lists isa endian hash_size (from olds i.pos) (from news j.pos) i.pos
          ≡ (err new_was_shorter, [])
        → Stops n i j s
    differs :
        (p q : ℕ) (x y : PawnedPw) (old new : Db PawnedPw)
        → mismatch isa endian hash_size n i j s ≡ (ok (known p, known q), state old new s.diff)
        → Loaded olds old
        → Loaded news new
        → p < length olds
        → q < length news
        → j.pos ≤ q
        → get_elem? olds p ≡ some x
        → get_elem? news q ≡ some y
        → deep_equals isa endian hash_size x y ≡ false
        → diff_lists isa endian hash_size (from olds i.pos) (from news j.pos) i.pos
          ≡ diff_lists isa endian hash_size (from olds p) (from news q) p
        → Stops n i j s

  mismatch_ends :
      (n : ℕ) (i j : Iterator) (s : DiffState)
      → (i.pos == s.old.dbsize || j.pos == s.new.dbsize) ≡ true
      → mismatch isa endian hash_size n i j s ≡ (ok (i, j), s)
  unfolding mismatch
  mismatch_ends zero i j s e = refl
  mismatch_ends (suc n) i j s e = rw (e, mismatch) refl

  module _ (n : ℕ) (i i' j j' : Iterator) (s s' s'' : DiffState) (x y : PawnedPw)
      (more : (i.pos == s.old.dbsize || j.pos == s.new.dbsize) ≡ false)
      (read : deref_old i s ≡ (ok (x, i'), s')) (read' : deref_new j s' ≡ (ok (y, j'), s'')) where
    mismatch_same :
        deep_equals isa endian hash_size x y ≡ true
        → mismatch isa endian hash_size (suc n) i j s
          ≡ mismatch isa endian hash_size n (advance i' 1) (advance j' 1) s''
    unfolding mismatch
    mismatch_same same =
        rw (more, mismatch)
          (rw read (
            rw read' (
              when_true (deep_equals isa endian hash_size x y)
                (mismatch isa endian hash_size n (advance i' 1) (advance j' 1)) (return (i', j'))
                s'' same)))

    mismatch_apart :
        deep_equals isa endian hash_size x y ≡ false
        → mismatch isa endian hash_size (suc n) i j s ≡ (ok (i', j'), s'')
    unfolding mismatch
    mismatch_apart apart =
        rw (more, mismatch)
          (rw read (
            rw read' (
              when_false (deep_equals isa endian hash_size x y)
                (mismatch isa endian hash_size n (advance i' 1) (advance j' 1)) (return (i', j'))
                s'' apart)))

  heads_of :
      (p q : ℕ) (x y : PawnedPw)
      → get_elem? olds p ≡ some x
      → get_elem? news q ≡ some y
      → diff_lists isa endian hash_size (from olds p) (from news q) p
        ≡ diff_lists isa endian hash_size (x ∷ from olds (p + 1)) (y ∷ from news (q + 1)) p
  heads_of p q x y e e' = rw (drop-get_elem? olds p x e, drop-get_elem? news q y e') refl

  diff_none_left :
      (a : PawnedPw) (old : List PawnedPw) (pos : ℕ)
      → diff_lists isa endian hash_size (a ∷ old) [] pos ≡ (err new_was_shorter, [])
  unfolding diff_lists
  diff_none_left a old pos = refl

  diff_kept :
      (x y : PawnedPw) (old new : List PawnedPw) (pos : ℕ)
      → deep_equals isa endian hash_size x y ≡ true
      → diff_lists isa endian hash_size (x ∷ old) (y ∷ new) pos
        ≡ diff_lists isa endian hash_size old new (pos + 1)
  unfolding diff_lists
  diff_kept x y old new pos e = rw (e, diff_lists) refl

  -- A stop after one more pair of equal records.
  one_more :
      (n : ℕ) (i j : Iterator) (s s' : DiffState)
      → mismatch isa endian hash_size (suc n) i j s
        ≡ mismatch isa endian hash_size n (at (i.pos + 1)) (at (j.pos + 1)) s'
      → diff_lists isa endian hash_size (from olds i.pos) (from news j.pos) i.pos
        ≡ diff_lists isa endian hash_size
            (from olds (i.pos + 1))
            (from news (j.pos + 1))
            (i.pos + 1)
      → s.diff ≡ s'.diff
      → Stops n (at (i.pos + 1)) (at (j.pos + 1)) s'
      → Stops (suc n) i j s
  one_more n i j s s' step same d (old_ends i' j' old new e so p hi hj rest) =
      old_ends i' j' old new (step ∙ e ∙ ap (λ t. (ok (i', j'), state old new t)) (sym d)) so p hi
        hj (same ∙ rest)
  one_more n i j s s' step same d (new_ends i' j' old new e so sn hi hj rest) =
      new_ends i' j' old new (step ∙ e ∙ ap (λ t. (ok (i', j'), state old new t)) (sym d)) so sn hi
        hj (same ∙ rest)
  one_more n i j s s' step same d (differs p q x y old new e lo ln hp hq hj ex ey apart rest) =
      differs p q x y old new
        (step ∙ e ∙ ap (λ t. (ok (known p, known q), state old new t)) (sym d)) lo ln hp hq
        (omega (arith, hj)) ex ey apart (same ∙ rest)

  -- Two iterators at ends, and two at records.
  module _ (n : ℕ) (i j : Iterator) (old new : Db PawnedPw) (diff : List Hunk)
      (po : Points olds i old) (pn : Points news j new) where
    Stops-old : i.pos ≡ length olds → j.pos ≤ length news → Stops n i j (state old new diff)
    Stops-old here hj =
        let size = size-Points olds i old po in
        let stop : (i.pos == old.dbsize || j.pos == new.dbsize) ≡ true = ground arith in
        old_ends i j old new (mismatch_ends n i j (state old new diff) stop) size pn here hj (
          ap (λ t. diff_lists isa endian hash_size t (from news j.pos) i.pos)
            (ap (from olds) here ∙ drop-length olds))

    Stops-new : i.pos < length olds → j.pos ≡ length news → Stops n i j (state old new diff)
    Stops-new inside here =
        let size = size-Points olds i old po in
        let size' = size-Points news j new pn in
        let stop : (i.pos == old.dbsize || j.pos == new.dbsize) ≡ true = ground arith in
        let (x, e) = get_elem?-some olds i.pos inside in
        new_ends i j old new (mismatch_ends n i j (state old new diff) stop) size size' inside here
          (ap (λ t. diff_lists isa endian hash_size t (from news j.pos) i.pos)
              (drop-get_elem? olds i.pos x e)
            ∙ ap (λ t. diff_lists isa endian hash_size (x ∷ from olds (i.pos + 1)) t i.pos)
                (ap (from news) here ∙ drop-length news)
            ∙ diff_none_left x (from olds (i.pos + 1)) i.pos)

  -- The reads of a pair, and what they are.
  pub record Pair (i j : Iterator) (old new : Db PawnedPw) (diff : List Hunk) : Type 0 where
    pub x : PawnedPw
    pub y : PawnedPw
    pub old' : Db PawnedPw
    pub new' : Db PawnedPw
    pub read : deref_old i (state old new diff) ≡ (ok (x, known i.pos), state old' new diff)
    pub read' : deref_new j (state old' new diff) ≡ (ok (y, known j.pos), state old' new' diff)
    pub loaded : Loaded olds old'
    pub loaded' : Loaded news new'
    pub first : get_elem? olds i.pos ≡ some x
    pub second : get_elem? news j.pos ≡ some y

  pub Pair-of :
      (i j : Iterator) (old new : Db PawnedPw) (diff : List Hunk)
      → Points olds i old
      → Points news j new
      → i.pos < length olds
      → j.pos < length news
      → Pair i j old new diff
  Pair-of i j old new diff po pn hi hj =
      let (x, e) = get_elem?-some olds i.pos hi in
      let (y, e') = get_elem?-some news j.pos hj in
      let (old', read, l) = deref_old_lem olds news i old new diff x po hi e in
      let (new', read', l') = deref_new_lem olds news j old' new diff y pn hj e' in
      record {
        x = x;
        y = y;
        old' = old';
        new' = new';
        read = read;
        read' = read';
        loaded = l;
        loaded' = l';
        first = e;
        second = e';
      }

  pub mismatch-Stops :
      (n : ℕ) (i j : Iterator) (old new : Db PawnedPw) (diff : List Hunk)
      → Points olds i old
      → Points news j new
      → length olds < 2 ^ 64
      → length news < 2 ^ 64
      → i.pos + n ≡ length olds
      → j.pos ≤ length news
      → Stops n i j (state old new diff)
  mismatch-Stops zero i j old new diff po pn so sn hi hj =
      Stops-old zero i j old new diff po pn (omega arith) hj
  mismatch-Stops (suc n) i j old new diff po pn so sn hi hj =
      elim (Bool-cases (j.pos == length news)) [
        | inl ended ↦ Stops-new (suc n) i j old new diff po pn (omega arith) (ground arith)
        | inr more ↦
            let inside : j.pos < length news = ground arith in
            let r = Pair-of i j old new diff po pn (omega arith) inside in
            let size = size-Points olds i old po in
            let size' = size-Points news j new pn in
            let before : i.pos < length olds = omega arith in
            let go : (i.pos == old.dbsize || j.pos == new.dbsize) ≡ false = ground arith in
            let further =
              mismatch-Stops n (at (i.pos + 1)) (at (j.pos + 1)) r.old' r.new' diff
                (inl (r.loaded, inl refl)) (inl (r.loaded', inl refl)) so sn (omega arith)
                (omega arith) in
            let heads = heads_of i.pos j.pos r.x r.y r.first r.second in
            elim (Bool-cases (deep_equals isa endian hash_size r.x r.y)) [
              | inl same ↦
                  one_more n i j (state old new diff) (state r.old' r.new' diff)
                    (mismatch_same n i (known i.pos) j (known j.pos) (state old new diff)
                        (state r.old' new diff) (state r.old' r.new' diff) r.x r.y go r.read r.read'
                        same
                      ∙ ap
                          (λ it.
                            mismatch isa endian hash_size n it (advance (known j.pos) 1)
                              (state r.old' r.new' diff))
                          (next_of i.pos (known i.pos) refl (omega arith))
                      ∙ ap
                          (λ it.
                            mismatch isa endian hash_size n (at (i.pos + 1)) it
                              (state r.old' r.new' diff))
                          (next_of j.pos (known j.pos) refl (omega arith)))
                    (heads
                      ∙ diff_kept r.x r.y (from olds (i.pos + 1)) (from news (j.pos + 1)) i.pos
                          same)
                    refl further
              | inr apart ↦
                  differs i.pos j.pos r.x r.y r.old' r.new'
                    (mismatch_apart n i (known i.pos) j (known j.pos) (state old new diff)
                      (state r.old' new diff) (state r.old' r.new' diff) r.x r.y go r.read r.read'
                      apart)
                    r.loaded r.loaded' (omega arith) inside (omega arith) r.first r.second apart
                    refl
            ]
      ]
