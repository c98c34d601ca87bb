-- ===== src/Disksort/Merged.antt =====
-- The merge over open chunk files does what the merge on lists does.
use hibp.Common.{
  ℕ, zero, suc, ◌+◌, ◌≤◌, ◌<◌, ◌≡◌, refl, sym, ap, ◌∙◌, Bool, true, false, List, [], ◌∷◌, some,
  length, length-drop, get_elem?, get_or, set, drop, drop-get_elem?, arith,
}
use Prim.{Unit, tt}
use hibp.FlatFile.{Db, Iterator, Writer, ok, write, write_all, deref}
use hibp.FlatFile.Reading.{Ready}
use hibp.FlatFile.Caching.{deref_fresh}
use hibp.Search.{at}
use hibp.Sorting.{insert_in_order, count_if}
use hibp.Disksort.{
  Chunk, Head, Merge, head_less, total, pull, is_at_end, refill, write_head, merge_loop,
}
use hibp.Disksort.Reference.{refill_with, refilled, merge_lists, refill_with-total}

module _ {A : Type 0} where
  -- A chunk of which `left` is left to read.
  pub record HasLeft (c : Chunk A) (left : List A) : Type 0 where
    pub file : List A
    pub ready : Ready file c.db
    pub within : c.current ≤ length file
    pub rest : left ≡ drop c.current file

  abbrev pub HaveLeft : List (Chunk A) → List (List A) → Type 0
  HaveLeft [] [] = Unit {0}
  HaveLeft [] (r ∷ rests) = ⊥
  HaveLeft (c ∷ chunks) [] = ⊥
  HaveLeft (c ∷ chunks) (r ∷ rests) = HasLeft c r × HaveLeft chunks rests

  chunk_at :
      (chunks : List (Chunk A)) (rests : List (List A)) (i : ℕ) (x : A) (xs : List A)
      → HaveLeft chunks rests
      → get_or rests i [] ≡ x ∷ xs
      → (c : Chunk A) × (get_elem? chunks i ≡ some c) × HasLeft c (x ∷ xs)
  chunk_at [] [] i x xs h e = cc
  chunk_at [] (r ∷ rests) i x xs h e = absurd h
  chunk_at (c ∷ chunks) [] i x xs h e = absurd h
  chunk_at (c ∷ chunks) (r ∷ rests) zero x xs h e = (
    c,
    refl,
    record { file = h.0.file; ready = h.0.ready; within = h.0.within; rest = sym e ∙ h.0.rest },
  )
  chunk_at (c ∷ chunks) (r ∷ rests) (suc i) x xs h e = chunk_at chunks rests i x xs h.1 e

  HaveLeft-set :
      (chunks : List (Chunk A)) (rests : List (List A)) (i : ℕ) (c : Chunk A) (left : List A)
      → HasLeft c left
      → HaveLeft chunks rests
      → HaveLeft (set chunks i c) (set rests i left)
  HaveLeft-set [] [] i c left l h = tt
  HaveLeft-set [] (r ∷ rests) i c left l h = absurd h
  HaveLeft-set (d ∷ chunks) [] i c left l h = absurd h
  HaveLeft-set (d ∷ chunks) (r ∷ rests) zero c left l h = (l, h.1)
  HaveLeft-set (d ∷ chunks) (r ∷ rests) (suc i) c left l h =
      (h.0, HaveLeft-set chunks rests i c left l h.1)

  read_next :
      (c : Chunk A) (x : A) (xs : List A)
      → HasLeft c (x ∷ xs)
      → (it : Iterator) × (db' : Db A) × (deref (at c.current) c.db ≡ (ok (x, it), db'))
        × HasLeft (record { db = db'; current = c.current + 1 }) xs
  read_next c x xs l =
      let sized = length-drop c.current l.file in
      let some_left : c.current < length l.file = omega (arith, sized, ap (length {0}) l.rest) in
      let (y, it, db', holds, read, again, r) =
        deref_fresh l.file c.db c.current l.ready some_left in
      let split = l.rest ∙ drop-get_elem? l.file c.current y holds in
      let same : x ≡ y = cc in
      (
        it,
        db',
        read ∙ rw same,
        record { file = l.file; ready = r; within = omega arith; rest = cc },
      )

  at_end :
      (chunks : List (Chunk A)) (rests : List (List A)) (i : ℕ)
      → HaveLeft chunks rests
      → get_or rests i [] ≡ []
      → is_at_end (get_elem? chunks i) ≡ true
  at_end [] [] i h e = refl
  at_end [] (r ∷ rests) i h e = absurd h
  at_end (c ∷ chunks) [] i h e = absurd h
  at_end (c ∷ chunks) (r ∷ rests) zero h e =
      let l = h.0 in
      let empty : length (drop c.current l.file) ≡ 0 = ap (length {0}) (sym l.rest ∙ e) in
      let here : c.current ≡ c.db.dbsize =
        omega (arith, empty, length-drop c.current l.file, l.within, l.ready.coherent.sized) in
      ground arith
  at_end (c ∷ chunks) (r ∷ rests) (suc i) h e = at_end chunks rests i h.1 e

  not_at_end : (c : Chunk A) (x : A) (xs : List A) → HasLeft c (x ∷ xs) → is_at_end (some c) ≡ false
  not_at_end c x xs l =
      let some_left = ap (length {0}) l.rest in
      let before : c.current < c.db.dbsize =
        omega (arith, some_left, length-drop c.current l.file, l.ready.coherent.sized) in
      ground arith

module _ {A : Type 0} (less : A → A → Bool) (record_size : ℕ) (blank : A) where
  pull_step :
      (idx : ℕ) (m : Merge A) (c : Chunk A) {x : A} {it : Iterator} {db' : Db A}
      → get_elem? m.chunks idx ≡ some c
      → deref (at c.current) c.db ≡ (ok (x, it), db')
      → pull less record_size blank idx m ≡ (
        ok tt,
        record m {
          chunks = set m.chunks idx (record { db = db'; current = c.current + 1 });
          heads = insert_in_order (head_less less) (record { value = x; idx = idx }) m.heads;
        },
      )
  unfolding pull
  pull_step idx m c e read = rw (pull, e) (rw read)

  pub pull_lem :
      (idx : ℕ) (m : Merge A) (rests : List (List A)) (x : A) (xs : List A)
      → HaveLeft m.chunks rests
      → get_or rests idx [] ≡ x ∷ xs
      → (chunks : List (Chunk A)) × (pull less record_size blank idx m ≡ (
        ok tt,
        record m {
          chunks = chunks;
          heads = insert_in_order (head_less less) (record { value = x; idx = idx }) m.heads;
        },
      ))
        × HaveLeft chunks (set rests idx xs)
  pull_lem idx m rests x xs h e =
      let (c, found, l) = chunk_at m.chunks rests idx x xs h e in
      let (it, db', read, l') = read_next c x xs l in
      let c' : Chunk A = record { db = db'; current = c.current + 1 } in
      (
        set m.chunks idx c',
        pull_step idx m c found read,
        HaveLeft-set m.chunks rests idx c' xs l' h,
      )

  refill_end :
      (idx : ℕ) (m : Merge A)
      → is_at_end (get_elem? m.chunks idx) ≡ true
      → refill less record_size blank idx m ≡ (ok tt, m)
  unfolding refill
  refill_end idx m e = rw (e, refill) refl

  refill_more :
      (idx : ℕ) (m : Merge A)
      → is_at_end (get_elem? m.chunks idx) ≡ false
      → refill less record_size blank idx m ≡ pull less record_size blank idx m
  unfolding refill
  refill_more idx m e = rw (e, refill) refl

  refill_lem :
      (idx : ℕ) (m : Merge A) (rests : List (List A)) (left : List A)
      → HaveLeft m.chunks rests
      → get_or rests idx [] ≡ left
      → (chunks : List (Chunk A)) × (refill less record_size blank idx m ≡ (
        ok tt,
        record m { chunks = chunks; heads = (refill_with less left idx rests m.heads).1 },
      ))
        × HaveLeft chunks (refill_with less left idx rests m.heads).0
  refill_lem idx m rests [] h e = (m.chunks, refill_end idx m (at_end m.chunks rests idx h e), h)
  refill_lem idx m rests (x ∷ xs) h e =
      let (c, found, l) = chunk_at m.chunks rests idx x xs h e in
      let (chunks, pulls, h') = pull_lem idx m rests x xs h e in
      (chunks, refill_more idx m (ap is_at_end found ∙ not_at_end c x xs l) ∙ pulls, h')

  merge_loop_step :
      (fuel : ℕ) (t : Head A) (rest : List (Head A)) (m m' : Merge A)
      → refill less record_size blank t.idx (write_head less record_size blank m t rest)
        ≡ (ok tt, m')
      → merge_loop less record_size blank (suc fuel) (t ∷ rest) m
        ≡ merge_loop less record_size blank fuel m'.heads m'
  unfolding merge_loop
  merge_loop_step fuel t rest m m' e = rw e refl

  merge_loop_end :
      (fuel : ℕ) (m : Merge A) → merge_loop less record_size blank fuel [] m ≡ (ok tt, m)
  unfolding merge_loop
  merge_loop_end zero m = refl
  merge_loop_end (suc fuel) m = refl

  -- With fuel for each record, the merge loop over open chunk files comes to its end, and has
  -- written what the merge on lists gives for what the chunks have left.
  pub merge_loop-merge_lists :
      (fuel : ℕ) (chunks : List (Chunk A)) (heads : List (Head A)) (sorted : Writer A)
      (rests : List (List A))
      → HaveLeft chunks rests
      → count_if (λ h. true) heads + total rests ≤ fuel
      → (m' : Merge A) × (merge_loop less record_size blank fuel heads
            (record { chunks = chunks; heads = heads; sorted = sorted })
          ≡ (ok tt, m'))
        × (m'.sorted ≡ write_all sorted (merge_lists less fuel (rests, heads)))
  unfolding merge_lists write_all
  merge_loop-merge_lists zero chunks [] sorted rests l h =
      (record { chunks = chunks; heads = []; sorted = sorted }, merge_loop_end zero _, refl)
  merge_loop-merge_lists zero chunks (t ∷ heads) sorted rests l h = absurd (omega arith)
  merge_loop-merge_lists (suc fuel) chunks [] sorted rests l h =
      (record { chunks = chunks; heads = []; sorted = sorted }, merge_loop_end (suc fuel) _, refl)
  merge_loop-merge_lists (suc fuel) chunks (t ∷ heads) sorted rests l h =
      let m : Merge A = record { chunks = chunks; heads = heads; sorted = write sorted t.value } in
      let left = get_or rests t.idx [] in
      let (chunks', step, l') = refill_lem t.idx m rests left l refl in
      let next = refilled less t.idx rests heads in
      let (m', rounds, out) =
        merge_loop-merge_lists fuel chunks' next.1 (write sorted t.value) next.0 l'
          (omega (arith, refill_with-total less left t.idx rests heads refl)) in
      (
        m',
        merge_loop_step fuel t heads
              (record { chunks = chunks; heads = t ∷ heads; sorted = sorted })
              (record { chunks = chunks'; heads = next.1; sorted = write sorted t.value }) step
            ∙ rounds,
        out,
      )
