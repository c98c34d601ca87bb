-- ===== src/Diff/Rounds.antt =====
-- The loop of src/diffutils.cpp, round for round, is the comparison on lists.
use hibp.Common.{
  ℕ, zero, suc, ◌+◌, ◌-◌, ◌^◌, ◌≤◌, ◌<◌, ◌≡◌, inl, inr, refl, sym, ap, ◌∙◌, false, List, [], ◌∷◌,
  ◌++◌, append-nil, append_assoc, some, length, get_elem?, drop-get_elem?, arith,
}
use Prim.{Unit, tt}
use hibp.ArrCmp.{Isa, Endian}
use hibp.Hibp.{PawnedPw}
use hibp.Hibp.Order.{pw_equal}
use hibp.FlatFile.{Db, Iterator, advance, M, Result, ok}
use hibp.Search.{at}
use hibp.Diff.{
  Hunk, DiffState, insert, update, deep_equals, mismatch, compare_heads, after_mismatch, diff_loop,
}
use hibp.Diff.Patch.{
  Diffed, hunk, inserts, after, diff_lists, Round-of, keeps, deletes, inserts_one, updates,
  replaces,
}
use hibp.Diff.Whole.{Loaded, Points, known, same_record, size-Points}
use hibp.Diff.Steps.{state, from, next_of, insert_rest-inserts, deref_new_lem}
use hibp.Diff.Mismatch.{Pair-of, Stops, old_ends, new_ends, differs, mismatch-Stops}
use hibp.Diff.Heads.{
  after_old_ends, after_new_ends, after_differs, heads_deleted, heads_inserted, heads_updated,
  heads_replaced,
}
use hibp.Diff.Neighbours.{next_old_equals_lem, next_new_equals_lem}

abbrev pub Outcome : Type 0
Outcome = Result (Unit {0}) × DiffState

-- The result is that of the comparison on lists, and its hunks have been added to the output.
abbrev pub Agrees : List Hunk → Outcome → Diffed → Type 0
Agrees diff r d = (r.0 ≡ d.0) × (r.1.diff ≡ diff ++ d.1)

Agrees-after :
    (diff : List Hunk) (h : Hunk) (r : Outcome) (d : Diffed)
    → Agrees (diff ++ (h ∷ [])) r d
    → Agrees diff r (after h d)
Agrees-after diff h r d a = (a.0, a.1 ∙ append_assoc diff (h ∷ []) d.1)

Agrees-eq :
    (diff : List Hunk) {r r' : Outcome} {d d' : Diffed}
    → r ≡ r'
    → d ≡ d'
    → Agrees diff r' d'
    → Agrees diff r d
Agrees-eq diff e e' a = (
  ap (λ (t : Outcome). t.0) e ∙ a.0 ∙ ap (λ (t : Diffed). t.0) (sym e'),
  ap (λ (t : Outcome). t.1.diff) e ∙ a.1 ∙ ap (λ (t : Diffed). diff ++ t.1) (sym e'),
)

module _ (isa : Isa) (endian : Endian) (hash_size : ℕ) (olds news : List PawnedPw)
    (so : length olds < 2 ^ 64) (sn : length news < 2 ^ 64) where
  -- What a continuation of the loop is good for, from a place in the new database.
  abbrev Continues : ℕ → (Iterator → Iterator → M DiffState (Unit {0})) → Type 0
  Continues q continue =
      (i j : Iterator) (old new : Db PawnedPw) (diff : List Hunk)
      → Points olds i old
      → Points news j new
      → i.pos ≤ length olds
      → j.pos ≤ length news
      → q < j.pos
      → Agrees diff (continue i j (state old new diff))
          (diff_lists isa endian hash_size (from olds i.pos) (from news j.pos) i.pos)

  heads-lists :
      (continue : Iterator → Iterator → M DiffState (Unit {0})) (p q : ℕ) (x y : PawnedPw)
      (old new : Db PawnedPw) (diff : List Hunk)
      → Continues q continue
      → p < length olds
      → q < length news
      → get_elem? olds p ≡ some x
      → get_elem? news q ≡ some y
      → Loaded olds old
      → Loaded news new
      → deep_equals isa endian hash_size x y ≡ false
      → Agrees diff
          (compare_heads isa endian hash_size continue (known p) (known q) (state old new diff))
          (diff_lists isa endian hash_size (from olds p) (from news q) p)
  heads-lists continue p q x y old new diff ih hp hq ex ey lo ln apart =
      let i = known p in
      let j = known q in
      let s = state old new diff in
      let (old1, new1, look, lo1, ln1) =
        next_old_equals_lem isa endian hash_size olds news so sn p q x y hp hq ex ey old new diff lo
          ln in
      let s1 = state old1 new1 diff in
      let (old2, new2, look', lo2, ln2) =
        next_new_equals_lem isa endian hash_size olds news so sn p q x y hp hq ex ey old1 new1 diff
          lo1 ln1 in
      let s2 = state old2 new2 diff in
      let r =
        Pair-of isa endian hash_size olds news i j old2 new2 diff (inl (lo2, inr refl))
          (inl (ln2, inr refl)) hp hq in
      let x_same = same_record olds p r.x x r.first ex in
      let y_same = same_record news q r.y y r.second ey in
      let heads : diff_lists isa endian hash_size (from olds p) (from news q) p
          ≡ diff_lists isa endian hash_size (x ∷ from olds (p + 1)) (y ∷ from news (q + 1)) p =
        rw (drop-get_elem? olds p x ex, drop-get_elem? news q y ey) refl in
      let next_i = next_of p i refl (omega arith) in
      let next_j = next_of q j refl (omega arith) in
      elim (Round-of isa endian hash_size x y (from olds (p + 1)) (from news (q + 1)) p) [
        | keeps same e ↦ absurd (let both = sym same ∙ apart in cc)
        | deletes apart' gone e ↦
            Agrees-eq diff
              (heads_deleted isa endian hash_size continue i j s s1
                (look ∙ ap (λ t. (ok t, s1)) gone))
              (heads ∙ e) (refl, sym (append-nil diff))
        | inserts_one apart' there more e ↦
            let (new3, read, ln3) =
              deref_new_lem olds news j old2 new2 diff y (inl (ln2, inr refl)) hq ey in
            let diff' = diff ++ (hunk insert p y ∷ []) in
            Agrees-eq diff
              (heads_inserted isa endian hash_size continue i j s s1 s2
                  (look ∙ ap (λ t. (ok t, s1)) there) j y old2 new3 diff
                  (look' ∙ ap (λ t. (ok t, s2)) more) read
                ∙ ap (λ it. continue i it (state old2 new3 diff')) next_j)
              (heads ∙ e)
              (Agrees-after diff (hunk insert p y) (continue i (at (q + 1)) (state old2 new3 diff'))
                (diff_lists isa endian hash_size (x ∷ from olds (p + 1)) (from news (q + 1)) p)
                (Agrees-eq diff' {r = continue i (at (q + 1)) (state old2 new3 diff')} refl
                  (ap (λ t. diff_lists isa endian hash_size t (from news (q + 1)) p)
                    (sym (drop-get_elem? olds p x ex)))
                  (ih i (at (q + 1)) old2 new3 diff' (inl (lo2, inr refl)) (inl (ln3, inl refl))
                    (omega arith) (omega arith) (omega arith))))
        | updates apart' there one hash e ↦
            let diff' = diff ++ (hunk update p r.y ∷ []) in
            Agrees-eq diff
              (heads_updated isa endian hash_size continue i j s s1 s2
                  (look ∙ ap (λ t. (ok t, s1)) there) i j r.x r.y (state r.old' new2 diff) r.old'
                  r.new' diff (look' ∙ ap (λ t. (ok t, s2)) one) r.read r.read'
                  (ap (λ t. pw_equal isa endian hash_size t r.y) x_same
                    ∙ ap (pw_equal isa endian hash_size x) y_same
                    ∙ hash)
                ∙ ap (λ it. continue it (advance j 1) (state r.old' r.new' diff')) next_i
                ∙ ap (λ it. continue (at (p + 1)) it (state r.old' r.new' diff')) next_j)
              (heads
                ∙ e
                ∙ ap
                    (λ t. after (hunk update p t) (
                      diff_lists isa endian hash_size (from olds (p + 1)) (from news (q + 1))
                        (p + 1)))
                    (sym y_same))
              (Agrees-after diff (hunk update p r.y)
                (continue (at (p + 1)) (at (q + 1)) (state r.old' r.new' diff'))
                (diff_lists isa endian hash_size (from olds (p + 1)) (from news (q + 1)) (p + 1))
                (ih (at (p + 1)) (at (q + 1)) r.old' r.new' diff' (inl (r.loaded, inl refl))
                  (inl (r.loaded', inl refl)) (omega arith) (omega arith) (omega arith)))
        | replaces apart' there one other e ↦
            Agrees-eq diff
              (heads_replaced isa endian hash_size continue i j s s1 s2
                (look ∙ ap (λ t. (ok t, s1)) there) i j r.x r.y (state r.old' new2 diff) r.old'
                r.new' diff (look' ∙ ap (λ t. (ok t, s2)) one) r.read r.read'
                (ap (λ t. pw_equal isa endian hash_size t r.y) x_same
                  ∙ ap (pw_equal isa endian hash_size x) y_same
                  ∙ other))
              (heads ∙ e) (refl, sym (append-nil diff))
      ]

  diff_loop_step :
      (n : ℕ) (i j i' j' : Iterator) (s s' : DiffState)
      → mismatch isa endian hash_size (s.old.dbsize - i.pos) i j s ≡ (ok (i', j'), s')
      → diff_loop isa endian hash_size (suc n) i j s
        ≡ after_mismatch isa endian hash_size
            (λ i'' j''. diff_loop isa endian hash_size n i'' j'')
            i'
            j'
            s'
  unfolding diff_loop
  diff_loop_step n i j i' j' s s' e = rw (diff_loop, e) refl

  diff_nothing_old :
      (new : List PawnedPw) (pos : ℕ)
      → diff_lists isa endian hash_size [] new pos ≡ (ok tt, inserts pos new)
  unfolding diff_lists
  diff_nothing_old new pos = refl

  -- A round of the loop, from where `std::mismatch` has stopped.
  round-lists :
      (n : ℕ) (i j : Iterator) (old new : Db PawnedPw) (diff : List Hunk)
      → old.dbsize ≡ length olds
      → Continues j.pos (λ i' j'. diff_loop isa endian hash_size n i' j')
      → Stops isa endian hash_size olds news (old.dbsize - i.pos) i j (state old new diff)
      → Agrees diff
          (diff_loop isa endian hash_size (suc n) i j (state old new diff))
          (diff_lists isa endian hash_size (from olds i.pos) (from news j.pos) i.pos)
  round-lists n i j old new diff size ih (old_ends i' j' old' new' e so' pj hi hj rest) =
      let continue = λ (i'' j'' : Iterator). diff_loop isa endian hash_size n i'' j'' in
      let sized = size-Points news j' new' pj in
      let (new'', steps) =
        insert_rest-inserts olds news (new'.dbsize - j'.pos) i'.pos j' old' new' diff pj sn
          (omega arith) in
      Agrees-eq diff
        (diff_loop_step n i j i' j' (state old new diff) (state old' new' diff) e
          ∙ after_old_ends isa endian hash_size continue i' j' (state old' new' diff) (ground arith)
          ∙ steps)
        (rest ∙ diff_nothing_old (from news j'.pos) i'.pos) (refl, refl)
  round-lists n i j old new diff size ih (new_ends i' j' old' new' e so' sn' hi hj rest) =
      let continue = λ (i'' j'' : Iterator). diff_loop isa endian hash_size n i'' j'' in
      Agrees-eq diff
        (diff_loop_step n i j i' j' (state old new diff) (state old' new' diff) e
          ∙ after_new_ends isa endian hash_size continue i' j' (state old' new' diff) (ground arith)
              (ground arith))
        rest (refl, sym (append-nil diff))
  round-lists n i j old new diff size ih
        (differs p q x y old' new' e lo ln hp hq hj ex ey apart rest) =
      let continue = λ (i'' j'' : Iterator). diff_loop isa endian hash_size n i'' j'' in
      let sized = lo.ready.coherent.sized in
      let sized' = ln.ready.coherent.sized in
      Agrees-eq diff
        (diff_loop_step n i j (known p) (known q) (state old new diff) (state old' new' diff) e
          ∙ after_differs isa endian hash_size continue (known p) (known q) (state old' new' diff)
              (ground arith) (ground arith))
        rest
        (heads-lists continue p q x y old' new' diff
          (λ i'' j'' o w d po pn hi' hj' further. ih i'' j'' o w d po pn hi' hj' (omega arith)) hp
          hq ex ey lo ln apart)

  -- With fuel for each record of the new database, the loop does what the comparison on lists does.
  pub diff_loop-lists :
      (n : ℕ) (i j : Iterator) (old new : Db PawnedPw) (diff : List Hunk)
      → Points olds i old
      → Points news j new
      → i.pos ≤ length olds
      → j.pos ≤ length news
      → length news < n + j.pos
      → Agrees diff
          (diff_loop isa endian hash_size n i j (state old new diff))
          (diff_lists isa endian hash_size (from olds i.pos) (from news j.pos) i.pos)
  diff_loop-lists zero i j old new diff po pn hi hj fuel = absurd (omega arith)
  diff_loop-lists (suc n) i j old new diff po pn hi hj fuel =
      let size = size-Points olds i old po in
      round-lists n i j old new diff size
        (λ i' j' o w d po' pn' hi' hj' further.
          diff_loop-lists n i' j' o w d po' pn' hi' hj' (omega arith))
        (mismatch-Stops isa endian hash_size olds news (old.dbsize - i.pos) i j old new diff po pn
          so sn (omega arith) hj)
