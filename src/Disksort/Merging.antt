-- ===== src/Disksort/Merging.antt =====
-- The merge on lists keeps the records, and puts them in order.
use hibp.Common.{
  ℕ, zero, suc, ◌+◌, ◌≤◌, ◌<◌, ◌≡◌, refl, sym, ap, ◌∙◌, Bool, true, List, [], ◌∷◌, ◌==◌, length,
  get_or, set, ltb, ◌&&◌, All, arith, Bool-cases, inl, inr,
}
use Prim.{tt}
use mathlib.Core.Path.{subst}
use hibp.Sorting.{insert_in_order, one_if, count_if, IsRanked}
use hibp.Sorting.Order.{
  All-weaken, count_if-insert_in_order, insert_in_order-All, Compares, insert_in_order-IsRanked,
}
use hibp.Disksort.{Head, head_less, total}
use hibp.Disksort.Reference.{
  refill_with-count, refill_with-total, length-refill_with, refill_with, refilled, merge_lists,
  IsMerging, Before, BeforeBut, count_all, get_or-set_same, get_or-set_other, get_or_inside,
  All-set, All-get_or, count_all_empty,
}

module _ {A : Type 0} (P : A → Type 0) (rank : A → ℕ) (less : A → A → Bool)
    (compares : Compares P rank less) where
  -- A state in which the chunk `idx` may have lost its head.
  module _ (bound idx : ℕ) (rests : List (List A)) (heads : List (Head A))
      (m : IsMerging P rank (BeforeBut bound idx) rests heads) where
    covered_empty :
        get_or rests idx [] ≡ []
        → (i : ℕ) → i < bound
        → 0 < length (get_or rests i [])
        → 0 < count_if (λ h. h.idx == i) heads
    covered_empty e i h some_left = elim (Bool-cases (idx == i)) [
      | inl same ↦
          let here : idx ≡ i = ground arith in
          absurd (omega (arith, ap (length {0}) (rw here at e)))
      | inr other ↦ m.covered i (h, other) some_left
    ]

    module _ (x : A) (xs : List A) (e : get_or rests idx [] ≡ x ∷ xs) where
      bounded_left :
          (b : ℕ) (i : ℕ)
          → All (λ y. b ≤ rank y) (get_or rests i [])
          → All (λ y. b ≤ rank y) (get_or (set rests idx xs) i [])
      bounded_left b i h = elim (Bool-cases (idx == i)) [
        | inl same ↦
            let here : idx ≡ i = ground arith in
            let whole =
              subst (All (λ y. b ≤ rank y)) (ap (λ j. get_or rests j []) (sym here) ∙ e) h in
            subst (All (λ y. b ≤ rank y))
              (sym (
                ap (λ j. get_or (set rests idx xs) j []) (sym here)
                ∙ get_or-set_same rests idx xs (get_or_inside rests idx e)))
              whole.1
        | inr other ↦ subst (All (λ y. b ≤ rank y)) (sym (get_or-set_other rests idx i xs other)) h
      ]

      covered_left :
          (i : ℕ)
          → i < bound
          → 0 < length (get_or (set rests idx xs) i [])
          → 0
            < count_if
                (λ h. h.idx == i)
                (insert_in_order (head_less less) (record { value = x; idx = idx }) heads)
      covered_left i h some_left =
          let counted =
            count_if-insert_in_order (head_less less) (λ h. h.idx == i)
              (record { value = x; idx = idx }) heads in
          elim (Bool-cases (idx == i)) [
            | inl same ↦ omega (arith, counted, ap one_if same)
            | inr other ↦
                let before = rw (get_or-set_other rests idx i xs other) at some_left in
                omega (arith, counted, m.covered i (h, other) before, ap one_if other)
          ]

      refill-IsMerging :
          IsMerging P rank
            (Before bound)
            (set rests idx xs)
            (insert_in_order (head_less less) (record { value = x; idx = idx }) heads)
      refill-IsMerging =
          let valid = subst (All P) e (All-get_or (All P) rests idx tt m.rests_valid) in
          let ranked =
            subst (IsRanked rank) e (All-get_or (IsRanked rank) rests idx tt m.rests_ranked) in
          let inserted : Head A = record { value = x; idx = idx } in
          record {
            heads_valid =
                insert_in_order-All (head_less less) (λ h. P h.value) inserted heads valid.0
                  m.heads_valid;
            heads_ranked =
                insert_in_order-IsRanked (λ h. P h.value) (λ h. rank h.value) (head_less less)
                  (λ a b. compares a.value b.value) inserted heads valid.0 m.heads_valid
                  m.heads_ranked;
            rests_valid = All-set (All P) rests idx xs valid.1 m.rests_valid;
            rests_ranked = All-set (IsRanked rank) rests idx xs ranked.1 m.rests_ranked;
            bounded =
                insert_in_order-All (head_less less)
                  (λ h. All (λ y. rank h.value ≤ rank y) (get_or (set rests idx xs) h.idx []))
                  inserted heads
                  (subst (All (λ y. rank x ≤ rank y))
                    (sym (get_or-set_same rests idx xs (get_or_inside rests idx e))) ranked.0)
                  (All-weaken heads (λ h. bounded_left (rank h.value) h.idx) m.bounded);
            covered = covered_left;
          }

    -- The state after the refill, for what is left of the chunk.
    pub refill_with-IsMerging :
        (left : List A)
        → get_or rests idx [] ≡ left
        → IsMerging P rank
            (Before bound)
            (refill_with less left idx rests heads).0
            (refill_with less left idx rests heads).1
    refill_with-IsMerging [] e = record {
      heads_valid = m.heads_valid;
      heads_ranked = m.heads_ranked;
      rests_valid = m.rests_valid;
      rests_ranked = m.rests_ranked;
      bounded = m.bounded;
      covered = covered_empty e;
    }
    refill_with-IsMerging (x ∷ xs) e = refill-IsMerging x xs e

  module _ (bound : ℕ) (rests : List (List A)) (t : Head A) (heads : List (Head A))
      (m : IsMerging P rank (Before bound) rests (t ∷ heads)) where
    -- The first head is taken off.
    popped-IsMerging : IsMerging P rank (BeforeBut bound t.idx) rests heads
    popped-IsMerging = record {
      heads_valid = m.heads_valid.1;
      heads_ranked = m.heads_ranked.1;
      rests_valid = m.rests_valid;
      rests_ranked = m.rests_ranked;
      bounded = m.bounded.1;
      covered = λ i h some_left. omega (arith, m.covered i h.0 some_left, ap one_if h.1);
    }

    next-IsMerging :
        IsMerging P rank
          (Before bound)
          (refilled less t.idx rests heads).0
          (refilled less t.idx rests heads).1
    next-IsMerging =
        refill_with-IsMerging bound t.idx rests heads popped-IsMerging (get_or rests t.idx []) refl

    -- No head is before the one that was taken off.
    refill_with-above :
        (b : ℕ) (left : List A)
        → get_or rests t.idx [] ≡ left
        → b ≤ rank t.value
        → All (λ h. b ≤ rank h.value) heads
        → All (λ h. b ≤ rank h.value) (refill_with less left t.idx rests heads).1
    refill_with-above b [] e here h = h
    refill_with-above b (x ∷ xs) e here h =
        let next = subst (All (λ y. rank t.value ≤ rank y)) e m.bounded.0 in
        insert_in_order-All (head_less less) (λ h. b ≤ rank h.value)
          (record { value = x; idx = t.idx }) heads (omega (arith, next.0)) h

  merge_lists-above :
      (b fuel bound : ℕ) (rests : List (List A)) (heads : List (Head A))
      → IsMerging P rank (Before bound) rests heads
      → All (λ h. b ≤ rank h.value) heads
      → All (λ y. b ≤ rank y) (merge_lists less fuel (rests, heads))
  unfolding merge_lists
  merge_lists-above b zero bound rests heads m h = tt
  merge_lists-above b (suc fuel) bound rests [] m h = tt
  merge_lists-above b (suc fuel) bound rests (t ∷ heads) m h =
      let next = refill_with less (get_or rests t.idx []) t.idx rests heads in
      (
        h.0,
        merge_lists-above b fuel bound next.0 next.1 (next-IsMerging bound rests t heads m)
            (refill_with-above bound rests t heads m b (get_or rests t.idx []) refl h.0 h.1),
      )

  -- The merge gives its records in order.
  pub merge_lists-IsRanked :
      (fuel bound : ℕ) (rests : List (List A)) (heads : List (Head A))
      → IsMerging P rank (Before bound) rests heads
      → IsRanked rank (merge_lists less fuel (rests, heads))
  unfolding merge_lists
  merge_lists-IsRanked zero bound rests heads m = tt
  merge_lists-IsRanked (suc fuel) bound rests [] m = tt
  merge_lists-IsRanked (suc fuel) bound rests (t ∷ heads) m =
      let next = refill_with less (get_or rests t.idx []) t.idx rests heads in
      let m' = next-IsMerging bound rests t heads m in
      (
        merge_lists-above (rank t.value) fuel bound next.0 next.1 m' (
            refill_with-above bound rests t heads m (rank t.value) (get_or rests t.idx []) refl
              (omega arith) m.heads_ranked.0),
        merge_lists-IsRanked fuel bound next.0 next.1 m',
      )

  pub merge_lists-All :
      (fuel bound : ℕ) (rests : List (List A)) (heads : List (Head A))
      → IsMerging P rank (Before bound) rests heads
      → All P (merge_lists less fuel (rests, heads))
  unfolding merge_lists
  merge_lists-All zero bound rests heads m = tt
  merge_lists-All (suc fuel) bound rests [] m = tt
  merge_lists-All (suc fuel) bound rests (t ∷ heads) m =
      let next = refill_with less (get_or rests t.idx []) t.idx rests heads in
      (
        m.heads_valid.0,
        merge_lists-All fuel bound next.0 next.1 (next-IsMerging bound rests t heads m),
      )

  get_or_outside :
      (rests : List (List A)) (i : ℕ) → length rests ≤ i → length (get_or rests i []) ≡ 0
  get_or_outside [] i h = refl
  get_or_outside (r ∷ rests) zero h = absurd (omega arith)
  get_or_outside (r ∷ rests) (suc i) h = get_or_outside rests i (omega arith)

  count_nothing :
      (bound : ℕ) (p : A → Bool) (rests : List (List A))
      → length rests ≤ bound
      → IsMerging P rank (Before bound) rests []
      → count_all p rests ≡ 0
  count_nothing bound p rests small m = count_all_empty p rests (λ i. nothing_left i)
    where
      nothing_left : (i : ℕ) → length (get_or rests i []) ≡ 0
      nothing_left i = elim (Bool-cases (ltb i bound && ltb 0 (length (get_or rests i [])))) [
        | inl e ↦ absurd (omega (arith, m.covered i (ground arith) (ground arith)))
        | inr e ↦ ground (arith, get_or_outside rests i)
      ]

  -- With fuel for each record, none is lost.
  pub merge_lists-count :
      (p : A → Bool) (fuel bound : ℕ) (rests : List (List A)) (heads : List (Head A))
      → length rests ≤ bound
      → IsMerging P rank (Before bound) rests heads
      → count_if (λ h. true) heads + total rests ≤ fuel
      → count_if p (merge_lists less fuel (rests, heads))
        ≡ count_if (λ h. p h.value) heads + count_all p rests
  unfolding merge_lists
  merge_lists-count p zero bound rests [] small m h =
      omega (arith, count_nothing bound p rests small m)
  merge_lists-count p zero bound rests (t ∷ heads) small m h = absurd (omega arith)
  merge_lists-count p (suc fuel) bound rests [] small m h =
      omega (arith, count_nothing bound p rests small m)
  merge_lists-count p (suc fuel) bound rests (t ∷ heads) small m h =
      let left = get_or rests t.idx [] in
      let next = refill_with less left t.idx rests heads in
      omega (
        arith,
        merge_lists-count p fuel bound next.0 next.1
            (omega (arith, length-refill_with less left t.idx rests heads))
            (next-IsMerging bound rests t heads m)
            (omega (arith, refill_with-total less left t.idx rests heads refl)),
        refill_with-count less p left t.idx rests heads refl,
      )
