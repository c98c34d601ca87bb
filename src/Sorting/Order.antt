-- ===== src/Sorting/Order.antt =====
-- Sorted lists, for a comparison that agrees with a rank on the elements of a kind.
use hibp.Common.{
  ℕ, ◌+◌, ◌≤◌, ◌≡◌, refl, sym, ap, ◌∙◌, Bool, true, List, [], ◌∷◌, ◌++◌, ltb, length, All, arith,
  Bool-cases, inl, inr,
}
use Prim.{tt}
use hibp.Sorting.{insert_in_order, sort, one_if, count_if, SameElements, IsRanked}

module _ {A : Type 0} where
  pub count_if-append :
      (p : A → Bool) (xs ys : List A) → count_if p (xs ++ ys) ≡ count_if p xs + count_if p ys
  count_if-append p [] ys = omega arith
  count_if-append p (x ∷ xs) ys = omega (arith, count_if-append p xs ys)

  pub count_if_all : (xs : List A) → count_if (λ x. true) xs ≡ length xs
  count_if_all [] = refl
  count_if_all (x ∷ xs) = omega (arith, count_if_all xs)

  pub All-weaken : {P Q : A → Type 0} (xs : List A) → ((x : A) → P x → Q x) → All P xs → All Q xs
  All-weaken [] f h = tt
  All-weaken (x ∷ xs) f h = (f x h.0, All-weaken xs f h.1)

module _ {A : Type 0} (less : A → A → Bool) where
  pub count_if-insert_in_order :
      (p : A → Bool) (x : A) (ys : List A)
      → count_if p (insert_in_order less x ys) ≡ one_if (p x) + count_if p ys
  unfolding insert_in_order
  count_if-insert_in_order p x [] = refl
  count_if-insert_in_order p x (y ∷ ys) = elim (Bool-cases (less y x)) [
    | inl e ↦ rw e (omega (arith, count_if-insert_in_order p x ys))
    | inr e ↦ rw e refl
  ]

  pub sort-SameElements : (xs : List A) → SameElements (sort less xs) xs
  unfolding sort
  sort-SameElements [] p = refl
  sort-SameElements (x ∷ xs) p =
      count_if-insert_in_order p x (sort less xs)
      ∙ ap (λ (t : ℕ). one_if (p x) + t) (sort-SameElements xs p)

  pub length-sort : (xs : List A) → length (sort less xs) ≡ length xs
  length-sort xs =
      sym (count_if_all (sort less xs)) ∙ sort-SameElements xs (λ x. true) ∙ count_if_all xs

  pub insert_in_order-All :
      (P : A → Type 0) (x : A) (ys : List A) → P x → All P ys → All P (insert_in_order less x ys)
  unfolding insert_in_order
  insert_in_order-All P x [] h hs = (h, tt)
  insert_in_order-All P x (y ∷ ys) h hs = elim (Bool-cases (less y x)) [
    | inl e ↦ rw e (hs.0, insert_in_order-All P x ys h hs.1)
    | inr e ↦ rw e (h, hs)
  ]

  pub sort-All : (P : A → Type 0) (xs : List A) → All P xs → All P (sort less xs)
  unfolding sort
  sort-All P [] h = tt
  sort-All P (x ∷ xs) h = insert_in_order-All P x (sort less xs) h.0 (sort-All P xs h.1)

-- What a comparison promises: on elements of the kind `P` it compares their ranks.
abbrev pub Compares : {A : Type 0} → (A → Type 0) → (A → ℕ) → (A → A → Bool) → Type 0
Compares {A} P rank less = (a b : A) → P a → P b → less a b ≡ ltb (rank a) (rank b)

module _ {A : Type 0} (P : A → Type 0) (rank : A → ℕ) (less : A → A → Bool)
    (compares : Compares P rank less) where
  pub insert_in_order-IsRanked :
      (x : A) (ys : List A)
      → P x
      → All P ys
      → IsRanked rank ys
      → IsRanked rank (insert_in_order less x ys)
  unfolding insert_in_order
  insert_in_order-IsRanked x [] h hs r = (tt, tt)
  insert_in_order-IsRanked x (y ∷ ys) h hs r = elim (Bool-cases (less y x)) [
    | inl e ↦
        let below = compares y x hs.0 h in
        rw e (
          insert_in_order-All less (λ z. rank y ≤ rank z) x ys (ground arith) r.0,
          insert_in_order-IsRanked x ys h hs.1 r.1,
        )
    | inr e ↦
        let above = compares y x hs.0 h in
        let here : rank x ≤ rank y = ground arith in
        rw e ((here, All-weaken ys (λ z k. omega arith) r.0), r)
  ]

  pub sort-IsRanked : (xs : List A) → All P xs → IsRanked rank (sort less xs)
  unfolding sort
  sort-IsRanked [] h = tt
  sort-IsRanked (x ∷ xs) h =
      insert_in_order-IsRanked x (sort less xs) h.0 (sort-All less P xs h.1) (sort-IsRanked xs h.1)
