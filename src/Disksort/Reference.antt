-- ===== src/Disksort/Reference.antt =====
-- The merge of include/flat_file.hpp on lists: what each chunk file has left, and the queue.
use hibp.Common.{
  ℕ, zero, suc, ◌+◌, ◌≤◌, ◌<◌, ◌≡◌, refl, ap, Bool, true, false, List, [], ◌∷◌, ◌==◌, length,
  get_or, set, length-set, All, arith,
}
use Prim.{tt}
use hibp.Sorting.{insert_in_order, one_if, count_if, IsRanked}
use hibp.Sorting.Order.{count_if-insert_in_order}
use hibp.Disksort.{Head, head_less, total}

module _ {A : Type 0} (less : A → A → Bool) where
  -- The first of what is left goes into the queue.
  abbrev pub refill_with :
      List A → ℕ → List (List A) → List (Head A) → List (List A) × List (Head A)
  refill_with [] idx rests heads = (rests, heads)
  refill_with (x ∷ xs) idx rests heads =
      (set rests idx xs, insert_in_order (head_less less) (record { value = x; idx = idx }) heads)

  abbrev pub refilled : ℕ → List (List A) → List (Head A) → List (List A) × List (Head A)
  refilled idx rests heads = refill_with (get_or rests idx []) idx rests heads

  unfoldable pub merge_lists : ℕ → List (List A) × List (Head A) → List A
  unfolding insert_in_order
  merge_lists zero (rests, heads) = []
  merge_lists (suc fuel) (rests, []) = []
  merge_lists (suc fuel) (rests, t ∷ heads) =
      t.value ∷ merge_lists fuel (refilled t.idx rests heads)

module _ {A : Type 0} where
  pub get_or-set_same :
      (xs : List (List A)) (i : ℕ) (v : List A) → i < length xs → get_or (set xs i v) i [] ≡ v
  get_or-set_same [] i v h = absurd (omega arith)
  get_or-set_same (x ∷ xs) zero v h = refl
  get_or-set_same (x ∷ xs) (suc i) v h = get_or-set_same xs i v (omega arith)

  pub get_or-set_other :
      (xs : List (List A)) (i j : ℕ) (v : List A)
      → (i == j) ≡ false
      → get_or (set xs i v) j [] ≡ get_or xs j []
  get_or-set_other [] i j v h = refl
  get_or-set_other (x ∷ xs) zero zero v h = absurd (ground arith)
  get_or-set_other (x ∷ xs) zero (suc j) v h = refl
  get_or-set_other (x ∷ xs) (suc i) zero v h = refl
  get_or-set_other (x ∷ xs) (suc i) (suc j) v h = get_or-set_other xs i j v (ground arith)

  pub get_or_inside :
      (rests : List (List A)) (i : ℕ) {x : A} {xs : List A}
      → get_or rests i [] ≡ x ∷ xs
      → i < length rests
  get_or_inside [] i e = cc
  get_or_inside (r ∷ rests) zero e = omega arith
  get_or_inside (r ∷ rests) (suc i) e = omega (arith, get_or_inside rests i e)

  pub All-set :
      (Q : List A → Type 0) (rests : List (List A)) (i : ℕ) (v : List A)
      → Q v
      → All Q rests
      → All Q (set rests i v)
  All-set Q [] i v q h = tt
  All-set Q (r ∷ rests) zero v q h = (q, h.1)
  All-set Q (r ∷ rests) (suc i) v q h = (h.0, All-set Q rests i v q h.1)

  pub All-get_or :
      (Q : List A → Type 0) (rests : List (List A)) (i : ℕ)
      → Q []
      → All Q rests
      → Q (get_or rests i [])
  All-get_or Q [] i q h = q
  All-get_or Q (r ∷ rests) zero q h = h.0
  All-get_or Q (r ∷ rests) (suc i) q h = All-get_or Q rests i q h.1

  abbrev pub count_all : (A → Bool) → List (List A) → ℕ
  count_all p [] = 0
  count_all p (r ∷ rests) = count_if p r + count_all p rests

  pub count_all-set :
      (p : A → Bool) (rests : List (List A)) (i : ℕ) {x : A} {xs : List A}
      → get_or rests i [] ≡ x ∷ xs
      → one_if (p x) + count_all p (set rests i xs) ≡ count_all p rests
  count_all-set p [] i e = cc
  count_all-set p (r ∷ rests) zero e = omega (arith, ap (count_if p) e)
  count_all-set p (r ∷ rests) (suc i) e = omega (arith, count_all-set p rests i e)

  pub total-set :
      (rests : List (List A)) (i : ℕ) {x : A} {xs : List A}
      → get_or rests i [] ≡ x ∷ xs
      → suc (total (set rests i xs)) ≡ total rests
  total-set [] i e = cc
  total-set (r ∷ rests) zero e = omega (arith, ap (length {0}) e)
  total-set (r ∷ rests) (suc i) e = omega (arith, total-set rests i e)

  pub count_all_empty :
      (p : A → Bool) (rests : List (List A))
      → ((i : ℕ) → length (get_or rests i []) ≡ 0)
      → count_all p rests ≡ 0
  count_all_empty p [] h = refl
  count_all_empty p ([] ∷ rests) h = omega (arith, count_all_empty p rests (λ i. h (suc i)))
  count_all_empty p ((x ∷ r) ∷ rests) h = absurd (omega (arith, h 0))

module _ {A : Type 0} (less : A → A → Bool) where
  pub refill_with-count :
      (p : A → Bool) (left : List A) (idx : ℕ) (rests : List (List A)) (heads : List (Head A))
      → get_or rests idx [] ≡ left
      → count_if (λ h. p h.value) (refill_with less left idx rests heads).1
          + count_all p (refill_with less left idx rests heads).0
        ≡ count_if (λ h. p h.value) heads + count_all p rests
  refill_with-count p [] idx rests heads e = refl
  refill_with-count p (x ∷ xs) idx rests heads e = omega (
    arith,
    count_if-insert_in_order (head_less less) (λ h. p h.value) (record { value = x; idx = idx })
        heads,
    count_all-set p rests idx e,
  )

  pub refill_with-total :
      (left : List A) (idx : ℕ) (rests : List (List A)) (heads : List (Head A))
      → get_or rests idx [] ≡ left
      → count_if (λ h. true) (refill_with less left idx rests heads).1
          + total (refill_with less left idx rests heads).0
        ≡ count_if (λ h. true) heads + total rests
  refill_with-total [] idx rests heads e = refl
  refill_with-total (x ∷ xs) idx rests heads e = omega (
    arith,
    count_if-insert_in_order (head_less less) (λ h. true) (record { value = x; idx = idx }) heads,
    total-set rests idx e,
  )

  pub length-refill_with :
      (left : List A) (idx : ℕ) (rests : List (List A)) (heads : List (Head A))
      → length (refill_with less left idx rests heads).0 ≡ length rests
  length-refill_with [] idx rests heads = refl
  length-refill_with (x ∷ xs) idx rests heads = length-set rests idx xs

  -- What the priming of the queue does.
  abbrev pub primed : ℕ → ℕ → List (List A) × List (Head A) → List (List A) × List (Head A)
  primed zero i s = s
  primed (suc n) i s = primed n (i + 1) (refilled less i s.0 s.1)

-- What is left is in order and not before its head in the queue; of the chunks in question, nothing
-- is left without a head there.
pub record IsMerging {A : Type 0} (P : A → Type 0) (rank : A → ℕ) (InQuestion : ℕ → Type 0)
    (rests : List (List A)) (heads : List (Head A)) : Type 0 where
  pub heads_valid : All (λ h. P h.value) heads
  pub heads_ranked : IsRanked (λ h. rank h.value) heads
  pub rests_valid : All (All P) rests
  pub rests_ranked : All (IsRanked rank) rests
  pub bounded : All (λ h. All (λ y. rank h.value ≤ rank y) (get_or rests h.idx [])) heads
  pub covered :
      (i : ℕ) → InQuestion i → 0 < length (get_or rests i []) → 0 < count_if (λ h. h.idx == i) heads

-- All chunks before a number, and all but one of these.
abbrev pub Before : ℕ → ℕ → Type 0
Before bound i = i < bound

abbrev pub BeforeBut : ℕ → ℕ → ℕ → Type 0
BeforeBut bound idx i = (i < bound) × ((idx == i) ≡ false)
