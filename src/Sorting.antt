-- ===== src/Sorting.antt =====
-- `std::sort`, and the order in which `std::priority_queue` gives its elements up, for a comparison
-- `less`: both are insertion into a list in order. The functions say what the sources use of them.
pub mod Order
use hibp.Common.{ℕ, zero, suc, ◌+◌, ◌≤◌, ◌≡◌, Bool, true, false, List, [], ◌∷◌, if◌then◌else◌, All}

module _ {A : Type 0} (less : A → A → Bool) where
  -- Before the first element that is not less.
  unfoldable pub insert_in_order : A → List A → List A
  insert_in_order x [] = x ∷ []
  insert_in_order x (y ∷ ys) = if less y x then y ∷ insert_in_order x ys else x ∷ y ∷ ys

  unfoldable pub sort : List A → List A
  unfolding insert_in_order
  sort [] = []
  sort (x ∷ xs) = insert_in_order x (sort xs)

abbrev pub one_if : Bool → ℕ
one_if true = 1
one_if false = 0

-- `std::count_if`
abbrev pub count_if : {A : Type 0} → (A → Bool) → List A → ℕ
count_if p [] = 0
count_if p (x ∷ xs) = one_if (p x) + count_if p xs

-- The same elements, each as often, in any order: no test tells the lists apart by how many pass it.
abbrev pub SameElements : {A : Type 0} → List A → List A → Type 0
SameElements {A} xs ys = (p : A → Bool) → count_if p xs ≡ count_if p ys

-- Each element has a rank that is at most the rank of all behind it.
abbrev pub IsRanked : {A : Type 0} → (A → ℕ) → List A → Type 0
IsRanked rank [] = Unit {0}
IsRanked rank (x ∷ xs) = All (λ y. rank x ≤ rank y) xs × IsRanked rank xs
