-- ===== src/Search/Lookup.antt =====
-- What a search has to answer: the first record in the file that has the hash.
use hibp.Common.{
  ℕ, zero, suc, ◌≤◌, ◌<◌, ◌≡◌, ◌≢◌, refl, List, [], ◌∷◌, Option, none, some, ◌==◌, if◌then◌else◌,
  length, get_elem?, arith,
}
use Prim.{Unit}
use mathlib.Core.Path.{subst}
use hibp.Common.{All}
use hibp.Hibp.{PawnedPw, IsRecord}
use hibp.Hibp.Order.{key}

abbrev pub lookup : ℕ → List PawnedPw → Option PawnedPw
lookup k [] = none
lookup k (x ∷ xs) = if key x == k then some x else lookup k xs

-- The hash at a position, as a number.
abbrev pub key_at : List PawnedPw → ℕ → ℕ
key_at [] i = 0
key_at (x ∷ xs) zero = key x
key_at (x ∷ xs) (suc i) = key_at xs i

-- What the programs take for granted of a database: its records are well formed, and sorted by hash.
pub record IsDatabase (hash_size : ℕ) (rs : List PawnedPw) : Type 0 where
  pub valid : (i : ℕ) (x : PawnedPw) → get_elem? rs i ≡ some x → IsRecord hash_size x
  pub sorted : (i j : ℕ) → i ≤ j → j < length rs → key_at rs i ≤ key_at rs j

pub key_at-get_elem? :
    (rs : List PawnedPw) (i : ℕ) (x : PawnedPw) → get_elem? rs i ≡ some x → key_at rs i ≡ key x
key_at-get_elem? [] i x e = cc
key_at-get_elem? (y ∷ rs) zero x e = ground arith
key_at-get_elem? (y ∷ rs) (suc i) x e = key_at-get_elem? rs i x e

pub lookup-none :
    (k : ℕ) (rs : List PawnedPw) → ((i : ℕ) → i < length rs → key_at rs i ≢ k) → lookup k rs ≡ none
lookup-none k [] h = refl
lookup-none k (x ∷ rs) h = ground (arith, h 0, lookup-none k rs (λ i p. h (suc i) (omega arith)))

pub lookup_first :
    (k : ℕ) (rs : List PawnedPw) (r : ℕ) (x : PawnedPw)
    → ((i : ℕ) → i < r → key_at rs i ≢ k)
    → get_elem? rs r ≡ some x
    → key x ≡ k
    → lookup k rs ≡ some x
lookup_first k [] r x h e q = cc
lookup_first k (y ∷ rs) zero x h e q = ground arith
lookup_first k (y ∷ rs) (suc r) x h e q =
    ground (arith, h 0, lookup_first k rs r x (λ i p. h (suc i) (omega arith)) e q)

-- In ascending order, and from `low`.
abbrev pub Ascending : ℕ → List PawnedPw → Type 0
Ascending low [] = Unit {0}
Ascending low (x ∷ rs) = (low ≤ key x) × Ascending (key x) rs

Ascending-low :
    (low : ℕ) (rs : List PawnedPw) (j : ℕ) → Ascending low rs → j < length rs → low ≤ key_at rs j
Ascending-low low [] j a h = absurd (omega arith)
Ascending-low low (x ∷ rs) zero a h = a.0
Ascending-low low (x ∷ rs) (suc j) a h =
    omega (arith, a.0, Ascending-low (key x) rs j a.1 (omega arith))

Ascending-sorted :
    (low : ℕ) (rs : List PawnedPw) (i j : ℕ)
    → Ascending low rs
    → i ≤ j
    → j < length rs
    → key_at rs i ≤ key_at rs j
Ascending-sorted low [] i j a h k = absurd (omega arith)
Ascending-sorted low (x ∷ rs) zero zero a h k = omega arith
Ascending-sorted low (x ∷ rs) zero (suc j) a h k = Ascending-low (key x) rs j a.1 (omega arith)
Ascending-sorted low (x ∷ rs) (suc i) zero a h k = absurd (omega arith)
Ascending-sorted low (x ∷ rs) (suc i) (suc j) a h k =
    Ascending-sorted (key x) rs i j a.1 (omega arith) (omega arith)

abbrev OfSome : (PawnedPw → Type 0) → Option PawnedPw → Type 0
OfSome P none = Unit {0}
OfSome P (some x) = P x

pub All-at :
    (P : PawnedPw → Type 0) (rs : List PawnedPw) (i : ℕ) (pw : PawnedPw)
    → All P rs
    → get_elem? rs i ≡ some pw
    → P pw
All-at P [] i pw a e = cc
All-at P (x ∷ rs) zero pw a e = subst (OfSome P) e a.0
All-at P (x ∷ rs) (suc i) pw a e = All-at P rs i pw a.1 e

pub Ascending-IsDatabase :
    (hash_size : ℕ) (rs : List PawnedPw)
    → All (IsRecord hash_size) rs
    → Ascending 0 rs
    → IsDatabase hash_size rs
Ascending-IsDatabase hash_size rs a s = record {
  valid = λ i x e. All-at (IsRecord hash_size) rs i x a e;
  sorted = λ i j h k. Ascending-sorted 0 rs i j s h k;
}
