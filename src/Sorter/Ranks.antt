-- ===== src/Sorter/Ranks.antt =====
-- The two orders of the sorter, as ranks.
use hibp.Common.{
  ℕ, ◌+◌, ◌*◌, ◌^◌, ◌≤◌, ◌<◌, ◌≡◌, ◌⊎◌, inl, inr, sym, ap, ◌∙◌, true, false, List, [], ◌∷◌, ◌==◌,
  if◌then◌else◌, ltb, All, arith, Bool-cases, eq_ℤ, lt_ℤ, descending, eq_ℤ-descending,
  lt_ℤ-descending, eq_ℤ-eq,
}
use Prim.{Unit, tt}
use native.Mathlib.Nat.{mul-le-mul_right}
use hibp.ArrCmp.{Isa, Endian}
use hibp.ArrCmp.Words.{load_be-lt}
use hibp.Hibp.{PawnedPw, IsRecord}
use hibp.Hibp.Order.{key, pw_less, pw_less-key}
use hibp.Sorting.{IsRanked}
use hibp.Sorting.Order.{Compares}
use hibp.Search.Lookup.{Ascending, IsDatabase, Ascending-IsDatabase}
use hibp.Sorter.{less_by_count}

-- One number for the count and the hash.
abbrev pub rank_by_count : ℕ → PawnedPw → ℕ
rank_by_count hash_size pw = descending pw.count * 256 ^ hash_size + key pw

key-lt : (hash_size : ℕ) (pw : PawnedPw) → IsRecord hash_size pw → key pw < 256 ^ hash_size
key-lt hash_size pw v = rw v.sized at (load_be-lt pw.hash v.bytes)

digits :
    (base a b k l : ℕ)
    → k < base
    → l < base
    → ltb (a * base + k) (b * base + l) ≡ (if a == b then ltb k l else ltb a b)
digits base a b k l hk hl = elim (Bool-cases (ltb a b)) [
  | inl below ↦
      let step = mul-le-mul_right {m = a + 1} {n = b} base (ground arith) in
      let far : a * base + k < b * base + l = omega (arith, step) in
      let other : (a == b) ≡ false = ground arith in rw (other, below) (ground arith)
  | inr above ↦ elim (Bool-cases (a == b)) [
    | inl same ↦ let e : a ≡ b = ground arith in rw (same, e) (ground arith)
    | inr other ↦
        let step = mul-le-mul_right {m = b + 1} {n = a} base (ground arith) in
        let far : b * base + l < a * base + k = omega (arith, step) in
        rw (other, above) (ground arith)
  ]
]

module _ (isa : Isa) (endian : Endian) (hash_size : ℕ) where
  pub pw_less-Compares : Compares (IsRecord hash_size) key (pw_less isa endian hash_size)
  pw_less-Compares a b va vb = pw_less-key isa endian hash_size a b va vb

  pub less_by_count-Compares :
      Compares (IsRecord hash_size) (rank_by_count hash_size) (less_by_count isa endian hash_size)
  unfolding less_by_count
  less_by_count-Compares a b va vb =
      rw
        (
          eq_ℤ-descending a.count b.count va.counted vb.counted,
          lt_ℤ-descending a.count b.count va.counted vb.counted,
          pw_less-key isa endian hash_size a b va vb,
        )
        (sym (
          digits (256 ^ hash_size) (descending a.count) (descending b.count) (key a) (key b)
            (key-lt hash_size a va) (key-lt hash_size b vb)))

-- The second record has the smaller count, or the same count and a hash that is not before.
abbrev pub Follows : PawnedPw → PawnedPw → Type 0
Follows x y = (lt_ℤ y.count x.count ≡ true) ⊎ ((y.count ≡ x.count) × (key x ≤ key y))

abbrev pub IsCountOrder : List PawnedPw → Type 0
IsCountOrder [] = Unit {0}
IsCountOrder (x ∷ xs) = All (Follows x) xs × IsCountOrder xs

module _ (hash_size : ℕ) where
  pub rank-Follows :
      (x y : PawnedPw)
      → IsRecord hash_size x
      → IsRecord hash_size y
      → rank_by_count hash_size x ≤ rank_by_count hash_size y
      → Follows x y
  rank-Follows x y vx vy h =
      let apart =
        digits (256 ^ hash_size) (descending y.count) (descending x.count) (key y) (key x)
          (key-lt hash_size y vy) (key-lt hash_size x vx) in
      let behind : ltb (rank_by_count hash_size y) (rank_by_count hash_size x) ≡ false =
        ground arith in
      elim (Bool-cases (eq_ℤ y.count x.count)) [
        | inl same ↦
            let e = sym (eq_ℤ-descending y.count x.count vy.counted vx.counted) ∙ same in
            let hashes : ltb (key y) (key x) ≡ false =
              ap
                (λ b.
                  if b then ltb (key y) (key x) else ltb (descending y.count) (descending x.count))
                (sym e)
              ∙ sym apart
              ∙ behind in
            inr (eq_ℤ-eq y.count x.count same, ground arith)
        | inr other ↦
            let e = sym (eq_ℤ-descending y.count x.count vy.counted vx.counted) ∙ other in
            let counts : ltb (descending y.count) (descending x.count) ≡ false =
              ap
                (λ b.
                  if b then ltb (key y) (key x) else ltb (descending y.count) (descending x.count))
                (sym e)
              ∙ sym apart
              ∙ behind in
            let smaller : ltb (descending x.count) (descending y.count) ≡ true = ground arith in
            inl (lt_ℤ-descending x.count y.count vx.counted vy.counted ∙ smaller)
      ]

  pub All-Follows :
      (x : PawnedPw) (ys : List PawnedPw)
      → IsRecord hash_size x
      → All (IsRecord hash_size) ys
      → All (λ y. rank_by_count hash_size x ≤ rank_by_count hash_size y) ys
      → All (Follows x) ys
  All-Follows x [] v h r = tt
  All-Follows x (y ∷ ys) v h r = (rank-Follows x y v h.0 r.0, All-Follows x ys v h.1 r.1)

  pub IsRanked-IsCountOrder :
      (xs : List PawnedPw)
      → All (IsRecord hash_size) xs
      → IsRanked (rank_by_count hash_size) xs
      → IsCountOrder xs
  IsRanked-IsCountOrder [] h r = tt
  IsRanked-IsCountOrder (x ∷ xs) h r =
      (All-Follows x xs h.0 h.1 r.0, IsRanked-IsCountOrder xs h.1 r.1)

  IsRanked-Ascending :
      (low : ℕ) (xs : List PawnedPw)
      → All (λ x. low ≤ key x) xs
      → IsRanked key xs
      → Ascending low xs
  IsRanked-Ascending low [] h r = tt
  IsRanked-Ascending low (x ∷ xs) h r = (h.0, IsRanked-Ascending (key x) xs r.0 r.1)

  not_below : (xs : List PawnedPw) → All (λ x. 0 ≤ key x) xs
  not_below [] = tt
  not_below (x ∷ xs) = (omega arith, not_below xs)

  pub IsRanked-IsDatabase :
      (xs : List PawnedPw) → All (IsRecord hash_size) xs → IsRanked key xs → IsDatabase hash_size xs
  IsRanked-IsDatabase xs h r =
      Ascending-IsDatabase hash_size xs h (IsRanked-Ascending 0 xs (not_below xs) r)
