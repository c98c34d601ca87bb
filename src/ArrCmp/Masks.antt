-- ===== src/ArrCmp/Masks.antt =====
-- The masks of `vector_cmp` of include/arrcmp.hpp, and their first bit that is set.
use hibp.Common.{
  ℕ, zero, suc, ◌+◌, ◌*◌, ◌/◌, ◌%◌, ◌^◌, ◌≤◌, ◌≡◌, ◌↔◌, refl, List, [], ◌∷◌, ◌==◌, if◌then◌else◌,
  get_or, take, length, length-take, compare, Ordering, arith,
}
use native.Mathlib.Decide.{ℕ_discrete}
use hibp.ArrCmp.{eq_mask, ne_mask, vector_cmp, count_zeros}
use hibp.ArrCmp.Words.{lex}

masks_sum : (a b : List ℕ) → length a ≡ length b → eq_mask a b + ne_mask a b + 1 ≡ 2 ^ length a
unfolding eq_mask ne_mask
masks_sum [] [] e = refl
masks_sum [] (y ∷ b) e = absurd (omega arith)
masks_sum (x ∷ a) [] e = absurd (omega arith)
masks_sum (x ∷ a) (y ∷ b) e = ground (arith, masks_sum a b (omega arith))

-- Either way of building the mask marks the bytes that differ.
pub vector_cmp-ne_mask :
    (n : ℕ) (a b : List ℕ)
    → n ≤ length a
    → n ≤ length b
    → vector_cmp n a b ≡ ne_mask (take n a) (take n b)
unfolding vector_cmp
vector_cmp-ne_mask n a b h k =
    let sized : length (take n a) ≡ n = omega (arith, length-take n a) in
    let sum =
      rw sized at
        (masks_sum (take n a) (take n b) (omega (arith, length-take n a, length-take n b))) in
    ground (arith, sum)

module _ {ℓ} {R : Type ℓ} (view : R → Ordering) (equality : R) (f : ℕ → ℕ → R) where
  -- The comparison of the bytes at the first mark, if there is one, is that of the chunks.
  pub at_first_difference :
      (bits size : ℕ) (a b : List ℕ)
      → view equality ≡ Ordering.eq
      → ((x y : ℕ) → view (f x y) ≡ compare x y)
      → size ≤ length a
      → size ≤ length b
      → size ≤ bits
      → view (
          if ne_mask (take size a) (take size b) == 0
          then equality
          else f
              (get_or a (count_zeros bits (ne_mask (take size a) (take size b))) 0)
              (get_or b (count_zeros bits (ne_mask (take size a) (take size b))) 0))
        ≡ lex (take size a) (take size b)
  unfolding ne_mask count_zeros
  at_first_difference bits zero a b ve vf ha hb h = ve
  at_first_difference bits (suc size) [] b ve vf ha hb h = absurd (omega arith)
  at_first_difference bits (suc size) (x ∷ a) [] ve vf ha hb h = absurd (omega arith)
  at_first_difference zero (suc size) (x ∷ a) (y ∷ b) ve vf ha hb h = absurd (omega arith)
  at_first_difference (suc bits) (suc size) (x ∷ a) (y ∷ b) ve vf ha hb h =
      let later =
        at_first_difference bits size a b ve vf (omega arith) (omega arith) (omega arith) in
      let m : ℕ = ne_mask (take size a) (take size b) in
      let skipped : 0 + 2 * m ≡ 2 * m = omega arith in
      let even : 2 * m % 2 ≡ 0 = omega arith in
      let half : 2 * m / 2 ≡ m = omega arith in
      elim (ℕ_discrete x y) [
        | yes same ↦ ground (arith, later, skipped, even, half)
        | no differ ↦ ground (arith, vf x y)
      ]

-- No mark is set exactly where the chunks are equal.
pub ne_mask-zero : (a b : List ℕ) → length a ≡ length b → (ne_mask a b ≡ 0) ↔ (a ≡ b)
unfolding ne_mask
ne_mask-zero a b e = (to a b e, λ p. rw (← p) (same a))
  where
    same : (a : List ℕ) → ne_mask a a ≡ 0
    same [] = refl
    same (x ∷ a) = ground (arith, same a)

    to : (a b : List ℕ) → length a ≡ length b → ne_mask a b ≡ 0 → a ≡ b
    to [] [] e h = refl
    to [] (y ∷ b) e h = absurd (omega arith)
    to (x ∷ a) [] e h = absurd (omega arith)
    to (x ∷ a) (y ∷ b) e h = ground (arith, to a b (omega arith))
