-- ===== src/ArrCmp/Words.antt =====
-- Words that `bytearray_cast` loads from memory, as big-endian numbers.
use hibp.Common.{
  ℕ, ◌+◌, ◌*◌, ◌/◌, ◌%◌, ◌^◌, ◌≤◌, ◌<◌, ◌≡◌, refl, sym, ◌∙◌, true, List, [], ◌∷◌, take, length,
  length-take, All-take, lt→ltb, ltb-false, compare, Ordering, All, arith,
}
use native.Mathlib.Decide.{dec_lt}
use native.Mathlib.Nat.{pow-suc}
use mathlib.Core.Path.{ap₂}
use hibp.ArrCmp.{load_le, load_be, byteswap, load, Endian, little, big, bytearray_cast}

-- The order of the arrays' elements, first difference first: what `std::array` compares by.
abbrev pub lex : List ℕ → List ℕ → Ordering
lex [] [] = Ordering.eq
lex [] (y ∷ b) = Ordering.lt
lex (x ∷ a) [] = Ordering.gt
lex (x ∷ a) (y ∷ b) = elim (compare x y) [
  | Ordering.lt ↦ Ordering.lt
  | Ordering.eq ↦ lex a b
  | Ordering.gt ↦ Ordering.gt
]

abbrev pub IsByteList : List ℕ → Type 0
IsByteList = All (λ b. b < 256)

place-lt : (x y p low low' : ℕ) → x < y → low < p → x * p + low < y * p + low'
place-lt x y p low low' h l = grind arith

pub load_be-lt : (bs : List ℕ) → IsByteList bs → load_be bs < 256 ^ length bs
unfolding load_be
load_be-lt [] all = omega arith
load_be-lt (b ∷ bs) all =
    rw pow-suc
      (omega (arith, place-lt b 256 (256 ^ length bs) (load_be bs) 0 all.0 (load_be-lt bs all.1)))

byteswap-load_le : (bs : List ℕ) → IsByteList bs → byteswap (length bs) (load_le bs) ≡ load_be bs
unfolding byteswap load_le load_be
byteswap-load_le [] all = refl
byteswap-load_le (b ∷ bs) all =
    let low : (b + 256 * load_le bs) % 256 ≡ b = omega (arith, all.0) in
    let high : (b + 256 * load_le bs) / 256 ≡ load_le bs = omega (arith, all.0) in
    rw (low, high, byteswap-load_le bs all.1)

-- Big-endian numbers of one width are ordered as their bytes.
pub compare-load_be :
    (a b : List ℕ)
    → length a ≡ length b
    → IsByteList a
    → IsByteList b
    → compare (load_be a) (load_be b) ≡ lex a b
unfolding load_be
compare-load_be [] [] e all_a all_b = refl
compare-load_be [] (y ∷ b) e all_a all_b = absurd (omega arith)
compare-load_be (x ∷ a) [] e all_a all_b = absurd (omega arith)
compare-load_be (x ∷ a) (y ∷ b) e all_a all_b =
    let same : length a ≡ length b = omega arith in
    let p : ℕ = 256 ^ length b in
    let below_a : load_be a < p = rw same at (load_be-lt a all_a.1) in
    let below_b : load_be b < p = load_be-lt b all_b.1 in
    rw same (
      ground (
        arith,
        place-lt x y p (load_be a) (load_be b),
        place-lt y x p (load_be b) (load_be a),
        compare-load_be a b same all_a.1 all_b.1,
      ))

load_le-short : (bs : List ℕ) → length bs ≤ 1 → load_le bs ≡ load_be bs
unfolding load_le load_be
load_le-short [] h = refl
load_le-short (b ∷ []) h = omega arith
load_le-short (b ∷ c ∷ bs) h = absurd (omega arith)

-- Swapped or not, a word that is loaded from memory is the big-endian number of its bytes.
pub bytearray_cast-load_be :
    (endian : Endian) (n : ℕ) (source : List ℕ)
    → n ≤ length source
    → IsByteList source
    → bytearray_cast endian n true source ≡ load_be (take n source)
unfolding bytearray_cast
bytearray_cast-load_be big n source h all = ground arith
bytearray_cast-load_be little n source h all = elim (dec_lt 1 n) [
  | yes p ↦
      let sized : length (take n source) ≡ n = omega (arith, length-take n source) in
      rw (lt→ltb 1 n p)
        (rw sized at (byteswap-load_le (take n source) (All-take (λ b. b < 256) n source all)))
  | no p ↦
      rw (ltb-false 1 n (omega arith))
        (load_le-short (take n source) (omega (arith, length-take n source)))
]

-- An array compares equal to itself.
pub lex_refl : (a : List ℕ) → lex a a ≡ Ordering.eq
lex_refl [] = refl
lex_refl (x ∷ a) = ground (arith, lex_refl a)

-- Only equal arrays compare equal.
pub lex-eq : (a b : List ℕ) → lex a b ≡ Ordering.eq → a ≡ b
lex-eq [] [] h = refl
lex-eq [] (y ∷ b) h = cc
lex-eq (x ∷ a) [] h = cc
lex-eq (x ∷ a) (y ∷ b) h = ground (arith, lex-eq a b)

load_le-injective :
    (a b : List ℕ)
    → length a ≡ length b
    → IsByteList a
    → IsByteList b
    → load_le a ≡ load_le b
    → a ≡ b
unfolding load_le
load_le-injective [] [] e all_a all_b h = refl
load_le-injective [] (y ∷ b) e all_a all_b h = absurd (omega arith)
load_le-injective (x ∷ a) [] e all_a all_b h = absurd (omega arith)
load_le-injective (x ∷ a) (y ∷ b) e all_a all_b h =
    let heads : x ≡ y = omega (arith, all_a.0, all_b.0) in
    let tails =
      load_le-injective a b (omega arith) all_a.1 all_b.1 (omega (arith, all_a.0, all_b.0)) in
    ap₂ ◌∷◌ heads tails

-- Two words of one width are equal only if their bytes are.
pub load-injective :
    (endian : Endian) (a b : List ℕ)
    → length a ≡ length b
    → IsByteList a
    → IsByteList b
    → load endian a ≡ load endian b
    → a ≡ b
unfolding load
load-injective little a b e all_a all_b h = load_le-injective a b e all_a all_b h
load-injective big a b e all_a all_b h =
    lex-eq a b (sym (compare-load_be a b e all_a all_b) ∙ (rw h (ground arith)))
