-- ===== src/ArrCmp/Chunks.antt =====
-- One chunk: its size, and what each comparator answers on it.
use hibp.Common.{
  ℕ, ◌≤◌, ◌<◌, ◌≡◌, ◌↔◌, refl, ap, true, false, List, leb, ◌==◌, ==_iff, if◌then◌else◌, get_or,
  take, length, length-take, compare, Ordering, All-take, arith, sign, pos,
}
use native.Mathlib.Decide.{dec_le}
use hibp.ArrCmp.{
  Isa, avx512, avx2, sse, scalar, not_x86, Endian, largest_uint, largest_vector, next_size, load,
  bytearray_cast, ne_mask, vector_cmp, count_zeros, cmp_by_substracting, three_way_call,
  three_way_int_call, equal_call,
}
use hibp.ArrCmp.Words.{lex, IsByteList, compare-load_be, bytearray_cast-load_be, load-injective}
use hibp.ArrCmp.Masks.{vector_cmp-ne_mask, at_first_difference, ne_mask-zero}

-- A chunk is a whole word, or a whole register of the machine.
pub record IsChunk (isa : Isa) (size : ℕ) : Type 0 where
  pub some_bytes : 1 ≤ size
  pub fits_mask : size ≤ 64
  pub word : size ≤ 8 → largest_uint size ≡ size
  pub register : 8 < size → largest_vector isa size ≡ size

pub next_size-IsChunk : (isa : Isa) (n : ℕ) → 0 < n → IsChunk isa (next_size isa n)
unfolding next_size
next_size-IsChunk avx512 n h = ground arith
next_size-IsChunk avx2 n h = ground arith
next_size-IsChunk sse n h = ground arith
next_size-IsChunk scalar n h = ground arith
next_size-IsChunk not_x86 n h = ground arith

pub next_size-le : (isa : Isa) (n : ℕ) → 0 < n → next_size isa n ≤ n
unfolding next_size
next_size-le isa n h = ground arith

leb-true : (a b : ℕ) → a ≤ b → leb a b ≡ true
leb-true a b h = ground arith

leb-false : (a b : ℕ) → b < a → leb a b ≡ false
leb-false a b h = ground arith

sign-cmp_by_substracting : (size x y : ℕ) → sign (cmp_by_substracting size x y) ≡ compare x y
unfolding cmp_by_substracting
sign-cmp_by_substracting size x y = ground arith

module _ (isa : Isa) (endian : Endian) (size : ℕ) (chunk : IsChunk isa size) (a b : List ℕ)
    (fits_a : size ≤ length a) (fits_b : size ≤ length b) (all_a : IsByteList a)
    (all_b : IsByteList b) where
  same_length : length (take size a) ≡ length (take size b)
  same_length = omega (arith, length-take size a, length-take size b)

  compare_words :
      compare (bytearray_cast endian size true a) (bytearray_cast endian size true b)
      ≡ lex (take size a) (take size b)
  compare_words =
      rw
        (
          bytearray_cast-load_be endian size a fits_a all_a,
          bytearray_cast-load_be endian size b fits_b all_b,
        )
        (compare-load_be (take size a) (take size b) same_length
          (All-take (λ b. b < 256) size a all_a) (All-take (λ b. b < 256) size b all_b))

  three_way_call_vector :
      8 < size
      → three_way_call isa endian size a b ≡ (
          if vector_cmp (largest_vector isa size) a b == 0
          then Ordering.eq
          else compare
              (get_or a (count_zeros 64 (vector_cmp (largest_vector isa size) a b)) 0)
              (get_or b (count_zeros 64 (vector_cmp (largest_vector isa size) a b)) 0))
  three_way_call_vector h = unfold three_way_call in rw (leb-false size 8 h)

  mask-ne_mask :
      8 < size → vector_cmp (largest_vector isa size) a b ≡ ne_mask (take size a) (take size b)
  mask-ne_mask h = rw (chunk.register h) (vector_cmp-ne_mask size a b fits_a fits_b)

  pub three_way_call-lex : three_way_call isa endian size a b ≡ lex (take size a) (take size b)
  three_way_call-lex = elim (dec_le size 8) [
    | yes p ↦ unfold three_way_call in rw (leb-true size 8 p, chunk.word p) compare_words
    | no p ↦
        rw (three_way_call_vector (omega arith), mask-ne_mask (omega arith))
          (at_first_difference (λ r. r) Ordering.eq compare 64 size a b refl (λ x y. refl) fits_a
            fits_b chunk.fits_mask)
  ]

  three_way_int_call_vector :
      8 < size
      → three_way_int_call isa endian size a b ≡ (
          if vector_cmp (largest_vector isa size) a b == 0
          then pos 0
          else cmp_by_substracting 1
              (get_or a (count_zeros 64 (vector_cmp (largest_vector isa size) a b)) 0)
              (get_or b (count_zeros 64 (vector_cmp (largest_vector isa size) a b)) 0))
  three_way_int_call_vector h = unfold three_way_int_call in rw (leb-false size 8 h)

  three_way_int_call_word :
      size ≤ 8
      → three_way_int_call isa endian size a b
        ≡ cmp_by_substracting
            (largest_uint size)
            (bytearray_cast endian (largest_uint size) true a)
            (bytearray_cast endian (largest_uint size) true b)
  three_way_int_call_word h = unfold three_way_int_call in rw (leb-true size 8 h)

  pub three_way_int_call-lex :
      sign (three_way_int_call isa endian size a b) ≡ lex (take size a) (take size b)
  three_way_int_call-lex = elim (dec_le size 8) [
    | yes p ↦ rw (three_way_int_call_word p, chunk.word p, sign-cmp_by_substracting) compare_words
    | no p ↦
        rw (three_way_int_call_vector (omega arith), mask-ne_mask (omega arith))
          (at_first_difference sign (pos 0) (cmp_by_substracting 1) 64 size a b refl
            (sign-cmp_by_substracting 1) fits_a fits_b chunk.fits_mask)
  ]

  equal_call_word :
      size ≤ 8
      → equal_call isa endian size a b
        ≡ (load endian (take (largest_uint size) a) == load endian (take (largest_uint size) b))
  equal_call_word h = unfold equal_call in rw (leb-true size 8 h)

  equal_call_vector :
      8 < size → equal_call isa endian size a b ≡ (vector_cmp (largest_vector isa size) a b == 0)
  equal_call_vector h = unfold equal_call in rw (leb-false size 8 h)

  pub equal_call_iff : (equal_call isa endian size a b ≡ true) ↔ (take size a ≡ take size b)
  equal_call_iff = elim (dec_le size 8) [
    | yes p ↦
        rw (equal_call_word p, chunk.word p)
          (
            (λ h.
                load-injective endian (take size a) (take size b) same_length
                  (All-take (λ b. b < 256) size a all_a) (All-take (λ b. b < 256) size b all_b)
                  ((==_iff _ _).0 h)),
            (λ e. (==_iff _ _).1 (ap (load endian) e)),
          )
    | no p ↦
        rw (equal_call_vector (omega arith), mask-ne_mask (omega arith))
          (
            (λ h. (ne_mask-zero (take size a) (take size b) same_length).0 ((==_iff _ _).0 h)),
            (λ e. (==_iff _ _).1 ((ne_mask-zero (take size a) (take size b) same_length).1 e)),
          )
  ]
