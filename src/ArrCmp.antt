-- ===== src/ArrCmp.antt =====
-- include/arrcmp.hpp: comparing byte arrays in chunks of machine words and vector registers.
-- A pointer into an array is the list of the bytes from there on.
pub mod Words
pub mod Masks
pub mod Chunks
pub mod Agreement
use hibp.Common.{
  ℕ, zero, suc, ◌+◌, ◌-◌, ◌*◌, ◌/◌, ◌%◌, ◌^◌, Bool, true, false, List, [], ◌∷◌, ltb, leb, ◌==◌,
  ◌&&◌, if◌then◌else◌, get_or, take, drop, length, compare, Ordering, ℤ, pos, sub_ℕ,
}

-- The preprocessor's choice of vector registers, `scalar` where there are none, and a machine that is
-- no x86, which has none of these either.
pub data Isa : Type 0 where
  avx512 avx2 sse scalar not_x86 : Isa

pub data Endian : Type 0 where
  little big : Endian

abbrev pub has_avx512 : Isa → Bool
has_avx512 avx512 = true
has_avx512 _ = false

abbrev pub has_avx2 : Isa → Bool
has_avx2 avx512 = true
has_avx2 avx2 = true
has_avx2 _ = false

abbrev pub has_sse : Isa → Bool
has_sse scalar = false
has_sse not_x86 = false
has_sse _ = true

-- `sizeof` of the largest register.
abbrev pub maxvec : Isa → ℕ
maxvec avx512 = 64
maxvec avx2 = 32
maxvec sse = 16
maxvec scalar = 8
maxvec not_x86 = 8

-- `__i386__` or `__x86_64__`
abbrev pub is_x86 : Isa → Bool
is_x86 not_x86 = false
is_x86 _ = true

-- `sizeof(largest_uint<N>)`
unfoldable pub largest_uint : ℕ → ℕ
largest_uint n = if leb 8 n then 8 else if leb 4 n then 4 else if leb 2 n then 2 else 1

-- `sizeof(largest_vector<N>)`
unfoldable pub largest_vector : Isa → ℕ → ℕ
largest_vector isa n =
    if has_avx512 isa && leb 64 n
    then 64
    else if has_avx2 isa && leb 32 n
    then 32
    else if has_sse isa && leb 16 n
    then 16
    else 8

unfoldable pub next_size : Isa → ℕ → ℕ
unfolding largest_vector largest_uint
next_size isa n = if ltb 8 n then largest_vector isa n else largest_uint n

-- The value of the bytes in memory order, on either kind of machine.
unfoldable pub load_le : List ℕ → ℕ
load_le [] = 0
load_le (b ∷ bs) = b + 256 * load_le bs

unfoldable pub load_be : List ℕ → ℕ
load_be [] = 0
load_be (b ∷ bs) = b * 256 ^ length bs + load_be bs

unfoldable pub load : Endian → List ℕ → ℕ
unfolding load_le load_be
load little bs = load_le bs
load big bs = load_be bs

-- `byteswap` of a word of `n` bytes.
unfoldable pub byteswap : ℕ → ℕ → ℕ
byteswap zero x = 0
byteswap (suc n) x = x % 256 * 256 ^ n + byteswap n (x / 256)

abbrev pub is_little : Endian → Bool
is_little little = true
is_little big = false

-- `bytearray_cast<T, swap_if_required>` for a `T` of `n` bytes.
unfoldable pub bytearray_cast : Endian → ℕ → Bool → List ℕ → ℕ
unfolding load byteswap
bytearray_cast endian n swap_if_required source =
    let value = load endian (take n source) in
    if swap_if_required && (ltb 1 n && is_little endian) then byteswap n value else value

-- Bit `i` is set where the bytes at `i` are equal, as `cmpeq_epi8` and `movemask_epi8` leave it.
unfoldable pub eq_mask : List ℕ → List ℕ → ℕ
eq_mask (x ∷ a) (y ∷ b) = (if x == y then 1 else 0) + 2 * eq_mask a b
eq_mask _ _ = 0

-- Bit `i` is set where the bytes at `i` differ, as `cmp_epu8_mask` with operation 4 leaves it.
unfoldable pub ne_mask : List ℕ → List ℕ → ℕ
ne_mask (x ∷ a) (y ∷ b) = (if x == y then 0 else 1) + 2 * ne_mask a b
ne_mask _ _ = 0

-- `vector_cmp<T>` for a register of `n` bytes: below 64 bytes the mask is negated, on `n` bits.
unfoldable pub vector_cmp : ℕ → List ℕ → List ℕ → ℕ
unfolding eq_mask ne_mask
vector_cmp n a b =
    if n == 64 then ne_mask (take n a) (take n b) else 2 ^ n - 1 - eq_mask (take n a) (take n b)

-- `__builtin_ctzll`: a mask has 64 bits.
unfoldable pub count_zeros : ℕ → ℕ → ℕ
count_zeros zero mask = 0
count_zeros (suc bits) mask =
    let rest = count_zeros bits (mask / 2) in if mask % 2 == 1 then 0 else suc rest

-- `cmp`, which is `<=>` on unsigned numbers.
abbrev pub cmp : ℕ → ℕ → Ordering
cmp a b = compare a b

abbrev pub bit : Bool → ℕ
bit true = 1
bit false = 0

-- `cmp_by_substracting` for operands of `size` bytes; an `int` has 4.
unfoldable pub cmp_by_substracting : ℕ → ℕ → ℕ → ℤ
cmp_by_substracting size a b =
    if ltb size 4 then sub_ℕ a b else sub_ℕ (bit (ltb b a)) (bit (ltb a b))

-- What `array_compare` asks of a comparator: the call operator at a chunk size, and the value
-- that means equality, with the test against it.
pub record Comp {ℓ} (R : Type ℓ) : Type ℓ where
  pub call : ℕ → List ℕ → List ℕ → R
  pub equality_value : R
  pub is_equal : R → Bool

module _ (isa : Isa) (endian : Endian) where
  unfoldable pub three_way_call : ℕ → List ℕ → List ℕ → Ordering
  unfolding largest_uint largest_vector bytearray_cast vector_cmp count_zeros
  three_way_call n a b =
      let word = largest_uint n in
      let mask = vector_cmp (largest_vector isa n) a b in
      let count = count_zeros 64 mask in
      if leb n 8
      then cmp (bytearray_cast endian word true a) (bytearray_cast endian word true b)
      else if mask == 0
      then Ordering.eq
      else cmp (get_or a count 0) (get_or b count 0)

  unfoldable pub three_way_int_call : ℕ → List ℕ → List ℕ → ℤ
  unfolding largest_uint largest_vector bytearray_cast vector_cmp count_zeros cmp_by_substracting
  three_way_int_call n a b =
      let word = largest_uint n in
      let mask = vector_cmp (largest_vector isa n) a b in
      let count = count_zeros 64 mask in
      if leb n 8
      then cmp_by_substracting word (bytearray_cast endian word true a)
          (bytearray_cast endian word true b)
      else if mask == 0
      then pos 0
      else cmp_by_substracting 1 (get_or a count 0) (get_or b count 0)

  -- No byte order is needed for plain equality.
  unfoldable pub equal_call : ℕ → List ℕ → List ℕ → Bool
  unfolding largest_uint largest_vector bytearray_cast vector_cmp
  equal_call n a b =
      let word = largest_uint n in
      if leb n 8
      then bytearray_cast endian word false a == bytearray_cast endian word false b
      else vector_cmp (largest_vector isa n) a b == 0

  abbrev pub three_way : Comp Ordering
  three_way = record {
    call = three_way_call;
    equality_value = Ordering.eq;
    is_equal = λ r. elim r [ Ordering.eq ↦ true | _ ↦ false ];
  }

  abbrev pub three_way_int : Comp ℤ
  three_way_int = record {
    call = three_way_int_call;
    equality_value = pos 0;
    is_equal = λ r. elim r [ pos n ↦ n == 0 | _ ↦ false ];
  }

  abbrev pub equal : Comp Bool
  equal = record { call = equal_call; equality_value = true; is_equal = λ r. r }

module _ {ℓ} {R : Type ℓ} (isa : Isa) (comp : Comp R) where
  -- The template recursion; the first argument bounds its depth.
  unfoldable pub compare_chunks : ℕ → ℕ → List ℕ → List ℕ → R
  unfolding next_size
  compare_chunks zero n a b = comp.equality_value
  compare_chunks (suc depth) n a b =
      let size = next_size isa n in
      let res = comp.call size a b in
      let rest = compare_chunks depth (n - size) (drop size a) (drop size b) in
      if n == 0 then comp.equality_value else if comp.is_equal res then rest else res

  -- Each step takes a byte at least, so a depth of `n` is enough.
  unfoldable pub array_compare : ℕ → List ℕ → List ℕ → R
  unfolding compare_chunks
  array_compare n a b = compare_chunks n n a b
