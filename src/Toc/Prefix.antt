-- ===== src/Toc/Prefix.antt =====
-- The prefix of a hash, `pw_to_prefix` of src/toc.cpp, as a function of the hash's number.
use hibp.Common.{
  ℕ, zero, suc, ◌+◌, ◌-◌, ◌*◌, ◌/◌, ◌^◌, ◌≤◌, ◌<◌, ◌≡◌, ap, List, length, take, length-take, arith,
  All-take,
}
use native.Mathlib.Nat.{
  div-mul-le_self, le-div_iff_mul-le, div-lt_iff_lt-mul, div-zero, one-le-pow, pow-suc, mul_assoc,
}
use hibp.ArrCmp.{Endian, load_be}
use hibp.ArrCmp.Words.{bytearray_cast-load_be, load_be-lt}
use hibp.Hibp.{PawnedPw, IsByte, IsRecord}
use hibp.Hibp.Order.{key, load_be-take}
use hibp.Search.Lookup.{key_at}
use hibp.Toc.{pw_to_prefix}

pub div-le-div : (k a b : ℕ) → a ≤ b → a / k ≤ b / k
div-le-div zero a b h = omega (arith, div-zero a, div-zero b)
div-le-div (suc k) a b h =
    (le-div_iff_mul-le (omega arith)).1 (omega (arith, div-mul-le_self a (suc k)))

pub pow-positive : (k : ℕ) → 0 < 2 ^ k
pow-positive k = omega (arith, one-le-pow k 2 (omega arith))

pow-add : (b c : ℕ) → 2 ^ (b + c) ≡ 2 ^ b * 2 ^ c
pow-add b zero = let none_more : b + 0 ≡ b = omega arith in rw none_more (omega arith)
pow-add b (suc c) =
    let more : b + suc c ≡ suc (b + c) = omega arith in
    rw (more, pow-suc)
      (omega (
        arith,
        ap (λ (t : ℕ). t * 2) (pow-add b c),
        pow-suc 2 c,
        mul_assoc (2 ^ b) (2 ^ c) 2,
        ap (λ (t : ℕ). 2 ^ b * t) (pow-suc 2 c),
      ))

abbrev pub prefix_of : ℕ → ℕ → ℕ → ℕ
prefix_of hash_size bits k = k / 256 ^ (hash_size - 4) / 2 ^ (32 - bits)

abbrev pub prefix_at : ℕ → ℕ → List PawnedPw → ℕ → ℕ
prefix_at hash_size bits rs i = prefix_of hash_size bits (key_at rs i)

pub prefix_of_monotone :
    (hash_size bits a b : ℕ) → a ≤ b → prefix_of hash_size bits a ≤ prefix_of hash_size bits b
prefix_of_monotone hash_size bits a b h =
    div-le-div (2 ^ (32 - bits)) (a / 256 ^ (hash_size - 4)) (b / 256 ^ (hash_size - 4))
      (div-le-div (256 ^ (hash_size - 4)) a b h)

module _ (endian : Endian) (hash_size bits : ℕ) (pw : PawnedPw) (h : 4 ≤ hash_size)
    (v : IsRecord hash_size pw) where
  start-key : load_be (take 4 pw.hash) ≡ key pw / 256 ^ (hash_size - 4)
  start-key = rw v.sized at (load_be-take 4 pw.hash v.bytes)

  -- The prefix is the number of the hash without its lower bits, on either kind of machine.
  pub pw_to_prefix-key : pw_to_prefix endian bits pw ≡ prefix_of hash_size bits (key pw)
  unfolding pw_to_prefix load_be
  pw_to_prefix-key = rw (
    pw_to_prefix,
    bytearray_cast-load_be endian 4 pw.hash (omega (arith, v.sized)) v.bytes,
    start-key,
  )

  start-lt : key pw / 256 ^ (hash_size - 4) < 2 ^ 32
  start-lt =
      let size : length (take 4 pw.hash) ≡ 4 = omega (arith, length-take 4 pw.hash, v.sized) in
      rw (size, start-key) at (load_be-lt (take 4 pw.hash) (All-take IsByte 4 pw.hash v.bytes))

  pub prefix_of-lt : bits ≤ 32 → prefix_of hash_size bits (key pw) < 2 ^ bits
  prefix_of-lt k =
      let sum : bits + (32 - bits) ≡ 32 = omega arith in
      let whole = rw sum at (pow-add bits (32 - bits)) in
      (div-lt_iff_lt-mul (pow-positive (32 - bits))).1 (rw⁻¹ whole start-lt)
