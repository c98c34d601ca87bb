-- ===== src/Hibp/Order.antt =====
-- The comparisons of password records: `<=>` and `==` of include/hibp.hpp.
use hibp.Common.{
  ◌||◌, not, ℕ, ◌+◌, ◌-◌, ◌*◌, ◌/◌, ◌^◌, ◌<◌, ◌≡◌, ◌↔◌, sym, ap, ◌∙◌, Bool, true, List, [], ◌∷◌,
  ◌++◌, ◌==◌, if◌then◌else◌, length, length-drop, take, drop, take-append-drop, compare, Ordering,
  All, All-drop, is_lt, ltb, arith, Bool-cases, inl, inr,
}
use native.Mathlib.Nat.{pow-suc, div-eq_of_lt-le}
use hibp.ArrCmp.{is_x86, Isa, Endian, array_compare, three_way, equal, load_be}
use hibp.ArrCmp.Words.{lex, load_be-lt, lex-eq, compare-load_be}
use hibp.ArrCmp.Agreement.{
  array_compare-three_way-lex, array_compare-equal_iff, same_bytes, same_bytes_iff,
}
use hibp.Hibp.{PawnedPw, IsRecord}

module _ (isa : Isa) (endian : Endian) (hash_size : ℕ) where
  -- Records of 8 bytes are compared as `std::array`s, and all records where the machine is no x86.
  unfoldable pub pw_compare : PawnedPw → PawnedPw → Ordering
  pw_compare a b =
      if (hash_size == 8) || not (is_x86 isa)
      then lex a.hash b.hash
      else array_compare isa (three_way isa endian) hash_size a.hash b.hash

  unfoldable pub pw_equal : PawnedPw → PawnedPw → Bool
  pw_equal a b =
      if (hash_size == 8) || not (is_x86 isa)
      then same_bytes a.hash b.hash
      else array_compare isa (equal isa endian) hash_size a.hash b.hash

  -- `operator<`, which the language derives from `<=>`.
  unfoldable pub pw_less : PawnedPw → PawnedPw → Bool
  pw_less a b = is_lt (pw_compare a b)

-- The hash as one big-endian number.
abbrev pub key : PawnedPw → ℕ
key pw = load_be pw.hash

module _ (isa : Isa) (endian : Endian) (hash_size : ℕ) (a b : PawnedPw) (va : IsRecord hash_size a)
    (vb : IsRecord hash_size b) where
  same_size : length a.hash ≡ length b.hash
  same_size = va.sized ∙ sym vb.sized

  pw_compare-lex : pw_compare isa endian hash_size a b ≡ lex a.hash b.hash
  unfolding pw_compare
  pw_compare-lex = elim (Bool-cases ((hash_size == 8) || not (is_x86 isa))) [
    | inl e ↦ rw e
    | inr e ↦ rw e (
        rw va.sized at
          (array_compare-three_way-lex isa endian a.hash b.hash same_size va.bytes vb.bytes))
  ]

  -- On every machine, `<=>` orders two well-formed records of one hash size as their hashes, read as
  -- big-endian numbers, are ordered.
  pub pw_compare-key : pw_compare isa endian hash_size a b ≡ compare (key a) (key b)
  pw_compare-key = pw_compare-lex ∙ sym (compare-load_be a.hash b.hash same_size va.bytes vb.bytes)

  pub pw_equal_iff : (pw_equal isa endian hash_size a b ≡ true) ↔ (a.hash ≡ b.hash)
  unfolding pw_equal
  pw_equal_iff = elim (Bool-cases ((hash_size == 8) || not (is_x86 isa))) [
    | inl e ↦ rw e (same_bytes_iff a.hash b.hash)
    | inr e ↦ rw e (
        rw va.sized at
          (array_compare-equal_iff isa endian a.hash b.hash same_size va.bytes vb.bytes))
  ]

  key-injective : key a ≡ key b → a.hash ≡ b.hash
  key-injective e =
      lex-eq a.hash b.hash
        (sym (compare-load_be a.hash b.hash same_size va.bytes vb.bytes) ∙ ground arith)

  pub pw_equal-key : pw_equal isa endian hash_size a b ≡ (key a == key b)
  pw_equal-key = elim (Bool-cases (key a == key b)) [
    | inl e ↦ rw e (pw_equal_iff.1 (key-injective (ground arith)))
    | inr e ↦ elim (Bool-cases (pw_equal isa endian hash_size a b)) [
      | inl p ↦ absurd (ground (arith, ap load_be (pw_equal_iff.0 p)))
      | inr p ↦ rw (e, p)
    ]
  ]

  pub pw_less-key : pw_less isa endian hash_size a b ≡ ltb (key a) (key b)
  pw_less-key = unfold pw_less in (ap is_lt pw_compare-key ∙ ground arith)

pow_length-append : (a b : List ℕ) → 256 ^ length (a ++ b) ≡ 256 ^ length a * 256 ^ length b
pow_length-append [] b = omega arith
pow_length-append (x ∷ a) b =
    rw (pow-suc, pow-suc) (omega (arith, ap (λ (t : ℕ). t * 256) (pow_length-append a b)))

pub load_be-append : (a b : List ℕ) → load_be (a ++ b) ≡ load_be a * 256 ^ length b + load_be b
unfolding load_be
load_be-append [] b = omega arith
load_be-append (x ∷ a) b =
    omega (arith, load_be-append a b, ap (λ (t : ℕ). x * t) (pow_length-append a b))

-- The first bytes are the quotient of the whole number.
pub load_be-take :
    (k : ℕ) (hash : List ℕ)
    → All (λ b. b < 256) hash
    → load_be (take k hash) ≡ load_be hash / 256 ^ (length hash - k)
load_be-take k hash all =
    let rest : ℕ = load_be (drop k hash) in
    let sum =
      rw (take-append-drop k hash, length-drop k hash) at
        (load_be-append (take k hash) (drop k hash)) in
    let small =
      rw (length-drop k hash) at (load_be-lt (drop k hash) (All-drop (λ b. b < 256) k hash all)) in
    sym (div-eq_of_lt-le (256 ^ (length hash - k)) (omega (arith, sum)) (omega (arith, sum, small)))
