-- ===== src/Text/Digits.antt =====
-- The digits that are printed and read.
use hibp.Common.{
  ℕ, zero, suc, ◌+◌, ◌*◌, ◌/◌, ◌%◌, ◌^◌, ◌≤◌, ◌<◌, ◌≡◌, refl, ap, List, [], ◌∷◌, ◌++◌, some, ltb,
  ltb-false, length, length-append, All, All-append, arith, Bool-cases, inl, inr, lt→ltb,
}
use native.Mathlib.Decide.{dec_lt}
use native.Mathlib.Nat.{div-add-mod', div-lt_iff_lt-mul, mod-eq_of_lt, pow-suc, pow-zero}
use hibp.Text.{digit_to_char, digit_in, print_digits, read_digits}

module _ (base : ℕ) where
  abbrev pub IsDigit : ℕ → Type 0
  IsDigit c = (d : ℕ) × (digit_in base c ≡ some d)

  module _ (lo : 10 ≤ base) (hi : base ≤ 16) where
    digit_in-digit_to_char : (d : ℕ) → d < base → digit_in base (digit_to_char d) ≡ some d
    unfolding digit_to_char digit_in
    digit_in-digit_to_char d h = ground arith

    mod-lt_base : (n : ℕ) → n % base < base
    mod-lt_base n = grind arith

    pub print_digits-IsDigit : (f n : ℕ) → All IsDigit (print_digits base f n)
    unfolding print_digits
    print_digits-IsDigit zero n = tt
    print_digits-IsDigit (suc f) n =
        let last : All IsDigit (digit_to_char (n % base) ∷ []) =
          ((n % base, digit_in-digit_to_char (n % base) (mod-lt_base n)), tt) in
        elim (Bool-cases (ltb n base)) [
          | inl e ↦ rw e last
          | inr e ↦ rw e (
              All-append (print_digits base f (n / base)) (digit_to_char (n % base) ∷ []) IsDigit
                last (print_digits-IsDigit f (n / base)))
        ]

    -- A digit at the end counts ones.
    read_digits-snoc :
        (acc : ℕ) (cs : List ℕ) (d : ℕ)
        → d < base
        → All IsDigit cs
        → read_digits base acc (cs ++ digit_to_char d ∷ []) ≡ read_digits base acc cs * base + d
    unfolding read_digits
    read_digits-snoc acc [] d h all = rw (digit_in-digit_to_char d h, read_digits)
    read_digits-snoc acc (c ∷ cs) d h ((e, p), all) =
        rw (p, read_digits) (read_digits-snoc (acc * base + e) cs d h all)

    print_digits_last : (f n : ℕ) → n < base → print_digits base (suc f) n ≡ digit_to_char n ∷ []
    unfolding print_digits
    print_digits_last f n h = rw (lt→ltb n base h, mod-eq_of_lt h)

    print_digits_more :
        (f n : ℕ)
        → base ≤ n
        → print_digits base (suc f) n
          ≡ print_digits base f (n / base) ++ digit_to_char (n % base) ∷ []
    unfolding print_digits
    print_digits_more f n h = rw (ltb-false n base h)

    quotient-lt : (f n : ℕ) → n < base ^ suc f → n / base < base ^ f
    quotient-lt f n h = (div-lt_iff_lt-mul (omega arith)).1 (rw pow-suc at h)

    -- A number that has at most `f` digits is read back.
    pub read_digits-print_digits :
        (f n : ℕ) → n < base ^ f → read_digits base 0 (print_digits base f n) ≡ n
    read_digits-print_digits zero n h =
        unfold print_digits read_digits in omega (arith, rw pow-zero at h)
    read_digits-print_digits (suc f) n h = elim (dec_lt n base) [
      | yes p ↦
          rw (print_digits_last f n p, read_digits-snoc 0 [] n p tt)
            (unfold read_digits in omega arith)
      | no p ↦
          rw
            (
              print_digits_more f n (omega arith),
              read_digits-snoc 0 (print_digits base f (n / base)) (n % base) (mod-lt_base n)
                  (print_digits-IsDigit f (n / base)),
              read_digits-print_digits f (n / base) (quotient-lt f n h),
            )
            (div-add-mod' n base)
    ]

    pub length-print_digits-le : (f n : ℕ) → length (print_digits base f n) ≤ f
    unfolding print_digits
    length-print_digits-le zero n = omega arith
    length-print_digits-le (suc f) n = ground (
      arith,
      length-print_digits-le f (n / base),
      length-append (print_digits base f (n / base)) (digit_to_char (n % base) ∷ []),
    )

    pub length-print_digits_pos : (f n : ℕ) → 1 ≤ length (print_digits base (suc f) n)
    unfolding print_digits
    length-print_digits_pos f n =
        ground
          (arith, length-append (print_digits base f (n / base)) (digit_to_char (n % base) ∷ []))

    -- A printed number begins with a digit, which is no sign.
    pub print_digits-head :
        (f n : ℕ) → (c : ℕ) × (cs : List ℕ) × (print_digits base (suc f) n ≡ c ∷ cs) × IsDigit c
    print_digits-head f n = go (print_digits base (suc f) n) refl (print_digits-IsDigit (suc f) n)
      where
        go :
            (t : List ℕ)
            → print_digits base (suc f) n ≡ t
            → All IsDigit t
            → (c : ℕ) × (cs : List ℕ) × (print_digits base (suc f) n ≡ c ∷ cs) × IsDigit c
        go [] e all = absurd (omega (arith, ap (length {0}) e, length-print_digits_pos f n))
        go (c ∷ cs) e all = (c, cs, e, all.0)
