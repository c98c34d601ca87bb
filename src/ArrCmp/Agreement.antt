-- ===== src/ArrCmp/Agreement.antt =====
-- `array_compare` with each comparator, against the element-wise comparison of the arrays.
use hibp.Common.{
  ℕ, zero, suc, ◌-◌, ◌≤◌, ◌<◌, ◌≡◌, ◌↔◌, inl, inr, refl, sym, ◌∙◌, Bool, true, false, List, [], ◌∷◌,
  ◌++◌, ◌==◌, if◌then◌else◌, take, drop, length, length-take, length-drop, take-append-drop,
  Ordering, All-drop, arith, sign, ℤ, Bool-cases,
}
use mathlib.Core.Path.{ap₂}
use hibp.ArrCmp.{
  Isa, scalar, little, Endian, Comp, next_size, compare_chunks, array_compare, three_way,
  three_way_int, equal,
}
use hibp.ArrCmp.Words.{lex, lex_refl, lex-eq, IsByteList}
use hibp.ArrCmp.Chunks.{
  IsChunk, next_size-IsChunk, next_size-le, three_way_call-lex, three_way_int_call-lex,
  equal_call_iff,
}

lex-append :
    (a b c d : List ℕ)
    → length a ≡ length b
    → lex (a ++ c) (b ++ d) ≡ elim (lex a b) [
      | Ordering.lt ↦ Ordering.lt
      | Ordering.eq ↦ lex c d
      | Ordering.gt ↦ Ordering.gt
    ]
lex-append [] [] c d e = refl
lex-append [] (y ∷ b) c d e = absurd (omega arith)
lex-append (x ∷ a) [] c d e = absurd (omega arith)
lex-append (x ∷ a) (y ∷ b) c d e = ground (arith, lex-append a b c d)

module _ {ℓ κ} {R : Type ℓ} {V : Type κ} (isa : Isa) (comp : Comp R) (view : R → V)
    (spec : List ℕ → List ℕ → V)
    (call_ok : (size : ℕ)
      → IsChunk isa size
      → (a b : List ℕ) → size ≤ length a
      → size ≤ length b
      → IsByteList a
      → IsByteList b
      → view (comp.call size a b) ≡ spec (take size a) (take size b))
    (empty : view comp.equality_value ≡ spec [] [])
    (go_on : (r : R) (a b c d : List ℕ)
      → length a ≡ length b
      → comp.is_equal r ≡ true
      → view r ≡ spec a b
      → spec c d ≡ spec (a ++ c) (b ++ d))
    (stop : (r : R) (a b c d : List ℕ)
      → length a ≡ length b
      → comp.is_equal r ≡ false
      → view r ≡ spec a b
      → view r ≡ spec (a ++ c) (b ++ d)) where
  compare_chunks-zero :
      (depth : ℕ) (a b : List ℕ) → compare_chunks isa comp depth 0 a b ≡ comp.equality_value
  unfolding compare_chunks
  compare_chunks-zero zero a b = refl
  compare_chunks-zero (suc depth) a b = refl

  compare_chunks_step :
      (depth n : ℕ) (a b : List ℕ)
      → 0 < n
      → compare_chunks isa comp (suc depth) n a b ≡ (
          if comp.is_equal (comp.call (next_size isa n) a b)
          then compare_chunks isa comp depth
              (n - next_size isa n)
              (drop (next_size isa n) a)
              (drop (next_size isa n) b)
          else comp.call (next_size isa n) a b)
  compare_chunks_step depth n a b h =
      let nonzero : (n == 0) ≡ false = ground arith in unfold compare_chunks in rw nonzero

  compare_chunks_lem :
      (depth n : ℕ) (a b : List ℕ)
      → n ≤ depth
      → length a ≡ n
      → length b ≡ n
      → IsByteList a
      → IsByteList b
      → view (compare_chunks isa comp depth n a b) ≡ spec a b
  compare_chunks_lem depth zero [] [] h ea eb all_a all_b =
      rw (compare_chunks-zero depth [] []) empty
  compare_chunks_lem depth zero (x ∷ a) b h ea eb all_a all_b = absurd (omega arith)
  compare_chunks_lem depth zero [] (y ∷ b) h ea eb all_a all_b = absurd (omega arith)
  compare_chunks_lem zero (suc n) a b h ea eb all_a all_b = absurd (omega arith)
  compare_chunks_lem (suc depth) (suc n) a b h ea eb all_a all_b =
      let size = next_size isa (suc n) in
      let chunk = next_size-IsChunk isa (suc n) (omega arith) in
      let fits = next_size-le isa (suc n) (omega arith) in
      let same : length (take size a) ≡ length (take size b) =
        omega (arith, length-take size a, length-take size b) in
      let here = call_ok size chunk a b (omega arith) (omega arith) all_a all_b in
      let later =
        compare_chunks_lem depth (suc n - size) (drop size a) (drop size b)
          (omega (arith, chunk.some_bytes)) (omega (arith, length-drop size a))
          (omega (arith, length-drop size b)) (All-drop (λ b. b < 256) size a all_a)
          (All-drop (λ b. b < 256) size b all_b) in
      let whole = ap₂ spec (take-append-drop size a) (take-append-drop size b) in
      elim (Bool-cases (comp.is_equal (comp.call size a b))) [
        | inl e ↦
            rw (compare_chunks_step depth (suc n) a b (omega arith), e)
              (later
                ∙ go_on (comp.call size a b) (take size a) (take size b) (drop size a) (drop size b)
                    same e here
                ∙ whole)
        | inr e ↦
            rw (compare_chunks_step depth (suc n) a b (omega arith), e)
              (stop (comp.call size a b) (take size a) (take size b) (drop size a) (drop size b)
                  same e here
                ∙ whole)
      ]

  pub array_compare_lem :
      (a b : List ℕ)
      → length a ≡ length b
      → IsByteList a
      → IsByteList b
      → view (array_compare isa comp (length a) a b) ≡ spec a b
  array_compare_lem a b e all_a all_b =
      unfold array_compare in
      compare_chunks_lem (length a) (length a) a b (omega arith) refl (sym e) all_a all_b

lex_go_on :
    (r : Ordering) (a b c d : List ℕ)
    → length a ≡ length b
    → (three_way scalar little).is_equal r ≡ true
    → r ≡ lex a b
    → lex c d ≡ lex (a ++ c) (b ++ d)
lex_go_on r a b c d e q h = ground (arith, lex-append a b c d e)

lex_stop :
    (r : Ordering) (a b c d : List ℕ)
    → length a ≡ length b
    → (three_way scalar little).is_equal r ≡ false
    → r ≡ lex a b
    → r ≡ lex (a ++ c) (b ++ d)
lex_stop r a b c d e q h = ground (arith, lex-append a b c d e)

int_go_on :
    (r : ℤ) (a b c d : List ℕ)
    → length a ≡ length b
    → (three_way_int scalar little).is_equal r ≡ true
    → sign r ≡ lex a b
    → lex c d ≡ lex (a ++ c) (b ++ d)
int_go_on r a b c d e q h = ground (arith, lex-append a b c d e)

int_stop :
    (r : ℤ) (a b c d : List ℕ)
    → length a ≡ length b
    → (three_way_int scalar little).is_equal r ≡ false
    → sign r ≡ lex a b
    → sign r ≡ lex (a ++ c) (b ++ d)
int_stop r a b c d e q h = ground (arith, lex-append a b c d e)

abbrev pub same_bytes : List ℕ → List ℕ → Bool
same_bytes a b = elim (lex a b) [ Ordering.eq ↦ true | _ ↦ false ]

pub same_bytes_iff : (a b : List ℕ) → (same_bytes a b ≡ true) ↔ (a ≡ b)
same_bytes_iff a b = ((λ h. lex-eq a b (ground arith)), (λ p. rw (p, lex_refl b, same_bytes)))

same_bytes_lem : (r : Bool) (a b : List ℕ) → (r ≡ true) ↔ (a ≡ b) → r ≡ same_bytes a b
same_bytes_lem true a b (to, from) = sym ((same_bytes_iff a b).1 (to refl))
same_bytes_lem false a b (to, from) = elim (Bool-cases (same_bytes a b)) [
  | inl e ↦ cc (from ((same_bytes_iff a b).0 e))
  | inr e ↦ sym e
]

equal_go_on :
    (r : Bool) (a b c d : List ℕ)
    → length a ≡ length b
    → r ≡ true
    → r ≡ same_bytes a b
    → same_bytes c d ≡ same_bytes (a ++ c) (b ++ d)
equal_go_on r a b c d e q h = ground (arith, lex-append a b c d e)

equal_stop :
    (r : Bool) (a b c d : List ℕ)
    → length a ≡ length b
    → r ≡ false
    → r ≡ same_bytes a b
    → r ≡ same_bytes (a ++ c) (b ++ d)
equal_stop r a b c d e q h = ground (arith, lex-append a b c d e)

module _ (isa : Isa) (endian : Endian) (a b : List ℕ) (same : length a ≡ length b)
    (all_a : IsByteList a) (all_b : IsByteList b) where
  -- On every machine, the three-way comparator orders two byte arrays of one size as the first
  -- elements in which they differ are ordered.
  pub array_compare-three_way-lex :
      array_compare isa (three_way isa endian) (length a) a b ≡ lex a b
  array_compare-three_way-lex =
      array_compare_lem isa (three_way isa endian) (λ r. r) lex (three_way_call-lex isa endian) refl
        lex_go_on lex_stop a b same all_a all_b

  -- On every machine, the sign of what the integer comparator answers for two byte arrays of one
  -- size is the order of their elements in order.
  pub sign-array_compare-three_way_int :
      sign (array_compare isa (three_way_int isa endian) (length a) a b) ≡ lex a b
  sign-array_compare-three_way_int =
      array_compare_lem isa (three_way_int isa endian) sign lex (three_way_int_call-lex isa endian)
        refl int_go_on int_stop a b same all_a all_b

  -- On every machine, the equality comparator answers `true` for two byte arrays of one size
  -- exactly if they are equal.
  pub array_compare-equal_iff :
      (array_compare isa (equal isa endian) (length a) a b ≡ true) ↔ (a ≡ b)
  array_compare-equal_iff =
      let agree =
        array_compare_lem isa (equal isa endian) (λ r. r) same_bytes
          (λ size chunk a b fa fb all_a all_b.
            same_bytes_lem _ (take size a) (take size b)
              (equal_call_iff isa endian size chunk a b fa fb all_a all_b))
          refl equal_go_on equal_stop a b same all_a all_b in
      rw agree (same_bytes_iff a b)
