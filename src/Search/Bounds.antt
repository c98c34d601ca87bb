-- ===== src/Search/Bounds.antt =====
-- `std::lower_bound` over a database: where the loop ends.
use hibp.Common.{
  ℕ, zero, suc, ◌+◌, ◌-◌, ◌/◌, ◌≤◌, ◌<◌, ◌≡◌, refl, sym, ap, ◌∙◌, true, false, List, some, ◌==◌,
  length, get_elem?, arith, Bool-cases, inl, inr, ltb,
}
use hibp.ArrCmp.{Isa, Endian}
use hibp.Hibp.{PawnedPw, IsRecord}
use hibp.Hibp.Order.{key, pw_less, pw_less-key}
use hibp.FlatFile.{when_true, when_false, Db, Iterator, Result, ok, err, deref}
use hibp.FlatFile.Reading.{Ready}
use hibp.FlatFile.Caching.{deref_fresh}
use hibp.Search.{at, lower_bound_loop}
use hibp.Search.Lookup.{key_at, IsDatabase, key_at-get_elem?}

-- The keys from `first` to `last` below `k` are those before the position.
abbrev pub Splits : List PawnedPw → ℕ → ℕ → ℕ → Result ℕ × Db PawnedPw → Type 0
Splits rs k first last (err e, db) = ⊥
Splits rs k first last (ok r, db) =
    Ready rs db
    × (first ≤ r)
    × (r ≤ last)
    × ((i : ℕ) → first ≤ i → i < r → key_at rs i < k)
    × ((i : ℕ) → r ≤ i → i < last → k ≤ key_at rs i)

-- A loop that goes on from `first` to `mid`, or from behind `mid`, has split the whole range.
Splits-right :
    (rs : List PawnedPw) (k first mid last : ℕ) (o : Result ℕ × Db PawnedPw)
    → first ≤ mid
    → mid < last
    → ((i : ℕ) → first ≤ i → i ≤ mid → key_at rs i < k)
    → Splits rs k (mid + 1) last o
    → Splits rs k first last o
Splits-right rs k first mid last (err e, db) h m below s = s
Splits-right rs k first mid last (ok r, db) h m below s =
    (s.0, omega (arith, s.1), s.2, (λ i lo hi. Splits_right_below i lo hi), s.4)
  where
    Splits_right_below : (i : ℕ) → first ≤ i → i < r → key_at rs i < k
    Splits_right_below i lo hi = ground (arith, below i lo, s.3 i)

Splits-left :
    (rs : List PawnedPw) (k first mid last : ℕ) (o : Result ℕ × Db PawnedPw)
    → mid < last
    → ((i : ℕ) → mid ≤ i → i < last → k ≤ key_at rs i)
    → Splits rs k first mid o
    → Splits rs k first last o
Splits-left rs k first mid last (err e, db) m above s = s
Splits-left rs k first mid last (ok r, db) m above s =
    (s.0, s.1, omega (arith, s.2), s.3, (λ i lo hi. Splits_left_above i lo hi))
  where
    Splits_left_above : (i : ℕ) → r ≤ i → i < last → k ≤ key_at rs i
    Splits_left_above i lo hi = ground (arith, above i, s.4 i lo)

module _ (isa : Isa) (endian : Endian) (hash_size : ℕ) (needle : PawnedPw) where
  lower_bound_loop_stop :
      (fuel first : ℕ) (db : Db PawnedPw)
      → lower_bound_loop isa endian hash_size needle fuel first 0 db ≡ (ok first, db)
  lower_bound_loop_stop zero first db = unfold lower_bound_loop in refl
  lower_bound_loop_stop (suc fuel) first db = unfold lower_bound_loop in refl

  -- One round of the loop, with what was read.
  lower_bound_loop_less :
      (fuel first len : ℕ) (db : Db PawnedPw) {x : PawnedPw} {it : Iterator} {db' : Db PawnedPw}
      → (len == 0) ≡ false
      → deref (at (first + len / 2)) db ≡ (ok (x, it), db')
      → pw_less isa endian hash_size x needle ≡ true
      → lower_bound_loop isa endian hash_size needle (suc fuel) first len db
        ≡ lower_bound_loop isa endian hash_size needle fuel
            (first + len / 2 + 1)
            (len - len / 2 - 1)
            db'
  unfolding lower_bound_loop
  lower_bound_loop_less fuel first len db {x} {it} {db'} h e l =
      rw (lower_bound_loop, h, e)
        (when_true (pw_less isa endian hash_size x needle)
          (lower_bound_loop isa endian hash_size needle fuel (first + len / 2 + 1)
            (len - len / 2 - 1))
          (lower_bound_loop isa endian hash_size needle fuel first (len / 2)) db' l)

  lower_bound_loop_more :
      (fuel first len : ℕ) (db : Db PawnedPw) {x : PawnedPw} {it : Iterator} {db' : Db PawnedPw}
      → (len == 0) ≡ false
      → deref (at (first + len / 2)) db ≡ (ok (x, it), db')
      → pw_less isa endian hash_size x needle ≡ false
      → lower_bound_loop isa endian hash_size needle (suc fuel) first len db
        ≡ lower_bound_loop isa endian hash_size needle fuel first (len / 2) db'
  unfolding lower_bound_loop
  lower_bound_loop_more fuel first len db {x} {it} {db'} h e l =
      rw (lower_bound_loop, h, e)
        (when_false (pw_less isa endian hash_size x needle)
          (lower_bound_loop isa endian hash_size needle fuel (first + len / 2 + 1)
            (len - len / 2 - 1))
          (lower_bound_loop isa endian hash_size needle fuel first (len / 2)) db' l)

module _ (isa : Isa) (endian : Endian) (hash_size : ℕ) (needle : PawnedPw)
    (vn : IsRecord hash_size needle) (rs : List PawnedPw) (d : IsDatabase hash_size rs) where
  less-key :
      (i : ℕ) (x : PawnedPw)
      → get_elem? rs i ≡ some x
      → pw_less isa endian hash_size x needle ≡ ltb (key_at rs i) (key needle)
  less-key i x e =
      pw_less-key isa endian hash_size x needle (d.valid i x e) vn
      ∙ ap (λ t. ltb t (key needle)) (sym (key_at-get_elem? rs i x e))

  pub lower_bound_loop-Splits :
      (fuel first len last : ℕ) (db : Db PawnedPw)
      → Ready rs db
      → len ≤ fuel
      → first + len ≡ last
      → last ≤ length rs
      → Splits rs
          (key needle)
          first
          last
          (lower_bound_loop isa endian hash_size needle fuel first len db)
  lower_bound_loop-Splits fuel first zero last db r hf e h =
      rw (lower_bound_loop_stop isa endian hash_size needle fuel first db) (
        r,
        omega arith,
        omega arith,
        (λ i lo hi. absurd (omega arith)),
        (λ i lo hi. absurd (omega arith)),
      )
  lower_bound_loop-Splits zero first (suc len) last db r hf e h = absurd (omega arith)
  lower_bound_loop-Splits (suc fuel) first (suc len) last db r hf e h =
      let n : (suc len == 0) ≡ false = ground arith in
      let mid = first + suc len / 2 in
      let (x, it, db', holds, read, again, r') = deref_fresh rs db mid r (omega arith) in
      elim (Bool-cases (ltb (key_at rs mid) (key needle))) [
        | inl l ↦
            rw
              (lower_bound_loop_less isa endian hash_size needle fuel first (suc len) db n read
                (less-key mid x holds ∙ l))
              (Splits-right rs (key needle) first mid last
                (lower_bound_loop isa endian hash_size needle fuel (mid + 1)
                  (suc len - suc len / 2 - 1) db')
                (omega arith) (omega arith)
                (λ i lo hi. ground (arith, d.sorted i mid hi (omega arith)))
                (lower_bound_loop-Splits fuel (mid + 1) (suc len - suc len / 2 - 1) last db' r'
                  (omega arith) (omega arith) h))
        | inr g ↦
            rw
              (lower_bound_loop_more isa endian hash_size needle fuel first (suc len) db n read
                (less-key mid x holds ∙ g))
              (Splits-left rs (key needle) first mid last
                (lower_bound_loop isa endian hash_size needle fuel first (suc len / 2) db')
                (omega arith) (λ i lo hi. ground (arith, d.sorted mid i lo (omega arith)))
                (lower_bound_loop-Splits fuel first (suc len / 2) mid db' r' (omega arith) refl
                  (omega arith)))
      ]
