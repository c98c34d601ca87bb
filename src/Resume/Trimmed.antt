-- ===== src/Resume/Trimmed.antt =====
-- Where src/dnl/resume.cpp cuts a file.
use hibp.Common.{
  ℕ, zero, suc, ◌+◌, ◌<◌, ◌≡◌, ◌≢◌, refl, sym, ap, ◌∙◌, true, false, List, [], ◌∷◌, ◌++◌, Option,
  none, some, ltb, length, length-append, take, take-append, get_elem?, All, arith, Bool-cases, inl,
  inr,
}
use hibp.Text.{from_chars_hex}
use hibp.ArrCmp.{Isa, Endian}
use hibp.Hibp.{PawnedPw, IsRecord}
use hibp.Hibp.Order.{pw_equal_iff}
use hibp.FlatFile.{Db, Result, ok, err, sub64}
use hibp.Resume.{resumed, trimmed}
use hibp.Resume.Trimming.{LastOf, has_hash}

get_elem?-at :
    (before : List PawnedPw) (x : PawnedPw) (rest : List PawnedPw)
    → get_elem? (before ++ x ∷ rest) (length before) ≡ some x
get_elem?-at [] x rest = refl
get_elem?-at (y ∷ before) x rest = get_elem?-at before x rest

-- A record with another hash.
abbrev pub Other : List ℕ → PawnedPw → Type 0
Other hash pw = pw.hash ≢ hash

module _ (isa : Isa) (endian : Endian) (hash_size : ℕ) where
  module _ (needle : PawnedPw) (v : IsRecord hash_size needle) where
    has_hash-true :
        (pw : PawnedPw)
        → IsRecord hash_size pw
        → pw.hash ≡ needle.hash
        → has_hash isa endian hash_size needle (some pw) ≡ true
    has_hash-true pw w e = (pw_equal_iff isa endian hash_size pw needle w v).1 e

    has_hash-behind :
        (before part : List PawnedPw) (kept : PawnedPw) (i : ℕ)
        → All (IsRecord hash_size) part
        → All (Other needle.hash) part
        → length before < i
        → has_hash isa endian hash_size needle (get_elem? (before ++ kept ∷ part) i) ≡ false
    has_hash-behind [] part kept zero w o h = absurd (omega arith)
    has_hash-behind [] part kept (suc i) w o h = go part i w o
      where
        go :
            (rs : List PawnedPw) (j : ℕ)
            → All (IsRecord hash_size) rs
            → All (Other needle.hash) rs
            → has_hash isa endian hash_size needle (get_elem? rs j) ≡ false
        go [] j w o = refl
        go (x ∷ rs) zero w o = elim (Bool-cases (has_hash isa endian hash_size needle (some x))) [
          | inl e ↦ absurd (o.0 ((pw_equal_iff isa endian hash_size x needle w.0 v).0 e))
          | inr e ↦ e
        ]
        go (x ∷ rs) (suc j) w o = go rs j w.1 o.1
    has_hash-behind (x ∷ before) part kept zero w o h = absurd (omega arith)
    has_hash-behind (x ∷ before) part kept (suc i) w o h =
        has_hash-behind before part kept i w o (omega arith)

    -- The last record with the hash is the one that is known.
    pub find_from_back-known :
        (first_file_hash : List ℕ) (before part rs : List PawnedPw) (kept : PawnedPw)
        (o : Result (Option ℕ) × Db PawnedPw)
        → rs ≡ before ++ kept ∷ part
        → IsRecord hash_size kept
        → kept.hash ≡ needle.hash
        → All (IsRecord hash_size) part
        → All (Other needle.hash) part
        → LastOf isa endian hash_size needle rs (length rs) o
        → trimmed isa endian hash_size first_file_hash rs o
          ≡ resumed (sub64 (from_chars_hex (take 5 first_file_hash) 0) 1) before
    find_from_back-known text before part rs kept o e vk same vp op l = go o l
      where
        size : length rs ≡ length before + suc (length part)
        size = ap length e ∙ length-append before (kept ∷ part)

        here : has_hash isa endian hash_size needle (get_elem? rs (length before)) ≡ true
        here =
            ap (has_hash isa endian hash_size needle)
              (ap (λ t. get_elem? t (length before)) e ∙ get_elem?-at before kept part)
            ∙ has_hash-true kept vk same

        go :
            (o : Result (Option ℕ) × Db PawnedPw)
            → LastOf isa endian hash_size needle rs (length rs) o
            → trimmed isa endian hash_size text rs o
              ≡ resumed (sub64 (from_chars_hex (take 5 text) 0) 1) before
        go (err x, db) l = absurd l
        go (ok none, db) l = absurd (cc (sym here ∙ l.0 (length before) (omega (arith, size))))
        go (ok (some i), db) l = elim (Bool-cases (ltb (length before) i)) [
          | inl h ↦
              let unlike =
                ap (λ t. has_hash isa endian hash_size needle (get_elem? t i)) e
                ∙ has_hash-behind before part kept i vp op (ground arith) in
              absurd (cc (sym l.1 ∙ unlike))
          | inr h ↦ elim (Bool-cases (ltb i (length before))) [
            | inl h' ↦
                absurd (cc (sym here ∙ l.2 (length before) (ground arith) (omega (arith, size))))
            | inr h' ↦
                let place : i ≡ length before = ground arith in
                ap (resumed (sub64 (from_chars_hex (take 5 text) 0) 1)) (
                  ap (λ n. take n rs) place
                  ∙ ap (take (length before)) e
                  ∙ take-append before (kept ∷ part) (length before) refl)
          ]
        ]
