-- ===== src/Search/Plain.antt =====
-- The search without a table of contents, of src/srv/server.cpp and app/hibp_search.cpp.
use hibp.Common.{
  ℕ, ◌-◌, ◌≤◌, ◌<◌, ◌≡◌, ◌≢◌, sym, ap, ◌∙◌, true, false, List, none, some, ◌==◌, length, get_elem?,
  arith, Bool-cases, inl, inr,
}
use hibp.ArrCmp.{Isa, Endian}
use hibp.Hibp.{PawnedPw, IsRecord}
use hibp.Hibp.Order.{key, pw_equal, pw_equal-key}
use hibp.FlatFile.{
  and_then, return, ◌>>=◌, when_true, when_false, Db, Iterator, Result, ok, err, deref,
}
use hibp.FlatFile.Reading.{Ready}
use hibp.FlatFile.Caching.{deref_fresh}
use hibp.Search.{at, lower_bound_loop, lower_bound, if_equal, plain_search}
use hibp.Search.Lookup.{lookup, key_at, IsDatabase, key_at-get_elem?, lookup-none, lookup_first}
use hibp.Search.Bounds.{Splits, lower_bound_loop-Splits}

module _ (isa : Isa) (endian : Endian) (hash_size : ℕ) (needle : PawnedPw) where
  if_equal_end :
      (pos : ℕ) (db : Db PawnedPw)
      → (pos == db.dbsize) ≡ true
      → if_equal isa endian hash_size needle pos db ≡ (ok none, db)
  unfolding if_equal
  if_equal_end pos db e = rw (if_equal, e)

  if_equal_found :
      (pos : ℕ) (db : Db PawnedPw) {x : PawnedPw} {it : Iterator} {db' : Db PawnedPw}
      → (pos == db.dbsize) ≡ false
      → deref (at pos) db ≡ (ok (x, it), db')
      → deref it db' ≡ (ok (x, it), db')
      → pw_equal isa endian hash_size x needle ≡ true
      → if_equal isa endian hash_size needle pos db ≡ (ok (some x), db')
  unfolding if_equal
  if_equal_found pos db {x} {it} {db'} n e again l =
      rw (if_equal, n, e)
        (when_true (pw_equal isa endian hash_size x needle)
            (do (y, it') ← deref it; return (some y)) (return none) db' l
          ∙ rw again)

  if_equal_other :
      (pos : ℕ) (db : Db PawnedPw) {x : PawnedPw} {it : Iterator} {db' : Db PawnedPw}
      → (pos == db.dbsize) ≡ false
      → deref (at pos) db ≡ (ok (x, it), db')
      → pw_equal isa endian hash_size x needle ≡ false
      → if_equal isa endian hash_size needle pos db ≡ (ok none, db')
  unfolding if_equal
  if_equal_other pos db {x} {it} {db'} n e l =
      rw (if_equal, n, e)
        (when_false (pw_equal isa endian hash_size x needle)
          (do (y, it') ← deref it; return (some y)) (return none) db' l)

module _ (isa : Isa) (endian : Endian) (hash_size : ℕ) (needle : PawnedPw)
    (vn : IsRecord hash_size needle) (rs : List PawnedPw) (d : IsDatabase hash_size rs) where
  equal-key :
      (i : ℕ) (x : PawnedPw)
      → get_elem? rs i ≡ some x
      → pw_equal isa endian hash_size x needle ≡ (key x == key needle)
  equal-key i x e = pw_equal-key isa endian hash_size x needle (d.valid i x e) vn

  -- At a place that the hash is not before, nor behind unless it is here, the answer is right.
  pub if_equal-lookup :
      (pos : ℕ) (db : Db PawnedPw)
      → Ready rs db
      → pos ≤ length rs
      → ((i : ℕ) → i < pos → key_at rs i ≢ key needle)
      → ((i : ℕ) → pos ≤ i → i < length rs → key_at rs i ≡ key needle → key_at rs pos ≡ key needle)
      → (db' : Db PawnedPw) × (if_equal isa endian hash_size needle pos db
          ≡ (ok (lookup (key needle) rs), db'))
        × Ready rs db'
  if_equal-lookup pos db r h before behind = elim (Bool-cases (pos == db.dbsize)) [
    | inl e ↦ (
      db,
      if_equal_end isa endian hash_size needle pos db e
          ∙ ap (λ t. (ok t, db))
              (sym
                (lookup-none (key needle) rs (λ i p. before i (ground (arith, r.coherent.sized))))),
      r,
    )
    | inr n ↦
        let (x, it, db', holds, read, again, r') =
          deref_fresh rs db pos r (ground (arith, r.coherent.sized)) in
        elim (Bool-cases (key x == key needle)) [
          | inl l ↦ (
            db',
            if_equal_found isa endian hash_size needle pos db n read again
                  (equal-key pos x holds ∙ l)
                ∙ ap (λ t. (ok t, db'))
                    (sym (lookup_first (key needle) rs pos x before holds (ground arith))),
            r',
          )
          | inr l ↦
              let here = key_at-get_elem? rs pos x holds in
              (
                db',
                if_equal_other isa endian hash_size needle pos db n read (equal-key pos x holds ∙ l)
                    ∙ ap (λ t. (ok t, db'))
                        (sym (
                          lookup-none (key needle) rs
                            (λ i p q. ground (arith, before i, behind i)))),
                r',
              )
        ]
  ]

  range-lookup :
      (first last : ℕ) (o : Result ℕ × Db PawnedPw)
      → last ≤ length rs
      → ((i : ℕ) → i < first → key_at rs i ≢ key needle)
      → ((i : ℕ) → last ≤ i → i < length rs → key_at rs i ≢ key needle)
      → Splits rs (key needle) first last o
      → (db' : Db PawnedPw) × (and_then o (if_equal isa endian hash_size needle)
          ≡ (ok (lookup (key needle) rs), db'))
        × Ready rs db'
  range-lookup first last (err e, db) h before behind s = absurd s
  range-lookup first last (ok r, db) h before behind s =
      if_equal-lookup r db s.0 (omega (arith, s.2)) below above
    where
      below : (i : ℕ) → i < r → key_at rs i ≢ key needle
      below i p = ground (arith, before i, s.3 i)

      above : (i : ℕ) → r ≤ i → i < length rs → key_at rs i ≡ key needle → key_at rs r ≡ key needle
      above i lo hi e = ground (arith, behind i, s.4 r, s.2, d.sorted r i lo hi)

  -- The search of a range, when the hash is in no other place.
  pub search_range-lookup :
      (first last : ℕ) (db : Db PawnedPw)
      → Ready rs db
      → first ≤ last
      → last ≤ length rs
      → ((i : ℕ) → i < first → key_at rs i ≢ key needle)
      → ((i : ℕ) → last ≤ i → i < length rs → key_at rs i ≢ key needle)
      → (db' : Db PawnedPw) × ((do
        pos ← lower_bound isa endian hash_size needle first last
        if_equal isa endian hash_size needle pos)
            db
          ≡ (ok (lookup (key needle) rs), db'))
        × Ready rs db'
  unfolding lower_bound
  search_range-lookup first last db r h k before behind =
      range-lookup first last
        (lower_bound_loop isa endian hash_size needle (last - first) first (last - first) db) k
        before behind
        (lower_bound_loop-Splits isa endian hash_size needle vn rs d (last - first) first
          (last - first) last db r (omega arith) (omega arith) k)

  -- On every machine, and whatever the buffer holds, the search without a table of contents
  -- answers with the first record of a sorted database that has the needle's hash, or with none
  -- if there is none, and throws nothing; the database is ready for the next search.
  pub plain_search-lookup :
      (db : Db PawnedPw)
      → Ready rs db
      → (db' : Db PawnedPw) × (plain_search isa endian hash_size needle db
          ≡ (ok (lookup (key needle) rs), db'))
        × Ready rs db'
  unfolding plain_search
  plain_search-lookup db r =
      search_range-lookup 0 db.dbsize db r (omega arith) (omega (arith, r.coherent.sized))
        (λ i p. absurd (omega arith)) (λ i p q. absurd (omega (arith, r.coherent.sized)))
