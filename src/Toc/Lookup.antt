-- ===== src/Toc/Lookup.antt =====
-- The search with a table of contents, `search` of src/toc.cpp.
use hibp.Common.{
  ℕ, ◌+◌, ◌%◌, ◌^◌, ◌≤◌, ◌<◌, ◌≡◌, ◌≢◌, refl, sym, ap, ◌∙◌, true, false, List, none, length, get_or,
  arith, Bool-cases, inl, inr, ltb, leb,
}
use hibp.ArrCmp.{Isa, Endian}
use hibp.Hibp.{PawnedPw, IsRecord}
use hibp.Hibp.Order.{key}
use hibp.FlatFile.{Db, ok, ◌>>=◌}
use hibp.FlatFile.Reading.{Ready}
use hibp.Search.{lower_bound, if_equal}
use hibp.Search.Lookup.{lookup, key_at, IsDatabase, lookup-none}
use hibp.Search.Plain.{search_range-lookup}
use hibp.Toc.{pw_to_prefix, begin_offset, end_offset, toc_search}
use hibp.Toc.Prefix.{prefix_of, prefix_at, prefix_of_monotone, pw_to_prefix-key}

-- The record at `r` is the first one with the prefix `p`.
pub record IsFirst (hash_size bits : ℕ) (rs : List PawnedPw) (p r : ℕ) : Type 0 where
  pub inside : r < length rs
  pub here : prefix_at hash_size bits rs r ≡ p
  pub before : (i : ℕ) → i < r → prefix_at hash_size bits rs i < p

-- Each entry is the place of its prefix, and no record has a prefix beyond the last entry.
pub record IsIndex (hash_size bits : ℕ) (rs : List PawnedPw) (table : List ℕ) : Type 0 where
  pub small : length table < 2 ^ 32
  pub places : (p : ℕ) → p < length table → IsFirst hash_size bits rs p (get_or table p 0)
  pub covers : (i : ℕ) → i < length rs → prefix_at hash_size bits rs i < length table

module _ (isa : Isa) (endian : Endian) (hash_size bits : ℕ) (table : List ℕ)
    (needle : PawnedPw) where
  toc_search_beyond :
      (db : Db PawnedPw)
      → leb (length table) (pw_to_prefix endian bits needle) ≡ true
      → toc_search isa endian hash_size bits table needle db ≡ (ok none, db)
  unfolding toc_search
  toc_search_beyond db e = rw (toc_search, e)

  toc_search_within :
      (db : Db PawnedPw)
      → leb (length table) (pw_to_prefix endian bits needle) ≡ false
      → toc_search isa endian hash_size bits table needle db
        ≡ (do
          pos ←
              lower_bound isa endian hash_size needle
                (begin_offset isa endian hash_size bits table needle
                  (pw_to_prefix endian bits needle))
                (end_offset isa endian hash_size bits table needle
                  (pw_to_prefix endian bits needle)
                  db.dbsize)
          if_equal isa endian hash_size needle pos)
            db
  unfolding toc_search
  toc_search_within db e = rw (toc_search, e)

module _ (hash_size bits : ℕ) (rs : List PawnedPw) (d : IsDatabase hash_size rs) where
  -- Records before the first one with a prefix have a smaller key than a needle with it has.
  key_before :
      (p r k i : ℕ)
      → IsFirst hash_size bits rs p r
      → prefix_of hash_size bits k ≡ p
      → i < r
      → key_at rs i ≢ k
  key_before p r k i f e h q = omega (arith, f.before i h, ap (prefix_of hash_size bits) q, e)

  key_behind :
      (p r k i : ℕ)
      → IsFirst hash_size bits rs (p + 1) r
      → prefix_of hash_size bits k ≡ p
      → r ≤ i
      → i < length rs
      → key_at rs i ≢ k
  key_behind p r k i f e h inside q = omega (
    arith,
    f.here,
    prefix_of_monotone hash_size bits (key_at rs r) (key_at rs i) (d.sorted r i h inside),
    ap (prefix_of hash_size bits) q,
    e,
  )

  first-le :
      (p r r' : ℕ) → IsFirst hash_size bits rs p r → IsFirst hash_size bits rs (p + 1) r' → r ≤ r'
  first-le p r r' f f' = elim (Bool-cases (leb r r')) [
    | inl h ↦ ground arith
    | inr h ↦ absurd (omega (arith, f.before r' (ground arith), f'.here))
  ]

module _ (isa : Isa) (endian : Endian) (hash_size bits : ℕ) (needle : PawnedPw)
    (vn : IsRecord hash_size needle) (rs : List PawnedPw) (d : IsDatabase hash_size rs)
    (table : List ℕ) (h : 4 ≤ hash_size) (x : IsIndex hash_size bits rs table) where
  prefix : ℕ
  prefix = prefix_of hash_size bits (key needle)

  from : ℕ
  from = get_or table prefix 0

  upto : ℕ → ℕ
  upto dbsize = end_offset isa endian hash_size bits table needle prefix dbsize

  upto_next :
      (dbsize : ℕ)
      → ltb (prefix + 1) (length table) ≡ true
      → upto dbsize ≡ get_or table (prefix + 1) 0
  unfolding upto
  upto_next dbsize e =
      let whole : (prefix + 1) % 2 ^ 32 ≡ prefix + 1 = ground (arith, x.small) in rw (whole, e)

  upto_end :
      (dbsize : ℕ)
      → prefix < length table
      → ltb (prefix + 1) (length table) ≡ false
      → upto dbsize ≡ dbsize
  unfolding upto
  upto_end dbsize p e =
      let whole : (prefix + 1) % 2 ^ 32 ≡ prefix + 1 = ground (arith, x.small) in rw (whole, e)

  from-IsFirst : prefix < length table → IsFirst hash_size bits rs prefix from
  unfolding from prefix
  from-IsFirst p = x.places prefix p

  range-lookup :
      (db : Db PawnedPw)
      → Ready rs db
      → prefix < length table
      → (db' : Db PawnedPw) × ((do
        pos ← lower_bound isa endian hash_size needle from (upto db.dbsize)
        if_equal isa endian hash_size needle pos)
            db
          ≡ (ok (lookup (key needle) rs), db'))
        × Ready rs db'
  range-lookup db r p = elim (Bool-cases (ltb (prefix + 1) (length table))) [
    | inl e ↦
        let f = from-IsFirst p in
        let f' = x.places (prefix + 1) (ground arith) in
        rw (upto_next db.dbsize e) (
          search_range-lookup isa endian hash_size needle vn rs d from (get_or table (prefix + 1) 0)
            db r (first-le hash_size bits rs d prefix from (get_or table (prefix + 1) 0) f f')
            (omega (arith, f'.inside))
            (λ i q.
              key_before hash_size bits rs d prefix from (key needle) i f (unfold prefix in refl) q)
            (λ i lo hi.
              key_behind hash_size bits rs d prefix (get_or table (prefix + 1) 0) (key needle) i f'
                (unfold prefix in refl) lo hi))
    | inr e ↦
        let f = from-IsFirst p in
        rw (upto_end db.dbsize p e) (
          search_range-lookup isa endian hash_size needle vn rs d from db.dbsize db r
            (omega (arith, f.inside, r.coherent.sized)) (omega (arith, r.coherent.sized))
            (λ i q.
              key_before hash_size bits rs d prefix from (key needle) i f (unfold prefix in refl) q)
            (λ i lo hi. absurd (omega (arith, r.coherent.sized))))
  ]

  no_such_prefix : (db : Db PawnedPw) → length table ≤ prefix → lookup (key needle) rs ≡ none
  unfolding prefix
  no_such_prefix db p =
      lookup-none (key needle) rs
        (λ i q e. omega (arith, x.covers i q, ap (prefix_of hash_size bits) e))

  prefix_eq : pw_to_prefix endian bits needle ≡ prefix
  unfolding prefix
  prefix_eq = pw_to_prefix-key endian hash_size bits needle h vn

  within :
      (db : Db PawnedPw)
      → Ready rs db
      → prefix < length table
      → (db' : Db PawnedPw) × ((do
        pos ←
            lower_bound isa endian hash_size needle
              (get_or table (pw_to_prefix endian bits needle) 0)
              (end_offset isa endian hash_size bits table needle
                (pw_to_prefix endian bits needle)
                db.dbsize)
        if_equal isa endian hash_size needle pos)
            db
          ≡ (ok (lookup (key needle) rs), db'))
        × Ready rs db'
  unfolding from upto
  within db r p = rw prefix_eq (range-lookup db r p)

  -- With a table that is the index of a sorted database of hashes of 4 bytes or more, the search
  -- with the table of contents answers with the first record that has the needle's hash, or with
  -- none if there is none, on every machine and whatever the buffer holds; the database is ready
  -- for the next search.
  pub toc_search-lookup :
      (db : Db PawnedPw)
      → Ready rs db
      → (db' : Db PawnedPw) × (toc_search isa endian hash_size bits table needle db
          ≡ (ok (lookup (key needle) rs), db'))
        × Ready rs db'
  toc_search-lookup db r =
      elim (Bool-cases (leb (length table) (pw_to_prefix endian bits needle))) [
        | inl e ↦ (
          db,
          toc_search_beyond isa endian hash_size bits table needle db e
              ∙ ap (λ t. (ok t, db)) (sym (no_such_prefix db (ground (arith, prefix_eq)))),
          r,
        )
        | inr e ↦
            let (db', result, r') = within db r (ground (arith, prefix_eq)) in
            (db', toc_search_within isa endian hash_size bits table needle db e ∙ result, r')
      ]
