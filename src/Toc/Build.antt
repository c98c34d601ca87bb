-- ===== src/Toc/Build.antt =====
-- `build` of src/toc.cpp and the index of the database.
use hibp.Common.{
  ℕ, ◌-◌, ◌^◌, ◌≤◌, ◌<◌, ◌≡◌, ◌≢◌, ◌⊎◌, refl, sym, ap, ◌∙◌, Bool, true, false, List, [], some, ◌==◌,
  length, get_elem?, arith, Bool-cases, inl, inr, ltb,
}
use native.Mathlib.Nat.{pow-le-pow_right}
use hibp.ArrCmp.{Isa, Endian}
use hibp.Hibp.{PawnedPw, IsRecord}
use hibp.Hibp.Order.{key}
use hibp.FlatFile.{
  M, Db, Result, Iterator, ok, err, missing_prefix, value_type_too_small, undefined, when_true,
  when_false, deref, back, sub64,
}
use hibp.FlatFile.Reading.{Ready}
use hibp.FlatFile.Caching.{deref_fresh}
use hibp.Search.{at}
use hibp.Search.Lookup.{lookup, key_at, IsDatabase}
use hibp.Search.Plain.{plain_search-lookup}
use hibp.Toc.{throw, pw_to_prefix, build_entries, toc_entries, build_from, search_db}
use hibp.Toc.Prefix.{prefix_at, prefix_of_monotone, pw_to_prefix-key, prefix_of-lt}
use hibp.Toc.Lookup.{IsIndex, toc_search-lookup}
use hibp.Toc.Entries.{Indexes, build_start, record-prefix}

module _ (endian : Endian) (hash_size bits : ℕ) (rs : List PawnedPw) (d : IsDatabase hash_size rs)
    (h : 4 ≤ hash_size) where
  toc_entries_small :
      bits ≤ 31
      → (last : ℕ) → last < 2 ^ bits
      → (0 < toc_entries endian bits last)
        × (last < toc_entries endian bits last)
        × (toc_entries endian bits last < 2 ^ 32)
  unfolding toc_entries
  toc_entries_small k last l =
      let large = pow-le-pow_right {n = 2} (omega arith) {i = bits} {j = 31} k in
      ground (arith, large)

  back_step :
      (db : Db PawnedPw) {x : PawnedPw} {it : Iterator} {db' : Db PawnedPw}
      → deref (at (sub64 db.dbsize 1)) db ≡ (ok (x, it), db')
      → back db ≡ (ok x, db')
  unfolding back
  back_step db e = rw (back, e) refl

  back-last :
      (db : Db PawnedPw)
      → Ready rs db
      → 0 < length rs
      → (x : PawnedPw) × (db' : Db PawnedPw) × (back db ≡ (ok x, db'))
        × (get_elem? rs (length rs - 1) ≡ some x)
        × Ready rs db'
  back-last db r n =
      let place : sub64 db.dbsize 1 ≡ length rs - 1 =
        omega (arith, r.coherent.sized, r.coherent.small) in
      let (x, it, db', holds, read, again, r') =
        deref_fresh rs db (sub64 db.dbsize 1) r (omega arith) in
      (x, db', back_step db read, ap (get_elem? rs) (sym place) ∙ holds, r')

  module _ (db : Db PawnedPw) {x : PawnedPw} {db' : Db PawnedPw} (e : back db ≡ (ok x, db')) where
    build_from_loop :
        ltb (2 ^ 32 - 1) db.dbsize ≡ false
        → (toc_entries endian bits (pw_to_prefix endian bits x) == 0) ≡ false
        → build_from endian bits db
          ≡ build_entries endian bits
              (toc_entries endian bits (pw_to_prefix endian bits x))
              0
              0
              []
              db'
    unfolding build_from
    build_from_loop small some_entries =
        rw (build_from, e)
          (when_false (ltb (2 ^ 32 - 1) db.dbsize) (throw value_type_too_small)
              (elim (toc_entries endian bits (pw_to_prefix endian bits x) == 0)
                as (λ b. M (Db PawnedPw) (List ℕ)) [
                  | true ↦ throw undefined
                  | false ↦
                      build_entries endian bits
                        (toc_entries endian bits (pw_to_prefix endian bits x)) 0 0 []
                ])
              db' small
            ∙ when_false (toc_entries endian bits (pw_to_prefix endian bits x) == 0)
                (throw undefined)
                (build_entries endian bits (toc_entries endian bits (pw_to_prefix endian bits x)) 0
                  0 [])
                db' some_entries)

    build_from_too_large :
        ltb (2 ^ 32 - 1) db.dbsize ≡ true
        → build_from endian bits db ≡ (err value_type_too_small, db')
    unfolding build_from
    build_from_too_large large =
        rw (build_from, e)
          (when_true (ltb (2 ^ 32 - 1) db.dbsize) (throw value_type_too_small)
            (elim (toc_entries endian bits (pw_to_prefix endian bits x) == 0)
              as (λ b. M (Db PawnedPw) (List ℕ)) [
                | true ↦ throw undefined
                | false ↦
                    build_entries endian bits (toc_entries endian bits (pw_to_prefix endian bits x))
                      0 0 []
              ])
            db' large)

  -- What `build` may end with: the index; a prefix that no record has; too many records.
  abbrev pub Outcome : Result (List ℕ) × Db PawnedPw → Type 0
  Outcome (ok table, db) = IsIndex hash_size bits rs table × Ready rs db
  Outcome (err e, db) =
      (((p : ℕ) × (e ≡ missing_prefix p)
          × (p < 2 ^ bits)
          × ((i : ℕ) → i < length rs → prefix_at hash_size bits rs i ≢ p))
        ⊎ ((e ≡ value_type_too_small) × (2 ^ 32 ≤ length rs)))
      × Ready rs db

  outcome :
      (limit : ℕ) (o : Result (List ℕ) × Db PawnedPw)
      → limit < 2 ^ 32
      → limit ≤ 2 ^ bits
      → ((i : ℕ) → i < length rs → prefix_at hash_size bits rs i < limit)
      → Indexes endian hash_size bits rs d h limit o
      → Outcome o
  outcome limit (ok table, db) small asked all x = (
    record {
      small = omega (arith, x.0);
      places = λ p h. x.1 p (omega (arith, x.0));
      covers = λ i h. omega (arith, x.0, all i h);
    },
    x.2,
  )
  outcome limit (err e, db) small asked all x = (inl (x.0, x.1, omega (arith, x.2), x.3), x.4)

  entries-le : (last : ℕ) → toc_entries endian bits last ≤ 2 ^ bits
  unfolding toc_entries
  entries-le last = ground arith

  -- For a sorted database that is not empty, of hashes of 4 bytes or more, and a prefix of 1 to 31
  -- bits, `build` ends with the index of the database, whose entries are the places of the first
  -- records of all prefixes up to the last record's; or it names a prefix that no record has; or it
  -- refuses the database, which then has 2 ^ 32 records or more.
  pub build_from-IsIndex :
      (db : Db PawnedPw)
      → Ready rs db
      → 0 < length rs
      → 0 < bits
      → bits ≤ 31
      → Outcome (build_from endian bits db)
  build_from-IsIndex db r n one k =
      let (x, db', e, holds, r') = back-last db r n in
      elim (Bool-cases (ltb (2 ^ 32 - 1) db.dbsize)) [
        | inl l ↦
            rw (build_from_too_large db e l) (inr (refl, ground (arith, r.coherent.sized)), r')
        | inr l ↦
            let same = record-prefix endian hash_size bits rs d h (length rs - 1) x holds in
            let bound =
              prefix_of-lt endian hash_size bits x h (d.valid (length rs - 1) x holds)
                (omega arith) in
            let low =
              pw_to_prefix-key endian hash_size bits x h (d.valid (length rs - 1) x holds) in
            let (positive, above, small) =
              toc_entries_small k (pw_to_prefix endian bits x) (omega (arith, bound, low)) in
            rw (build_from_loop db e l (ground arith)) (
              outcome (toc_entries endian bits (pw_to_prefix endian bits x))
                (build_entries endian bits (toc_entries endian bits (pw_to_prefix endian bits x)) 0
                  0 [] db')
                small (entries-le (pw_to_prefix endian bits x))
                (λ i hi. omega (
                  arith,
                  same,
                  above,
                  prefix_of_monotone hash_size bits (key_at rs i) (key_at rs (length rs - 1))
                      (d.sorted i (length rs - 1) (omega arith) (omega arith)),
                ))
                (build_start endian hash_size bits rs d h
                  (toc_entries endian bits (pw_to_prefix endian bits x)) db' r'
                  (ground (arith, r.coherent.sized))))
      ]

-- For a sorted database that is not empty, of hashes of 4 bytes or more, and a prefix of 1 to 31
-- bits: with the table that `build` has made, and without one, a search answers the same, the first
-- record that has the needle's hash, or none if there is none.
pub search_db-build_from :
    (isa : Isa) (endian : Endian) (hash_size bits : ℕ) (rs : List PawnedPw) (needle : PawnedPw)
    → IsDatabase hash_size rs
    → IsRecord hash_size needle
    → 4 ≤ hash_size
    → 0 < length rs
    → 0 < bits
    → bits ≤ 31
    → (at_build : Db PawnedPw) {table : List ℕ} {after_build : Db PawnedPw} → Ready rs at_build
    → build_from endian bits at_build ≡ (ok table, after_build)
    → (toc : Bool) (db : Db PawnedPw) → Ready rs db
    → (db' : Db PawnedPw) × (search_db isa endian hash_size bits table needle toc db
        ≡ (ok (lookup (key needle) rs), db'))
      × Ready rs db'
unfolding search_db
search_db-build_from isa endian hash_size bits rs needle d vn h n one k at_build {table} r0 e true
      db r =
    let (index, r') : IsIndex hash_size bits rs table × Ready rs _ =
      rw e at (build_from-IsIndex endian hash_size bits rs d h at_build r0 n one k) in
    toc_search-lookup isa endian hash_size bits needle vn rs d table h index db r
search_db-build_from isa endian hash_size bits rs needle d vn h n one k at_build r0 e false db r =
    plain_search-lookup isa endian hash_size needle vn rs d db r
