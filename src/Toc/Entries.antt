-- ===== src/Toc/Entries.antt =====
-- The loop of `build` of src/toc.cpp: each entry is the place of the first record with its prefix.
use hibp.Common.{
  ℕ, zero, suc, ◌+◌, ◌-◌, ◌%◌, ◌^◌, ◌≤◌, ◌<◌, ◌≡◌, ◌≢◌, refl, sym, ap, ◌∙◌, true, false, List, [],
  ◌∷◌, ◌++◌, some, ◌==◌, length, length-append, get_or, get_or-append, get_or-append_left,
  get_elem?, arith, Bool-cases, inl, inr, ltb,
}
use hibp.ArrCmp.{Endian}
use hibp.Hibp.{PawnedPw}
use hibp.FlatFile.{
  Db, Result, Iterator, ok, err, missing_prefix, return, when_true, when_false, deref,
}
use hibp.FlatFile.Reading.{Ready}
use hibp.FlatFile.Caching.{deref_fresh}
use hibp.Search.{at}
use hibp.Search.Lookup.{key_at, IsDatabase, key_at-get_elem?}
use hibp.Toc.{throw, pw_to_prefix, find_prefix, build_entries}
use hibp.Toc.Prefix.{prefix_of, prefix_at, prefix_of_monotone, pw_to_prefix-key}
use hibp.Toc.Lookup.{IsFirst}

module _ (endian : Endian) (bits prefix : ℕ) where
  find_prefix_here :
      (n pos : ℕ) (db : Db PawnedPw) {x : PawnedPw} {it : Iterator} {db' : Db PawnedPw}
      → deref (at pos) db ≡ (ok (x, it), db')
      → (pw_to_prefix endian bits x == prefix) ≡ true
      → find_prefix endian bits prefix (suc n) pos db ≡ (ok pos, db')
  unfolding find_prefix
  find_prefix_here n pos db {x} {it} {db'} e l =
      rw (find_prefix, e)
        (when_true (pw_to_prefix endian bits x == prefix) (return pos)
          (find_prefix endian bits prefix n (pos + 1)) db' l)

  find_prefix_next :
      (n pos : ℕ) (db : Db PawnedPw) {x : PawnedPw} {it : Iterator} {db' : Db PawnedPw}
      → deref (at pos) db ≡ (ok (x, it), db')
      → (pw_to_prefix endian bits x == prefix) ≡ false
      → find_prefix endian bits prefix (suc n) pos db
        ≡ find_prefix endian bits prefix n (pos + 1) db'
  unfolding find_prefix
  find_prefix_next n pos db {x} {it} {db'} e l =
      rw (find_prefix, e)
        (when_false (pw_to_prefix endian bits x == prefix) (return pos)
          (find_prefix endian bits prefix n (pos + 1)) db' l)

  find_prefix_end :
      (pos : ℕ) (db : Db PawnedPw) → find_prefix endian bits prefix 0 pos db ≡ (ok pos, db)
  unfolding find_prefix
  find_prefix_end pos db = refl

  build_entries_end :
      (last : ℕ) (table : List ℕ) (db : Db PawnedPw)
      → build_entries endian bits 0 prefix last table db ≡ (ok table, db)
  unfolding build_entries
  build_entries_end last table db = refl

  build_entries_missing :
      (n last : ℕ) (table : List ℕ) (db : Db PawnedPw) {r : ℕ} {db' : Db PawnedPw}
      → find_prefix endian bits prefix (db.dbsize - last) last db ≡ (ok r, db')
      → (r == db.dbsize) ≡ true
      → build_entries endian bits (suc n) prefix last table db ≡ (err (missing_prefix prefix), db')
  unfolding build_entries
  build_entries_missing n last table db {r} {db'} e l =
      rw (build_entries, e)
        (when_true (r == db.dbsize) (throw (missing_prefix prefix))
          (build_entries endian bits n (prefix + 1) (r % 2 ^ 32) (table ++ (r % 2 ^ 32 ∷ []))) db'
          l)

  build_entries_found :
      (n last : ℕ) (table : List ℕ) (db : Db PawnedPw) {r : ℕ} {db' : Db PawnedPw}
      → find_prefix endian bits prefix (db.dbsize - last) last db ≡ (ok r, db')
      → (r == db.dbsize) ≡ false
      → build_entries endian bits (suc n) prefix last table db
        ≡ build_entries endian bits n (prefix + 1) (r % 2 ^ 32) (table ++ (r % 2 ^ 32 ∷ [])) db'
  unfolding build_entries
  build_entries_found n last table db {r} {db'} e l =
      rw (build_entries, e)
        (when_false (r == db.dbsize) (throw (missing_prefix prefix))
          (build_entries endian bits n (prefix + 1) (r % 2 ^ 32) (table ++ (r % 2 ^ 32 ∷ []))) db'
          l)

module _ (endian : Endian) (hash_size bits : ℕ) (rs : List PawnedPw) (d : IsDatabase hash_size rs)
    (h : 4 ≤ hash_size) where
  abbrev Finds : ℕ → ℕ → Result ℕ × Db PawnedPw → Type 0
  Finds prefix pos (err e, db) = ⊥
  Finds prefix pos (ok r, db) =
      Ready rs db
      × (pos ≤ r)
      × (r ≤ length rs)
      × ((i : ℕ) → pos ≤ i → i < r → prefix_at hash_size bits rs i ≢ prefix)
      × (r < length rs → prefix_at hash_size bits rs r ≡ prefix)

  Finds-next :
      (prefix pos : ℕ) (o : Result ℕ × Db PawnedPw)
      → prefix_at hash_size bits rs pos ≢ prefix
      → Finds prefix (pos + 1) o
      → Finds prefix pos o
  Finds-next prefix pos (err e, db) n f = f
  Finds-next prefix pos (ok r, db) n f =
      (f.0, omega (arith, f.1), f.2, (λ i lo hi. passed i lo hi), f.4)
    where
      passed : (i : ℕ) → pos ≤ i → i < r → prefix_at hash_size bits rs i ≢ prefix
      passed i lo hi = elim (Bool-cases (i == pos)) [
        | inl e ↦ λ q. n (ap (prefix_at hash_size bits rs) (ground arith) ∙ q)
        | inr e ↦ f.3 i (ground arith) hi
      ]

  pub record-prefix :
      (i : ℕ) (x : PawnedPw)
      → get_elem? rs i ≡ some x
      → pw_to_prefix endian bits x ≡ prefix_at hash_size bits rs i
  record-prefix i x e =
      pw_to_prefix-key endian hash_size bits x h (d.valid i x e)
      ∙ ap (prefix_of hash_size bits) (sym (key_at-get_elem? rs i x e))

  find_prefix-Finds :
      (prefix n pos : ℕ) (db : Db PawnedPw)
      → Ready rs db
      → pos + n ≡ length rs
      → Finds prefix pos (find_prefix endian bits prefix n pos db)
  find_prefix-Finds prefix zero pos db r e =
      rw (find_prefix_end endian bits prefix pos db) (
        r,
        omega arith,
        omega arith,
        (λ i lo hi. absurd (omega arith)),
        (λ hi. absurd (omega arith)),
      )
  find_prefix-Finds prefix (suc n) pos db r e =
      let (x, it, db', holds, read, again, r') = deref_fresh rs db pos r (omega arith) in
      elim (Bool-cases (pw_to_prefix endian bits x == prefix)) [
        | inl l ↦ rw (find_prefix_here endian bits prefix n pos db read l) (
          r',
          omega arith,
          omega arith,
          (λ i lo hi. absurd (omega arith)),
          (λ hi. ground (arith, record-prefix pos x holds)),
        )
        | inr l ↦ rw (find_prefix_next endian bits prefix n pos db read l) (
            Finds-next prefix pos (find_prefix endian bits prefix n (pos + 1) db')
              (λ q. ground (arith, record-prefix pos x holds))
              (find_prefix-Finds prefix n (pos + 1) db' r' (omega arith)))
      ]

  -- The table has the place of every prefix below `limit`, or there is one that no record has.
  abbrev pub Indexes : ℕ → Result (List ℕ) × Db PawnedPw → Type 0
  Indexes limit (ok table, db) =
      (length table ≡ limit)
      × ((p : ℕ) → p < limit → IsFirst hash_size bits rs p (get_or table p 0))
      × Ready rs db
  Indexes limit (err e, db) =
      (p : ℕ) × (e ≡ missing_prefix p)
      × (p < limit)
      × ((i : ℕ) → i < length rs → prefix_at hash_size bits rs i ≢ p)
      × Ready rs db

  -- What the loop knows when it has come to `prefix`.
  record Partial (prefix last : ℕ) (table : List ℕ) : Type 0 where
    sized : length table ≡ prefix
    inside : last ≤ length rs
    passed : (i : ℕ) → i < last → prefix_at hash_size bits rs i < prefix
    places : (p : ℕ) → p < prefix → IsFirst hash_size bits rs p (get_or table p 0)

  found-IsFirst :
      (prefix last : ℕ) (table : List ℕ) (r : ℕ) (db : Db PawnedPw)
      → Partial prefix last table
      → Finds prefix last (ok r, db)
      → r < length rs
      → IsFirst hash_size bits rs prefix r
  found-IsFirst prefix last table r db v f inside = record {
    inside = inside;
    here = f.4 inside;
    before = before;
  }
    where
      before : (i : ℕ) → i < r → prefix_at hash_size bits rs i < prefix
      before i hi = elim (Bool-cases (ltb i last)) [
        | inl e ↦ v.passed i (ground arith)
        | inr e ↦ ground (
          arith,
          f.3 i,
          f.4 inside,
          prefix_of_monotone hash_size bits (key_at rs i) (key_at rs r)
              (d.sorted i r (omega arith) inside),
        )
      ]

  found-Partial :
      (prefix last : ℕ) (table : List ℕ) (r : ℕ)
      → Partial prefix last table
      → IsFirst hash_size bits rs prefix r
      → Partial (prefix + 1) r (table ++ (r ∷ []))
  found-Partial prefix last table r v f = record {
    sized = omega (arith, v.sized, length-append table (r ∷ []));
    inside = omega (arith, f.inside);
    passed = λ i hi. omega (arith, f.before i hi);
    places = places;
  }
    where
      places :
          (p : ℕ) → p < prefix + 1 → IsFirst hash_size bits rs p (get_or (table ++ (r ∷ [])) p 0)
      places p hp = elim (Bool-cases (p == prefix)) [
        | inl e ↦
            let same : p ≡ prefix = ground arith in
            rw (same, get_or-append table r [] prefix 0 v.sized) f
        | inr e ↦
            rw (get_or-append_left table (r ∷ []) p 0 (ground (arith, v.sized)))
              (v.places p (ground arith))
      ]

  missing-none :
      (prefix last : ℕ) (table : List ℕ) (r : ℕ) (db : Db PawnedPw)
      → Partial prefix last table
      → Finds prefix last (ok r, db)
      → r ≡ length rs
      → (i : ℕ) → i < length rs
      → prefix_at hash_size bits rs i ≢ prefix
  missing-none prefix last table r db v f e i hi = ground (arith, v.passed i, f.3 i)

  Finds-ok :
      (prefix pos : ℕ) (o : Result ℕ × Db PawnedPw)
      → Finds prefix pos o
      → (r : ℕ) × (db' : Db PawnedPw) × (o ≡ (ok r, db')) × Finds prefix pos (ok r, db')
  Finds-ok prefix pos (ok r, db') f = (r, db', refl, f)
  Finds-ok prefix pos (err e, db') f = absurd f

  build_entries-Indexes :
      (n prefix last : ℕ) (table : List ℕ) (db : Db PawnedPw)
      → Ready rs db
      → length rs < 2 ^ 32
      → Partial prefix last table
      → Indexes (prefix + n) (build_entries endian bits n prefix last table db)
  build_entries-Indexes zero prefix last table db r small v =
      let all : prefix + 0 ≡ prefix = omega arith in
      rw (all, build_entries_end endian bits prefix last table db) (v.sized, v.places, r)
  build_entries-Indexes (suc n) prefix last table db ready small v =
      let (r, db', e, f) =
        Finds-ok prefix last (find_prefix endian bits prefix (db.dbsize - last) last db) (
          find_prefix-Finds prefix (db.dbsize - last) last db ready
            (omega (arith, v.inside, ready.coherent.sized))) in
      elim (Bool-cases (r == db.dbsize)) [
        | inl l ↦ rw (build_entries_missing endian bits prefix n last table db e l) (
          prefix,
          refl,
          omega arith,
          missing-none prefix last table r db' v f (ground (arith, ready.coherent.sized)),
          f.0,
        )
        | inr l ↦
            let inside : r < length rs = ground (arith, ready.coherent.sized, f.2) in
            let same : r % 2 ^ 32 ≡ r = omega arith in
            let sum : prefix + suc n ≡ prefix + 1 + n = omega arith in
            rw (build_entries_found endian bits prefix n last table db e l, same, sum)
              (build_entries-Indexes n (prefix + 1) r (table ++ (r ∷ [])) db' f.0 small (
                found-Partial prefix last table r v
                  (found-IsFirst prefix last table r db' v f inside)))
      ]

  pub build_start :
      (n : ℕ) (db : Db PawnedPw)
      → Ready rs db
      → length rs < 2 ^ 32
      → Indexes n (build_entries endian bits n 0 0 [] db)
  build_start n db r small =
      let all : 0 + n ≡ n = omega arith in
      rw all at (
        build_entries-Indexes n 0 0 [] db r small (record {
          sized = refl;
          inside = omega arith;
          passed = λ i q. absurd (omega arith);
          places = λ p q. absurd (omega arith);
        }))
