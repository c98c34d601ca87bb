-- ===== src/Disksort/Reading.antt =====
-- Records read from a database one after the other.
use hibp.Common.{
  ℕ, zero, suc, ◌+◌, ◌≤◌, ◌≡◌, refl, sym, ap, ◌∙◌, List, [], ◌∷◌, ◌++◌, append_assoc, append-nil,
  length, take, drop, drop-get_elem?, arith,
}
use hibp.FlatFile.{Db, Iterator, ok, deref}
use hibp.FlatFile.Reading.{Ready}
use hibp.FlatFile.Caching.{deref_fresh}
use hibp.Search.{at}
use hibp.Disksort.{read_range}

module _ {A : Type 0} where
  read_range_step :
      (n pos : ℕ) (objs : List A) (db : Db A) {x : A} {it : Iterator} {db' : Db A}
      → deref (at pos) db ≡ (ok (x, it), db')
      → read_range (suc n) pos objs db ≡ read_range n (pos + 1) (objs ++ (x ∷ [])) db'
  unfolding read_range
  read_range_step n pos objs db e = rw (read_range, e) refl

  read_range_none :
      (pos : ℕ) (objs : List A) (db : Db A) → read_range zero pos objs db ≡ (ok objs, db)
  unfolding read_range
  read_range_none pos objs db = refl

  -- In a database that is ready, the copy of a range before its end adds its records to the vector.
  pub read_range-take :
      (rs : List A) (n pos : ℕ) (objs : List A) (db : Db A)
      → Ready rs db
      → pos + n ≤ length rs
      → (db' : Db A) × (read_range n pos objs db ≡ (ok (objs ++ take n (drop pos rs)), db'))
        × Ready rs db'
  read_range-take rs zero pos objs db r h =
      (db, read_range_none pos objs db ∙ ap (λ t. (ok t, db)) (sym (append-nil objs)), r)
  read_range-take rs (suc n) pos objs db r h =
      let (x, it, db', holds, read, again, r') = deref_fresh rs db pos r (omega arith) in
      let (db'', rest, r'') =
        read_range-take rs n (pos + 1) (objs ++ (x ∷ [])) db' r' (omega arith) in
      (
        db'',
        read_range_step n pos objs db read
            ∙ rest
            ∙ ap (λ t. (ok t, db''))
                (append_assoc objs (x ∷ []) (take n (drop (pos + 1) rs))
                  ∙ ap (λ t. objs ++ take (suc n) t) (sym (drop-get_elem? rs pos x holds))),
        r'',
      )
