-- ===== src/FlatFile/Caching.antt =====
-- Iterators, which keep the place of their record in the buffer.
use hibp.Common.{
  ℕ, ◌+◌, ◌-◌, ◌<◌, ◌≡◌, refl, ap, ◌∙◌, false, List, length, get_elem?, get_elem?-some, arith, min,
  none, some,
}
use hibp.FlatFile.{Db, Iterator, Result, ok, err, get_record, deref, found, in_buffer, fill}
use hibp.FlatFile.Reading.{Ready, get_record-Ready, get_record_loads}

module _ {A : Type 0} where
  pub deref_fresh_step :
      (db : Db A) (pos : ℕ) {x : A} {db' : Db A}
      → get_record db pos ≡ (ok x, db')
      → deref (record { pos = pos; cur = none }) db
        ≡ (ok (x, record { pos = pos; cur = some (pos - db'.buf_start) }), db')
  unfolding deref
  deref_fresh_step db pos e = rw (deref, e)

  pub deref_kept_step :
      (db : Db A) (pos k : ℕ) {x : A}
      → get_elem? db.buf k ≡ some x
      → deref (record { pos = pos; cur = some k }) db
        ≡ (ok (x, record { pos = pos; cur = some k }), db)
  unfolding deref
  deref_kept_step db pos k e = rw e

  found_state :
      (pos : ℕ) (o : Result A × Db A) → (found (record { pos = pos; cur = none }) o).1 ≡ o.1
  found_state pos (ok x, db) = refl
  found_state pos (err e, db) = refl

  deref_fresh_state :
      (db : Db A) (pos : ℕ)
      → (deref (record { pos = pos; cur = none }) db).1 ≡ (get_record db pos).1
  deref_fresh_state db pos = unfold deref in found_state pos (get_record db pos)

  -- In a database that is ready, an iterator that knows no place in the buffer gives the record of
  -- its position, if that is before the end, and then gives it again, as long as nothing else is
  -- read.
  pub deref_fresh :
      (rs : List A) (db : Db A) (pos : ℕ)
      → Ready rs db
      → pos < length rs
      → (x : A) × (it : Iterator) × (db' : Db A) × (get_elem? rs pos ≡ some x)
        × (deref (record { pos = pos; cur = none }) db ≡ (ok (x, it), db'))
        × (deref it db' ≡ (ok (x, it), db'))
        × Ready rs db'
  deref_fresh rs db pos r h =
      let (x, db', e, holds, r', b) = get_record-Ready rs db pos r h in
      let place : get_elem? db'.buf (pos - db'.buf_start) ≡ some x =
        r'.coherent.held pos (ground arith) (ground arith) ∙ holds in
      (
        x,
        record { pos = pos; cur = some (pos - db'.buf_start) },
        db',
        holds,
        deref_fresh_step db pos e,
        deref_kept_step db' pos (pos - db'.buf_start) place,
        r',
      )

  -- When another iterator of a ready database has had records loaded from its own position, because
  -- they were not in the buffer, an iterator that still knows its place in the buffer gives the
  -- record that is now at that place, whatever its own position is.
  pub deref_stale :
      (rs : List A) (db : Db A) (pos other k : ℕ)
      → Ready rs db
      → in_buffer db other ≡ false
      → other < length rs
      → k < min (length db.buf) (length rs - other)
      → (y : A) × (get_elem? rs (other + k) ≡ some y)
        × ((deref
              (record { pos = pos; cur = some k })
              (deref (record { pos = other; cur = none }) db).1).0
            ≡ ok (y, record { pos = pos; cur = some k }))
  deref_stale rs db pos other k r b h inside =
      let (loaded, some_records, v) = get_record_loads rs db other r h b in
      let (y, e) = get_elem?-some rs (other + k) (omega arith) in
      let start : other + k - other ≡ k = omega arith in
      let place = rw start at (v.held (other + k) (omega arith) (omega arith)) in
      (
        y,
        e,
        rw (deref_fresh_state db other, loaded)
            (ap (λ (t : Result (A × Iterator) × Db A). t.0)
              (deref_kept_step (fill db other (min (length db.buf) (length rs - other))) pos k
                (place ∙ e))),
      )
