-- ===== src/Diff/Whole.antt =====
-- Iterators of a database that is in its buffer as a whole, once something has been read of it.
use hibp.Common.{
  ℕ, ◌+◌, ◌-◌, ◌≤◌, ◌<◌, ◌≡◌, ◌⊎◌, inl, inr, refl, sym, ap, ◌∙◌, true, false, List, none, some, min,
  length, get_elem?, arith,
}
use hibp.FlatFile.{Db, Iterator, Result, ok, or_undefined, in_buffer, fill, get_record, deref}
use hibp.FlatFile.Reading.{Ready, get_record-Ready, get_record_loads}
use hibp.FlatFile.Caching.{deref_fresh_step, deref_kept_step}

-- An iterator that knows its place in a buffer that starts with the first record.
abbrev pub known : ℕ → Iterator
known pos = record { pos = pos; cur = some pos }

module _ {A : Type 0} where
  pub record Loaded (rs : List A) (db : Db A) : Type 0 where
    pub ready : Ready rs db
    pub start : db.buf_start ≡ 0
    pub whole : db.buf_end ≡ length rs

  pub record Unread (rs : List A) (db : Db A) : Type 0 where
    pub ready : Ready rs db
    pub fits : length rs ≤ length db.buf
    pub unread : db.buf_end ≡ 0

  -- An iterator at the begin of an unread database, or at any place of one that is loaded.
  abbrev pub Points : List A → Iterator → Db A → Type 0
  Points rs it db =
      (Loaded rs db × ((it.cur ≡ none) ⊎ (it.cur ≡ some it.pos)))
      ⊎ (Unread rs db × (it.pos ≡ 0) × (it.cur ≡ none))

  get_record_hit :
      (db : Db A) (pos : ℕ)
      → in_buffer db pos ≡ true
      → get_record db pos ≡ (or_undefined (get_elem? db.buf (pos - db.buf_start)), db)
  unfolding get_record
  get_record_hit db pos h = rw h refl

  held_at :
      (rs : List A) (db : Db A) (pos : ℕ) (x : A)
      → Loaded rs db
      → pos < length rs
      → get_elem? rs pos ≡ some x
      → get_elem? db.buf pos ≡ some x
  held_at rs db pos x l h e =
      let start = l.start in
      let whole = l.whole in
      let offset : pos - db.buf_start ≡ pos = omega arith in
      ap (get_elem? db.buf) (sym offset) ∙ l.ready.coherent.held pos (omega arith) (omega arith) ∙ e

  deref_loaded :
      (rs : List A) (db : Db A) (pos : ℕ) (x : A)
      → Loaded rs db
      → pos < length rs
      → get_elem? rs pos ≡ some x
      → deref (record { pos = pos; cur = none }) db ≡ (ok (x, known pos), db)
  deref_loaded rs db pos x l h e =
      let start = l.start in
      let whole = l.whole in
      let offset : pos - db.buf_start ≡ pos = omega arith in
      let inside : in_buffer db pos ≡ true = ground arith in
      let read : get_record db pos ≡ (ok x, db) =
        get_record_hit db pos inside
        ∙ ap (λ k. (or_undefined (get_elem? db.buf k), db)) offset
        ∙ ap (λ o. (or_undefined o, db)) (held_at rs db pos x l h e) in
      deref_fresh_step db pos read
      ∙ ap (λ k. (ok (x, record { pos = pos; cur = some k }), db)) offset

  pub same_record :
      (rs : List A) (pos : ℕ) (x y : A)
      → get_elem? rs pos ≡ some x
      → get_elem? rs pos ≡ some y
      → x ≡ y
  same_record rs pos x y e e' = cc

  deref-Unread :
      (rs : List A) (db : Db A) (x : A)
      → Unread rs db
      → 0 < length rs
      → get_elem? rs 0 ≡ some x
      → (db' : Db A) × (deref (record { pos = 0; cur = none }) db ≡ (ok (x, known 0), db'))
        × Loaded rs db'
  deref-Unread rs db x u h e =
      let (y, db', read, holds, r, inside) = get_record-Ready rs db 0 u.ready h in
      let unread = u.unread in
      let out : in_buffer db 0 ≡ false = ground arith in
      let (state, some_records, v) = get_record_loads rs db 0 u.ready h out in
      let loaded : db' ≡ fill db 0 (min (length db.buf) (length rs - 0)) =
        ap (λ (t : Result A × Db A). t.1) (sym read) ∙ state in
      let fits = u.fits in
      let start : db'.buf_start ≡ 0 = ap (λ (d : Db A). d.buf_start) loaded in
      let whole : db'.buf_end ≡ 0 + min (length db.buf) (length rs - 0) =
        ap (λ (d : Db A). d.buf_end) loaded in
      let offset : 0 - db'.buf_start ≡ 0 = omega arith in
      (
        db',
        deref_fresh_step db 0 (read ∙ ap (λ t. (ok t, db')) (same_record rs 0 y x holds e))
            ∙ ap (λ k. (ok (x, record { pos = 0; cur = some k }), db')) offset,
        record { ready = r; start = start; whole = omega arith },
      )

  -- Such an iterator gives the record of its position, whatever has been read before, and the
  -- database is then loaded.
  pub deref-Points :
      (rs : List A) (it : Iterator) (db : Db A) (x : A)
      → Points rs it db
      → it.pos < length rs
      → get_elem? rs it.pos ≡ some x
      → (db' : Db A) × (deref it db ≡ (ok (x, known it.pos), db')) × Loaded rs db'
  deref-Points rs it db x (inl (l, inl fresh)) h e = (
    db,
    ap (λ c. deref (record { pos = it.pos; cur = c }) db) fresh ∙ deref_loaded rs db it.pos x l h e,
    l,
  )
  deref-Points rs it db x (inl (l, inr kept)) h e = (
    db,
    ap (λ c. deref (record { pos = it.pos; cur = c }) db) kept
        ∙ deref_kept_step db it.pos it.pos (held_at rs db it.pos x l h e),
    l,
  )
  deref-Points rs it db x (inr (u, origin, fresh)) h e =
      let (db', read, l) =
        deref-Unread rs db x u (omega arith) (ap (get_elem? rs) (sym origin) ∙ e) in
      (
        db',
        ap (λ c. deref (record { pos = it.pos; cur = c }) db) fresh
            ∙ ap (λ k. deref (record { pos = k; cur = none }) db) origin
            ∙ read
            ∙ ap (λ k. (ok (x, known k), db')) (sym origin),
        l,
      )

  pub size-Points :
      (rs : List A) (it : Iterator) (db : Db A) → Points rs it db → db.dbsize ≡ length rs
  size-Points rs it db (inl (l, c)) = l.ready.coherent.sized
  size-Points rs it db (inr (u, c, d)) = u.ready.coherent.sized
