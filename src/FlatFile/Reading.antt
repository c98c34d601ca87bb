-- ===== src/FlatFile/Reading.antt =====
-- `get_record` and the read buffer of include/flat_file.hpp, and the opening of a database.
use hibp.Common.{
  ℕ, ◌+◌, ◌-◌, ◌*◌, ◌/◌, ◌%◌, ◌^◌, ◌≤◌, ◌<◌, ◌≡◌, ◌≢◌, refl, sym, ap, ◌∙◌, true, false, List, ◌==◌,
  ◌||◌, length, length-drop, take, drop, replicate, get_elem?, get_elem?-drop,
  get_elem?-take_append, get_elem?-some, get_elem?-none, length-append, length-take,
  length-replicate, arith, Bool-cases, inl, inr, min, ltb, some,
}
use native.Mathlib.Nat.{le-div_iff_mul-le, mul-div_right}
use hibp.FlatFile.{
  file_size, Db, File, Result, ok, err, Error, end_of_db, size_mismatch, undefined, stream_failed,
  open_db, get_record, in_buffer, fill, or_undefined, sub64,
}

pub fits_one : (size bytes : ℕ) → 0 < size → size ≤ bytes → 0 < bytes / size
fits_one size bytes h k = (le-div_iff_mul-le {k = size} {x = 1} {y = bytes} h).1 (omega arith)

module _ {A : Type 0} where
  -- The buffer holds the records of the file from `buf_start` to `buf_end`.
  pub record Coherent (rs : List A) (db : Db A) : Type 0 where
    pub same : db.records ≡ rs
    pub sized : db.dbsize ≡ length rs
    pub small : length rs < 2 ^ 64
    pub ordered : db.buf_start ≤ db.buf_end
    pub inside : db.buf_end ≤ length rs
    pub held :
        (i : ℕ)
        → db.buf_start ≤ i
        → i < db.buf_end
        → get_elem? db.buf (i - db.buf_start) ≡ get_elem? rs i

  -- Nothing has failed, and the buffer has room for a record.
  pub record Ready (rs : List A) (db : Db A) : Type 0 where
    pub coherent : Coherent rs db
    pub healthy : db.failed ≡ false
    pub room : 0 < length db.buf

  module _ (rs : List A) (db : Db A) (pos : ℕ) (v : Coherent rs db) where
    window : ℕ
    window = min (length db.buf) (sub64 db.dbsize pos)

    fill-Coherent : pos + window ≤ length rs → Coherent rs (fill db pos window)
    fill-Coherent h = record {
      same = v.same;
      sized = v.sized;
      small = v.small;
      ordered = omega arith;
      inside = h;
      held = λ i lo hi. rw v.same (
          get_elem?-take_append window (drop pos rs) (drop window db.buf) (i - pos) (omega arith)
            (omega (arith, length-drop pos rs))
          ∙ get_elem?-drop pos rs (i - pos)
          ∙ (let e : pos + (i - pos) ≡ i = omega arith in rw e));
    }

    -- The branches of `get_record`, with its conditions.
    get_record_hit :
        in_buffer db pos ≡ true
        → get_record db pos ≡ (or_undefined (get_elem? db.buf (pos - db.buf_start)), db)
    unfolding get_record
    get_record_hit h = rw h

    get_record_end : in_buffer db pos ≡ false → window ≡ 0 → get_record db pos ≡ (err end_of_db, db)
    unfolding get_record window
    get_record_end h e = rw (h, e)

    get_record_fail :
        in_buffer db pos ≡ false
        → (window == 0) ≡ false
        → (db.failed || ltb (length db.records) (pos + window)) ≡ true
        → get_record db pos ≡ (err stream_failed, record db { failed = true })
    unfolding get_record window
    get_record_fail h n e = rw (h, n, e)

    get_record_load :
        in_buffer db pos ≡ false
        → (window == 0) ≡ false
        → (db.failed || ltb (length db.records) (pos + window)) ≡ false
        → get_record db pos
          ≡ (or_undefined (get_elem? (fill db pos window).buf (pos - pos)), fill db pos window)
    unfolding get_record window
    get_record_load h n e = rw (h, n, e)

  -- A record that comes back is the one of the file; an exception is one of the two that the code
  -- throws. Either way the buffer stays coherent.
  abbrev pub Answers : (rs : List A) → ℕ → Result A × Db A → Type 0
  Answers rs pos (ok x, db) = (get_elem? rs pos ≡ some x) × Coherent rs db
  Answers rs pos (err e, db) = (e ≢ undefined) × Coherent rs db

  module _ (rs : List A) (db : Db A) (pos : ℕ) (v : Coherent rs db) where
    hit-holds : in_buffer db pos ≡ true → get_elem? db.buf (pos - db.buf_start) ≡ get_elem? rs pos
    hit-holds h = v.held pos (ground arith) (ground arith)

    hit-inside : in_buffer db pos ≡ true → pos < length rs
    hit-inside h = ground (arith, v.inside)

    load-inside :
        (window rs db pos v == 0) ≡ false
        → (db.failed || ltb (length db.records) (pos + window rs db pos v)) ≡ false
        → (0 < window rs db pos v) × (pos + window rs db pos v ≤ length rs)
    load-inside n e = ground (arith, ap (length {0}) v.same)

    load-holds :
        0 < window rs db pos v
        → pos + window rs db pos v ≤ length rs
        → get_elem? (fill db pos (window rs db pos v)).buf (pos - pos) ≡ get_elem? rs pos
    load-holds n h = (fill-Coherent rs db pos v h).held pos (omega arith) (omega arith)

    -- In a state in which the buffer holds what the file has there, a record
    -- that comes back is the one in the file at that position, an error is an exception of the code
    -- and no read outside the buffer, and the buffer again holds what the file has there.
    pub get_record-Answers : Answers rs pos (get_record db pos)
    get_record-Answers = elim (Bool-cases (in_buffer db pos)) [
      | inl h ↦
          let (x, e) = get_elem?-some rs pos (hit-inside h) in
          rw (get_record_hit rs db pos v h, hit-holds h, e) (e, v)
      | inr h ↦ elim (Bool-cases (window rs db pos v == 0)) [
        | inl n ↦ rw (get_record_end rs db pos v h (ground arith)) ((λ p. cc), v)
        | inr n ↦
            elim (Bool-cases (db.failed || ltb (length db.records) (pos + window rs db pos v))) [
              | inl f ↦ rw (get_record_fail rs db pos v h n f) (
                (λ p. cc),
                record {
                  same = v.same;
                  sized = v.sized;
                  small = v.small;
                  ordered = v.ordered;
                  inside = v.inside;
                  held = v.held;
                },
              )
              | inr f ↦
                  let (some_records, fits) = load-inside n f in
                  let (x, e) = get_elem?-some rs pos (omega arith) in
                  rw (get_record_load rs db pos v h n f, load-holds some_records fits, e)
                    (e, fill-Coherent rs db pos v fits)
            ]
      ]
    ]

  module _ (rs : List A) (db : Db A) (pos : ℕ) (r : Ready rs db) (h : pos < length rs) where
    window_facts :
        (0 < window rs db pos r.coherent) × (pos + window rs db pos r.coherent ≤ length rs)
    unfolding window
    window_facts = ground (arith, r.coherent.sized, r.coherent.small, r.room)

    -- In a state in which, besides, nothing has failed and the buffer has room, every position
    -- before the end of the file gives its record, which is then in the buffer, and the state is
    -- such a state again.
    pub get_record-Ready :
        (x : A) × (db' : Db A) × (get_record db pos ≡ (ok x, db'))
        × (get_elem? rs pos ≡ some x)
        × Ready rs db'
        × (in_buffer db' pos ≡ true)
    get_record-Ready =
        let v = r.coherent in
        let (x, e) = get_elem?-some rs pos h in
        let (some_records, fits) = window_facts in
        let n : (window rs db pos v == 0) ≡ false = ground arith in
        let f : (db.failed || ltb (length db.records) (pos + window rs db pos v)) ≡ false =
          ground (arith, r.healthy, ap (length {0}) v.same) in
        elim (Bool-cases (in_buffer db pos)) [
          | inl b ↦ (x, db, get_record_hit rs db pos v b ∙ rw (hit-holds rs db pos v b, e), e, r, b)
          | inr b ↦ (
            x,
            fill db pos (window rs db pos v),
            get_record_load rs db pos v b n f ∙ rw (load-holds rs db pos v some_records fits, e),
            e,
            record {
              coherent = fill-Coherent rs db pos v fits;
              healthy = r.healthy;
              room = fill_room;
            },
            ground arith,
          )
        ]
      where
        fill_room : 0 < length (fill db pos (window rs db pos r.coherent)).buf
        fill_room = omega (
          arith,
          window_facts,
          ap (length {0}) r.coherent.same,
          length-append (take (window rs db pos r.coherent) (drop pos db.records))
              (drop (window rs db pos r.coherent) db.buf),
          length-take (window rs db pos r.coherent) (drop pos db.records),
          length-drop pos db.records,
          length-drop (window rs db pos r.coherent) db.buf,
        )

  -- A record outside the buffer is fetched with those behind it, in the place of what was there.
  pub get_record_loads :
      (rs : List A) (db : Db A) (pos : ℕ) (r : Ready rs db)
      → pos < length rs
      → in_buffer db pos ≡ false
      → ((get_record db pos).1 ≡ fill db pos (min (length db.buf) (length rs - pos)))
        × (0 < min (length db.buf) (length rs - pos))
        × Coherent rs (fill db pos (min (length db.buf) (length rs - pos)))
  get_record_loads rs db pos r h b =
      let v = r.coherent in
      let (some_records, fits) = window_facts rs db pos r h in
      let size : window rs db pos v ≡ min (length db.buf) (length rs - pos) =
        unfold window in ground (arith, v.sized, v.small) in
      let n : (window rs db pos v == 0) ≡ false = ground arith in
      let f : (db.failed || ltb (length db.records) (pos + window rs db pos v)) ≡ false =
        ground (arith, r.healthy, ap (length {0}) v.same) in
      let loaded = get_record_load rs db pos v b n f in
      let whole = fill-Coherent rs db pos v fits in
      (rw loaded (rw size), rw (← size) some_records, rw size at whole)

  -- In a state in which the buffer holds what the file has there, a position at or beyond the end
  -- of the file gives an exception of the code, never a record nor a read outside the buffer.
  pub get_record_past_end :
      (rs : List A) (db : Db A) (pos : ℕ)
      → Coherent rs db
      → length rs ≤ pos
      → (e : Error) × (db' : Db A) × (get_record db pos ≡ (err e, db')) × (e ≢ undefined)
  get_record_past_end rs db pos v h = go (get_record db pos) refl (get_record-Answers rs db pos v)
    where
      go :
          (o : Result A × Db A)
          → get_record db pos ≡ o
          → Answers rs pos o
          → (e : Error) × (db' : Db A) × (get_record db pos ≡ (err e, db')) × (e ≢ undefined)
      go (ok x, db') p a = cc (sym (get_elem?-none rs pos h) ∙ a.0)
      go (err e, db') p a = (e, db', p, a.0)

  abbrev opened : List A → ℕ → A → ℕ → Db A
  opened rs buf_size blank size = record {
    records = rs;
    dbsize = size;
    failed = false;
    buf_start = 0;
    buf_end = 0;
    buf = replicate buf_size blank;
  }

  -- What a database is like before its first read.
  pub open_db_fresh :
      (record_size buf_size : ℕ) (blank : A) (f : File A)
      → 0 < record_size
      → 0 < buf_size
      → f.tail_bytes ≡ 0
      → f.readable ≡ true
      → length f.records < 2 ^ 64
      → (db : Db A) × (open_db record_size buf_size blank (some f) ≡ ok db)
        × Ready f.records db
        × (db.buf_end ≡ 0)
        × (length db.buf ≡ buf_size)
  open_db_fresh record_size buf_size blank f hs hb ht hr small =
      let whole : file_size record_size f ≡ record_size * length f.records = omega arith in
      let no_rest : file_size record_size f % record_size ≡ 0 = grind arith in
      let count : file_size record_size f / record_size ≡ length f.records =
        rw whole (mul-div_right (length f.records) hs) in
      (
        opened f.records buf_size blank (file_size record_size f / record_size),
        unfold open_db in rw (no_rest, hr),
        record {
          coherent = record {
            same = refl;
            sized = count;
            small = small;
            ordered = omega arith;
            inside = omega arith;
            held = λ i lo hi. absurd (omega arith);
          };
          healthy = refl;
          room = omega (arith, length-replicate buf_size blank);
        },
        refl,
        length-replicate buf_size blank,
      )

  -- A readable file of whole records, fewer than 2 ^ 64, opens to a database that is ready to read
  -- it, for any record size and any buffer size but zero.
  pub open_db-Ready :
      (record_size buf_size : ℕ) (blank : A) (f : File A)
      → 0 < record_size
      → 0 < buf_size
      → f.tail_bytes ≡ 0
      → f.readable ≡ true
      → length f.records < 2 ^ 64
      → (db : Db A) × (open_db record_size buf_size blank (some f) ≡ ok db) × Ready f.records db
  open_db-Ready record_size buf_size blank f hs hb ht hr small =
      let (db, opens, r, start, sized) =
        open_db_fresh record_size buf_size blank f hs hb ht hr small in
      (db, opens, r)

  -- A file with bytes behind its last whole record is refused for its size.
  pub open_db_refuses :
      (record_size buf_size : ℕ) (blank : A) (f : File A)
      → 0 < f.tail_bytes
      → f.tail_bytes < record_size
      → open_db record_size buf_size blank (some f) ≡ err size_mismatch
  unfolding open_db
  open_db_refuses record_size buf_size blank f h k =
      let rest : file_size record_size f % record_size ≡ f.tail_bytes = grind arith in
      rw rest (ground arith)
