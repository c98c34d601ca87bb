-- ===== src/FlatFile.antt =====
-- include/flat_file.hpp: the buffered writer, and the database with its one read buffer and its
-- iterators. A file is its records and the number of bytes behind the last whole one.
pub mod Writing
pub mod Reading
pub mod Caching
use hibp.Common.{
  ◌≡◌, refl, ℕ, zero, suc, ◌+◌, ◌-◌, ◌*◌, ◌/◌, ◌%◌, ◌^◌, min, Bool, true, false, List, [], ◌∷◌,
  ◌++◌, Option, none, some, ltb, leb, ◌==◌, ◌&&◌, ◌||◌, not, if◌then◌else◌, length, take, drop, set,
  get_elem?, replicate,
}

-- `std::size_t` arithmetic.
abbrev pub add64 : ℕ → ℕ → ℕ
add64 a b = (a + b) % 2 ^ 64

abbrev pub sub64 : ℕ → ℕ → ℕ
sub64 a b = (a + 2 ^ 64 - b) % 2 ^ 64

-- The exceptions; `undefined` is no exception, but a read outside a buffer.
pub data Error : Type 0 where
  no_such_file size_mismatch cannot_open end_of_db stream_failed undefined : Error
  value_type_too_small new_was_shorter deletion_from_old replacement_implies_deletion : Error
  missing_prefix : ℕ → Error

pub data Result {ℓ} (A : Type ℓ) : Type ℓ where
  ok : A → Result A
  err : Error → Result A

-- Code that reads and changes a state, and may throw; what it has changed by then stays.
abbrev pub M : Type 0 → Type 0 → Type 0
M S A = S → Result A × S

module _ {S A B : Type 0} where
  abbrev pub and_then : Result A × S → (A → M S B) → Result B × S
  and_then (ok a, s) f = f a s
  and_then (err e, s) f = (err e, s)

  infixl 5 ◌>>=◌
  abbrev pub ◌>>=◌ : M S A → (A → M S B) → M S B
  ◌>>=◌ m f s = and_then (m s) f

abbrev pub return : {S A : Type 0} → A → M S A
return a s = (ok a, s)

abbrev pub or_undefined {ℓ} : {A : Type ℓ} → Option A → Result A
or_undefined none = err undefined
or_undefined (some a) = ok a

module _ {S A : Type 0} where
  -- The branch of code that tests `b`.
  pub when_true :
      (b : Bool) (f g : M S A) (s : S)
      → b ≡ true
      → (elim b as (λ (x : Bool). M S A) [ true ↦ f | false ↦ g ]) s ≡ f s
  when_true true f g s e = refl
  when_true false f g s e = cc

  pub when_false :
      (b : Bool) (f g : M S A) (s : S)
      → b ≡ false
      → (elim b as (λ (x : Bool). M S A) [ true ↦ f | false ↦ g ]) s ≡ g s
  when_false true f g s e = cc
  when_false false f g s e = refl

-- `stream_writer`: what the stream has, and the buffer, of which `buf_pos` records are in use.
pub record Writer (A : Type 0) : Type 0 where
  pub out : List A
  pub buf_pos : ℕ
  pub buf : List A

module _ {A : Type 0} where
  -- The constructor, on a stream that holds `out`; the vector's elements are `blank`.
  unfoldable pub new_writer : List A → ℕ → A → Writer A
  new_writer out buf_size blank = record { out = out; buf_pos = 0; buf = replicate buf_size blank }

  unfoldable pub flush : Writer A → Writer A
  flush w =
      if w.buf_pos == 0 then w else record w { out = w.out ++ take w.buf_pos w.buf; buf_pos = 0 }

  abbrev pub store : Writer A → A → Writer A
  store w value = record w { buf = set w.buf w.buf_pos value; buf_pos = w.buf_pos + 1 }

  unfoldable pub write : Writer A → A → Writer A
  unfolding flush
  write w value = store (if w.buf_pos == length w.buf then flush w else w) value

  unfoldable pub write_all : Writer A → List A → Writer A
  unfolding write
  write_all w [] = w
  write_all w (x ∷ xs) = write_all (write w x) xs

  -- The destructor flushes: what the stream has in the end.
  unfoldable pub close : Writer A → List A
  unfolding flush
  close w = (flush w).out

pub record File (A : Type 0) : Type 0 where
  pub records : List A
  pub tail_bytes : ℕ
  pub readable : Bool

-- `database`, with the state of its stream.
pub record Db (A : Type 0) : Type 0 where
  pub records : List A
  pub dbsize : ℕ
  pub failed : Bool
  pub buf_start : ℕ
  pub buf_end : ℕ
  pub buf : List A

-- `const_iterator`: `cur` is where in the buffer the record was found, if that is known.
pub record Iterator : Type 0 where
  pub pos : ℕ
  pub cur : Option ℕ

abbrev pub begin : Iterator
begin = record { pos = 0; cur = none }

-- `+=` and `-=`: the record that was found is forgotten.
abbrev pub advance : Iterator → ℕ → Iterator
advance it offset = record { pos = add64 it.pos offset; cur = none }

abbrev pub retreat : Iterator → ℕ → Iterator
retreat it offset = record { pos = sub64 it.pos offset; cur = none }

module _ {A : Type 0} where
  abbrev pub file_size : ℕ → File A → ℕ
  file_size record_size f = record_size * length f.records + f.tail_bytes

  -- The constructor, for records of `record_size` bytes.
  unfoldable pub open_db : ℕ → ℕ → A → Option (File A) → Result (Db A)
  open_db record_size buf_size blank none = err no_such_file
  open_db record_size buf_size blank (some f) =
      if not (file_size record_size f % record_size == 0)
      then err size_mismatch
      else if f.readable
      then ok (record {
        records = f.records;
        dbsize = file_size record_size f / record_size;
        failed = false;
        buf_start = 0;
        buf_end = 0;
        buf = replicate buf_size blank;
      })
      else err cannot_open

  abbrev pub in_buffer : Db A → ℕ → Bool
  in_buffer db pos = leb db.buf_start pos && ltb pos db.buf_end

  -- `db_.read` of `nrecs` records at `pos`.
  abbrev pub fill : Db A → ℕ → ℕ → Db A
  fill db pos nrecs = record db {
    buf = take nrecs (drop pos db.records) ++ drop nrecs db.buf;
    buf_start = pos;
    buf_end = pos + nrecs;
  }

  -- For positions whose offset in bytes, pos * sizeof(ValueType), is within the range of a stream offset, as
  -- it is for every position in a file. A read past the end of the file sets the fail bit, which makes this and all later reads throw.
  unfoldable pub get_record : Db A → ℕ → Result A × Db A
  get_record db pos =
      let nrecs = min (length db.buf) (sub64 db.dbsize pos) in
      if in_buffer db pos
      then (or_undefined (get_elem? db.buf (pos - db.buf_start)), db)
      else if nrecs == 0
      then (err end_of_db, db)
      else if db.failed || ltb (length db.records) (pos + nrecs)
      then (err stream_failed, record db { failed = true })
      else (or_undefined (get_elem? (fill db pos nrecs).buf (pos - pos)), fill db pos nrecs)

  abbrev pub end : Db A → Iterator
  end db = record { pos = db.dbsize; cur = none }

  abbrev found : Iterator → Result A × Db A → Result (A × Iterator) × Db A
  found it (ok a, db) = (ok (a, record it { cur = some (it.pos - db.buf_start) }), db)
  found it (err e, db) = (err e, db)

  abbrev kept : Iterator → Result A → Result (A × Iterator)
  kept it (ok a) = ok (a, it)
  kept it (err e) = err e

  -- `operator*`: the record, and the iterator, which now knows its place in the buffer.
  unfoldable pub deref : Iterator → M (Db A) (A × Iterator)
  unfolding get_record
  deref it db = elim it.cur [
    | some k ↦ (kept it (or_undefined (get_elem? db.buf k)), db)
    | none ↦ found it (get_record db it.pos)
  ]

  unfoldable pub back : M (Db A) A
  back db = (do (x, it) ← deref (retreat (end db) 1); return x) db
