-- ===== src/Resume/Trimming.antt =====
-- The search of src/dnl/resume.cpp for the place where the file is cut.
use hibp.Common.{
  ℕ, zero, suc, ◌≤◌, ◌<◌, ◌≡◌, ap, ◌∙◌, Bool, true, false, List, Option, none, some, ◌==◌, length,
  get_elem?, arith, Bool-cases, inl, inr,
}
use hibp.ArrCmp.{Isa, Endian}
use hibp.Hibp.{PawnedPw}
use hibp.Hibp.Order.{pw_equal}
use hibp.FlatFile.{Db, Iterator, Result, ok, err, return, when_true, when_false, deref}
use hibp.FlatFile.Reading.{Ready}
use hibp.FlatFile.Caching.{deref_fresh}
use hibp.Search.{at}
use hibp.Resume.{find_from_back}

module _ (isa : Isa) (endian : Endian) (hash_size : ℕ) (needle : PawnedPw) where
  find_from_back_here :
      (n : ℕ) (db : Db PawnedPw) {x : PawnedPw} {it : Iterator} {db' : Db PawnedPw}
      → deref (at n) db ≡ (ok (x, it), db')
      → pw_equal isa endian hash_size x needle ≡ true
      → find_from_back isa endian hash_size needle (suc n) db ≡ (ok (some n), db')
  unfolding find_from_back
  find_from_back_here n db {x} {it} {db'} e l =
      rw (find_from_back, e)
        (when_true (pw_equal isa endian hash_size x needle) (return (some n))
          (find_from_back isa endian hash_size needle n) db' l)

  find_from_back_next :
      (n : ℕ) (db : Db PawnedPw) {x : PawnedPw} {it : Iterator} {db' : Db PawnedPw}
      → deref (at n) db ≡ (ok (x, it), db')
      → pw_equal isa endian hash_size x needle ≡ false
      → find_from_back isa endian hash_size needle (suc n) db
        ≡ find_from_back isa endian hash_size needle n db'
  unfolding find_from_back
  find_from_back_next n db {x} {it} {db'} e l =
      rw (find_from_back, e)
        (when_false (pw_equal isa endian hash_size x needle) (return (some n))
          (find_from_back isa endian hash_size needle n) db' l)

  -- Whether the record at a position has the needle's hash.
  abbrev pub has_hash : Option PawnedPw → Bool
  has_hash none = false
  has_hash (some x) = pw_equal isa endian hash_size x needle

  abbrev pub LastOf : List PawnedPw → ℕ → Result (Option ℕ) × Db PawnedPw → Type 0
  LastOf rs n (err e, db) = ⊥
  LastOf rs n (ok none, db) = ((j : ℕ) → j < n → has_hash (get_elem? rs j) ≡ false) × Ready rs db
  LastOf rs n (ok (some i), db) =
      (i < n)
      × (has_hash (get_elem? rs i) ≡ true)
      × ((j : ℕ) → i < j → j < n → has_hash (get_elem? rs j) ≡ false)
      × Ready rs db

  LastOf-suc :
      (rs : List PawnedPw) (n : ℕ) (o : Result (Option ℕ) × Db PawnedPw)
      → has_hash (get_elem? rs n) ≡ false
      → LastOf rs n o
      → LastOf rs (suc n) o
  LastOf-suc rs n (err e, db) h l = l
  LastOf-suc rs n (ok none, db) h l = ((λ j p. below j p), l.1)
    where
      below : (j : ℕ) → j < suc n → has_hash (get_elem? rs j) ≡ false
      below j p = elim (Bool-cases (j == n)) [
        | inl e ↦ let same : j ≡ n = ground arith in ap (λ t. has_hash (get_elem? rs t)) same ∙ h
        | inr e ↦ l.0 j (ground arith)
      ]
  LastOf-suc rs n (ok (some i), db) h l = (omega (arith, l.0), l.1, (λ j q p. behind j q p), l.3)
    where
      behind : (j : ℕ) → i < j → j < suc n → has_hash (get_elem? rs j) ≡ false
      behind j q p = elim (Bool-cases (j == n)) [
        | inl e ↦ let same : j ≡ n = ground arith in ap (λ t. has_hash (get_elem? rs t)) same ∙ h
        | inr e ↦ l.2 j q (ground arith)
      ]

  -- In a database that is ready, the search from the back finds the last of the first n records
  -- that has the hash of the needle, or says that none has it; it throws nothing, and the database
  -- is ready again.
  pub find_from_back-LastOf :
      (rs : List PawnedPw) (n : ℕ) (db : Db PawnedPw)
      → Ready rs db
      → n ≤ length rs
      → LastOf rs n (find_from_back isa endian hash_size needle n db)
  find_from_back-LastOf rs zero db r h = unfold find_from_back in ((λ j p. absurd (omega arith)), r)
  find_from_back-LastOf rs (suc n) db r h =
      let (x, it, db', holds, read, again, r') = deref_fresh rs db n r (omega arith) in
      elim (Bool-cases (pw_equal isa endian hash_size x needle)) [
        | inl l ↦
            rw (find_from_back_here n db read l)
              (omega arith, ap has_hash holds ∙ l, (λ j q p. absurd (omega arith)), r')
        | inr l ↦ rw (find_from_back_next n db read l) (
            LastOf-suc rs n (find_from_back isa endian hash_size needle n db')
              (ap has_hash holds ∙ l) (find_from_back-LastOf rs n db' r' (omega arith)))
      ]
