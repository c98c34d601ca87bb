-- ===== src/Loops/Taken.antt =====
-- What a loop with a limit has read.
use hibp.Common.{
  ℕ, zero, suc, ◌+◌, ◌≤◌, ◌<◌, ◌≡◌, ◌⊎◌, refl, sym, ap, ◌∙◌, Bool, true, false, List, [], ◌∷◌, ◌==◌,
  ltb, length, take, drop, drop-get_elem?, arith, Bool-cases, inl, inr,
}
use hibp.Hibp.{PawnedPw}
use hibp.FlatFile.{Db, Iterator, ok, return, when_true, when_false, deref}
use hibp.FlatFile.Reading.{Ready}
use hibp.FlatFile.Caching.{deref_fresh}
use hibp.Search.{at}
use hibp.Loops.{for_records}

take-all : (k : ℕ) (rs : List PawnedPw) → length rs ≤ k → take k rs ≡ rs
take-all zero [] h = refl
take-all zero (x ∷ rs) h = absurd (omega arith)
take-all (suc k) [] h = refl
take-all (suc k) (x ∷ rs) h = ap (◌∷◌ x) (take-all k rs (omega arith))

-- What a limit leaves of the records: 0 is no limit here.
abbrev pub kept : ℕ → List PawnedPw → List PawnedPw
kept zero rs = rs
kept (suc limit) rs = take (suc limit) rs

pub kept-all : (limit : ℕ) (rs : List PawnedPw) → length rs ≤ limit → kept limit rs ≡ rs
kept-all zero rs h = refl
kept-all (suc limit) rs h = take-all (suc limit) rs h

abbrev pub add_all : {B : Type 0} → (B → PawnedPw → B) → B → List PawnedPw → B
add_all add out [] = out
add_all add out (x ∷ rs) = add_all add (add out x) rs

module _ {B : Type 0} (add : B → PawnedPw → B) (stops : ℕ → Bool) where
  for_records_last :
      (n pos count : ℕ) (out : B) (db : Db PawnedPw) {x : PawnedPw} {it : Iterator}
      {db' : Db PawnedPw}
      → deref (at pos) db ≡ (ok (x, it), db')
      → stops (count + 1) ≡ true
      → for_records add stops (suc n) pos count out db ≡ (ok (add out x), db')
  unfolding for_records
  for_records_last n pos count out db {x} {it} {db'} e l =
      rw (for_records, e)
        (when_true (stops (count + 1)) (return (add out x))
          (for_records add stops n (pos + 1) (count + 1) (add out x)) db' l)

  for_records_more :
      (n pos count : ℕ) (out : B) (db : Db PawnedPw) {x : PawnedPw} {it : Iterator}
      {db' : Db PawnedPw}
      → deref (at pos) db ≡ (ok (x, it), db')
      → stops (count + 1) ≡ false
      → for_records add stops (suc n) pos count out db
        ≡ for_records add stops n (pos + 1) (count + 1) (add out x) db'
  unfolding for_records
  for_records_more n pos count out db {x} {it} {db'} e l =
      rw (for_records, e)
        (when_false (stops (count + 1)) (return (add out x))
          (for_records add stops n (pos + 1) (count + 1) (add out x)) db' l)

  for_records_nothing :
      (pos count : ℕ) (out : B) (db : Db PawnedPw)
      → for_records add stops 0 pos count out db ≡ (ok out, db)
  unfolding for_records
  for_records_nothing pos count out db = refl

  next_stop :
      (k n count : ℕ)
      → (suc k ≡ suc n) ⊎ (stops (count + suc k) ≡ true)
      → (k ≡ n) ⊎ (stops (count + 1 + k) ≡ true)
  next_stop k n count (inl e) = inl (omega arith)
  next_stop k n count (inr e) =
      let same : count + 1 + k ≡ count + suc k = omega arith in inr (ap stops same ∙ e)

  next_begins :
      (k n count : ℕ)
      → stops (count + 1) ≡ false
      → (k ≡ n) ⊎ (stops (count + 1 + k) ≡ true)
      → (n ≡ 0) ⊎ (0 < k)
  next_begins (suc k) n count l h = inr (omega arith)
  next_begins zero n count l (inl e) = inl (omega arith)
  next_begins zero n count l (inr e) =
      let same : count + 1 + 0 ≡ count + 1 = omega arith in
      absurd (let both = sym l ∙ sym (ap stops same) ∙ e in cc)

  next_goes :
      (k count : ℕ)
      → ((m : ℕ) → 0 < m → m < suc k → stops (count + m) ≡ false)
      → (m : ℕ) → 0 < m
      → m < k
      → stops (count + 1 + m) ≡ false
  next_goes k count goes m p q =
      let same : count + 1 + m ≡ count + (m + 1) = omega arith in
      ap stops same ∙ goes (m + 1) (omega arith) (omega arith)

  -- A loop that stops at its first record has read one.
  only_one :
      (k count : ℕ)
      → ((m : ℕ) → 0 < m → m < suc k → stops (count + m) ≡ false)
      → stops (count + 1) ≡ true
      → k ≡ 0
  only_one zero count goes l = refl
  only_one (suc k) count goes l =
      absurd (let both = sym l ∙ goes 1 (omega arith) (omega arith) in cc)

  module _ (rs : List PawnedPw) where
    -- With `k` records to read before the loop stops, or the end is there.
    for_records-take :
        (n k pos count : ℕ) (out : B) (db : Db PawnedPw)
        → Ready rs db
        → pos + n ≡ length rs
        → k ≤ n
        → (n ≡ 0) ⊎ (0 < k)
        → (k ≡ n) ⊎ (stops (count + k) ≡ true)
        → ((m : ℕ) → 0 < m → m < k → stops (count + m) ≡ false)
        → (db' : Db PawnedPw) × (for_records add stops n pos count out db
            ≡ (ok (add_all add out (take k (drop pos rs))), db'))
          × Ready rs db'
    for_records-take zero zero pos count out db r e h some_more stop goes =
        (db, for_records_nothing pos count out db, r)
    for_records-take zero (suc k) pos count out db r e h some_more stop goes = absurd (omega arith)
    for_records-take (suc n) zero pos count out db r e h some_more stop goes = absurd (ground arith)
    for_records-take (suc n) (suc k) pos count out db r e h some_more stop goes =
        let (x, it, db', holds, read, again, r') = deref_fresh rs db pos r (omega arith) in
        let here = drop-get_elem? rs pos x holds in
        elim (Bool-cases (stops (count + 1))) [
          | inl l ↦
              let only = only_one k count goes l in
              (db', for_records_last n pos count out db read l ∙ rw (here, only) refl, r')
          | inr l ↦
              let stop' = next_stop k n count stop in
              let (db'', rest, r'') =
                for_records-take n k (pos + 1) (count + 1) (add out x) db' r' (omega arith)
                  (omega arith) (next_begins k n count l stop') stop' (next_goes k count goes) in
              (db'', for_records_more n pos count out db read l ∙ rest ∙ rw here refl, r'')
        ]

    -- A loop that does not stop before the end has read all.
    for_records-all :
        (out : B) (db : Db PawnedPw)
        → Ready rs db
        → ((m : ℕ) → 0 < m → m < db.dbsize → stops m ≡ false)
        → (db' : Db PawnedPw) × (for_records add stops db.dbsize 0 0 out db
            ≡ (ok (add_all add out rs), db'))
          × Ready rs db'
    for_records-all out db r goes =
        let sized = r.coherent.sized in
        let (db', e, r') =
          for_records-take db.dbsize db.dbsize 0 0 out db r (omega arith) (omega arith)
            (ground arith) (inl refl)
            (λ m p q. let same : 0 + m ≡ m = omega arith in ap stops same ∙ goes m p q) in
        (db', e ∙ ap (λ t. (ok (add_all add out t), db')) (take-all db.dbsize rs (omega arith)), r')

    -- A loop that stops at a limit, as far as there are records, has read what the limit leaves.
    pub for_records-kept :
        (limit : ℕ) (out : B) (db : Db PawnedPw)
        → Ready rs db
        → ((c : ℕ) → c ≤ length rs → stops c ≡ (c == limit))
        → (db' : Db PawnedPw) × (for_records add stops db.dbsize 0 0 out db
            ≡ (ok (add_all add out (kept limit rs)), db'))
          × Ready rs db'
    for_records-kept zero out db r at_limit =
        let sized = r.coherent.sized in
        for_records-all out db r (λ m p q. at_limit m (omega arith) ∙ ground arith)
    for_records-kept (suc limit) out db r at_limit =
        let sized = r.coherent.sized in
        elim (Bool-cases (ltb db.dbsize (suc limit))) [
          | inl l ↦
              let (db', e, r') =
                for_records-all out db r (λ m p q. at_limit m (omega arith) ∙ ground arith) in
              (
                db',
                e
                    ∙ ap (λ t. (ok (add_all add out t), db'))
                        (sym (take-all (suc limit) rs (ground arith))),
                r',
              )
          | inr l ↦
              for_records-take db.dbsize (suc limit) 0 0 out db r (omega arith) (ground arith)
                (inr (omega arith)) (inr (at_limit (0 + suc limit) (ground arith) ∙ ground arith))
                (λ m p q. at_limit (0 + m) (ground arith) ∙ ground arith)
        ]
