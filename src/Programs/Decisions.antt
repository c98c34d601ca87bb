-- ===== src/Programs/Decisions.antt =====
-- What the programs decide.
use hibp.Common.{
  ℕ, zero, suc, ◌+◌, ◌-◌, ◌/◌, ◌^◌, ◌≤◌, ◌<◌, ◌≡◌, refl, sym, ap, ◌∙◌, true, List, [], ◌∷◌, ◌++◌,
  append_assoc, append-nil, Option, none, some, ◌==◌, if◌then◌else◌, leb, length, drop,
  drop-get_elem?, arith, Bool-cases, inl, inr,
}
use hibp.ArrCmp.{Endian, bytearray_cast}
use hibp.Hibp.{PawnedPw}
use hibp.FlatFile.{Db, Iterator, ok, deref, add64}
use hibp.FlatFile.Reading.{Ready}
use hibp.FlatFile.Caching.{deref_fresh}
use hibp.Search.{at}
use hibp.Programs.{DownloadOptions, get_start_index, find_dupes, run_dupes}

abbrev value_in : Option ℕ → ℕ
value_in none = 0
value_in (some n) = n

-- If there is something to do, the start of a download is below the limit, for a limit above 0: it is
-- 0 without `--resume`, and else the index behind the last one.
pub get_start_index-lt :
    (cli : DownloadOptions) (last_prefix start : ℕ)
    → 0 < cli.index_limit
    → get_start_index cli last_prefix ≡ some start
    → (start < cli.index_limit) × (start ≡ (if cli.resume then add64 last_prefix 1 else 0))
unfolding get_start_index
get_start_index-lt cli last_prefix start h e = elim (Bool-cases cli.resume) [
  | inl r ↦ elim (Bool-cases (leb cli.index_limit (add64 last_prefix 1))) [
    | inl l ↦ cc (rw (get_start_index, r, l) at e)
    | inr l ↦
        let same = ap value_in (rw (get_start_index, r, l) at e) in rw r (ground (arith, same))
  ]
  | inr r ↦ let same = ap value_in (rw (get_start_index, r) at e) in rw r (omega (arith, same))
]

drop-all : (i : ℕ) (rs : List PawnedPw) → length rs ≤ i → drop i rs ≡ []
drop-all zero [] h = refl
drop-all zero (x ∷ rs) h = absurd (omega arith)
drop-all (suc i) [] h = refl
drop-all (suc i) (x ∷ rs) h = drop-all i rs (omega arith)

module _ (endian : Endian) (bits : ℕ) where
  -- The first bits of a hash.
  unfoldable pub first_bits : PawnedPw → ℕ
  first_bits pw = bytearray_cast endian 8 true pw.hash / 2 ^ (64 - bits)

  -- The records whose first bits are those of the record before, or `last` at the front.
  unfoldable pub repeats : ℕ → List PawnedPw → List PawnedPw
  unfolding first_bits
  repeats last [] = []
  repeats last (pw ∷ rs) =
      let rest = repeats (first_bits pw) rs in if first_bits pw == last then pw ∷ rest else rest

  find_dupes_step :
      (n at_pos last : ℕ) (dupes : List PawnedPw) (db : Db PawnedPw) {x : PawnedPw} {it : Iterator}
      {db' : Db PawnedPw}
      → deref (at at_pos) db ≡ (ok (x, it), db')
      → find_dupes endian bits (suc n) at_pos last dupes db
        ≡ find_dupes endian bits n
            (at_pos + 1)
            (first_bits x)
            (if first_bits x == last then dupes ++ (x ∷ []) else dupes)
            db'
  unfolding find_dupes first_bits
  find_dupes_step n at_pos last dupes db e = rw (find_dupes, e) refl

  dupes_more :
      (dupes : List PawnedPw) (x : PawnedPw) (last : ℕ) (rs : List PawnedPw)
      → (if first_bits x == last then dupes ++ (x ∷ []) else dupes) ++ repeats (first_bits x) rs
        ≡ dupes ++ repeats last (x ∷ rs)
  unfolding repeats
  dupes_more dupes x last rs = elim (Bool-cases (first_bits x == last)) [
    | inl l ↦ rw (repeats, l) (append_assoc dupes (x ∷ []) (repeats (first_bits x) rs))
    | inr l ↦ rw (repeats, l) refl
  ]

  find_dupes-repeats :
      (rs : List PawnedPw) (n at_pos last : ℕ) (dupes : List PawnedPw) (db : Db PawnedPw)
      → Ready rs db
      → at_pos + n ≡ length rs
      → (db' : Db PawnedPw) × (find_dupes endian bits n at_pos last dupes db
          ≡ (ok (dupes ++ repeats last (drop at_pos rs)), db'))
        × Ready rs db'
  find_dupes-repeats rs zero at_pos last dupes db r e =
      let none_left : drop at_pos rs ≡ [] = drop-all at_pos rs (omega arith) in
      (
        db,
        rw none_left (unfold find_dupes repeats in ap (λ t. (ok t, db)) (sym (append-nil dupes))),
        r,
      )
  find_dupes-repeats rs (suc n) at_pos last dupes db r e =
      let (x, it, db', holds, read, again, r') = deref_fresh rs db at_pos r (omega arith) in
      let (db'', rest, r'') =
        find_dupes-repeats rs n (at_pos + 1) (first_bits x)
          (if first_bits x == last then dupes ++ (x ∷ []) else dupes) db' r' (omega arith) in
      (
        db'',
        find_dupes_step n at_pos last dupes db read
            ∙ rest
            ∙ rw (drop-get_elem? rs at_pos x holds)
                (ap (λ t. (ok t, db'')) (dupes_more dupes x last (drop (at_pos + 1) rs))),
        r'',
      )

  run_dupes_step :
      (db : Db PawnedPw)
      → run_dupes endian bits db ≡ find_dupes endian bits db.dbsize 0 (2 ^ 64 - 1) [] db
  unfolding run_dupes
  run_dupes_step db = refl

  -- In a database that is ready, `hibp_dupes` reports exactly the records whose first bits are those
  -- of the record before, in order, where the first record counts as following one whose first bits
  -- are the 64 bits that are all one.
  pub run_dupes-repeats :
      (rs : List PawnedPw) (db : Db PawnedPw)
      → Ready rs db
      → (db' : Db PawnedPw) × (run_dupes endian bits db ≡ (ok (repeats (2 ^ 64 - 1) rs), db'))
        × Ready rs db'
  run_dupes-repeats rs db r =
      let (db', e, r') =
        find_dupes-repeats rs db.dbsize 0 (2 ^ 64 - 1) [] db r (omega (arith, r.coherent.sized)) in
      (db', run_dupes_step db ∙ e, r')
