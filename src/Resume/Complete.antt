-- ===== src/Resume/Complete.antt =====
-- The resume of src/dnl/resume.cpp behind a file that was written as a whole.
use hibp.Common.{
  ℕ, suc, ◌+◌, ◌-◌, ◌^◌, ◌≤◌, ◌<◌, ◌≡◌, refl, sym, ap, ◌∙◌, true, List, [], ◌∷◌, ◌++◌, Option, none,
  some, length, length-append, take, get_elem?, arith,
}
use hibp.ArrCmp.{Isa, Endian}
use hibp.Hibp.{PawnedPw, IsRecord, write_hash}
use hibp.FlatFile.{Db, File, ok, back, sub64}
use hibp.FlatFile.Reading.{Ready, open_db-Ready}
use hibp.FlatFile.Caching.{deref_fresh}
use hibp.Resume.Served.{take-to_string}
use hibp.Resume.{find_last_of, compare_file, with_last, with_db, get_last_prefix}

get_elem?-last :
    (earlier : List PawnedPw) (last : PawnedPw)
    → get_elem? (earlier ++ last ∷ []) (length (earlier ++ last ∷ []) - 1) ≡ some last
get_elem?-last [] last = refl
get_elem?-last (x ∷ earlier) last =
    let size = length-append earlier (last ∷ []) in
    let place : suc (length (earlier ++ last ∷ [])) - 1 ≡ suc (length (earlier ++ last ∷ []) - 1) =
      omega (arith, size) in
    rw place (get_elem?-last earlier last)

-- The last record of a file that has one.
back_last :
    (earlier rs : List PawnedPw) (last : PawnedPw) (db : Db PawnedPw)
    → rs ≡ earlier ++ last ∷ []
    → Ready rs db
    → (db' : Db PawnedPw) × (back db ≡ (ok last, db')) × Ready rs db'
unfolding back
back_last earlier rs last db ends r =
    let size : length rs ≡ length earlier + 1 =
      ap length ends ∙ length-append earlier (last ∷ []) in
    let (x, it, db', holds, read, again, r') =
      deref_fresh rs db (length rs - 1) r (omega (arith, size)) in
    let place : sub64 db.dbsize 1 ≡ length rs - 1 =
      omega (arith, r.coherent.sized, r.coherent.small, size) in
    let there = ap (λ t. get_elem? t (length t - 1)) ends ∙ get_elem?-last earlier last in
    let same : x ≡ last = ap (value_or x) (sym holds ∙ there) in
    (db', rw (place, read) (ap (λ t. (ok t, db')) same), r')
  where
    value_or : PawnedPw → Option PawnedPw → PawnedPw
    value_or x none = x
    value_or x (some y) = y

module _ (isa : Isa) (endian : Endian) (hash_size : ℕ) (large : 3 ≤ hash_size) where
  module _ (web : List ℕ → List ℕ) (blank : PawnedPw) where
    pub with_last_step :
        (records : List PawnedPw) (last : PawnedPw) (db : Db PawnedPw) (body : List ℕ)
        → IsRecord hash_size last
        → web (take 5 (write_hash last.hash)) ≡ body
        → with_last isa endian hash_size web records (ok last, db)
          ≡ compare_file isa endian hash_size
              (write_hash last.hash)
              body
              (find_last_of 58 body)
              records
              db
    with_last_step records last db body v served =
        unfold with_last in rw (take-to_string hash_size large last v, served) refl

    pub get_last_prefix-with_last :
        (earlier : List PawnedPw) (last : PawnedPw) (file : File PawnedPw)
        → file.records ≡ earlier ++ last ∷ []
        → file.readable ≡ true
        → length file.records < 2 ^ 64
        → (db : Db PawnedPw) × (get_last_prefix isa endian hash_size web blank file
            ≡ with_last isa endian hash_size web file.records (ok last, db))
          × Ready file.records db
    unfolding get_last_prefix with_db
    get_last_prefix-with_last earlier last file records readable small =
        let (db, opened, r) =
          open_db-Ready (hash_size + 4) 1 blank (record file { tail_bytes = 0 }) (omega arith)
            (omega arith) refl readable small in
        let (db', read, r') = back_last earlier file.records last db records r in
        (
          db',
          ap (with_db isa endian hash_size web file.records) opened
              ∙ ap (with_last isa endian hash_size web file.records) read,
          r',
        )
