-- ===== src/Toc/Stored.antt =====
-- The file beside the database: `save`, `load` and `toc_build` of src/toc.cpp.
use hibp.Common.{
  ℕ, zero, suc, ◌+◌, ◌*◌, ◌/◌, ◌%◌, ◌^◌, ◌<◌, ◌≡◌, refl, ap, ◌∙◌, false, List, [], ◌∷◌, ◌++◌,
  Option, none, some, length, length-append, take-append, drop-append, arith, All, leb,
}
use native.Mathlib.Nat.{pow-suc, div-lt_iff_lt-mul}
use hibp.ArrCmp.{Endian, load, load_le, load_be}
use hibp.ArrCmp.Endian.{little, big}
use hibp.Hibp.{PawnedPw}
use hibp.Hibp.Order.{load_be-append}
use hibp.FlatFile.{File, ok}
use hibp.Toc.{store_le, store_be, store, save, load_entries, load_toc, toc_build, build, TocFile}

length-store_le : (n x : ℕ) → length (store_le n x) ≡ n
unfolding store_le
length-store_le zero x = refl
length-store_le (suc n) x = omega (arith, length-store_le n (x / 256))

length-store_be : (n x : ℕ) → length (store_be n x) ≡ n
unfolding store_be
length-store_be zero x = refl
length-store_be (suc n) x =
    omega (arith, length-store_be n (x / 256), length-append (store_be n (x / 256)) (x % 256 ∷ []))

rest-lt : (n x : ℕ) → x < 256 ^ suc n → x / 256 < 256 ^ n
rest-lt n x h = (div-lt_iff_lt-mul {k = 256} (omega arith)).1 (omega (arith, h, pow-suc 256 n))

load_le-store_le : (n x : ℕ) → x < 256 ^ n → load_le (store_le n x) ≡ x
unfolding store_le load_le
load_le-store_le zero x h = omega arith
load_le-store_le (suc n) x h = omega (arith, load_le-store_le n (x / 256) (rest-lt n x h))

load_be_one : (xs : List ℕ) (b : ℕ) → load_be (xs ++ (b ∷ [])) ≡ load_be xs * 256 + b
load_be_one xs b = load_be-append xs (b ∷ []) ∙ unfold load_be in omega arith

load_be-store_be : (n x : ℕ) → x < 256 ^ n → load_be (store_be n x) ≡ x
unfolding store_be
load_be-store_be zero x h = unfold load_be in omega arith
load_be-store_be (suc n) x h = omega (
  arith,
  load_be_one (store_be n (x / 256)) (x % 256),
  load_be-store_be n (x / 256) (rest-lt n x h),
)

length-store : (endian : Endian) (n x : ℕ) → length (store endian n x) ≡ n
unfolding store
length-store little n x = length-store_le n x
length-store big n x = length-store_be n x

load-store : (endian : Endian) (n x : ℕ) → x < 256 ^ n → load endian (store endian n x) ≡ x
unfolding store load
load-store little n x h = load_le-store_le n x h
load-store big n x h = load_be-store_be n x h

load_entries-save :
    (endian : Endian) (table : List ℕ)
    → All (λ x. x < 2 ^ 32) table
    → load_entries endian (length table) (save endian table) ≡ table
unfolding load_entries save
load_entries-save endian [] all = refl
load_entries-save endian (x ∷ table) all = rw (
  take-append (store endian 4 x) (save endian table) 4 (length-store endian 4 x),
  drop-append (store endian 4 x) (save endian table) 4 (length-store endian 4 x),
  load-store endian 4 x all.0,
  load_entries-save endian table all.1,
)

length-save : (endian : Endian) (table : List ℕ) → length (save endian table) ≡ 4 * length table
unfolding save
length-save endian [] = refl
length-save endian (x ∷ table) = omega (
  arith,
  length-append (store endian 4 x) (save endian table),
  length-store endian 4 x,
  length-save endian table,
)

-- On either kind of machine, a saved table of entries of 32 bits is loaded as it was.
pub load_toc-save :
    (endian : Endian) (table : List ℕ)
    → All (λ x. x < 2 ^ 32) table
    → load_toc endian (save endian table) ≡ table
unfolding load_toc
load_toc-save endian table all =
    let count : length (save endian table) / 4 ≡ length table =
      omega (arith, length-save endian table) in
    rw (load_toc, count) (load_entries-save endian table all)

module _ (endian : Endian) (bits record_size : ℕ) (blank : PawnedPw) (file : Option (File PawnedPw))
    (db_time now : ℕ) where
  toc_build_new :
      {table : List ℕ}
      → build endian bits record_size blank file ≡ ok table
      → toc_build endian bits record_size blank file db_time now none
        ≡ (ok table, some (record { time = now; bytes = save endian table }))
  unfolding toc_build
  toc_build_new e = rw (toc_build, e) refl

  toc_build_load :
      (toc_file : TocFile)
      → leb toc_file.time db_time ≡ false
      → toc_build endian bits record_size blank file db_time now (some toc_file)
        ≡ (ok (load_toc endian toc_file.bytes), some toc_file)
  unfolding toc_build
  toc_build_load toc_file e = rw (toc_build, e) refl

-- Once a table of entries of 32 bits is built and saved, after the database was last written,
-- `toc_build` gives the same table at any later time, from the file.
pub toc_build-reuses :
    (endian : Endian) (bits record_size : ℕ) (blank : PawnedPw) (file : Option (File PawnedPw))
    (db_time now : ℕ) (table : List ℕ)
    → build endian bits record_size blank file ≡ ok table
    → All (λ x. x < 2 ^ 32) table
    → db_time < now
    → (toc_file : TocFile) × (toc_build endian bits record_size blank file db_time now none
        ≡ (ok table, some toc_file))
      × ((later : ℕ)
          → toc_build endian bits record_size blank file db_time later (some toc_file)
            ≡ (ok table, some toc_file))
toc_build-reuses endian bits record_size blank file db_time now table e all h = (
  record { time = now; bytes = save endian table },
  toc_build_new endian bits record_size blank file db_time now e,
  λ later.
      toc_build_load endian bits record_size blank file db_time later
        (record { time = now; bytes = save endian table }) (ground arith)
      ∙ ap (λ (t : List ℕ). (ok t, some (record { time = now; bytes = save endian table })))
          (load_toc-save endian table all),
)
