-- ===== src/Runs/Searches.antt =====
-- A database of three records of 8 bytes, searched.
use hibp.Common.{
  ℕ, ◌≤◌, ◌<◌, ◌^◌, ◌≡◌, refl, List, [], ◌∷◌, none, some, arith, pos, true, false, replicate,
}
use Prim.{tt}
use hibp.ArrCmp.{load_be}
use hibp.ArrCmp.Isa.{avx2}
use hibp.ArrCmp.Endian.{little}
use hibp.Hibp.{PawnedPw, IsRecord}
use hibp.FlatFile.{Db, ok}
use hibp.FlatFile.Reading.{Ready}
use hibp.Search.{plain_search}
use hibp.Search.Lookup.{IsDatabase, Ascending-IsDatabase}
use hibp.Search.Plain.{plain_search-lookup}
use hibp.Toc.{build_from, toc_search, search_db, build, TocFile, toc_build}
use hibp.Toc.Lookup.{IsIndex, toc_search-lookup}
use hibp.Toc.Build.{build_from-IsIndex, search_db-build_from}
use hibp.Resume.{find_from_back}
use hibp.Resume.Trimming.{LastOf, find_from_back-LastOf}
use hibp.Toc.Stored.{toc_build-reuses}

abbrev pub password : ℕ → ℕ → PawnedPw
password first count = record { hash = first ∷ 2 ∷ 3 ∷ 4 ∷ 5 ∷ 6 ∷ 7 ∷ 8 ∷ []; count = pos count }

abbrev pub three : List PawnedPw
three = password 0 10 ∷ password 100 20 ∷ password 130 30 ∷ []

abbrev pub three_db : Db PawnedPw
three_db = record {
  records = three;
  dbsize = 3;
  failed = false;
  buf_start = 0;
  buf_end = 0;
  buf = replicate 2 (password 0 0);
}

pub password-IsRecord :
    (first count : ℕ) → first < 256 → count < 2 ^ 31 → IsRecord 8 (password first count)
password-IsRecord first count h k = record {
  sized = refl;
  bytes = (
    h,
    (
      omega arith,
      (omega arith, (omega arith, (omega arith, (omega arith, (omega arith, (omega arith, tt)))))),
    ),
  );
  counted = k;
}

pub three-IsDatabase : IsDatabase 8 three
unfolding load_be
three-IsDatabase =
    Ascending-IsDatabase 8 three
      (
        password-IsRecord 0 10 (omega arith) (omega arith),
        (
          password-IsRecord 100 20 (omega arith) (omega arith),
          (password-IsRecord 130 30 (omega arith) (omega arith), tt),
        ),
      )
      (omega arith, (omega arith, (omega arith, tt)))

pub three-Ready : Ready three three_db
three-Ready = record {
  coherent = record {
    same = refl;
    sized = refl;
    small = omega arith;
    ordered = omega arith;
    inside = omega arith;
    held = λ i lo hi. absurd (omega arith);
  };
  healthy = refl;
  room = omega arith;
}

pub four_bytes : 4 ≤ 8
four_bytes = omega arith

abbrev needle : PawnedPw
needle = password 100 0

needle-IsRecord : IsRecord 8 needle
needle-IsRecord = password-IsRecord 100 0 (omega arith) (omega arith)

abbrev pub after_build : Db PawnedPw
unfolding build_from
after_build = (build_from little 2 three_db).1

three_built : build_from little 2 three_db ≡ (ok (0 ∷ 1 ∷ 2 ∷ []), after_build)
unfolding build_from
three_built = refl

pub three-IsIndex : IsIndex 8 2 three (0 ∷ 1 ∷ 2 ∷ []) × Ready three after_build
unfolding build_from
three-IsIndex =
    build_from-IsIndex little 8 2 three three-IsDatabase four_bytes three_db three-Ready
      (omega arith) (omega arith) (omega arith)

plain_search-lookup_example :
    (db' : Db PawnedPw) × (plain_search avx2 little 8 needle three_db
      ≡ (ok (some (password 100 20)), db'))
    × Ready three db'
unfolding load_be
plain_search-lookup_example =
    plain_search-lookup avx2 little 8 needle needle-IsRecord three three-IsDatabase three_db
      three-Ready

toc_search-lookup_example :
    (db' : Db PawnedPw) × (toc_search avx2 little 8 2 (0 ∷ 1 ∷ 2 ∷ []) needle three_db
      ≡ (ok (some (password 100 20)), db'))
    × Ready three db'
unfolding load_be
toc_search-lookup_example =
    toc_search-lookup avx2 little 8 2 needle needle-IsRecord three three-IsDatabase (0 ∷ 1 ∷ 2 ∷ [])
      four_bytes three-IsIndex.0 three_db three-Ready

search_db-build_from_example :
    (db' : Db PawnedPw) × (search_db avx2 little 8 2 (0 ∷ 1 ∷ 2 ∷ []) needle true three_db
      ≡ (ok (some (password 100 20)), db'))
    × Ready three db'
unfolding load_be
search_db-build_from_example =
    search_db-build_from avx2 little 8 2 three needle three-IsDatabase needle-IsRecord four_bytes
      (omega arith) (omega arith) (omega arith) three_db three-Ready three_built true three_db
      three-Ready

build_from-IsIndex_example : IsIndex 8 2 three (0 ∷ 1 ∷ 2 ∷ []) × Ready three after_build
unfolding build_from
build_from-IsIndex_example =
    build_from-IsIndex little 8 2 three three-IsDatabase four_bytes three_db three-Ready
      (omega arith) (omega arith) (omega arith)

find_from_back-LastOf_example :
    LastOf avx2 little 8 needle three 3 (find_from_back avx2 little 8 needle 3 three_db)
find_from_back-LastOf_example =
    find_from_back-LastOf avx2 little 8 needle three 3 three_db three-Ready (omega arith)

three_file :
    build little 2 16384
      (password 0 0)
      (some (record { records = three; tail_bytes = 0; readable = true }))
    ≡ ok (0 ∷ 1 ∷ 2 ∷ [])
unfolding build
three_file = refl

toc_build-reuses_example :
    (toc_file : TocFile) × (toc_build little 2 16384
        (password 0 0)
        (some (record { records = three; tail_bytes = 0; readable = true }))
        5
        7
        none
      ≡ (ok (0 ∷ 1 ∷ 2 ∷ []), some toc_file))
    × ((later : ℕ)
        → toc_build little 2 16384
            (password 0 0)
            (some (record { records = three; tail_bytes = 0; readable = true }))
            5
            later
            (some toc_file)
          ≡ (ok (0 ∷ 1 ∷ 2 ∷ []), some toc_file))
toc_build-reuses_example =
    toc_build-reuses little 2 16384 (password 0 0)
      (some (record { records = three; tail_bytes = 0; readable = true })) 5 7 (0 ∷ 1 ∷ 2 ∷ [])
      three_file (omega arith, (omega arith, (omega arith, tt))) (omega arith)
