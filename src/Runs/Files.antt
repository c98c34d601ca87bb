-- ===== src/Runs/Files.antt =====
-- A file of three records, read through a buffer of two.
use hibp.Common.{
  ℕ, zero, suc, ◌-◌, ◌+◌, ◌≤◌, ◌<◌, ◌≡◌, refl, List, [], ◌∷◌, some, none, get_elem?, arith, false,
}
use hibp.FlatFile.{Db, ok, deref, new_writer, write_all, close}
use hibp.FlatFile.Writing.{close-write_all}
use hibp.FlatFile.Reading.{Ready}
use hibp.FlatFile.Caching.{deref_stale}

abbrev numbers : List ℕ
numbers = 10 ∷ 20 ∷ 30 ∷ []

abbrev numbers_db : Db ℕ
numbers_db = record {
  records = numbers;
  dbsize = 3;
  failed = false;
  buf_start = 0;
  buf_end = 0;
  buf = 0 ∷ 0 ∷ [];
}

numbers-Ready : Ready numbers numbers_db
numbers-Ready = record {
  coherent = record {
    same = refl;
    sized = refl;
    small = omega arith;
    ordered = omega arith;
    inside = omega arith;
    held = λ i lo hi. absurd (omega arith);
  };
  healthy = refl;
  room = omega arith;
}

close-write_all_example :
    close (write_all (new_writer (5 ∷ []) 2 0) numbers) ≡ (5 ∷ 10 ∷ 20 ∷ 30 ∷ [])
close-write_all_example = close-write_all (5 ∷ []) numbers 2 0 (omega arith)

-- The iterator at 0 has its record at 0 in the buffer, and then another one reads at 2.
abbrev loaded : Db ℕ
loaded = record {
  records = numbers;
  dbsize = 3;
  failed = false;
  buf_start = 0;
  buf_end = 2;
  buf = 10 ∷ 20 ∷ [];
}

loaded-held : (i : ℕ) → 0 ≤ i → i < 2 → get_elem? (10 ∷ 20 ∷ []) i ≡ get_elem? numbers i
loaded-held zero lo hi = refl
loaded-held (suc zero) lo hi = refl
loaded-held (suc (suc i)) lo hi = absurd (omega arith)

loaded-Ready : Ready numbers loaded
loaded-Ready = record {
  coherent = record {
    same = refl;
    sized = refl;
    small = omega arith;
    ordered = omega arith;
    inside = omega arith;
    held = λ i lo hi. let none : i - 0 ≡ i = omega arith in rw none (loaded-held i lo hi);
  };
  healthy = refl;
  room = omega arith;
}

deref_stale_example :
    (y : ℕ) × (get_elem? numbers (2 + 0) ≡ some y)
    × ((deref
          (record { pos = 0; cur = some 0 })
          (deref (record { pos = 2; cur = none }) loaded).1).0
        ≡ ok (y, record { pos = 0; cur = some 0 }))
deref_stale_example = deref_stale numbers loaded 0 2 0 loaded-Ready refl (omega arith) (omega arith)
