-- ===== src/Loops.antt =====
-- The loops over a whole database that a count may end: those of app/hibp_convert.cpp and
-- app/hibp_build_filter.cpp.
pub mod Taken
use hibp.Common.{ℕ, zero, suc, ◌+◌, Bool, true, false}
use hibp.Hibp.{PawnedPw}
use hibp.FlatFile.{Db, M, return, ◌>>=◌, deref}
use hibp.Search.{at}

-- Over the `n` records from `pos`: what is made of each of them, until `stops` says so of their number.
unfoldable pub for_records :
    {B : Type 0} → (B → PawnedPw → B) → (ℕ → Bool) → ℕ → ℕ → ℕ → B → M (Db PawnedPw) B
unfolding deref
for_records add stops zero pos count out = return out
for_records add stops (suc n) pos count out = do
  (record_read, it) ← deref (at pos)
  elim (stops (count + 1)) [
    | true ↦ return (add out record_read)
    | false ↦ for_records add stops n (pos + 1) (count + 1) (add out record_read)
  ]
