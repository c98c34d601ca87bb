-- ===== src/Search.antt =====
-- The binary search of src/srv/server.cpp and app/hibp_search.cpp: `std::lower_bound` over the
-- iterators of a database, and the test for equality behind it.
pub mod Bounds
pub mod Lookup
pub mod Plain
use hibp.Common.{
  ℕ, zero, suc, ◌+◌, ◌-◌, ◌/◌, Bool, true, false, List, Option, none, some, ◌==◌, if◌then◌else◌,
}
use hibp.ArrCmp.{Isa, Endian}
use hibp.Hibp.{PawnedPw}
use hibp.Hibp.Order.{pw_less, pw_equal}
use hibp.FlatFile.{Db, Iterator, M, return, ◌>>=◌, deref}

abbrev pub at : ℕ → Iterator
at pos = record { pos = pos; cur = none }

module _ (isa : Isa) (endian : Endian) (hash_size : ℕ) (needle : PawnedPw) where
  -- One round less than `fuel` for each halving of the range; the range's length is enough.
  pub lower_bound_loop : ℕ → ℕ → ℕ → M (Db PawnedPw) ℕ
  lower_bound_loop zero first len = return first
  lower_bound_loop (suc fuel) first len =
      let half = len / 2 in
      let mid = first + half in
      elim (len == 0) [
        | true ↦ return first
        | false ↦ do
          (x, it) ← deref (at mid)
          elim (pw_less isa endian hash_size x needle) [
            | true ↦ lower_bound_loop fuel (mid + 1) (len - half - 1)
            | false ↦ lower_bound_loop fuel first half
          ]
      ]

  -- `std::lower_bound(begin + first, begin + last, needle)`
  unfoldable pub lower_bound : ℕ → ℕ → M (Db PawnedPw) ℕ
  unfolding lower_bound_loop
  lower_bound first last = lower_bound_loop (last - first) first (last - first)

  -- `iter != db.end() && *iter == needle`, and `*iter` once more for the result.
  unfoldable pub if_equal : ℕ → M (Db PawnedPw) (Option PawnedPw)
  if_equal pos db = elim (pos == db.dbsize) [
    | true ↦ return none db
    | false ↦
        (do
          (x, it) ← deref (at pos)
          elim (pw_equal isa endian hash_size x needle) [
            | true ↦ do (y, it') ← deref it; return (some y)
            | false ↦ return none
          ])
          db
  ]

  -- The search without a table of contents.
  unfoldable pub plain_search : M (Db PawnedPw) (Option PawnedPw)
  unfolding lower_bound if_equal
  plain_search db = (do pos ← lower_bound 0 db.dbsize; if_equal pos) db
