-- ===== src/Diff/Steps.antt =====
-- The reads of src/diffutils.cpp in databases that are in their buffers as a whole.
use hibp.Common.{
  ℕ, zero, suc, ◌+◌, ◌^◌, ◌<◌, ◌≡◌, inl, refl, sym, ap, ◌∙◌, List, [], ◌∷◌, ◌++◌, append-nil,
  append_assoc, none, some, length, get_elem?, get_elem?-some, drop, drop-get_elem?, arith,
}
use Prim.{tt}
use hibp.Hibp.{PawnedPw}
use hibp.FlatFile.{Db, Iterator, advance, add64, ok}
use hibp.Search.{at}
use hibp.Diff.{Hunk, DiffState, insert, on_old, on_new, deref_old, deref_new, insert_rest}
use hibp.Diff.Patch.{hunk, inserts}
use hibp.Diff.Whole.{Loaded, Points, known, deref-Points}

abbrev pub state : Db PawnedPw → Db PawnedPw → List Hunk → DiffState
state old new diff = record { old = old; new = new; diff = diff }

abbrev pub from : List PawnedPw → ℕ → List PawnedPw
from rs pos = drop pos rs

pub drop-length : (rs : List PawnedPw) → drop (length rs) rs ≡ []
drop-length [] = refl
drop-length (x ∷ rs) = drop-length rs

pub next_of :
    (pos : ℕ) (it : Iterator) → it.pos ≡ pos → pos + 1 < 2 ^ 64 → advance it 1 ≡ at (pos + 1)
next_of pos it e h =
    let step : add64 it.pos 1 ≡ pos + 1 = omega arith in
    ap (λ k. record { pos = k; cur = none }) step

module _ (olds news : List PawnedPw) where
  pub deref_old_lem :
      (i : Iterator) (old new : Db PawnedPw) (diff : List Hunk) (x : PawnedPw)
      → Points olds i old
      → i.pos < length olds
      → get_elem? olds i.pos ≡ some x
      → (old' : Db PawnedPw) × (deref_old i (state old new diff)
          ≡ (ok (x, known i.pos), state old' new diff))
        × Loaded olds old'
  unfolding deref_old
  deref_old_lem i old new diff x p h e =
      let (old', read, l) = deref-Points olds i old x p h e in
      (old', ap (on_old (state old new diff)) read, l)

  pub deref_new_lem :
      (j : Iterator) (old new : Db PawnedPw) (diff : List Hunk) (y : PawnedPw)
      → Points news j new
      → j.pos < length news
      → get_elem? news j.pos ≡ some y
      → (new' : Db PawnedPw) × (deref_new j (state old new diff)
          ≡ (ok (y, known j.pos), state old new' diff))
        × Loaded news new'
  unfolding deref_new
  deref_new_lem j old new diff y p h e =
      let (new', read, l) = deref-Points news j new y p h e in
      (new', ap (on_new (state old new diff)) read, l)

  insert_rest_step :
      (n pos : ℕ) (j j' : Iterator) (old new new' : Db PawnedPw) (diff : List Hunk) (y : PawnedPw)
      → deref_new j (state old new diff) ≡ (ok (y, j'), state old new' diff)
      → insert_rest (suc n) pos j (state old new diff)
        ≡ insert_rest n pos (advance j' 1) (state old new' (diff ++ (hunk insert pos y ∷ [])))
  unfolding insert_rest
  insert_rest_step n pos j j' old new new' diff y e = rw (insert_rest, e) refl

  insert_rest_none :
      (pos : ℕ) (j : Iterator) (s : DiffState) → insert_rest zero pos j s ≡ (ok tt, s)
  unfolding insert_rest
  insert_rest_none pos j s = refl

  pub insert_rest-inserts :
      (n pos : ℕ) (j : Iterator) (old new : Db PawnedPw) (diff : List Hunk)
      → Points news j new
      → length news < 2 ^ 64
      → j.pos + n ≡ length news
      → (new' : Db PawnedPw) × (insert_rest n pos j (state old new diff)
          ≡ (ok tt, state old new' (diff ++ inserts pos (from news j.pos))))
  insert_rest-inserts zero pos j old new diff p small h =
      let ended : j.pos ≡ length news = omega arith in
      let nothing : from news j.pos ≡ [] = ap (from news) ended ∙ drop-length news in
      (
        new,
        insert_rest_none pos j (state old new diff)
            ∙ ap (λ t. (ok tt, state old new t))
                (sym (append-nil diff) ∙ ap (λ t. diff ++ inserts pos t) (sym nothing)),
      )
  insert_rest-inserts (suc n) pos j old new diff p small h =
      let (y, e) = get_elem?-some news j.pos (omega arith) in
      let (new', read, l) = deref_new_lem j old new diff y p (omega arith) e in
      let further = diff ++ (hunk insert pos y ∷ []) in
      let (new'', rest) =
        insert_rest-inserts n pos (at (j.pos + 1)) old new' further (inl (l, inl refl)) small
          (omega arith) in
      (
        new'',
        insert_rest_step n pos j (known j.pos) old new new' diff y read
            ∙ ap (λ it. insert_rest n pos it (state old new' further))
                (next_of j.pos (known j.pos) refl (omega arith))
            ∙ rest
            ∙ ap (λ t. (ok tt, state old new'' t))
                (append_assoc diff (hunk insert pos y ∷ []) (inserts pos (from news (j.pos + 1)))
                  ∙ ap (λ t. diff ++ inserts pos t) (sym (drop-get_elem? news j.pos y e))),
      )
