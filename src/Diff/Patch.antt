-- ===== src/Diff/Patch.antt =====
-- The comparison of src/diffutils.cpp on lists, and what its hunks are good for.
use hibp.Common.{
  ℕ, ◌+◌, ◌%◌, ◌^◌, ◌≤◌, ◌<◌, ◌≡◌, refl, sym, ap, ◌∙◌, Bool, true, false, ◌==◌, List, [], ◌∷◌,
  if◌then◌else◌, length, All, arith, Bool-cases, inl, inr, eq_ℤ-eq,
}
use Prim.{Unit, tt}
use hibp.ArrCmp.{Isa, Endian}
use hibp.Hibp.{PawnedPw, IsRecord}
use hibp.Hibp.Order.{pw_equal, pw_equal_iff}
use hibp.FlatFile.{
  Result, ok, err, new_was_shorter, deletion_from_old, replacement_implies_deletion,
}
use hibp.Sorting.Order.{All-weaken}
use hibp.Diff.{HunkType, update, insert, Hunk, deep_equals}

abbrev pub Diffed : Type 0
Diffed = Result (Unit {0}) × List Hunk

abbrev pub hunk : HunkType → ℕ → PawnedPw → Hunk
hunk type pos pw = record { type = type; pos = pos % 2 ^ 32; pw = pw }

abbrev pub inserts : ℕ → List PawnedPw → List Hunk
inserts pos [] = []
inserts pos (b ∷ new) = hunk insert pos b ∷ inserts pos new

abbrev pub after : Hunk → Diffed → Diffed
after h d = (d.0, h ∷ d.1)

module _ (isa : Isa) (endian : Endian) (hash_size : ℕ) where
  abbrev pub first_equals : List PawnedPw → PawnedPw → Bool
  first_equals [] b = false
  first_equals (x ∷ xs) b = deep_equals isa endian hash_size x b

  abbrev pub equals_first : PawnedPw → List PawnedPw → Bool
  equals_first a [] = false
  equals_first a (y ∷ ys) = deep_equals isa endian hash_size a y

  -- From position `pos` of the old list on.
  unfoldable pub diff_lists : List PawnedPw → List PawnedPw → ℕ → Diffed
  diff_lists [] new pos = (ok tt, inserts pos new)
  diff_lists (a ∷ old) [] pos = (err new_was_shorter, [])
  diff_lists (a ∷ old) (b ∷ new) pos =
      let kept = diff_lists old new (pos + 1) in
      let inserted = after (hunk insert pos b) (diff_lists (a ∷ old) new pos) in
      let updated = after (hunk update pos b) (diff_lists old new (pos + 1)) in
      if deep_equals isa endian hash_size a b
      then kept
      else if first_equals old b
      then (err deletion_from_old, [])
      else if equals_first a new
      then inserted
      else if pw_equal isa endian hash_size a b
      then updated
      else (err replacement_implies_deletion, [])

-- What a hunk says is to be done at its position in the old database.
abbrev put : HunkType → PawnedPw → PawnedPw → List PawnedPw → List PawnedPw → List PawnedPw
put insert pw a kept rest = pw ∷ kept
put update pw a kept rest = pw ∷ rest

-- The old list from position `pos` on, with the hunks applied.
unfoldable pub patch : List PawnedPw → ℕ → List Hunk → List PawnedPw
patch [] pos [] = []
patch [] pos (h ∷ hunks) = h.pw ∷ patch [] pos hunks
patch (a ∷ old) pos [] = a ∷ old
patch (a ∷ old) pos (h ∷ hunks) =
    let skipped = a ∷ patch old (pos + 1) (h ∷ hunks) in
    let applied = put h.type h.pw a (patch (a ∷ old) pos hunks) (patch old (pos + 1) hunks) in
    if h.pos == pos then applied else skipped

abbrev pub From : ℕ → List Hunk → Type 0
From pos hunks = All (λ h. pos ≤ h.pos) hunks

patch-inserts : (pos : ℕ) (new : List PawnedPw) → patch [] pos (inserts pos new) ≡ new
unfolding patch
patch-inserts pos [] = refl
patch-inserts pos (b ∷ new) = ap (◌∷◌ b) (patch-inserts pos new)

patch_skip :
    (a : PawnedPw) (old : List PawnedPw) (pos : ℕ) (hunks : List Hunk)
    → From (pos + 1) hunks
    → patch (a ∷ old) pos hunks ≡ a ∷ patch old (pos + 1) hunks
unfolding patch
patch_skip a [] pos [] h = refl
patch_skip a (b ∷ old) pos [] h = refl
patch_skip a old pos (x ∷ hunks) h =
    let other : (x.pos == pos) ≡ false = ground (arith, h.0) in rw other refl

patch_insert :
    (a b : PawnedPw) (old : List PawnedPw) (pos : ℕ) (hunks : List Hunk)
    → pos < 2 ^ 32
    → patch (a ∷ old) pos (hunk insert pos b ∷ hunks) ≡ b ∷ patch (a ∷ old) pos hunks
unfolding patch
patch_insert a b old pos hunks h =
    let here : (pos % 2 ^ 32 == pos) ≡ true = ground arith in rw here refl

patch-update :
    (a b : PawnedPw) (old : List PawnedPw) (pos : ℕ) (hunks : List Hunk)
    → pos < 2 ^ 32
    → patch (a ∷ old) pos (hunk update pos b ∷ hunks) ≡ b ∷ patch old (pos + 1) hunks
unfolding patch
patch-update a b old pos hunks h =
    let here : (pos % 2 ^ 32 == pos) ≡ true = ground arith in rw here refl

inserts-From : (pos : ℕ) (new : List PawnedPw) → pos < 2 ^ 32 → From pos (inserts pos new)
inserts-From pos [] h = tt
inserts-From pos (b ∷ new) h = (omega arith, inserts-From pos new h)

module _ (isa : Isa) (endian : Endian) (hash_size : ℕ) where
  -- The five ways in which a pair of records is dealt with.
  pub data Round (a b : PawnedPw) (old new : List PawnedPw) (pos : ℕ) : Type 0 where
    keeps :
        deep_equals isa endian hash_size a b ≡ true
        → diff_lists isa endian hash_size (a ∷ old) (b ∷ new) pos
          ≡ diff_lists isa endian hash_size old new (pos + 1)
        → Round a b old new pos
    deletes :
        deep_equals isa endian hash_size a b ≡ false
        → first_equals isa endian hash_size old b ≡ true
        → diff_lists isa endian hash_size (a ∷ old) (b ∷ new) pos ≡ (err deletion_from_old, [])
        → Round a b old new pos
    inserts_one :
        deep_equals isa endian hash_size a b ≡ false
        → first_equals isa endian hash_size old b ≡ false
        → equals_first isa endian hash_size a new ≡ true
        → diff_lists isa endian hash_size (a ∷ old) (b ∷ new) pos
          ≡ after (hunk insert pos b) (diff_lists isa endian hash_size (a ∷ old) new pos)
        → Round a b old new pos
    updates :
        deep_equals isa endian hash_size a b ≡ false
        → first_equals isa endian hash_size old b ≡ false
        → equals_first isa endian hash_size a new ≡ false
        → pw_equal isa endian hash_size a b ≡ true
        → diff_lists isa endian hash_size (a ∷ old) (b ∷ new) pos
          ≡ after (hunk update pos b) (diff_lists isa endian hash_size old new (pos + 1))
        → Round a b old new pos
    replaces :
        deep_equals isa endian hash_size a b ≡ false
        → first_equals isa endian hash_size old b ≡ false
        → equals_first isa endian hash_size a new ≡ false
        → pw_equal isa endian hash_size a b ≡ false
        → diff_lists isa endian hash_size (a ∷ old) (b ∷ new) pos
          ≡ (err replacement_implies_deletion, [])
        → Round a b old new pos

  pub Round-of : (a b : PawnedPw) (old new : List PawnedPw) (pos : ℕ) → Round a b old new pos
  unfolding diff_lists
  Round-of a b old new pos = elim (Bool-cases (deep_equals isa endian hash_size a b)) [
    | inl same ↦ keeps same (rw (same, diff_lists) refl)
    | inr apart ↦ elim (Bool-cases (first_equals isa endian hash_size old b)) [
      | inl gone ↦ deletes apart gone (rw (apart, diff_lists) (rw gone refl))
      | inr there ↦ elim (Bool-cases (equals_first isa endian hash_size a new)) [
        | inl more ↦ inserts_one apart there more (rw (apart, diff_lists) (rw there (rw more refl)))
        | inr one ↦ elim (Bool-cases (pw_equal isa endian hash_size a b)) [
          | inl hash ↦
              updates apart there one hash
                (rw (apart, diff_lists) (rw there (rw one (rw hash refl))))
          | inr other ↦
              replaces apart there one other
                (rw (apart, diff_lists) (rw there (rw one (rw other refl))))
        ]
      ]
    ]
  ]

  deep_equals-eq :
      (a b : PawnedPw)
      → IsRecord hash_size a
      → IsRecord hash_size b
      → deep_equals isa endian hash_size a b ≡ true
      → a ≡ b
  deep_equals-eq a b va vb h =
      let hash = (pw_equal_iff isa endian hash_size a b va vb).0 (ground arith) in
      let count = eq_ℤ-eq a.count b.count (ground arith) in cc

  -- The hunks stand in the order of their positions.
  diff_lists-From :
      (old new : List PawnedPw) (pos : ℕ)
      → pos + length old < 2 ^ 32
      → From pos (diff_lists isa endian hash_size old new pos).1
  diff_lists-From [] new pos h = unfold diff_lists in inserts-From pos new (omega arith)
  diff_lists-From (a ∷ old) [] pos h = unfold diff_lists in tt
  diff_lists-From (a ∷ old) (b ∷ new) pos h =
      let further : From pos (diff_lists isa endian hash_size old new (pos + 1)).1 =
        All-weaken (diff_lists isa endian hash_size old new (pos + 1)).1
          (λ (x : Hunk) (k : pos + 1 ≤ x.pos). omega arith)
          (diff_lists-From old new (pos + 1) (omega arith)) in
      let again = diff_lists-From (a ∷ old) new pos h in
      elim (Round-of a b old new pos) [
        | keeps same e ↦ rw e further
        | deletes apart gone e ↦ rw e tt
        | inserts_one apart there more e ↦ rw e (omega arith, again)
        | updates apart there one hash e ↦ rw e (omega arith, further)
        | replaces apart there one other e ↦ rw e tt
      ]

  -- Where the comparison ends well, the old list with its hunks applied is the new one.
  pub patch-diff_lists :
      (old new : List PawnedPw) (pos : ℕ)
      → All (IsRecord hash_size) old
      → All (IsRecord hash_size) new
      → pos + length old < 2 ^ 32
      → (diff_lists isa endian hash_size old new pos).0 ≡ ok tt
      → patch old pos (diff_lists isa endian hash_size old new pos).1 ≡ new
  patch-diff_lists [] new pos ho hn h w = unfold diff_lists in patch-inserts pos new
  patch-diff_lists (a ∷ old) [] pos ho hn h w = absurd (unfold diff_lists in cc)
  patch-diff_lists (a ∷ old) (b ∷ new) pos ho hn h w =
      let next = diff_lists isa endian hash_size old new (pos + 1) in
      let again = diff_lists isa endian hash_size (a ∷ old) new pos in
      let whole = λ (d : Diffed). patch (a ∷ old) pos d.1 in
      let further = patch-diff_lists old new (pos + 1) ho.1 hn.1 (omega arith) in
      let stay = patch-diff_lists (a ∷ old) new pos ho hn.1 h in
      elim (Round-of a b old new pos) [
        | keeps same e ↦
            ap whole e
            ∙ patch_skip a old pos next.1 (diff_lists-From old new (pos + 1) (omega arith))
            ∙ ap (λ t. t ∷ patch old (pos + 1) next.1) (deep_equals-eq a b ho.0 hn.0 same)
            ∙ ap (◌∷◌ b) (further (ap (λ (d : Diffed). d.0) (sym e) ∙ w))
        | deletes apart gone e ↦ absurd (let bad = ap (λ (d : Diffed). d.0) (sym e) ∙ w in cc)
        | inserts_one apart there more e ↦
            ap whole e
            ∙ patch_insert a b old pos again.1 (omega arith)
            ∙ ap (◌∷◌ b) (stay (ap (λ (d : Diffed). d.0) (sym e) ∙ w))
        | updates apart there one hash e ↦
            ap whole e
            ∙ patch-update a b old pos next.1 (omega arith)
            ∙ ap (◌∷◌ b) (further (ap (λ (d : Diffed). d.0) (sym e) ∙ w))
        | replaces apart there one other e ↦
            absurd (let bad = ap (λ (d : Diffed). d.0) (sym e) ∙ w in cc)
      ]
