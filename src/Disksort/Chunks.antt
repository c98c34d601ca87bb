-- ===== src/Disksort/Chunks.antt =====
-- The chunks into which a range is sorted.
use hibp.Common.{
  ℕ, zero, suc, ◌+◌, ◌-◌, ◌*◌, ◌≤◌, ◌<◌, ◌≡◌, refl, sym, ap, ◌∙◌, Bool, min, List, [], ◌∷◌, ◌++◌,
  append_assoc, append-nil, length, length-take, length-drop, take, drop, take-append-drop, All,
  All-take, All-drop, arith,
}
use Prim.{tt}
use hibp.FlatFile.{Db, ok}
use hibp.FlatFile.Reading.{Ready}
use hibp.FlatFile.Writing.{close-write_all}
use hibp.Sorting.{sort, count_if, IsRanked}
use hibp.Sorting.Order.{
  count_if-append, length-sort, sort-SameElements, sort-All, Compares, sort-IsRanked,
}
use hibp.Disksort.{read_range, write_chunk, sort_chunks}
use hibp.Disksort.Reading.{read_range-take}
use hibp.Disksort.Reference.{count_all}

module _ {A : Type 0} where
  take_bounded : (n : ℕ) (xs : List A) → take (min n (length xs)) xs ≡ take n xs
  take_bounded zero xs = let e : min 0 (length xs) ≡ 0 = omega arith in rw e refl
  take_bounded (suc n) [] = let e : min (suc n) 0 ≡ 0 = omega arith in rw e refl
  take_bounded (suc n) (x ∷ xs) =
      let e : min (suc n) (suc (length xs)) ≡ suc (min n (length xs)) = omega arith in
      rw e (ap (◌∷◌ x) (take_bounded n xs))

  drop-drop : (m n : ℕ) (xs : List A) → drop m (drop n xs) ≡ drop (n + m) xs
  drop-drop m zero xs = let e : 0 + m ≡ m = omega arith in rw e refl
  drop-drop zero (suc n) [] = let e : suc n + 0 ≡ suc n = omega arith in rw e refl
  drop-drop (suc m) (suc n) [] = let e : suc n + suc m ≡ suc (n + suc m) = omega arith in rw e refl
  drop-drop m (suc n) (x ∷ xs) =
      let e : suc n + m ≡ suc (n + m) = omega arith in rw e (drop-drop m n xs)

module _ {A : Type 0} (less : A → A → Bool) (chunk_size : ℕ) where
  -- The sorted chunks of a list.
  abbrev pub chunks_of : ℕ → List A → List (List A)
  chunks_of zero xs = []
  chunks_of (suc n) xs = sort less (take chunk_size xs) ∷ chunks_of n (drop chunk_size xs)

  pub chunks_of-count :
      (p : A → Bool) (n : ℕ) (xs : List A)
      → length xs ≤ n * chunk_size
      → count_all p (chunks_of n xs) ≡ count_if p xs
  chunks_of-count p zero [] h = refl
  chunks_of-count p zero (x ∷ xs) h = absurd (omega arith)
  chunks_of-count p (suc n) xs h =
      let whole =
        ap (count_if p) (sym (take-append-drop chunk_size xs))
        ∙ count_if-append p (take chunk_size xs) (drop chunk_size xs) in
      omega (
        arith,
        whole,
        sort-SameElements less (take chunk_size xs) p,
        chunks_of-count p n (drop chunk_size xs) (omega (arith, length-drop chunk_size xs)),
      )

  pub chunks_of-sizes :
      (bound n : ℕ) (xs : List A)
      → 0 < chunk_size
      → n * chunk_size < length xs + chunk_size
      → length xs < bound
      → All (λ file. 0 < length file) (chunks_of n xs)
        × All (λ file. length file < bound) (chunks_of n xs)
  chunks_of-sizes bound zero xs h filled small = (tt, tt)
  chunks_of-sizes bound (suc n) xs h filled small =
      let sized = length-sort less (take chunk_size xs) ∙ length-take chunk_size xs in
      let left = length-drop chunk_size xs in
      let (rest, rest') =
        chunks_of-sizes bound n (drop chunk_size xs) h (omega (arith, left))
          (omega (arith, left)) in
      ((omega (arith, sized), rest), (omega (arith, sized), rest'))

  pub chunks_of-All :
      (P : A → Type 0) (n : ℕ) (xs : List A) → All P xs → All (All P) (chunks_of n xs)
  chunks_of-All P zero xs h = tt
  chunks_of-All P (suc n) xs h = (
    sort-All less P (take chunk_size xs) (All-take P chunk_size xs h),
    chunks_of-All P n (drop chunk_size xs) (All-drop P chunk_size xs h),
  )

  pub chunks_of-IsRanked :
      (P : A → Type 0) (rank : A → ℕ) (n : ℕ) (xs : List A)
      → Compares P rank less
      → All P xs
      → All (IsRanked rank) (chunks_of n xs)
  chunks_of-IsRanked P rank zero xs c h = tt
  chunks_of-IsRanked P rank (suc n) xs c h = (
    sort-IsRanked P rank less c (take chunk_size xs) (All-take P chunk_size xs h),
    chunks_of-IsRanked P rank n (drop chunk_size xs) c (All-drop P chunk_size xs h),
  )

  module _ (record_size : ℕ) (blank : A) where
    write_chunk-sort : (objs : List A) → write_chunk less record_size blank objs ≡ sort less objs
    unfolding write_chunk
    write_chunk-sort objs = close-write_all [] (sort less objs) 1000 blank (omega arith)

    sort_chunks_step :
        (first records_to_sort n chunk : ℕ) (files : List (List A)) (db : Db A) {objs : List A}
        {db' : Db A}
        → read_range
            (min chunk_size (records_to_sort - chunk * chunk_size))
            (first + chunk * chunk_size)
            []
            db
          ≡ (ok objs, db')
        → sort_chunks less record_size blank first records_to_sort chunk_size (suc n) chunk files db
          ≡ sort_chunks less record_size blank first records_to_sort chunk_size n
              (chunk + 1)
              (files ++ (write_chunk less record_size blank objs ∷ []))
              db'
    unfolding sort_chunks
    sort_chunks_step first records_to_sort n chunk files db e = rw (sort_chunks, e) refl

    sort_chunks_none :
        (first records_to_sort chunk : ℕ) (files : List (List A)) (db : Db A)
        → sort_chunks less record_size blank first records_to_sort chunk_size zero chunk files db
          ≡ (ok files, db)
    unfolding sort_chunks
    sort_chunks_none first records_to_sort chunk files db = refl

    -- The chunk files of a whole database that is ready.
    pub sort_chunks-chunks_of :
        (rs : List A) (n chunk : ℕ) (files : List (List A)) (db : Db A)
        → Ready rs db
        → 0 < chunk_size
        → chunk * chunk_size + n * chunk_size < length rs + chunk_size
        → (db' : Db A) × (sort_chunks less record_size blank 0
              (length rs)
              chunk_size
              n
              chunk
              files
              db
            ≡ (ok (files ++ chunks_of n (drop (chunk * chunk_size) rs)), db'))
          × Ready rs db'
    sort_chunks-chunks_of rs zero chunk files db r h k = (
      db,
      sort_chunks_none 0 (length rs) chunk files db ∙ ap (λ t. (ok t, db)) (sym (append-nil files)),
      r,
    )
    sort_chunks-chunks_of rs (suc n) chunk files db r h k =
        let start = chunk * chunk_size in
        let next : (chunk + 1) * chunk_size ≡ start + chunk_size = omega arith in
        let origin : 0 + start ≡ start = omega arith in
        let (db', read, r') =
          read_range-take rs (min chunk_size (length rs - start)) (0 + start) [] db r
            (omega arith) in
        let (db'', rest, r'') =
          sort_chunks-chunks_of rs n (chunk + 1)
            (files ++ (sort less (take chunk_size (drop start rs)) ∷ [])) db' r' h (omega arith) in
        let objs : take (min chunk_size (length rs - start)) (drop (0 + start) rs)
            ≡ take chunk_size (drop start rs) =
          rw (origin, ← length-drop start rs) (take_bounded chunk_size (drop start rs)) in
        let rest_of : drop ((chunk + 1) * chunk_size) rs ≡ drop chunk_size (drop start rs) =
          rw next (sym (drop-drop chunk_size start rs)) in
        (
          db'',
          sort_chunks_step 0 (length rs) n chunk files db read
              ∙ ap
                  (λ t.
                    sort_chunks less record_size blank 0 (length rs) chunk_size n (chunk + 1)
                      (files ++ (t ∷ [])) db')
                  (write_chunk-sort _ ∙ ap (sort less) objs)
              ∙ rest
              ∙ ap (λ t. (ok t, db''))
                  (append_assoc files (sort less (take chunk_size (drop start rs)) ∷ [])
                      (chunks_of n (drop ((chunk + 1) * chunk_size) rs))
                    ∙ ap (λ t. files ++ sort less (take chunk_size (drop start rs)) ∷ chunks_of n t)
                        rest_of),
          r'',
        )
