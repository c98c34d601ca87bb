-- ===== src/Disksort/Primed.antt =====
-- The priming of the queue, and the merge of sorted chunk files as a whole.
use hibp.Common.{
  ℕ, zero, suc, ◌+◌, ◌≤◌, ◌<◌, ◌≡◌, ◌^◌, refl, ap, ◌∙◌, Bool, true, false, List, [], ◌∷◌, some,
  ◌==◌, length, get_or, All, arith,
}
use Prim.{tt}
use hibp.FlatFile.{Db, Writer, ok, new_writer, close, open_db}
use hibp.FlatFile.Reading.{open_db-Ready}
use hibp.FlatFile.Writing.{close-write_all}
use hibp.Sorting.{count_if, IsRanked}
use hibp.Sorting.Order.{Compares}
use hibp.Disksort.{
  Chunk, Head, Merge, total, pull, prime, merge_loop, whole_file, open_chunks, merge_sorted_chunks,
}
use hibp.Disksort.Reference.{
  refill_with, refilled, merge_lists, primed, IsMerging, Before, BeforeBut, count_all,
  get_or-set_other, refill_with-count, refill_with-total, length-refill_with,
}
use hibp.Disksort.Merging.{
  refill_with-IsMerging, merge_lists-IsRanked, merge_lists-All, merge_lists-count,
}
use hibp.Disksort.Merged.{HaveLeft, pull_lem, merge_loop-merge_lists}

module _ {A : Type 0} (less : A → A → Bool) (record_size : ℕ) (blank : A) where
  prime_step :
      (n i : ℕ) (m m' : Merge A)
      → pull less record_size blank i m ≡ (ok tt, m')
      → prime less record_size blank (suc n) i m ≡ prime less record_size blank n (i + 1) m'
  unfolding prime
  prime_step n i m m' e = rw (prime, e) refl

  abbrev Filled : List (List A) → ℕ → ℕ → Type 0
  Filled rests i n = (j : ℕ) → i ≤ j → j < i + n → 0 < length (get_or rests j [])

  Filled-behind :
      (rests : List (List A)) (heads : List (Head A)) (n i : ℕ) (left : List A)
      → Filled rests i (suc n)
      → Filled (refill_with less left i rests heads).0 (i + 1) n
  Filled-behind rests heads n i [] f j h k = f j (omega arith) (omega arith)
  Filled-behind rests heads n i (x ∷ xs) f j h k =
      let other : (i == j) ≡ false = ground arith in
      rw (get_or-set_other rests i j xs other) (f j (omega arith) (omega arith))

  -- A read of a chunk that has records left is a refill.
  pull_refills :
      (i : ℕ) (m : Merge A) (rests : List (List A)) (left : List A)
      → HaveLeft m.chunks rests
      → get_or rests i [] ≡ left
      → 0 < length left
      → (chunks' : List (Chunk A)) × (pull less record_size blank i m ≡ (
        ok tt,
        record m { chunks = chunks'; heads = (refill_with less left i rests m.heads).1 },
      ))
        × HaveLeft chunks' (refill_with less left i rests m.heads).0
  pull_refills i m rests [] l e some_left = absurd (omega arith)
  pull_refills i m rests (x ∷ xs) l e some_left = pull_lem less record_size blank i m rests x xs l e

  prime-primed :
      (n i : ℕ) (chunks : List (Chunk A)) (heads : List (Head A)) (sorted : Writer A)
      (rests : List (List A))
      → HaveLeft chunks rests
      → Filled rests i n
      → (chunks' : List (Chunk A)) × (prime less record_size blank n i
            (record { chunks = chunks; heads = heads; sorted = sorted })
          ≡ (
            ok tt,
            record {
              chunks = chunks';
              heads = (primed less n i (rests, heads)).1;
              sorted = sorted;
            },
          ))
        × HaveLeft chunks' (primed less n i (rests, heads)).0
  prime-primed zero i chunks heads sorted rests l f = (chunks, unfold prime in refl, l)
  prime-primed (suc n) i chunks heads sorted rests l f =
      let m : Merge A = record { chunks = chunks; heads = heads; sorted = sorted } in
      let left = get_or rests i [] in
      let (chunks', step, l') =
        pull_refills i m rests left l refl (f i (omega arith) (omega arith)) in
      let next = refilled less i rests heads in
      let (chunks'', steps, l'') =
        prime-primed n (i + 1) chunks' next.1 sorted next.0 l'
          (Filled-behind rests heads n i left f) in
      (
        chunks'',
        prime_step n i m (record { chunks = chunks'; heads = next.1; sorted = sorted }) step
            ∙ steps,
        l'',
      )

  open_chunks_step :
      (file : List A) (files : List (List A)) {db : Db A} {chunks : List (Chunk A)}
      → open_db record_size 1000 blank (some (whole_file less record_size blank file)) ≡ ok db
      → open_chunks less record_size blank files ≡ ok chunks
      → open_chunks less record_size blank (file ∷ files)
        ≡ ok (record { db = db; current = 0 } ∷ chunks)
  unfolding open_chunks
  open_chunks_step file files opened rest = rw (opened, rest) refl

  open_chunks_lem :
      (files : List (List A))
      → 0 < record_size
      → All (λ file. length file < 2 ^ 64) files
      → (chunks : List (Chunk A)) × (open_chunks less record_size blank files ≡ ok chunks)
        × HaveLeft chunks files
        × (length chunks ≡ length files)
  open_chunks_lem [] h small = ([], unfold open_chunks in refl, tt, refl)
  open_chunks_lem (file ∷ files) h small =
      let (db, opened, r) =
        open_db-Ready record_size 1000 blank (whole_file less record_size blank file) h
          (omega arith) refl refl small.0 in
      let (chunks, rest, l, n) = open_chunks_lem files h small.1 in
      (
        record { db = db; current = 0 } ∷ chunks,
        open_chunks_step file files opened rest,
        (record { file = file; ready = r; within = omega arith; rest = refl }, l),
        ap suc n,
      )

module _ {A : Type 0} (P : A → Type 0) (rank : A → ℕ) (less : A → A → Bool)
    (compares : Compares P rank less) where
  opened-IsMerging :
      (i : ℕ) (rests : List (List A)) (heads : List (Head A))
      → IsMerging P rank (Before i) rests heads
      → IsMerging P rank (BeforeBut (i + 1) i) rests heads
  opened-IsMerging i rests heads m = record {
    heads_valid = m.heads_valid;
    heads_ranked = m.heads_ranked;
    rests_valid = m.rests_valid;
    rests_ranked = m.rests_ranked;
    bounded = m.bounded;
    covered = λ j h some_left. m.covered j (ground (arith, h.0, h.1)) some_left;
  }

  primed-IsMerging :
      (n i : ℕ) (rests : List (List A)) (heads : List (Head A))
      → IsMerging P rank (Before i) rests heads
      → IsMerging P rank
          (Before (i + n))
          (primed less n i (rests, heads)).0
          (primed less n i (rests, heads)).1
  primed-IsMerging zero i rests heads m = let e : i + 0 ≡ i = omega arith in rw e m
  primed-IsMerging (suc n) i rests heads m =
      let e : i + suc n ≡ i + 1 + n = omega arith in
      let next = refilled less i rests heads in
      rw e (
        primed-IsMerging n (i + 1) next.0 next.1 (
          refill_with-IsMerging P rank less compares (i + 1) i rests heads
            (opened-IsMerging i rests heads m) (get_or rests i []) refl))

module _ {A : Type 0} (less : A → A → Bool) where
  primed-count :
      (p : A → Bool) (n i : ℕ) (rests : List (List A)) (heads : List (Head A))
      → count_if (λ h. p h.value) (primed less n i (rests, heads)).1
          + count_all p (primed less n i (rests, heads)).0
        ≡ count_if (λ h. p h.value) heads + count_all p rests
  primed-count p zero i rests heads = refl
  primed-count p (suc n) i rests heads =
      let next = refilled less i rests heads in
      primed-count p n (i + 1) next.0 next.1
      ∙ refill_with-count less p (get_or rests i []) i rests heads refl

  primed-total :
      (n i : ℕ) (rests : List (List A)) (heads : List (Head A))
      → (count_if (λ h. true) (primed less n i (rests, heads)).1
            + total (primed less n i (rests, heads)).0
          ≡ count_if (λ h. true) heads + total rests)
        × (length (primed less n i (rests, heads)).0 ≡ length rests)
  primed-total zero i rests heads = (refl, refl)
  primed-total (suc n) i rests heads =
      let next = refilled less i rests heads in
      let (counted, long) = primed-total n (i + 1) next.0 next.1 in
      (
        counted ∙ refill_with-total less (get_or rests i []) i rests heads refl,
        long ∙ length-refill_with less (get_or rests i []) i rests heads,
      )

  merged_step :
      (record_size : ℕ) (blank : A) (files : List (List A)) (n : ℕ) {chunks : List (Chunk A)}
      {m m' : Merge A}
      → open_chunks less record_size blank files ≡ ok chunks
      → length chunks ≡ n
      → prime less record_size blank n 0
          (record { chunks = chunks; heads = []; sorted = new_writer [] 1000 blank })
        ≡ (ok tt, m)
      → merge_loop less record_size blank (total files) m.heads m ≡ (ok tt, m')
      → merge_sorted_chunks less record_size blank files ≡ ok (close m'.sorted)
  unfolding merge_sorted_chunks
  merged_step record_size blank files n opened long primes loops =
      rw opened (rw long (rw primes (rw loops refl)))

  some_at :
      (files : List (List A))
      → All (λ file. 0 < length file) files
      → (j : ℕ) → j < length files
      → 0 < length (get_or files j [])
  some_at [] h j k = absurd (omega arith)
  some_at (file ∷ files) h zero k = h.0
  some_at (file ∷ files) h (suc j) k = some_at files h.1 j (omega arith)

-- Chunk files that are sorted, hold a record each and fewer than 2 ^ 64, are merged into one file that
-- is sorted and has exactly their records.
module _ {A : Type 0} (P : A → Type 0) (rank : A → ℕ) (less : A → A → Bool)
    (compares : Compares P rank less) (record_size : ℕ) (blank : A) where
  pub merge_sorted_chunks-IsRanked :
      (files : List (List A))
      → 0 < record_size
      → All (λ file. length file < 2 ^ 64) files
      → All (λ file. 0 < length file) files
      → All (All P) files
      → All (IsRanked rank) files
      → (sorted : List A) × (merge_sorted_chunks less record_size blank files ≡ ok sorted)
        × IsRanked rank sorted
        × All P sorted
        × ((p : A → Bool) → count_if p sorted ≡ count_all p files)
  merge_sorted_chunks-IsRanked files h small filled valid ranked =
      let n = length files in
      let (chunks, opened, l, long) = open_chunks_lem less record_size blank files h small in
      let (chunks', primes, l') =
        prime-primed less record_size blank n 0 chunks [] (new_writer [] 1000 blank) files l
          (λ j i k. some_at less files filled j (omega arith)) in
      let start = primed less n 0 (files, []) in
      let (fuel, sized) = primed-total less n 0 files [] in
      let (m', loops, out) =
        merge_loop-merge_lists less record_size blank (total files) chunks' start.1
          (new_writer [] 1000 blank) start.0 l' (omega arith) in
      let m : IsMerging P rank (Before (0 + n)) start.0 start.1 =
        primed-IsMerging P rank less compares n 0 files [] (record {
          heads_valid = tt;
          heads_ranked = tt;
          rests_valid = valid;
          rests_ranked = ranked;
          bounded = tt;
          covered = λ i before some_left. absurd (omega arith);
        }) in
      (
        merge_lists less (total files) start,
        merged_step less record_size blank files n opened long primes loops
            ∙ ap (λ w. ok (close w)) out
            ∙ ap ok (
                close-write_all [] (merge_lists less (total files) start) 1000 blank (omega arith)),
        merge_lists-IsRanked P rank less compares (total files) (0 + n) start.0 start.1 m,
        merge_lists-All P rank less compares (total files) (0 + n) start.0 start.1 m,
        λ p.
            merge_lists-count P rank less compares p (total files) (0 + n) start.0 start.1
              (omega arith) m (omega arith)
            ∙ primed-count less p n 0 files []
            ∙ omega arith,
      )
