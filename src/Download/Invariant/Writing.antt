-- ===== src/Download/Invariant/Writing.antt =====
-- The `queuemgt` thread: messages are taken into the process queue, and written from its top.
use hibp.Common.{
  ℕ, zero, suc, ◌+◌, ◌-◌, ◌≤◌, ◌≡◌, refl, ap, List, [], ◌∷◌, ◌++◌, map, ◌==◌, arith, Bool-cases,
  inl, inr,
}
use hibp.Download.{Transfer, write_loop}
use hibp.Download.Counting.{count, between, between_same, between_step}
use hibp.Download.Invariant.{index_of, upfrom}

upfrom_last : (start n : ℕ) → upfrom start (suc n) ≡ upfrom start n ++ ((start + n) ∷ [])
upfrom_last start zero = let same : start + 0 ≡ start = omega arith in rw same refl
upfrom_last start (suc n) =
    let sum : start + 1 + n ≡ start + suc n = omega arith in
    ap (λ (t : List ℕ). start ∷ t) (rw sum at (upfrom_last (start + 1) n))

map-append_one :
    (ts : List Transfer) (t : Transfer)
    → map index_of (ts ++ (t ∷ [])) ≡ map index_of ts ++ (t.index ∷ [])
map-append_one [] t = refl
map-append_one (u ∷ ts) t = ap (λ (x : List ℕ). u.index ∷ x) (map-append_one ts t)

-- What `write_loop` makes of a queue, an index and what was written.
pub record Writes (start : ℕ) (queue : List Transfer) (next : ℕ)
    (after : List Transfer × ℕ × List Transfer) : Type 0 where
  pub more : next ≤ after.1
  pub counted : (i : ℕ) → count i queue ≡ count i after.0 + between next after.1 i
  pub in_order : map index_of after.2 ≡ upfrom start (after.1 - start)

module _ (start : ℕ) where
  written_more :
      (t : Transfer) (next : ℕ) (written : List Transfer)
      → start ≤ next
      → t.index ≡ next
      → map index_of written ≡ upfrom start (next - start)
      → map index_of (written ++ (t ∷ [])) ≡ upfrom start (next + 1 - start)
  written_more t next written h e o =
      let count_more : next + 1 - start ≡ suc (next - start) = omega arith in
      let last : start + (next - start) ≡ next = omega arith in
      rw (map-append_one written t, o, e, count_more, upfrom_last start (next - start), last) refl

  pub write_loop-Writes :
      (queue : List Transfer) (next : ℕ) (written : List Transfer)
      → start ≤ next
      → map index_of written ≡ upfrom start (next - start)
      → Writes start queue next (write_loop queue next written)
  unfolding write_loop
  write_loop-Writes [] next written h o = record {
    more = omega arith;
    counted = λ i. omega (arith, between_same next i);
    in_order = o;
  }
  write_loop-Writes (t ∷ ts) next written h o = elim (Bool-cases (t.index == next)) [
    | inl e ↦
        let w =
          write_loop-Writes ts (next + 1) (written ++ (t ∷ [])) (omega arith)
            (written_more t next written h (ground arith) o) in
        rw e (record {
          more = omega (arith, w.more);
          counted = λ i. ground (
            arith,
            w.counted i,
            w.more,
            between_step next (write_loop ts (next + 1) (written ++ (t ∷ []))).1 i,
          );
          in_order = w.in_order;
        })
    | inr e ↦ rw e (record {
      more = omega arith;
      counted = λ i. omega (arith, between_same next i);
      in_order = o;
    })
  ]
