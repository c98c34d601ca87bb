-- ===== src/FlatFile/Writing.antt =====
-- What a writer leaves in the stream.
use hibp.Common.{
  ℕ, suc, ◌+◌, ◌≤◌, ◌<◌, ◌≡◌, refl, sym, ◌∙◌, List, [], ◌∷◌, ◌++◌, append-nil, append_assoc, ◌==◌,
  length, length-set, length-replicate, take, take-set, arith, Bool-cases, inl, inr,
}
use hibp.FlatFile.{Writer, new_writer, flush, write, store, write_all, close}

module _ {A : Type 0} where
  record IsWriter (buf_size : ℕ) (w : Writer A) : Type 0 where
    sized : length w.buf ≡ buf_size
    within : w.buf_pos ≤ buf_size

  -- What has been written so far, in the stream and in the buffer.
  abbrev written : Writer A → List A
  written w = w.out ++ take w.buf_pos w.buf

  flush-IsWriter :
      (n : ℕ) (w : Writer A)
      → IsWriter n w
      → IsWriter n (flush w) × (written (flush w) ≡ written w) × ((flush w).buf_pos ≡ 0)
  unfolding flush
  flush-IsWriter n w v = elim (Bool-cases (w.buf_pos == 0)) [
    | inl e ↦ rw e (v, refl, ground arith)
    | inr e ↦ rw e (record { sized = v.sized; within = omega arith }, append-nil _, refl)
  ]

  store-IsWriter :
      (n : ℕ) (w : Writer A) (x : A)
      → w.buf_pos < n
      → IsWriter n w
      → IsWriter n (store w x) × (written (store w x) ≡ written w ++ x ∷ [])
  store-IsWriter n w x h v =
      let inside : w.buf_pos < length w.buf = omega (arith, v.sized) in
      let one : w.buf_pos + 1 ≡ suc w.buf_pos = omega arith in
      (
        record { sized = length-set w.buf w.buf_pos x ∙ v.sized; within = omega arith },
        rw (one, take-set w.buf w.buf_pos x inside)
            (sym (append_assoc w.out (take w.buf_pos w.buf) (x ∷ []))),
      )

  write-IsWriter :
      (n : ℕ) (w : Writer A) (x : A)
      → 0 < n
      → IsWriter n w
      → IsWriter n (write w x) × (written (write w x) ≡ written w ++ x ∷ [])
  unfolding write
  write-IsWriter n w x h v = elim (Bool-cases (w.buf_pos == length w.buf)) [
    | inl e ↦
        let (v', same, start) = flush-IsWriter n w v in
        let (v'', more) = store-IsWriter n (flush w) x (omega (arith, start)) v' in
        rw e (v'', more ∙ rw same)
    | inr e ↦ rw e (store-IsWriter n w x (ground (arith, v.sized, v.within)) v)
  ]

  write_all-IsWriter :
      (n : ℕ) (w : Writer A) (xs : List A)
      → 0 < n
      → IsWriter n w
      → IsWriter n (write_all w xs) × (written (write_all w xs) ≡ written w ++ xs)
  unfolding write_all
  write_all-IsWriter n w [] h v = (v, sym (append-nil (written w)))
  write_all-IsWriter n w (x ∷ xs) h v =
      let (v', e) = write-IsWriter n w x h v in
      let (v'', e') = write_all-IsWriter n (write w x) xs h v' in (v'', e' ∙ rw (e, append_assoc))

  close-written : (w : Writer A) → close w ≡ written w
  unfolding close
  close-written w = elim (Bool-cases (w.buf_pos == 0)) [
    | inl e ↦
        rw (e, close)
          (let none_used : w.buf_pos ≡ 0 = ground arith in rw none_used (sym (append-nil w.out)))
    | inr e ↦ rw (e, close)
  ]

  -- With a buffer of any size but zero, a writer on a stream, given some records and then closed, has
  -- added exactly these to the stream, in order.
  pub close-write_all :
      (out xs : List A) (buf_size : ℕ) (blank : A)
      → 0 < buf_size
      → close (write_all (new_writer out buf_size blank) xs) ≡ out ++ xs
  close-write_all out xs buf_size blank h =
      let start : IsWriter buf_size (new_writer out buf_size blank) =
        unfold new_writer in
        record { sized = length-replicate buf_size blank; within = omega arith } in
      let (v, e) = write_all-IsWriter buf_size (new_writer out buf_size blank) xs h start in
      close-written _ ∙ e ∙ (unfold new_writer in rw append-nil)
