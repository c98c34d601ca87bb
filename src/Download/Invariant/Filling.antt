-- ===== src/Download/Invariant/Filling.antt =====
-- The `requests` thread: `fill_download_queue` and `process_curl_done_msg` of src/dnl/requests.cpp.
use hibp.Common.{
  ℕ, zero, suc, ◌+◌, ◌-◌, ◌≤◌, ◌≡◌, ◌⊎◌, refl, ◌∙◌, true, false, List, [], ◌∷◌, ◌++◌, Option, none,
  some, ◌==◌, ◌&&◌, not, if◌then◌else◌, length, arith, Bool-cases, inl, inr,
}
use hibp.Download.{
  Config, Transfer, Requests, Outcome, done, thrown, Handled, handled, stopped, find_slot, without,
  update, retry, new_transfer, add_download, fill_loop, fill_download_queue, DoneMessage,
  is_success, process_curl_done_msg, process_done_msgs,
}
use Prim.{Unit, tt}
use hibp.Download.DownloadError.{no_such_slot, out_of_retries}
use hibp.Download.Counting.{
  count, between, count-append, count-update, length-update, count-without, length-without,
  find_slot-none, between_same, between_step,
}

module _ (cli : Config) where
  add_download-done :
      (index : ℕ) (slots : List Transfer)
      → count index slots ≡ 0
      → add_download index slots ≡ done (new_transfer index ∷ slots)
  unfolding add_download
  add_download-done index slots e = rw (find_slot-none index slots e) refl

  fill_loop_stop :
      (fuel : ℕ) (r : Requests)
      → (not (length r.slots == cli.parallel_max) && not (r.next_index == cli.index_limit)) ≡ false
      → fill_loop cli fuel r ≡ done r
  unfolding fill_loop
  fill_loop_stop zero r e = refl
  fill_loop_stop (suc fuel) r e = rw (fill_loop, e) refl

  fill_loop_more :
      (fuel : ℕ) (r : Requests)
      → (not (length r.slots == cli.parallel_max) && not (r.next_index == cli.index_limit)) ≡ true
      → count r.next_index r.slots ≡ 0
      → fill_loop cli (suc fuel) r
        ≡ fill_loop cli fuel
            (record { slots = new_transfer r.next_index ∷ r.slots; next_index = r.next_index + 1 })
  unfolding fill_loop
  fill_loop_more fuel r e none_there =
      rw (fill_loop, e, add_download-done r.next_index r.slots none_there) refl

  -- The slots afterwards hold the new indices besides those before.
  pub record Fills (r r' : Requests) : Type 0 where
    pub more : r.next_index ≤ r'.next_index
    pub limited : r'.next_index ≤ cli.index_limit
    pub counted :
        (i : ℕ) → count i r'.slots ≡ count i r.slots + between r.next_index r'.next_index i
    pub bounded : length r'.slots ≤ cli.parallel_max
    pub full : (length r'.slots ≡ cli.parallel_max) ⊎ (r'.next_index ≡ cli.index_limit)

  Fills-none :
      (r : Requests)
      → r.next_index ≤ cli.index_limit
      → length r.slots ≤ cli.parallel_max
      → (length r.slots ≡ cli.parallel_max) ⊎ (r.next_index ≡ cli.index_limit)
      → Fills r r
  Fills-none r limited bounded full = record {
    more = omega arith;
    limited = limited;
    counted = λ i. omega (arith, between_same r.next_index i);
    bounded = bounded;
    full = full;
  }

  fill_loop-Fills :
      (fuel : ℕ) (r : Requests)
      → ((i : ℕ) → r.next_index ≤ i → count i r.slots ≡ 0)
      → r.next_index + fuel ≡ cli.index_limit
      → length r.slots ≤ cli.parallel_max
      → (r' : Requests) × (fill_loop cli fuel r ≡ done r') × Fills r r'
  fill_loop-Fills zero r fresh e h =
      (r, unfold fill_loop in refl, Fills-none r (omega arith) h (inr (omega arith)))
  fill_loop-Fills (suc fuel) r fresh e h =
      elim (Bool-cases
        (not (length r.slots == cli.parallel_max) && not (r.next_index == cli.index_limit))) [
          | inl more ↦
              let next : Requests = record {
                slots = new_transfer r.next_index ∷ r.slots;
                next_index = r.next_index + 1;
              } in
              let (r', e', f) =
                fill_loop-Fills fuel next (λ i p. ground (arith, fresh i)) (omega arith)
                  (ground arith) in
              (
                r',
                fill_loop_more fuel r more (fresh r.next_index (omega arith)) ∙ e',
                record {
                  more = omega (arith, f.more);
                  limited = f.limited;
                  counted = λ i. omega (
                    arith,
                    f.counted i,
                    between_step r.next_index r'.next_index i (omega (arith, f.more)),
                  );
                  bounded = f.bounded;
                  full = f.full;
                },
              )
          | inr stop ↦
              (r, fill_loop_stop (suc fuel) r stop, Fills-none r (omega arith) h (ground arith))
        ]

  -- The queue is filled as far as it can be, and no index is ever found to exist already.
  pub fill_download_queue-Fills :
      (r : Requests)
      → ((i : ℕ) → r.next_index ≤ i → count i r.slots ≡ 0)
      → r.next_index ≤ cli.index_limit
      → length r.slots ≤ cli.parallel_max
      → (r' : Requests) × (fill_download_queue cli r ≡ done r') × Fills r r'
  unfolding fill_download_queue
  fill_download_queue-Fills r fresh limited h =
      fill_loop-Fills (cli.index_limit - r.next_index) r fresh (omega arith) h

-- Every index that was in a slot or in the batch still is.
abbrev pub Kept : List Transfer → List Transfer → List Transfer → List Transfer → Type 0
Kept slots msg slots' msg' =
    ((i : ℕ) → count i slots' + count i msg' ≡ count i slots + count i msg)
    × (length slots' ≤ length slots)

abbrev Keeps : List Transfer → List Transfer → Outcome (List Transfer × List Transfer) → Type 0
Keeps slots msg (thrown e) = Unit {0}
Keeps slots msg (done after) = Kept slots msg after.0 after.1

-- What a batch of messages leaves, also with an exception.
abbrev pub KeepsAll : List Transfer → List Transfer → Handled → Type 0
KeepsAll slots msg (handled slots' msg') = Kept slots msg slots' msg'
KeepsAll slots msg (stopped e slots' msg') = Kept slots msg slots' msg'

module _ (m : DoneMessage) (slots msg : List Transfer) where
  done_msg_none :
      find_slot m.index slots ≡ none → process_curl_done_msg m slots msg ≡ thrown no_such_slot
  unfolding process_curl_done_msg
  done_msg_none e = rw (process_curl_done_msg, e) refl

  done_msg_some :
      (t : Transfer)
      → find_slot m.index slots ≡ some t
      → process_curl_done_msg m slots msg ≡ (
          if is_success m
          then done (without m.index slots, msg ++ (t ∷ []))
          else if t.retries_left == 0
          then thrown out_of_retries
          else done (update m.index retry slots, msg))
  unfolding process_curl_done_msg
  done_msg_some t e = rw (process_curl_done_msg, e) refl

  process_curl_done_msg-Keeps : Keeps slots msg (process_curl_done_msg m slots msg)
  process_curl_done_msg-Keeps = go (find_slot m.index slots) refl
    where
      found :
          (t : Transfer)
          → find_slot m.index slots ≡ some t
          → Keeps slots msg (process_curl_done_msg m slots msg)
      found t e = elim (Bool-cases (is_success m)) [
        | inl ok ↦
            rw (done_msg_some t e, ok)
              (
                (λ i.
                    omega (arith, count-append i msg (t ∷ []), count-without i m.index slots t e)),
                omega (arith, length-without m.index slots t e),
              )
        | inr n ↦ elim (Bool-cases (t.retries_left == 0)) [
          | inl last ↦ rw (done_msg_some t e, n, last) tt
          | inr more ↦
              rw (done_msg_some t e, n, more)
                (
                  (λ i. omega (arith, count-update i m.index retry slots (λ u. refl))),
                  omega (arith, length-update m.index retry slots),
                )
        ]
      ]

      go :
          (o : Option Transfer)
          → find_slot m.index slots ≡ o
          → Keeps slots msg (process_curl_done_msg m slots msg)
      go none e = rw (done_msg_none e) tt
      go (some t) e = found t e

process_done_msgs_step :
    (m : DoneMessage) (ms : List DoneMessage) (slots msg : List Transfer)
    (o : Outcome (List Transfer × List Transfer))
    → process_curl_done_msg m slots msg ≡ o
    → process_done_msgs (m ∷ ms) slots msg ≡ elim o as (λ x. Handled) [
      | done after ↦ process_done_msgs ms after.0 after.1
      | thrown e ↦ stopped e slots msg
    ]
unfolding process_done_msgs
process_done_msgs_step m ms slots msg o e = rw (process_done_msgs, e) refl

Kept-trans :
    (slots msg slots' msg' : List Transfer) (o : Handled)
    → Kept slots msg slots' msg'
    → KeepsAll slots' msg' o
    → KeepsAll slots msg o
Kept-trans slots msg slots' msg' (stopped e last batch) k l =
    ((λ i. omega (arith, k.0 i, l.0 i)), omega (arith, k.1, l.1))
Kept-trans slots msg slots' msg' (handled last batch) k l =
    ((λ i. omega (arith, k.0 i, l.0 i)), omega (arith, k.1, l.1))

pub process_done_msgs-KeepsAll :
    (ms : List DoneMessage) (slots msg : List Transfer)
    → KeepsAll slots msg (process_done_msgs ms slots msg)
process_done_msgs-KeepsAll [] slots msg = unfold process_done_msgs in ((λ i. refl), omega arith)
process_done_msgs-KeepsAll (m ∷ ms) slots msg =
    go (λ slots' msg'. process_done_msgs-KeepsAll ms slots' msg')
      (process_curl_done_msg m slots msg) refl (process_curl_done_msg-Keeps m slots msg)
  where
    go :
        ((slots' msg' : List Transfer) → KeepsAll slots' msg' (process_done_msgs ms slots' msg'))
        → (o : Outcome (List Transfer × List Transfer)) → process_curl_done_msg m slots msg ≡ o
        → Keeps slots msg o
        → KeepsAll slots msg (process_done_msgs (m ∷ ms) slots msg)
    go rest (thrown e) p k =
        rw (process_done_msgs_step m ms slots msg (thrown e) p) ((λ i. refl), omega arith)
    go rest (done after) p k = rw (process_done_msgs_step m ms slots msg (done after) p) (
        Kept-trans slots msg after.0 after.1 (process_done_msgs ms after.0 after.1) k
          (rest after.0 after.1))
