-- ===== src/Download/Invariant/Steps.antt =====
-- The steps of the two threads and the invariant.
use hibp.Common.{
  ℕ, ◌+◌, ◌-◌, ◌≤◌, ◌<◌, ◌≡◌, ◌⊎◌, refl, sym, ap, ◌∙◌, true, false, List, [], ◌∷◌, ◌++◌, map, leb,
  ltb, ◌&&◌, if◌then◌else◌, length, arith, Bool-cases, inl, inr,
}
use hibp.Download.{
  Config, Transfer, Requests, Handled, handled, stopped, update, receive, DoneMessage,
  process_done_msgs, process_curl_messages, processed, batch, Queue, System, idle, run_event_loop,
  emplace_msgs, is_empty, take_messages, write_ready, write_loop, finished_downloads, Step,
  Reachable, starts, steps, data_arrives, messages_arrive, dispatch_ends, takes_messages, writes,
}
use hibp.Download.Phase.{waiting, writing, finished}
use hibp.Download.Counting.{
  count, count_msgs, count-append, between_end, between_in, between_split, between_beyond,
  count_msgs-append, count-emplace_msgs, count-update, length-update,
}
use hibp.Download.Invariant.{IsSound, queued, index_of, upfrom}
use hibp.Download.Invariant.Filling.{
  fill_download_queue-Fills, Kept, KeepsAll, process_done_msgs-KeepsAll,
}
use hibp.Download.Invariant.Writing.{Writes, write_loop-Writes}

module _ (cli : Config) (start : ℕ) where
  step_data :
      (s : System) (index : ℕ) (bytes : List ℕ)
      → s.dispatching ≡ true
      → IsSound cli start s
      → IsSound cli start (record s {
        requests = record s.requests { slots = update index (receive bytes) s.requests.slots };
      })
  step_data s index bytes e v = record {
    conserved = λ i.
        omega
          (arith, v.conserved i, count-update i index (receive bytes) s.requests.slots (λ t. refl));
    intact = v.intact;
    begun = v.begun;
    passed = v.passed;
    limited = v.limited;
    bounded = omega (arith, v.bounded, length-update index (receive bytes) s.requests.slots);
    in_order = v.in_order;
    full = λ p. rw (length-update index (receive bytes) s.requests.slots) (v.full p);
    told = v.told;
    ended = λ p. cc;
    drained = v.drained;
  }

  step_end :
      (s : System)
      → s.failed ≡ false
      → s.requests.slots ≡ []
      → IsSound cli start s
      → IsSound cli start (record s { dispatching = false; queue = finished_downloads s.queue })
  step_end s f e v = record {
    conserved = v.conserved;
    intact = v.intact;
    begun = v.begun;
    passed = v.passed;
    limited = v.limited;
    bounded = v.bounded;
    in_order = v.in_order;
    full = v.full;
    told = refl;
    ended = λ p. (e, f);
    drained = λ p. (refl, (v.drained p).1, (v.drained p).2);
  }

  empty-nil : (ts : List Transfer) → is_empty ts ≡ true → ts ≡ []
  empty-nil [] e = refl
  empty-nil (t ∷ ts) e = cc

  taken_phase :
      (q : Queue)
      → (if q.finished_dls && is_empty (emplace_msgs q.msg_queue q.process_queue)
          then finished
          else writing)
        ≡ finished
      → (q.finished_dls ≡ true) × (emplace_msgs q.msg_queue q.process_queue ≡ [])
  taken_phase q e =
      elim (Bool-cases (q.finished_dls && is_empty (emplace_msgs q.msg_queue q.process_queue))) [
        | inl h ↦
            (ground arith, empty-nil (emplace_msgs q.msg_queue q.process_queue) (ground arith))
        | inr h ↦ absurd (cc (rw h at e))
      ]

  step_take :
      (s : System)
      → s.queue.phase ≡ waiting
      → IsSound cli start s
      → IsSound cli start (record s { queue = take_messages s.queue })
  unfolding take_messages
  step_take s p v = record {
    conserved = λ i.
        omega (arith, v.conserved i, count-emplace_msgs i s.queue.msg_queue s.queue.process_queue);
    intact = v.intact;
    begun = v.begun;
    passed = v.passed;
    limited = v.limited;
    bounded = v.bounded;
    in_order = v.in_order;
    full = v.full;
    told = v.told;
    ended = v.ended;
    drained =
        λ e. let (told, empty) = taken_phase s.queue e in (ground (arith, v.told), refl, empty);
  }

  written-passed :
      (s : System)
      → IsSound cli start s
      → (after : List Transfer × ℕ × List Transfer)
      → Writes start s.queue.process_queue s.queue.next_write after
      → after.1 ≤ s.requests.next_index
  written-passed s v after w = elim (Bool-cases (leb after.1 s.requests.next_index)) [
    | inl e ↦ ground arith
    | inr e ↦ absurd (
        omega (
          arith,
          v.conserved s.requests.next_index,
          between_end s.queue.next_write s.requests.next_index,
          w.counted s.requests.next_index,
          between_in s.queue.next_write after.1 s.requests.next_index v.passed (ground arith),
        ))
  ]

  step_write :
      (s : System)
      → IsSound cli start s
      → IsSound cli start (record s { queue = write_ready s.queue })
  unfolding write_ready
  step_write s v =
      let after = write_loop s.queue.process_queue s.queue.next_write s.queue.written in
      let w =
        write_loop-Writes start s.queue.process_queue s.queue.next_write s.queue.written v.begun
          v.in_order in
      let passed = written-passed s v after w in
      record {
        conserved = λ i. omega (
          arith,
          v.conserved i,
          w.counted i,
          between_split s.queue.next_write after.1 s.requests.next_index i w.more passed,
        );
        intact = v.intact;
        begun = omega (arith, w.more, v.begun);
        passed = passed;
        limited = v.limited;
        bounded = v.bounded;
        in_order = w.in_order;
        full = v.full;
        told = v.told;
        ended = v.ended;
        drained = λ e. cc;
      }

  step_stop :
      (s : System) (slots msg : List Transfer)
      → s.dispatching ≡ true
      → IsSound cli start s
      → Kept s.requests.slots [] slots msg
      → IsSound cli start (record s {
        requests = record s.requests { slots = slots };
        failed = true;
        lost = msg ++ s.lost;
      })
  step_stop s slots msg e v k = record {
    conserved = λ i. omega (arith, v.conserved i, k.0 i, count-append i msg s.lost);
    intact = λ p. cc;
    begun = v.begun;
    passed = v.passed;
    limited = v.limited;
    bounded = omega (arith, v.bounded, k.1);
    in_order = v.in_order;
    full = λ p. cc;
    told = v.told;
    ended = λ p. cc;
    drained = v.drained;
  }

  queued-batch :
      (i : ℕ) (msg : List Transfer) (q : Queue) → queued i (batch msg q) ≡ count i msg + queued i q
  queued-batch i [] q = omega arith
  queued-batch i (t ∷ ts) q = omega (arith, count_msgs-append i q.msg_queue (t ∷ ts))

  batch_rest :
      (msg : List Transfer) (q : Queue)
      → ((batch msg q).next_write ≡ q.next_write)
        × ((batch msg q).written ≡ q.written)
        × ((batch msg q).finished_dls ≡ q.finished_dls)
        × ((batch msg q).phase ≡ q.phase)
  batch_rest [] q = (refl, refl, refl, refl)
  batch_rest (t ∷ ts) q = (refl, refl, refl, refl)

  -- The slots, filled again, and the queue with the batch.
  step_fill :
      (s : System) (after : List Transfer × List Transfer)
      → s.dispatching ≡ true
      → IsSound cli start s
      → Kept s.requests.slots [] after.0 after.1
      → IsSound cli start (processed cli (handled after.0 after.1) s)
  step_fill s after e v k =
      let before : Requests = record { slots = after.0; next_index = s.requests.next_index } in
      let same = batch_rest after.1 s.queue in
      let (r, filling, f) =
        fill_download_queue-Fills cli before
          (λ i p. omega (
            arith,
            k.0 i,
            v.conserved i,
            between_beyond s.queue.next_write s.requests.next_index i p,
          ))
          v.limited (omega (arith, k.1, v.bounded)) in
      rw filling (record {
        conserved = λ i. rw same.0 (
            omega (
              arith,
              f.counted i,
              queued-batch i after.1 s.queue,
              k.0 i,
              v.conserved i,
              between_split s.queue.next_write s.requests.next_index r.next_index i v.passed f.more,
            ));
        intact = v.intact;
        begun = rw same.0 v.begun;
        passed = rw same.0 (omega (arith, v.passed, f.more));
        limited = f.limited;
        bounded = f.bounded;
        in_order = rw (same.0, same.1) v.in_order;
        full = λ p. f.full;
        told = rw same.2 v.told;
        ended = λ p. cc;
        drained = λ p. cc (v.drained (sym same.3 ∙ p)).0;
      })

  step_messages :
      (s : System) (ms : List DoneMessage)
      → s.dispatching ≡ true
      → IsSound cli start s
      → IsSound cli start (process_curl_messages cli ms s)
  step_messages s ms e v =
      unfold process_curl_messages in
      go (process_done_msgs ms s.requests.slots [])
        (process_done_msgs-KeepsAll ms s.requests.slots [])
    where
      go : (o : Handled) → KeepsAll s.requests.slots [] o → IsSound cli start (processed cli o s)
      go (stopped x slots msg) k = step_stop s slots msg e v k
      go (handled slots msg) k = step_fill s (slots, msg) e v k

  Step-IsSound : (s s' : System) → IsSound cli start s → Step cli s s' → IsSound cli start s'
  Step-IsSound _ _ v (data_arrives s index bytes e f) = step_data s index bytes e v
  Step-IsSound _ _ v (messages_arrive s ms e f) = step_messages s ms e v
  Step-IsSound _ _ v (dispatch_ends s e f g) = step_end s f g v
  Step-IsSound _ _ v (takes_messages s e f g) = step_take s e v
  Step-IsSound _ _ v (writes s e) = step_write s v

  start-IsSound : start ≤ cli.index_limit → IsSound cli start (run_event_loop cli start)
  unfolding run_event_loop
  start-IsSound h =
      let (r, filling, f) =
        fill_download_queue-Fills cli (idle start).requests (λ i p. refl) h (omega arith) in
      let none : start - start ≡ 0 = omega arith in
      rw (run_event_loop, filling)
        (record {
          conserved = λ i. omega (arith, f.counted i);
          intact = λ p. refl;
          begun = omega arith;
          passed = f.more;
          limited = f.limited;
          bounded = f.bounded;
          in_order = rw none refl;
          full = λ p. f.full;
          told = refl;
          ended = λ p. cc;
          drained = λ p. cc;
        })

  finished-next :
      (s : System)
      → IsSound cli start s
      → s.requests.slots ≡ []
      → s.queue.msg_queue ≡ []
      → s.queue.process_queue ≡ []
      → s.lost ≡ []
      → (length s.requests.slots ≡ cli.parallel_max) ⊎ (s.requests.next_index ≡ cli.index_limit)
      → 0 < cli.parallel_max
      → s.queue.next_write ≡ cli.index_limit
  finished-next s v no_slots no_msgs no_queue no_loss (inl full) one =
      absurd (omega (arith, ap (length {0}) no_slots))
  finished-next s v no_slots no_msgs no_queue no_loss (inr all) one =
      elim (Bool-cases (ltb s.queue.next_write s.requests.next_index)) [
        | inl e ↦ absurd (
            omega (
              arith,
              v.conserved s.queue.next_write,
              ap (count s.queue.next_write) no_slots,
              ap (count_msgs s.queue.next_write) no_msgs,
              ap (count s.queue.next_write) no_queue,
              ap (count s.queue.next_write) no_loss,
              between_in s.queue.next_write s.requests.next_index s.queue.next_write (omega arith)
                  (ground arith),
            ))
        | inr e ↦ ground (arith, v.passed)
      ]

  -- Whatever the threads do, and whatever curl reports, all that they reach is sound: each index
  -- from the next one to write up to the next one to request is in exactly one slot, message or
  -- place of the process queue, or in the batch that an exception of the requests thread has
  -- destroyed, of which there is none unless a thread has failed; and all before are written, in
  -- order; there are never more slots than allowed. This is for a start that is not beyond the limit.
  pub Reachable-IsSound :
      start ≤ cli.index_limit → (s : System) → Reachable cli start s → IsSound cli start s
  Reachable-IsSound h _ starts = start-IsSound h
  Reachable-IsSound h _ (steps s s' r t) = Step-IsSound s s' (Reachable-IsSound h s r) t

  -- If the writer of a download has come to its normal end, then every index from the start to the
  -- limit has been written, once and in order, for a start that is not beyond the limit and one
  -- slot or more.
  pub finished-writes_all :
      start ≤ cli.index_limit
      → 0 < cli.parallel_max
      → (s : System) → Reachable cli start s
      → s.queue.phase ≡ finished
      → map index_of s.queue.written ≡ upfrom start (cli.index_limit - start)
  finished-writes_all h one s r e =
      let v = Reachable-IsSound h s r in
      let (over, no_msgs, no_queue) = v.drained e in
      let (no_slots, healthy) = v.ended over in
      let all =
        finished-next s v no_slots no_msgs no_queue (v.intact healthy) (v.full healthy) one in
      rw all at v.in_order
