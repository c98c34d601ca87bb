-- ===== src/Download/Invariant/Draining.antt =====
-- The order of the process queue, and the end of `service_queue` of src/dnl/queuemgt.cpp.
use hibp.Common.{
  ℕ, ◌+◌, ◌≤◌, ◌<◌, ◌≡◌, refl, ap, ◌∙◌, true, false, List, [], ◌∷◌, ◌++◌, leb, ◌==◌, ◌&&◌, arith,
  Bool-cases, inl, inr,
}
use Prim.{Unit, tt}
use hibp.Download.{
  Config, Transfer, Outcome, done, thrown, Handled, handled, stopped, Requests, Queue, System,
  emplace, emplace_all, emplace_msgs, is_empty, take_messages, write_loop, write_ready, batch,
  processed, filled, fill_download_queue, process_done_msgs, process_curl_messages, idle,
  run_event_loop, Step, Reachable, starts, steps, data_arrives, messages_arrive, dispatch_ends,
  takes_messages, writes,
}
use hibp.Download.Phase.{waiting, writing, finished}
use hibp.Download.Counting.{count, between, between_step, count-emplace_msgs}
use hibp.Download.Invariant.{IsSound}
use hibp.Download.Invariant.Steps.{Reachable-IsSound}

-- In order of the indices, from `low` on.
abbrev pub Ordered : ℕ → List Transfer → Type 0
Ordered low [] = Unit {0}
Ordered low (t ∷ ts) = (low ≤ t.index) × Ordered t.index ts

emplace-Ordered :
    (low : ℕ) (t : Transfer) (q : List Transfer)
    → low ≤ t.index
    → Ordered low q
    → Ordered low (emplace t q)
emplace-Ordered low t [] h o = (h, tt)
emplace-Ordered low t (u ∷ q) h o = elim (Bool-cases (leb t.index u.index)) [
  | inl e ↦ rw e (h, (ground arith, o.1))
  | inr e ↦ rw e (o.0, emplace-Ordered u.index t q (ground arith) o.1)
]

emplace_all-Ordered : (ts q : List Transfer) → Ordered 0 q → Ordered 0 (emplace_all ts q)
emplace_all-Ordered [] q o = o
emplace_all-Ordered (t ∷ ts) q o =
    emplace_all-Ordered ts (emplace t q) (emplace-Ordered 0 t q (omega arith) o)

emplace_msgs-Ordered :
    (ms : List (List Transfer)) (q : List Transfer) → Ordered 0 q → Ordered 0 (emplace_msgs ms q)
emplace_msgs-Ordered [] q o = o
emplace_msgs-Ordered (m ∷ ms) q o =
    emplace_msgs-Ordered ms (emplace_all m q) (emplace_all-Ordered m q o)

Ordered-lower : (low low' : ℕ) (q : List Transfer) → low ≤ low' → Ordered low' q → Ordered low q
Ordered-lower low low' [] h o = tt
Ordered-lower low low' (t ∷ q) h o = (omega (arith, o.0), o.1)

write_loop-Ordered :
    (q : List Transfer) (next : ℕ) (written : List Transfer)
    → Ordered 0 q
    → Ordered 0 (write_loop q next written).0
unfolding write_loop
write_loop-Ordered [] next written o = tt
write_loop-Ordered (t ∷ ts) next written o = elim (Bool-cases (t.index == next)) [
  | inl e ↦ rw e (
      write_loop-Ordered ts (next + 1) (written ++ (t ∷ []))
        (Ordered-lower 0 t.index ts (omega arith) o.1))
  | inr e ↦ rw e o
]

none-below : (low i : ℕ) (q : List Transfer) → Ordered low q → i < low → count i q ≡ 0
none-below low i [] o h = refl
none-below low i (t ∷ q) o h = ground (arith, o.0, none-below t.index i q o.1)

-- With all the indices from the next one to `limit`, the loop writes all there is.
write_loop-all :
    (q : List Transfer) (next limit low : ℕ) (written : List Transfer)
    → Ordered low q
    → ((i : ℕ) → count i q ≡ between next limit i)
    → (write_loop q next written).0 ≡ []
unfolding write_loop
write_loop-all [] next limit low written o c = refl
write_loop-all (t ∷ ts) next limit low written o c = elim (Bool-cases (t.index == next)) [
  | inl e ↦
      let below : next < limit = ground (arith, c next) in
      rw e (
        write_loop-all ts (next + 1) limit t.index (written ++ (t ∷ [])) o.1
          (λ i. ground (arith, c i, between_step next limit i below)))
  | inr e ↦ absurd (ground (arith, c next, c t.index, none-below t.index next ts o.1))
]

module _ (cli : Config) where
  batch-process_queue :
      (msg : List Transfer) (q : Queue) → (batch msg q).process_queue ≡ q.process_queue
  batch-process_queue [] q = refl
  batch-process_queue (t ∷ ts) q = refl

  filled-process_queue :
      (o : Outcome Requests) (q : Queue) (s : System)
      → (filled o q s).queue.process_queue ≡ q.process_queue
  filled-process_queue (done r) q s = refl
  filled-process_queue (thrown e) q s = refl

  processed-process_queue :
      (o : Handled) (s : System) → (processed cli o s).queue.process_queue ≡ s.queue.process_queue
  processed-process_queue (stopped e slots msg) s = refl
  processed-process_queue (handled slots msg) s =
      filled-process_queue
        (fill_download_queue cli (record { slots = slots; next_index = s.requests.next_index }))
        (batch msg s.queue) s
      ∙ batch-process_queue msg s.queue

  messages-process_queue :
      (s : System) (ms : List _)
      → (process_curl_messages cli ms s).queue.process_queue ≡ s.queue.process_queue
  unfolding process_curl_messages
  messages-process_queue s ms = processed-process_queue (process_done_msgs ms s.requests.slots []) s

  Step-Ordered :
      (s s' : System)
      → Ordered 0 s.queue.process_queue
      → Step cli s s'
      → Ordered 0 s'.queue.process_queue
  Step-Ordered _ _ o (data_arrives s index bytes e f) = o
  Step-Ordered _ _ o (messages_arrive s ms e f) = rw (messages-process_queue s ms) o
  Step-Ordered _ _ o (dispatch_ends s e f g) = o
  Step-Ordered _ _ o (takes_messages s e f g) =
      unfold take_messages in emplace_msgs-Ordered s.queue.msg_queue s.queue.process_queue o
  Step-Ordered _ _ o (writes s e) =
      unfold write_ready in
      write_loop-Ordered s.queue.process_queue s.queue.next_write s.queue.written o

  Reachable-Ordered :
      (start : ℕ) (s : System) → Reachable cli start s → Ordered 0 s.queue.process_queue
  unfolding run_event_loop
  Reachable-Ordered start _ starts =
      rw
        (
          filled-process_queue (fill_download_queue cli (idle start).requests) (idle start).queue
              (idle start),
          run_event_loop,
        )
        tt
  Reachable-Ordered start _ (steps s s' r t) = Step-Ordered s s' (Reachable-Ordered start s r) t

  -- What is queued once there are no slots: all from the next index on, in one place.
  taken-counted :
      (start : ℕ) (s : System)
      → IsSound cli start s
      → s.requests.slots ≡ []
      → s.lost ≡ []
      → (i : ℕ)
      → count i (emplace_msgs s.queue.msg_queue s.queue.process_queue)
        ≡ between s.queue.next_write s.requests.next_index i
  taken-counted start s v e l i = omega (
    arith,
    v.conserved i,
    ap (count i) e,
    ap (count i) l,
    count-emplace_msgs i s.queue.msg_queue s.queue.process_queue,
  )

  take_messages-finished :
      (q : Queue)
      → q.finished_dls ≡ true
      → emplace_msgs q.msg_queue q.process_queue ≡ []
      → (take_messages q).phase ≡ finished
  unfolding take_messages
  take_messages-finished q told e = rw (told, e) refl

  take_messages-writing :
      (q : Queue)
      → is_empty (emplace_msgs q.msg_queue q.process_queue) ≡ false
      → (take_messages q).phase ≡ writing
  unfolding take_messages
  take_messages-writing q e =
      elim (Bool-cases (q.finished_dls && is_empty (emplace_msgs q.msg_queue q.process_queue))) [
        | inl h ↦ absurd (ground arith)
        | inr h ↦ rw h refl
      ]

  is_empty-nil : (ts : List Transfer) → is_empty ts ≡ true → ts ≡ []
  is_empty-nil [] e = refl
  is_empty-nil (t ∷ ts) e = cc

  -- All that is taken is written, when nothing is anywhere else.
  written_all :
      (start : ℕ) (s : System)
      → IsSound cli start s
      → Ordered 0 s.queue.process_queue
      → s.requests.slots ≡ []
      → s.lost ≡ []
      → (write_ready (take_messages s.queue)).process_queue ≡ []
  unfolding write_ready take_messages
  written_all start s v o e l =
      write_loop-all (emplace_msgs s.queue.msg_queue s.queue.process_queue) s.queue.next_write
        s.requests.next_index 0 s.queue.written
        (emplace_msgs-Ordered s.queue.msg_queue s.queue.process_queue o)
        (taken-counted start s v e l)

  written_rest :
      (q : Queue)
      → ((write_ready (take_messages q)).msg_queue ≡ [])
        × ((write_ready (take_messages q)).finished_dls ≡ q.finished_dls)
        × ((write_ready (take_messages q)).phase ≡ waiting)
  unfolding write_ready take_messages
  written_rest q = (refl, refl, refl)

  -- When the event loop has come back and the writer waits, the writer can come to its normal end,
  -- from whatever the threads have reached: nothing that is still queued is out of its reach. This is
  -- for a start that is not beyond the limit.
  pub Reachable-finished :
      (start : ℕ)
      → start ≤ cli.index_limit
      → (s : System) → Reachable cli start s
      → s.dispatching ≡ false
      → s.queue.phase ≡ waiting
      → (s' : System) × Reachable cli start s' × (s'.queue.phase ≡ finished)
  Reachable-finished start h s r over waits =
      let v = Reachable-IsSound cli start h s r in
      let (no_slots, healthy) = v.ended over in
      let told : s.queue.finished_dls ≡ true = ground (arith, v.told) in
      let s1 : System = record s { queue = take_messages s.queue } in
      let r1 : Reachable cli start s1 =
        steps s s1 r (takes_messages s waits healthy (ground arith)) in
      elim (Bool-cases (is_empty (emplace_msgs s.queue.msg_queue s.queue.process_queue))) [
        | inl e ↦ (
          s1,
          r1,
          take_messages-finished s.queue told
              (is_empty-nil (emplace_msgs s.queue.msg_queue s.queue.process_queue) e),
        )
        | inr e ↦
            let s2 : System = record s1 { queue = write_ready s1.queue } in
            let r2 : Reachable cli start s2 =
              steps s1 s2 r1 (writes s1 (take_messages-writing s.queue e)) in
            let s3 : System = record s2 { queue = take_messages s2.queue } in
            let (no_msgs, same, waits') = written_rest s.queue in
            let empty =
              written_all start s v (Reachable-Ordered start s r) no_slots (v.intact healthy) in
            (
              s3,
              steps s2 s3 r2 (takes_messages s2 waits' healthy (ground (arith, same))),
              take_messages-finished s2.queue (same ∙ told) (rw (no_msgs, empty) refl),
            )
      ]
