-- ===== src/Download/Named.antt =====
-- Each download keeps the prefix of its index, from its slot to the writer.
use hibp.Common.{
  ℕ, zero, suc, ◌+◌, ◌-◌, ◌≡◌, refl, true, List, [], ◌∷◌, ◌++◌, Option, none, some, All, All-append,
  leb, ◌==◌, Bool-cases, inl, inr, length, not, ◌&&◌,
}
use Prim.{Unit, tt}
use hibp.Text.{format_05X}
use hibp.Download.{
  Config, Transfer, Outcome, done, thrown, Handled, handled, stopped, Requests, Queue, System,
  find_slot, without, update, retry, receive, insert_slot, add_download, fill_loop,
  fill_download_queue, DoneMessage, process_curl_done_msg, process_done_msgs, emplace, emplace_all,
  emplace_msgs, take_messages, write_loop, write_ready, process_curl_messages, run_event_loop, Step,
  Reachable, is_success, batch, filled, processed, idle, data_arrives, messages_arrive,
  dispatch_ends, takes_messages, writes, starts, steps,
}

abbrev pub HasPrefix : Transfer → Type 0
HasPrefix t = t.prefix ≡ format_05X t.index

abbrev Named : List Transfer → Type 0
Named ts = All HasPrefix ts

without-Named : (index : ℕ) (ts : List Transfer) → Named ts → Named (without index ts)
without-Named index [] h = tt
without-Named index (t ∷ ts) h = elim (Bool-cases (t.index == index)) [
  | inl e ↦ rw e h.1
  | inr e ↦ rw e (h.0, without-Named index ts h.1)
]

emplace-Named : (t : Transfer) (ts : List Transfer) → HasPrefix t → Named ts → Named (emplace t ts)
emplace-Named t [] h hs = (h, tt)
emplace-Named t (u ∷ us) h hs = elim (Bool-cases (leb t.index u.index)) [
  | inl e ↦ rw e (h, hs)
  | inr e ↦ rw e (hs.0, emplace-Named t us h hs.1)
]

emplace_all-Named :
    (ts queue : List Transfer) → Named ts → Named queue → Named (emplace_all ts queue)
emplace_all-Named [] queue h hq = hq
emplace_all-Named (t ∷ ts) queue h hq =
    emplace_all-Named ts (emplace t queue) h.1 (emplace-Named t queue h.0 hq)

emplace_msgs-Named :
    (ms : List (List Transfer)) (queue : List Transfer)
    → All Named ms
    → Named queue
    → Named (emplace_msgs ms queue)
emplace_msgs-Named [] queue h hq = hq
emplace_msgs-Named (m ∷ ms) queue h hq =
    emplace_msgs-Named ms (emplace_all m queue) h.1 (emplace_all-Named m queue h.0 hq)

update-Named :
    (index : ℕ) (f : Transfer → Transfer) (ts : List Transfer)
    → ((t : Transfer) → HasPrefix t → HasPrefix (f t))
    → Named ts
    → Named (update index f ts)
update-Named index f [] keeps h = tt
update-Named index f (t ∷ ts) keeps h = elim (Bool-cases (t.index == index)) [
  | inl e ↦ rw e (keeps t h.0, h.1)
  | inr e ↦ rw e (h.0, update-Named index f ts keeps h.1)
]

-- What holds of an outcome that is no exception.
abbrev Then : {A : Type 0} → (A → Type 0) → Outcome A → Type 0
Then P (done a) = P a
Then P (thrown e) = Unit

abbrev Found : Option Transfer → Type 0
Found none = Unit
Found (some t) = HasPrefix t

find_slot-Found : (index : ℕ) (ts : List Transfer) → Named ts → Found (find_slot index ts)
find_slot-Found index [] h = tt
find_slot-Found index (t ∷ ts) h = elim (Bool-cases (t.index == index)) [
  | inl e ↦ rw e h.0
  | inr e ↦ rw e (find_slot-Found index ts h.1)
]

insert_slot-Named :
    (o : Option Transfer) (index : ℕ) (slots : List Transfer)
    → Named slots
    → Then Named (insert_slot o index slots)
insert_slot-Named none index slots h = (refl, h)
insert_slot-Named (some t) index slots h = tt

add_download-Named :
    (index : ℕ) (slots : List Transfer) → Named slots → Then Named (add_download index slots)
unfolding add_download
add_download-Named index slots h = insert_slot-Named (find_slot index slots) index slots h

abbrev NamedSlots : Requests → Type 0
NamedSlots r = Named r.slots

-- The slots and the batch.
abbrev NamedBoth : List Transfer × List Transfer → Type 0
NamedBoth after = Named after.0 × Named after.1

module _ (cli : Config) where
  fill_loop_round :
      (fuel : ℕ) (r : Requests) (o : Outcome (List Transfer))
      → ((r' : Requests) → NamedSlots r' → Then NamedSlots (fill_loop cli fuel r'))
      → (not (length r.slots == cli.parallel_max) && not (r.next_index == cli.index_limit)) ≡ true
      → add_download r.next_index r.slots ≡ o
      → Then Named o
      → Then NamedSlots (fill_loop cli (suc fuel) r)
  unfolding fill_loop
  fill_loop_round fuel r (done slots) ih more e h =
      rw (fill_loop, more, e) (ih (record { slots = slots; next_index = r.next_index + 1 }) h)
  fill_loop_round fuel r (thrown x) ih more e h = rw (fill_loop, more, e) tt

  fill_loop-Named :
      (fuel : ℕ) (r : Requests) → NamedSlots r → Then NamedSlots (fill_loop cli fuel r)
  unfolding fill_loop
  fill_loop-Named zero r h = h
  fill_loop-Named (suc fuel) r h =
      elim (Bool-cases
        (not (length r.slots == cli.parallel_max) && not (r.next_index == cli.index_limit))) [
          | inl more ↦
              fill_loop_round fuel r (add_download r.next_index r.slots)
                (λ r' h'. fill_loop-Named fuel r' h') more refl
                (add_download-Named r.next_index r.slots h)
          | inr full ↦ rw (fill_loop, full) h
        ]

process_curl_done_msg-Named :
    (m : DoneMessage) (slots msg : List Transfer)
    → Named slots
    → Named msg
    → Then NamedBoth (process_curl_done_msg m slots msg)
unfolding process_curl_done_msg
process_curl_done_msg-Named m slots msg h hm =
    go (find_slot m.index slots) refl (find_slot-Found m.index slots h)
  where
    go :
        (o : Option Transfer)
        → find_slot m.index slots ≡ o
        → Found o
        → Then NamedBoth (process_curl_done_msg m slots msg)
    go none e there = rw (process_curl_done_msg, e) tt
    go (some t) e there = elim (Bool-cases (is_success m)) [
      | inl ok ↦
          rw (process_curl_done_msg, e, ok)
            (without-Named m.index slots h, All-append msg (t ∷ []) HasPrefix (there, tt) hm)
      | inr n ↦ elim (Bool-cases (t.retries_left == 0)) [
        | inl last ↦ rw (process_curl_done_msg, e, n, last) tt
        | inr more ↦
            rw (process_curl_done_msg, e, n, more)
              (update-Named m.index retry slots (λ u p. p) h, hm)
      ]
    ]

-- The slots and the batch, with or without an exception.
abbrev NamedHandled : Handled → Type 0
NamedHandled (handled slots msg) = Named slots × Named msg
NamedHandled (stopped e slots msg) = Named slots × Named msg

process_done_msgs_round :
    (m : DoneMessage) (ms : List DoneMessage) (slots msg : List Transfer)
    (o : Outcome (List Transfer × List Transfer))
    → ((slots' msg' : List Transfer)
        → Named slots'
        → Named msg'
        → NamedHandled (process_done_msgs ms slots' msg'))
    → Named slots
    → Named msg
    → process_curl_done_msg m slots msg ≡ o
    → Then NamedBoth o
    → NamedHandled (process_done_msgs (m ∷ ms) slots msg)
unfolding process_done_msgs
process_done_msgs_round m ms slots msg (thrown x) ih h hm e k = rw (process_done_msgs, e) (h, hm)
process_done_msgs_round m ms slots msg (done after) ih h hm e k =
    rw (process_done_msgs, e) (ih after.0 after.1 k.0 k.1)

process_done_msgs-Named :
    (ms : List DoneMessage) (slots msg : List Transfer)
    → Named slots
    → Named msg
    → NamedHandled (process_done_msgs ms slots msg)
unfolding process_done_msgs
process_done_msgs-Named [] slots msg h hm = (h, hm)
process_done_msgs-Named (m ∷ ms) slots msg h hm =
    process_done_msgs_round m ms slots msg (process_curl_done_msg m slots msg)
      (λ s' m' h' hm'. process_done_msgs-Named ms s' m' h' hm') h hm refl
      (process_curl_done_msg-Named m slots msg h hm)

write_loop-Named :
    (queue : List Transfer) (next : ℕ) (written : List Transfer)
    → Named queue
    → Named written
    → Named (write_loop queue next written).0 × Named (write_loop queue next written).2
unfolding write_loop
write_loop-Named [] next written h hw = (tt, hw)
write_loop-Named (t ∷ ts) next written h hw = elim (Bool-cases (t.index == next)) [
  | inl e ↦ rw e (
      write_loop-Named ts (next + 1) (written ++ (t ∷ [])) h.1
        (All-append written (t ∷ []) HasPrefix (h.0, tt) hw))
  | inr e ↦ rw e (h, hw)
]

pub record QueueNamed (q : Queue) : Type 0 where
  pub messages : All Named q.msg_queue
  pub waiting_files : Named q.process_queue
  pub wrote : Named q.written

-- Wherever a download is, its prefix is that of its index.
pub record IsNamed (s : System) : Type 0 where
  pub in_slots : Named s.requests.slots
  pub in_queue : QueueNamed s.queue

batch-QueueNamed :
    (msg : List Transfer) (q : Queue) → Named msg → QueueNamed q → QueueNamed (batch msg q)
batch-QueueNamed [] q h v = v
batch-QueueNamed (t ∷ ts) q h v = record {
  messages = All-append q.msg_queue ((t ∷ ts) ∷ []) Named (h, tt) v.messages;
  waiting_files = v.waiting_files;
  wrote = v.wrote;
}

take_messages-QueueNamed : (q : Queue) → QueueNamed q → QueueNamed (take_messages q)
unfolding take_messages
take_messages-QueueNamed q v = record {
  messages = tt;
  waiting_files = emplace_msgs-Named q.msg_queue q.process_queue v.messages v.waiting_files;
  wrote = v.wrote;
}

write_ready-QueueNamed : (q : Queue) → QueueNamed q → QueueNamed (write_ready q)
unfolding write_ready
write_ready-QueueNamed q v =
    let after = write_loop-Named q.process_queue q.next_write q.written v.waiting_files v.wrote in
    record { messages = v.messages; waiting_files = after.0; wrote = after.1 }

module _ (cli : Config) where
  filled-IsNamed :
      (o : Outcome Requests) (q : Queue) (s : System)
      → Then NamedSlots o
      → QueueNamed q
      → IsNamed s
      → IsNamed (filled o q s)
  filled-IsNamed (done r) q s h hq v = record { in_slots = h; in_queue = hq }
  filled-IsNamed (thrown e) q s h hq v = record { in_slots = v.in_slots; in_queue = hq }

  fill_download_queue-Named :
      (r : Requests) → NamedSlots r → Then NamedSlots (fill_download_queue cli r)
  unfolding fill_download_queue
  fill_download_queue-Named r h = fill_loop-Named cli (cli.index_limit - r.next_index) r h

  processed-IsNamed :
      (o : Handled) (s : System) → NamedHandled o → IsNamed s → IsNamed (processed cli o s)
  processed-IsNamed (stopped e slots msg) s h v = record { in_slots = h.0; in_queue = v.in_queue }
  processed-IsNamed (handled slots msg) s h v =
      let r : Requests = record { slots = slots; next_index = s.requests.next_index } in
      filled-IsNamed (fill_download_queue cli r) (batch msg s.queue) s
        (fill_download_queue-Named r h.0) (batch-QueueNamed msg s.queue h.1 v.in_queue) v

  messages-IsNamed :
      (s : System) (ms : List DoneMessage) → IsNamed s → IsNamed (process_curl_messages cli ms s)
  unfolding process_curl_messages
  messages-IsNamed s ms v =
      processed-IsNamed (process_done_msgs ms s.requests.slots []) s
        (process_done_msgs-Named ms s.requests.slots [] v.in_slots tt) v

  Step-IsNamed : (s s' : System) → IsNamed s → Step cli s s' → IsNamed s'
  Step-IsNamed _ _ v (data_arrives s index bytes e f) = record {
    in_slots = update-Named index (receive bytes) s.requests.slots (λ u p. p) v.in_slots;
    in_queue = v.in_queue;
  }
  Step-IsNamed _ _ v (messages_arrive s ms e f) = messages-IsNamed s ms v
  Step-IsNamed _ _ v (dispatch_ends s e f g) = record {
    in_slots = v.in_slots;
    in_queue = record {
      messages = v.in_queue.messages;
      waiting_files = v.in_queue.waiting_files;
      wrote = v.in_queue.wrote;
    };
  }
  Step-IsNamed _ _ v (takes_messages s e f g) = record {
    in_slots = v.in_slots;
    in_queue = take_messages-QueueNamed s.queue v.in_queue;
  }
  Step-IsNamed _ _ v (writes s e) = record {
    in_slots = v.in_slots;
    in_queue = write_ready-QueueNamed s.queue v.in_queue;
  }

  start-IsNamed : (start : ℕ) → IsNamed (run_event_loop cli start)
  unfolding run_event_loop
  start-IsNamed start =
      filled-IsNamed (fill_download_queue cli (idle start).requests) (idle start).queue (idle start)
        (fill_download_queue-Named (idle start).requests tt)
        (record { messages = tt; waiting_files = tt; wrote = tt })
        (record {
          in_slots = tt;
          in_queue = record { messages = tt; waiting_files = tt; wrote = tt };
        })

  pub Reachable-IsNamed : (start : ℕ) (s : System) → Reachable cli start s → IsNamed s
  Reachable-IsNamed start _ starts = start-IsNamed start
  Reachable-IsNamed start _ (steps s s' r t) = Step-IsNamed s s' (Reachable-IsNamed start s r) t
