-- ===== src/Download.antt =====
-- src/dnl/requests.cpp and src/dnl/queuemgt.cpp: the two threads of a download, the `requests`
-- thread with its slots and the `queuemgt` thread with its process queue, and the message queue
-- between them. What curl and libevent do is in the steps' arguments.
pub mod Lines
pub mod Counting
pub mod Named
pub mod Invariant
use hibp.Common.{
  ℕ, zero, suc, ◌+◌, ◌-◌, ◌*◌, ◌<◌, ◌≡◌, ◌≢◌, ◌⊎◌, Bool, true, false, List, [], ◌∷◌, ◌++◌, map,
  Option, none, some, leb, ltb, ◌==◌, ◌&&◌, ◌||◌, not, if◌then◌else◌, length,
}
use hibp.Text.{format_05X}

pub record Config : Type 0 where
  pub index_limit : ℕ
  pub parallel_max : ℕ

abbrev pub max_retries : ℕ
max_retries = 10

-- A download in a slot, a message or the process queue.
pub record Transfer : Type 0 where
  pub index : ℕ
  pub prefix : List ℕ
  pub buffer : List ℕ
  pub retries_left : ℕ

pub data DownloadError : Type 0 where
  already_existed out_of_retries no_such_slot : DownloadError

pub data Outcome {ℓ} (A : Type ℓ) : Type ℓ where
  done : A → Outcome A
  thrown : DownloadError → Outcome A

-- `download_slots` and `next_index`; the map's order means nothing.
pub record Requests : Type 0 where
  pub slots : List Transfer
  pub next_index : ℕ

abbrev pub find_slot : ℕ → List Transfer → Option Transfer
find_slot index [] = none
find_slot index (t ∷ ts) = if t.index == index then some t else find_slot index ts

abbrev pub without : ℕ → List Transfer → List Transfer
without index [] = []
without index (t ∷ ts) = if t.index == index then ts else t ∷ without index ts

-- The slot of `index` changed by `f`.
abbrev pub update : ℕ → (Transfer → Transfer) → List Transfer → List Transfer
update index f [] = []
update index f (t ∷ ts) = if t.index == index then f t ∷ ts else t ∷ update index f ts

-- The constructor of `download`.
abbrev pub new_transfer : ℕ → Transfer
new_transfer index = record {
  index = index;
  prefix = format_05X index;
  buffer = [];
  retries_left = max_retries;
}

abbrev pub insert_slot : Option Transfer → ℕ → List Transfer → Outcome (List Transfer)
insert_slot none index slots = done (new_transfer index ∷ slots)
insert_slot (some t) index slots = thrown already_existed

unfoldable pub add_download : ℕ → List Transfer → Outcome (List Transfer)
add_download index slots = insert_slot (find_slot index slots) index slots

-- One round less than `fuel` for each index up to the limit.
unfoldable pub fill_loop : Config → ℕ → Requests → Outcome Requests
unfolding add_download
fill_loop cli zero r = done r
fill_loop cli (suc fuel) r =
    elim (not (length r.slots == cli.parallel_max) && not (r.next_index == cli.index_limit)) [
      | false ↦ done r
      | true ↦ elim (add_download r.next_index r.slots) [
        | done slots ↦ fill_loop cli fuel (record { slots = slots; next_index = r.next_index + 1 })
        | thrown e ↦ thrown e
      ]
    ]

unfoldable pub fill_download_queue : Config → Requests → Outcome Requests
unfolding fill_loop
fill_download_queue cli r = fill_loop cli (cli.index_limit - r.next_index) r

-- `write_data_curl_cb`
abbrev pub receive : List ℕ → Transfer → Transfer
receive bytes t = record t { buffer = t.buffer ++ bytes }

abbrev pub retry : Transfer → Transfer
retry t = record t { retries_left = t.retries_left - 1; buffer = [] }

-- What curl says of a transfer that has ended.
pub record DoneMessage : Type 0 where
  pub index : ℕ
  pub curl_ok : Bool
  pub response_code : ℕ

abbrev pub is_success : DoneMessage → Bool
is_success m = m.curl_ok && (m.response_code == 200)

-- `process_curl_done_msg`: the slots, and the batch of downloads that are complete.
unfoldable pub process_curl_done_msg :
    DoneMessage → List Transfer → List Transfer → Outcome (List Transfer × List Transfer)
process_curl_done_msg m slots msg = elim (find_slot m.index slots) [
  | none ↦ thrown no_such_slot
  | some t ↦
      if is_success m
      then done (without m.index slots, msg ++ (t ∷ []))
      else if t.retries_left == 0
      then thrown out_of_retries
      else done (update m.index retry slots, msg)
]

-- The slots and the batch, after all messages or where an exception ended the loop over them.
pub data Handled : Type 0 where
  handled : List Transfer → List Transfer → Handled
  stopped : DownloadError → List Transfer → List Transfer → Handled

unfoldable pub process_done_msgs : List DoneMessage → List Transfer → List Transfer → Handled
unfolding process_curl_done_msg
process_done_msgs [] slots msg = handled slots msg
process_done_msgs (m ∷ ms) slots msg = elim (process_curl_done_msg m slots msg) [
  | done after ↦ process_done_msgs ms after.0 after.1
  | thrown e ↦ stopped e slots msg
]

-- Where `service_queue` is: before the wait, after the lock is given back, at its normal end.
pub data Phase : Type 0 where
  waiting writing finished : Phase

-- The message queue, and what the `queuemgt` thread has: the process queue, with the smallest index
-- on top, the next index to write, and what it has written.
pub record Queue : Type 0 where
  pub msg_queue : List (List Transfer)
  pub finished_dls : Bool
  pub process_queue : List Transfer
  pub next_write : ℕ
  pub written : List Transfer
  pub phase : Phase

abbrev pub enqueue_downloads_for_writing : List Transfer → Queue → Queue
enqueue_downloads_for_writing msg q = record q { msg_queue = q.msg_queue ++ (msg ∷ []) }

abbrev pub finished_downloads : Queue → Queue
finished_downloads q = record q { finished_dls = true }

-- `process_queue.emplace`
abbrev pub emplace : Transfer → List Transfer → List Transfer
emplace t [] = t ∷ []
emplace t (u ∷ us) = if leb t.index u.index then t ∷ u ∷ us else u ∷ emplace t us

abbrev pub emplace_all : List Transfer → List Transfer → List Transfer
emplace_all [] queue = queue
emplace_all (t ∷ ts) queue = emplace_all ts (emplace t queue)

abbrev pub emplace_msgs : List (List Transfer) → List Transfer → List Transfer
emplace_msgs [] queue = queue
emplace_msgs (m ∷ ms) queue = emplace_msgs ms (emplace_all m queue)

abbrev pub is_empty {ℓ} : {A : Type ℓ} → List A → Bool
is_empty [] = true
is_empty (x ∷ xs) = false

-- From the wait to the end of the lock.
unfoldable pub take_messages : Queue → Queue
take_messages q =
    let queue = emplace_msgs q.msg_queue q.process_queue in
    record q {
      msg_queue = [];
      process_queue = queue;
      phase = if q.finished_dls && is_empty queue then finished else writing;
    }

-- The loop on the top of the process queue: what stays, the next index, and what was written.
unfoldable pub write_loop : List Transfer → ℕ → List Transfer → List Transfer × ℕ × List Transfer
write_loop [] next written = ([], next, written)
write_loop (t ∷ ts) next written =
    let rest = write_loop ts (next + 1) (written ++ (t ∷ [])) in
    if t.index == next then rest else (t ∷ ts, next, written)

unfoldable pub write_ready : Queue → Queue
unfolding write_loop
write_ready q =
    let after = write_loop q.process_queue q.next_write q.written in
    record q { process_queue = after.0; next_write = after.1; written = after.2; phase = waiting }

-- Both threads; `dispatching` until the event loop has come back, `failed` once one has thrown.
-- A thread that has thrown asks the other one to stop: `requests` before its next messages, `queuemgt`
-- at its next wait. `lost` are the downloads that were complete but still in the batch of
-- `process_curl_messages` when it threw: they are destroyed with it. That the writer itself throws, when it cannot write, is left out.
pub record System : Type 0 where
  pub requests : Requests
  pub queue : Queue
  pub dispatching : Bool
  pub failed : Bool
  pub lost : List Transfer

-- `process_curl_messages` on the messages that curl has.
abbrev batch : List Transfer → Queue → Queue
batch [] q = q
batch (t ∷ ts) q = enqueue_downloads_for_writing (t ∷ ts) q

abbrev filled : Outcome Requests → Queue → System → System
filled (done r) q s = record s { requests = r; queue = q }
filled (thrown e) q s = record s { queue = q; failed = true }

abbrev processed : Config → Handled → System → System
processed cli (handled slots msg) s =
    filled (fill_download_queue cli (record { slots = slots; next_index = s.requests.next_index }))
      (batch msg s.queue) s
processed cli (stopped e slots msg) s = record s {
  requests = record s.requests { slots = slots };
  failed = true;
  lost = msg ++ s.lost;
}

unfoldable pub process_curl_messages : Config → List DoneMessage → System → System
unfolding process_done_msgs fill_download_queue
process_curl_messages cli ms s = processed cli (process_done_msgs ms s.requests.slots []) s

-- The start of `run`, with the queue filled by `run_event_loop`.
abbrev pub idle : ℕ → System
idle start = record {
  requests = record { slots = []; next_index = start };
  queue = record {
    msg_queue = [];
    finished_dls = false;
    process_queue = [];
    next_write = start;
    written = [];
    phase = waiting;
  };
  dispatching = true;
  failed = false;
  lost = [];
}

unfoldable pub run_event_loop : Config → ℕ → System
unfolding fill_download_queue
run_event_loop cli start =
    filled (fill_download_queue cli (idle start).requests) (idle start).queue (idle start)

abbrev pub can_wake : Queue → Bool
can_wake q = not (is_empty q.msg_queue) || q.finished_dls

-- Steps of the two threads in any order. The event loop comes back when there are no transfers left,
-- which is what libevent documents for a loop without an error; that it may also come back with one,
-- which `run_event_loop` does not look at, is left out.
pub data Step (cli : Config) : System → System → Type 0 where
  data_arrives :
      (s : System) (index : ℕ) (bytes : List ℕ)
      → s.dispatching ≡ true
      → s.failed ≡ false
      → Step cli s (record s {
        requests = record s.requests { slots = update index (receive bytes) s.requests.slots };
      })
  messages_arrive :
      (s : System) (ms : List DoneMessage)
      → s.dispatching ≡ true
      → s.failed ≡ false
      → Step cli s (process_curl_messages cli ms s)
  dispatch_ends :
      (s : System)
      → s.dispatching ≡ true
      → s.failed ≡ false
      → s.requests.slots ≡ []
      → Step cli s (record s { dispatching = false; queue = finished_downloads s.queue })
  takes_messages :
      (s : System)
      → s.queue.phase ≡ waiting
      → s.failed ≡ false
      → can_wake s.queue ≡ true
      → Step cli s (record s { queue = take_messages s.queue })
  writes :
      (s : System) → s.queue.phase ≡ writing → Step cli s (record s { queue = write_ready s.queue })

pub data Reachable (cli : Config) (start : ℕ) : System → Type 0 where
  starts : Reachable cli start (run_event_loop cli start)
  steps : (s s' : System) → Reachable cli start s → Step cli s s' → Reachable cli start s'
