-- ===== src/Download/Invariant.antt =====
-- The invariant of the two threads of src/dnl/requests.cpp and src/dnl/queuemgt.cpp.
pub mod Filling
pub mod Writing
pub mod Steps
pub mod Draining
use hibp.Common.{
  ℕ, zero, suc, ◌+◌, ◌-◌, ◌≤◌, ◌<◌, ◌≡◌, ◌≢◌, ◌⊎◌, refl, sym, ap, ◌∙◌, Bool, true, false, List, [],
  ◌∷◌, ◌++◌, map, Option, none, some, leb, ltb, ◌==◌, ◌&&◌, not, if◌then◌else◌, length, arith,
  Bool-cases, inl, inr,
}
use hibp.Download.{Config, Transfer, Requests, Phase, Queue, System}
use hibp.Download.Phase.{finished}
use hibp.Download.Counting.{one_if, count, count_msgs, between}

-- The indices that are downloaded but not written: in the process queue and in messages.
abbrev pub queued : ℕ → Queue → ℕ
queued i q = count_msgs i q.msg_queue + count i q.process_queue

abbrev pub index_of : Transfer → ℕ
index_of t = t.index

-- `n` indices from `start`.
abbrev pub upfrom : ℕ → ℕ → List ℕ
upfrom start zero = []
upfrom start (suc n) = start ∷ upfrom (start + 1) n

-- The indices from `start` to the limit are each in one place, or lost with the exception of the
-- `requests` thread.
pub record IsSound (cli : Config) (start : ℕ) (s : System) : Type 0 where
  pub conserved :
      (i : ℕ)
      → count i s.requests.slots + queued i s.queue + count i s.lost
        ≡ between s.queue.next_write s.requests.next_index i
  pub intact : s.failed ≡ false → s.lost ≡ []
  pub begun : start ≤ s.queue.next_write
  pub passed : s.queue.next_write ≤ s.requests.next_index
  pub limited : s.requests.next_index ≤ cli.index_limit
  pub bounded : length s.requests.slots ≤ cli.parallel_max
  pub in_order : map index_of s.queue.written ≡ upfrom start (s.queue.next_write - start)
  pub full :
      s.failed ≡ false
      → (length s.requests.slots ≡ cli.parallel_max) ⊎ (s.requests.next_index ≡ cli.index_limit)
  pub told : s.queue.finished_dls ≡ not s.dispatching
  pub ended : s.dispatching ≡ false → (s.requests.slots ≡ []) × (s.failed ≡ false)
  pub drained :
      s.queue.phase ≡ finished
      → (s.dispatching ≡ false) × (s.queue.msg_queue ≡ []) × (s.queue.process_queue ≡ [])
