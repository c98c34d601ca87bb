-- ===== src/Runs/Downloads.antt =====
-- A download of two files through two slots.
use hibp.Common.{ℕ, ◌≡◌, refl, [], ◌∷◌, map, true, false, arith}
use hibp.Download.{
  Config, DoneMessage, System, run_event_loop, process_curl_messages, take_messages, write_ready,
  finished_downloads, Reachable, starts, steps, messages_arrive, dispatch_ends, takes_messages,
  writes,
}
use hibp.Download.Phase.{finished}
use hibp.Download.Invariant.{IsSound, index_of}
use hibp.Download.Invariant.Draining.{Reachable-finished}
use hibp.Download.Invariant.Steps.{Reachable-IsSound, finished-writes_all}

abbrev pub two_files : Config
two_files = record { index_limit = 2; parallel_max = 2 }

abbrev pub arrived : ℕ → ℕ → DoneMessage
arrived index code = record { index = index; curl_ok = true; response_code = code }

abbrev s0 : System
unfolding run_event_loop
s0 = run_event_loop two_files 0

-- The second file is there first; the first needs another try.
abbrev s1 : System
unfolding process_curl_messages
s1 = process_curl_messages two_files (arrived 1 200 ∷ arrived 0 503 ∷ []) s0

abbrev s2 : System
unfolding take_messages
s2 = record s1 { queue = take_messages s1.queue }

abbrev s3 : System
unfolding write_ready
s3 = record s2 { queue = write_ready s2.queue }

abbrev s4 : System
unfolding process_curl_messages
s4 = process_curl_messages two_files (arrived 0 200 ∷ []) s3

abbrev s5 : System
s5 = record s4 { dispatching = false; queue = finished_downloads s4.queue }

abbrev s6 : System
unfolding take_messages
s6 = record s5 { queue = take_messages s5.queue }

abbrev s7 : System
unfolding write_ready
s7 = record s6 { queue = write_ready s6.queue }

abbrev s8 : System
unfolding take_messages
s8 = record s7 { queue = take_messages s7.queue }

s4-Reachable : Reachable two_files 0 s4
unfolding s0 s1 s2 s3 s4
s4-Reachable =
    steps s3 s4
      (steps s2 s3
        (steps s1 s2
          (steps s0 s1 starts (messages_arrive s0 (arrived 1 200 ∷ arrived 0 503 ∷ []) refl refl))
          (takes_messages s1 refl refl refl))
        (writes s2 refl))
      (messages_arrive s3 (arrived 0 200 ∷ []) refl refl)

s8-Reachable : Reachable two_files 0 s8
unfolding s0 s4 s6 s7 s8
s8-Reachable =
    steps s7 s8
      (steps s6 s7
        (steps s5 s6 (steps s4 s5 s4-Reachable (dispatch_ends s4 refl refl refl))
          (takes_messages s5 refl refl refl))
        (writes s6 refl))
      (takes_messages s7 refl refl refl)

Reachable-IsSound_example : IsSound two_files 0 s4
Reachable-IsSound_example = Reachable-IsSound two_files 0 (omega arith) s4 s4-Reachable

finished-writes_all_example : map index_of s8.queue.written ≡ (0 ∷ 1 ∷ [])
unfolding s0 s4 s7 s8
finished-writes_all_example =
    finished-writes_all two_files 0 (omega arith) (omega arith) s8 s8-Reachable refl

s5-Reachable : Reachable two_files 0 s5
unfolding s0 s2 s3 s4
s5-Reachable = steps s4 s5 s4-Reachable (dispatch_ends s4 refl refl refl)

Reachable-finished_example : (s' : System) × Reachable two_files 0 s' × (s'.queue.phase ≡ finished)
unfolding s0 s1 s2 s3 s4
Reachable-finished_example = Reachable-finished two_files 0 (omega arith) s5 s5-Reachable refl refl
