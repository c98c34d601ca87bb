-- ===== src/Runs/Completed.antt =====
-- A download of two files to a database of sha1t64 records, from its first request to its end.
use hibp.Common.{
  All, ◌<◌, ◌^◌, ℕ, zero, suc, ◌≡◌, refl, List, [], ◌∷◌, map, true, false, arith, pos,
}
use Prim.{tt}
use hibp.Text.{format_05X, to_chars}
use hibp.ArrCmp.Isa.{avx2}
use hibp.ArrCmp.Endian.{little}
use hibp.Hibp.{PawnedPw, IsRecord, to_string}
use hibp.FlatFile.{File}
use hibp.Download.{
  System, run_event_loop, receive, update, process_curl_messages, take_messages, write_ready,
  finished_downloads, Reachable, starts, steps, data_arrives, messages_arrive, dispatch_ends,
  takes_messages, writes,
}
use hibp.Download.Lines.{file_text, suffix_of, StartsWith}
use hibp.Programs.{DownloadOptions, check_download_options, get_start_index}
use hibp.Downloader.{Ran, ran, database, completed, run_download}
use hibp.Downloader.Complete.{Finishes, Serves, again, run_download-files_of}
use hibp.Downloader.Sorted.{run_download-IsDatabase}
use hibp.Resume.{resumed, get_last_prefix}
use hibp.Search.Lookup.{Ascending, IsDatabase}
use hibp.Runs.Downloads.{two_files, arrived}
use hibp.Runs.Searches.{password}

abbrev pub pw : ℕ → ℕ → PawnedPw
pw third count = record { hash = 0 ∷ 0 ∷ third ∷ 4 ∷ 5 ∷ 6 ∷ 7 ∷ 8 ∷ []; count = pos count }

abbrev pub first_pw : PawnedPw
first_pw = pw 3 9

abbrev pub second_pw : PawnedPw
second_pw = pw 19 1

abbrev server : ℕ → List PawnedPw
server zero = first_pw ∷ []
server (suc zero) = second_pw ∷ []
server (suc (suc n)) = []

abbrev body : PawnedPw → List ℕ
unfolding to_string
body x = file_text false (map suffix_of (x ∷ []))

abbrev s0 : System
unfolding run_event_loop
s0 = run_event_loop two_files 0

abbrev d1 : System
unfolding s0 body
d1 = record s0 {
  requests = record s0.requests { slots = update 1 (receive (body second_pw)) s0.requests.slots };
}

abbrev d2 : System
unfolding d1 body
d2 = record d1 {
  requests = record d1.requests { slots = update 0 (receive (body first_pw)) d1.requests.slots };
}

abbrev d3 : System
unfolding process_curl_messages d2
d3 = process_curl_messages two_files (arrived 1 200 ∷ arrived 0 200 ∷ []) d2

abbrev d4 : System
unfolding d3
d4 = record d3 { dispatching = false; queue = finished_downloads d3.queue }

abbrev d5 : System
unfolding take_messages d4
d5 = record d4 { queue = take_messages d4.queue }

abbrev d6 : System
unfolding write_ready d5
d6 = record d5 { queue = write_ready d5.queue }

abbrev d7 : System
unfolding take_messages d6
d7 = record d6 { queue = take_messages d6.queue }

d4-Reachable : Reachable two_files 0 d4
unfolding s0 d1 d2 d3 d4
d4-Reachable =
    steps d3 d4
      (steps d2 d3
        (steps d1 d2 (steps s0 d1 starts (data_arrives s0 1 (body second_pw) refl refl))
          (data_arrives d1 0 (body first_pw) refl refl))
        (messages_arrive d2 (arrived 1 200 ∷ arrived 0 200 ∷ []) refl refl))
      (dispatch_ends d3 refl refl refl)

d7-Reachable : Reachable two_files 0 d7
unfolding d4 d5 d6 d7
d7-Reachable =
    steps d6 d7
      (steps d5 d6 (steps d4 d5 d4-Reachable (takes_messages d4 refl refl refl)) (writes d5 refl))
      (takes_messages d6 refl refl refl)

abbrev options : DownloadOptions
options = record {
  resume = false;
  ntlm = false;
  sha1t64 = true;
  txt_out = false;
  binfuse8_out = false;
  binfuse16_out = false;
  force = true;
  index_limit = 2;
}

abbrev no_file : File PawnedPw
no_file = record { records = []; tail_bytes = 0; readable = true }

abbrev the_run : ℕ → Ran
the_run start = ran d7

pub pw-IsRecord : (third count : ℕ) → third < 256 → count < 2 ^ 31 → IsRecord 8 (pw third count)
pw-IsRecord third count h k = record {
  sized = refl;
  bytes = (
    omega arith,
    (
      omega arith,
      (h, (omega arith, (omega arith, (omega arith, (omega arith, (omega arith, tt)))))),
    ),
  );
  counted = k;
}

server-Serves : Serves 8 server
unfolding to_string format_05X
server-Serves = record { valid = valid; prefixed = prefixed }
  where
    valid : (i : ℕ) → All (IsRecord 8) (server i)
    valid zero = (pw-IsRecord 3 9 (omega arith) (omega arith), tt)
    valid (suc zero) = (pw-IsRecord 19 1 (omega arith) (omega arith), tt)
    valid (suc (suc n)) = tt

    prefixed : (i : ℕ) → All (StartsWith (format_05X i)) (server i)
    prefixed zero = (refl, tt)
    prefixed (suc zero) = (refl, tt)
    prefixed (suc (suc n)) = tt

server-ordered : (i : ℕ) → Ascending 0 (server i)
server-ordered zero = (omega arith, tt)
server-ordered (suc zero) = (omega arith, tt)
server-ordered (suc (suc n)) = tt

d7-Finishes : Finishes options 0 (the_run 0) two_files d7
unfolding d7
d7-Finishes = record {
  limited = refl;
  slots = omega arith;
  reached = d7-Reachable;
  ended = refl;
  result = refl;
}

-- The first file is there from an earlier download; the server has not changed it.
abbrev r0 : System
unfolding run_event_loop
r0 = run_event_loop two_files 1

abbrev r1 : System
unfolding r0 body
r1 = record r0 {
  requests = record r0.requests { slots = update 1 (receive (body second_pw)) r0.requests.slots };
}

abbrev r2 : System
unfolding process_curl_messages r1
r2 = process_curl_messages two_files (arrived 1 200 ∷ []) r1

abbrev r3 : System
unfolding r2
r3 = record r2 { dispatching = false; queue = finished_downloads r2.queue }

abbrev r4 : System
unfolding take_messages r3
r4 = record r3 { queue = take_messages r3.queue }

abbrev r5 : System
unfolding write_ready r4
r5 = record r4 { queue = write_ready r4.queue }

abbrev r6 : System
unfolding take_messages r5
r6 = record r5 { queue = take_messages r5.queue }

r6-Reachable : Reachable two_files 1 r6
unfolding r0 r1 r2 r3 r4 r5 r6
r6-Reachable =
    steps r5 r6
      (steps r4 r5
        (steps r3 r4
          (steps r2 r3
            (steps r1 r2 (steps r0 r1 starts (data_arrives r0 1 (body second_pw) refl refl))
              (messages_arrive r1 (arrived 1 200 ∷ []) refl refl))
            (dispatch_ends r2 refl refl refl))
          (takes_messages r3 refl refl refl))
        (writes r4 refl))
      (takes_messages r5 refl refl refl)

abbrev resuming : DownloadOptions
resuming = record options { resume = true; force = false }

abbrev earlier : File PawnedPw
earlier = record { records = first_pw ∷ []; tail_bytes = 5; readable = true }

abbrev second_run : ℕ → Ran
second_run start = ran r6

r6-Finishes : Finishes resuming 1 (second_run 1) two_files r6
unfolding r6
r6-Finishes = record {
  limited = refl;
  slots = omega arith;
  reached = r6-Reachable;
  ended = refl;
  result = refl;
}

earlier-resumed :
    get_last_prefix avx2 little 8 (λ prefix. body first_pw) (password 0 0) earlier
    ≡ resumed 0 (first_pw ∷ [])
unfolding get_last_prefix body to_chars
earlier-resumed = refl

run_download-files_of_example :
    run_download avx2 little
      (password 0 0)
      second_run
      (λ prefix. body first_pw)
      resuming
      true
      true
      earlier
    ≡ completed (database (first_pw ∷ second_pw ∷ []))
unfolding check_download_options get_start_index r6
run_download-files_of_example =
    run_download-files_of avx2 little (λ prefix. body first_pw) (password 0 0) second_run resuming
      true earlier (first_pw ∷ []) 1 server two_files r6 refl refl refl
      (again 0 1 (first_pw ∷ []) refl earlier-resumed refl) r6-Finishes server-Serves
      ((false, refl), tt)

run_download-IsDatabase_example :
    (records : List PawnedPw) × (run_download avx2 little
        (password 0 0)
        the_run
        (λ prefix. [])
        options
        true
        true
        no_file
      ≡ completed (database records))
    × IsDatabase 8 records
unfolding check_download_options d7
run_download-IsDatabase_example =
    run_download-IsDatabase avx2 little (λ prefix. []) (password 0 0) the_run options true no_file
      server two_files d7 refl refl refl refl (omega arith) d7-Finishes server-Serves server-ordered
      ((false, refl), ((false, refl), tt))
