-- ===== src/Downloader/Complete.antt =====
-- What a download that comes to its end leaves in its database.
use hibp.Common.{
  ℕ, ◌-◌, ◌≤◌, ◌<◌, ◌≡◌, refl, ap, ◌∙◌, Bool, true, false, List, [], ◌∷◌, ◌++◌, none, some, map,
  All, arith, ◌||◌, inl, inr, Bool-cases,
}
use hibp.Text.{format_05X}
use hibp.ArrCmp.{Isa, Endian}
use hibp.Hibp.{PawnedPw, IsRecord, of_text}
use hibp.Hibp.Printable.{format_05X-Printable}
use hibp.FlatFile.{File}
use hibp.FlatFile.Writing.{close-write_all}
use hibp.Download.{Config, Transfer, System, Reachable}
use hibp.Download.Phase.{finished}
use hibp.Download.Named.{HasPrefix, Reachable-IsNamed}
use hibp.Download.Invariant.{index_of, upfrom}
use hibp.Download.Invariant.Steps.{Reachable-IsSound, finished-writes_all}
use hibp.Download.Lines.{write_lines, file_text, suffix_of, StartsWith, write_lines-of_text}
use hibp.Programs.{DownloadOptions, check_download_options, get_start_index}
use hibp.Resume.{resumed, get_last_prefix}
use hibp.Downloader.{
  Ran, ran, all_lines, database, completed, size_of_hash, launch_bin_db, launch_stream,
  run_download, launch_from, launch_resumed,
}

-- What the server has: for each index the records of its file, whose texts start with its prefix.
pub record Serves (hash_size : ℕ) (server : ℕ → List PawnedPw) : Type 0 where
  pub valid : (i : ℕ) → All (IsRecord hash_size) (server i)
  pub prefixed : (i : ℕ) → All (StartsWith (format_05X i)) (server i)

-- The body of a download is the file of its index, with or without an end of its last line.
abbrev pub Delivered : (ℕ → List PawnedPw) → Transfer → Type 0
Delivered server t =
    (terminated : Bool) × (t.buffer ≡ file_text terminated (map suffix_of (server t.index)))

-- The records of the files of these indices.
abbrev pub files_of : (ℕ → List PawnedPw) → List ℕ → List PawnedPw
files_of server [] = []
files_of server (i ∷ is) = server i ++ files_of server is

map-append :
    (f : List ℕ → PawnedPw) (xs ys : List (List ℕ)) → map f (xs ++ ys) ≡ map f xs ++ map f ys
map-append f [] ys = refl
map-append f (x ∷ xs) ys = ap (◌∷◌ (f x)) (map-append f xs ys)

module _ (hash_size : ℕ) (large : 3 ≤ hash_size) (server : ℕ → List PawnedPw)
    (v : Serves hash_size server) where
  all_lines-of_text :
      (ts : List Transfer)
      → All HasPrefix ts
      → All (Delivered server) ts
      → map (of_text hash_size) (all_lines ts) ≡ files_of server (map index_of ts)
  unfolding all_lines
  all_lines-of_text [] h d = refl
  all_lines-of_text (t ∷ ts) h d =
      let one =
        write_lines-of_text d.0.0 hash_size t (server t.index) (omega arith)
          (rw h.0 (format_05X-Printable t.index)) (v.valid t.index) (rw h.0 (v.prefixed t.index))
          d.0.1 in
      map-append (of_text hash_size) (write_lines t) (all_lines ts)
      ∙ rw (one, all_lines-of_text ts h.1 d.1) refl

  launch_bin_db-files_of :
      (blank : PawnedPw) (before : List PawnedPw) (r : Ran)
      → r.throws ≡ false
      → All HasPrefix r.written
      → All (Delivered server) r.written
      → launch_bin_db hash_size blank before r
        ≡ completed (database (before ++ files_of server (map index_of r.written)))
  unfolding launch_bin_db
  launch_bin_db-files_of blank before r ok h d =
      rw (launch_bin_db, ok)
        (ap (λ t. completed (database t))
          (close-write_all before (map (of_text hash_size) (all_lines r.written)) 10000 blank
              (omega arith)
            ∙ ap (λ t. before ++ t) (all_lines-of_text r.written h d)))

-- Where the download starts, and the records before: from nothing, or behind what a resumed download has.
pub data Begins (isa : Isa) (endian : Endian) (web : List ℕ → List ℕ) (blank : PawnedPw)
    (cli : DownloadOptions) (file : File PawnedPw) : List PawnedPw → ℕ → Type 0 where
  anew : cli.resume ≡ false → Begins isa endian web blank cli file [] 0
  again :
      (last start : ℕ) (records : List PawnedPw)
      → cli.resume ≡ true
      → get_last_prefix isa endian (size_of_hash cli) web blank file ≡ resumed last records
      → get_start_index cli last ≡ some start
      → Begins isa endian web blank cli file records start

module _ (isa : Isa) (endian : Endian) (web : List ℕ → List ℕ) (blank : PawnedPw) (run : ℕ → Ran)
    (cli : DownloadOptions) (file : File PawnedPw) where
  launch_stream_anew :
      cli.resume ≡ false
      → launch_stream isa endian blank run web cli true file
        ≡ launch_from isa endian blank run cli true [] (some 0)
  unfolding launch_stream get_start_index
  launch_stream_anew fresh = rw (launch_stream, fresh) refl

  launch_stream_again :
      cli.resume ≡ true
      → launch_stream isa endian blank run web cli true file
        ≡ launch_resumed isa endian blank run cli true
            (get_last_prefix isa endian (size_of_hash cli) web blank file)
  unfolding launch_stream
  launch_stream_again more = rw (launch_stream, more) refl

  launch_from-launch_bin_db :
      (before : List PawnedPw) (start : ℕ)
      → cli.txt_out ≡ false
      → launch_from isa endian blank run cli true before (some start)
        ≡ launch_bin_db (size_of_hash cli) blank before (run start)
  unfolding launch_from launch_bin_db
  launch_from-launch_bin_db before start bin = rw bin refl

  launch_stream-launch_bin_db :
      (before : List PawnedPw) (start : ℕ)
      → Begins isa endian web blank cli file before start
      → cli.txt_out ≡ false
      → launch_stream isa endian blank run web cli true file
        ≡ launch_bin_db (size_of_hash cli) blank before (run start)
  unfolding launch_resumed launch_from launch_bin_db
  launch_stream-launch_bin_db _ _ (anew fresh) bin =
      launch_stream_anew fresh ∙ launch_from-launch_bin_db [] 0 bin
  launch_stream-launch_bin_db _ _ (again last start records more found begins) bin =
      launch_stream_again more
      ∙ ap (launch_resumed isa endian blank run cli true) found
      ∙ ap (launch_from isa endian blank run cli true records) begins
      ∙ launch_from-launch_bin_db records start bin

  run_download_stream :
      (exists : Bool)
      → check_download_options cli exists ≡ none
      → (cli.binfuse8_out || cli.binfuse16_out) ≡ false
      → run_download isa endian blank run web cli exists true file
        ≡ launch_stream isa endian blank run web cli true file
  unfolding run_download
  run_download_stream exists allowed no_filter = rw (run_download, allowed, no_filter) refl

  Begins-le :
      (before : List PawnedPw) (start : ℕ)
      → Begins isa endian web blank cli file before start
      → start ≤ cli.index_limit
  unfolding get_start_index
  Begins-le _ _ (anew fresh) = omega arith
  Begins-le _ _ (again last start records more found begins) = ground arith

-- The run has come to the normal end of its writer, in a state that the two threads reach.
pub record Finishes (cli : DownloadOptions) (start : ℕ) (r : Ran) (threads : Config) (s : System)
    : Type 0 where
  pub limited : threads.index_limit ≡ cli.index_limit
  pub slots : 0 < threads.parallel_max
  pub reached : Reachable threads start s
  pub ended : s.queue.phase ≡ finished
  pub result : r ≡ ran s

finished-throws :
    (threads : Config) (start : ℕ) (s : System)
    → start ≤ threads.index_limit
    → Reachable threads start s
    → s.queue.phase ≡ finished
    → s.failed ≡ false
finished-throws threads start s h reached e =
    let v = Reachable-IsSound threads start h s reached in
    let (over, no_msgs, no_queue) = v.drained e in (v.ended over).1

pub size_of_hash-large : (cli : DownloadOptions) → 3 ≤ size_of_hash cli
size_of_hash-large cli = elim (Bool-cases cli.ntlm) [
  | inl e ↦ rw e (omega arith)
  | inr e ↦ elim (Bool-cases cli.sha1t64) [
    | inl e' ↦ rw (e, e') (omega arith)
    | inr e' ↦ rw (e, e') (omega arith)
  ]
]

-- A download to a database that can be written, with options that are not refused, whose writer comes to its
-- normal end: if the body of each file that was written is what the server has for its index, and the server
-- has well-formed records whose texts start with the prefix of their file, then the database has the
-- records that it had before, which are none unless it is resumed, and behind them exactly those of each
-- index from the start to the limit, in order.
pub run_download-files_of :
    (isa : Isa) (endian : Endian) (web : List ℕ → List ℕ) (blank : PawnedPw) (run : ℕ → Ran)
    (cli : DownloadOptions) (exists : Bool) (file : File PawnedPw) (before : List PawnedPw)
    (start : ℕ) (server : ℕ → List PawnedPw) (threads : Config) (s : System)
    → check_download_options cli exists ≡ none
    → (cli.binfuse8_out || cli.binfuse16_out) ≡ false
    → cli.txt_out ≡ false
    → Begins isa endian web blank cli file before start
    → Finishes cli start (run start) threads s
    → Serves (size_of_hash cli) server
    → All (Delivered server) s.queue.written
    → run_download isa endian blank run web cli exists true file
      ≡ completed (database (before ++ files_of server (upfrom start (cli.index_limit - start))))
run_download-files_of isa endian web blank run cli exists file before start server threads s allowed
      no_filter bin b f v d =
    let h = Begins-le isa endian web blank run cli file before start b in
    let h' : start ≤ threads.index_limit = omega (arith, f.limited) in
    let named = (Reachable-IsNamed threads start s f.reached).in_queue.wrote in
    let all = finished-writes_all threads start h' f.slots s f.reached f.ended in
    let ok = finished-throws threads start s h' f.reached f.ended in
    run_download_stream isa endian web blank run cli file exists allowed no_filter
    ∙ launch_stream-launch_bin_db isa endian web blank run cli file before start b bin
    ∙ ap (launch_bin_db (size_of_hash cli) blank before) f.result
    ∙ launch_bin_db-files_of (size_of_hash cli) (size_of_hash-large cli) server v blank before
        (ran s) ok named d
    ∙ ap (λ is. completed (database (before ++ files_of server is))) all
    ∙ ap (λ n. completed (database (before ++ files_of server (upfrom start (n - start)))))
        f.limited
