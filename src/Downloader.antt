-- ===== src/Downloader.antt =====
-- app/hibp_download.cpp behind its check of the options (which is in Programs): where the download
-- starts, what its lines are written to, and the writers of include/dnl/queuemgt.hpp and
-- include/flat_file.hpp. A run of the two threads, `run` of src/dnl/queuemgt.cpp, is an argument: what it
-- has written from a start index.
pub mod Complete
pub mod Blocks
pub mod Sorted
use hibp.Common.{
  ℕ, ◌&&◌, ◌||◌, Bool, true, false, List, [], ◌∷◌, ◌++◌, Option, none, some, if◌then◌else◌, map,
}
use hibp.ArrCmp.{Isa, Endian, bytearray_cast}
use hibp.Hibp.{PawnedPw, of_text, sha1, ntlm, sha1t64}
use hibp.FlatFile.{File, Writer, new_writer, write_all, close}
use hibp.Download.{Transfer, System}
use hibp.Download.Lines.{write_lines}
use hibp.Programs.{DownloadOptions, DownloadComplaint, check_download_options, get_start_index}
use hibp.Resume.{ResumeError, Resumed, resumed, refused, get_last_prefix}

-- What `run` has come to: whether it throws, since a thread has thrown, and the files whose lines have
-- been written, in order.
pub record Ran : Type 0 where
  pub throws : Bool
  pub written : List Transfer

-- The threads have ended in this state.
abbrev pub ran : System → Ran
ran s = record { throws = s.failed; written = s.queue.written }

-- The calls of `write_fn`.
unfoldable pub all_lines : List Transfer → List (List ℕ)
unfolding write_lines
all_lines [] = []
all_lines (t ∷ ts) = write_lines t ++ all_lines ts

-- `text_writer`
unfoldable pub write_text : List ℕ → List (List ℕ) → List ℕ
write_text out [] = out
write_text out (line ∷ lines) = write_text (out ++ (line ++ 10 ∷ [])) lines

pub data Output : Type 0 where
  database : List PawnedPw → Output
  text : List ℕ → Output
  filter : List ℕ → Output

pub data LaunchError : Type 0 where
  complaint : DownloadComplaint → LaunchError
  not_resumed : ResumeError → LaunchError
  nothing_to_do cannot_write : LaunchError

-- The output, whether or not the run has thrown.
pub data Downloaded : Type 0 where
  completed : Output → Downloaded
  aborted : Output → Downloaded
  failed : LaunchError → Downloaded

abbrev pub ended : Ran → Output → Downloaded
ended r out = if r.throws then aborted out else completed out

abbrev pub size_of_hash : DownloadOptions → ℕ
size_of_hash cli = if cli.ntlm then ntlm else if cli.sha1t64 then sha1t64 else sha1

-- The destructor of the writer flushes it.
unfoldable pub launch_bin_db : ℕ → PawnedPw → List PawnedPw → Ran → Downloaded
unfolding all_lines new_writer write_all close
launch_bin_db hash_size blank before r = ended r (
    database (
      close (
        write_all (new_writer before 10000 blank) (map (of_text hash_size) (all_lines r.written)))))

abbrev pub launch_text : Ran → Downloaded
unfolding write_text all_lines
launch_text r = ended r (text (write_text [] (all_lines r.written)))

module _ (isa : Isa) (endian : Endian) (blank : PawnedPw) (run : ℕ → Ran) where
  -- With the records that the output has before, and the start index if there is something to do.
  abbrev pub launch_from : DownloadOptions → Bool → List PawnedPw → Option ℕ → Downloaded
  unfolding launch_bin_db launch_text
  launch_from cli writable before none = failed nothing_to_do
  launch_from cli writable before (some start) =
      if writable
      then (if cli.txt_out
          then launch_text (run start)
          else launch_bin_db (size_of_hash cli) blank before (run start))
      else failed cannot_write

  abbrev pub launch_resumed : DownloadOptions → Bool → Resumed → Downloaded
  unfolding launch_from get_start_index
  launch_resumed cli writable (refused e) = failed (not_resumed e)
  launch_resumed cli writable (resumed last records) =
      launch_from cli writable records (get_start_index cli last)

  -- The file that is there is only read by a download that is resumed; else it is emptied.
  unfoldable pub launch_stream :
      (List ℕ → List ℕ) → DownloadOptions → Bool → File PawnedPw → Downloaded
  unfolding launch_resumed launch_from get_start_index get_last_prefix
  launch_stream web cli writable file =
      if cli.resume
      then launch_resumed cli writable
          (get_last_prefix isa endian (size_of_hash cli) web blank file)
      else launch_from cli writable [] (get_start_index cli 0)

  -- The keys that are added to the filter, always from the first file on.
  unfoldable pub launch_filter : Downloaded
  unfolding all_lines bytearray_cast
  launch_filter =
      let r = run 0 in
      ended r (
        filter (
          map (λ line. bytearray_cast endian 8 true (of_text sha1 line).hash)
            (all_lines r.written)))

  abbrev checked : Option DownloadComplaint → Downloaded → Downloaded
  checked (some e) result = failed (complaint e)
  checked none result = result

  -- `main`
  unfoldable pub run_download :
      (List ℕ → List ℕ) → DownloadOptions → Bool → Bool → File PawnedPw → Downloaded
  unfolding check_download_options launch_filter launch_stream
  run_download web cli exists writable file = checked (check_download_options cli exists) (
      if cli.binfuse8_out || cli.binfuse16_out
      then launch_filter
      else launch_stream web cli writable file)
