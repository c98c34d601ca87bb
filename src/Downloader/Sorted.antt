-- ===== src/Downloader/Sorted.antt =====
-- A new download leaves a database that can be searched.
use hibp.Common.{
  ℕ, zero, suc, ◌+◌, ◌-◌, ◌^◌, ◌≤◌, ◌<◌, ◌≡◌, ◌⊎◌, inl, inr, refl, Bool, true, false, List, [], ◌∷◌,
  ◌++◌, none, All, All-append, arith, ◌||◌,
}
use Prim.{tt}
use hibp.Text.{format_05X}
use hibp.Hibp.{PawnedPw, IsRecord}
use hibp.Hibp.Order.{key}
use hibp.Search.Lookup.{Ascending, IsDatabase, Ascending-IsDatabase}
use hibp.Download.{Config, System}
use hibp.Download.Invariant.{upfrom}
use hibp.Download.Lines.{StartsWith}
use hibp.FlatFile.{File}
use hibp.ArrCmp.{Isa, Endian}
use hibp.Programs.{DownloadOptions, check_download_options}
use hibp.Downloader.{Ran, database, completed, size_of_hash, run_download}
use hibp.Downloader.Complete.{
  Serves, Delivered, files_of, Finishes, anew, size_of_hash-large, run_download-files_of,
}
use hibp.Downloader.Blocks.{block, block-lt, block-zero, StartsWith-block}

module _ (hash_size : ℕ) (large : 3 ≤ hash_size) where
  abbrev InBlock : ℕ → List PawnedPw → Type 0
  InBlock i rs = All (λ pw. block hash_size large (key pw) ≡ i) rs

  Ascending-append :
      (i low : ℕ) (xs ys : List PawnedPw)
      → Ascending low xs
      → InBlock i xs
      → block hash_size large low ≤ i
      → ((low' : ℕ) → block hash_size large low' ≤ i → Ascending low' ys)
      → Ascending low (xs ++ ys)
  Ascending-append i low [] ys a b h behind = behind low h
  Ascending-append i low (x ∷ xs) ys a b h behind =
      (a.0, Ascending-append i (key x) xs ys a.1 b.1 (omega (arith, b.0)) behind)

  Ascending-raise :
      (i low : ℕ) (xs : List PawnedPw)
      → (low ≡ 0) ⊎ (block hash_size large low < i)
      → Ascending 0 xs
      → InBlock i xs
      → Ascending low xs
  Ascending-raise i low [] h a b = tt
  Ascending-raise i low (x ∷ xs) (inl e) a b = (omega arith, a.1)
  Ascending-raise i low (x ∷ xs) (inr e) a b =
      (block-lt hash_size large low (key x) (omega (arith, b.0)), a.1)

  StartsWith-InBlock :
      (i : ℕ) (rs : List PawnedPw)
      → i < 2 ^ 64
      → All (IsRecord hash_size) rs
      → All (StartsWith (format_05X i)) rs
      → InBlock i rs
  StartsWith-InBlock i [] h v s = tt
  StartsWith-InBlock i (x ∷ rs) h v s =
      (StartsWith-block hash_size large i x h v.0 s.0, StartsWith-InBlock i rs h v.1 s.1)

  module _ (server : ℕ → List PawnedPw) (v : Serves hash_size server)
      (ordered : (i : ℕ) → Ascending 0 (server i)) where
    files_of-Ascending :
        (n start low : ℕ)
        → start + n ≤ 2 ^ 64
        → block hash_size large low ≤ start
        → (low ≡ 0) ⊎ (block hash_size large low < start)
        → Ascending low (files_of server (upfrom start n))
    files_of-Ascending zero start low small h k = tt
    files_of-Ascending (suc n) start low small h k =
        let here =
          StartsWith-InBlock start (server start) (omega arith) (v.valid start)
            (v.prefixed start) in
        Ascending-append start low (server start) (files_of server (upfrom (start + 1) n))
          (Ascending-raise start low (server start) k (ordered start) here) here h
          (λ low' h'.
            files_of-Ascending n (start + 1) low' (omega arith) (omega arith) (inr (omega arith)))

    files_of-valid : (is : List ℕ) → All (IsRecord hash_size) (files_of server is)
    files_of-valid [] = tt
    files_of-valid (i ∷ is) =
        All-append (server i) (files_of server is) (IsRecord hash_size) (files_of-valid is)
          (v.valid i)

    files_of-IsDatabase : (n : ℕ) → n ≤ 2 ^ 64 → IsDatabase hash_size (files_of server (upfrom 0 n))
    files_of-IsDatabase n h =
        Ascending-IsDatabase hash_size (files_of server (upfrom 0 n)) (files_of-valid (upfrom 0 n))
          (files_of-Ascending n 0 0 (omega arith) (omega (arith, block-zero hash_size large))
            (inl refl))

-- A new download to a database that can be written, with options that are not refused, whose writer comes to its
-- normal end, with no more than 2 ^ 64 files: if the body of each file that was written is what the server has
-- for its index, and the server has, sorted by hash, well-formed records whose texts start with the prefix of
-- their file, then the file is a database: its records are well formed, and sorted by hash.
pub run_download-IsDatabase :
    (isa : Isa) (endian : Endian) (web : List ℕ → List ℕ) (blank : PawnedPw) (run : ℕ → Ran)
    (cli : DownloadOptions) (exists : Bool) (file : File PawnedPw) (server : ℕ → List PawnedPw)
    (threads : Config) (s : System)
    → check_download_options cli exists ≡ none
    → (cli.binfuse8_out || cli.binfuse16_out) ≡ false
    → cli.txt_out ≡ false
    → cli.resume ≡ false
    → cli.index_limit ≤ 2 ^ 64
    → Finishes cli 0 (run 0) threads s
    → Serves (size_of_hash cli) server
    → ((i : ℕ) → Ascending 0 (server i))
    → All (Delivered server) s.queue.written
    → (records : List PawnedPw) × (run_download isa endian blank run web cli exists true file
        ≡ completed (database records))
      × IsDatabase (size_of_hash cli) records
run_download-IsDatabase isa endian web blank run cli exists file server threads s allowed no_filter
      bin fresh small f v ordered d =
    (
      files_of server (upfrom 0 (cli.index_limit - 0)),
      run_download-files_of isa endian web blank run cli exists file [] 0 server threads s allowed
          no_filter bin (anew fresh) f v d,
      files_of-IsDatabase (size_of_hash cli) (size_of_hash-large cli) server v ordered
          (cli.index_limit - 0) (omega arith),
    )
