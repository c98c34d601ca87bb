-- ===== src/Programs.antt =====
-- The programs in app/: the search program, the options of the downloader, the search for
-- duplicates and the query of a filter. SHA1, NTLM and the filters are parameters.
pub mod Decisions
use hibp.Common.{
  ℕ, zero, suc, ◌+◌, ◌-◌, ◌/◌, ◌^◌, Bool, true, false, List, [], ◌∷◌, ◌++◌, Option, none, some,
  ◌==◌, ◌&&◌, ◌||◌, not, if◌then◌else◌, leb, negsuc,
}
use hibp.ArrCmp.{Isa, Endian, bytearray_cast}
use hibp.Hibp.{PawnedPw, of_text, is_valid_hash, ntlm, sha1t64}
use hibp.FlatFile.{Db, Result, M, ok, err, return, ◌>>=◌, deref, add64}
use hibp.Search.{at}
use hibp.Toc.{search_db}

-- app/hibp_search.cpp: the needle, for a password or, with `--hash`, for a hash that is valid.
unfoldable pub search_needle :
    (List ℕ → List ℕ) → (List ℕ → List ℕ) → ℕ → Bool → List ℕ → Option PawnedPw
search_needle sha1_of ntlm_of hash_size hash plain_text_password =
    if hash
    then (if is_valid_hash hash_size plain_text_password
        then some (of_text hash_size plain_text_password)
        else none)
    else if hash_size == ntlm
    then some (record { hash = ntlm_of plain_text_password; count = negsuc 0 })
    else some (of_text hash_size (sha1_of plain_text_password))

-- The end of `run_search`: nothing for a hash that is not valid, else what was found.
abbrev found_for :
    Isa
    → Endian
    → ℕ
    → ℕ
    → List ℕ
    → Bool
    → Option PawnedPw
    → Db PawnedPw
    → Option (Result (Option PawnedPw) × Db PawnedPw)
found_for isa endian hash_size bits table toc none db = none
found_for isa endian hash_size bits table toc (some needle) db =
    some (search_db isa endian hash_size bits table needle toc db)

unfoldable pub run_search :
    Isa
    → Endian
    → (List ℕ → List ℕ)
    → (List ℕ → List ℕ)
    → ℕ
    → ℕ
    → List ℕ
    → Bool
    → Bool
    → List ℕ
    → Db PawnedPw
    → Option (Result (Option PawnedPw) × Db PawnedPw)
unfolding search_needle search_db
run_search isa endian sha1_of ntlm_of hash_size bits table toc hash plain_text_password db =
    found_for isa endian hash_size bits table toc
      (search_needle sha1_of ntlm_of hash_size hash plain_text_password) db

-- include/dnl/shared.hpp and app/hibp_download.cpp
pub record DownloadOptions : Type 0 where
  pub resume : Bool
  pub ntlm : Bool
  pub sha1t64 : Bool
  pub txt_out : Bool
  pub binfuse8_out : Bool
  pub binfuse16_out : Bool
  pub force : Bool
  pub index_limit : ℕ

-- The complaints of `check_options`, in its order.
pub data DownloadComplaint : Type 0 where
  resume_txt resume_binfuse binfuse_format resume_force two_formats file_exists : DownloadComplaint

unfoldable pub check_download_options : DownloadOptions → Bool → Option DownloadComplaint
check_download_options cli exists =
    if cli.txt_out && cli.resume
    then some resume_txt
    else if (cli.binfuse8_out || cli.binfuse16_out) && cli.resume
    then some resume_binfuse
    else if (cli.binfuse8_out || cli.binfuse16_out) && (cli.txt_out || cli.ntlm || cli.sha1t64)
    then some binfuse_format
    else if cli.force && cli.resume
    then some resume_force
    else if cli.ntlm && cli.sha1t64
    then some two_formats
    else if not cli.resume && not cli.force && exists
    then some file_exists
    else none

-- `get_start_index`, where `get_last_prefix` has answered `last_prefix`; nothing if there is nothing
-- to do.
unfoldable pub get_start_index : DownloadOptions → ℕ → Option ℕ
get_start_index cli last_prefix =
    if cli.resume
    then (if leb cli.index_limit (add64 last_prefix 1) then none else some (add64 last_prefix 1))
    else some 0

-- app/hibp_dupes.cpp: the records whose first `bits` bits are those of the record before.
unfoldable pub find_dupes : Endian → ℕ → ℕ → ℕ → ℕ → List PawnedPw → M (Db PawnedPw) (List PawnedPw)
unfolding deref bytearray_cast
find_dupes endian bits zero pos last dupes = return dupes
find_dupes endian bits (suc n) pos last dupes = do
  (pw, it) ← deref (at pos)
  let prefix = bytearray_cast endian 8 true pw.hash / 2 ^ (64 - bits)
  find_dupes endian bits n (pos + 1) prefix (if prefix == last then dupes ++ (pw ∷ []) else dupes)

unfoldable pub run_dupes : Endian → ℕ → M (Db PawnedPw) (List PawnedPw)
unfolding find_dupes
run_dupes endian bits db = find_dupes endian bits db.dbsize 0 (2 ^ 64 - 1) [] db

-- app/hibp_query_filter.cpp, which opens a filter of 16 bits; `contains` is such a filter, and not one
-- that app/hibp_build_filter.cpp has built, which has 8.
unfoldable pub query_needle : Endian → (List ℕ → List ℕ) → Bool → List ℕ → ℕ
unfolding bytearray_cast
query_needle endian sha1_of hash plain_text_password =
    bytearray_cast endian 8 true
      (of_text sha1t64 (if hash then plain_text_password else sha1_of plain_text_password)).hash

unfoldable pub query : Endian → (List ℕ → List ℕ) → (ℕ → Bool) → Bool → List ℕ → Bool
unfolding query_needle
query endian sha1_of contains hash plain_text_password =
    contains (query_needle endian sha1_of hash plain_text_password)
