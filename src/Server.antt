-- ===== src/Server.antt =====
-- src/srv/server.cpp: the handlers of a request and the choice between them. SHA1, NTLM, the filters
-- and the messages of exceptions are parameters.
pub mod Answers
use hibp.Common.{
  ℕ, zero, suc, ◌+◌, ◌-◌, ◌/◌, ◌%◌, ◌^◌, ltb, Bool, true, false, List, [], ◌∷◌, ◌++◌, Option, none,
  some, ◌==◌, ◌&&◌, not, if◌then◌else◌, ℤ, pos, negsuc,
}
use hibp.Text.{codes, same_text, to_chars}
use hibp.ArrCmp.{Isa, Endian, bytearray_cast}
use hibp.Hibp.{PawnedPw, of_text, is_valid_hash, sha1, ntlm, sha1t64}
use hibp.FlatFile.{Db, Result, M, ok, err, Error}
use hibp.Toc.{search_db}

pub record Response : Type 0 where
  pub status : ℕ
  pub content_type : List ℕ
  pub body : List ℕ
  pub connection_close : Bool

-- The options, and what a process has for all its threads: the tables of contents and the filters.
pub record Config : Type 0 where
  pub isa : Isa
  pub endian : Endian
  pub json : Bool
  pub toc : Bool
  pub toc_bits : ℕ
  pub perf_test : Bool
  pub sha1_toc : List ℕ
  pub ntlm_toc : List ℕ
  pub sha1t64_toc : List ℕ
  pub binfuse16_filter : Option (ℕ → Bool)
  pub binfuse8_filter : Option (ℕ → Bool)

-- `SHA1{}(text)`, as a text, `ntlm(text)`, as bytes, and `e.what()`.
pub record Externals : Type 0 where
  pub sha1_of : List ℕ → List ℕ
  pub ntlm_of : List ℕ → List ℕ
  pub what : Error → List ℕ

-- The databases of a thread, those that it has, and the counter that all threads share,
-- as its 32 bits.
pub record Server : Type 0 where
  pub sha1_db : Option (Db PawnedPw)
  pub ntlm_db : Option (Db PawnedPw)
  pub sha1t64_db : Option (Db PawnedPw)
  pub uniq : ℕ

unfoldable pub respond : Bool → ℤ → Response
respond json count = record {
  status = 200;
  content_type =
      (if json then codes "application/json" else codes "text/plain") ++ codes "; charset=utf-8";
  body =
      if json
      then codes "{\"count\":" ++ to_chars count ++ codes "}"
      else to_chars count ++ codes "\n";
  connection_close = false;
}

abbrev pub failure : ℕ → List ℕ → Response
failure status body = record {
  status = status;
  content_type = [];
  body = body;
  connection_close = true;
}

unfoldable pub bad_request : List ℕ → Response
bad_request msg = failure 400 (msg ++ codes "\n")

unfoldable pub fail_missing_db_for_format : List ℕ → List ℕ → Response
unfolding bad_request
fail_missing_db_for_format option endpoint =
    bad_request
      (codes "You need to pass " ++ option ++ codes " for a " ++ endpoint ++ codes " request.")

abbrev pub count_of : Option PawnedPw → ℤ
count_of none = negsuc 0
count_of (some pw) = pw.count

-- A number of 32 bits as an `int`.
abbrev pub as_int : ℕ → ℤ
as_int n = if ltb n (2 ^ 31) then pos n else negsuc (2 ^ 32 - 1 - n)

module _ (cli : Config) (ext : Externals) where
  abbrev answered : Result (Option PawnedPw) × Db PawnedPw → Result Response × Db PawnedPw
  answered (ok maybe_ppw, db) = (ok (respond cli.json (count_of maybe_ppw)), db)
  answered (err e, db) = (err e, db)

  unfoldable pub search_and_respond : ℕ → List ℕ → PawnedPw → M (Db PawnedPw) Response
  unfolding search_db respond
  search_and_respond hash_size table needle db =
      answered (search_db cli.isa cli.endian hash_size cli.toc_bits table needle cli.toc db)

  unfoldable pub handle_hash_search : ℕ → List ℕ → List ℕ → M (Db PawnedPw) Response
  unfolding search_and_respond bad_request
  handle_hash_search hash_size table password db = elim (is_valid_hash hash_size password) [
    | false ↦ (ok (bad_request (codes "Invalid hash provided. Check type of hash.")), db)
    | true ↦ search_and_respond hash_size table (of_text hash_size password) db
  ]

  -- The password, and the counter afterwards, an `int` of 32 bits that wraps around.
  unfoldable pub uniqefy_plain : List ℕ → ℕ → List ℕ × ℕ
  uniqefy_plain plain_password uniq =
      if cli.perf_test
      then (plain_password ++ to_chars (as_int uniq), (uniq + 1) % 2 ^ 32)
      else (plain_password, uniq)

  -- The needle of a plain password: `ntlm` for hashes of its size, else the text of its SHA1.
  unfoldable pub plain_needle : ℕ → List ℕ → PawnedPw
  plain_needle hash_size plain_password =
      if hash_size == ntlm
      then record { hash = ext.ntlm_of plain_password; count = negsuc 0 }
      else of_text hash_size (ext.sha1_of plain_password)

  unfoldable pub handle_plain_search : ℕ → List ℕ → List ℕ → M (Db PawnedPw) Response
  unfolding plain_needle search_and_respond
  handle_plain_search hash_size table plain_password =
      search_and_respond hash_size table (plain_needle hash_size plain_password)

  unfoldable pub handle_filter_search : (ℕ → Bool) → ℕ → Response
  unfolding respond
  handle_filter_search contains needle =
      respond cli.json (if contains needle then pos 1 else negsuc 0)

  abbrev pub filter_needle : List ℕ → ℕ
  filter_needle text = bytearray_cast cli.endian 8 true (of_text sha1t64 text).hash

  unfoldable pub handle_plain_filter_search : (ℕ → Bool) → List ℕ → Response
  unfolding handle_filter_search
  handle_plain_filter_search contains plain_password =
      handle_filter_search contains (filter_needle (ext.sha1_of plain_password))

  unfoldable pub handle_hash_filter_search : (ℕ → Bool) → List ℕ → Response
  unfolding handle_filter_search bad_request
  handle_hash_filter_search contains password =
      if is_valid_hash sha1t64 password
      then handle_filter_search contains (filter_needle password)
      else bad_request (codes "Invalid hash provided. Check type of hash.")

  -- An exception of a handler becomes a response.
  abbrev caught : Result Response × Db PawnedPw → Response × Db PawnedPw
  caught (ok r, db) = (r, db)
  caught (err e, db) = (failure 500 (ext.what e), db)

  abbrev on_sha1 : Server → Result Response × Db PawnedPw → Response × Server
  on_sha1 s o = ((caught o).0, record s { sha1_db = some (caught o).1 })

  abbrev on_ntlm : Server → Result Response × Db PawnedPw → Response × Server
  on_ntlm s o = ((caught o).0, record s { ntlm_db = some (caught o).1 })

  abbrev on_sha1t64 : Server → Result Response × Db PawnedPw → Response × Server
  on_sha1t64 s o = ((caught o).0, record s { sha1t64_db = some (caught o).1 })

  -- The counter goes on when a plain password is searched, in whatever there is.
  abbrev uniq_password : List ℕ → Server → List ℕ
  unfolding uniqefy_plain
  uniq_password password s = (uniqefy_plain password s.uniq).0

  abbrev uniq_next : List ℕ → Server → Server
  unfolding uniqefy_plain
  uniq_next password s = record s { uniq = (uniqefy_plain password s.uniq).1 }

  abbrev plain_filters : Option (ℕ → Bool) → Option (ℕ → Bool) → List ℕ → Server → Response × Server
  unfolding uniq_password uniq_next handle_plain_filter_search fail_missing_db_for_format
  plain_filters (some contains) f password s =
      (handle_plain_filter_search contains (uniq_password password s), uniq_next password s)
  plain_filters none (some contains) password s =
      (handle_plain_filter_search contains (uniq_password password s), uniq_next password s)
  plain_filters none none password s = (
    fail_missing_db_for_format
        (codes "--sha1-db, --ntlm-db, --sha1t64-db, --binfuse16-filter or --binfuse8-filter, ")
        (codes "/check/plain"),
    s,
  )

  abbrev plain_sha1t64 : Option (Db PawnedPw) → List ℕ → Server → Response × Server
  unfolding uniq_password uniq_next handle_plain_search plain_filters
  plain_sha1t64 (some db) password s =
      on_sha1t64 (uniq_next password s)
        (handle_plain_search sha1t64 cli.sha1t64_toc (uniq_password password s) db)
  plain_sha1t64 none password s = plain_filters cli.binfuse16_filter cli.binfuse8_filter password s

  abbrev plain_ntlm : Option (Db PawnedPw) → List ℕ → Server → Response × Server
  unfolding uniq_password uniq_next handle_plain_search plain_sha1t64
  plain_ntlm (some db) password s =
      on_ntlm (uniq_next password s)
        (handle_plain_search ntlm cli.ntlm_toc (uniq_password password s) db)
  plain_ntlm none password s = plain_sha1t64 s.sha1t64_db password s

  -- The first database or filter there is, in the order of the code.
  unfoldable pub check_plain : Option (Db PawnedPw) → List ℕ → Server → Response × Server
  unfolding uniq_password uniq_next handle_plain_search plain_ntlm
  check_plain (some db) password s =
      on_sha1 (uniq_next password s)
        (handle_plain_search sha1 cli.sha1_toc (uniq_password password s) db)
  check_plain none password s = plain_ntlm s.ntlm_db password s

  unfoldable pub check_sha1 : Option (Db PawnedPw) → List ℕ → Server → Response × Server
  unfolding handle_hash_search fail_missing_db_for_format
  check_sha1 none password s =
      (fail_missing_db_for_format (codes "--sha1-db") (codes "/check/sha1"), s)
  check_sha1 (some db) password s = on_sha1 s (handle_hash_search sha1 cli.sha1_toc password db)

  unfoldable pub check_ntlm : Option (Db PawnedPw) → List ℕ → Server → Response × Server
  unfolding handle_hash_search fail_missing_db_for_format
  check_ntlm none password s =
      (fail_missing_db_for_format (codes "--ntlm-db") (codes "/check/ntlm"), s)
  check_ntlm (some db) password s = on_ntlm s (handle_hash_search ntlm cli.ntlm_toc password db)

  unfoldable pub check_sha1t64 : Option (Db PawnedPw) → List ℕ → Server → Response × Server
  unfolding handle_hash_search fail_missing_db_for_format
  check_sha1t64 none password s =
      (fail_missing_db_for_format (codes "--sha1t64-db") (codes "/check/sha1t64"), s)
  check_sha1t64 (some db) password s =
      on_sha1t64 s (handle_hash_search sha1t64 cli.sha1t64_toc password db)

  unfoldable pub check_filter : Option (ℕ → Bool) → List ℕ → List ℕ → List ℕ → Response
  unfolding handle_hash_filter_search fail_missing_db_for_format
  check_filter none option endpoint password = fail_missing_db_for_format option endpoint
  check_filter (some contains) option endpoint password =
      handle_hash_filter_search contains password

  -- The handler of `/check/:format/:password`.
  unfoldable pub check : List ℕ → List ℕ → Server → Response × Server
  unfolding check_plain check_sha1 check_ntlm check_sha1t64 check_filter
  check format password s =
      if same_text format (codes "plain")
      then check_plain s.sha1_db password s
      else if same_text format (codes "sha1")
      then check_sha1 s.sha1_db password s
      else if same_text format (codes "ntlm")
      then check_ntlm s.ntlm_db password s
      else if same_text format (codes "sha1t64")
      then check_sha1t64 s.sha1t64_db password s
      else if same_text format (codes "binfuse16")
      then (
        check_filter cli.binfuse16_filter (codes "--binfuse16-filter") (codes "/check/binfuse16")
            password,
        s,
      )
      else if same_text format (codes "binfuse8")
      then (
        check_filter cli.binfuse8_filter (codes "--binfuse8-filter") (codes "/check/binfuse8")
            password,
        s,
      )
      else (failure 404 (codes "Bad format specified."), s)
