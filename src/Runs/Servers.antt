-- ===== src/Runs/Servers.antt =====
-- A server with two SHA1 hashes, and one with three hashes of 8 bytes.
use hibp.Common.{Bool, List, [], ◌∷◌, none, some, false}
use hibp.ArrCmp.Isa.{sse}
use hibp.ArrCmp.Endian.{little}
use hibp.Text.{codes}
use hibp.Hibp.{PawnedPw}
use hibp.FlatFile.{Db}
use hibp.Server.{Config, Externals, Server}
use hibp.Runs.Bytes.{low_pw, high_pw}

abbrev cli : Bool → Config
cli toc = record {
  isa = sse;
  endian = little;
  json = false;
  toc = toc;
  toc_bits = 2;
  perf_test = false;
  sha1_toc = [];
  ntlm_toc = [];
  sha1t64_toc = 0 ∷ 1 ∷ 2 ∷ [];
  binfuse16_filter = none;
  binfuse8_filter = none;
}

abbrev ext : Externals
ext = record {
  sha1_of = λ text. codes "CBFDAC6008F9CAB4083784CBD1874F76618D2A97";
  ntlm_of = λ text. [];
  what = λ e. codes "error";
}

abbrev both : List PawnedPw
both = low_pw ∷ high_pw ∷ []

abbrev both_db : Db PawnedPw
both_db = record {
  records = both;
  dbsize = 2;
  failed = false;
  buf_start = 0;
  buf_end = 0;
  buf = low_pw ∷ [];
}

abbrev server : Server
server = record { sha1_db = some both_db; ntlm_db = none; sha1t64_db = none; uniq = 0 }
