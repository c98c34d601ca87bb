-- ===== src/Runs/Filters.antt =====
-- A filter built from a database of one record, and a server that is asked for it.
use hibp.Common.{ℕ, ◌==◌, Bool, [], true, false, some, none}
use hibp.Text.{codes}
use hibp.ArrCmp.Isa.{sse}
use hibp.ArrCmp.Endian.{little}
use hibp.FilterBuilder.{filter_key}
use hibp.Server.{Config, Externals, Server}
use hibp.Runs.Bytes.{low_pw}

abbrev holds_low : ℕ → Bool
holds_low k = k == filter_key little low_pw

abbrev cli : Config
cli = record {
  isa = sse;
  endian = little;
  json = true;
  toc = false;
  toc_bits = 2;
  perf_test = false;
  sha1_toc = [];
  ntlm_toc = [];
  sha1t64_toc = [];
  binfuse16_filter = none;
  binfuse8_filter = some holds_low;
}

abbrev ext : Externals
ext = record { sha1_of = λ text. []; ntlm_of = λ text. []; what = λ e. codes "error" }

abbrev server : Server
server = record { sha1_db = none; ntlm_db = none; sha1t64_db = none; uniq = 0 }
