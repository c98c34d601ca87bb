-- ===== src/Server/Answers.antt =====
-- What the server answers about a hash.
use hibp.Common.{
  ℕ, ◌≡◌, refl, Bool, true, false, List, ◌++◌, if◌then◌else◌, Option, none, some, ◌==◌,
}
use hibp.Text.{codes, to_chars}
use hibp.Hibp.{PawnedPw, is_valid_hash, ntlm}
use hibp.FlatFile.{Db}
use hibp.Server.{
  Config, Externals, Server, Response, handle_hash_search, handle_plain_search, plain_needle,
}

-- An answer with this number.
abbrev pub reply : Bool → List ℕ → Response
reply json number = record {
  status = 200;
  content_type =
      if json then codes "application/json; charset=utf-8" else codes "text/plain; charset=utf-8";
  body = if json then codes "{\"count\":" ++ number ++ codes "}" else number ++ codes "\n";
  connection_close = false;
}

-- The count of a record in decimal digits, or -1.
abbrev pub number_for : Option PawnedPw → List ℕ
number_for none = codes "-1"
number_for (some pw) = to_chars pw.count

module _ (cli : Config) (ext : Externals) where
  -- With hashes of another size than those of NTLM, searching a plain password is searching the hash
  -- that SHA1 gives for it, if that is a valid hash of the size.
  pub handle_plain_search-handle_hash_search :
      (hash_size : ℕ) (table password : List ℕ)
      → (hash_size == ntlm) ≡ false
      → is_valid_hash hash_size (ext.sha1_of password) ≡ true
      → (db : Db PawnedPw)
      → handle_plain_search cli ext hash_size table password db
        ≡ handle_hash_search cli ext hash_size table (ext.sha1_of password) db
  unfolding handle_plain_search handle_hash_search
  handle_plain_search-handle_hash_search hash_size table password n e db =
      rw (handle_plain_search, handle_hash_search, plain_needle, n, e) refl
