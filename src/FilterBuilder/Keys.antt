-- ===== src/FilterBuilder/Keys.antt =====
-- The keys of a filter, and what the server finds of them.
use hibp.Common.{ℕ, List, []}
use hibp.Server.{Server}
use hibp.FlatFile.{Result, ok, err}

abbrev keys_in : Result (List ℕ) → List ℕ
keys_in (ok keys) = keys
keys_in (err e) = []
