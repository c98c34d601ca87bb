-- ===== src/Resume/Incomplete.antt =====
-- The resume of src/dnl/resume.cpp behind a file that was not written as a whole.
use hibp.Common.{
  ℕ, ◌+◌, ◌-◌, ◌*◌, ◌^◌, ◌≤◌, ◌<◌, ◌≡◌, ◌≢◌, refl, sym, ap, ◌∙◌, Bool, true, false, List, [], ◌∷◌,
  ◌++◌, append_assoc, some, ltb, length, length-append, length-drop, take, drop, take-append,
  take-length, take-append-drop, drop-append, map, All, All-append, arith, Bool-cases, inl, inr,
  append-nil,
}
use hibp.Text.{same_text, from_chars_hex, format_05X, to_chars}
use hibp.Text.RoundTrip.{from_chars_hex-format_05X}
use hibp.ArrCmp.{Isa, Endian}
use hibp.Hibp.{PawnedPw, IsRecord, IsByte, of_text, read_hash, write_hash}
use hibp.Hibp.RoundTrip.{length-write_hash}
use hibp.Hibp.Truncated.{read_hash-take}
use hibp.FlatFile.{Db, File, sub64}
use hibp.Download.Lines.{file_text, suffix_of, StartsWith}
use hibp.Hibp.Valid.{of_text-IsRecord}
use hibp.Resume.Trimmed.{Other, find_from_back-known}
use hibp.Resume.{
  resumed, substr, find_last_of, find_from_back, compare_file, trimmed, get_last_prefix,
}
use hibp.Resume.Trimming.{find_from_back-LastOf}
use hibp.Resume.Served.{
  NoColon, find_last_of-colon, ended, line_end, suffix_of-split, take-write_hash, served-split,
  to_chars-NoColon, line_end-NoColon,
}
use hibp.Resume.Complete.{with_last_step, get_last_prefix-with_last}

same_text-eq : (a b : List ℕ) → same_text a b ≡ true → a ≡ b
same_text-eq [] [] h = refl
same_text-eq [] (y ∷ b) h = cc
same_text-eq (x ∷ a) [] h = cc
same_text-eq (x ∷ a) (y ∷ b) h =
    let here : x ≡ y = ground arith in
    let there : same_text a b ≡ true = ground arith in rw (here, same_text-eq a b there) refl

write_hash-injective :
    (a b : List ℕ)
    → length a ≡ length b
    → All IsByte a
    → All IsByte b
    → write_hash a ≡ write_hash b
    → a ≡ b
write_hash-injective a b same va vb e =
    let one : read_hash (length a) 0 (write_hash a ++ []) ≡ take (length a) a =
      read_hash-take (length a) a [] (omega arith) va in
    let two : read_hash (length a) 0 (write_hash b ++ []) ≡ take (length a) b =
      read_hash-take (length a) b [] (omega (arith, same)) vb in
    sym (take-length a)
    ∙ sym one
    ∙ ap (λ t. read_hash (length a) 0 (t ++ [])) e
    ∙ two
    ∙ ap (λ n. take n b) same
    ∙ take-length b

-- A file of the server begins with what it has of its first record.
file_text-first :
    (terminated : Bool) (first : List ℕ) (lines : List (List ℕ))
    → (rest : List ℕ) × (file_text terminated (first ∷ lines) ≡ first ++ rest)
file_text-first true first [] = (13 ∷ 10 ∷ [], refl)
file_text-first false first [] = ([], sym (append-nil first))
file_text-first terminated first (next ∷ lines) =
    (13 ∷ 10 ∷ file_text terminated (next ∷ lines), refl)

module _ (isa : Isa) (endian : Endian) (hash_size : ℕ) (large : 3 ≤ hash_size) where
  compare_file_incomplete :
      (text lead own tail : List ℕ) (records : List PawnedPw) (db : Db PawnedPw)
      → length own ≡ hash_size * 2 - 5
      → NoColon tail
      → own ≢ take (hash_size * 2 - 5) (drop 5 text)
      → (let body = lead ++ (own ++ 58 ∷ tail) in
          compare_file isa endian hash_size text body (find_last_of 58 body) records db ≡ (
            let first_file_hash = take 5 text ++ take (hash_size * 2 - 5) body in
            trimmed isa endian hash_size first_file_hash records (
              find_from_back isa endian hash_size
                (of_text hash_size first_file_hash)
                db.dbsize
                db)))
  unfolding compare_file
  compare_file_incomplete text lead own tail records db long h differs =
      let size = hash_size * 2 - 5 in
      let body = lead ++ (own ++ 58 ∷ tail) in
      let colon : find_last_of 58 body ≡ some (length (lead ++ own)) =
        ap (find_last_of 58) (sym (append_assoc lead own (58 ∷ tail)))
        ∙ find_last_of-colon (lead ++ own) tail h in
      let place : length (lead ++ own) ≡ length lead + size =
        omega (arith, length-append lead own, long) in
      let far : ltb (length lead + size) size ≡ false = ground arith in
      let start : length lead + size - size ≡ length lead = omega arith in
      let found : substr body (length lead) size ≡ own =
        ap (take size) (drop-append lead (own ++ 58 ∷ tail) (length lead) refl)
        ∙ take-append own (58 ∷ tail) size long in
      let other : same_text own (substr text 5 size) ≡ false =
        elim (Bool-cases (same_text own (substr text 5 size))) [
          | inl e ↦ absurd (differs (same_text-eq own (substr text 5 size) e))
          | inr e ↦ e
        ] in
      rw (colon, place, compare_file, far, start, found, other) refl

  of_text-write_hash :
      (hash : List ℕ)
      → length hash ≡ hash_size
      → All IsByte hash
      → (of_text hash_size (write_hash hash)).hash ≡ hash
  unfolding of_text
  of_text-write_hash hash sized bytes =
      ap (read_hash hash_size 0) (sym (append-nil (write_hash hash)))
      ∙ read_hash-take hash_size hash [] (omega (arith, sized)) bytes
      ∙ ap (λ n. take n hash) (sym sized)
      ∙ take-length hash

  -- The needle's text: the prefix, and what is at the front of the file of the server.
  first_file_hash-write_hash :
      (terminated : Bool) (first : PawnedPw) (more : List PawnedPw) (prefix : List ℕ)
      → IsRecord hash_size first
      → StartsWith prefix first
      → prefix ++ take (hash_size * 2 - 5) (file_text terminated (map suffix_of (first ∷ more)))
        ≡ write_hash first.hash
  first_file_hash-write_hash terminated first more prefix v starts =
      let text = write_hash first.hash in
      let size = hash_size * 2 - 5 in
      let long : length (drop 5 text) ≡ size =
        omega (arith, length-drop 5 text, length-write_hash first.hash, v.sized) in
      let (rest, begins) = file_text-first terminated (suffix_of first) (map suffix_of more) in
      let count = 58 ∷ to_chars first.count in
      let front : take size (file_text terminated (map suffix_of (first ∷ more))) ≡ drop 5 text =
        ap (take size) (
          begins
          ∙ ap (λ t. t ++ rest) (suffix_of-split hash_size large first v)
          ∙ append_assoc (drop 5 text) count rest)
        ∙ take-append (drop 5 text) (count ++ rest) size long in
      ap (λ t. prefix ++ t) front
      ∙ ap (λ t. t ++ drop 5 text) (sym (take-write_hash hash_size large first v ∙ starts))
      ∙ take-append-drop 5 text

  -- Two hashes with one prefix differ behind it.
  suffix-differs :
      (a b : PawnedPw) (prefix : List ℕ)
      → IsRecord hash_size a
      → IsRecord hash_size b
      → StartsWith prefix a
      → StartsWith prefix b
      → a.hash ≢ b.hash
      → drop 5 (write_hash a.hash) ≢ take (hash_size * 2 - 5) (drop 5 (write_hash b.hash))
  suffix-differs a b prefix va vb sa sb differs e =
      let text = write_hash b.hash in
      let long : length (drop 5 text) ≡ hash_size * 2 - 5 =
        omega (arith, length-drop 5 text, length-write_hash b.hash, vb.sized) in
      let back : drop 5 (write_hash a.hash) ≡ drop 5 text =
        e ∙ ap (λ n. take n (drop 5 text)) (sym long) ∙ take-length (drop 5 text) in
      let front : take 5 (write_hash a.hash) ≡ take 5 text =
        take-write_hash hash_size large a va
        ∙ sa
        ∙ sym (take-write_hash hash_size large b vb ∙ sb) in
      let whole : write_hash a.hash ≡ text =
        sym (take-append-drop 5 (write_hash a.hash))
        ∙ ap (λ t. t ++ drop 5 (write_hash a.hash)) front
        ∙ ap (λ t. take 5 text ++ t) back
        ∙ take-append-drop 5 text in
      differs (write_hash-injective a.hash b.hash (va.sized ∙ sym vb.sized) va.bytes vb.bytes whole)

  module _ (web : List ℕ → List ℕ) (blank : PawnedPw) where
    -- A file that ends with a part of what the server has for a prefix, from its first hash on and not
    -- with its last, is cut before that part, and its prefix counts as still to be downloaded: the
    -- result is the one before it, as 64 bits. This is for a readable file of fewer than 2 ^ 64
    -- well-formed records, whose last has that prefix as the first and last records of the server do, and
    -- in which the first hash of the server is not found again; and for a file of the server with carriage
    -- return and newline between its lines, and with or without these at its end.
    pub get_last_prefix_incomplete :
        (before part earlier more others : List PawnedPw) (kept last first final : PawnedPw)
        (file : File PawnedPw) (i : ℕ) (terminated : Bool)
        → file.records ≡ before ++ kept ∷ part
        → file.records ≡ earlier ++ last ∷ []
        → file.readable ≡ true
        → length file.records < 2 ^ 64
        → i < 2 ^ 64
        → IsRecord hash_size last
        → All (IsRecord hash_size) (kept ∷ part)
        → All (IsRecord hash_size) (first ∷ final ∷ [])
        → All (StartsWith (format_05X i)) (last ∷ first ∷ final ∷ [])
        → first ∷ more ≡ others ++ final ∷ []
        → kept.hash ≡ first.hash
        → All (Other first.hash) part
        → final.hash ≢ last.hash
        → web (format_05X i) ≡ file_text terminated (map suffix_of (first ∷ more))
        → get_last_prefix isa endian hash_size web blank file ≡ resumed (sub64 i 1) before
    get_last_prefix_incomplete before part earlier more others kept last first final file i
          terminated records ends readable small h v vk vs starts served_ends same other differs
          served =
        let text = write_hash last.hash in
        let n = hash_size in
        let body = file_text terminated (map suffix_of (first ∷ more)) in
        let lead = ended (map suffix_of others) in
        let own = drop 5 (write_hash final.hash) in
        let tail = to_chars final.count ++ line_end terminated in
        let prefix : take 5 text ≡ format_05X i = take-write_hash n large last v ∙ starts.0 in
        let whole : body ≡ lead ++ (own ++ 58 ∷ tail) =
          ap (λ t. file_text terminated (map suffix_of t)) served_ends
          ∙ served-split n large terminated others final vs.1.0 in
        let needle_text : take 5 text ++ take (n * 2 - 5) body ≡ write_hash first.hash =
          ap (λ t. t ++ take (n * 2 - 5) body) prefix
          ∙ first_file_hash-write_hash terminated first more (format_05X i) vs.0 starts.1.0 in
        let needle = of_text n (write_hash first.hash) in
        let needle_hash : needle.hash ≡ first.hash =
          of_text-write_hash first.hash vs.0.sized vs.0.bytes in
        let needle_valid = of_text-IsRecord n (write_hash first.hash) in
        let (db, begun, r) =
          get_last_prefix-with_last isa endian n large web blank earlier last file ends readable
            small in
        let searched =
          find_from_back-LastOf isa endian n needle file.records (length file.records) db r
            (omega arith) in
        begun
        ∙ with_last_step isa endian n large web blank file.records last db body v
            (ap web prefix ∙ served)
        ∙ ap (λ t. compare_file isa endian n text t (find_last_of 58 t) file.records db) whole
        ∙ compare_file_incomplete text lead own tail file.records db
            (omega (
              arith,
              length-drop 5 (write_hash final.hash),
              length-write_hash final.hash,
              vs.1.0.sized,
            ))
            (All-append (to_chars final.count) (line_end terminated) (λ c. c ≢ 58)
              (line_end-NoColon terminated) (to_chars-NoColon final.count))
            (suffix-differs final last (format_05X i) vs.1.0 v starts.1.1.0 starts.0 differs)
        ∙ ap
            (λ t.
              trimmed isa endian n t file.records
                (find_from_back isa endian n (of_text n t) db.dbsize db))
            (ap (λ t. take 5 text ++ take (n * 2 - 5) t) (sym whole) ∙ needle_text)
        ∙ ap
            (λ size.
              trimmed isa endian n (write_hash first.hash) file.records
                (find_from_back isa endian n needle size db))
            r.coherent.sized
        ∙ find_from_back-known isa endian n needle needle_valid (write_hash first.hash) before part
            file.records kept (find_from_back isa endian n needle (length file.records) db) records
            vk.0 (same ∙ sym needle_hash) vk.1 (rw (← needle_hash) at other) searched
        ∙ ap (λ t. resumed (sub64 t 1) before)
            (ap (λ t. from_chars_hex t 0) (take-write_hash n large first vs.0 ∙ starts.1.0)
              ∙ from_chars_hex-format_05X i 0 h)
