-- ===== src/Hibp.antt =====
-- include/hibp.hpp: the password record, its text form, and the addresses of the published files.
-- A hash is a list of bytes, a string a list of character codes.
pub mod Hex
pub mod RoundTrip
pub mod Valid
pub mod Printable
pub mod Truncated
pub mod Order
use hibp.Common.{
  ℕ, zero, suc, ◌+◌, ◌-◌, ◌*◌, ◌/◌, ◌%◌, ◌^◌, ◌<◌, Bool, true, false, List, [], ◌∷◌, ◌++◌, ltb, leb,
  ◌==◌, ◌&&◌, ◌||◌, not, if◌then◌else◌, bit_and, bit_or, length, get_or, take, drop, All, ℤ, negsuc,
  ◌≡◌, IsInt32,
}
use hibp.Text.{codes, to_chars, from_chars, format_05X}

abbrev pub IsByte : ℕ → Type 0
IsByte b = b < 256

-- `char` is signed: codes from 128 on are negative and so, like the codes below '0', give a
-- nibble that is not above 9. The cast to `std::byte` keeps the value modulo 256.
unfoldable pub make_nibble : ℕ → ℕ
make_nibble c =
    if leb 128 c || ltb c 58 then (c + 256 - 48) % 256 else (bit_and (c - 48) 0xdf + 256 - 7) % 256

unfoldable pub make_byte : ℕ → ℕ → ℕ
unfolding make_nibble
make_byte mschr lschr = bit_or (make_nibble mschr * 16 % 256) (make_nibble lschr)

unfoldable pub nibble_to_char : ℕ → ℕ
nibble_to_char n = (n + (if ltb n 10 then 48 else 55)) % 256

-- `pawned_pw<HashSize>`, for 20 (sha1), 16 (ntlm) and 8 (sha1t64).
pub record PawnedPw : Type 0 where
  pub hash : List ℕ
  pub count : ℤ

abbrev pub sha1 : ℕ
sha1 = 20

abbrev pub ntlm : ℕ
ntlm = 16

abbrev pub sha1t64 : ℕ
sha1t64 = 8

-- The loop of the constructor: `i` bytes are done, the first argument counts those left.
unfoldable pub read_hash : ℕ → ℕ → List ℕ → List ℕ
unfolding make_byte
read_hash zero i text = []
read_hash (suc k) i text =
    make_byte (get_or text (2 * i) 0) (get_or text (2 * i + 1) 0) ∷ read_hash k (i + 1) text

-- Where the count begins: one past the hash and its colon, also behind a full sha1 hash of which
-- a sha1t64 record takes the first 64 bits.
unfoldable pub count_index : ℕ → List ℕ → ℕ
count_index hash_size text =
    if hash_size == 8
      && (ltb (hash_size * 2) (length text)
          && (not (get_or text (hash_size * 2) 0 == b':') && leb (20 * 2) (length text)))
    then 20 * 2 + 1
    else hash_size * 2 + 1

-- The constructor from a line of text, without its assertions, which hold of a text that has the digits
-- of a hash, and are compiled into debug builds only; where the text is too short, zero bytes stand for
-- what lies behind it.
unfoldable pub of_text : ℕ → List ℕ → PawnedPw
unfolding read_hash count_index
of_text hash_size text =
    let idx = count_index hash_size text in
    record {
      hash = read_hash hash_size 0 text;
      count = if ltb idx (length text) then from_chars (drop idx text) (negsuc 0) else negsuc 0;
    }

unfoldable pub write_hash : List ℕ → List ℕ
unfolding nibble_to_char
write_hash [] = []
write_hash (h ∷ hs) = nibble_to_char (h / 16) ∷ nibble_to_char (bit_and h 0x0f) ∷ write_hash hs

-- The buffer of 60 characters is cut behind the last digit.
unfoldable pub to_string : PawnedPw → List ℕ
unfolding write_hash
to_string pw = write_hash pw.hash ++ b':' ∷ to_chars pw.count

-- `find_first_not_of("0123456789ABCDEF") == npos`
unfoldable pub is_upper_hex : ℕ → Bool
is_upper_hex c = leb 48 c && leb c 57 || leb 65 c && leb c 70

unfoldable pub all_upper_hex : List ℕ → Bool
unfolding is_upper_hex
all_upper_hex [] = true
all_upper_hex (c ∷ cs) = is_upper_hex c && all_upper_hex cs

unfoldable pub is_valid_hash : ℕ → List ℕ → Bool
unfolding all_upper_hex
is_valid_hash hash_size hash = length hash == hash_size * 2 && all_upper_hex hash

unfoldable pub url : List ℕ → Bool → Bool → List ℕ
url prefix_str is_ntlm testing =
    let server_path : List ℕ =
      if testing
      then codes "http://localhost:8090"
      else codes "https://api.pwnedpasswords.com/range" in
    server_path ++ codes "/" ++ prefix_str ++ (if is_ntlm then codes "?mode=ntlm" else [])

-- A record as the program keeps it: `HashSize` bytes, and a 32-bit count.
pub record IsRecord (hash_size : ℕ) (pw : PawnedPw) : Type 0 where
  pub sized : length pw.hash ≡ hash_size
  pub bytes : All IsByte pw.hash
  pub counted : IsInt32 pw.count
