-- ===== src/Hibp/Printable.antt =====
-- The characters of the text of a record.
use hibp.Common.{
  ℕ, zero, suc, ◌+◌, ◌-◌, ◌≤◌, ◌≡◌, true, List, replicate, length, [], ◌∷◌, some, All, All-append,
  arith, ℤ, pos, negsuc,
}
use Prim.{tt}
use hibp.Text.{to_chars, print_digits, digit_in, format_05X}
use hibp.Text.Digits.{IsDigit, print_digits-IsDigit}
use hibp.Text.Lines.{IsLine}
use hibp.Hibp.{PawnedPw, IsRecord, to_string, write_hash, all_upper_hex}
use hibp.Hibp.Valid.{all_upper_hex-write_hash}

abbrev pub Printable : List ℕ → Type 0
Printable text = All (λ c. 32 ≤ c) text

digit-le : (base c d : ℕ) → digit_in base c ≡ some d → 32 ≤ c
unfolding digit_in
digit-le base c d e = ground arith

digits-Printable : (base : ℕ) (text : List ℕ) → All (IsDigit base) text → Printable text
digits-Printable base [] h = tt
digits-Printable base (c ∷ text) h = (digit-le base c h.0.0 h.0.1, digits-Printable base text h.1)

upper_hex-Printable : (text : List ℕ) → all_upper_hex text ≡ true → Printable text
unfolding all_upper_hex
upper_hex-Printable [] h = tt
upper_hex-Printable (c ∷ text) h = (ground arith, upper_hex-Printable text (ground arith))

to_chars-Printable : (v : ℤ) → Printable (to_chars v)
unfolding to_chars
to_chars-Printable (pos n) =
    digits-Printable 10 (print_digits 10 10 n)
      (print_digits-IsDigit 10 (omega arith) (omega arith) 10 n)
to_chars-Printable (negsuc n) = (
  omega arith,
  digits-Printable 10 (print_digits 10 10 (n + 1))
      (print_digits-IsDigit 10 (omega arith) (omega arith) 10 (n + 1)),
)

pub to_string-Printable : (n : ℕ) (pw : PawnedPw) → IsRecord n pw → Printable (to_string pw)
to_string-Printable n pw v =
    unfold to_string in
    All-append (write_hash pw.hash) (58 ∷ to_chars pw.count) (λ c. 32 ≤ c)
      (omega arith, to_chars-Printable pw.count)
      (upper_hex-Printable (write_hash pw.hash) (all_upper_hex-write_hash pw.hash v.bytes))

pub Printable-IsLine : (text : List ℕ) → Printable text → IsLine text
Printable-IsLine [] h = tt
Printable-IsLine (c ∷ text) h = ((λ q. omega (arith, h.0)), Printable-IsLine text h.1)

replicate-Printable : (n c : ℕ) → 32 ≤ c → Printable (replicate n c)
replicate-Printable zero c h = tt
replicate-Printable (suc n) c h = (h, replicate-Printable n c h)

pub format_05X-Printable : (n : ℕ) → Printable (format_05X n)
unfolding format_05X
format_05X-Printable n =
    let digits = print_digits 16 16 n in
    All-append (replicate (5 - length digits) b'0') digits (λ c. 32 ≤ c)
      (digits-Printable 16 digits (print_digits-IsDigit 16 (omega arith) (omega arith) 16 n))
      (replicate-Printable (5 - length digits) b'0' (omega arith))
