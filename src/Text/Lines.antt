-- ===== src/Text/Lines.antt =====
-- Lines of a text.
use hibp.Common.{ℕ, ◌≡◌, ◌≢◌, refl, ap, ◌∙◌, false, List, [], ◌∷◌, ◌++◌, ◌==◌, All, arith}
use hibp.Text.{getlines, lengthen, unlines}

abbrev pub IsLine : List ℕ → Type 0
IsLine line = All (λ c. c ≢ 10) line

pub getlines-line :
    (line rest : List ℕ) → IsLine line → getlines (line ++ 10 ∷ rest) ≡ line ∷ getlines rest
unfolding getlines
getlines-line [] rest h = refl
getlines-line (c ∷ line) rest h =
    let other : (c == 10) ≡ false = ground (arith, h.0) in
    rw (other, getlines-line line rest h.1) refl

-- A text that ends without a newline has its end for its last line.
pub getlines-last :
    (c : ℕ) (line : List ℕ) → IsLine (c ∷ line) → getlines (c ∷ line) ≡ (c ∷ line) ∷ []
unfolding getlines
getlines-last c [] h = let other : (c == 10) ≡ false = ground (arith, h.0) in rw other refl
getlines-last c (d ∷ line) h =
    let other : (c == 10) ≡ false = ground (arith, h.0) in
    rw (getlines, other) (ap (lengthen c) (getlines-last d line h.1))

-- Lines without a newline in them, each written with its newline, are read back as they were.
pub getlines-unlines : (lines : List (List ℕ)) → All IsLine lines → getlines (unlines lines) ≡ lines
getlines-unlines [] h = unfold getlines in refl
getlines-unlines (line ∷ lines) h =
    getlines-line line (unlines lines) h.0 ∙ ap (◌∷◌ line) (getlines-unlines lines h.1)
