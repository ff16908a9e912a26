-- ===== src/Request/Text.antt =====
-- Texts without NUL in front of other bytes.
use boa.Common.{◌∙◌, ◌≡◌, refl, ◌∙◌, false, [], ◌∷◌, ◌++◌, append-nil, ◌==◌, All, Bytes}
use boa.Request.{c_string}

-- No NUL.
abbrev pub IsText : Bytes → Type 0
IsText = All (λ c. (c == 0) ≡ false)

pub c_string-append : (h t : Bytes) → IsText h → c_string (h ++ t) ≡ h ++ c_string t
unfolding c_string
c_string-append [] t n = refl
c_string-append (c ∷ h) t n = rw (n.0, c_string-append h t n.1) refl

-- The NUL ends the text.
pub c_string-filled : (h t : Bytes) → IsText h → c_string (h ++ 0 ∷ t) ≡ h
unfolding c_string
c_string-filled h t n = c_string-append h (0 ∷ t) n ∙ append-nil h

pub c_string-IsText : (h : Bytes) → IsText h → c_string h ≡ h
unfolding c_string
c_string-IsText [] n = refl
c_string-IsText (c ∷ h) n = rw (n.0, c_string-IsText h n.1) refl
