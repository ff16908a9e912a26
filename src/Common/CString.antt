-- ===== src/Common/CString.antt =====
-- C strings: the bytes in front of the terminating NUL, as numbers below 256.
use Prim.Native.Nat.{ℕ}
use Prim.Native.Char.{code}
use Prim.Native.String.{String}
use mathlib.Core.Path.{◌≡◌, refl, ap₂}
use mathlib.Core.Logic.{◌↔◌}
use mathlib.Core.Bool.{Bool, true, false, ◌&&◌, ◌||◌}
use mathlib.Core.List.{List, [], ◌∷◌, ◌++◌}
use native.Mathlib.Omega.{arith}
use boa.Common.Tests.{◌==◌, eq-of-==, and-eq-true}

abbrev pub Bytes : Type 0
Bytes = List ℕ

-- The bytes of a literal, which is ASCII wherever this is used.
abbrev pub codes : String → Bytes
codes String.[] = []
codes (String.◌∷◌ c s) = code c ∷ codes s

-- strcmp (a, b) == 0
unfoldable pub str_eq : Bytes → Bytes → Bool
str_eq [] [] = true
str_eq (a ∷ s) (b ∷ t) = a == b && str_eq s t
str_eq _ _ = false

pub str_eq_iff : (a b : Bytes) → (str_eq a b ≡ true) ↔ (a ≡ b)
unfolding str_eq
str_eq_iff (x ∷ a) (y ∷ b) = ground (arith, str_eq_iff a b)
str_eq_iff _ _ = ground arith

-- strncmp (s, p, strlen (p)) == 0
abbrev pub starts : Bytes → Bytes → Bool
starts [] s = true
starts (p ∷ ps) [] = false
starts (p ∷ ps) (c ∷ s) = c == p && starts ps s

-- What stands behind a text that another one starts with.
pub starts_split : (p s : Bytes) → starts p s ≡ true → (t : Bytes) × (s ≡ p ++ t)
starts_split [] s e = (s, refl)
starts_split (c ∷ p) [] e = absurd (ground (arith, e))
starts_split (c ∷ p) (d ∷ s) e =
    let both = and-eq-true (d == c) (starts p s) e in
    let (t, r) = starts_split p s both.1 in (t, ap₂ (λ a b. a ∷ b) (eq-of-== d c both.0) r)

-- strchr (s, c) != NULL
unfoldable pub member : ℕ → Bytes → Bool
member c [] = false
member c (d ∷ s) = c == d || member c s
