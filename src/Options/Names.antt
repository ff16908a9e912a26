-- ===== src/Options/Names.antt =====
-- The name of a header line: its case, and hyphens for underscores, make no difference.
use boa.Common.{ℕ, ◌≡◌, refl, false, some, [], ◌∷◌, ◌++◌, ◌==◌, All, Bytes}
use boa.Host.{to_upper}
use boa.Options.{Headers, split_colon, process_option_line, take_split}

-- A text without a colon.
abbrev pub NoColon : Bytes → Type 0
NoColon s = All (λ c. (c == b':') ≡ false) s

split_colon-append :
    (name value : Bytes) → NoColon name → split_colon (name ++ b':' ∷ value) ≡ some (name, value)
unfolding split_colon
split_colon-append [] value h = refl
split_colon-append (c ∷ name) value h = rw (h.0, split_colon-append name value h.1) refl

-- Two header lines with the same value and with names that hold no colon and are equal in upper
-- case, with underscores for hyphens, do the same.
pub process_option_line-to_upper :
    (ka_max : ℕ) (a b value : Bytes) (h : Headers)
    → NoColon a
    → NoColon b
    → to_upper a ≡ to_upper b
    → process_option_line ka_max (a ++ b':' ∷ value) h
      ≡ process_option_line ka_max (b ++ b':' ∷ value) h
unfolding process_option_line take_split
process_option_line-to_upper ka_max a b value h p q e =
    rw (split_colon-append a value p, split_colon-append b value q, e) refl
