-- ===== src/Uri/RoundTrip.antt =====
-- `unescape_uri` undoes `escape_string`.
use boa.Common.{
  ℕ, ◌/◌, ◌%◌, ◌<◌, ◌≡◌, refl, ap, ◌≢◌, inl, inr, true, false, Option, [], ◌∷◌, arith, ◌==◌,
  eq-of-==, Bool-cases, All, Bytes, check_range, check_range-below, member,
}
use boa.Escape.{needs_escape, escape_loop, int_to_hex}
use boa.Escape.Table.{is_noescape, needs_escape_lem}
use boa.Uri.{hex_to_decimal, store, unescape_char, unescape_uri}

hex_table :
    check_range (λ c. hex_to_decimal (int_to_hex (c / 16)) (int_to_hex (c % 16)) == c) 0 256 ≡ true
unfolding check_range hex_to_decimal int_to_hex
hex_table = refl

hex_to_decimal-int_to_hex :
    (c : ℕ) → c < 256 → hex_to_decimal (int_to_hex (c / 16)) (int_to_hex (c % 16)) ≡ c
hex_to_decimal-int_to_hex c h = eq-of-== _ c (
    check_range-below 256 (λ c. hex_to_decimal (int_to_hex (c / 16)) (int_to_hex (c % 16)) == c) c
      hex_table h)

abbrev IsPlain : ℕ → Type 0
IsPlain c = (c ≢ b'%') × (c ≢ b'?') × (c ≢ b'#')

unescape_uri-plain :
    (c : ℕ) (r : Bytes) (q : Option Bytes)
    → IsPlain c
    → unescape_uri (c ∷ r) q ≡ store c (unescape_uri r q)
unfolding unescape_uri unescape_char
unescape_uri-plain c [] q h = ground arith
unescape_uri-plain c (d ∷ []) q h = ground arith
unescape_uri-plain c (d ∷ e ∷ r) q h = ground arith

unescape_uri-percent :
    (c d : ℕ) (r : Bytes) (q : Option Bytes)
    → unescape_uri (b'%' ∷ c ∷ d ∷ r) q ≡ store (hex_to_decimal c d) (unescape_uri r q)
unfolding unescape_uri
unescape_uri-percent c d r q = refl

percent_escaped : needs_escape b'%' ≡ true
unfolding is_noescape member
percent_escaped = needs_escape_lem b'%'

hash_escaped : needs_escape b'#' ≡ true
unfolding is_noescape member
hash_escaped = needs_escape_lem b'#'

not_escaped-IsPlain : (c : ℕ) → needs_escape c ≡ false → c ≢ b'?' → IsPlain c
not_escaped-IsPlain c e n = (
  λ p. cc (e, ap needs_escape p, percent_escaped),
  n,
  λ p. cc (e, ap needs_escape p, hash_escaped),
)

-- Decoding gives back every text of bytes that escape_string writes, if the text has no "?"; the
-- query string is left as it was, and the result is success.
pub unescape_uri-escape_loop :
    (s : Bytes) (q : Option Bytes)
    → All (λ c. (c < 256) × (c ≢ b'?')) s
    → unescape_uri (escape_loop s) q ≡ record { uri = s; query = q; legal = true }
unfolding escape_loop
unescape_uri-escape_loop [] q h = unfold unescape_uri in refl
unescape_uri-escape_loop (c ∷ s) q h = elim (Bool-cases (needs_escape c)) [
  | inl e ↦
      rw (
        e,
        unescape_uri-percent,
        hex_to_decimal-int_to_hex c h.0.0,
        unescape_uri-escape_loop s q h.1,
      )
  | inr e ↦ rw (
    e,
    unescape_uri-plain c (escape_loop s) q (not_escaped-IsPlain c e h.0.1),
    unescape_uri-escape_loop s q h.1,
  )
]
