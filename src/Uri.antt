-- ===== src/Uri.antt =====
-- src/util.c, `unescape_uri`, and HEX_TO_DECIMAL of src/defines.h. The decoded text is written over
-- the URI, never ahead of the read position; `query` is what `*query_string` points to. For
-- the caller that passes a null pointer for it, create_argv of src/cgi.c, the field `query` has no
-- meaning.
pub mod RoundTrip
use Prim.Native.Nat.{bit_and}
use boa.Common.{
  if◌then◌else◌, ℕ, zero, suc, ◌+◌, ◌-◌, ◌*◌, ◌/◌, ◌%◌, ◌^◌, ◌≤◌, ◌<◌, min, ◌≡◌, refl, sym, ap, ap₂,
  ◌∙◌, ◌≢◌, ◌↔◌, ◌⊎◌, inl, inr, Bool, true, false, not, ◌&&◌, ◌||◌, Option, none, some, List, [],
  ◌∷◌, ◌++◌, map, append-nil, append_assoc, arith, ltb, leb, ◌==◌, within, ==_iff, eq-of-==,
  ==_refl, Bool-cases, Option-cases, and-eq-true, length, get_or, set, take, drop, replicate,
  length-append, length-set, length-take, length-drop, get_or-set_self, get_or-set_ne, All,
  All-append, Bytes, codes, str_eq, str_eq_iff, starts, suc-ne-zero, check_range, check_range-below,
  bool_eq, bool_eq_iff, member,
}

pub record Decoded : Type 0 where
  pub uri : Bytes
  pub query : Option Bytes
  pub legal : Bool

-- One digit, modulo 256: `char` is signed, so a byte from 128 on is not above 'A'.
unfoldable pub hex_value : ℕ → ℕ
hex_value c = if within b'A' 127 c then bit_and c 0xdf + 10 - b'A' else (c + 256 - b'0') % 256

unfoldable pub hex_to_decimal : ℕ → ℕ → ℕ
unfolding hex_value
hex_to_decimal c d = (hex_value c * 16 + hex_value d) % 256

-- Behind a '#': the query string is still looked for.
unfoldable pub skip_fragment : Bytes → Option Bytes → Option Bytes
skip_fragment [] query = query
skip_fragment (c ∷ r) query = let more = skip_fragment r query in if c == b'?' then some r else more

abbrev pub store : ℕ → Decoded → Decoded
store c d = record d { uri = c ∷ d.uri }

abbrev stop : Option Bytes → Bool → Decoded
stop query legal = record { uri = []; query = query; legal = legal }

-- A byte that is not '%': `rest` is the loop behind it.
unfoldable pub unescape_char : ℕ → Bytes → Option Bytes → Decoded → Decoded
unfolding skip_fragment
unescape_char c r query rest =
    if c == b'?'
    then stop (some r) true
    else if c == b'#'
    then stop (skip_fragment r query) true
    else store c rest

unfoldable pub unescape_uri : Bytes → Option Bytes → Decoded
unfolding unescape_char hex_to_decimal
unescape_uri [] query = stop query true
unescape_uri (a ∷ []) query =
    if a == b'%' then stop query false else unescape_char a [] query (stop query true)
unescape_uri (a ∷ c ∷ []) query =
    let rest = unescape_uri (c ∷ []) query in
    if a == b'%' then stop query false else unescape_char a (c ∷ []) query rest
unescape_uri (a ∷ c ∷ d ∷ r) query =
    let decoded = store (hex_to_decimal c d) (unescape_uri r query) in
    let other = unescape_char a (c ∷ d ∷ r) query (unescape_uri (c ∷ d ∷ r) query) in
    if a == b'%' then decoded else other
