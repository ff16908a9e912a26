-- ===== src/Escape.antt =====
-- src/escape.c and src/escape.h, with `escape_string` of src/buffer.c: which bytes of a name are
-- written as "%xx". `unsigned long` has 64 bits, and `1 << 31` is the least int.
pub mod Table
use Prim.Native.Nat.{bit_and}
use boa.Common.{
  if◌then◌else◌, ℕ, zero, suc, ◌+◌, ◌-◌, ◌*◌, ◌/◌, ◌%◌, ◌^◌, ◌≤◌, ◌<◌, min, ◌≡◌, refl, sym, ap, ap₂,
  ◌∙◌, ◌≢◌, ◌↔◌, ◌⊎◌, inl, inr, Bool, true, false, not, ◌&&◌, ◌||◌, Option, none, some, List, [],
  ◌∷◌, ◌++◌, map, append-nil, append_assoc, arith, ltb, leb, ◌==◌, within, ==_iff, eq-of-==,
  ==_refl, Bool-cases, Option-cases, and-eq-true, length, get_or, set, take, drop, replicate,
  length-append, length-set, length-take, length-drop, get_or-set_self, get_or-set_ne, All,
  All-append, Bytes, codes, str_eq, str_eq_iff, starts, suc-ne-zero, check_range, check_range-below,
  bool_eq, bool_eq_iff, member,
}

abbrev pub needs_escape_bits : ℕ
needs_escape_bits = 128

abbrev pub special : Bytes
special =
    codes "ABCDEFGHIJKLMNOPQRSTUVWXYZ"
    ++ codes "abcdefghijklmnopqrstuvwxyz"
    ++ codes "0123456789"
    ++ codes "-_.!~*'():@&=+$,/?"

-- NEEDS_ESCAPE_INDEX and NEEDS_ESCAPE_MASK, the mask as it stands beside an unsigned long.
abbrev pub needs_escape_index : ℕ → ℕ
needs_escape_index c = c / 2 ^ 5

unfoldable pub needs_escape_mask : ℕ → ℕ
needs_escape_mask c = if c % 2 ^ 5 == 31 then 2 ^ 64 - 2 ^ 31 else 2 ^ (c % 2 ^ 5)

-- The second loop of `build_needs_escape`.
unfoldable pub clear_bits : Bytes → List ℕ → List ℕ
unfolding needs_escape_mask
clear_bits [] table = table
clear_bits (j ∷ js) table =
    let i = needs_escape_index j in
    let word = bit_and (get_or table i 0) (2 ^ 64 - 1 - needs_escape_mask j) in
    clear_bits js (if leb needs_escape_bits j then table else set table i word)

-- `_needs_escape` behind the call: all ones, less the bits of `special`.
unfoldable pub build_needs_escape : List ℕ
unfolding clear_bits
build_needs_escape = clear_bits special (replicate 4 (2 ^ 64 - 1))

unfoldable pub needs_escape : ℕ → Bool
needs_escape c =
    leb needs_escape_bits c
    || not (bit_and (get_or build_needs_escape (needs_escape_index c) 0) (needs_escape_mask c) == 0)

-- INT_TO_HEX
unfoldable pub int_to_hex : ℕ → ℕ
int_to_hex x = if ltb 9 x then b'a' - 10 + x else b'0' + x

abbrev pub percent : ℕ → Bytes → Bytes
percent c rest = b'%' ∷ int_to_hex (c / 16) ∷ int_to_hex (c % 16) ∷ rest

-- The loop of `escape_string`. Its `max > 0` holds throughout, since `max` never changes.
unfoldable pub escape_loop : Bytes → Bytes
escape_loop [] = []
escape_loop (c ∷ s) =
    let rest = escape_loop s in if needs_escape c then percent c rest else c ∷ rest

-- With a null `buf`: `none` is NULL, also for the empty string, for which nothing is allocated.
-- `memory` says whether malloc succeeds.
unfoldable pub escape_string : Bool → Bytes → Option Bytes
escape_string memory [] = none
escape_string memory (c ∷ s) = if memory then some (escape_loop (c ∷ s)) else none
