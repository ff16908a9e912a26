-- ===== src/Decimal.antt =====
-- src/util.c, `simple_itoa` and `boa_atoi`: decimal text of a 64-bit number, and back.
pub mod Print
pub mod RoundTrip
use boa.Common.{
  if◌then◌else◌, ℕ, zero, suc, ◌+◌, ◌-◌, ◌*◌, ◌/◌, ◌%◌, ◌^◌, ◌≤◌, ◌<◌, min, ◌≡◌, refl, sym, ap, ap₂,
  ◌∙◌, ◌≢◌, ◌↔◌, ◌⊎◌, inl, inr, Bool, true, false, not, ◌&&◌, ◌||◌, Option, none, some, List, [],
  ◌∷◌, ◌++◌, map, append-nil, append_assoc, arith, ltb, leb, ◌==◌, within, ==_iff, eq-of-==,
  ==_refl, Bool-cases, Option-cases, and-eq-true, length, get_or, set, take, drop, replicate,
  length-append, length-set, length-take, length-drop, get_or-set_self, get_or-set_ne, All,
  All-append, Bytes, codes, str_eq, str_eq_iff, starts,
}

abbrev pub is_digit : ℕ → Bool
is_digit c = within b'0' b'9' c

-- The `do ... while (i != 0)` of `simple_itoa`, on fuel: `digits` is what stands from `p` on.
itoa_loop : ℕ → ℕ → Bytes → Bytes
itoa_loop zero i digits = digits
itoa_loop (suc f) i digits =
    let digits' = (b'0' + i % 10) ∷ digits in
    let more = itoa_loop f (i / 10) digits' in if i / 10 == 0 then digits' else more

-- `i` is a uint64_t, which has 20 digits at most.
unfoldable pub simple_itoa : ℕ → Bytes
unfolding itoa_loop
simple_itoa i = itoa_loop 20 i []

-- The digits at the front of `s`, read on from `v`.
unfoldable pub digits_value : ℕ → Bytes → ℕ
digits_value v [] = v
digits_value v (c ∷ s) =
    let more = digits_value (v * 10 + (c - b'0')) s in if is_digit c then more else v

-- atoi (s) for an `s` that begins with a digit: strtol, which stops at LONG_MAX, cut to an int.
-- `none` stands for every negative int.
unfoldable pub atoi : Bytes → Option ℕ
unfolding digits_value
atoi s =
    let v = min (digits_value 0 s) (2 ^ 63 - 1) % 2 ^ 32 in if ltb v (2 ^ 31) then some v else none

-- `none` is the result -1. `memcmp` over strlen (s) bytes finds no difference exactly if `s` is
-- the front of the printed number, since the NUL behind that number is in no string.
unfoldable pub checked : Bytes → Option ℕ → Option ℕ
checked s none = none
checked s (some retval) = if starts s (simple_itoa retval) then some retval else none

unfoldable pub boa_atoi : Bytes → Option ℕ
boa_atoi [] = none
boa_atoi (c ∷ s) = if is_digit c then checked (c ∷ s) (atoi (c ∷ s)) else none
