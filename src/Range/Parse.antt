-- ===== src/Range/Parse.antt =====
-- src/range.c, `range_parse`: the scanner of a Range header, driven by its table.
pub mod Total
use Prim.Native.Nat.{bit_and}
use boa.Common.{
  if◌then◌else◌, ℕ, zero, suc, ◌+◌, ◌-◌, ◌*◌, ◌/◌, ◌%◌, ◌^◌, ◌≤◌, ◌<◌, min, ◌≡◌, refl, sym, ap, ap₂,
  ◌∙◌, ◌≢◌, ◌↔◌, ◌⊎◌, inl, inr, Bool, true, false, not, ◌&&◌, ◌||◌, Option, none, some, List, [],
  ◌∷◌, ◌++◌, map, append-nil, append_assoc, arith, ltb, leb, ◌==◌, within, ==_iff, eq-of-==,
  ==_refl, Bool-cases, Option-cases, and-eq-true, length, get_or, set, take, drop, replicate,
  length-append, length-set, length-take, length-drop, get_or-set_self, get_or-set_ne, All,
  All-append, Bytes, codes, str_eq, str_eq_iff, starts, suc-ne-zero, check_range, check_range-below,
}
use boa.Range.{RangeState, ulong_max, uint_max, range_abort, range_add}

-- Character codes.
abbrev digit : ℕ
digit = 0

abbrev white : ℕ
white = 1

abbrev comma : ℕ
comma = 2

abbrev hyphen : ℕ
hyphen = 3

abbrev null : ℕ
null = 4

abbrev other : ℕ
other = 5

-- The switch on `c`.
unfoldable pub ccode : ℕ → ℕ
ccode c =
    if within b'0' b'9' c
    then digit
    else if c == b' ' || within 9 13 c
    then white
    else if c == b','
    then comma
    else if c == b'-'
    then hyphen
    else if c == 0
    then null
    else other

-- States, and the actions: push or disable the beginning or the end, abort, submit.
abbrev initial : ℕ
initial = 0

abbrev startnum : ℕ
startnum = 1

abbrev gap1 : ℕ
gap1 = 2

abbrev gap2 : ℕ
gap2 = 3

abbrev stopnum : ℕ
stopnum = 4

abbrev pb : ℕ
pb = 0x20

abbrev pe : ℕ
pe = 0x40

abbrev db : ℕ
db = 0x60

abbrev de : ℕ
de = 0x80

abbrev ar : ℕ
ar = 0x10

abbrev sr : ℕ
sr = 0x18

-- One row of six codes for each state.
unfoldable pub stable : List ℕ
stable =
    (pb + startnum)
    ∷ initial
    ∷ initial
    ∷ (db + gap2)
    ∷ 0
    ∷ ar
    ∷ (pb + startnum)
    ∷ gap1
    ∷ ar
    ∷ gap2
    ∷ ar
    ∷ ar
    ∷ ar
    ∷ gap1
    ∷ ar
    ∷ gap2
    ∷ ar
    ∷ ar
    ∷ (pe + stopnum)
    ∷ gap2
    ∷ (de + sr + initial)
    ∷ ar
    ∷ (de + sr)
    ∷ ar
    ∷ (pe + stopnum)
    ∷ (sr + initial)
    ∷ (sr + initial)
    ∷ ar
    ∷ sr
    ∷ ar
    ∷ []

-- The local variables, with the request.
pub record Scan : Type 0 where
  pub mode : ℕ
  pub start : ℕ
  pub stop : ℕ
  pub req : RangeState

-- The action on the two numbers, which wrap as unsigned longs.
unfoldable pub act_number : ℕ → ℕ → Scan → Scan
act_number act c p =
    if act == pb
    then record p { start = (p.start * 10 + (c - b'0')) % 2 ^ 64 }
    else if act == db
    then record p { start = ulong_max }
    else if act == pe
    then record p { stop = (p.stop * 10 + (c - b'0')) % 2 ^ 64 }
    else if act == de
    then record p { stop = ulong_max }
    else p

-- `range_parse` returns, or the `for` goes on.
pub data Outcome : Type 0 where
  returns : RangeState → Bool → Outcome
  next : Scan → Outcome

abbrev proceed : ℕ → ℕ → Scan → Outcome
proceed code mode p = if code == null then returns p.req true else next (record p { mode = mode })

-- The action on the range, and the end of the round.
unfoldable pub act_range : ℕ → ℕ → ℕ → Scan → Outcome
act_range act code mode p =
    if act == ar
    then returns (range_abort p.req) false
    else if act == sr
    then (if p.start == p.stop && p.start == uint_max
        then returns (range_abort p.req) false
        else proceed code mode
            (record p { req = range_add p.req p.start p.stop; start = 0; stop = 0 }))
    else proceed code mode p

-- One round of the `for` on the byte `c`.
unfoldable pub scan_step : ℕ → Scan → Outcome
unfolding ccode stable act_number act_range
scan_step c p =
    let code = ccode c in
    let fcode = get_or stable (p.mode * 6 + code) 0 in
    act_range (bit_and fcode 0x18) code (bit_and fcode 0x07) (act_number (bit_and fcode 0xE0) c p)

-- `none` would be a read past the NUL that stands behind the last byte.
unfoldable pub scan_loop : Bytes → Scan → Option (RangeState × Bool)
scan_loop [] p = elim (scan_step 0 p) [ returns r b ↦ some (r, b) | next q ↦ none ]
scan_loop (c ∷ s) p = elim (scan_step c p) [ returns r b ↦ some (r, b) | next q ↦ scan_loop s q ]

-- tolower (c)
unfoldable pub to_lower : ℕ → ℕ
to_lower c = if within b'A' b'Z' c then c + 32 else c

-- strncasecmp (s, p, strlen (p)) == 0, for a `p` in lower case.
unfoldable pub starts_nocase : Bytes → Bytes → Bool
unfolding to_lower
starts_nocase [] s = true
starts_nocase (p ∷ ps) [] = false
starts_nocase (p ∷ ps) (c ∷ s) = to_lower c == p && starts_nocase ps s

abbrev pub scan_start : RangeState → Scan
scan_start req = record { mode = initial; start = 0; stop = 0; req = req }

unfoldable pub range_parse : RangeState → Bytes → Option (RangeState × Bool)
range_parse req str =
    if not (starts_nocase (codes "bytes=") str)
    then some (req, false)
    else scan_loop (drop 6 str) (scan_start req)
