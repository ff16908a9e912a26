-- ===== src/Range/Parse/Total.antt =====
-- `range_parse` stays inside its string and its table.
use boa.Common.{
  ℕ, ◌+◌, ◌*◌, ◌<◌, ◌≡◌, refl, ◌⊎◌, inl, inr, Bool, true, false, some, [], ◌∷◌, arith, ltb,
  Bool-cases, length, get_or, drop, Bytes, codes, check_range, check_range-below,
}
use boa.Range.{RangeState}
use Prim.Native.Nat.{bit_and}
use boa.Range.Parse.{
  Scan, Outcome, returns, next, ccode, stable, act_number, act_range, scan_step, scan_loop,
  scan_start, range_parse, starts_nocase,
}

is_return : Outcome → Bool
is_return (returns r b) = true
is_return (next q) = false

pub Outcome-cases :
    (o : Outcome)
    → ((r : RangeState) × (b : Bool) × (o ≡ returns r b)) ⊎ ((q : Scan) × (o ≡ next q))
Outcome-cases (returns r b) = inl (r, b, refl)
Outcome-cases (next q) = inr (q, refl)

act_range-null : (act mode : ℕ) (p : Scan) → is_return (act_range act 4 mode p) ≡ true
unfolding act_range is_return
act_range-null act mode p = ground arith

-- On the NUL the scanner returns, in any state.
scan_step-null : (p : Scan) → is_return (scan_step 0 p) ≡ true
unfolding scan_step ccode
scan_step-null p =
    let fcode = get_or stable (p.mode * 6 + 4) 0 in
    act_range-null (bit_and fcode 0x18) (bit_and fcode 0x07) (act_number (bit_and fcode 0xE0) 0 p)

scan_loop-total :
    (s : Bytes) (p : Scan) → (r : RangeState) × (b : Bool) × (scan_loop s p ≡ some (r, b))
unfolding scan_loop is_return
scan_loop-total [] p = elim (Outcome-cases (scan_step 0 p)) [
  | inl (r, b, e) ↦ (r, b, rw (e, scan_loop))
  | inr (q, e) ↦ absurd (cc (scan_step-null p, e))
]
scan_loop-total (c ∷ s) p = elim (Outcome-cases (scan_step c p)) [
  | inl (r, b, e) ↦ (r, b, rw (e, scan_loop))
  | inr (q, e) ↦ let (r, b, h) = scan_loop-total s q in (r, b, rw (e, scan_loop) h)
]

-- For every request and every header, range_parse returns before it reads past the end of the
-- string.
pub range_parse-total :
    (req : RangeState) (str : Bytes)
    → (r : RangeState) × (b : Bool) × (range_parse req str ≡ some (r, b))
unfolding range_parse
range_parse-total req str = elim (Bool-cases (starts_nocase (codes "bytes=") str)) [
  | inl e ↦ let (r, b, h) = scan_loop-total (drop 6 str) (scan_start req) in (r, b, rw e h)
  | inr e ↦ (req, false, rw e)
]

ccode-lt : (c : ℕ) → ccode c < 6
unfolding ccode
ccode-lt c = ground arith

stable_modes : check_range (λ i. ltb (bit_and (get_or stable i 0) 0x07) 5) 0 30 ≡ true
unfolding check_range stable
stable_modes = refl

act_range-mode :
    (act code mode : ℕ) (p q : Scan) → act_range act code mode p ≡ next q → q.mode ≡ mode
unfolding act_range
act_range-mode act code mode p q e = ground arith

stable_mode : (i : ℕ) → i < 30 → bit_and (get_or stable i 0) 0x07 < 5
stable_mode i h =
    ground
      (arith, check_range-below 30 (λ i. ltb (bit_and (get_or stable i 0) 0x07) 5) i stable_modes h)

scan_step-mode : (c : ℕ) (p q : Scan) → p.mode < 5 → scan_step c p ≡ next q → q.mode < 5
unfolding scan_step
scan_step-mode c p q m e =
    let i = p.mode * 6 + ccode c in
    let fcode = get_or stable i 0 in
    let moved =
      act_range-mode (bit_and fcode 0x18) (ccode c) (bit_and fcode 0x07)
        (act_number (bit_and fcode 0xE0) c p) q e in
    rw moved (stable_mode i (omega (arith, ccode-lt c)))

-- The states in which a round of the `for` begins, whatever bytes were read.
pub data Scans (req : RangeState) : Scan → Type 0 where
  first : Scans req (scan_start req)
  round : {p q : Scan} (c : ℕ) → Scans req p → scan_step c p ≡ next q → Scans req q

Scans-mode : {req : RangeState} {p : Scan} → Scans req p → p.mode < 5
Scans-mode first = omega arith
Scans-mode (round {p} {q} c t e) = scan_step-mode c p q (Scans-mode t) e

-- In every state that the scanner of range_parse reaches, whatever byte comes next, the entry that
-- it looks up is one of the state table.
pub scan_index-lt :
    {req : RangeState} {p : Scan} (c : ℕ) → Scans req p → p.mode * 6 + ccode c < length stable
unfolding stable
scan_index-lt c t = omega (arith, Scans-mode t, ccode-lt c)
