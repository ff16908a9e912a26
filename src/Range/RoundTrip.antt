-- ===== src/Range/RoundTrip.antt =====
-- A byte-range set, printed as a Range header, and what `range_parse` makes of it.
use boa.Common.{
  ◌∙◌, sym, ap, ℕ, ◌+◌, ◌-◌, ◌*◌, ◌%◌, ◌^◌, ◌≤◌, ◌<◌, ◌≡◌, refl, sym, ap, ◌∙◌, ◌≢◌, true, some,
  List, [], ◌∷◌, ◌++◌, append_assoc, arith, All, Bytes, codes,
}
use boa.Decimal.Print.{
  simple_itoa-AllDigits, simple_itoa-ne-nil, simple_itoa-value, AllDigits, value,
}
use boa.Decimal.{is_digit, simple_itoa}
use boa.Range.{RangeState, ulong_max, uint_max, range_add}
use boa.Range.Fixup.{RangeSpec, from_to, from, last, encode}
use boa.Range.Parse.{
  starts_nocase, scan_loop, returns, range_parse, Scan, next, ccode, stable, act_number, act_range,
  scan_step,
}

pub print_spec : RangeSpec → Bytes
print_spec (from_to a b) = simple_itoa a ++ (b'-' ∷ simple_itoa b)
print_spec (from a) = simple_itoa a ++ (b'-' ∷ [])
print_spec (last n) = b'-' ∷ simple_itoa n

-- Specs behind a first one, each after a comma.
pub print_more : List RangeSpec → Bytes
print_more [] = []
print_more (p ∷ ps) = b',' ∷ (print_spec p ++ print_more ps)

pub print_header : RangeSpec → List RangeSpec → Bytes
print_header p ps = codes "bytes=" ++ (print_spec p ++ print_more ps)

-- The numbers are not the marks that the scanner uses.
abbrev pub IsStorable : RangeSpec → Type 0
IsStorable (from_to a b) = (a < ulong_max) × (b < ulong_max) × (b ≢ uint_max)
IsStorable (from a) = a < ulong_max
IsStorable (last n) = n < ulong_max

-- The request behind the specs: one `range_add` for each.
pub add_all : RangeState → List RangeSpec → RangeState
add_all s [] = s
add_all s (p ∷ ps) = add_all (range_add s (encode p).start (encode p).stop) ps

abbrev scan : ℕ → ℕ → ℕ → RangeState → Scan
scan mode start stop req = record { mode = mode; start = start; stop = stop; req = req }

ccode-is_digit : (c : ℕ) → is_digit c ≡ true → ccode c ≡ 0
unfolding ccode
ccode-is_digit c h = ground arith

-- A digit in the beginning (from the states initial and startnum) and in the end (gap2, stopnum).
module _ (c a b : ℕ) (s : RangeState) (h : is_digit c ≡ true) where
  abbrev start_read : ℕ
  start_read = (a * 10 + (c - b'0')) % 2 ^ 64

  abbrev stop_read : ℕ
  stop_read = (b * 10 + (c - b'0')) % 2 ^ 64

  step-initial : scan_step c (scan 0 a b s) ≡ next (scan 1 start_read b s)
  unfolding scan_step act_number act_range stable
  step-initial = rw (ccode-is_digit c h)

  step-startnum : scan_step c (scan 1 a b s) ≡ next (scan 1 start_read b s)
  unfolding scan_step act_number act_range stable
  step-startnum = rw (ccode-is_digit c h)

  step-gap2 : scan_step c (scan 3 a b s) ≡ next (scan 4 a stop_read s)
  unfolding scan_step act_number act_range stable
  step-gap2 = rw (ccode-is_digit c h)

  step-stopnum : scan_step c (scan 4 a b s) ≡ next (scan 4 a stop_read s)
  unfolding scan_step act_number act_range stable
  step-stopnum = rw (ccode-is_digit c h)

value-ge : (v : ℕ) (ds : Bytes) → v ≤ value v ds
value-ge v [] = omega arith
value-ge v (c ∷ ds) = omega (arith, value-ge (v * 10 + (c - b'0')) ds)

no_wrap :
    (v c : ℕ) (ds : Bytes)
    → value v (c ∷ ds) < 2 ^ 64
    → (v * 10 + (c - b'0')) % 2 ^ 64 ≡ v * 10 + (c - b'0')
no_wrap v c ds h = omega (arith, value-ge (v * 10 + (c - b'0')) ds)

scan-startnum :
    (ds rest : Bytes) (v b : ℕ) (s : RangeState)
    → AllDigits ds
    → value v ds < 2 ^ 64
    → scan_loop (ds ++ rest) (scan 1 v b s) ≡ scan_loop rest (scan 1 (value v ds) b s)
unfolding scan_loop
scan-startnum [] rest v b s d h = refl
scan-startnum (c ∷ ds) rest v b s d h =
    rw (step-startnum c v b s d.0, scan_loop, no_wrap v c ds h)
      (scan-startnum ds rest (v * 10 + (c - b'0')) b s d.1 h)

scan-stopnum :
    (ds rest : Bytes) (a v : ℕ) (s : RangeState)
    → AllDigits ds
    → value v ds < 2 ^ 64
    → scan_loop (ds ++ rest) (scan 4 a v s) ≡ scan_loop rest (scan 4 a (value v ds) s)
unfolding scan_loop
scan-stopnum [] rest a v s d h = refl
scan-stopnum (c ∷ ds) rest a v s d h =
    rw (step-stopnum c a v s d.0, scan_loop, no_wrap v c ds h)
      (scan-stopnum ds rest a (v * 10 + (c - b'0')) s d.1 h)

-- A number, from the states in front of its first digit.
scan-initial :
    (ds rest : Bytes) (b : ℕ) (s : RangeState)
    → ds ≢ []
    → AllDigits ds
    → value 0 ds < 2 ^ 64
    → scan_loop (ds ++ rest) (scan 0 0 b s) ≡ scan_loop rest (scan 1 (value 0 ds) b s)
unfolding scan_loop
scan-initial [] rest b s n d h = absurd (n refl)
scan-initial (c ∷ ds) rest b s n d h =
    rw (step-initial c 0 b s d.0, scan_loop, no_wrap 0 c ds h)
      (scan-startnum ds rest (0 * 10 + (c - b'0')) b s d.1 h)

scan-gap2 :
    (ds rest : Bytes) (a : ℕ) (s : RangeState)
    → ds ≢ []
    → AllDigits ds
    → value 0 ds < 2 ^ 64
    → scan_loop (ds ++ rest) (scan 3 a 0 s) ≡ scan_loop rest (scan 4 a (value 0 ds) s)
unfolding scan_loop
scan-gap2 [] rest a s n d h = absurd (n refl)
scan-gap2 (c ∷ ds) rest a s n d h =
    rw (step-gap2 c a 0 s d.0, scan_loop, no_wrap 0 c ds h)
      (scan-stopnum ds rest a (0 * 10 + (c - b'0')) s d.1 h)

-- The state behind a spec, which is submitted by the comma or the NUL that follows.
abbrev pending : RangeSpec → RangeState → Scan
pending (from_to a b) s = scan 4 a b s
pending (from a) s = scan 3 a 0 s
pending (last n) s = scan 4 ulong_max n s

abbrev submit : RangeState → RangeSpec → RangeState
submit s p = range_add s (encode p).start (encode p).stop

scan-simple_itoa :
    (a : ℕ) (rest : Bytes) (s : RangeState)
    → a < ulong_max
    → scan_loop (simple_itoa a ++ rest) (scan 0 0 0 s) ≡ scan_loop rest (scan 1 a 0 s)
scan-simple_itoa a rest s h =
    let v = simple_itoa-value a (omega arith) in
    scan-initial (simple_itoa a) rest 0 s (simple_itoa-ne-nil a) (simple_itoa-AllDigits a)
      (omega (arith, v))
    ∙ ap (λ x. scan_loop rest (scan 1 x 0 s)) v

scan_stop-simple_itoa :
    (b : ℕ) (rest : Bytes) (a : ℕ) (s : RangeState)
    → b < ulong_max
    → scan_loop (simple_itoa b ++ rest) (scan 3 a 0 s) ≡ scan_loop rest (scan 4 a b s)
scan_stop-simple_itoa b rest a s h =
    let v = simple_itoa-value b (omega arith) in
    scan-gap2 (simple_itoa b) rest a s (simple_itoa-ne-nil b) (simple_itoa-AllDigits b)
      (omega (arith, v))
    ∙ ap (λ x. scan_loop rest (scan 4 a x s)) v

step_hyphen : (a : ℕ) (s : RangeState) → scan_step b'-' (scan 1 a 0 s) ≡ next (scan 3 a 0 s)
unfolding scan_step act_number act_range stable ccode
step_hyphen a s = refl

step_suffix : (s : RangeState) → scan_step b'-' (scan 0 0 0 s) ≡ next (scan 3 ulong_max 0 s)
unfolding scan_step act_number act_range stable ccode
step_suffix s = refl

scan-print_spec :
    (p : RangeSpec) (rest : Bytes) (s : RangeState)
    → IsStorable p
    → scan_loop (print_spec p ++ rest) (scan 0 0 0 s) ≡ scan_loop rest (pending p s)
unfolding print_spec scan_loop
scan-print_spec (from_to a b) rest s (h, k, n) =
    rw (append_assoc (simple_itoa a) (b'-' ∷ simple_itoa b) rest) (
      scan-simple_itoa a (b'-' ∷ (simple_itoa b ++ rest)) s h
      ∙ rw (step_hyphen a s, scan_loop) (scan_stop-simple_itoa b rest a s k))
scan-print_spec (from a) rest s h =
    rw (append_assoc (simple_itoa a) (b'-' ∷ []) rest)
      (scan-simple_itoa a (b'-' ∷ rest) s h ∙ rw (step_hyphen a s, scan_loop))
scan-print_spec (last n) rest s h =
    rw (step_suffix s, scan_loop) (scan_stop-simple_itoa n rest ulong_max s h)

submit-comma :
    (p : RangeSpec) (s : RangeState)
    → IsStorable p
    → scan_step b',' (pending p s) ≡ next (scan 0 0 0 (submit s p))
unfolding scan_step act_number act_range stable ccode
submit-comma (from_to a b) s (h, k, n) = ground arith
submit-comma (from a) s h = ground arith
submit-comma (last n) s h = ground arith

submit-null :
    (p : RangeSpec) (s : RangeState)
    → IsStorable p
    → scan_step 0 (pending p s) ≡ returns (submit s p) true
unfolding scan_step act_number act_range stable ccode
submit-null (from_to a b) s (h, k, n) = ground arith
submit-null (from a) s h = ground arith
submit-null (last n) s h = ground arith

scan-print_more :
    (p : RangeSpec) (ps : List RangeSpec) (s : RangeState)
    → IsStorable p
    → All IsStorable ps
    → scan_loop (print_more ps) (pending p s) ≡ some (add_all (submit s p) ps, true)
unfolding scan_loop print_more add_all
scan-print_more p [] s h hs = rw (submit-null p s h, scan_loop)
scan-print_more p (q ∷ ps) s h hs =
    rw (submit-comma p s h, scan_loop)
      (scan-print_spec q (print_more ps) (submit s p) hs.0
        ∙ scan-print_more q ps (submit s p) hs.0 hs.1)

-- A set of byte-range specs printed as a header, with no number that the scanner takes for a mark,
-- is read back spec by spec, in order, by one range_add for each, with -1 for the number that is
-- not given.
pub range_parse-print :
    (p : RangeSpec) (ps : List RangeSpec) (s : RangeState)
    → IsStorable p
    → All IsStorable ps
    → range_parse s (print_header p ps) ≡ some (add_all s (p ∷ ps), true)
unfolding range_parse print_header starts_nocase add_all
range_parse-print p ps s h hs = scan-print_spec p (print_more ps) s h ∙ scan-print_more p ps s h hs
