-- ===== src/Examples/Ranges.antt =====
-- Ranges and decimal numbers at concrete inputs.
use boa.Common.{◌≤◌, ◌<◌, ◌≡◌, refl, Bool, some, List, [], ◌∷◌, arith, All, codes}
use boa.Decimal.{simple_itoa, boa_atoi, checked, atoi, digits_value}
use boa.Decimal.RoundTrip.{boa_atoi-simple_itoa}
use boa.Range.{range, ulong_max, RangeState, ranges_fixup}
use boa.Range.Fixup.{
  RangeSpec, from_to, last, IsPlain, resolve, ranges_fixup-InBounds, ranges_fixup-resolve,
  suffix_drops_first_byte,
}
use boa.Range.Parse.{range_parse}
use boa.Range.Parse.Total.{range_parse-total}

abbrev fresh : RangeState
fresh = record { ranges = []; numranges = 0; pool = [] }

abbrev asked : List RangeSpec
asked = from_to 0 9 ∷ last 5 ∷ []

plain : All (IsPlain 100) asked
plain = ((ground arith, ground arith, ground arith), ((ground arith, ground arith), tt))

abbrev parsed : RangeState
parsed = record { ranges = range 0 9 ∷ range ulong_max 5 ∷ []; numranges = 2; pool = [] }

ranges_fixup-resolve_example : some (ranges_fixup 100 parsed).0.ranges ≡ resolve 100 asked
ranges_fixup-resolve_example =
    ranges_fixup-resolve 100 asked parsed (ground arith) (ground arith) plain refl

ranges_fixup-InBounds_example :
    All (λ r. (r.start ≤ r.stop) × (r.stop < 100)) (ranges_fixup 100 parsed).0.ranges
ranges_fixup-InBounds_example = ranges_fixup-InBounds 100 parsed

abbrev long_suffix : RangeState
long_suffix = record { ranges = range ulong_max 20 ∷ []; numranges = 1; pool = [] }

suffix_drops_first_byte_example : (ranges_fixup 10 long_suffix).0.ranges ≡ range 1 9 ∷ []
suffix_drops_first_byte_example =
    suffix_drops_first_byte 10 20 long_suffix (ground arith) (ground arith) (ground arith) refl

range_parse-total_example :
    (r : RangeState) × (b : Bool) × (range_parse fresh (codes "bytes=1-,x") ≡ some (r, b))
range_parse-total_example = range_parse-total fresh (codes "bytes=1-,x")

boa_atoi-simple_itoa_example : boa_atoi (simple_itoa 4096) ≡ some 4096
boa_atoi-simple_itoa_example = boa_atoi-simple_itoa 4096 (ground arith)

read_4096 : boa_atoi (codes "4096") ≡ some 4096
unfolding boa_atoi simple_itoa checked atoi digits_value
read_4096 = refl
