-- ===== src/Range/Fixup.antt =====
-- `ranges_fixup` against the meaning of a byte-range set (RFC 2616, section 14.35.1).
use boa.Common.{
  ap, ℕ, zero, suc, ◌+◌, ◌-◌, ◌^◌, ◌≤◌, ◌<◌, min, ◌≡◌, refl, ap, ◌≢◌, ◌↔◌, inl, inr, Bool, true,
  false, not, ◌&&◌, Option, none, some, List, [], ◌∷◌, map, arith, leb, if◌then◌else◌, Bool-cases,
  length, All, suc-ne-zero,
}
use boa.Range.{
  Range, range, ulong_max, uint_max, RangeState, push_all, fix_range, fix_stop, fix_start, is_bad,
  fixup_loop, is_nil, ranges_fixup,
}

-- A byte-range spec: "a-b", "a-" and "-n".
pub data RangeSpec : Type 0 where
  from_to : ℕ → ℕ → RangeSpec
  from : ℕ → RangeSpec
  last : ℕ → RangeSpec

-- How `range_parse` stores it: -1 marks the number that is not given.
abbrev pub encode : RangeSpec → Range
encode (from_to a b) = range a b
encode (from a) = range a ulong_max
encode (last n) = range ulong_max n

-- The first and the last byte that it asks for, in an entity of `size` bytes.
abbrev pub first_byte : ℕ → RangeSpec → ℕ
first_byte size (from_to a b) = a
first_byte size (from a) = a
first_byte size (last n) = size - n

abbrev pub last_byte : ℕ → RangeSpec → ℕ
last_byte size (from_to a b) = min b (size - 1)
last_byte size (from a) = size - 1
last_byte size (last n) = size - 1

-- The satisfiable specs, with their bytes.
satisfiable : ℕ → List RangeSpec → List Range
satisfiable size [] = []
satisfiable size (p ∷ ps) =
    if leb (first_byte size p) (last_byte size p)
    then range (first_byte size p) (last_byte size p) ∷ satisfiable size ps
    else satisfiable size ps

-- A last byte in front of the first one makes a spec invalid.
abbrev is_valid : RangeSpec → Bool
is_valid (from_to a b) = leb a b
is_valid (from a) = true
is_valid (last n) = true

all_valid : List RangeSpec → Bool
all_valid [] = true
all_valid (p ∷ ps) = is_valid p && all_valid ps

-- The bytes of a set; `none` is that a set with an invalid spec is ignored.
pub resolve : ℕ → List RangeSpec → Option (List Range)
resolve size ps = if all_valid ps then some (satisfiable size ps) else none

-- The spec is valid, no number is taken for a mark, and a suffix is shorter than the entity.
abbrev pub IsPlain : ℕ → RangeSpec → Type 0
IsPlain size (from_to a b) = (a ≤ b) × (a < ulong_max) × (b ≢ uint_max)
IsPlain size (from a) = a < ulong_max
IsPlain size (last n) = (n < size) × (n ≢ uint_max)

abbrev InBounds : ℕ → Range → Type 0
InBounds size r = (r.start ≤ r.stop) × (r.stop < size)

fix_range-InBounds :
    (size : ℕ) (r : Range)
    → 0 < size
    → is_bad (fix_range size r) ≡ false
    → InBounds size (fix_range size r)
unfolding fix_stop fix_start is_bad
fix_range-InBounds size r p h = ground arith

fixup_loop-InBounds :
    (size : ℕ) (rs pool : List Range) → 0 < size → All (InBounds size) (fixup_loop size rs pool).0
unfolding fixup_loop
fixup_loop-InBounds size [] pool p = tt
fixup_loop-InBounds size (r ∷ rs) pool p = elim (Bool-cases (is_bad (fix_range size r))) [
  | inl e ↦ rw e (fixup_loop-InBounds size rs _ p)
  | inr e ↦ rw e (fix_range-InBounds size r p e, fixup_loop-InBounds size rs _ p)
]

-- Every range that ranges_fixup leaves is a non-empty run of bytes inside the file, for any size
-- and any stored numbers.
pub ranges_fixup-InBounds :
    (size : ℕ) (s : RangeState)
    → All (λ r. (r.start ≤ r.stop) × (r.stop < size)) (ranges_fixup size s).0.ranges
unfolding ranges_fixup
ranges_fixup-InBounds zero s = tt
ranges_fixup-InBounds (suc n) s =
    rw (suc-ne-zero n) (fixup_loop-InBounds (suc n) s.ranges s.pool (omega arith))

length-push_all : (rs pool : List Range) → length (push_all rs pool) ≡ length rs + length pool
unfolding push_all
length-push_all [] pool = omega arith
length-push_all (r ∷ rs) pool = omega (arith, length-push_all rs (r ∷ pool))

length-fixup_loop :
    (size : ℕ) (rs pool : List Range)
    → length (fixup_loop size rs pool).0 + length (fixup_loop size rs pool).1
      ≡ length rs + length pool
unfolding fixup_loop
length-fixup_loop size [] pool = omega arith
length-fixup_loop size (r ∷ rs) pool = elim (Bool-cases (is_bad (fix_range size r))) [
  | inl e ↦ rw e (omega (arith, length-fixup_loop size rs (fix_range size r ∷ pool)))
  | inr e ↦ rw e (omega (arith, length-fixup_loop size rs pool))
]

not-is_nil : (rs : List Range) → (not (is_nil rs) ≡ true) ↔ (rs ≢ [])
not-is_nil [] = (λ h. cc, λ h. absurd (h refl))
not-is_nil (r ∷ rs) = (λ h. ground arith, λ h. refl)

-- ranges_fixup neither loses nor makes a node: those of the request and those of the pool are as
-- many as before; and its result is 1 exactly if a range is left.
pub ranges_fixup_conserves :
    (size : ℕ) (s : RangeState)
    → (length (ranges_fixup size s).0.ranges + length (ranges_fixup size s).0.pool
        ≡ length s.ranges + length s.pool)
      × (((ranges_fixup size s).1 ≡ true) ↔ ((ranges_fixup size s).0.ranges ≢ []))
unfolding ranges_fixup
ranges_fixup_conserves zero s = (omega (arith, length-push_all s.ranges s.pool), not-is_nil [])
ranges_fixup_conserves (suc n) s =
    rw (suc-ne-zero n)
      (length-fixup_loop (suc n) s.ranges s.pool, not-is_nil (fixup_loop (suc n) s.ranges s.pool).0)

fix_range-encode :
    (size : ℕ) (p : RangeSpec)
    → 0 < size
    → size < 2 ^ 63
    → IsPlain size p
    → (is_bad (fix_range size (encode p)) ≡ not (leb (first_byte size p) (last_byte size p)))
unfolding fix_stop fix_start is_bad
fix_range-encode size (from_to a b) p q (v, l, n) = ground arith
fix_range-encode size (from a) p q l = ground arith
fix_range-encode size (last n) p q (l, m) = ground arith

fix_range-satisfiable :
    (size : ℕ) (p : RangeSpec)
    → 0 < size
    → size < 2 ^ 63
    → IsPlain size p
    → leb (first_byte size p) (last_byte size p) ≡ true
    → fix_range size (encode p) ≡ range (first_byte size p) (last_byte size p)
unfolding fix_stop fix_start
fix_range-satisfiable size (from_to a b) p q (v, l, n) h = ground arith
fix_range-satisfiable size (from a) p q l h = ground arith
fix_range-satisfiable size (last n) p q (l, m) h = ground arith

fixup_loop-satisfiable :
    (size : ℕ) (ps : List RangeSpec) (pool : List Range)
    → 0 < size
    → size < 2 ^ 63
    → All (IsPlain size) ps
    → (fixup_loop size (map encode ps) pool).0 ≡ satisfiable size ps
unfolding fixup_loop satisfiable
fixup_loop-satisfiable size [] pool p q h = refl
fixup_loop-satisfiable size (s ∷ ps) pool p q h =
    elim (Bool-cases (leb (first_byte size s) (last_byte size s))) [
      | inl e ↦
          rw (fix_range-encode size s p q h.0, e, fix_range-satisfiable size s p q h.0 e)
            (ap (λ (t : List Range). range (first_byte size s) (last_byte size s) ∷ t)
              (fixup_loop-satisfiable size ps _ p q h.1))
      | inr e ↦ rw (fix_range-encode size s p q h.0, e) (fixup_loop-satisfiable size ps _ p q h.1)
    ]

is_valid-IsPlain : (size : ℕ) (p : RangeSpec) → IsPlain size p → is_valid p ≡ true
is_valid-IsPlain size (from_to a b) (v, l, n) = ground arith
is_valid-IsPlain size (from a) h = refl
is_valid-IsPlain size (last n) h = refl

all_valid-IsPlain : (size : ℕ) (ps : List RangeSpec) → All (IsPlain size) ps → all_valid ps ≡ true
unfolding all_valid
all_valid-IsPlain size [] h = refl
all_valid-IsPlain size (p ∷ ps) (h, hs) =
    rw (is_valid-IsPlain size p h) (all_valid-IsPlain size ps hs)

-- For a non-empty file of less than 2 ^ 63 bytes and stored specs that are valid ("a-b" with a at
-- most b) and without numbers that stand for a mark, every suffix shorter than the file,
-- ranges_fixup leaves the ranges that RFC 2616 gives, in order: unsatisfiable specs are dropped and
-- the last byte is capped at the end of the file.
pub ranges_fixup-resolve :
    (size : ℕ) (ps : List RangeSpec) (s : RangeState)
    → 0 < size
    → size < 2 ^ 63
    → All (IsPlain size) ps
    → s.ranges ≡ map encode ps
    → some (ranges_fixup size s).0.ranges ≡ resolve size ps
unfolding ranges_fixup resolve
ranges_fixup-resolve zero ps s p q h e = absurd (omega arith)
ranges_fixup-resolve (suc n) ps s p q h e =
    rw (suc-ne-zero n, e, all_valid-IsPlain (suc n) ps h)
      (ap (λ l. some l) (fixup_loop-satisfiable (suc n) ps s.pool p q h))

fix_range_suffix :
    (size n : ℕ)
    → 1 < size
    → size ≤ n
    → size < 2 ^ 63
    → fix_range size (encode (last n)) ≡ range 1 (size - 1)
unfolding fix_stop fix_start
fix_range_suffix size n p q l = ground arith

is_bad_from_one : (size : ℕ) → 1 < size → is_bad (range 1 (size - 1)) ≡ false
unfolding is_bad
is_bad_from_one size p = ground arith

-- For a file of more than one and less than 2 ^ 63 bytes, a single suffix spec at least as long as
-- the file is turned into the range from 1 to the last byte, without the file's first byte.
pub suffix_drops_first_byte :
    (size n : ℕ) (s : RangeState)
    → 1 < size
    → size ≤ n
    → size < 2 ^ 63
    → s.ranges ≡ encode (last n) ∷ []
    → (ranges_fixup size s).0.ranges ≡ range 1 (size - 1) ∷ []
unfolding ranges_fixup fixup_loop
suffix_drops_first_byte zero n s p q l e = absurd (omega arith)
suffix_drops_first_byte (suc k) n s p q l e =
    rw (suc-ne-zero k, e, fix_range_suffix (suc k) n p q l, is_bad_from_one (suc k) p)
