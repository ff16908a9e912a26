-- ===== src/Common/Tests.antt =====
-- Boolean tests on the native numbers, and the conditional.
use Prim.Native.Nat.{ℕ, zero, suc, ◌+◌, ◌≤◌, ◌<◌, compare, Ordering}
use mathlib.Core.Path.{◌≡◌, refl, sym, ap, ◌∙◌}
use mathlib.Core.Logic.{◌↔◌, ◌⊎◌, inl, inr}
use mathlib.Core.Bool.{Bool, true, false, not, ◌&&◌}
use mathlib.Core.Option.{Option, none, some}
use native.Mathlib.Omega.{arith}

abbrev pub ltb : ℕ → ℕ → Bool
ltb a b = elim (compare a b) [ Ordering.lt ↦ true | _ ↦ false ]

abbrev pub leb : ℕ → ℕ → Bool
leb a b = elim (compare a b) [ Ordering.gt ↦ false | _ ↦ true ]

infix 50 ◌==◌
abbrev pub ◌==◌ : ℕ → ℕ → Bool
a == b = elim (compare a b) [ Ordering.eq ↦ true | _ ↦ false ]

infix 1 if◌then◌else◌
abbrev pub if◌then◌else◌ {ℓ} : {A : Type ℓ} → Bool → A → A → A
if true then x else y = x
if false then x else y = y

-- lo <= c && c <= hi
abbrev pub within : ℕ → ℕ → ℕ → Bool
within lo hi c = leb lo c && leb c hi

pub ==_iff : (a b : ℕ) → ((a == b) ≡ true) ↔ (a ≡ b)
==_iff a b = ground arith

pub eq-of-== : (a b : ℕ) → (a == b) ≡ true → a ≡ b
eq-of-== a b h = ground arith

pub ==_refl : (a : ℕ) → (a == a) ≡ true
==_refl a = ground arith

-- To split on a computed value and keep the equation.
pub Bool-cases : (b : Bool) → (b ≡ true) ⊎ (b ≡ false)
Bool-cases true = inl refl
Bool-cases false = inr refl

pub Option-cases {ℓ} : {A : Type ℓ} (o : Option A) → (o ≡ none) ⊎ ((a : A) × (o ≡ some a))
Option-cases none = inl refl
Option-cases (some a) = inr (a, refl)

pub and-eq-true : (a b : Bool) → (a && b) ≡ true → (a ≡ true) × (b ≡ true)
and-eq-true a b h = ground arith

pub suc-ne-zero : (n : ℕ) → (suc n == 0) ≡ false
suc-ne-zero n = ground arith

-- The test at `count` neighbours from `first` on, to be run by evaluation.
unfoldable pub check_range : (ℕ → Bool) → (first : ℕ) → (count : ℕ) → Bool
check_range test first zero = true
check_range test first (suc count) =
    let others = check_range test (suc first) count in if test first then others else false

check_range-at :
    (test : ℕ → Bool) (first count x : ℕ)
    → check_range test first count ≡ true
    → first ≤ x
    → x < first + count
    → test x ≡ true
unfolding check_range
check_range-at test first zero x passed low high = absurd (omega (arith, low, high))
check_range-at test first (suc count) x passed low high = elim (Bool-cases (first == x)) [
  | inl same ↦ ap test (sym (eq-of-== first x same)) ∙ here (test first) _ passed
  | inr other ↦
      check_range-at test (suc first) count x (there (test first) _ passed)
        (ground (arith, other, low)) (omega (arith, high))
]
  where
    here : (a b : Bool) → (if a then b else false) ≡ true → a ≡ true
    here true b e = refl
    here false b e = e

    there : (a b : Bool) → (if a then b else false) ≡ true → b ≡ true
    there true b e = e
    there false b e = ground (arith, e)

-- What a run over the numbers below a bound shows of each of them.
pub check_range-below :
    (count : ℕ) (test : ℕ → Bool) (x : ℕ)
    → check_range test 0 count ≡ true
    → x < count
    → test x ≡ true
check_range-below count test x passed bound =
    check_range-at test 0 count x passed (omega arith) (omega (arith, bound))

-- The two have the same value.
unfoldable pub bool_eq : Bool → Bool → Bool
bool_eq true b = b
bool_eq false b = not b

pub bool_eq_iff : (a b : Bool) → (bool_eq a b ≡ true) ↔ (a ≡ b)
unfolding bool_eq
bool_eq_iff true b = ground arith
bool_eq_iff false b = ground arith
