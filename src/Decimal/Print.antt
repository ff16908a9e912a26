-- ===== src/Decimal/Print.antt =====
-- The text that `simple_itoa` writes, digit by digit.
use boa.Common.{
  ◌≢◌, ℕ, zero, suc, ◌+◌, ◌-◌, ◌*◌, ◌/◌, ◌%◌, ◌^◌, ◌≤◌, ◌<◌, ◌≡◌, refl, ap, ◌∙◌, inl, inr, true, [],
  ◌∷◌, ◌++◌, arith, ◌==◌, eq-of-==, Bool-cases, length, All, Bytes,
}
use native.Mathlib.Nat.{pow-suc}
use boa.Decimal.{is_digit, itoa_loop, simple_itoa, digits_value}

-- The value of a text of digits, read on from `v`.
abbrev pub value : ℕ → Bytes → ℕ
value v [] = v
value v (c ∷ s) = value (v * 10 + (c - b'0')) s

abbrev pub AllDigits : Bytes → Type 0
AllDigits s = All (λ c. is_digit c ≡ true) s

pub value-append : (v : ℕ) (s t : Bytes) → value v (s ++ t) ≡ value (value v s) t
value-append v [] t = refl
value-append v (c ∷ s) t = value-append (v * 10 + (c - b'0')) s t

pub digits_value-value : (v : ℕ) (s : Bytes) → AllDigits s → digits_value v s ≡ value v s
unfolding digits_value
digits_value-value v [] h = refl
digits_value-value v (c ∷ s) h = rw h.0 (digits_value-value (v * 10 + (c - b'0')) s h.1)

is_digit_mod : (i : ℕ) → is_digit (b'0' + i % 10) ≡ true
is_digit_mod i = ground arith

last_digit : (i : ℕ) (digits : Bytes) → value (i / 10) ((b'0' + i % 10) ∷ digits) ≡ value i digits
last_digit i digits = ap (λ v. value v digits) (omega arith)

first_digit :
    (i : ℕ) (digits : Bytes)
    → (i / 10 == 0) ≡ true
    → value 0 ((b'0' + i % 10) ∷ digits) ≡ value i digits
first_digit i digits e = ap (λ v. value v digits) (omega (arith, eq-of-== (i / 10) 0 e))

-- Enough fuel prints every digit, in front of those that are there.
itoa_loop-value :
    (f i : ℕ) (digits : Bytes)
    → i < 10 ^ suc f
    → value 0 (itoa_loop (suc f) i digits) ≡ value i digits
unfolding itoa_loop
itoa_loop-value zero i digits h =
    let e : (i / 10 == 0) ≡ true = ground arith in rw e (first_digit i digits e)
itoa_loop-value (suc f) i digits h = elim (Bool-cases (i / 10 == 0)) [
  | inl e ↦ rw e (first_digit i digits e)
  | inr e ↦ rw e (
      itoa_loop-value f (i / 10) ((b'0' + i % 10) ∷ digits) (omega (arith, pow-suc 10 (suc f)))
      ∙ last_digit i digits)
]

itoa_loop-AllDigits :
    (f i : ℕ) (digits : Bytes) → AllDigits digits → AllDigits (itoa_loop f i digits)
unfolding itoa_loop
itoa_loop-AllDigits zero i digits h = h
itoa_loop-AllDigits (suc f) i digits h = elim (Bool-cases (i / 10 == 0)) [
  | inl e ↦ rw e (is_digit_mod i, h)
  | inr e ↦ rw e (itoa_loop-AllDigits f (i / 10) _ (is_digit_mod i, h))
]

length-itoa_loop : (f i : ℕ) (digits : Bytes) → length (itoa_loop f i digits) ≤ f + length digits
unfolding itoa_loop
length-itoa_loop zero i digits = omega arith
length-itoa_loop (suc f) i digits =
    ground (arith, length-itoa_loop f (i / 10) ((b'0' + i % 10) ∷ digits))

pub simple_itoa-value : (i : ℕ) → i < 2 ^ 64 → value 0 (simple_itoa i) ≡ i
unfolding simple_itoa
simple_itoa-value i h = itoa_loop-value 19 i [] (omega arith)

pub simple_itoa-AllDigits : (i : ℕ) → AllDigits (simple_itoa i)
unfolding simple_itoa
simple_itoa-AllDigits i = itoa_loop-AllDigits 20 i [] tt

-- The 21 bytes in front of the NUL are room enough.
pub length-simple_itoa : (i : ℕ) → length (simple_itoa i) ≤ 20
unfolding simple_itoa
length-simple_itoa i = omega (arith, length-itoa_loop 20 i [])

itoa_loop-ne-nil : (f i : ℕ) (digits : Bytes) → itoa_loop (suc f) i digits ≢ []
unfolding itoa_loop
itoa_loop-ne-nil zero i digits = ground arith
itoa_loop-ne-nil (suc f) i digits =
    ground (arith, itoa_loop-ne-nil f (i / 10) ((b'0' + i % 10) ∷ digits))

pub simple_itoa-ne-nil : (i : ℕ) → simple_itoa i ≢ []
unfolding simple_itoa
simple_itoa-ne-nil i = itoa_loop-ne-nil 19 i []

pub length-simple_itoa_zero : length (simple_itoa 0) ≡ 1
unfolding simple_itoa
length-simple_itoa_zero = refl
