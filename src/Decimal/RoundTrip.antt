-- ===== src/Decimal/RoundTrip.antt =====
-- `boa_atoi` accepts exactly the texts that `simple_itoa` writes for an int.
use boa.Common.{
  starts_split, length, length-append, append-nil, ℕ, zero, suc, ◌+◌, ◌-◌, ◌*◌, ◌^◌, ◌≤◌, ◌<◌, ◌≡◌,
  refl, ap, ◌≢◌, inl, inr, true, Option, none, some, [], ◌∷◌, ◌++◌, arith, Bool-cases, Bytes,
  starts,
}
use boa.Decimal.{is_digit, simple_itoa, atoi, checked, boa_atoi}
use boa.Decimal.Print.{
  value, AllDigits, value-append, digits_value-value, simple_itoa-value, simple_itoa-AllDigits,
  simple_itoa-ne-nil, length-simple_itoa_zero,
}

atoi-AllDigits : (s : Bytes) → AllDigits s → value 0 s < 2 ^ 31 → atoi s ≡ some (value 0 s)
unfolding atoi
atoi-AllDigits s d h = ground (arith, digits_value-value 0 s d)

starts_self : (s : Bytes) → starts s s ≡ true
starts_self [] = refl
starts_self (c ∷ s) = ground (arith, starts_self s)

AllDigits-left : (s t : Bytes) → AllDigits (s ++ t) → AllDigits s
AllDigits-left [] t h = tt
AllDigits-left (c ∷ s) t h = (h.0, AllDigits-left s t h.1)

value-ge : (v : ℕ) (s : Bytes) → v ≤ value v s
value-ge v [] = omega arith
value-ge v (c ∷ s) = omega (arith, value-ge (v * 10 + (c - b'0')) s)

boa_atoi-digits : (s : Bytes) → s ≢ [] → AllDigits s → boa_atoi s ≡ checked s (atoi s)
unfolding boa_atoi
boa_atoi-digits [] n d = absurd (n refl)
boa_atoi-digits (c ∷ s) n d = rw d.0

-- What simple_itoa prints for a number below 2 ^ 31, boa_atoi reads back.
pub boa_atoi-simple_itoa : (n : ℕ) → n < 2 ^ 31 → boa_atoi (simple_itoa n) ≡ some n
unfolding checked
boa_atoi-simple_itoa n h = rw (
  boa_atoi-digits (simple_itoa n) (simple_itoa-ne-nil n) (simple_itoa-AllDigits n),
  atoi-AllDigits (simple_itoa n) (simple_itoa-AllDigits n) (omega (arith, simple_itoa-value n)),
  simple_itoa-value n (omega arith),
  starts_self (simple_itoa n),
)

-- What a successful call has seen.
record Read (s : Bytes) (n : ℕ) : Type 0 where
  ne_nil : s ≢ []
  small : n < 2 ^ 31
  read : atoi s ≡ some n
  front : starts s (simple_itoa n) ≡ true

checked-eq-some :
    (s : Bytes) (o : Option ℕ) (n : ℕ)
    → checked s o ≡ some n
    → (o ≡ some n) × (starts s (simple_itoa n) ≡ true)
unfolding checked
checked-eq-some s none n h = cc
checked-eq-some s (some v) n h = elim (Bool-cases (starts s (simple_itoa v))) [
  | inl e ↦ let same : v ≡ n = ground arith in (ap (λ (k : ℕ). some k) same, rw (← same) e)
  | inr e ↦ absurd (ground arith)
]

atoi_small : (s : Bytes) (n : ℕ) → atoi s ≡ some n → n < 2 ^ 31
unfolding atoi
atoi_small s n h = ground arith

boa_atoi-Read : (s : Bytes) (n : ℕ) → boa_atoi s ≡ some n → Read s n
unfolding boa_atoi
boa_atoi-Read [] n h = cc
boa_atoi-Read (c ∷ s) n h = elim (Bool-cases (is_digit c)) [
  | inl e ↦
      let both = checked-eq-some (c ∷ s) (atoi (c ∷ s)) n (rw e at h) in
      record {
        ne_nil = ground arith;
        small = atoi_small (c ∷ s) n both.0;
        read = both.0;
        front = both.1;
      }
  | inr e ↦ absurd (ground arith)
]

front_only : (s t : Bytes) (n : ℕ) → s ≢ [] → simple_itoa n ≡ s ++ t → value n t ≡ n → t ≡ []
front_only s [] n ne e v = refl
front_only [] (d ∷ t) zero ne e v = absurd (ne refl)
front_only (c ∷ s) (d ∷ t) zero ne e v =
    absurd (omega (arith, ap length e, length-simple_itoa_zero, length-append s (d ∷ t)))
front_only [] (d ∷ t) (suc n) ne e v = absurd (ne refl)
front_only (c ∷ s) (d ∷ t) (suc n) ne e v =
    absurd (omega (arith, value-ge (suc n * 10 + (d - b'0')) t))

-- Every string that boa_atoi accepts is the decimal text that simple_itoa prints for its result.
pub boa_atoi_canonical : (s : Bytes) (n : ℕ) → boa_atoi s ≡ some n → s ≡ simple_itoa n
boa_atoi_canonical s n h =
    let r = boa_atoi-Read s n h in
    let (t, e) = starts_split s (simple_itoa n) r.front in
    let whole : value 0 (s ++ t) ≡ n = rw (← e) (simple_itoa-value n (omega (arith, r.small))) in
    let digits : AllDigits s = AllDigits-left s t (rw (← e) (simple_itoa-AllDigits n)) in
    let parts : value (value 0 s) t ≡ n = rw (← value-append 0 s t) whole in
    let low : value 0 s < 2 ^ 31 = omega (arith, r.small, value-ge (value 0 s) t) in
    let same : value 0 s ≡ n = ground (arith, atoi-AllDigits s digits low, r.read) in
    let none_left : t ≡ [] = front_only s t n r.ne_nil e (rw same at parts) in
    rw (e, none_left, append-nil)
