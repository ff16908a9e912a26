-- ===== src/Escape/Table.antt =====
-- The bit table against the set of characters that it stands for.
use boa.Common.{
  ℕ, ◌*◌, ◌/◌, ◌%◌, ◌≤◌, ◌<◌, ◌≡◌, refl, ◌⊎◌, inl, inr, Bool, true, not, ◌||◌, [], ◌∷◌, arith, leb,
  within, Bool-cases, length, All, Bytes, codes, check_range, check_range-below, bool_eq,
  bool_eq_iff, member,
}
use boa.Escape.{needs_escape, needs_escape_bits, int_to_hex, escape_loop, build_needs_escape}

-- Letters, digits, and the other characters of the comment in escape.c, with "?".
unfoldable pub is_noescape : ℕ → Bool
is_noescape c =
    within b'a' b'z' c
    || within b'A' b'Z' c
    || within b'0' b'9' c
    || member c (codes "-_.!~*'():@&=+$,/?")

needs_escape_table : check_range (λ c. bool_eq (needs_escape c) (not (is_noescape c))) 0 128 ≡ true
unfolding check_range needs_escape build_needs_escape is_noescape member bool_eq
needs_escape_table = refl

is_noescape-small : (c : ℕ) → is_noescape c ≡ true → c < 128
unfolding is_noescape member
is_noescape-small c h = ground arith

needs_escape-big : (c : ℕ) → leb needs_escape_bits c ≡ true → needs_escape c ≡ true
unfolding needs_escape
needs_escape-big c h = rw h

-- The bit table that build_needs_escape makes gives the right answer for every character value:
-- exactly those outside the set of unescaped characters are escaped.
pub needs_escape_lem : (c : ℕ) → needs_escape c ≡ not (is_noescape c)
needs_escape_lem c = elim (Bool-cases (leb needs_escape_bits c)) [
  | inl big ↦ ground (arith, needs_escape-big c big, is_noescape-small c)
  | inr small ↦ (bool_eq_iff _ _).0 (
      check_range-below 128 (λ c. bool_eq (needs_escape c) (not (is_noescape c))) c
        needs_escape_table (ground arith))
]

hex_digits : check_range (λ x. is_noescape (int_to_hex x)) 0 16 ≡ true
unfolding check_range is_noescape member int_to_hex
hex_digits = refl

int_to_hex-is_noescape : (x : ℕ) → x < 16 → is_noescape (int_to_hex x) ≡ true
int_to_hex-is_noescape x h = check_range-below 16 (λ x. is_noescape (int_to_hex x)) x hex_digits h

-- For a text of bytes, what escape_string writes holds only unescaped characters and percent signs,
-- and is at most three times as long as its source.
pub escape_loop-IsEscaped :
    (s : Bytes)
    → All (λ c. c < 256) s
    → All (λ c. (is_noescape c ≡ true) ⊎ (c ≡ b'%')) (escape_loop s)
      × (length (escape_loop s) ≤ length s * 3)
unfolding escape_loop
escape_loop-IsEscaped [] h = (tt, omega arith)
escape_loop-IsEscaped (c ∷ s) h =
    let (safe, short) = escape_loop-IsEscaped s h.1 in
    elim (Bool-cases (needs_escape c)) [
      | inl e ↦ rw e (
        (
          inr refl,
          (
            inl (int_to_hex-is_noescape (c / 16) (omega (arith, h.0))),
            (inl (int_to_hex-is_noescape (c % 16) (omega arith)), safe),
          ),
        ),
        omega (arith, short),
      )
      | inr e ↦ rw e ((inl (ground (arith, needs_escape_lem c)), safe), omega (arith, short))
    ]
