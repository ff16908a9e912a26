-- ===== src/Listing/Html.antt =====
-- The text that a name is written as in a page.
use boa.Common.{
  ◌∙◌, sym, ap, ℕ, ◌-◌, ◌*◌, ◌≤◌, ◌≡◌, refl, sym, ap, ◌∙◌, inl, inr, false, ◌||◌, [], ◌∷◌, ◌++◌,
  arith, ltb, ◌==◌, if◌then◌else◌, eq-of-==, Bool-cases, length, length-append, All, All-append,
  Bytes, codes, starts,
}
use boa.Listing.{html_text, html_escape_string}

-- The byte of the entity whose name follows an "&", and how many bytes the name and its semicolon
-- are. An "&" in front of anything else stands for itself.
abbrev entity : Bytes → ℕ × ℕ
entity s =
    if starts (codes "gt;") s
    then (b'>', 3)
    else if starts (codes "lt;") s
    then (b'<', 3)
    else if starts (codes "amp;") s
    then (b'&', 4)
    else if starts (codes "quot;") s
    then (b'"', 5)
    else (b'&', 0)

-- What a reader of HTML sees of a text whose entities are those four; `skip` bytes belong to the
-- entity that has been read.
unfoldable pub html_unescape : (skip : ℕ) → Bytes → Bytes
html_unescape skip [] = []
html_unescape skip (c ∷ s) =
    if ltb 0 skip
    then html_unescape (skip - 1) s
    else if c == b'&'
    then (entity s).0 ∷ html_unescape (entity s).1 s
    else c ∷ html_unescape 0 s

-- None of "<", ">" and the quotation mark.
abbrev pub IsNoMarkup : ℕ → Type 0
IsNoMarkup c = (c == b'<' || c == b'>' || c == b'"') ≡ false

plain_byte :
    (c : ℕ) (s : Bytes) → (c == b'&') ≡ false → html_unescape 0 (c ∷ s) ≡ c ∷ html_unescape 0 s
unfolding html_unescape
plain_byte c s a = rw (a) refl

html_unescape-html_text :
    (c : ℕ) (s : Bytes) → html_unescape 0 (html_text c ++ s) ≡ c ∷ html_unescape 0 s
unfolding html_unescape html_text
html_unescape-html_text c s = elim (Bool-cases (c == b'>')) [
  | inl e ↦ rw (e) (ap (λ b. b ∷ html_unescape 0 s) (sym (eq-of-== _ _ e)))
  | inr g ↦ elim (Bool-cases (c == b'<')) [
    | inl e ↦ rw (g, e) (ap (λ b. b ∷ html_unescape 0 s) (sym (eq-of-== _ _ e)))
    | inr l ↦ elim (Bool-cases (c == b'&')) [
      | inl e ↦ rw (g, l, e) (ap (λ b. b ∷ html_unescape 0 s) (sym (eq-of-== _ _ e)))
      | inr a ↦ elim (Bool-cases (c == b'"')) [
        | inl e ↦ rw (g, l, a, e) (ap (λ b. b ∷ html_unescape 0 s) (sym (eq-of-== _ _ e)))
        | inr q ↦ rw (g, l, a, q) (plain_byte c s a)
      ]
    ]
  ]
]

unescaped : (s : Bytes) → html_unescape 0 (html_escape_string s) ≡ s
unfolding html_escape_string html_unescape
unescaped [] = refl
unescaped (c ∷ s) = html_unescape-html_text c (html_escape_string s) ∙ ap (λ r. c ∷ r) (unescaped s)

-- At most six bytes, none of them markup.
abbrev IsText : ℕ → Bytes → Type 0
IsText n text = (All IsNoMarkup text) × (length text ≤ n)

no_markup : (c : ℕ) → (c == b'>') ≡ false → (c == b'<') ≡ false → (c == b'"') ≡ false → IsNoMarkup c
no_markup c g l q = rw (l, g, q) refl

html_text-IsText : (c : ℕ) → IsText 6 (html_text c)
unfolding html_text
html_text-IsText c = elim (Bool-cases (c == b'>')) [
  | inl e ↦ rw (e) ((refl, (refl, (refl, (refl, tt)))), omega arith)
  | inr g ↦ elim (Bool-cases (c == b'<')) [
    | inl e ↦ rw (g, e) ((refl, (refl, (refl, (refl, tt)))), omega arith)
    | inr l ↦ elim (Bool-cases (c == b'&')) [
      | inl e ↦ rw (g, l, e) ((refl, (refl, (refl, (refl, (refl, tt))))), omega arith)
      | inr a ↦ elim (Bool-cases (c == b'"')) [
        | inl e ↦ rw (g, l, a, e) ((refl, (refl, (refl, (refl, (refl, (refl, tt)))))), omega arith)
        | inr q ↦ rw (g, l, a, q) ((no_markup c g l q, tt), omega arith)
      ]
    ]
  ]
]

html_escape_string-IsText : (s : Bytes) → IsText (6 * length s) (html_escape_string s)
unfolding html_escape_string
html_escape_string-IsText [] = (tt, omega arith)
html_escape_string-IsText (c ∷ s) =
    let (plain, short) = html_text-IsText c in
    let (rest_plain, rest_short) = html_escape_string-IsText s in
    (
      All-append IsNoMarkup (html_text c) (html_escape_string s) plain rest_plain,
      omega (arith, short, rest_short, length-append (html_text c) (html_escape_string s)),
    )

-- For every string: a reader of HTML sees what html_escape_string gives as the bytes of the string,
-- it has no "<", no ">" and no quotation mark, and at most six bytes for each byte.
pub html_unescape-html_escape_string :
    (s : Bytes)
    → (html_unescape 0 (html_escape_string s) ≡ s)
      × (All IsNoMarkup (html_escape_string s))
      × (length (html_escape_string s) ≤ 6 * length s)
html_unescape-html_escape_string s =
    let (plain, short) = html_escape_string-IsText s in (unescaped s, plain, short)
