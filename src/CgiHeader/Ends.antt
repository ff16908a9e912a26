-- ===== src/CgiHeader/Ends.antt =====
-- Where the header of a CGI program ends.
use boa.Common.{
  ◌∙◌, ap, ℕ, ◌+◌, ◌-◌, ◌≡◌, refl, ap, ◌∙◌, Bool, true, false, Option, none, some, [], ◌∷◌, ◌++◌,
  arith, if◌then◌else◌, length, get_or, take, drop, Bytes, starts, take-append,
}
use native.Mathlib.Nat.{zero-add, suc-add}
use boa.Common.{take-append}
use boa.Request.{c_string}
use boa.Request.Text.{IsText, c_string-append}
use boa.CgiHeader.{one_more, find_text, lf_cr_lf, lf_lf, header_end_at, behind_end}

-- The text that ends a line and the empty line behind it.
pub data Separator : Type 0 where
  crlf_lines lf_lines : Separator

abbrev pub separator : Separator → Bytes
separator crlf_lines = lf_cr_lf
separator lf_lines = lf_lf

-- With the rest of the output it is the header of a program: no end of a header stands in it, nor
-- across its end, and behind lines that end with a line feed alone there is no end of the other
-- kind.
pub record IsHead (h : Bytes) (sep : Separator) (body : Bytes) : Type 0 where
  pub text : IsText h
  pub first :
      find_text (separator sep) (h ++ take (length (separator sep) - 1) (separator sep)) ≡ none
  pub alone : sep ≡ lf_lines → find_text lf_cr_lf (c_string (h ++ (lf_lf ++ body))) ≡ none

not_none : (o : Option ℕ) → one_more o ≡ none → o ≡ none
not_none none e = refl
not_none (some n) e = absurd (ground (arith, e))

-- A step of find_text, with the text cut at its head.
find_text-later :
    (p s : Bytes) (c : ℕ)
    → starts p (c ∷ s) ≡ false
    → find_text p (c ∷ s) ≡ one_more (find_text p s)
unfolding find_text
find_text-later p s c e = rw (e) refl

find_text-none :
    (p s : Bytes) (c : ℕ)
    → find_text p (c ∷ s) ≡ none
    → (starts p (c ∷ s) ≡ false) × (find_text p s ≡ none)
unfolding find_text
find_text-none p s c e = by_start (starts p (c ∷ s)) e
  where
    by_start :
        (b : Bool)
        → (if b then some 0 else one_more (find_text p s)) ≡ none
        → (b ≡ false) × (find_text p s ≡ none)
    by_start true e = absurd (ground (arith, e))
    by_start false e = (refl, not_none (find_text p s) e)

starts_crlf :
    (h t : Bytes) (c : ℕ)
    → starts lf_cr_lf (c ∷ h ++ 10 ∷ 13 ∷ t) ≡ starts lf_cr_lf (c ∷ h ++ 10 ∷ 13 ∷ [])
starts_crlf [] t c = refl
starts_crlf (d ∷ []) t c = refl
starts_crlf (d ∷ e ∷ h) t c = refl

find_text-crlf :
    (h t : Bytes)
    → find_text lf_cr_lf (h ++ 10 ∷ 13 ∷ []) ≡ none
    → find_text lf_cr_lf (h ++ (lf_cr_lf ++ t)) ≡ some (length h)
find_text-crlf [] t e = unfold find_text in refl
find_text-crlf (c ∷ h) t e =
    let (n, r) = find_text-none lf_cr_lf (h ++ 10 ∷ 13 ∷ []) c e in
    find_text-later lf_cr_lf (h ++ (lf_cr_lf ++ t)) c (starts_crlf h (10 ∷ t) c ∙ n)
    ∙ ap one_more (find_text-crlf h t r)

starts_lf : (h t : Bytes) (c : ℕ) → starts lf_lf (c ∷ h ++ 10 ∷ t) ≡ starts lf_lf (c ∷ h ++ 10 ∷ [])
starts_lf [] t c = refl
starts_lf (d ∷ h) t c = refl

find_text-lf :
    (h t : Bytes)
    → find_text lf_lf (h ++ 10 ∷ []) ≡ none
    → find_text lf_lf (h ++ (lf_lf ++ t)) ≡ some (length h)
find_text-lf [] t e = unfold find_text in refl
find_text-lf (c ∷ h) t e =
    let (n, r) = find_text-none lf_lf (h ++ 10 ∷ []) c e in
    find_text-later lf_lf (h ++ (lf_lf ++ t)) c (starts_lf h (10 ∷ t) c ∙ n)
    ∙ ap one_more (find_text-lf h t r)

by_crlf : (s : Bytes) (n : ℕ) → find_text lf_cr_lf s ≡ some n → header_end_at s ≡ some n
unfolding header_end_at
by_crlf s n e = rw (header_end_at, e) refl

by_lf :
    (s : Bytes) (n : ℕ)
    → find_text lf_cr_lf s ≡ none
    → find_text lf_lf s ≡ some n
    → header_end_at s ≡ some n
unfolding header_end_at
by_lf s n e f = rw (header_end_at, e) f

-- The end that is found is the one behind the header.
pub header_end_at-IsHead :
    (h body : Bytes) (sep : Separator)
    → IsHead h sep body
    → header_end_at (c_string (h ++ (separator sep ++ body))) ≡ some (length h)
unfolding c_string
header_end_at-IsHead h body crlf_lines i = by_crlf _ (length h) (
    ap (find_text lf_cr_lf) (c_string-append h (lf_cr_lf ++ body) i.text)
    ∙ find_text-crlf h (c_string body) i.first)
header_end_at-IsHead h body lf_lines i = by_lf _ (length h) (i.alone refl) (
    ap (find_text lf_lf) (c_string-append h (lf_lf ++ body) i.text)
    ∙ find_text-lf h (c_string body) i.first)

get_or-behind : (h t : Bytes) (n : ℕ) → get_or (h ++ t) (length h + n) 0 ≡ get_or t n 0
get_or-behind [] t n = rw (zero-add) refl
get_or-behind (c ∷ h) t n = rw (suc-add) (get_or-behind h t n)

drop-behind : (h t : Bytes) (n : ℕ) → drop (length h + n) (h ++ t) ≡ drop n t
drop-behind [] t n = rw (zero-add) refl
drop-behind (c ∷ h) t n = rw (suc-add) (drop-behind h t n)

-- The last byte of the separator stays in front of the body.
pub behind_end-IsHead :
    (h body : Bytes) (sep : Separator)
    → (drop (behind_end (h ++ (separator sep ++ body)) (length h)) (h ++ (separator sep ++ body))
        ≡ 10 ∷ body)
      × (take (behind_end (h ++ (separator sep ++ body)) (length h)) (h ++ (separator sep ++ body))
          ≡ h ++ take (length (separator sep) - 1) (separator sep))
unfolding behind_end
behind_end-IsHead h body crlf_lines =
    rw (get_or-behind h (lf_cr_lf ++ body) 1)
      (drop-behind h (lf_cr_lf ++ body) 2, take-append 2 h (lf_cr_lf ++ body))
behind_end-IsHead h body lf_lines =
    rw (get_or-behind h (lf_lf ++ body) 1)
      (drop-behind h (lf_lf ++ body) 1, take-append 1 h (lf_lf ++ body))
