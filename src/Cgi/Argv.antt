-- ===== src/Cgi/Argv.antt =====
-- The arguments of a CGI program that is asked with an index-style query.
use boa.Common.{
  ◌∙◌, ap, ℕ, zero, suc, ◌-◌, ◌/◌, ◌%◌, ◌≤◌, ◌<◌, ◌≡◌, refl, ap, ap₂, ◌∙◌, ◌≢◌, inl, inr, Bool,
  true, false, not, ◌&&◌, Option, none, some, List, [], ◌∷◌, ◌++◌, map, arith, ◌==◌, Bool-cases,
  length, take, All, Bytes, check_range, check_range-below, member,
}
use boa.Request.{c_string}
use boa.Uri.{Decoded, unescape_uri}
use boa.Escape.{escape_loop, int_to_hex, needs_escape}
use boa.Uri.RoundTrip.{unescape_uri-escape_loop}
use boa.Cgi.{add_arg, split_words, args, create_argv, cgi_argc_max}

-- The words with a '+' between two of them.
unfoldable pub join_words : Bytes → List Bytes → Bytes
join_words w [] = w
join_words w (v ∷ ws) = w ++ b'+' ∷ join_words v ws

split_words-plain :
    (w q : Bytes) → member b'+' w ≡ false → split_words (w ++ b'+' ∷ q) ≡ w ∷ split_words q
unfolding split_words member
split_words-plain [] q n = refl
split_words-plain (c ∷ w) q n = rw (split_words-plain w q (ground (arith, n)), differs) refl
  where
    differs : (c == b'+') ≡ false
    differs = ground (arith, n)

split_words-last : (w : Bytes) → member b'+' w ≡ false → split_words w ≡ w ∷ []
unfolding split_words member
split_words-last [] n = refl
split_words-last (c ∷ w) n = rw (split_words-last w (ground (arith, n)), differs) refl
  where
    differs : (c == b'+') ≡ false
    differs = ground (arith, n)

split_words-join_words :
    (w : Bytes) (ws : List Bytes)
    → All (λ v. member b'+' v ≡ false) (w ∷ ws)
    → split_words (join_words w ws) ≡ w ∷ ws
unfolding join_words
split_words-join_words w [] n = split_words-last w n.0
split_words-join_words w (v ∷ ws) n =
    split_words-plain w (join_words v ws) n.0 ∙ ap (λ r. w ∷ r) (split_words-join_words v ws n.1)

-- The bytes of a word: none of "?", "+", "=" and NUL.
abbrev pub IsWordByte : ℕ → Type 0
IsWordByte c = (c < 256) × (c ≢ b'?') × (c ≢ b'+') × (c ≢ b'=') × (c ≢ 0)

abbrev pub IsWord : Bytes → Type 0
IsWord = All IsWordByte

c_string-IsWord : (w : Bytes) → IsWord w → c_string w ≡ w
unfolding c_string
c_string-IsWord [] h = refl
c_string-IsWord (c ∷ w) h = rw (c_string-IsWord w h.1) (ground (arith, h.0))

weaker : (w : Bytes) → IsWord w → All (λ c. (c < 256) × (c ≢ b'?')) w
weaker [] h = tt
weaker (c ∷ w) h = ((h.0.0, h.0.1), weaker w h.1)

args-escape_loop :
    (room : ℕ) (ws : List Bytes) → All IsWord ws → args room (map escape_loop ws) ≡ take room ws
unfolding args add_arg
args-escape_loop zero ws h = refl
args-escape_loop (suc room) [] h = refl
args-escape_loop (suc room) (w ∷ ws) h =
    rw (unescape_uri-escape_loop w none (weaker w h.0))
      (ap₂ (λ a b. a ∷ b) (c_string-IsWord w h.0) (args-escape_loop room ws h.1))

escape_loop-no_mark :
    (x : ℕ) (w : Bytes)
    → ((d : ℕ) → d < 16 → (x == int_to_hex d) ≡ false)
    → (x == b'%') ≡ false
    → All (λ c. (c < 256) × (c ≢ x)) w
    → member x (escape_loop w) ≡ false
unfolding escape_loop member
escape_loop-no_mark x [] no_digit no_percent h = refl
escape_loop-no_mark x (c ∷ w) no_digit no_percent h = elim (Bool-cases (needs_escape c)) [
  | inl e ↦
      rw
        (
          e,
          no_percent,
          no_digit (c / 16) (omega (arith, h.0.0)),
          no_digit (c % 16) (omega arith),
          escape_loop-no_mark x w no_digit no_percent h.1,
        )
        refl
  | inr e ↦ rw (e, escape_loop-no_mark x w no_digit no_percent h.1) (ground (arith, h.0.1))
]

digits_differ :
    check_range (λ d. not (b'+' == int_to_hex d) && not (b'=' == int_to_hex d)) 0 16 ≡ true
unfolding check_range int_to_hex
digits_differ = refl

marks : (d : ℕ) → d < 16 → ((b'+' == int_to_hex d) ≡ false) × ((b'=' == int_to_hex d) ≡ false)
marks d h = both_false _ _ (
    check_range-below 16 (λ d. not (b'+' == int_to_hex d) && not (b'=' == int_to_hex d)) d
      digits_differ h)
  where
    both_false : (a b : Bool) → (not a && not b) ≡ true → (a ≡ false) × (b ≡ false)
    both_false true b e = absurd (ground (arith, e))
    both_false false true e = absurd (ground (arith, e))
    both_false false false e = (refl, refl)

no_plus : (w : Bytes) → IsWord w → member b'+' (escape_loop w) ≡ false
no_plus w h = escape_loop-no_mark b'+' w (λ d b. (marks d b).0) refl (kept w h)
  where
    kept : (w : Bytes) → IsWord w → All (λ c. (c < 256) × (c ≢ b'+')) w
    kept [] h = tt
    kept (c ∷ w) h = ((h.0.0, h.0.2), kept w h.1)

no_equals : (w : Bytes) → IsWord w → member b'=' (escape_loop w) ≡ false
no_equals w h = escape_loop-no_mark b'=' w (λ d b. (marks d b).1) refl (kept w h)
  where
    kept : (w : Bytes) → IsWord w → All (λ c. (c < 256) × (c ≢ b'=')) w
    kept [] h = tt
    kept (c ∷ w) h = ((h.0.0, h.0.3), kept w h.1)

member-append :
    (x : ℕ) (s t : Bytes) → member x s ≡ false → member x t ≡ false → member x (s ++ t) ≡ false
unfolding member
member-append x [] t a b = b
member-append x (c ∷ s) t a b = rw (member-append x s t (ground (arith, a)) b) (ground (arith, a))

join_words-no_equals :
    (w : Bytes) (ws : List Bytes)
    → All (λ v. member b'=' v ≡ false) (w ∷ ws)
    → member b'=' (join_words w ws) ≡ false
unfolding join_words member
join_words-no_equals w [] n = n.0
join_words-no_equals w (v ∷ ws) n =
    member-append b'=' w (b'+' ∷ join_words v ws) n.0 (rw (join_words-no_equals v ws n.1) refl)

All-escaped :
    (P : Bytes → Type 0) (ws : List Bytes)
    → ((w : Bytes) → IsWord w → P (escape_loop w))
    → All IsWord ws
    → All P (map escape_loop ws)
All-escaped P [] f h = tt
All-escaped P (w ∷ ws) f h = (f w h.0, All-escaped P ws f h.1)

-- Words of bytes without "?", "+", "=" and NUL, escaped and joined by '+', come back as the
-- arguments behind the path, in order; of more than 127 of them the first 127.
pub create_argv-join_words :
    (pathname w : Bytes) (ws : List Bytes)
    → All IsWord (w ∷ ws)
    → create_argv pathname (some (join_words (escape_loop w) (map escape_loop ws)))
      ≡ pathname ∷ take (cgi_argc_max - 1) (w ∷ ws)
unfolding create_argv
create_argv-join_words pathname w ws h =
    rw
      (
        join_words-no_equals (escape_loop w) (map escape_loop ws)
            (All-escaped _ (w ∷ ws) no_equals h),
        split_words-join_words (escape_loop w) (map escape_loop ws)
            (All-escaped _ (w ∷ ws) no_plus h),
      )
      (ap (λ r. pathname ∷ r) (args-escape_loop (cgi_argc_max - 1) (w ∷ ws) h))

length-add_arg :
    (room : ℕ) (d : Decoded) (next same : List Bytes)
    → length next ≤ room
    → length same ≤ suc room
    → length (add_arg d next same) ≤ suc room
unfolding add_arg
length-add_arg room d next same a b = ground (arith, a, b)

length-args : (room : ℕ) (ws : List Bytes) → length (args room ws) ≤ room
unfolding args
length-args zero ws = omega arith
length-args (suc room) [] = omega arith
length-args (suc room) (w ∷ ws) =
    length-add_arg room (unescape_uri w none) (args room ws) (args (suc room) ws)
      (length-args room ws) (length-args (suc room) ws)

-- Whatever the query is, there are at most 128 arguments, so that the null pointer behind them has
-- its place, and the first one is the path.
pub create_argv-bounded :
    (pathname : Bytes) (query : Option Bytes)
    → (length (create_argv pathname query) ≤ cgi_argc_max)
      × (take 1 (create_argv pathname query) ≡ pathname ∷ [])
unfolding create_argv
create_argv-bounded pathname none = (omega arith, refl)
create_argv-bounded pathname (some q) = elim (Bool-cases (member b'=' q)) [
  | inl e ↦ rw e (omega arith, refl)
  | inr e ↦ rw e (omega (arith, length-args 127 (split_words q)), refl)
]
