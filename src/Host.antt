-- ===== src/Host.antt =====
-- src/util.c: `check_host`, `strlower` and `to_upper`. Characters are those of the C locale.
use boa.Common.{
  ℕ, ◌+◌, ◌-◌, ◌≤◌, ◌≡◌, refl, sym, ap, ◌∙◌, ◌↔◌, Bool, true, false, not, ◌&&◌, ◌||◌, Option, none,
  some, [], ◌∷◌, arith, ltb, ◌==◌, if◌then◌else◌, within, length, Bytes,
}

unfoldable pub is_alnum : ℕ → Bool
is_alnum c = within b'a' b'z' c || within b'A' b'Z' c || within b'0' b'9' c

unfoldable pub to_lower : ℕ → ℕ
to_lower c = if within b'A' b'Z' c then c + 32 else c

unfoldable pub to_upper_char : ℕ → ℕ
to_upper_char c = if within b'a' b'z' c then c - 32 else c

unfoldable pub strlower : Bytes → Bytes
unfolding to_lower
strlower [] = []
strlower (c ∷ s) = to_lower c ∷ strlower s

unfoldable pub to_upper : Bytes → Bytes
unfolding to_upper_char
to_upper [] = []
to_upper (c ∷ s) = (if c == b'-' then b'_' else to_upper_char c) ∷ to_upper s

-- The `while` of `check_host`, behind the byte `last`: the last byte of the name, or `none` where
-- the loop returns -1.
unfoldable pub host_loop : Bool → ℕ → Bytes → Option ℕ
host_loop period_ok last [] = some last
host_loop period_ok last (c ∷ s) =
    let word = is_alnum c || c == b'-' in
    let rest = host_loop word c s in if word || (c == b'.' && period_ok) then rest else none

-- `none` is -1.
unfoldable pub check_host : Bytes → Option ℕ
check_host [] = none
check_host (c ∷ s) =
    if not (is_alnum c)
    then none
    else if ltb 63 (length (c ∷ s))
    then none
    else elim (host_loop true c s) [
      | none ↦ none
      | some last ↦ if is_alnum last then some (length (c ∷ s)) else none
    ]

abbrev is_host_char : ℕ → Bool
is_host_char c = is_alnum c || c == b'-' || c == b'.'

-- A name of allowed characters with no two dots side by side, from the byte `last` on.
abbrev pub HostTail : ℕ → Bytes → Type 0
HostTail last [] = is_alnum last ≡ true
HostTail last (c ∷ s) =
    (is_host_char c ≡ true) × ((last == b'.' && c == b'.') ≡ false) × HostTail c s

-- What a valid host name is.
abbrev pub IsHost : Bytes → Type 0
IsHost [] = ⊥
IsHost (c ∷ s) = (is_alnum c ≡ true) × (length (c ∷ s) ≤ 63) × HostTail c s

alnum_not_dot : (c : ℕ) → (is_alnum c || c == b'-') ≡ true → (c == b'.') ≡ false
unfolding is_alnum
alnum_not_dot c h = ground arith

word_iff_not_dot : (c : ℕ) → is_host_char c ≡ true → (is_alnum c || c == b'-') ≡ not (c == b'.')
unfolding is_alnum
word_iff_not_dot c h = ground arith

no-tf : true ≡ false → ⊥
no-tf e = ground arith

no-none : {n : ℕ} → none ≡ some n → ⊥
no-none e = ground arith

step_lem :
    (a h d ok l : Bool) (P : Type 0) (rest : Option ℕ) (end : ℕ)
    → ((a || h) ≡ true → d ≡ false)
    → ok ≡ not l
    → ((a || h) ≡ not d → rest ≡ some end → P)
    → (if (a || h) || (d && ok) then rest else none) ≡ some end
    → ((a || h || d) ≡ true) × ((l && d) ≡ false) × P
step_lem true h true ok l P rest end n o k e = absurd (no-tf (n refl))
step_lem false true true ok l P rest end n o k e = absurd (no-tf (n refl))
step_lem false false true true true P rest end n o k e = absurd (no-tf o)
step_lem false false true true false P rest end n o k e = (refl, refl, k refl e)
step_lem false false true false l P rest end n o k e = absurd (no-none e)
step_lem true h false ok true P rest end n o k e = (refl, refl, k refl e)
step_lem true h false ok false P rest end n o k e = (refl, refl, k refl e)
step_lem false true false ok true P rest end n o k e = (refl, refl, k refl e)
step_lem false true false ok false P rest end n o k e = (refl, refl, k refl e)
step_lem false false false ok l P rest end n o k e = absurd (no-none e)

host_loop-HostTail :
    (s : Bytes) (ok : Bool) (last : ℕ) (end : ℕ)
    → ok ≡ not (last == b'.')
    → host_loop ok last s ≡ some end
    → is_alnum end ≡ true
    → HostTail last s
unfolding host_loop
host_loop-HostTail [] ok last end o e a = ground arith
host_loop-HostTail (c ∷ s) ok last end o e a =
    step_lem (is_alnum c) (c == b'-') (c == b'.') ok (last == b'.') (HostTail c s)
      (host_loop (is_alnum c || c == b'-') c s) end (alnum_not_dot c) o
      (λ p q. host_loop-HostTail s _ c end p q a) e

back_lem :
    (a h d ok l : Bool) (rest : Option ℕ)
    → (a || h || d) ≡ true
    → (l && d) ≡ false
    → ok ≡ not l
    → (if (a || h) || (d && ok) then rest else none) ≡ rest
back_lem a h d ok l rest w x o = ground arith

HostTail-host_loop :
    (s : Bytes) (ok : Bool) (last : ℕ)
    → ok ≡ not (last == b'.')
    → HostTail last s
    → (end : ℕ) × (host_loop ok last s ≡ some end) × (is_alnum end ≡ true)
unfolding host_loop
HostTail-host_loop [] ok last o h = (last, refl, h)
HostTail-host_loop (c ∷ s) ok last o (h, d, t) =
    let (end, e, a) = HostTail-host_loop s (is_alnum c || c == b'-') c (word_iff_not_dot c h) t in
    (
      end,
      back_lem (is_alnum c) (c == b'-') (c == b'.') ok (last == b'.')
            (host_loop (is_alnum c || c == b'-') c s) h d o
          ∙ e,
      a,
    )

result_lem :
    (a long : Bool) (o : Option ℕ) (m n : ℕ)
    → (if not a
        then none
        else if long
        then none
        else elim o [ none ↦ none | some last ↦ if is_alnum last then some m else none ])
      ≡ some n
    → (a ≡ true)
      × (long ≡ false)
      × (n ≡ m)
      × ((last : ℕ) × (o ≡ some last) × (is_alnum last ≡ true))
result_lem a long none m n e = ground arith
result_lem a long (some last) m n e =
    let (x, y, z, w) = some_lem a long (is_alnum last) m n e in (x, y, w, (last, refl, z))
  where
    some_lem :
        (a long b : Bool) (m n : ℕ)
        → (if not a then none else if long then none else if b then some m else none) ≡ some n
        → (a ≡ true) × (long ≡ false) × (b ≡ true) × (n ≡ m)
    some_lem a long b m n e = ground arith

back_result :
    (a long : Bool) (o : Option ℕ) (m n end : ℕ)
    → a ≡ true
    → long ≡ false
    → o ≡ some end
    → is_alnum end ≡ true
    → n ≡ m
    → (if not a
        then none
        else if long
        then none
        else elim o [ none ↦ none | some last ↦ if is_alnum last then some m else none ])
      ≡ some n
back_result a long o m n end p q r x e = rw (p, q, r, x, e) refl

pub check_host_iff : (s : Bytes) (n : ℕ) → (check_host s ≡ some n) ↔ (IsHost s × (n ≡ length s))
unfolding check_host
check_host_iff [] n = (λ e. absurd (no-none e), λ (h, e). absurd h)
check_host_iff (c ∷ s) n = (there, back)
  where
    ok : is_alnum c ≡ true → true ≡ not (c == b'.')
    ok a = ap not (sym (alnum_not_dot c (ap (λ b. b || (c == b'-')) a)))

    there : check_host (c ∷ s) ≡ some n → IsHost (c ∷ s) × (n ≡ length (c ∷ s))
    there e =
        let (a, l, m, (end, o, x)) = result_lem _ _ (host_loop true c s) _ n e in
        ((a, ground (arith, l), host_loop-HostTail s true c end (ok a) o x), m)

    back : IsHost (c ∷ s) × (n ≡ length (c ∷ s)) → check_host (c ∷ s) ≡ some n
    back ((a, l, t), m) =
        let (end, o, x) = HostTail-host_loop s true c (ok a) t in
        back_result _ _ (host_loop true c s) _ n end a (ground (arith, l)) o x m
