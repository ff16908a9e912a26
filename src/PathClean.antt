-- ===== src/PathClean.antt =====
-- src/util.c, `clean_pathname`: the rewriting of a decoded URI in place. The write position never
-- passes the read position, so the function is one from the old bytes to the new.
pub mod Safe
use boa.Common.{
  if◌then◌else◌, ℕ, zero, suc, ◌<◌, ◌≤◌, ◌≡◌, refl, ap, Bool, true, false, ◌&&◌, inl, inr, [], ◌∷◌,
  arith, ◌==◌, Bool-cases, length, Bytes,
}

-- The inner `while (1)`: what stands at `pathname` when it breaks.
unfoldable pub skip_dots : Bytes → Bytes
skip_dots [] = []
skip_dots (a ∷ []) = if a == b'/' then [] else a ∷ []
skip_dots (a ∷ b ∷ []) =
    let one = skip_dots (b ∷ []) in
    if a == b'/' then one else if a == b'.' && b == b'/' then [] else a ∷ b ∷ []
skip_dots (a ∷ b ∷ c ∷ r) =
    let one = skip_dots (b ∷ c ∷ r) in
    let two = skip_dots (c ∷ r) in
    let three = skip_dots r in
    if a == b'/'
    then one
    else if a == b'.' && b == b'/'
    then two
    else if a == b'.' && b == b'.' && c == b'/'
    then three
    else a ∷ b ∷ c ∷ r

-- The outer `while`, on fuel.
unfoldable pub clean_loop : ℕ → Bytes → Bytes
unfolding skip_dots
clean_loop zero s = []
clean_loop (suc f) [] = []
clean_loop (suc f) (c ∷ r) =
    let at_slash = b'/' ∷ clean_loop f (skip_dots r) in
    let other = c ∷ clean_loop f r in if c == b'/' then at_slash else other

-- Each round reads at least one byte, so a round more than the bytes is enough.
unfoldable pub clean_pathname : Bytes → Bytes
unfolding clean_loop
clean_pathname s = clean_loop (suc (length s)) s

pub length-skip_dots : (s : Bytes) → length (skip_dots s) ≤ length s
unfolding skip_dots
length-skip_dots [] = omega arith
length-skip_dots (a ∷ []) = ground arith
length-skip_dots (a ∷ b ∷ []) = ground arith
length-skip_dots (a ∷ b ∷ c ∷ r) =
    ground (arith, length-skip_dots (b ∷ c ∷ r), length-skip_dots (c ∷ r), length-skip_dots r)

clean_loop-fuel :
    (f g : ℕ) (s : Bytes) → length s < f → length s < g → clean_loop f s ≡ clean_loop g s
unfolding clean_loop
clean_loop-fuel zero g s h k = absurd (omega arith)
clean_loop-fuel (suc f) zero s h k = absurd (omega arith)
clean_loop-fuel (suc f) (suc g) [] h k = refl
clean_loop-fuel (suc f) (suc g) (c ∷ r) h k = elim (Bool-cases (c == b'/')) [
  | inl e ↦ rw e (
      ap (λ (t : Bytes). b'/' ∷ t)
        (clean_loop-fuel f g (skip_dots r) (omega (arith, length-skip_dots r))
          (omega (arith, length-skip_dots r))))
  | inr e ↦ rw e (ap (λ (t : Bytes). c ∷ t) (clean_loop-fuel f g r (omega arith) (omega arith)))
]

-- The fuel never runs out: the loop's two branches hold as equations on every input.
pub clean-slash : (r : Bytes) → clean_pathname (b'/' ∷ r) ≡ b'/' ∷ clean_pathname (skip_dots r)
unfolding clean_pathname
clean-slash r =
    ap (λ (t : Bytes). b'/' ∷ t)
      (clean_loop-fuel (suc (length r)) (suc (length (skip_dots r))) (skip_dots r)
        (omega (arith, length-skip_dots r)) (omega arith))

pub clean-other :
    (c : ℕ) (r : Bytes) → (c == b'/') ≡ false → clean_pathname (c ∷ r) ≡ c ∷ clean_pathname r
unfolding clean_pathname
clean-other c r e = rw e
