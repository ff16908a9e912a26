-- ===== src/PathClean/Safe.antt =====
-- What `clean_pathname` leaves: no component that names the directory itself or its parent.
use boa.Common.{
  ℕ, zero, suc, ◌<◌, ◌≡◌, refl, ◌∙◌, inl, inr, Bool, true, false, ◌||◌, [], ◌∷◌, ◌++◌, arith, ◌==◌,
  eq-of-==, Bool-cases, length, All, Bytes, codes, starts,
}
use boa.PathClean.{skip_dots, clean_pathname, clean-slash, clean-other, length-skip_dots}

-- `s` begins with "/", "./" or "../".
abbrev pub begins_dots : Bytes → Bool
begins_dots s = starts (codes "/") s || (starts (codes "./") s || starts (codes "../") s)

-- No slash has such a beginning behind it.
abbrev pub IsClean : Bytes → Type 0
IsClean [] = Unit {0}
IsClean (c ∷ r) = ((c == b'/') ≡ true → begins_dots r ≡ false) × IsClean r

begins_dots-skip_dots : (s : Bytes) → begins_dots (skip_dots s) ≡ false
unfolding skip_dots
begins_dots-skip_dots [] = refl
begins_dots-skip_dots (a ∷ []) = ground arith
begins_dots-skip_dots (a ∷ b ∷ []) = ground arith
begins_dots-skip_dots (a ∷ b ∷ c ∷ r) = ground (
  arith,
  begins_dots-skip_dots (b ∷ c ∷ r),
  begins_dots-skip_dots (c ∷ r),
  begins_dots-skip_dots r,
)

skip_dots_id : (s : Bytes) → begins_dots s ≡ false → skip_dots s ≡ s
unfolding skip_dots
skip_dots_id [] h = refl
skip_dots_id (a ∷ []) h = ground arith
skip_dots_id (a ∷ b ∷ []) h = ground arith
skip_dots_id (a ∷ b ∷ c ∷ r) h = ground arith

clean-nil : clean_pathname [] ≡ []
unfolding clean_pathname
clean-nil = refl

-- The first component is not changed, and neither is the slash that ends it.
starts-clean :
    (w s : Bytes)
    → All (λ p. (p == b'/') ≡ false) w
    → starts (w ++ b'/' ∷ []) (clean_pathname s) ≡ starts (w ++ b'/' ∷ []) s
starts-clean w [] h = rw clean-nil
starts-clean [] (c ∷ r) h = elim (Bool-cases (c == b'/')) [
  | inl e ↦ rw (eq-of-== c b'/' e, clean-slash r)
  | inr e ↦ rw (clean-other c r e)
]
starts-clean (p ∷ w) (c ∷ r) h = elim (Bool-cases (c == b'/')) [
  | inl e ↦ ground (arith, clean-slash r)
  | inr e ↦ rw (clean-other c r e, starts-clean w r h.1)
]

begins_dots-clean : (s : Bytes) → begins_dots (clean_pathname s) ≡ begins_dots s
begins_dots-clean s = rw (
  starts-clean [] s tt,
  starts-clean (codes ".") s (refl, tt),
  starts-clean (codes "..") s (refl, (refl, tt)),
)

clean_pathname-IsClean : (f : ℕ) (s : Bytes) → length s < f → IsClean (clean_pathname s)
clean_pathname-IsClean zero s h = absurd (omega arith)
clean_pathname-IsClean (suc f) [] h = rw clean-nil tt
clean_pathname-IsClean (suc f) (c ∷ r) h = elim (Bool-cases (c == b'/')) [
  | inl e ↦
      rw (eq-of-== c b'/' e, clean-slash r)
        (
          λ _. begins_dots-clean (skip_dots r) ∙ begins_dots-skip_dots r,
          clean_pathname-IsClean f (skip_dots r) (omega (arith, length-skip_dots r)),
        )
  | inr e ↦ rw (clean-other c r e) (λ t. cc, clean_pathname-IsClean f r (omega arith))
]

clean-id : (s : Bytes) → IsClean s → clean_pathname s ≡ s
clean-id [] h = clean-nil
clean-id (c ∷ r) h = elim (Bool-cases (c == b'/')) [
  | inl e ↦ rw (eq-of-== c b'/' e, clean-slash r, skip_dots_id r (h.0 e), clean-id r h.1)
  | inr e ↦ rw (clean-other c r e, clean-id r h.1)
]

IsClean-split : (p q : Bytes) → IsClean (p ++ b'/' ∷ q) → begins_dots q ≡ false
IsClean-split [] q h = h.0 refl
IsClean-split (a ∷ p) q h = IsClean-split p q h.1

-- Wherever a slash stands in a cleaned path, no "/", "./" or "../" follows it.
pub clean_pathname-safe : (s p q : Bytes) → clean_pathname s ≡ p ++ b'/' ∷ q → begins_dots q ≡ false
clean_pathname-safe s p q e =
    IsClean-split p q (rw e at (clean_pathname-IsClean (suc (length s)) s (omega arith)))

-- Cleaning a path again changes nothing.
pub clean_pathname_idempotent : (s : Bytes) → clean_pathname (clean_pathname s) ≡ clean_pathname s
clean_pathname_idempotent s =
    clean-id (clean_pathname s) (clean_pathname-IsClean (suc (length s)) s (omega arith))
