-- ===== src/Request/Checked.antt =====
-- What `process_header_end` hands to translate_uri.
use boa.Common.{
  take-append-drop, get_or-drop, ℕ, ◌≡◌, refl, sym, ap, ◌∙◌, inl, inr, Bool, true, false, not, ◌&&◌,
  Option, none, some, [], ◌∷◌, ◌++◌, append_assoc, arith, ltb, ◌==◌, if◌then◌else◌, within,
  eq-of-==, Bool-cases, get_or, take, drop, Bytes,
}
use boa.Uri.{unescape_uri}
use boa.PathClean.{clean_pathname}
use boa.PathClean.Safe.{begins_dots, clean_pathname-safe}
use boa.Host.{check_host, IsHost, check_host_iff}
use boa.Request.{
  is_caudium, strip_caudium, Settings, virtual_host, bogus_characters, not_rooted, invalid_host,
  translate, process_header_end,
}

-- A path below the root: it begins with a slash, and no slash is followed by another slash, by
-- "./" or by "../".
pub record IsRooted (uri : Bytes) : Type 0 where
  pub slash : (r : Bytes) × (uri ≡ b'/' ∷ r)
  pub no_dots : (p q : Bytes) → uri ≡ p ++ b'/' ∷ q → begins_dots q ≡ false

-- No host, or a valid host name.
abbrev pub IsHostOr : Option Bytes → Type 0
IsHostOr none = Unit
IsHostOr (some h) = IsHost h

slash_head : (s : Bytes) → (get_or s 0 0 == b'/') ≡ true → (r : Bytes) × (s ≡ b'/' ∷ r)
slash_head [] e = absurd (ground (arith, e))
slash_head (c ∷ r) e = (r, ap (λ d. d ∷ r) (eq-of-== c b'/' e))

is_caudium-slash :
    (hack : Bool) (s : Bytes) → (hack && is_caudium s) ≡ true → (get_or s 5 0 == b'/') ≡ true
is_caudium-slash hack s e =
    conj hack (get_or s 0 0 == b'/') (get_or s 1 0 == b'(') (within b'a' b'z' (get_or s 2 0))
      (within b'a' b'z' (get_or s 3 0)) (get_or s 4 0 == b')') (get_or s 5 0 == b'/')
      (not (get_or s 6 0 == 0)) e
  where
    conj : (h a b c d f g i : Bool) → (h && (a && b && c && d && f && g && i)) ≡ true → g ≡ true
    conj h a b c d f g i e = ground arith

strip_caudium-IsRooted :
    (hack : Bool) (s : Bytes)
    → (get_or (clean_pathname s) 0 0 == b'/') ≡ true
    → IsRooted (strip_caudium hack (clean_pathname s))
unfolding strip_caudium
strip_caudium-IsRooted hack s e = elim (Bool-cases (hack && is_caudium (clean_pathname s))) [
  | inl c ↦ rw (c) (record {
    slash =
        slash_head (drop 5 (clean_pathname s))
          (rw (get_or-drop 5 (clean_pathname s) 0) (is_caudium-slash hack (clean_pathname s) c));
    no_dots = λ p q d. clean_pathname-safe s (take 5 (clean_pathname s) ++ p) q (
        sym (take-append-drop 5 (clean_pathname s))
        ∙ ap (λ t. take 5 (clean_pathname s) ++ t) d
        ∙ sym (append_assoc (take 5 (clean_pathname s)) p (b'/' ∷ q)));
  })
  | inr c ↦ rw (c) (record {
    slash = slash_head (clean_pathname s) e;
    no_dots = λ p q d. clean_pathname-safe s p q d;
  })
]

virtual_host-IsHostOr :
    (settings : Settings) (header_host host : Option Bytes)
    → virtual_host settings header_host ≡ some host
    → IsHostOr host
unfolding virtual_host
virtual_host-IsHostOr settings header_host host e = by_root settings.vhost_root _ e
  where
    the_host : (h : Option Bytes) → some h ≡ some host → host ≡ h
    the_host h e = ap (λ o. elim o [ none ↦ h | some x ↦ x ]) (sym e)

    by_limit :
        (name : Bytes) (n : ℕ) (b : Bool)
        → check_host name ≡ some n
        → (if b then none else some (some name)) ≡ some host
        → IsHostOr host
    by_limit name n true c e = absurd (ground (arith, e))
    by_limit name n false c e = rw (the_host (some name) e) (((check_host_iff name n).0 c).0)

    by_check :
        (name : Bytes) (o : Option ℕ)
        → check_host name ≡ o
        → elim o [ none ↦ none | some n ↦ if ltb n 1 then none else some (some name) ] ≡ some host
        → IsHostOr host
    by_check name none c e = absurd (ground (arith, e))
    by_check name (some n) c e = by_limit name n (ltb n 1) c e

    by_root :
        (b : Bool) (name : Bytes)
        → (if b
            then elim (check_host name) [
              | none ↦ none
              | some n ↦ if ltb n 1 then none else some (some name)
            ]
            else some none)
          ≡ some host
        → IsHostOr host
    by_root true name e = by_check name (check_host name) refl e
    by_root false name e = rw (the_host none e) tt

stages :
    (l g : Bool) (v : Option (Option Bytes)) (u : Bytes) (q : Option Bytes) (uri' : Bytes)
    (query' host : Option Bytes)
    → (if not l
        then bogus_characters
        else if not g
        then not_rooted
        else elim v [ none ↦ invalid_host | some h ↦ translate u q h ])
      ≡ translate uri' query' host
    → (g ≡ true) × (v ≡ some host) × (uri' ≡ u) × (query' ≡ q)
stages false g v u q uri' query' host e = absurd (ground (arith, e))
stages true false v u q uri' query' host e = absurd (ground (arith, e))
stages true true none u q uri' query' host e = absurd (ground (arith, e))
stages true true (some h) u q uri' query' host e = ground (arith, e)

-- If process_header_end reaches translate_uri, the path it hands over begins with a slash and has
-- no slash that is followed by another slash, by "./" or by "../"; the host, if there is one, is a
-- valid host name; and the query string is the one that unescape_uri found.
pub process_header_end-translate :
    (settings : Settings) (logline : Option Bytes) (uri : Bytes) (query header_host : Option Bytes)
    (uri' : Bytes) (query' host : Option Bytes)
    → process_header_end settings logline uri query header_host ≡ translate uri' query' host
    → IsRooted uri' × IsHostOr host × (query' ≡ (unescape_uri uri query).query)
unfolding process_header_end
process_header_end-translate settings none uri query header_host uri' query' host e =
    absurd (ground (arith, e))
process_header_end-translate settings (some line) uri query header_host uri' query' host e =
    let (g, v, u, q) = stages _ _ (virtual_host settings header_host) _ _ uri' query' host e in
    (
      rw (u) (strip_caudium-IsRooted settings.use_caudium_hack _ g),
      virtual_host-IsHostOr settings header_host host v,
      q,
    )
