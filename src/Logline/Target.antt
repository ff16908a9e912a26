-- ===== src/Logline/Target.antt =====
-- The target of a request line: its text, and what `process_logline` takes from it.
use boa.Common.{
  append_assoc, ltb, All-append, get_or, ◌∙◌, ap, ℕ, ◌+◌, ◌≤◌, ◌≡◌, refl, ap, ◌∙◌, ◌≢◌, true, false,
  ◌&&◌, ◌||◌, Option, some, [], ◌∷◌, ◌++◌, arith, ◌==◌, length, take, drop, length-append, All,
  Bytes, codes, starts, take-length,
}
use boa.Status.{
  HttpMethod, m_get, m_head, m_post, HttpVersion, http09, http10, http11, KaStatus, ka_active,
}
use boa.Logline.{
  success, Logline, take_uri, max_uri_length, skip_blanks, skip_word, skip_host, between,
}

-- What is asked for: a path, or a URI with a host.
pub data Target : Type 0 where
  path : Bytes → Target
  absolute : (host rest : Bytes) → Target

unfoldable pub print_target : Target → Bytes
print_target (path u) = u
print_target (absolute host rest) = codes "http://" ++ (host ++ b'/' ∷ rest)

abbrev pub method_text : HttpMethod → Bytes
method_text m_get = codes "GET "
method_text m_head = codes "HEAD "
method_text m_post = codes "POST "
method_text _ = []

abbrev pub version_text : HttpVersion → Bytes
version_text http09 = []
version_text http10 = codes " HTTP/1.0"
version_text http11 = codes " HTTP/1.1"

unfoldable pub print_logline : HttpMethod → Target → HttpVersion → Bytes
print_logline m t v = method_text m ++ (print_target t ++ version_text v)

-- The methods that the server knows; HEAD is not in HTTP/0.9.
abbrev pub IsMethod : HttpMethod → HttpVersion → Type 0
IsMethod m_get v = Unit
IsMethod m_post v = Unit
IsMethod m_head v = v ≢ http09
IsMethod _ v = ⊥

abbrev pub NoBlank : ℕ → Type 0
NoBlank c = (c == b' ') ≡ false

-- A byte of a host: no slash, no blank and not NUL.
abbrev pub IsHostByte : ℕ → Type 0
IsHostByte c = ((c == b'/' || c == b' ') ≡ false) × ((c == 0) ≡ false)

-- A target without blanks, not too long, and a path that is not taken for an absolute URI.
abbrev pub IsTarget : Target → Type 0
IsTarget (path u) =
    (u ≢ [])
    × All (λ c. (c == b' ') ≡ false) u
    × (length u ≤ max_uri_length)
    × (starts (codes "http://") u ≡ false)
IsTarget (absolute host rest) =
    (host ≢ [])
    × All IsHostByte host
    × All (λ c. (c == b' ') ≡ false) rest
    × (length host + length rest + 8 ≤ max_uri_length)

abbrev pub uri_of : Target → Bytes
uri_of (path u) = u
uri_of (absolute host rest) = b'/' ∷ rest

abbrev pub host_of : Target → Option Bytes → Option Bytes
host_of (path u) old = old
host_of (absolute host rest) old = some host

abbrev pub keepalive_of : HttpVersion → KaStatus → KaStatus
keepalive_of http11 old = ka_active
keepalive_of _ old = old

-- What follows the target: nothing, or a blank.
abbrev pub EndsWord : Bytes → Type 0
EndsWord [] = Unit
EndsWord (c ∷ s) = (c == b' ') ≡ true

pub skip_word-append : (u v : Bytes) → All NoBlank u → EndsWord v → skip_word (u ++ v) ≡ v
unfolding skip_word
skip_word-append [] [] h e = refl
skip_word-append [] (c ∷ v) h e = rw (e) refl
skip_word-append (c ∷ u) v h e = rw (h.0) (skip_word-append u v h.1 e)

pub skip_host-append : (u v : Bytes) → All IsHostByte u → skip_host (u ++ b'/' ∷ v) ≡ b'/' ∷ v
unfolding skip_host
skip_host-append [] v h = refl
skip_host-append (c ∷ u) v h = rw (h.0.0) (skip_host-append u v h.1)

pub between-append : (u v : Bytes) → between (u ++ v) v ≡ u
between-append u v = ap (λ n. take n (u ++ v)) (omega (arith, length-append u v)) ∙ take-length u v

pub skip_blanks-first : (u v : Bytes) → u ≢ [] → All NoBlank u → skip_blanks (u ++ v) ≡ u ++ v
unfolding skip_blanks
skip_blanks-first [] v n h = absurd (n refl)
skip_blanks-first (c ∷ u) v n h = rw (h.0) refl

pub starts-append : (p u v : Bytes) → All NoBlank p → EndsWord v → starts p (u ++ v) ≡ starts p u
starts-append [] u v h e = refl
starts-append (a ∷ p) [] [] h e = refl
starts-append (a ∷ p) [] (c ∷ v) h e = ground (arith, h.0, e)
starts-append (a ∷ p) (c ∷ u) v h e = rw (starts-append p u v h.1 e) refl

pub starts_http :
    (s : Bytes)
    → (starts (codes "http") s && starts (codes "://") (drop 4 s)) ≡ starts (codes "http://") s
starts_http [] = refl
starts_http (a ∷ []) = ground arith
starts_http (a ∷ b ∷ []) = ground arith
starts_http (a ∷ b ∷ c ∷ []) = ground arith
starts_http (a ∷ b ∷ c ∷ d ∷ s) = ground arith

pub take_uri-path :
    (u v : Bytes) (r : Logline)
    → starts (codes "http://") u ≡ false
    → EndsWord v
    → take_uri (u ++ v) v r ≡ (record r { request_uri = u }, success)
unfolding take_uri
take_uri-path u v r h e =
    rw
      (
        starts_http (u ++ v),
        starts-append (codes "http://") u v
            (refl, (refl, (refl, (refl, (refl, (refl, (refl, tt))))))) e,
        h,
      )
      (ap (λ (x : Bytes). (record r { request_uri = x }, success)) (between-append u v))

pub first_byte :
    (host v : Bytes)
    → host ≢ []
    → All IsHostByte host
    → (get_or (host ++ v) 0 0 == b'/'
        || get_or (host ++ v) 0 0 == b' '
        || get_or (host ++ v) 0 0 == 0)
      ≡ false
first_byte [] v n h = absurd (n refl)
first_byte (c ∷ host) v n h = rw (h.0.0, h.0.1) refl

pub take_uri-absolute :
    (host rest v : Bytes) (r : Logline)
    → host ≢ []
    → All IsHostByte host
    → take_uri (codes "http://" ++ (host ++ b'/' ∷ rest) ++ v) v r
      ≡ (record r { request_uri = b'/' ∷ rest; header_host = some host }, success)
unfolding take_uri
take_uri-absolute host rest v r n h =
    rw
      (
        append_assoc host (b'/' ∷ rest) v,
        skip_host-append host (rest ++ v) h,
        first_byte host (b'/' ∷ rest ++ v) n h,
        longer,
      )
      (cc (between-append (b'/' ∷ rest) v, between-append host (b'/' ∷ rest ++ v)))
  where
    longer : ltb (length (b'/' ∷ rest ++ v)) (length v) ≡ false
    longer = ground (arith, length-append rest v)

pub take_uri-print_target :
    (t : Target) (v : Bytes) (r : Logline)
    → IsTarget t
    → EndsWord v
    → take_uri (print_target t ++ v) v r
      ≡ (record r { request_uri = uri_of t; header_host = host_of t r.header_host }, success)
unfolding print_target
take_uri-print_target (path u) v r (n, h, l, p) e = take_uri-path u v r p e
take_uri-print_target (absolute host rest) v r (n, h, b, l) e = take_uri-absolute host rest v r n h

-- What the text of a target is: a word that is not too long.
pub record IsWord (w : Bytes) : Type 0 where
  pub not_empty : w ≢ []
  pub no_blank : All NoBlank w
  pub not_long : length w ≤ max_uri_length

pub host-NoBlank : (host : Bytes) → All IsHostByte host → All NoBlank host
host-NoBlank [] h = tt
host-NoBlank (c ∷ host) h = (ground (arith, h.0.0), host-NoBlank host h.1)

pub print_target-IsWord : (t : Target) → IsTarget t → IsWord (print_target t)
unfolding print_target
print_target-IsWord (path u) (n, h, l, p) = record { not_empty = n; no_blank = h; not_long = l }
print_target-IsWord (absolute host rest) (n, h, b, l) = record {
  not_empty = λ e. cc;
  no_blank = (
    refl,
    (
      refl,
      (
        refl,
        (
          refl,
          (
            refl,
            (refl, (refl, All-append NoBlank host (b'/' ∷ rest) (host-NoBlank host h) (refl, b))),
          ),
        ),
      ),
    ),
  );
  not_long = omega (arith, length-append host (b'/' ∷ rest), l);
}
