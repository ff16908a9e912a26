-- ===== src/Logline/RoundTrip.antt =====
-- The first line of a request as a client writes it, and what `process_logline` makes of it.
use boa.Common.{
  suc, ◌-◌, ltb, ◌∙◌, ℕ, ◌≡◌, refl, ◌∙◌, ◌≢◌, false, Option, some, [], ◌∷◌, ◌++◌, arith, length,
  length-append, All, Bytes, codes,
}
use boa.Status.{
  m_put, m_delete, m_link, m_unlink, m_move, m_trace, HttpMethod, m_get, m_head, m_post,
  HttpVersion, http09, http10, http11,
}
use boa.Logline.{
  on_success, method_of, process_logline, process_target, finish_logline, take_version, success,
  Logline, max_uri_length, skip_blanks,
}
use boa.Logline.Target.{
  print_target, method_text, version_text, print_logline, IsMethod, NoBlank, IsTarget, uri_of,
  host_of, keepalive_of, EndsWord, skip_word-append, skip_blanks-first, take_uri-print_target,
  print_target-IsWord, Target, IsWord,
}

module _ (scan_version : Bytes → Option (ℕ × ℕ)) where
  -- sscanf reads the two numbers of the versions that the server knows.
  pub record ScansVersions : Type 0 where
    pub scans10 : scan_version (codes "HTTP/1.0") ≡ some (1, 0)
    pub scans11 : scan_version (codes "HTTP/1.1") ≡ some (1, 1)

  take_version-version_text :
      (v : HttpVersion) (r : Logline)
      → ScansVersions
      → r.http_version ≡ http10
      → take_version scan_version (version_text v) r
        ≡ (record r { http_version = v; keepalive = keepalive_of v r.keepalive }, success)
  unfolding take_version skip_blanks
  take_version-version_text http09 r s e = refl
  take_version-version_text http10 r s e = rw (s.scans10) refl
  take_version-version_text http11 r s e = rw (s.scans11) refl

  finish_logline-IsMethod :
      (n : ℕ) (m : HttpMethod) (v : HttpVersion) (r : Logline)
      → IsMethod m v
      → finish_logline scan_version n (record r { method = m; http_version = v })
        ≡ (record r { method = m; http_version = v; cgi_env_index = n }, success)
  unfolding finish_logline
  finish_logline-IsMethod n m_get v r k = refl
  finish_logline-IsMethod n m_post v r k = refl
  finish_logline-IsMethod n m_head http09 r k = absurd (k refl)
  finish_logline-IsMethod n m_head http10 r k = refl
  finish_logline-IsMethod n m_head http11 r k = refl
  finish_logline-IsMethod n m_put v r k = absurd k
  finish_logline-IsMethod n m_delete v r k = absurd k
  finish_logline-IsMethod n m_link v r k = absurd k
  finish_logline-IsMethod n m_unlink v r k = absurd k
  finish_logline-IsMethod n m_move v r k = absurd k
  finish_logline-IsMethod n m_trace v r k = absurd k

  EndsWord-version_text : (v : HttpVersion) → EndsWord (version_text v)
  EndsWord-version_text http09 = tt
  EndsWord-version_text http10 = refl
  EndsWord-version_text http11 = refl

  -- The request behind a line that was understood.
  abbrev pub requested : ℕ → HttpMethod → Target → HttpVersion → Logline → Logline
  requested n m t v r = record {
    method = m;
    http_version = v;
    keepalive = keepalive_of v r.keepalive;
    request_uri = uri_of t;
    header_host = host_of t r.header_host;
    cgi_env_index = n;
  }

  process_target-print :
      (n : ℕ) (m : HttpMethod) (t : Target) (v : HttpVersion) (r : Logline)
      → ScansVersions
      → IsTarget t
      → IsMethod m v
      → process_target scan_version n
          (print_target t ++ version_text v)
          (record r { method = m; http_version = http10 })
        ≡ (requested n m t v r, success)
  unfolding process_target on_success
  process_target-print n m t v r s h k =
      rw
        (
          skip_word-append (print_target t) (version_text v) word.no_blank
              (EndsWord-version_text v),
          short,
          take_uri-print_target t (version_text v) (record r { method = m; http_version = http10 })
              h (EndsWord-version_text v),
          take_version-version_text v
              (record r {
                method = m;
                http_version = http10;
                request_uri = uri_of t;
                header_host = host_of t r.header_host;
              })
              s refl,
        )
        (finish_logline-IsMethod n m v
          (record r {
            keepalive = keepalive_of v r.keepalive;
            request_uri = uri_of t;
            header_host = host_of t r.header_host;
          })
          k)
    where
      word : IsWord (print_target t)
      word = print_target-IsWord t h

      short :
          ltb max_uri_length (length (print_target t ++ version_text v) - length (version_text v))
          ≡ false
      short = ground (arith, length-append (print_target t) (version_text v), word.not_long)

  long_enough : (n : ℕ) → ltb (suc (suc (suc (suc (suc n))))) 5 ≡ false
  long_enough n = ground arith

  -- The word behind the method is not empty, so the line is long enough, and no blank is skipped.
  process_logline-word :
      (n : ℕ) (m : HttpMethod) (w v : Bytes) (r : Logline)
      → IsMethod m http10
      → w ≢ []
      → All NoBlank w
      → process_logline scan_version n (method_text m ++ (w ++ v)) r
        ≡ process_target scan_version n (w ++ v) (record r { method = m; http_version = http10 })
  unfolding process_logline method_of
  process_logline-word n m [] v r k e h = absurd (e refl)
  process_logline-word n m_get (c ∷ w) v r k e h =
      rw (skip_blanks-first (c ∷ w) v e h) (rw (long_enough (length (w ++ v))) refl)
  process_logline-word n m_post (c ∷ w) v r k e h =
      rw (skip_blanks-first (c ∷ w) v e h, long_enough (suc (length (w ++ v)))) refl
  process_logline-word n m_head (c ∷ w) v r k e h =
      rw (skip_blanks-first (c ∷ w) v e h, long_enough (suc (length (w ++ v)))) refl
  process_logline-word n m_put w v r k e h = absurd k
  process_logline-word n m_delete w v r k e h = absurd k
  process_logline-word n m_link w v r k e h = absurd k
  process_logline-word n m_unlink w v r k e h = absurd k
  process_logline-word n m_move w v r k e h = absurd k
  process_logline-word n m_trace w v r k e h = absurd k

  known-IsMethod : (m : HttpMethod) (v : HttpVersion) → IsMethod m v → IsMethod m http10
  known-IsMethod m_get v k = tt
  known-IsMethod m_post v k = tt
  known-IsMethod m_head v k = λ e. cc
  known-IsMethod m_put v k = absurd k
  known-IsMethod m_delete v k = absurd k
  known-IsMethod m_link v k = absurd k
  known-IsMethod m_unlink v k = absurd k
  known-IsMethod m_move v k = absurd k
  known-IsMethod m_trace v k = absurd k

  -- For a scanner of versions that knows HTTP/1.0 and HTTP/1.1, a printed request line (GET, HEAD
  -- or POST, a path or an absolute URI without blanks and within the limits, any of the three
  -- versions but HEAD with 0.9) is read back: method, URI, host and version, with keep-alive set
  -- for 1.1, and the result is success.
  pub process_logline-print :
      (n : ℕ) (m : HttpMethod) (t : Target) (v : HttpVersion) (r : Logline)
      → ScansVersions
      → IsMethod m v
      → IsTarget t
      → process_logline scan_version n (print_logline m t v) r ≡ (requested n m t v r, success)
  unfolding print_logline
  process_logline-print n m t v r s k h =
      let word = print_target-IsWord t h in
      process_logline-word n m (print_target t) (version_text v) r (known-IsMethod m v k)
        word.not_empty word.no_blank
      ∙ process_target-print n m t v r s h k
