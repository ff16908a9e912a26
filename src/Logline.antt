-- ===== src/Logline.antt =====
-- src/request.c, `process_logline`: the first line of a request.
--
-- The line is a C string that begins at client_stream. A place in it is the text from there on, and
-- the NUL is the end of the text. sscanf is the C library's: `scan_version` says what it reads with
-- the format "HTTP/%u.%u", if it reads both numbers. That the host is cut off in the logged copy of
-- the line is left out.
pub mod Target
pub mod RoundTrip
use boa.Common.{
  ◌∙◌, sym, ap, ℕ, zero, suc, ◌+◌, ◌-◌, ◌*◌, ◌/◌, ◌%◌, ◌^◌, ◌≤◌, ◌<◌, min, ◌≡◌, refl, sym, ap, ap₂,
  ◌∙◌, ◌≢◌, ◌↔◌, ◌⊎◌, inl, inr, Bool, true, false, not, ◌&&◌, ◌||◌, Option, none, some, List, [],
  ◌∷◌, ◌++◌, map, append-nil, append_assoc, arith, ltb, leb, ◌==◌, if◌then◌else◌, within, ==_iff,
  eq-of-==, ==_refl, Bool-cases, Option-cases, and-eq-true, length, get_or, set, take, drop,
  replicate, length-append, length-set, length-take, length-drop, get_or-set_self, get_or-set_ne,
  All, All-append, Bytes, codes, str_eq, str_eq_iff, starts, suc-ne-zero, check_range,
  check_range-below, bool_eq, bool_eq_iff, member, take-append-drop, get_or-drop,
}
use boa.Status.{
  HttpMethod, m_get, m_head, m_post, HttpVersion, http09, http10, http11, KaStatus, ka_active,
}

-- The fields of the request that the function sets.
pub record Logline : Type 0 where
  pub method : HttpMethod
  pub http_version : HttpVersion
  pub keepalive : KaStatus
  pub request_uri : Bytes
  pub header_host : Option Bytes
  pub cgi_env_index : ℕ

-- The result 1, and the errors, all of them the result 0: R_NOT_IMPLEMENTED, and R_BAD_REQUEST for
-- the other ones.
pub data LoglineEnd : Type 0 where
  success too_short malformed uri_too_long bogus_absolute no_url corruption bad_version
        head_http09 :
      LoglineEnd

abbrev pub max_uri_length : ℕ
max_uri_length = 1536

-- while (*s == ' ') ++s;
unfoldable pub skip_blanks : Bytes → Bytes
skip_blanks [] = []
skip_blanks (c ∷ s) = let rest = skip_blanks s in if c == b' ' then rest else c ∷ s

-- while (*s != '\0' && *s != ' ') ++s;
unfoldable pub skip_word : Bytes → Bytes
skip_word [] = []
skip_word (c ∷ s) = let rest = skip_word s in if c == b' ' then c ∷ s else rest

-- while (*s != '\0' && *s != '/' && *s != ' ') ++s;
unfoldable pub skip_host : Bytes → Bytes
skip_host [] = []
skip_host (c ∷ s) = let rest = skip_host s in if c == b'/' || c == b' ' then c ∷ s else rest

-- The bytes from one place up to a later one.
abbrev pub between : Bytes → Bytes → Bytes
between from to = take (length from - length to) from

unfoldable pub method_of : Bytes → Option HttpMethod
method_of line =
    if starts (codes "GET ") line
    then some m_get
    else if starts (codes "HEAD ") line
    then some m_head
    else if starts (codes "POST ") line
    then some m_post
    else none

-- What stands behind the method and its blank.
abbrev pub after_method : HttpMethod → Bytes → Bytes
after_method m_get line = drop 4 line
after_method _ line = drop 5 line

-- The request URI, from `stop` to `stop2`.
unfoldable pub take_uri : Bytes → Bytes → Logline → Logline × LoglineEnd
take_uri stop stop2 r =
    let host = drop 7 stop in
    let path = skip_host host in
    if starts (codes "http") stop && starts (codes "://") (drop 4 stop)
    then if get_or host 0 0 == b'/' || get_or host 0 0 == b' ' || get_or host 0 0 == 0
      then (r, bogus_absolute)
      else if not (get_or path 0 0 == b'/')
      then (r, no_url)
      else if ltb (length path) (length stop2)
      then (r, corruption)
      else (
        record r { request_uri = between path stop2; header_host = some (between host path) },
        success,
      )
    else (record r { request_uri = between stop stop2 }, success)

-- The function goes on only behind a success.
unfoldable pub on_success :
    Logline × LoglineEnd → (Logline → Logline × LoglineEnd) → Logline × LoglineEnd
on_success (r, success) k = k r
on_success (r, e) k = (r, e)

module _ (scan_version : Bytes → Option (ℕ × ℕ)) where
  -- The version, from the end of the URI on.
  unfoldable pub take_version : Bytes → Logline → Logline × LoglineEnd
  take_version [] r = (record r { http_version = http09 }, success)
  take_version (c ∷ s) r = by_text (skip_blanks s)
    where
      by_text : Bytes → Logline × LoglineEnd
      by_text [] = (record r { http_version = http09 }, success)
      by_text (d ∷ t) = elim (scan_version (d ∷ t)) [
        | none ↦ (r, bad_version)
        | some (p1, p2) ↦
            if p1 == 0 && p2 == 9
            then (record r { http_version = http09 }, success)
            else if p1 == 1 && p2 == 0
            then (record r { http_version = http10 }, success)
            else if p1 == 1 && p2 == 1
            then (record r { http_version = http11; keepalive = ka_active }, success)
            else (r, bad_version)
      ]

  -- The test and the assignment at the end.
  unfoldable pub finish_logline : ℕ → Logline → Logline × LoglineEnd
  finish_logline common_cgi_env_count r = by_fields r.method r.http_version
    where
      by_fields : HttpMethod → HttpVersion → Logline × LoglineEnd
      by_fields m_head http09 = (r, head_http09)
      by_fields _ _ = (record r { cgi_env_index = common_cgi_env_count }, success)

  -- Behind the method: `stop` is where the URI begins.
  unfoldable pub process_target : ℕ → Bytes → Logline → Logline × LoglineEnd
  process_target common_cgi_env_count stop r =
      let stop2 = skip_word stop in
      if ltb max_uri_length (length stop - length stop2)
      then (r, uri_too_long)
      else on_success (take_uri stop stop2 r)
          (λ r. on_success (take_version stop2 r) (λ r. finish_logline common_cgi_env_count r))

  unfoldable pub process_logline : ℕ → Bytes → Logline → Logline × LoglineEnd
  process_logline common_cgi_env_count line r =
      if ltb (length line) 5 then (r, too_short) else elim (method_of line) [
        | none ↦ (r, malformed)
        | some method ↦
            process_target common_cgi_env_count (skip_blanks (after_method method line))
              (record r { method = method; http_version = http10 })
      ]
