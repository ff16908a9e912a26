-- ===== src/Options/Kept.antt =====
-- What a header line leaves alone: a value that is set once stays, and the environment has room.
use boa.Common.{
  ◌∙◌, ap, ℕ, ◌+◌, ◌≤◌, ◌≡◌, refl, ap, ◌∙◌, inl, inr, Bool, true, false, not, ◌&&◌, Option, none,
  some, [], ◌∷◌, ◌++◌, arith, ltb, ◌==◌, if◌then◌else◌, Bool-cases, length, length-append, All,
  All-append, Bytes, codes, str_eq, starts,
}
use boa.Host.{to_upper}
use boa.Logline.{Logline}
use boa.Range.{RangeState}
use boa.Range.Parse.{range_parse}
use boa.Options.{
  Headers, OptionEnd, accepted, no_colon, env_full, invalid_range, overread, cgi_env_max,
  add_cgi_env, split_colon, skip_white, is_none, is_stopped, has_range_error, take_range, add_again,
  take_logged, take_option, take_value, take_split, process_option_line,
}

-- A field that is set keeps its value.
abbrev pub IsKept : Option Bytes → Option Bytes → Type 0
IsKept none new = Unit
IsKept (some v) new = new ≡ some v

-- A variable that stems from a header line.
abbrev pub IsHttp : Bytes → Type 0
IsHttp v = starts (codes "HTTP_") v ≡ true

-- The first line, the fields of which the first value counts, and the environment.
pub record IsExtended (h h' : Headers) : Type 0 where
  pub method : h'.logline.method ≡ h.logline.method
  pub http_version : h'.logline.http_version ≡ h.logline.http_version
  pub request_uri : h'.logline.request_uri ≡ h.logline.request_uri
  pub host : IsKept h.logline.header_host h'.logline.header_host
  pub kept_type : IsKept h.content_type h'.content_type
  pub kept_length : IsKept h.content_length h'.content_length
  pub kept_since : IsKept h.if_modified_since h'.if_modified_since
  pub room : h.logline.cgi_env_index ≤ cgi_env_max → h'.logline.cgi_env_index ≤ cgi_env_max
  pub counted :
      h'.logline.cgi_env_index + length h.cgi_env ≡ h.logline.cgi_env_index + length h'.cgi_env
  pub prefixed : All IsHttp h.cgi_env → All IsHttp h'.cgi_env

IsKept-refl : (o : Option Bytes) → IsKept o o
IsKept-refl none = tt
IsKept-refl (some v) = refl

IsKept-trans : (a b c : Option Bytes) → IsKept a b → IsKept b c → IsKept a c
IsKept-trans none b c h k = tt
IsKept-trans (some v) none c h k = absurd (ground (arith, h))
IsKept-trans (some v) (some w) c h k = k ∙ h

-- Nothing of it is touched.
pub IsExtended-refl : (h : Headers) → IsExtended h h
IsExtended-refl h = record {
  method = refl;
  http_version = refl;
  request_uri = refl;
  host = IsKept-refl h.logline.header_host;
  kept_type = IsKept-refl h.content_type;
  kept_length = IsKept-refl h.content_length;
  kept_since = IsKept-refl h.if_modified_since;
  room = λ r. r;
  counted = refl;
  prefixed = λ a. a;
}

pub IsExtended-trans : (a b c : Headers) → IsExtended a b → IsExtended b c → IsExtended a c
IsExtended-trans a b c h k = record {
  method = k.method ∙ h.method;
  http_version = k.http_version ∙ h.http_version;
  request_uri = k.request_uri ∙ h.request_uri;
  host =
      IsKept-trans a.logline.header_host b.logline.header_host c.logline.header_host h.host k.host;
  kept_type = IsKept-trans a.content_type b.content_type c.content_type h.kept_type k.kept_type;
  kept_length =
      IsKept-trans a.content_length b.content_length c.content_length h.kept_length k.kept_length;
  kept_since =
      IsKept-trans a.if_modified_since b.if_modified_since c.if_modified_since h.kept_since
        k.kept_since;
  room = λ r. k.room (h.room r);
  counted = omega (arith, h.counted, k.counted);
  prefixed = λ p. k.prefixed (h.prefixed p);
}

add_cgi_env-IsExtended :
    (h : Headers) (key value : Bytes) → IsExtended h (add_cgi_env h key value).0
unfolding add_cgi_env
add_cgi_env-IsExtended h key value = elim (Bool-cases (ltb h.logline.cgi_env_index cgi_env_max)) [
  | inl e ↦ rw (e) (record {
    method = refl;
    http_version = refl;
    request_uri = refl;
    host = IsKept-refl h.logline.header_host;
    kept_type = IsKept-refl h.content_type;
    kept_length = IsKept-refl h.content_length;
    kept_since = IsKept-refl h.if_modified_since;
    room = λ r. ground (arith, e);
    counted = omega (arith, length-append h.cgi_env ((codes "HTTP_" ++ key ++ b'=' ∷ value) ∷ []));
    prefixed = λ p. All-append IsHttp h.cgi_env _ p (refl, tt);
  })
  | inr e ↦ rw (e) (IsExtended-refl h)
]

-- A change that leaves the first line and the environment alone.
same_line :
    (h h' : Headers)
    → h'.logline ≡ h.logline
    → h'.cgi_env ≡ h.cgi_env
    → IsKept h.content_type h'.content_type
    → IsKept h.content_length h'.content_length
    → IsKept h.if_modified_since h'.if_modified_since
    → IsExtended h h'
same_line h h' l e a b c = record {
  method = ap (λ (x : Logline). x.method) l;
  http_version = ap (λ (x : Logline). x.http_version) l;
  request_uri = ap (λ (x : Logline). x.request_uri) l;
  host = rw (l) (IsKept-refl h.logline.header_host);
  kept_type = a;
  kept_length = b;
  kept_since = c;
  room = λ r. rw (l) r;
  counted = rw (l, e) refl;
  prefixed = λ p. rw (e) p;
}

others_kept :
    (h h' : Headers)
    → h'.logline ≡ h.logline
    → h'.cgi_env ≡ h.cgi_env
    → h'.content_type ≡ h.content_type
    → h'.content_length ≡ h.content_length
    → h'.if_modified_since ≡ h.if_modified_since
    → IsExtended h h'
others_kept h h' l e a b c =
    same_line h h' l e (rw (a) (IsKept-refl h.content_type)) (rw (b) (IsKept-refl h.content_length))
      (rw (c) (IsKept-refl h.if_modified_since))

if-IsExtended :
    (h : Headers) (b : Bool) (x y : Headers × OptionEnd)
    → (b ≡ true → IsExtended h x.0)
    → (b ≡ false → IsExtended h y.0)
    → IsExtended h (if b then x else y).0
if-IsExtended h true x y p q = p refl
if-IsExtended h false x y p q = q refl

add_after :
    (h h' : Headers) (key value : Bytes)
    → IsExtended h h'
    → IsExtended h (add_cgi_env h' key value).0
add_after h h' key value e =
    IsExtended-trans h h' (add_cgi_env h' key value).0 e (add_cgi_env-IsExtended h' key value)

add_again-IsExtended :
    (h : Headers) (line value : Bytes) (r : Headers × OptionEnd)
    → IsExtended h r.0
    → IsExtended h (add_again line value r).0
unfolding add_again
add_again-IsExtended h line value (h', accepted) e = add_after h h' line value e
add_again-IsExtended h line value (h', no_colon) e = e
add_again-IsExtended h line value (h', env_full) e = e
add_again-IsExtended h line value (h', invalid_range) e = e
add_again-IsExtended h line value (h', overread) e = e

take_range-IsExtended : (value : Bytes) (h : Headers) → IsExtended h (take_range value h).0
unfolding take_range
take_range-IsExtended value h =
    if-IsExtended h (has_range_error h.ranges.ranges) _ _ (λ _. IsExtended-refl h)
      (λ _. by_ranges (range_parse h.ranges value))
  where
    with_ranges : (ranges : RangeState) → IsExtended h (record h { ranges = ranges })
    with_ranges ranges = others_kept h (record h { ranges = ranges }) refl refl refl refl refl

    after_ranges : Option (RangeState × Bool) → Headers × OptionEnd
    after_ranges o = elim o [
      | none ↦ (h, overread)
      | some (ranges, true) ↦ add_cgi_env (record h { ranges = ranges }) (codes "RANGE") value
      | some (ranges, false) ↦ (record h { ranges = ranges }, invalid_range)
    ]

    by_ranges : (o : Option (RangeState × Bool)) → IsExtended h (after_ranges o).0
    by_ranges none = IsExtended-refl h
    by_ranges (some (ranges, true)) =
        add_after h (record h { ranges = ranges }) (codes "RANGE") value (with_ranges ranges)
    by_ranges (some (ranges, false)) = with_ranges ranges

take_logged-IsExtended :
    (line value : Bytes) (h : Headers) → IsExtended h (take_logged line value h).0
unfolding take_logged
take_logged-IsExtended line value h =
    if-IsExtended h (str_eq line (codes "REFERER")) _ _
      (λ _. add_again-IsExtended h line value _ (
        add_after h (record h { header_referer = some value }) (codes "REFERER") value
          (others_kept h (record h { header_referer = some value }) refl refl refl refl refl)))
      (λ _.
        if-IsExtended h (str_eq line (codes "RANGE")) _ _ (λ _. take_range-IsExtended value h)
          (λ _.
            if-IsExtended h (str_eq line (codes "USER_AGENT")) _ _
              (λ _.
                add_after h (record h { header_user_agent = some value }) (codes "USER_AGENT") value
                  (others_kept h (record h { header_user_agent = some value }) refl refl refl refl
                    refl))
              (λ _.
                if-IsExtended h (str_eq line (codes "X_FORWARDED_FOR")) _ _
                  (λ _.
                    others_kept h (record h { header_forwarded_for = some value }) refl refl refl
                      refl refl)
                  (λ _. add_cgi_env-IsExtended h line value))))

IsKept-unset :
    (o : Option Bytes) (b : Bool) (v : Option Bytes) → (b && is_none o) ≡ true → IsKept o v
IsKept-unset none b v e = tt
IsKept-unset (some w) true v e = absurd (ground (arith, e))
IsKept-unset (some w) false v e = absurd (ground (arith, e))

take_option-IsExtended :
    (ka_max : ℕ) (line value : Bytes) (h : Headers)
    → IsExtended h (take_option ka_max line value h).0
unfolding take_option
take_option-IsExtended ka_max line value h =
    if-IsExtended h (str_eq line (codes "ACCEPT")) _ _ (λ _. IsExtended-refl h)
      (λ _.
        if-IsExtended h (str_eq line (codes "CONTENT_TYPE") && is_none h.content_type) _ _
          (λ e.
            same_line h (record h { content_type = some value }) refl refl
              (IsKept-unset h.content_type _ (some value) e) (IsKept-refl h.content_length)
              (IsKept-refl h.if_modified_since))
          (λ _.
            if-IsExtended h (str_eq line (codes "CONTENT_LENGTH") && is_none h.content_length) _ _
              (λ e.
                same_line h (record h { content_length = some value }) refl refl
                  (IsKept-refl h.content_type) (IsKept-unset h.content_length _ (some value) e)
                  (IsKept-refl h.if_modified_since))
              (λ _.
                if-IsExtended h
                  (str_eq line (codes "CONNECTION")
                    && not (ka_max == 0)
                    && not (is_stopped h.logline.keepalive))
                  _ _ (λ _. of_line _ refl refl refl (IsKept-refl h.logline.header_host) refl)
                  (λ _.
                    if-IsExtended h (str_eq line (codes "HOST") && is_none h.logline.header_host) _
                      _
                      (λ e.
                        of_line (record h.logline { header_host = some value }) refl refl refl
                          (IsKept-unset h.logline.header_host _ (some value) e) refl)
                      (λ _.
                        if-IsExtended h
                          (str_eq line (codes "IF_MODIFIED_SINCE") && is_none h.if_modified_since) _
                          _
                          (λ e.
                            same_line h (record h { if_modified_since = some value }) refl refl
                              (IsKept-refl h.content_type) (IsKept-refl h.content_length)
                              (IsKept-unset h.if_modified_since _ (some value) e))
                          (λ _. take_logged-IsExtended line value h))))))
  where
    of_line :
        (l : Logline)
        → l.method ≡ h.logline.method
        → l.http_version ≡ h.logline.http_version
        → l.request_uri ≡ h.logline.request_uri
        → IsKept h.logline.header_host l.header_host
        → l.cgi_env_index ≡ h.logline.cgi_env_index
        → IsExtended h (record h { logline = l })
    of_line l m v u k i = record {
      method = m;
      http_version = v;
      request_uri = u;
      host = k;
      kept_type = IsKept-refl h.content_type;
      kept_length = IsKept-refl h.content_length;
      kept_since = IsKept-refl h.if_modified_since;
      room = λ r. rw (i) r;
      counted = rw (i) refl;
      prefixed = λ p. p;
    }

take_value-IsExtended :
    (ka_max : ℕ) (name value : Bytes) (h : Headers)
    → IsExtended h (take_value ka_max name value h).0
unfolding take_value
take_value-IsExtended ka_max name [] h = IsExtended-refl h
take_value-IsExtended ka_max name (c ∷ value) h = take_option-IsExtended ka_max name (c ∷ value) h

-- For every header line and every state, process_option_line leaves the method, the version and the
-- URI alone, keeps a host, content type, content length and modification date that are set, keeps
-- the environment within its 100 places, raises its index by the number of the variables that it
-- adds, and adds only variables whose names begin with HTTP_.
pub process_option_line-IsExtended :
    (ka_max : ℕ) (line : Bytes) (h : Headers) → IsExtended h (process_option_line ka_max line h).0
unfolding process_option_line take_split
process_option_line-IsExtended ka_max line h = by_split (split_colon line)
  where
    by_split : (o : Option (Bytes × Bytes)) → IsExtended h (take_split ka_max o h).0
    by_split none = IsExtended-refl h
    by_split (some (name, text)) = take_value-IsExtended ka_max (to_upper name) (skip_white text) h
