-- ===== src/Options/Returns.antt =====
-- process_option_line never reads past a header, since range_parse does not.
use boa.Common.{
  ℕ, ◌≡◌, ◌≢◌, Bool, true, false, not, ◌&&◌, Option, none, some, [], ◌∷◌, arith, ltb, ◌==◌,
  if◌then◌else◌, Bytes, codes, str_eq,
}
use boa.Range.{RangeState}
use boa.Status.{KaStatus, ka_active, ka_stopped}
use boa.Range.Parse.{range_parse, starts_nocase}
use boa.Range.Parse.Total.{range_parse-total}
use boa.Host.{to_upper}
use boa.Options.{
  Headers, OptionEnd, accepted, no_colon, env_full, invalid_range, overread, cgi_env_max,
  add_cgi_env, split_colon, skip_white, is_none, is_stopped, has_range_error, take_range, add_again,
  take_logged, take_option, take_value, take_split, process_option_line,
}

abbrev Returns : Headers × OptionEnd → Type 0
Returns p = p.1 ≢ overread

if-Returns :
    (b : Bool) (x y : Headers × OptionEnd) → Returns x → Returns y → Returns (if b then x else y)
if-Returns true x y p q = p
if-Returns false x y p q = q

accepted-Returns : (h : Headers) → Returns (h, accepted)
accepted-Returns h e = ground (arith, e)

add_cgi_env-Returns : (h : Headers) (key value : Bytes) → Returns (add_cgi_env h key value)
unfolding add_cgi_env
add_cgi_env-Returns h key value =
    if-Returns (ltb h.logline.cgi_env_index cgi_env_max) _ _ (λ e. ground (arith, e))
      (λ e. ground (arith, e))

add_again-Returns :
    (line value : Bytes) (p : Headers × OptionEnd) → Returns p → Returns (add_again line value p)
unfolding add_again
add_again-Returns line value (h, accepted) r = add_cgi_env-Returns h line value
add_again-Returns line value (h, no_colon) r = r
add_again-Returns line value (h, env_full) r = r
add_again-Returns line value (h, invalid_range) r = r
add_again-Returns line value (h, overread) r = r

take_range-Returns : (value : Bytes) (h : Headers) → Returns (take_range value h)
unfolding take_range
take_range-Returns value h =
    if-Returns (has_range_error h.ranges.ranges) _ _ (accepted-Returns h)
      (by_ranges (range_parse h.ranges value) (range_parse-total h.ranges value))
  where
    after_ranges : Option (RangeState × Bool) → Headers × OptionEnd
    after_ranges o = elim o [
      | none ↦ (h, overread)
      | some (ranges, true) ↦ add_cgi_env (record h { ranges = ranges }) (codes "RANGE") value
      | some (ranges, false) ↦ (record h { ranges = ranges }, invalid_range)
    ]

    by_ranges :
        (o : Option (RangeState × Bool))
        → (r : RangeState) × (b : Bool) × (o ≡ some (r, b))
        → Returns (after_ranges o)
    by_ranges none (r, b, e) = absurd (ground (arith, e))
    by_ranges (some (ranges, true)) t =
        add_cgi_env-Returns (record h { ranges = ranges }) (codes "RANGE") value
    by_ranges (some (ranges, false)) t = λ e. ground (arith, e)

take_logged-Returns : (line value : Bytes) (h : Headers) → Returns (take_logged line value h)
unfolding take_logged
take_logged-Returns line value h =
    if-Returns (str_eq line (codes "REFERER")) _ _
      (add_again-Returns line value _
        (add_cgi_env-Returns (record h { header_referer = some value }) (codes "REFERER") value))
      (if-Returns (str_eq line (codes "RANGE")) _ _ (take_range-Returns value h) (
        if-Returns (str_eq line (codes "USER_AGENT")) _ _
          (add_cgi_env-Returns (record h { header_user_agent = some value }) (codes "USER_AGENT")
            value)
          (if-Returns (str_eq line (codes "X_FORWARDED_FOR")) _ _
            (accepted-Returns (record h { header_forwarded_for = some value }))
            (add_cgi_env-Returns h line value))))

take_option-Returns :
    (ka_max : ℕ) (line value : Bytes) (h : Headers) → Returns (take_option ka_max line value h)
unfolding take_option
take_option-Returns ka_max line value h =
    if-Returns (str_eq line (codes "ACCEPT")) _ _ (accepted-Returns h) (
      if-Returns (str_eq line (codes "CONTENT_TYPE") && is_none h.content_type) _ _
        (accepted-Returns (record h { content_type = some value }))
        (if-Returns (str_eq line (codes "CONTENT_LENGTH") && is_none h.content_length) _ _
          (accepted-Returns (record h { content_length = some value }))
          (if-Returns
            (str_eq line (codes "CONNECTION")
              && not (ka_max == 0)
              && not (is_stopped h.logline.keepalive))
            _ _
            (accepted-Returns (record h {
              logline = record h.logline {
                keepalive =
                    if◌then◌else◌ {A = KaStatus} (starts_nocase (codes "keep-alive") value)
                      ka_active ka_stopped;
              };
            }))
            (if-Returns (str_eq line (codes "HOST") && is_none h.logline.header_host) _ _
              (accepted-Returns
                (record h { logline = record h.logline { header_host = some value } }))
              (if-Returns (str_eq line (codes "IF_MODIFIED_SINCE") && is_none h.if_modified_since) _
                _ (accepted-Returns (record h { if_modified_since = some value }))
                (take_logged-Returns line value h))))))

-- Whatever the line and the state are, process_option_line returns before it reads past the header.
pub process_option_line-Returns :
    (ka_max : ℕ) (line : Bytes) (h : Headers) → (process_option_line ka_max line h).1 ≢ overread
unfolding process_option_line take_split take_value
process_option_line-Returns ka_max line h = by_split (split_colon line)
  where
    by_value : (name value : Bytes) → Returns (take_value ka_max name value h)
    by_value name [] = accepted-Returns h
    by_value name (c ∷ value) = take_option-Returns ka_max name (c ∷ value) h

    by_split : (o : Option (Bytes × Bytes)) → Returns (take_split ka_max o h)
    by_split none = λ e. ground (arith, e)
    by_split (some (name, text)) = by_value (to_upper name) (skip_white text)
