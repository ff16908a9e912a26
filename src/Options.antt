-- ===== src/Options.antt =====
-- The header lines behind the first one: `process_option_line` of src/request.c, `add_cgi_env` and
-- `env_gen_extra` of src/cgi.c.
--
-- A line is a C string. The build does not define ACCEPT_ON. An allocation does not fail. Of
-- send_r_invalid_range only the fact is kept that the request has been answered. A variable of the
-- environment is the text "name=value".
pub mod Names
pub mod Kept
pub mod Returns
pub mod Session
use boa.Common.{
  ◌∙◌, sym, ap, ℕ, zero, suc, ◌+◌, ◌-◌, ◌*◌, ◌/◌, ◌%◌, ◌^◌, ◌≤◌, ◌<◌, min, ◌≡◌, refl, sym, ap, ap₂,
  ◌∙◌, ◌≢◌, ◌↔◌, ◌⊎◌, inl, inr, Bool, true, false, not, ◌&&◌, ◌||◌, Option, none, some, List, [],
  ◌∷◌, ◌++◌, map, append-nil, append_assoc, arith, ltb, leb, ◌==◌, if◌then◌else◌, within, ==_iff,
  eq-of-==, ==_refl, Bool-cases, Option-cases, and-eq-true, length, get_or, set, take, drop,
  replicate, length-append, length-set, length-take, length-drop, get_or-set_self, get_or-set_ne,
  All, All-append, Bytes, codes, str_eq, str_eq_iff, starts, suc-ne-zero, check_range,
  check_range-below, bool_eq, bool_eq_iff, member, take-append-drop, get_or-drop, take-length,
}
use boa.Status.{KaStatus, ka_active, ka_stopped}
use boa.Host.{to_upper}
use boa.Logline.{Logline}
use boa.Range.{Range, RangeState}
use boa.Range.Parse.{starts_nocase, range_parse}

abbrev pub cgi_env_max : ℕ
cgi_env_max = 100

abbrev pub int_max : ℕ
int_max = 2147483647

-- The fields of the request that header lines set, with those of its first line.
pub record Headers : Type 0 where
  pub logline : Logline
  pub content_type : Option Bytes
  pub content_length : Option Bytes
  pub if_modified_since : Option Bytes
  pub header_referer : Option Bytes
  pub header_user_agent : Option Bytes
  pub header_forwarded_for : Option Bytes
  pub ranges : RangeState
  -- the variables from the end of the common ones on
  pub cgi_env : List Bytes

-- The result 1, and the ways to the result 0. `overread` stands for a range_parse that reads past
-- its string.
pub data OptionEnd : Type 0 where
  accepted no_colon env_full invalid_range overread : OptionEnd

abbrev pub env_gen_extra : Bytes → Bytes → Bytes
env_gen_extra key value = key ++ b'=' ∷ value

-- With http_prefix 1, as the header lines use it.
unfoldable pub add_cgi_env : Headers → Bytes → Bytes → Headers × OptionEnd
add_cgi_env h key value =
    if ltb h.logline.cgi_env_index cgi_env_max
    then (
      record h {
        logline = record h.logline { cgi_env_index = h.logline.cgi_env_index + 1 };
        cgi_env = h.cgi_env ++ (codes "HTTP_" ++ env_gen_extra key value) ∷ [];
      },
      accepted,
    )
    else (h, env_full)

-- The text in front of the first ':', and what stands behind it.
unfoldable pub split_colon : Bytes → Option (Bytes × Bytes)
split_colon [] = none
split_colon (c ∷ s) =
    if c == b':'
    then some ([], s)
    else elim (split_colon s) [ none ↦ none | some (name, value) ↦ some (c ∷ name, value) ]

-- Blanks and tabs in front of the value.
unfoldable pub skip_white : Bytes → Bytes
skip_white [] = []
skip_white (c ∷ s) = let rest = skip_white s in if c == b' ' || c == 9 then rest else c ∷ s

abbrev pub is_none {ℓ} : {A : Type ℓ} → Option A → Bool
is_none none = true
is_none (some a) = false

abbrev pub is_stopped : KaStatus → Bool
is_stopped ka_stopped = true
is_stopped _ = false

-- req->ranges && req->ranges->stop == INT_MAX
abbrev pub has_range_error : List Range → Bool
has_range_error [] = false
has_range_error (r ∷ rs) = r.stop == int_max

unfoldable pub take_range : Bytes → Headers → Headers × OptionEnd
take_range value h =
    if has_range_error h.ranges.ranges then (h, accepted) else elim (range_parse h.ranges value) [
      | none ↦ (h, overread)
      | some (ranges, true) ↦ add_cgi_env (record h { ranges = ranges }) (codes "RANGE") value
      | some (ranges, false) ↦ (record h { ranges = ranges }, invalid_range)
    ]

-- Behind a success the `switch` is left, and the line is added as any other.
unfoldable pub add_again : Bytes → Bytes → Headers × OptionEnd → Headers × OptionEnd
add_again line value (h, accepted) = add_cgi_env h line value
add_again line value (h, e) = (h, e)

-- The cases of the letters R, U and X, and the default.
unfoldable pub take_logged : Bytes → Bytes → Headers → Headers × OptionEnd
take_logged line value h =
    if str_eq line (codes "REFERER")
    then add_again line value
        (add_cgi_env (record h { header_referer = some value }) (codes "REFERER") value)
    else if str_eq line (codes "RANGE")
    then take_range value h
    else if str_eq line (codes "USER_AGENT")
    then add_cgi_env (record h { header_user_agent = some value }) (codes "USER_AGENT") value
    else if str_eq line (codes "X_FORWARDED_FOR")
    then (record h { header_forwarded_for = some value }, accepted)
    else add_cgi_env h line value

-- The `switch`. `line` is the name in upper case.
unfoldable pub take_option : ℕ → Bytes → Bytes → Headers → Headers × OptionEnd
take_option ka_max line value h =
    if str_eq line (codes "ACCEPT")
    then (h, accepted)
    else if str_eq line (codes "CONTENT_TYPE") && is_none h.content_type
    then (record h { content_type = some value }, accepted)
    else if str_eq line (codes "CONTENT_LENGTH") && is_none h.content_length
    then (record h { content_length = some value }, accepted)
    else if str_eq line (codes "CONNECTION")
        && not (ka_max == 0)
        && not (is_stopped h.logline.keepalive)
    then (
      record h {
        logline = record h.logline {
          keepalive = if starts_nocase (codes "keep-alive") value then ka_active else ka_stopped;
        };
      },
      accepted,
    )
    else if str_eq line (codes "HOST") && is_none h.logline.header_host
    then (record h { logline = record h.logline { header_host = some value } }, accepted)
    else if str_eq line (codes "IF_MODIFIED_SINCE") && is_none h.if_modified_since
    then (record h { if_modified_since = some value }, accepted)
    else take_logged line value h

-- `text` stands behind the colon; a line without a value is ignored.
unfoldable pub take_value : ℕ → Bytes → Bytes → Headers → Headers × OptionEnd
take_value ka_max name [] h = (h, accepted)
take_value ka_max name (c ∷ value) h = take_option ka_max name (c ∷ value) h

unfoldable pub take_split : ℕ → Option (Bytes × Bytes) → Headers → Headers × OptionEnd
take_split ka_max none h = (h, no_colon)
take_split ka_max (some (name, text)) h = take_value ka_max (to_upper name) (skip_white text) h

unfoldable pub process_option_line : ℕ → Bytes → Headers → Headers × OptionEnd
process_option_line ka_max line h = take_split ka_max (split_colon line) h
