-- ===== src/Request.antt =====
-- src/request.c, `process_header_end` up to the call of translate_uri: the requested path is
-- decoded and cleaned, and the name of the virtual host is checked.
--
-- A reply is an outcome of its own. The buffer of the path is a C string, so the bytes that follow
-- a decoded NUL are not read again; a failed allocation is not modelled.
pub mod Checked
pub mod Text
use boa.Common.{
  if◌then◌else◌, ℕ, zero, suc, ◌+◌, ◌-◌, ◌*◌, ◌/◌, ◌%◌, ◌^◌, ◌≤◌, ◌<◌, min, ◌≡◌, refl, sym, ap, ap₂,
  ◌∙◌, ◌≢◌, ◌↔◌, ◌⊎◌, inl, inr, Bool, true, false, not, ◌&&◌, ◌||◌, Option, none, some, List, [],
  ◌∷◌, ◌++◌, map, append-nil, append_assoc, arith, ltb, leb, ◌==◌, within, ==_iff, eq-of-==,
  ==_refl, Bool-cases, Option-cases, and-eq-true, length, get_or, set, take, drop, replicate,
  length-append, length-set, length-take, length-drop, get_or-set_self, get_or-set_ne, All,
  All-append, Bytes, codes, str_eq, str_eq_iff, starts, suc-ne-zero, check_range, check_range-below,
  bool_eq, bool_eq_iff, member,
}
use boa.Uri.{Decoded, unescape_uri}
use boa.PathClean.{clean_pathname}
use boa.Host.{strlower, check_host}

-- The bytes of a C string.
unfoldable pub c_string : Bytes → Bytes
c_string [] = []
c_string (c ∷ s) = if c == 0 then [] else c ∷ c_string s

-- strchr(s, ':'), and the end of the string is put there.
unfoldable pub cut_port : Bytes → Bytes
cut_port [] = []
cut_port (c ∷ s) = if c == b':' then [] else c ∷ cut_port s

-- The path is of the form "/(ll)/" and goes on.
abbrev pub is_caudium : Bytes → Bool
is_caudium uri =
    get_or uri 0 0 == b'/'
    && get_or uri 1 0 == b'('
    && within b'a' b'z' (get_or uri 2 0)
    && within b'a' b'z' (get_or uri 3 0)
    && get_or uri 4 0 == b')'
    && get_or uri 5 0 == b'/'
    && not (get_or uri 6 0 == 0)

unfoldable pub strip_caudium : Bool → Bytes → Bytes
strip_caudium use_caudium_hack uri = if use_caudium_hack && is_caudium uri then drop 5 uri else uri

-- The settings of the server that the function reads.
pub record Settings : Type 0 where
  pub use_caudium_hack : Bool
  pub vhost_root : Bool
  pub default_vhost : Bytes

-- req->host: `none` is the reply 400, and without virtual hosts it stays NULL.
unfoldable pub virtual_host : Settings → Option Bytes → Option (Option Bytes)
virtual_host settings header_host =
    if settings.vhost_root then check (cut_port (strlower (chosen header_host))) else some none
  where
    chosen : Option Bytes → Bytes
    chosen none = settings.default_vhost
    chosen (some h) = h

    check : Bytes → Option (Option Bytes)
    check host = elim (check_host host) [
      | none ↦ none
      | some n ↦ if ltb n 1 then none else some (some host)
    ]

pub data HeaderEnd : Type 0 where
  -- R_ERROR, and the three replies R_BAD_REQUEST
  no_logline bogus_characters not_rooted invalid_host : HeaderEnd
  -- what translate_uri is called with
  translate : (request_uri : Bytes) (query_string : Option Bytes) (host : Option Bytes) → HeaderEnd

unfoldable pub process_header_end :
    Settings
    → (logline : Option Bytes) (request_uri : Bytes) (query_string header_host : Option Bytes)
    → HeaderEnd
process_header_end settings none request_uri query_string header_host = no_logline
process_header_end settings (some line) request_uri query_string header_host =
    let decoded = unescape_uri request_uri query_string in
    let cleaned = clean_pathname (c_string decoded.uri) in
    if not decoded.legal
    then bogus_characters
    else if not (get_or cleaned 0 0 == b'/')
    then not_rooted
    else elim (virtual_host settings header_host) [
      | none ↦ invalid_host
      | some host ↦ translate (strip_caudium settings.use_caudium_hack cleaned) decoded.query host
    ]
