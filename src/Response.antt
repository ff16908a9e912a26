-- ===== src/Response.antt =====
-- src/response.c: what a reply's header is made of, and `complete_response`.
--
-- The text goes through req_write, whose result is not looked at. What the configuration says is
-- `Server`, with the current time; default_type is set. The calls of time(2) and gmtime(3) are left
-- out: `now` and last_modified are broken-down times.
pub mod Replies
pub mod Files
pub mod Texts
pub mod KeepAlive
use boa.Common.{
  ◌∙◌, sym, ap, ℕ, zero, suc, ◌+◌, ◌-◌, ◌*◌, ◌/◌, ◌%◌, ◌^◌, ◌≤◌, ◌<◌, min, ◌≡◌, refl, sym, ap, ap₂,
  ◌∙◌, ◌≢◌, ◌↔◌, ◌⊎◌, inl, inr, Bool, true, false, not, ◌&&◌, ◌||◌, Option, none, some, List, [],
  ◌∷◌, ◌++◌, map, append-nil, append_assoc, arith, ltb, leb, ◌==◌, if◌then◌else◌, within, ==_iff,
  eq-of-==, ==_refl, Bool-cases, Option-cases, and-eq-true, length, get_or, set, take, drop,
  replicate, length-append, length-set, length-take, length-drop, get_or-set_self, get_or-set_ne,
  All, All-append, Bytes, codes, str_eq, str_eq_iff, starts, suc-ne-zero, check_range,
  check_range-below, bool_eq, bool_eq_iff, member, take-append-drop, get_or-drop, take-length,
  drop_nil, drop-drop, drop_all, drop-append,
}
use boa.Status.{
  ReqStatus, done, HttpMethod, m_get, m_head, HttpVersion, http09, http10, http11, KaStatus,
  ka_active, ka_stopped, CgiType,
}
use boa.Buffer.{OutBuf, req_write, Written, req_flush}
use boa.Decimal.{simple_itoa}
use boa.HttpDate.{Tm, rfc822_time}
use boa.Hash.{HashTable, get_mime_type}
use boa.Range.{Range, RangeState, range_pool_push}
use boa.Range.Parse.{starts_nocase}

-- The configuration.
pub record Server : Type 0 where
  pub ka_timeout : ℕ
  pub conceal_server_identity : Bool
  pub hsts_header : Option Bytes
  pub default_charset : Option Bytes
  pub mime_table : HashTable
  pub default_type : Bytes
  pub now : Tm

-- The fields of the request that the file uses. `out` has the status and the buffer.
pub record Reply : Type 0 where
  pub method : HttpMethod
  pub http_version : HttpVersion
  pub response_status : ℕ
  pub keepalive : KaStatus
  pub kacount : ℕ
  pub cgi_type : Option CgiType
  pub ranges : RangeState
  pub filesize : ℕ
  pub last_modified : Tm
  pub request_uri : Bytes
  pub out : OutBuf

abbrev pub crlf : Bytes
crlf = 13 ∷ 10 ∷ []

-- A call of req_write for each text.
unfoldable pub write_texts : List Bytes → OutBuf → OutBuf
write_texts [] o = o
write_texts (text ∷ texts) o = write_texts texts (req_write text o).0

abbrev pub print_texts : List Bytes → Reply → Reply
print_texts texts r = record r { out = write_texts texts r.out }

abbrev pub squash_ka : Reply → Reply
squash_ka r = record r { keepalive = ka_stopped }

unfoldable pub http_ver_string : HttpVersion → Bytes
http_ver_string http09 = codes "HTTP/0.9"
http_ver_string http10 = codes "HTTP/1.0"
http_ver_string http11 = codes "HTTP/1.1"

abbrev pub is_http09 : HttpVersion → Bool
is_http09 http09 = true
is_http09 _ = false

abbrev pub is_head : HttpMethod → Bool
is_head m_head = true
is_head _ = false

-- The charset is added to a text type.
unfoldable pub charset_of : Option Bytes → Bytes → List Bytes
charset_of none mime_type = []
charset_of (some default_charset) mime_type =
    if starts_nocase (codes "text") mime_type then codes "; charset=" ∷ default_charset ∷ [] else []

unfoldable pub type_texts : Server → Bytes → List Bytes
type_texts s request_uri =
    let mime_type = get_mime_type s.mime_table s.default_type request_uri in
    (codes "Content-Type: " ∷ mime_type ∷ []) ++ charset_of s.default_charset mime_type ++ crlf ∷ []

abbrev pub print_content_type : Server → Reply → Reply
print_content_type s r = print_texts (type_texts s r.request_uri) r

abbrev pub print_content_length : Reply → Reply
print_content_length r =
    print_texts (codes "Content-Length: " ∷ simple_itoa r.filesize ∷ crlf ∷ []) r

abbrev pub print_last_modified : Reply → Reply
print_last_modified r =
    print_texts ((codes "Last-Modified: " ++ rfc822_time r.last_modified ++ crlf) ∷ []) r

abbrev pub is_active : KaStatus → Bool
is_active ka_active = true
is_active _ = false

unfoldable pub ka_texts : ℕ → ℕ → KaStatus → ℕ → List Bytes
ka_texts ka_timeout kacount keepalive response_status =
    if ltb 0 kacount && is_active keepalive && ltb response_status 500
    then (codes "Connection: Keep-Alive" ++ crlf ++ codes "Keep-Alive: timeout=")
      ∷ simple_itoa ka_timeout
      ∷ codes ", max="
      ∷ simple_itoa kacount
      ∷ crlf
      ∷ []
    else (codes "Connection: close" ++ crlf) ∷ []

abbrev pub print_ka_phrase : Server → Reply → Reply
print_ka_phrase s r = print_texts (ka_texts s.ka_timeout r.kacount r.keepalive r.response_status) r

unfoldable pub hsts_texts : Option Bytes → List Bytes
hsts_texts none = []
hsts_texts (some hsts_header) = codes "Strict-Transport-Security: " ∷ hsts_header ∷ crlf ∷ []

-- In front of the connection phrase.
unfoldable pub header_texts : Server → List Bytes
header_texts s =
    ((codes "Date: " ++ rfc822_time s.now ++ crlf) ∷ [])
    ++ (if s.conceal_server_identity then [] else (codes "Server: Boa/0.94.101wk" ++ crlf) ∷ [])
    ++ hsts_texts s.hsts_header
    ++ (codes "Accept-Ranges: bytes" ++ crlf) ∷ []

abbrev pub print_http_headers : Server → Reply → Reply
print_http_headers s r = print_ka_phrase s (print_texts (header_texts s) r)

-- The first range of the request.
abbrev pub first_range : List Range → Range
first_range [] = record { start = 0; stop = 0 }
first_range (r ∷ rs) = r

unfoldable pub range_texts : Range → ℕ → List Bytes
range_texts range filesize =
    codes "Content-Range: bytes "
    ∷ simple_itoa range.start
    ∷ codes "-"
    ∷ simple_itoa range.stop
    ∷ codes "/"
    ∷ simple_itoa filesize
    ∷ crlf
    ∷ []

abbrev pub print_content_range : Reply → Reply
print_content_range r = print_texts (range_texts (first_range r.ranges.ranges) r.filesize) r

-- The separator in front of a part.
unfoldable pub part_texts : ℕ → List Bytes
part_texts numranges =
    if ltb 1 numranges then (crlf ++ codes "--THIS_STRING_SEPARATES" ++ crlf) ∷ [] else []

abbrev pub print_partial_content_continue : Server → Reply → Reply
print_partial_content_continue s r =
    print_content_range (print_content_type s (print_texts (part_texts r.ranges.numranges) r))

abbrev pub print_partial_content_done : Reply → Reply
print_partial_content_done r =
    print_texts ((crlf ++ codes "--THIS_STRING_SEPARATES--" ++ crlf) ∷ []) r

-- req_flush, with what write(2) answers.
abbrev pub flush : Written → Reply → Reply
flush w r = record r { out = (req_flush w r.out).0 }

-- The first range goes to the pool.
unfoldable pub drop_range : RangeState → RangeState
drop_range s = by_ranges s.ranges
  where
    by_ranges : List Range → RangeState
    by_ranges [] = s
    by_ranges (r ∷ rs) = record s { ranges = rs; pool = range_pool_push r s.pool }

-- The part of `complete_response` behind the first range; true is the result 1.
unfoldable pub complete_ranges : Server → Written → List Range → Reply → Reply × Bool
complete_ranges s w ranges r =
    if r.response_status == 206 && ltb 1 r.ranges.numranges
    then elim ranges [
      | [] ↦
          let r' = print_partial_content_done r in
          (flush w (record r' { out = record r'.out { status = done } }), true)
      | _ ∷ _ ↦ (print_texts (crlf ∷ []) (print_partial_content_continue s r), true)
    ]
    else (record r { out = record r.out { status = done } }, false)

unfoldable pub complete_response : Server → Written → Reply → Reply × Bool
complete_response s w r =
    let ranges = drop_range r.ranges in
    complete_ranges s w ranges.ranges (record r { ranges = ranges })
