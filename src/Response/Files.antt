-- ===== src/Response/Files.antt =====
-- The headers of src/response.c that are followed by a file or by the output of a program.
use boa.Common.{
  ◌+◌, ◌-◌, Bool, true, false, Option, none, some, List, [], ◌∷◌, ◌++◌, ltb, if◌then◌else◌, Bytes,
  codes,
}
use boa.Status.{HttpVersion, http11, CgiType}
use boa.Decimal.{simple_itoa}
use boa.Range.{RangeState}
use boa.Response.{
  Server, Reply, crlf, print_texts, http_ver_string, is_http09, print_content_type,
  print_content_length, print_last_modified, print_http_headers, print_partial_content_continue,
  first_range,
}

abbrev is_http11 : HttpVersion → Bool
is_http11 http11 = true
is_http11 _ = false

unfoldable pub send_r_continue : Reply → Reply
send_r_continue r =
    if is_http11 r.http_version
    then print_texts (http_ver_string r.http_version ∷ (codes " 100 Continue" ++ crlf ++ crlf) ∷ [])
        (record r { response_status = 100 })
    else r

abbrev is_plain : Option CgiType → Bool
is_plain none = true
is_plain (some t) = false

unfoldable pub send_r_request_ok : Server → Reply → Reply
send_r_request_ok s r =
    let r = record r { response_status = 200 } in
    let r' =
      print_http_headers s
        (print_texts (http_ver_string r.http_version ∷ (codes " 200 OK" ++ crlf) ∷ []) r) in
    if is_http09 r.http_version
    then r
    else if is_plain r.cgi_type
    then print_texts (crlf ∷ [])
        (print_content_type s (print_last_modified (print_content_length r')))
    else r'

unfoldable pub send_r_no_content : Server → Reply → Reply
send_r_no_content s r =
    let r = record r { response_status = 204 } in
    let r' =
      print_http_headers s
        (print_texts (http_ver_string r.http_version ∷ (codes " 204 NO CONTENT" ++ crlf) ∷ []) r) in
    if is_http09 r.http_version
    then r
    else if is_plain r.cgi_type
    then print_texts (crlf ∷ []) r'
    else r'

-- Content-Length, or the type of a reply in several parts.
unfoldable pub partial_texts : RangeState → List Bytes
partial_texts ranges =
    let range = first_range ranges.ranges in
    if ltb 1 ranges.numranges
    then (codes "Content-Type: multipart/byteranges; boundary=THIS_STRING_SEPARATES" ++ crlf)
      ∷ crlf
      ∷ []
    else codes "Content-Length: " ∷ simple_itoa (range.stop - range.start + 1) ∷ crlf ∷ []

unfoldable pub send_r_partial_content : Server → Reply → Reply
send_r_partial_content s r =
    let r = record r { response_status = 206 } in
    let r' = print_last_modified (
      print_http_headers s (
        print_texts (http_ver_string r.http_version ∷ (codes " 206 Partial Content" ++ crlf) ∷ [])
          r)) in
    print_texts (crlf ∷ [])
      (print_partial_content_continue s (print_texts (partial_texts r'.ranges) r'))
