-- ===== src/Response/Replies.antt =====
-- The replies of src/response.c that send no file: redirections and errors.
use boa.Common.{
  ℕ, Bool, true, false, not, ◌&&◌, List, [], ◌∷◌, ◌++◌, if◌then◌else◌, length, Bytes, codes,
}
use boa.Buffer.{OutBuf, req_write, req_write_escape_http, req_write_escape_html, Written}
use boa.Decimal.{simple_itoa}
use boa.Response.{
  Server, Reply, crlf, print_texts, squash_ka, http_ver_string, is_http09, is_head,
  print_content_type, print_last_modified, print_http_headers, flush,
}

-- A call of req_write, req_write_escape_http or req_write_escape_html.
pub data Piece : Type 0 where
  plain http_escaped html_escaped : Bytes → Piece

unfoldable pub print_piece : Piece → OutBuf → OutBuf
print_piece (plain text) o = (req_write text o).0
print_piece (http_escaped text) o = (req_write_escape_http text o).0
print_piece (html_escaped text) o = (req_write_escape_html text o).0

unfoldable pub print_pieces : List Piece → Reply → Reply
print_pieces [] r = r
print_pieces (p ∷ ps) r = print_pieces ps (record r { out = print_piece p r.out })

-- "Content-Type: " HTML CRLF
abbrev pub html_type : Bytes
html_type = codes "Content-Type: text/html; charset=ISO-8859-1" ++ crlf

-- The statements that these replies share: the status line, the headers and `more_headers`, unless
-- the request is of HTTP/0.9; the body, unless it is HEAD and `always` is not set; req_flush.
unfoldable pub send_reply :
    Server → Written → ℕ → Bytes → (Reply → Reply) → Bool → List Piece → Reply → Reply
send_reply s w code reason more_headers always body r =
    let r = record r { response_status = code } in
    let r =
      if is_http09 r.http_version
      then r
      else more_headers (
          print_http_headers s
            (print_texts (http_ver_string r.http_version ∷ (reason ++ crlf) ∷ []) r)) in
    flush w (if is_head r.method && not always then r else print_pieces body r)

-- The header ends behind the content type.
abbrev pub only_type : Reply → Reply
only_type r = print_texts ((html_type ++ crlf) ∷ []) r

abbrev pub title : Bytes → Bytes
title t = codes "<HTML><HEAD><TITLE>" ++ t ++ codes "</TITLE></HEAD>" ++ 10 ∷ []

abbrev pub page_end : Bytes
page_end = codes "</BODY></HTML>" ++ 10 ∷ []

module _ (s : Server) (w : Written) where
  unfoldable pub send_r_moved_perm : Bytes → Reply → Reply
  send_r_moved_perm url r =
      send_reply s w 301 (codes " 301 Moved Permanently")
        (λ r.
          print_pieces
            (plain html_type
              ∷ plain (codes "Location: ")
              ∷ http_escaped url
              ∷ plain (crlf ++ crlf)
              ∷ [])
            r)
        false
        (plain (
            title (codes "301 Moved Permanently")
            ++ codes "<BODY>"
            ++ 10 ∷ codes "<H1>301 Moved</H1>The document has moved"
            ++ 10 ∷ codes "<A HREF="
            ++ b'"' ∷ [])
          ∷ html_escaped url
          ∷ plain (b'"' ∷ codes ">here</A>." ++ 10 ∷ page_end)
          ∷ [])
        (squash_ka r)

  unfoldable pub send_r_moved_temp : Bytes → Bytes → Reply → Reply
  send_r_moved_temp url more_hdr r =
      send_reply s w 302 (codes " 302 Moved Temporarily")
        (λ r.
          print_pieces
            (plain html_type
              ∷ plain (codes "Location: ")
              ∷ http_escaped url
              ∷ plain crlf
              ∷ plain more_hdr
              ∷ plain (crlf ++ crlf)
              ∷ [])
            r)
        false
        (plain (
            title (codes "302 Moved Temporarily")
            ++ codes "<BODY>"
            ++ 10 ∷ codes "<H1>302 Moved</H1>The document has moved"
            ++ 10 ∷ codes "<A HREF="
            ++ b'"' ∷ [])
          ∷ html_escaped url
          ∷ plain (b'"' ∷ codes ">here</A>." ++ 10 ∷ page_end)
          ∷ [])
        (squash_ka r)

  -- The header is sent whatever the version is, and no body.
  unfoldable pub send_r_not_modified : Reply → Reply
  send_r_not_modified r =
      let r = record (squash_ka r) { response_status = 304 } in
      flush w (
        print_texts (crlf ∷ []) (
          print_content_type s (
            print_http_headers s (
              print_texts
                (http_ver_string r.http_version ∷ (codes " 304 Not Modified" ++ crlf) ∷ []) r))))

  unfoldable pub send_r_bad_request : Reply → Reply
  send_r_bad_request r =
      send_reply s w 400 (codes " 400 Bad Request") only_type false
        (plain (
            title (codes "400 Bad Request")
            ++ codes "<BODY><H1>400 Bad Request</H1>"
            ++ 10 ∷ codes "Your client has issued a malformed or illegal request."
            ++ 10 ∷ page_end)
          ∷ [])
        (squash_ka r)

  unfoldable pub send_r_unauthorized : Bytes → Reply → Reply
  send_r_unauthorized realm_name r =
      send_reply s w 401 (codes " 401 Unauthorized")
        (λ r.
          print_texts
            ((codes "WWW-Authenticate: Basic realm=" ++ b'"' ∷ [])
              ∷ realm_name
              ∷ crlf
              ∷ (html_type ++ crlf)
              ∷ [])
            r)
        false
        (plain (
            title (codes "401 Unauthorized")
            ++ codes "<BODY><H1>401 Unauthorized</H1>"
            ++ 10 ∷ codes "Your client does not have permission to get URL ")
          ∷ html_escaped r.request_uri
          ∷ plain (codes " from this server." ++ 10 ∷ page_end)
          ∷ [])
        (squash_ka r)

  unfoldable pub send_r_forbidden : Reply → Reply
  send_r_forbidden r =
      send_reply s w 403 (codes " 403 Forbidden") only_type false
        (plain (
            title (codes "403 Forbidden")
            ++ codes "<BODY><H1>403 Forbidden</H1>"
            ++ 10 ∷ codes "Your client does not have permission to get URL ")
          ∷ html_escaped r.request_uri
          ∷ plain (codes " from this server." ++ 10 ∷ page_end)
          ∷ [])
        (squash_ka r)

  unfoldable pub send_r_not_found : Reply → Reply
  send_r_not_found r =
      send_reply s w 404 (codes " 404 Not Found") only_type false
        (plain (
            title (codes "404 Not Found")
            ++ codes "<BODY><H1>404 Not Found</H1>"
            ++ 10 ∷ codes "The requested URL ")
          ∷ html_escaped r.request_uri
          ∷ plain (codes " was not found on this server." ++ 10 ∷ page_end)
          ∷ [])
        (squash_ka r)

  unfoldable pub send_r_length_required : Reply → Reply
  send_r_length_required r =
      send_reply s w 411 (codes " 411 Length Required")
        (λ r.
          print_texts (crlf ∷ [])
            (print_content_type s (print_last_modified (print_texts (html_type ∷ []) r))))
        false
        (plain (
            title (codes "411 Length Required")
            ++ codes "<BODY><H1>411 Length Required</H1>"
            ++ 10 ∷ codes "The requested URL ")
          ∷ html_escaped r.request_uri
          ∷ plain (
              codes " requires that a valid Content-Length header be sent with it."
              ++ 10 ∷ page_end)
          ∷ [])
        (squash_ka r)

  unfoldable pub send_r_precondition_failed : Reply → Reply
  send_r_precondition_failed r =
      send_reply s w 412 (codes " 412 Precondition Failed") only_type false
        (plain (
            title (codes "412 Precondition Failed")
            ++ codes "<BODY><H1>412 Precondition Failed</H1>"
            ++ 10 ∷ page_end)
          ∷ [])
        (squash_ka r)

  abbrev pub uri_too_long_body : Bytes
  uri_too_long_body =
      title (codes "414 Request URI Too Long")
      ++ codes "<BODY><H1>414 Request URI Too Long</H1>"
      ++ 10 ∷ codes "Your client has issued a malformed or illegal request."
      ++ 10 ∷ page_end

  -- The connection may be kept.
  unfoldable pub send_r_request_uri_too_long : Reply → Reply
  send_r_request_uri_too_long r =
      send_reply s w 414 (codes " 414 Request URI Too Long")
        (λ r.
          print_texts
            (html_type
              ∷ codes "Content-Length: "
              ∷ simple_itoa (length uri_too_long_body)
              ∷ (crlf ++ crlf)
              ∷ [])
            r)
        false (plain uri_too_long_body ∷ []) r

  abbrev pub invalid_range_body : Bytes
  invalid_range_body =
      title (codes "416 Invalid Range") ++ codes "<BODY><H1>416 Invalid Range</H1>" ++ 10 ∷ page_end

  unfoldable pub send_r_invalid_range : Reply → Reply
  send_r_invalid_range r =
      send_reply s w 416 (codes " 416 Invalid Range")
        (λ r.
          print_texts
            (codes "Content-Length: "
              ∷ simple_itoa (length invalid_range_body)
              ∷ (crlf ++ html_type ++ crlf)
              ∷ [])
            r)
        false (plain invalid_range_body ∷ []) (squash_ka r)

  unfoldable pub send_r_error : Reply → Reply
  send_r_error r =
      send_reply s w 500 (codes " 500 Server Error") only_type false
        (plain (
            title (codes "500 Server Error")
            ++ codes "<BODY><H1>500 Server Error</H1>"
            ++ 10
              ∷ codes
                  "The server encountered an internal error and could not complete your request."
            ++ 10 ∷ page_end)
          ∷ [])
        (squash_ka r)

  -- The body is sent whatever the method is.
  unfoldable pub send_r_not_implemented : Reply → Reply
  send_r_not_implemented r =
      send_reply s w 501 (codes " 501 Not Implemented") only_type true
        (plain (
            title (codes "501 Not Implemented")
            ++ codes "<BODY><H1>501 Not Implemented</H1>"
            ++ 10 ∷ codes "POST to non-script is not supported in Boa."
            ++ 10 ∷ page_end)
          ∷ [])
        (squash_ka r)

  unfoldable pub send_r_bad_gateway : Reply → Reply
  send_r_bad_gateway r =
      send_reply s w 502 (codes " 502 Bad Gateway") only_type false
        (plain (
            title (codes "502 Bad Gateway")
            ++ codes "<BODY><H1>502 Bad Gateway</H1>"
            ++ 10 ∷ codes "The CGI was not CGI/1.1 compliant."
            ++ 10 ∷ page_end)
          ∷ [])
        (squash_ka r)

  abbrev pub service_unavailable_body : Bytes
  service_unavailable_body =
      title (codes "503 Service Unavailable")
      ++ codes "<BODY><H1>503 Service Unavailable</H1>"
      ++ 10 ∷ codes "There are too many connections in use right now."
      ++ 10 ∷ codes "Please try again later."
      ++ 10 ∷ page_end

  unfoldable pub send_r_service_unavailable : Reply → Reply
  send_r_service_unavailable r =
      send_reply s w 503 (codes " 503 Service Unavailable")
        (λ r.
          print_texts
            (codes "Content-Length: "
              ∷ simple_itoa (length service_unavailable_body)
              ∷ crlf
              ∷ (html_type ++ crlf)
              ∷ [])
            r)
        false (plain service_unavailable_body ∷ []) (squash_ka r)

  unfoldable pub send_r_bad_version : Bytes → Reply → Reply
  send_r_bad_version version r =
      send_reply s w 505 (codes " 505 HTTP Version Not Supported") only_type false
        (plain (
            title (codes "505 HTTP Version Not Supported")
            ++ codes "<BODY><H1>505 HTTP Version Not Supported</H1>"
            ++ 10 ∷ codes "HTTP versions other than 0.9 and 1.0 are not supported in Boa."
            ++ 10 ∷ codes "<p><p>Version encountered: ")
          ∷ plain version
          ∷ plain (codes "<p><p></BODY></HTML>" ++ 10 ∷ [])
          ∷ [])
        (squash_ka r)
