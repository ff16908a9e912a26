-- ===== src/Get/Header.antt =====
-- The header of a whole file: what it leaves of the reply.
use boa.Common.{
  ◌+◌, ◌≤◌, ◌≡◌, refl, inl, inr, true, false, ◌||◌, Option, none, some, List, [], ◌∷◌, ◌++◌, arith,
  ltb, ◌==◌, if◌then◌else◌, Bool-cases, length, length-append, Bytes, codes,
}
use boa.Status.{CgiType, is_over}
use boa.Buffer.{req_write, buffer_size, OutBuf, buffer_end}
use boa.Decimal.{simple_itoa}
use boa.HttpDate.{rfc822_time}
use boa.Response.{
  type_texts, ka_texts, header_texts, http_ver_string, print_texts, crlf, print_http_headers,
  print_content_type, print_last_modified, print_content_length, write_texts, is_http09, Server,
  Reply,
}
use boa.Response.Files.{send_r_request_ok}

abbrev pub IsOrdered : OutBuf → Type 0
IsOrdered o = o.buffer_start ≤ buffer_end o

req_write-IsOrdered : (o : OutBuf) (msg : Bytes) → IsOrdered o → IsOrdered (req_write msg o).0
unfolding req_write
req_write-IsOrdered o msg h = elim (Bool-cases (length msg == 0 || is_over o.status)) [
  | inl e ↦ rw (e) h
  | inr e ↦ elim (Bool-cases (ltb buffer_size (buffer_end o + length msg))) [
    | inl l ↦ rw (e, l) h
    | inr l ↦ rw (e, l) (omega (arith, h, length-append o.content msg))
  ]
]

write_texts-IsOrdered :
    (texts : List Bytes) (o : OutBuf) → IsOrdered o → IsOrdered (write_texts texts o)
unfolding write_texts
write_texts-IsOrdered [] o h = h
write_texts-IsOrdered (t ∷ texts) o h =
    write_texts-IsOrdered texts (req_write t o).0 (req_write-IsOrdered o t h)

-- The reply of a whole file keeps the ranges and the method, and the buffer in order.
pub record IsOk (r r' : Reply) : Type 0 where
  pub ranges : r'.ranges ≡ r.ranges
  pub method : r'.method ≡ r.method
  pub status : r'.response_status ≡ 200
  pub ordered : IsOrdered r'.out

pub send_r_request_ok-IsOk :
    (s : Server) (r : Reply) → IsOrdered r.out → IsOk r (send_r_request_ok s r)
unfolding send_r_request_ok
send_r_request_ok-IsOk s r h = elim (Bool-cases (is_http09 r.http_version)) [
  | inl e ↦ rw (e) (record { ranges = refl; method = refl; status = refl; ordered = h })
  | inr e ↦ rw (e) (by_type r.cgi_type)
]
  where
    base : Reply
    base = record r { response_status = 200 }

    headed : Reply
    headed =
        print_http_headers s
          (print_texts (http_ver_string base.http_version ∷ (codes " 200 OK" ++ crlf) ∷ []) base)

    full : Reply
    full =
        print_texts (crlf ∷ [])
          (print_content_type s (print_last_modified (print_content_length headed)))

    ordered_headed : IsOrdered headed.out
    ordered_headed =
        write_texts-IsOrdered (ka_texts s.ka_timeout r.kacount r.keepalive 200)
          (write_texts (header_texts s) opening)
          (write_texts-IsOrdered (header_texts s) opening (
            write_texts-IsOrdered (http_ver_string r.http_version ∷ (codes " 200 OK" ++ crlf) ∷ [])
              r.out h))
      where
        opening : OutBuf
        opening =
            write_texts (http_ver_string r.http_version ∷ (codes " 200 OK" ++ crlf) ∷ []) r.out

    ordered_full : IsOrdered full.out
    ordered_full = write_texts-IsOrdered (crlf ∷ []) (print_content_type s dated).out (
        write_texts-IsOrdered (type_texts s r.request_uri) dated.out (
          write_texts-IsOrdered
            ((codes "Last-Modified: " ++ rfc822_time r.last_modified ++ crlf) ∷ [])
            (print_content_length headed).out
            (write_texts-IsOrdered (codes "Content-Length: " ∷ simple_itoa r.filesize ∷ crlf ∷ [])
              headed.out ordered_headed)))
      where
        dated : Reply
        dated = print_last_modified (print_content_length headed)

    by_type :
        (t : Option CgiType)
        → IsOk r (if (elim t [ none ↦ true | some k ↦ false ]) then full else headed)
    by_type none = record { ranges = refl; method = refl; status = refl; ordered = ordered_full }
    by_type (some k) = record {
      ranges = refl;
      method = refl;
      status = refl;
      ordered = ordered_headed;
    }
