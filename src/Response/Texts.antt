-- ===== src/Response/Texts.antt =====
-- What the printing functions put into the buffer of a live request that has room for it.
use boa.Common.{
  Bool, Bytes, List, Option, [], ap, append-nil, append_assoc, arith, codes, false, if◌then◌else◌,
  length, length-append, ltb, none, refl, some, sym, true, ℕ, ◌++◌, ◌+◌, ◌-◌, ◌∙◌, ◌∷◌, ◌≡◌, ◌≤◌,
}
use boa.Status.{is_over}
use boa.Buffer.{OutBuf, buffer_end, buffer_size, req_write}
use boa.Buffer.Flush.{req_write-append}
use boa.Response.Files.{partial_texts, send_r_partial_content}
use boa.Response.{
  Range, hsts_texts, simple_itoa, first_range, range_texts, type_texts, part_texts, rfc822_time,
  ka_texts, header_texts, crlf, http_ver_string, Server, write_texts, Reply,
}

-- The texts, one behind the other.
unfoldable pub concat : List Bytes → Bytes
concat [] = []
concat (t ∷ ts) = t ++ concat ts

pub concat-append : (a b : List Bytes) → concat (a ++ b) ≡ concat a ++ concat b
unfolding concat
concat-append [] b = refl
concat-append (t ∷ a) b =
    ap (λ u. t ++ u) (concat-append a b) ∙ sym (append_assoc t (concat a) (concat b))

pub write_texts-append :
    (a b : List Bytes) (o : OutBuf) → write_texts b (write_texts a o) ≡ write_texts (a ++ b) o
unfolding write_texts
write_texts-append [] b o = refl
write_texts-append (t ∷ a) b o = write_texts-append a b (req_write t o).0

-- The request is alive and has room for the text.
abbrev pub HasRoom : Bytes → OutBuf → Type 0
HasRoom text o = (is_over o.status ≡ false) × (buffer_end o + length text ≤ buffer_size)

pub write_texts-content :
    (ts : List Bytes) (o : OutBuf)
    → HasRoom (concat ts) o
    → write_texts ts o ≡ record o { content = o.content ++ concat ts }
unfolding write_texts concat
write_texts-content [] o h = rw (append-nil o.content) refl
write_texts-content (t ∷ ts) o (live, room) =
    ap (λ (w : OutBuf × Option ℕ). write_texts ts w.0) one
    ∙ write_texts-content ts (record o { content = o.content ++ t })
        (live, omega (arith, sizes, length-append o.content t, room))
    ∙ ap (λ c. record o { content = c }) (append_assoc o.content t (concat ts))
  where
    sizes : length (t ++ concat ts) ≡ length t + length (concat ts)
    sizes = length-append t (concat ts)

    one : req_write t o ≡ (record o { content = o.content ++ t }, some (buffer_end o + length t))
    one = req_write-append t o live (omega (arith, sizes, room))

-- The pieces of a reply 206, in order.
unfoldable pub partial_pieces : Server → Reply → List Bytes
partial_pieces s r =
    (http_ver_string r.http_version ∷ (codes " 206 Partial Content" ++ crlf) ∷ [])
    ++ header_texts s
    ++ ka_texts s.ka_timeout r.kacount r.keepalive 206
    ++ (codes "Last-Modified: " ++ rfc822_time r.last_modified ++ crlf) ∷ []
    ++ partial_texts r.ranges
    ++ part_texts r.ranges.numranges
    ++ type_texts s r.request_uri
    ++ range_texts (first_range r.ranges.ranges) r.filesize
    ++ crlf ∷ []

partial_content_pieces :
    (s : Server) (r : Reply)
    → send_r_partial_content s r
      ≡ record r { response_status = 206; out = write_texts (partial_pieces s r) r.out }
unfolding send_r_partial_content partial_pieces partial_texts
partial_content_pieces s r = simp (write_texts-append, append_assoc) refl

-- A line of a header.
abbrev pub field : Bytes → Bytes → Bytes
field name value = name ++ codes ": " ++ value ++ crlf

-- The lines that every reply has.
unfoldable pub common_header : Server → Bytes → Bytes
common_header s connection =
    field (codes "Date") (rfc822_time s.now)
    ++ (if s.conceal_server_identity then [] else field (codes "Server") (codes "Boa/0.94.101wk"))
    ++ elim s.hsts_header [
      | none ↦ []
      | some hsts_header ↦ field (codes "Strict-Transport-Security") hsts_header
    ]
    ++ field (codes "Accept-Ranges") (codes "bytes")
    ++ connection

unfoldable pub keep_alive_header : ℕ → ℕ → Bytes
keep_alive_header ka_timeout kacount =
    field (codes "Connection") (codes "Keep-Alive")
    ++ field (codes "Keep-Alive")
        (codes "timeout=" ++ simple_itoa ka_timeout ++ codes ", max=" ++ simple_itoa kacount)

header_texts_lem :
    (s : Server) (connection : Bytes)
    → concat (header_texts s) ++ connection ≡ common_header s connection
unfolding header_texts common_header hsts_texts concat
header_texts_lem s connection = by_hsts s.conceal_server_identity s.hsts_header
  where
    by_hsts :
        (conceal : Bool) (hsts : Option Bytes)
        → concat (
              ((codes "Date: " ++ rfc822_time s.now ++ crlf) ∷ [])
              ++ (if conceal then [] else (codes "Server: Boa/0.94.101wk" ++ crlf) ∷ [])
              ++ hsts_texts hsts
              ++ (codes "Accept-Ranges: bytes" ++ crlf) ∷ [])
            ++ connection
          ≡ field (codes "Date") (rfc822_time s.now)
            ++ (if conceal then [] else field (codes "Server") (codes "Boa/0.94.101wk"))
            ++ elim hsts [
              | none ↦ []
              | some hsts_header ↦ field (codes "Strict-Transport-Security") hsts_header
            ]
            ++ field (codes "Accept-Ranges") (codes "bytes")
            ++ connection
    by_hsts true none = simp (append_assoc, append-nil) refl
    by_hsts false none = simp (append_assoc, append-nil) refl
    by_hsts true (some h) = simp (append_assoc, append-nil) refl
    by_hsts false (some h) = simp (append_assoc, append-nil) refl

-- The header for one range; `connection` is the connection phrase.
unfoldable pub one_range_header : Server → Reply → Range → Bytes → Bytes
one_range_header s r range connection =
    http_ver_string r.http_version
    ++ codes " 206 Partial Content"
    ++ crlf
    ++ common_header s connection
    ++ field (codes "Last-Modified") (rfc822_time r.last_modified)
    ++ field (codes "Content-Length") (simple_itoa (range.stop - range.start + 1))
    ++ concat (type_texts s r.request_uri)
    ++ field (codes "Content-Range") (
        codes "bytes "
        ++ simple_itoa range.start
        ++ codes "-"
        ++ simple_itoa range.stop
        ++ codes "/"
        ++ simple_itoa r.filesize)
    ++ crlf

abbrev pub connection_text : Server → Reply → Bytes
connection_text s r = concat (ka_texts s.ka_timeout r.kacount r.keepalive 206)

one_range_pieces :
    (s : Server) (r : Reply)
    → ltb 1 r.ranges.numranges ≡ false
    → concat (partial_pieces s r)
      ≡ one_range_header s r (first_range r.ranges.ranges) (connection_text s r)
unfolding partial_pieces partial_texts part_texts range_texts concat one_range_header
one_range_pieces s r one =
    rw (one, sym (header_texts_lem s (connection_text s r)))
      (simp (concat-append, append_assoc, append-nil) refl)

-- For a live request with at most one range counted and room in the buffer, the reply 206 is, in
-- order, the status line, the date, the server's name unless it is concealed, the strict-transport
-- line if there is one, the accepted ranges, the connection phrase, the date of the file, a
-- Content-Length of stop - start + 1, the content type, a Content-Range of the range and the size
-- of the file, and an empty line.
pub send_r_partial_content-one_range :
    (s : Server) (r : Reply)
    → r.ranges.numranges ≤ 1
    → HasRoom (one_range_header s r (first_range r.ranges.ranges) (connection_text s r)) r.out
    → send_r_partial_content s r ≡ record r {
      response_status = 206;
      out = record r.out {
        content =
            r.out.content
            ++ one_range_header s r (first_range r.ranges.ranges) (connection_text s r);
      };
    }
send_r_partial_content-one_range s r one (live, room) =
    partial_content_pieces s r
    ∙ ap (λ o. record r { response_status = 206; out = o })
        (write_texts-content (partial_pieces s r) r.out (live, omega (arith, ap length same, room))
          ∙ ap (λ t. record r.out { content = r.out.content ++ t }) same)
  where
    same :
        concat (partial_pieces s r)
        ≡ one_range_header s r (first_range r.ranges.ranges) (connection_text s r)
    same = one_range_pieces s r (ground (arith, one))
