-- ===== src/CgiHeader.antt =====
-- src/cgi_header.c, `process_cgi_header`: the header that a CGI program writes.
--
-- The output buffer grows from the start of the buffer of the request, the program's output stands
-- behind its middle. `text` is that output, from header_line up to header_end, and `place` is
-- header_line - buffer. A header that grows beyond `place` is written over the text. This is left
-- out for the reply to a location alone, whose texts are taken from `text` as it was before.
pub mod Ends
pub mod Body
use boa.Common.{
  ◌∙◌, sym, ap, ℕ, zero, suc, ◌+◌, ◌-◌, ◌*◌, ◌/◌, ◌%◌, ◌^◌, ◌≤◌, ◌<◌, min, ◌≡◌, refl, sym, ap, ap₂,
  ◌∙◌, ◌≢◌, ◌↔◌, ◌⊎◌, inl, inr, Bool, true, false, not, ◌&&◌, ◌||◌, Option, none, some, List, [],
  ◌∷◌, ◌++◌, map, append-nil, append_assoc, arith, ltb, leb, ◌==◌, if◌then◌else◌, within, ==_iff,
  eq-of-==, ==_refl, Bool-cases, Option-cases, and-eq-true, length, get_or, set, take, drop,
  replicate, length-append, length-set, length-take, length-drop, get_or-set_self, get_or-set_ne,
  All, All-append, Bytes, codes, str_eq, str_eq_iff, starts, suc-ne-zero, check_range,
  check_range-below, bool_eq, bool_eq_iff, member, take-append-drop, get_or-drop, take-length,
  drop_nil, drop-drop, drop_all, drop-append, take_all, take-append, starts_split,
}
use boa.Status.{HttpMethod, m_head, CgiStatus, cgi_buffer, cgi_done, Retval, finished, more, done}
use boa.Range.Parse.{starts_nocase}
use boa.Request.{c_string}
use boa.Buffer.{OutBuf, buffer_size, Written}
use boa.Pipe.{is_done}
use boa.Response.{Server, Reply, is_http09, is_head, flush}
use boa.Response.Files.{send_r_request_ok}
use boa.Response.Replies.{send_r_bad_gateway, send_r_bad_request, send_r_moved_temp, send_r_error}

pub record CgiOutput : Type 0 where
  pub reply : Reply
  pub cgi_status : CgiStatus
  pub text : Bytes
  pub place : ℕ

abbrev pub one_more : Option ℕ → Option ℕ
one_more none = none
one_more (some n) = some (suc n)

-- strstr (s, pattern), as the distance from s.
unfoldable pub find_text : Bytes → Bytes → Option ℕ
find_text pattern [] = if starts pattern [] then some 0 else none
find_text pattern (c ∷ s) =
    let rest = find_text pattern s in if starts pattern (c ∷ s) then some 0 else one_more rest

abbrev pub lf_cr_lf : Bytes
lf_cr_lf = 10 ∷ 13 ∷ 10 ∷ []

abbrev pub lf_lf : Bytes
lf_lf = 10 ∷ 10 ∷ []

-- The place `c` of the line feed in front of the empty line.
unfoldable pub header_end_at : Bytes → Option ℕ
header_end_at buf = elim (find_text lf_cr_lf buf) [ some c ↦ some c | none ↦ find_text lf_lf buf ]

-- if (*(c + 1) == '\r') c + 2 else c + 1
unfoldable pub behind_end : Bytes → ℕ → ℕ
behind_end text c = if get_or text (c + 1) 0 == 13 then c + 2 else c + 1

-- The text up to the first line feed, without carriage returns at its end.
unfoldable pub first_line : Bytes → Bytes
first_line [] = []
first_line (c ∷ s) =
    let rest = first_line s in if c == 10 then [] else if c == 13 then trim_cr rest else c ∷ rest
  where
    trim_cr : Bytes → Bytes
    trim_cr [] = []
    trim_cr (d ∷ t) = 13 ∷ d ∷ t

-- Line feeds and carriage returns are skipped.
unfoldable pub skip_crlf : Bytes → Bytes
skip_crlf [] = []
skip_crlf (c ∷ s) = let rest = skip_crlf s in if c == 10 || c == 13 then rest else c ∷ s

abbrev pub with_status_done : CgiOutput → CgiOutput
with_status_done p = record p {
  reply = record p.reply { out = record p.reply.out { status = done } };
}

abbrev pub to_buffer : CgiStatus → CgiStatus
to_buffer cgi_done = cgi_done
to_buffer _ = cgi_buffer

-- What stands in the place of the text behind a header in the same buffer.
unfoldable pub overwritten : (content : Bytes) (place : ℕ) (text : Bytes) → Bytes
overwritten content place text =
    take (length text) (drop place content) ++ drop (length content - place) text

module _ (s : Server) (w : Written) where
  -- Behind "Location: ".
  unfoldable pub location : CgiOutput → CgiOutput
  location p =
      let target = drop 10 p.text in
      let url = first_line target in
      let rest = skip_crlf (drop (length url + 1) target) in
      if get_or p.text 10 0 == b'/'
      then record p { reply = send_r_bad_request s w p.reply }
      else record p { reply = send_r_moved_temp s w url (c_string rest) p.reply }

  -- The text is moved behind what the output buffer holds, if there is room.
  unfoldable pub move_text : Bool → Reply → CgiStatus → Bytes → ℕ → CgiOutput × Retval
  move_text head reply cgi_status text place =
      if ltb buffer_size (length reply.out.content + length text)
      then (
        record {
          reply =
              send_r_error s w
                (record reply { out = record reply.out { buffer_start = 0; content = [] } });
          cgi_status = cgi_status;
          text = text;
          place = place;
        },
        finished,
      )
      else (
        record {
          reply =
              flush w
                (record reply { out = record reply.out { content = reply.out.content ++ text } });
          cgi_status = cgi_status;
          text = [];
          place = length reply.out.content + length text;
        },
        if head then finished else more,
      )

  -- Neither a location nor a status. `c` is the end of the header.
  unfoldable pub plain_header : CgiOutput → ℕ → CgiOutput × Retval
  plain_header p c =
      let head = is_head p.reply.method in
      let reply = send_r_request_ok s p.reply in
      let text = overwritten reply.out.content p.place p.text in
      move_text head reply (if head then cgi_done else p.cgi_status)
        (if head then take (behind_end text c) text else text) p.place

  -- The header ends at `c`.
  unfoldable pub by_header : CgiOutput → ℕ → CgiOutput × Retval
  by_header p c =
      if is_http09 p.reply.http_version
      then (
        record p {
          text = drop (behind_end p.text c) p.text;
          place = p.place + behind_end p.text c;
        },
        more,
      )
      else if starts_nocase (codes "status: ") p.text
      then (record p { text = codes "HTTP/1.0 " ++ drop 8 p.text; place = p.place - 1 }, more)
      else if starts_nocase (codes "location: ") p.text
      then (with_status_done (location p), more)
      else plain_header p c

  unfoldable pub process_cgi_header : CgiOutput → CgiOutput × Retval
  process_cgi_header p =
      let p = record p { cgi_status = to_buffer p.cgi_status } in
      elim (header_end_at (c_string p.text)) [
        | none ↦ (record p { reply = send_r_bad_gateway s w p.reply }, finished)
        | some c ↦ by_header p c
      ]
