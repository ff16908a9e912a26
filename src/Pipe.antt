-- ===== src/Pipe.antt =====
-- src/pipe.c: the output of a CGI program on its way to the client: `read_from_pipe` and
-- `write_from_pipe`.
--
-- `content` is what the buffer of the request holds up to header_end, and header_line stands at
-- `header_line`; the NUL behind header_end is left out. The bytes that the client has got are
-- `client`. What read(2) and write(2) return is an argument. process_cgi_header is an argument.
pub mod Relay
pub mod Runs
pub mod Drain
use boa.Common.{
  ◌∙◌, sym, ap, ℕ, zero, suc, ◌+◌, ◌-◌, ◌*◌, ◌/◌, ◌%◌, ◌^◌, ◌≤◌, ◌<◌, min, ◌≡◌, refl, sym, ap, ap₂,
  ◌∙◌, ◌≢◌, ◌↔◌, ◌⊎◌, inl, inr, Bool, true, false, not, ◌&&◌, ◌||◌, Option, none, some, List, [],
  ◌∷◌, ◌++◌, map, append-nil, append_assoc, arith, ltb, leb, ◌==◌, if◌then◌else◌, within, ==_iff,
  eq-of-==, ==_refl, Bool-cases, Option-cases, and-eq-true, length, get_or, set, take, drop,
  replicate, length-append, length-set, length-take, length-drop, get_or-set_self, get_or-set_ne,
  All, All-append, Bytes, codes, str_eq, str_eq_iff, starts, suc-ne-zero, check_range,
  check_range-below, bool_eq, bool_eq_iff, member, take-append-drop, get_or-drop, take-length,
}
use boa.Status.{
  ReqStatus, pipe_read, pipe_write, dead, Retval, blocked, finished, more, CgiStatus, cgi_parse,
  cgi_buffer, cgi_done,
}
use boa.Body.{WriteAnswer, write_again, write_intr, write_error, put, buffer_size}

pub record Pipe : Type 0 where
  pub status : ReqStatus
  pub cgi_status : CgiStatus
  pub content : Bytes
  pub header_line : ℕ
  pub bytes_written : ℕ
  pub client : Bytes

-- What read(2) returns: EINTR, EAGAIN or EWOULDBLOCK, another error, the end, or bytes.
pub data PipeAnswer : Type 0 where
  pipe_intr pipe_again pipe_error pipe_eof : PipeAnswer
  got : Bytes → PipeAnswer

-- header_end - header_line
abbrev pub waiting : Pipe → ℕ
waiting p = length p.content - p.header_line

-- strstr (s, text) != NULL
unfoldable pub contains : Bytes → Bytes → Bool
contains text [] = starts text []
contains text (c ∷ s) = starts text (c ∷ s) || contains text s

-- The bytes in front of the first NUL.
unfoldable pub c_string : Bytes → Bytes
c_string [] = []
c_string (c ∷ s) = let rest = c_string s in if c == 0 then [] else c ∷ rest

-- The end of a header: LF CR LF or LF LF behind header_line.
unfoldable pub has_header_end : Pipe → Bool
has_header_end p =
    let buf = c_string (drop p.header_line p.content) in
    contains (10 ∷ 13 ∷ 10 ∷ []) buf || contains (10 ∷ 10 ∷ []) buf

abbrev pub is_parse : CgiStatus → Bool
is_parse cgi_parse = true
is_parse _ = false

abbrev pub is_done : CgiStatus → Bool
is_done cgi_done = true
is_done _ = false

-- BUFFER_SIZE - (req->header_end - req->buffer - 1)
abbrev pub bytes_to_read : Pipe → ℕ
bytes_to_read p = buffer_size + 1 - length p.content

-- header_end = header_line = buffer
abbrev pub rewind : Pipe → Pipe
rewind p = record p { status = pipe_read; content = []; header_line = 0 }

unfoldable pub write_from_pipe : Pipe → WriteAnswer → Pipe × Retval
write_from_pipe p answer =
    if waiting p == 0
    then if is_done p.cgi_status then (p, finished) else (rewind p, more)
    else elim answer [
      | write_again ↦ (p, blocked)
      | write_intr ↦ (p, more)
      | write_error ↦ (record p { status = dead }, finished)
      | put n ↦
          let p' = record p {
            header_line = p.header_line + n;
            bytes_written = p.bytes_written + n;
            client = p.client ++ take n (drop p.header_line p.content);
          } in
          (if n == waiting p then rewind p' else p', more)
    ]

module _ (process_cgi_header : Pipe → Pipe × Retval) where
  -- Behind a read that gave bytes. `answer` is for the write that may follow.
  unfoldable pub after_read : Pipe → WriteAnswer → Pipe × Retval
  after_read p answer =
      if is_parse p.cgi_status
      then if has_header_end p
        then process_cgi_header (record p { cgi_status = cgi_done })
        else (p, more)
      else write_from_pipe p answer

  unfoldable pub read_from_pipe : Pipe → PipeAnswer → WriteAnswer → Pipe × Retval
  read_from_pipe p answer next =
      if bytes_to_read p == 0
      then if is_parse p.cgi_status
        then process_cgi_header (record p { cgi_status = cgi_buffer })
        else (record p { status = pipe_write }, more)
      else elim answer [
        | pipe_intr ↦ (p, more)
        | pipe_again ↦ (p, blocked)
        | pipe_error ↦ (record p { status = dead }, finished)
        | pipe_eof ↦
            if is_parse p.cgi_status
            then process_cgi_header (record p { status = pipe_write; cgi_status = cgi_done })
            else (record p { status = pipe_write; cgi_status = cgi_done }, more)
        | got bytes ↦ after_read (record p { content = p.content ++ bytes }) next
      ]
