-- ===== src/Buffer.antt =====
-- src/buffer.c: the output buffer of a request, with its two escaping writers and its flush.
--
-- `content` is the buffer up to `buffer_end`, so `buffer_end` is its length. The result -1 is
-- `none`. What `write` does is an argument of the flush.
pub mod Escape
pub mod Flush
use boa.Escape.{needs_escape, percent}
use boa.Status.{ReqStatus, dead, is_over}
use boa.Common.{
  if◌then◌else◌, ℕ, zero, suc, ◌+◌, ◌-◌, ◌*◌, ◌/◌, ◌%◌, ◌^◌, ◌≤◌, ◌<◌, min, ◌≡◌, refl, sym, ap, ap₂,
  ◌∙◌, ◌≢◌, ◌↔◌, ◌⊎◌, inl, inr, Bool, true, false, not, ◌&&◌, ◌||◌, Option, none, some, List, [],
  ◌∷◌, ◌++◌, map, append-nil, append_assoc, arith, ltb, leb, ◌==◌, within, ==_iff, eq-of-==,
  ==_refl, Bool-cases, Option-cases, and-eq-true, length, get_or, set, take, drop, replicate,
  length-append, length-set, length-take, length-drop, get_or-set_self, get_or-set_ne, All,
  All-append, Bytes, codes, str_eq, str_eq_iff, starts, suc-ne-zero, check_range, check_range-below,
  bool_eq, bool_eq_iff, member,
}

abbrev pub buffer_size : ℕ
buffer_size = 4096

pub record OutBuf : Type 0 where
  pub status : ReqStatus
  pub buffer_start : ℕ
  pub content : Bytes

abbrev pub buffer_end : OutBuf → ℕ
buffer_end o = length o.content

unfoldable pub req_write : Bytes → OutBuf → OutBuf × Option ℕ
req_write msg o =
    if length msg == 0 || is_over o.status
    then (o, some (buffer_end o))
    else if ltb buffer_size (buffer_end o + length msg)
    then (record o { status = dead }, none)
    else (record o { content = o.content ++ msg }, some (buffer_end o + length msg))

abbrev pub reset_output_buffer : OutBuf → OutBuf
reset_output_buffer o = record o { content = [] }

-- The skip count behind the byte `c`, and the bytes that `c` is copied as.
abbrev pub next_skip : ℕ → ℕ → ℕ
next_skip skip c = if c == b'%' then 2 else skip - 1

abbrev pub http_piece : ℕ → ℕ → Bytes
http_piece skip c = if next_skip skip c == 0 && needs_escape c then percent c [] else c ∷ []

-- The loop of `req_write_escape_http`: the input from `inp` on when it ends, and the content.
-- `left` falls by the number of bytes written.
unfoldable pub http_loop : Bytes → ℕ → ℕ → Bytes → Bytes × Bytes
http_loop [] left skip content = ([], content)
http_loop (c ∷ s) left skip content =
    let piece = http_piece skip c in
    let rest = http_loop s (left - length piece) (next_skip skip c) (content ++ piece) in
    if leb 3 left then rest else (c ∷ s, content)

abbrev pub html_piece : ℕ → Bytes
html_piece c =
    if c == b'>'
    then codes "&gt;"
    else if c == b'<'
    then codes "&lt;"
    else if c == b'&'
    then codes "&amp;"
    else if c == b'"'
    then codes "&quot;"
    else c ∷ []

unfoldable pub html_loop : Bytes → ℕ → Bytes → Bytes × Bytes
html_loop [] left content = ([], content)
html_loop (c ∷ s) left content =
    let piece = html_piece c in
    let rest = html_loop s (left - length piece) (content ++ piece) in
    if leb 6 left then rest else (c ∷ s, content)

-- The end of both writers: unread input kills the request.
unfoldable pub close_write : OutBuf → Bytes × Bytes → OutBuf × Option ℕ
close_write o ([], content) = (record o { content = content }, some (length content))
close_write o (c ∷ s, content) = (record o { content = content; status = dead }, none)

unfoldable pub req_write_escape_http : Bytes → OutBuf → OutBuf × Option ℕ
req_write_escape_http msg o = close_write o (http_loop msg (buffer_size - buffer_end o) 0 o.content)

unfoldable pub req_write_escape_html : Bytes → OutBuf → OutBuf × Option ℕ
req_write_escape_html msg o = close_write o (html_loop msg (buffer_size - buffer_end o) o.content)

-- What `write` answers: a count, EWOULDBLOCK or EAGAIN, or another error.
pub data Written : Type 0 where
  wrote : ℕ → Written
  would_block : Written
  failed : Written

-- -2, -1, and the bytes that are left.
pub data Flushed : Type 0 where
  error : Flushed
  blocked : Flushed
  stored : ℕ → Flushed

-- The last test of `req_flush`.
abbrev pub settle : OutBuf → OutBuf × Flushed
settle o =
    if o.buffer_start == buffer_end o
    then (record o { buffer_start = 0; content = [] }, stored 0)
    else (o, stored (buffer_end o))

unfoldable pub req_flush : Written → OutBuf → OutBuf × Flushed
req_flush w o =
    if is_over o.status
    then (o, error)
    else if buffer_end o - o.buffer_start == 0
    then settle o
    else elim w [
      | wrote n ↦ settle (record o { buffer_start = o.buffer_start + n })
      | would_block ↦ (o, blocked)
      | failed ↦ (record o { buffer_start = 0; content = []; status = dead }, error)
    ]

-- The pointers lie in the buffer, in order.
pub record IsOutBuf (o : OutBuf) : Type 0 where
  pub ordered : o.buffer_start ≤ buffer_end o
  pub fits : buffer_end o ≤ buffer_size
