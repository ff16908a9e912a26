-- ===== src/Body.antt =====
-- src/read.c: the body of a POST request on its way from the socket to the temporary file that
-- becomes the standard input of the program: the end of `read_header`, `read_body`, `write_body`.
--
-- The bytes between header_line and header_end are `held`; a pointer difference is a length. What
-- read(2) and write(2) return is an argument. An error reply keeps only its status code.
pub mod Relay
pub mod Runs
use boa.Common.{
  if◌then◌else◌, ℕ, zero, suc, ◌+◌, ◌-◌, ◌*◌, ◌/◌, ◌%◌, ◌^◌, ◌≤◌, ◌<◌, min, ◌≡◌, refl, sym, ap, ap₂,
  ◌∙◌, ◌≢◌, ◌↔◌, ◌⊎◌, inl, inr, Bool, true, false, not, ◌&&◌, ◌||◌, Option, none, some, List, [],
  ◌∷◌, ◌++◌, map, append-nil, append_assoc, arith, ltb, leb, ◌==◌, within, ==_iff, eq-of-==,
  ==_refl, Bool-cases, Option-cases, and-eq-true, length, get_or, set, take, drop, replicate,
  length-append, length-set, length-take, length-drop, get_or-set_self, get_or-set_ne, All,
  All-append, Bytes, codes, str_eq, str_eq_iff, starts, suc-ne-zero, check_range, check_range-below,
  bool_eq, bool_eq_iff, member,
}
use boa.Status.{ReqStatus, body_read, body_write, Retval, blocked, finished, more}
use boa.Decimal.{boa_atoi}

abbrev pub buffer_size : ℕ
buffer_size = 4096

pub record ReqBody : Type 0 where
  pub status : ReqStatus
  pub held : Bytes
  pub filesize : ℕ
  pub filepos : ℕ
  -- what the temporary file holds
  pub post_data : Bytes
  pub response_status : ℕ

-- What read(2) returns: EAGAIN or EWOULDBLOCK, another error, the end of the stream, or bytes.
pub data ReadAnswer : Type 0 where
  read_again read_error read_eof : ReadAnswer
  got : Bytes → ReadAnswer

-- What write(2) returns: EAGAIN or EWOULDBLOCK, EINTR, another error, or the number of bytes.
pub data WriteAnswer : Type 0 where
  write_again write_intr write_error : WriteAnswer
  put : ℕ → WriteAnswer

-- What a handler does last: it returns, or it returns what init_cgi returns.
pub data Return : Type 0 where
  ret : Retval → Return
  init_cgi : Return

-- The POST part of `read_header`, with the bytes that were read behind the header; `none` is a
-- reply 400. A single_post_limit of 0 is no limit.
unfoldable pub start_body : ℕ → Option Bytes → Bytes → Option ReqBody
start_body single_post_limit none available = none
start_body single_post_limit (some content_length) available = elim (boa_atoi content_length) [
  | none ↦ none
  | some size ↦
      if not (single_post_limit == 0) && ltb single_post_limit size
      then none
      else some record {
        status = body_write;
        held = if ltb size (length available) then take size available else available;
        filesize = size;
        filepos = 0;
        post_data = [];
        response_status = 0;
      }
]

-- bytes_to_read
unfoldable pub bytes_to_read : ReqBody → ℕ
bytes_to_read s =
    let bytes_free = buffer_size - length s.held in
    let wanted = s.filesize - s.filepos in if ltb bytes_free wanted then bytes_free else wanted

unfoldable pub read_body : ReqBody → ReadAnswer → ReqBody × Return
read_body s answer =
    if bytes_to_read s == 0 then (record s { status = body_write }, ret more) else elim answer [
      | read_again ↦ (s, ret blocked)
      | read_error ↦ (record s { response_status = 400 }, ret finished)
      | read_eof ↦ (record s { response_status = 400 }, ret finished)
      | got bytes ↦ (record s { status = body_write; held = s.held ++ bytes }, ret more)
    ]

-- bytes_to_write
unfoldable pub bytes_to_write : ReqBody → ℕ
bytes_to_write s =
    if ltb s.filesize (s.filepos + length s.held) then s.filesize - s.filepos else length s.held

unfoldable pub write_body : ReqBody → WriteAnswer → ReqBody × Return
write_body s answer =
    if bytes_to_write s == 0
    then if leb s.filesize s.filepos
      then (record s { held = [] }, init_cgi)
      else (record s { held = []; status = body_read }, ret more)
    else elim answer [
      | write_again ↦ (s, ret blocked)
      | write_intr ↦ (s, ret more)
      | write_error ↦ (s, ret finished)
      | put n ↦ (
        record s {
          filepos = s.filepos + n;
          post_data = s.post_data ++ take n s.held;
          held = drop n s.held;
        },
        ret more,
      )
    ]
