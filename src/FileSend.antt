-- ===== src/FileSend.antt =====
-- src/pipe.c: a range of a file on its way to the client: `io_shuffle` through the buffer of the
-- request, and `io_shuffle_sendfile`; and `process_get` of src/get.c, which writes from a mapped
-- file.
--
-- What lseek(2), read(2), write(2) and sendfile(2) answer is an argument, with EINTR left out, behind
-- which the call is made again. `client` is what the client has got from these calls. The numbers of
-- a range are below 2 ^ 63 where they become an off_t.
pub mod Sent
pub mod Direct
use boa.Common.{
  ◌∙◌, sym, ap, ℕ, zero, suc, ◌+◌, ◌-◌, ◌*◌, ◌/◌, ◌%◌, ◌^◌, ◌≤◌, ◌<◌, min, ◌≡◌, refl, sym, ap, ap₂,
  ◌∙◌, ◌≢◌, ◌↔◌, ◌⊎◌, inl, inr, Bool, true, false, not, ◌&&◌, ◌||◌, Option, none, some, List, [],
  ◌∷◌, ◌++◌, map, append-nil, append_assoc, arith, ltb, leb, ◌==◌, if◌then◌else◌, within, ==_iff,
  eq-of-==, ==_refl, Bool-cases, Option-cases, and-eq-true, length, get_or, set, take, drop,
  replicate, length-append, length-set, length-take, length-drop, get_or-set_self, get_or-set_ne,
  All, All-append, Bytes, codes, str_eq, str_eq_iff, starts, suc-ne-zero, check_range,
  check_range-below, bool_eq, bool_eq_iff, member, take-append-drop, get_or-drop, take-length,
  drop_nil, drop-drop, drop_all, drop-append,
}
use boa.Status.{ReqStatus, dead, Retval, blocked, finished, more, HttpMethod}
use boa.Body.{ReadAnswer, read_again, read_error, read_eof, got}
use boa.Range.{Range, RangeState}
use boa.Buffer.{OutBuf, buffer_end, buffer_size, Written}
use boa.Response.{Server, Reply, is_head, first_range, complete_response}

pub record FileSend : Type 0 where
  pub reply : Reply
  -- data_fd is not 0
  pub data_open : Bool
  pub bytes_written : ℕ
  pub client : Bytes

-- What write(2) answers: EAGAIN or EWOULDBLOCK, another error, or a count.
pub data SendAnswer : Type 0 where
  send_again send_error : SendAnswer
  sent : ℕ → SendAnswer

-- What sendfile(2) answers: EAGAIN or EWOULDBLOCK, another error, the bytes of the file that it has
-- copied to the socket, or ENOSYS, with what the calls of io_shuffle answer then.
pub data SendfileAnswer : Type 0 where
  sendfile_again sendfile_error : SendfileAnswer
  copied : Bytes → SendfileAnswer
  sendfile_nosys : (seeks : Bool) → ReadAnswer → SendAnswer → SendfileAnswer

abbrev pub current : FileSend → Range
current f = first_range f.reply.ranges.ranges

-- The first range starts behind the bytes that are taken from the file.
unfoldable pub advance : ℕ → RangeState → RangeState
advance n s = by_ranges s.ranges
  where
    by_ranges : List Range → RangeState
    by_ranges [] = s
    by_ranges (r ∷ rs) = record s { ranges = record r { start = r.start + n } ∷ rs }

abbrev pub kill : FileSend → FileSend
kill f = record f { reply = record f.reply { out = record f.reply.out { status = dead } } }

unfoldable pub completed : FileSend → Reply × Bool → FileSend × Retval
completed f (r, true) = (record f { reply = r }, more)
completed f (r, false) = (record f { reply = r }, finished)

unfoldable pub file_bytes_to_read : FileSend → ℕ
file_bytes_to_read f =
    min (buffer_size - buffer_end f.reply.out - 256) ((current f).stop - (current f).start + 1)

-- The buffer and the part of `io_shuffle` behind the read.
unfoldable pub shuffle_write : FileSend → SendAnswer → FileSend × Retval
shuffle_write f answer =
    let o = f.reply.out in
    let bytes_to_write = buffer_end o - o.buffer_start in
    let emptied = record o { buffer_start = 0; content = [] } in
    if bytes_to_write == 0
    then if f.data_open
      then (record f { reply = record f.reply { out = emptied } }, more)
      else (f, finished)
    else elim answer [
      | send_again ↦ (f, blocked)
      | send_error ↦ (kill f, finished)
      | sent n ↦ (
        record f {
          reply = record f.reply {
            out =
                if bytes_to_write == n
                then emptied
                else record o { buffer_start = o.buffer_start + n };
          };
          bytes_written = f.bytes_written + n;
          client = f.client ++ take n (drop o.buffer_start o.content);
        },
        more,
      )
    ]

-- `bytes` are read into the buffer.
abbrev pub filled : Bytes → FileSend → FileSend
filled bytes f = record f {
  reply = record f.reply {
    out = record f.reply.out { content = f.reply.out.content ++ bytes };
    ranges = advance (length bytes) f.reply.ranges;
  };
}

-- How many bytes sendfile(2) is asked for.
abbrev pub sendfile_bytes : ℕ → FileSend → ℕ
sendfile_bytes system_bufsize f = min ((current f).stop - (current f).start + 1) system_bufsize

module _ (s : Server) (w : Written) where
  -- The part of `io_shuffle` from the read on.
  unfoldable pub shuffle_read : FileSend → ReadAnswer → SendAnswer → FileSend × Retval
  shuffle_read f read_again answer =
      if buffer_end f.reply.out - f.reply.out.buffer_start == 0
      then (f, blocked)
      else shuffle_write f answer
  shuffle_read f read_error answer = (kill f, finished)
  shuffle_read f read_eof answer = shuffle_write (record f { data_open = false }) answer
  shuffle_read f (got bytes) answer =
      let f' = filled bytes f in
      if (current f').stop + 1 - (current f').start == 0
      then completed f' (complete_response s w f'.reply)
      else shuffle_write f' answer

  -- `seeks` is that lseek(2) succeeds.
  unfoldable pub io_shuffle : FileSend → Bool → ReadAnswer → SendAnswer → FileSend × Retval
  io_shuffle f seeks read_answer answer =
      if is_head f.reply.method
      then completed f (complete_response s w f.reply)
      else if ltb 0 (file_bytes_to_read f) && f.data_open
      then if seeks then shuffle_read f read_answer answer else (kill f, finished)
      else shuffle_write f answer

  -- Behind a sendfile(2) that has copied bytes.
  unfoldable pub sendfile_sent : FileSend → Bytes → FileSend × Retval
  sendfile_sent f taken =
      let f' = record f {
        reply = record f.reply { ranges = advance (length taken) f.reply.ranges };
        bytes_written = f.bytes_written + length taken;
        client = f.client ++ taken;
      } in
      if leb ((current f').stop + 1) (current f').start
      then completed f' (complete_response s w f'.reply)
      else (f', more)

  -- Behind a write(2) that has taken bytes.
  unfoldable pub get_sent : FileSend → Bytes → FileSend × Retval
  get_sent f taken =
      let f' = record f {
        reply = record f.reply { ranges = advance (length taken) f.reply.ranges };
        bytes_written = f.bytes_written + length taken;
        client = f.client ++ taken;
      } in
      if (current f').stop + 1 - (current f').start == 0
      then completed f' (complete_response s w f'.reply)
      else (f', more)

  -- An offset of 2 ^ 63 or more is negative as an off_t; behind the copy the offset is that of the
  -- byte behind the last one.
  unfoldable pub io_shuffle_sendfile : FileSend → SendfileAnswer → FileSend × Retval
  io_shuffle_sendfile f answer =
      if is_head f.reply.method
      then completed f (complete_response s w f.reply)
      else if leb (2 ^ 63) (current f).start
      then (kill f, finished)
      else elim answer [
        | sendfile_again ↦ (f, blocked)
        | sendfile_nosys seeks read_answer send_answer ↦ io_shuffle f seeks read_answer send_answer
        | sendfile_error ↦ (kill f, finished)
        | copied [] ↦ (f, blocked)
        | copied (c ∷ taken) ↦ sendfile_sent f (c ∷ taken)
      ]

  -- `process_get` of src/get.c: the range is written from the mapped file. `none` is a SIGBUS.
  unfoldable pub process_get : Bytes → FileSend → Option SendAnswer → FileSend × Retval
  process_get data_mem f answer =
      if is_head f.reply.method then completed f (complete_response s w f.reply) else elim answer [
        | none ↦ (kill f, finished)
        | some send_again ↦ (f, blocked)
        | some send_error ↦ (kill f, finished)
        | some (sent n) ↦ get_sent f (take n (drop (current f).start data_mem))
      ]
