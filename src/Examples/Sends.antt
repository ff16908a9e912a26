-- ===== src/Examples/Sends.antt =====
-- The pipe relay, the sending of a range and the headers of replies at concrete inputs.
use boa.Common.{
  ℕ, ◌+◌, ◌≤◌, ◌≡◌, refl, ◌⊎◌, inl, inr, true, false, none, some, [], ◌∷◌, ◌++◌, arith, leb,
  replicate, Bytes, codes,
}
use boa.Status.{
  m_get, http10, ka_active, ioshuffle, pipe_read, dead, more, finished, cgi_buffer, Retval,
}
use boa.Body.{put, write_again}
use boa.Pipe.{Pipe, pipe_eof, waiting, write_from_pipe, read_from_pipe, after_read}
use boa.Pipe.Relay.{some_bytes, ended, IsPipe}
use boa.Pipe.Runs.{Runs, starts_with, reads, write_from_pipe-finished}
use boa.Pipe.Drain.{drain, drain-finished}
use boa.HttpDate.{Tm}
use boa.Range.{range}
use boa.Buffer.{wrote}
use boa.Decimal.{simple_itoa}
use boa.Response.{Server, Reply, first_range, ka_texts}
use boa.Response.Files.{send_r_partial_content}
use boa.Response.Texts.{
  HasRoom, concat, one_range_header, common_header, connection_text,
  send_r_partial_content-one_range,
}
use boa.Body.{got}
use boa.FileSend.Direct.{process_get-Progress, io_shuffle_sendfile-Progress}
use boa.FileSend.{process_get, copied, io_shuffle_sendfile, FileSend, sent, io_shuffle}
use boa.FileSend.Sent.{IsSend, Progress, io_shuffle-Progress}

abbrev no_header : Pipe → Pipe × Retval
no_header p = (p, more)

abbrev idle : Pipe
idle = record {
  status = pipe_read;
  cgi_status = cgi_buffer;
  content = [];
  header_line = 0;
  bytes_written = 0;
  client = [];
}

idle-IsPipe : (out : Bytes) → IsPipe out out idle
idle-IsPipe out = record {
  whole = refl;
  parsed = refl;
  ordered = omega arith;
  bounded = omega arith;
  not_stuck = inl (omega arith);
  has_more = inr (inl (λ e. ground (arith, e)));
  counted = refl;
}

-- "ab" is read and sent, and then the program ends.
abbrev one_read : Pipe
one_read = (read_from_pipe no_header idle (boa.Pipe.got (codes "ab")) (put 2)).0

abbrev at_end : Pipe
at_end = (read_from_pipe no_header one_read pipe_eof write_again).0

at_end-Runs : Runs no_header (codes "ab") [] at_end
unfolding read_from_pipe after_read write_from_pipe
at_end-Runs =
    reads [] [] one_read pipe_eof write_again
      (reads (codes "ab") [] idle (boa.Pipe.got (codes "ab")) (put 2)
        (starts_with (codes "ab") idle (idle-IsPipe (codes "ab")) refl) refl
        (some_bytes (codes "ab") [] (ground arith) (ground arith) refl) (ground arith))
      refl (ended refl) tt

write_from_pipe-finished_example :
    ((write_from_pipe at_end write_again).0.status ≡ dead)
    ⊎ ((write_from_pipe at_end write_again).0.client ≡ codes "ab")
unfolding read_from_pipe after_read write_from_pipe
write_from_pipe-finished_example =
    write_from_pipe-finished no_header (codes "ab") [] at_end write_again at_end-Runs refl refl

-- Three bytes wait, and the socket takes one at a time.
abbrev holding : Pipe
holding = record {
  status = pipe_read;
  cgi_status = cgi_buffer;
  content = codes "abc";
  header_line = 0;
  bytes_written = 0;
  client = [];
}

holding-IsPipe : IsPipe (codes "abc") [] holding
holding-IsPipe = record {
  whole = refl;
  parsed = refl;
  ordered = omega arith;
  bounded = omega arith;
  not_stuck = inl (omega arith);
  has_more = inl refl;
  counted = refl;
}

drain-finished_example :
    ((drain no_header (λ n. 1) (waiting holding + 4) holding).1 ≡ finished)
    × ((drain no_header (λ n. 1) (waiting holding + 4) holding).0.client ≡ codes "abc")
drain-finished_example =
    drain-finished no_header (λ n. 1) (λ n h. (omega arith, h)) (codes "abc") holding holding-IsPipe
      (inl refl)

abbrev pub midnight : Tm
midnight = record {
  tm_sec = 0;
  tm_min = 0;
  tm_hour = 0;
  tm_mday = 1;
  tm_mon = 0;
  tm_year = 100;
  tm_wday = 6;
}

abbrev pub server : Server
server = record {
  ka_timeout = 10;
  conceal_server_identity = false;
  hsts_header = none;
  default_charset = none;
  mime_table = replicate 47 [];
  default_type = codes "text/plain";
  now = midnight;
}

abbrev reply : Reply
reply = record {
  method = m_get;
  http_version = http10;
  response_status = 200;
  keepalive = ka_active;
  kacount = 5;
  cgi_type = none;
  ranges = record { ranges = range 1 2 ∷ []; numranges = 1; pool = [] };
  filesize = 4;
  last_modified = midnight;
  request_uri = codes "/a";
  out = record { status = ioshuffle; buffer_start = 0; content = [] };
}

abbrev file_send : FileSend
file_send = record { reply = reply; data_open = true; bytes_written = 0; client = [] }

file_send-IsSend : IsSend (codes "abcd") (codes "bc") (range 1 2) file_send
file_send-IsSend = record {
  ranged = refl;
  whole = refl;
  ordered = omega arith;
  forward = omega arith;
  inside = omega arith;
  single = refl;
}

io_shuffle-Progress_example :
    Progress
      (codes "abcd")
      (codes "bc")
      (io_shuffle server (wrote 0) file_send true (got (codes "b")) (sent 1)).0
unfolding boa.FileSend.file_bytes_to_read boa.FileSend.advance
io_shuffle-Progress_example =
    io_shuffle-Progress server (wrote 0) (codes "abcd") (codes "bc") (range 1 2) file_send true
      (got (codes "b")) (sent 1) refl (omega arith, omega arith, codes "cd", refl) (ground arith)
      file_send-IsSend

process_get-Progress_example :
    Progress
      (codes "abcd")
      (codes "bc")
      (process_get server (wrote 0) (codes "abcd") file_send (some (sent 1))).0
process_get-Progress_example =
    process_get-Progress server (wrote 0) 100 (codes "abcd") (codes "bc") (range 1 2) file_send
      (some (sent 1)) refl (ground arith) refl file_send-IsSend

io_shuffle_sendfile-Progress_example :
    Progress
      (codes "abcd")
      (codes "bc")
      (io_shuffle_sendfile server (wrote 0) file_send (copied (codes "bc"))).0
io_shuffle_sendfile-Progress_example =
    io_shuffle_sendfile-Progress server (wrote 0) 100 (codes "abcd") (codes "bc") (range 1 2)
      file_send (copied (codes "bc")) refl (ground arith, codes "d", refl) refl file_send-IsSend

leb-of : (a b : ℕ) → leb a b ≡ true → a ≤ b
leb-of a b e = ground (arith, e)

short : HasRoom (one_range_header server reply (range 1 2) (connection_text server reply)) reply.out
unfolding one_range_header common_header boa.Response.type_texts boa.Response.charset_of ka_texts
    boa.HttpDate.rfc822_time boa.HttpDate.year_loop boa.HttpDate.month_tab boa.HttpDate.day_tab
    boa.Hash.get_mime_type boa.Hash.extension_type boa.Hash.after_last_dot
    boa.Response.http_ver_string simple_itoa concat
short = (refl, leb-of _ _ refl)

send_r_partial_content-one_range_example : send_r_partial_content server reply ≡ record reply {
  response_status = 206;
  out = record reply.out {
    content =
        reply.out.content
        ++ one_range_header server reply (range 1 2) (connection_text server reply);
  };
}
send_r_partial_content-one_range_example =
    send_r_partial_content-one_range server reply (omega arith) short
