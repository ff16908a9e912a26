-- ===== src/Examples/Requests.antt =====
-- The body relay and the output buffer at concrete inputs.
use boa.Common.{◌≡◌, refl, sym, some, [], ◌++◌, append-nil, arith, length, take, Bytes, codes}
use boa.Status.{write, body_write}
use boa.Decimal.{boa_atoi, checked, atoi, digits_value, simple_itoa}
use boa.Buffer.{OutBuf, buffer_end, wrote, stored, req_flush, IsOutBuf}
use boa.Buffer.Flush.{pending, req_flush-wrote}
use boa.Body.{ReqBody, put, write_again, init_cgi, start_body, write_body, bytes_to_write}
use boa.Body.Runs.{Runs, started, writes, Runs-init_cgi}

abbrev sending : OutBuf
sending = record { status = write; buffer_start = 2; content = codes "abcdef" }

sending-IsOutBuf : IsOutBuf sending
sending-IsOutBuf = record { ordered = ground arith; fits = ground arith }

req_flush-wrote_example :
    (pending sending ≡ take 3 (pending sending) ++ pending (req_flush (wrote 3) sending).0)
    × ((req_flush (wrote 3) sending).1 ≡ stored (buffer_end (req_flush (wrote 3) sending).0))
req_flush-wrote_example = req_flush-wrote 3 sending sending-IsOutBuf refl (ground arith)

-- A POST of four bytes that came with the header; three more bytes follow in the stream.
abbrev posted : ReqBody
posted = record {
  status = body_write;
  held = codes "data";
  filesize = 4;
  filepos = 0;
  post_data = [];
  response_status = 0;
}

posted_started : start_body 0 (some (codes "4")) (codes "dataxyz") ≡ some posted
unfolding start_body boa_atoi simple_itoa checked atoi digits_value
posted_started = refl

abbrev body : Bytes
body = codes "dataxyz"

posted-Runs : Runs body [] posted
posted-Runs = started 0 (some (codes "4")) body [] posted posted_started (sym (append-nil body))

-- Behind the write of all four bytes.
written-Runs : Runs body [] (write_body posted (put 4)).0
unfolding bytes_to_write
written-Runs = writes [] posted (put 4) posted-Runs refl (ground arith)

written_starts : (write_body (write_body posted (put 4)).0 write_again).1 ≡ init_cgi
unfolding write_body bytes_to_write
written_starts = refl

Runs-init_cgi_example :
    ((write_body posted (put 4)).0.post_data ≡ take (write_body posted (put 4)).0.filesize body)
    × (length (write_body posted (put 4)).0.post_data ≡ (write_body posted (put 4)).0.filesize)
Runs-init_cgi_example =
    Runs-init_cgi body [] (write_body posted (put 4)).0 write_again written-Runs written_starts
