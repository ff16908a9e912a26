-- ===== src/Loop.antt =====
-- src/request.c: `new_request`, `get_request`, `sanitize_request`, `free_request` and
-- `process_requests`, over the lists of Queue.
--
-- Of a request the fields are kept that these functions use; `stream` is client_stream up to
-- client_stream_pos. The handlers of the statuses up to IOSHUFFLE are an argument, and so is what
-- the system calls answer. malloc(3) gives a number that it has not given before, or fails. setsockopt(2)
-- does not fail. What is freed, unmapped, closed and logged is left out, and the bytes that are read
-- and thrown away behind a POST.
pub mod Rounds
pub mod Select
pub mod Woken
pub mod Looked
pub mod Invariant
pub mod Kept
pub mod Lists
pub mod Account
use boa.Common.{
  ◌∙◌, sym, ap, ℕ, zero, suc, ◌+◌, ◌-◌, ◌*◌, ◌/◌, ◌%◌, ◌^◌, ◌≤◌, ◌<◌, min, ◌≡◌, refl, sym, ap, ap₂,
  ◌∙◌, ◌≢◌, ◌↔◌, ◌⊎◌, inl, inr, Bool, true, false, not, ◌&&◌, ◌||◌, Option, none, some, List, [],
  ◌∷◌, ◌++◌, map, append-nil, append_assoc, arith, ltb, leb, ◌==◌, if◌then◌else◌, within, ==_iff,
  eq-of-==, ==_refl, Bool-cases, Option-cases, and-eq-true, length, get_or, set, take, drop,
  replicate, length-append, length-set, length-take, length-drop, get_or-set_self, get_or-set_ne,
  All, All-append, Bytes, codes, str_eq, str_eq_iff, starts, suc-ne-zero, check_range,
  check_range-below, bool_eq, bool_eq_iff, member, take-append-drop, get_or-drop, take-length,
  drop_nil, drop-drop, drop_all, drop-append, take_all, take-append, starts_split,
}
use boa.Status.{
  m_get, http10, ReqStatus, read_header, done, timed_out, dead, is_over, Retval, blocked, finished,
  more, KaStatus, ka_inactive, ka_stopped,
}
use boa.Buffer.{OutBuf, Written, Flushed, error, stored, req_flush}
use boa.Queue.{
  Links, Queues, Waiting, FdSets, boa_read, boa_write, dequeue, enqueue, block_request, fd_set,
  fd_clr,
}
use boa.HttpDate.{Tm}
use boa.Response.{Reply}
use boa.Response.Replies.{send_r_service_unavailable}
use boa.Response.KeepAlive.{keeps_connection}

pub record Active : Type 0 where
  pub out : OutBuf
  pub keepalive : KaStatus
  pub kacount : ℕ
  pub response_status : ℕ
  pub has_logline : Bool
  pub stream : Bytes
  pub parse_pos : ℕ
  pub time_last : ℕ
  pub fd : ℕ
  pub data_fd : ℕ
  pub post_data_fd : ℕ

pub record Server : Type 0 where
  pub queues : Queues
  pub request_free : Option ℕ
  -- the requests, by their numbers, and the first number that malloc has not given
  pub request : ℕ → Active
  pub next_number : ℕ
  pub pending_requests : Bool
  pub total_connections : ℕ
  pub requests : ℕ
  pub errors : ℕ

pub record Config : Type 0 where
  pub ka_max : ℕ
  pub max_connections : ℕ
  pub have_sendfile : Bool
  -- for the reply to a connection too many
  pub response : boa.Response.Server

abbrev pub store : (ℕ → Active) → ℕ → Active → ℕ → Active
store f k a n = if k == n then a else f n

abbrev pub put_request : ℕ → Active → Server → Server
put_request n a s = record s { request = store s.request n a }

-- What block_request looks at.
abbrev pub waiting_of : Active → Waiting
waiting_of a = record {
  status = a.out.status;
  buffer_start = a.out.buffer_start;
  buffer_end = length a.out.content;
  fd = a.fd;
  data_fd = a.data_fd;
  post_data_fd = a.post_data_fd;
}

-- The part of a request that sanitize_request sets to zero, and the status.
abbrev pub cleared : Active → Active
cleared a = record a {
  out = record { status = read_header; buffer_start = 0; content = [] };
  keepalive = ka_inactive;
  response_status = 0;
  has_logline = false;
  parse_pos = 0;
  data_fd = 0;
  post_data_fd = 0;
}

-- With new_req 1, and with 0.
unfoldable pub sanitize_new : Config → ℕ → Active → Active
sanitize_new config now a =
    cleared (record a { kacount = config.ka_max; time_last = now; stream = [] })

unfoldable pub sanitize_again : Active → Active
sanitize_again a = cleared (record a { stream = drop a.parse_pos a.stream })

abbrev pub blank : Active
blank = record {
  out = record { status = read_header; buffer_start = 0; content = [] };
  keepalive = ka_inactive;
  kacount = 0;
  response_status = 0;
  has_logline = false;
  stream = [];
  parse_pos = 0;
  time_last = 0;
  fd = 0;
  data_fd = 0;
  post_data_fd = 0;
}

-- The number of the request; `none` is a failed allocation.
unfoldable pub new_from :
    Config → (now : ℕ) → (memory : Bool) → Server → Option ℕ → Server × Option ℕ
new_from config now memory s (some n) =
    let (l, free) = dequeue s.queues.links s.request_free n in
    (
      record s {
        queues = record s.queues { links = l };
        request_free = free;
        request = store s.request n (sanitize_new config now (s.request n));
      },
      some n,
    )
new_from config now true s none = (
  record s {
    request = store s.request s.next_number (sanitize_new config now blank);
    next_number = s.next_number + 1;
  },
  some s.next_number,
)
new_from config now false s none = (s, none)

unfoldable pub new_request : Config → (now : ℕ) → (memory : Bool) → Server → Server × Option ℕ
new_request config now memory s = new_from config now memory s s.request_free

-- How accept(2) and the calls behind it end: no connection; a descriptor that is closed again before
-- there is a request for it (not below FD_SETSIZE, or getsockname fails); one that is closed again
-- with the request put back (an address that is not printed, or fcntl fails); a new connection, with
-- what write(2) answers to the reply that refuses it.
pub data Accepted : Type 0 where
  no_connection closed_early closed_late : Accepted
  connected : (fd : ℕ) → Written → Accepted

abbrev pub put_ready : ℕ → Server → Server
put_ready n s =
    let (l, ready) = enqueue s.queues.links s.queues.request_ready n in
    record s { queues = record s.queues { links = l; request_ready = ready } }

abbrev pub put_block : ℕ → Server → Server
put_block n s =
    let (l, block) = enqueue s.queues.links s.queues.request_block n in
    record s { queues = record s.queues { links = l; request_block = block } }

abbrev pub put_free : ℕ → Server → Server
put_free n s =
    let (l, free) = enqueue s.queues.links s.request_free n in
    record s { queues = record s.queues { links = l }; request_free = free }

abbrev pub epoch : Tm
epoch = record {
  tm_sec = 0;
  tm_min = 0;
  tm_hour = 0;
  tm_mday = 1;
  tm_mon = 0;
  tm_year = 70;
  tm_wday = 4;
}

-- What the reply is made of: nothing of the request has been read, and the version and the method
-- are set for it.
abbrev pub faked : Active → Reply
faked a = record {
  method = m_get;
  http_version = http10;
  response_status = a.response_status;
  keepalive = a.keepalive;
  kacount = a.kacount;
  cgi_type = none;
  ranges = record { ranges = []; numranges = 0; pool = [] };
  filesize = 0;
  last_modified = epoch;
  request_uri = [];
  out = a.out;
}

-- One connection too many, without NO_RATE_LIMIT: the reply is sent, and the request is done.
unfoldable pub refuse_connection : boa.Response.Server → Written → Active → Active
refuse_connection s w a =
    let r = send_r_service_unavailable s w (faked a) in
    record a {
      out = record r.out { status = done };
      keepalive = r.keepalive;
      response_status = r.response_status;
    }

-- Behind new_request.
unfoldable pub take_connection : Config → ℕ → Option (ℕ × Written) → Server × Option ℕ → Server
take_connection config now fd (s, none) = s
take_connection config now none (s, some n) = put_free n s
take_connection config now (some (fd, w)) (s, some n) =
    let total = s.total_connections + 1 in
    let over = ltb config.max_connections total in
    let a = record (s.request n) { fd = fd; time_last = now; kacount = config.ka_max } in
    put_ready n (record s {
      request = store s.request n (if over then refuse_connection config.response w a else a);
      requests = s.requests + 1;
      total_connections = total;
      pending_requests = s.pending_requests && not over;
    })

unfoldable pub get_request : Config → (now : ℕ) → (memory : Bool) → Accepted → Server → Server
get_request config now memory no_connection s = record s { pending_requests = false }
get_request config now memory closed_early s = s
get_request config now memory closed_late s =
    take_connection config now none (new_request config now memory s)
get_request config now memory (connected fd w) s =
    take_connection config now (some (fd, w)) (new_request config now memory s)
