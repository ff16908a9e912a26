-- ===== src/Loop/Select.antt =====
-- src/select.c, `fdset_update`, for a build with or without sendfile. The sets are what select(2)
-- has left of them. The clock does not go back.
use boa.Common.{
  ℕ, zero, suc, ◌-◌, Bool, true, false, not, ◌&&◌, ◌||◌, Option, none, some, ltb, leb, ◌==◌,
  if◌then◌else◌, length,
}
use boa.Status.{
  ReqStatus, ioshuffle, write, pipe_write, body_write, pipe_read, done, timed_out, dead,
}
use boa.Queue.{Direction, boa_read, boa_write, fd_set, ready_request}
use boa.Queue.Requests.{is_set}
use boa.Loop.{Active, Server, Config, put_request, waiting_of}

abbrev pub request_timeout : ℕ
request_timeout = 60

-- Whether the request has waited for too long.
unfoldable pub expired : (ka_max ka_timeout now : ℕ) → Active → Bool
expired ka_max ka_timeout now a =
    (ltb a.kacount ka_max && leb ka_timeout (now - a.time_last) && not a.has_logline)
    || ltb request_timeout (now - a.time_last)

abbrev pub expire : Bool → Active → Active
expire b a = if b then record a { out = record a.out { status = timed_out } } else a

-- What makes the request ready: nothing more, or a descriptor, which is set again or not.
pub data Watch : Type 0 where
  at_once : Watch
  on : ℕ × Direction → (again : Bool) → Watch

-- The `switch`.
unfoldable pub watch_status : Bool → Active → ReqStatus → Watch
watch_status have_sendfile a ioshuffle =
    if not have_sendfile && length a.out.content == a.out.buffer_start
    then on (a.data_fd, boa_read) false
    else on (a.fd, boa_write) true
watch_status have_sendfile a write = on (a.fd, boa_write) true
watch_status have_sendfile a pipe_write = on (a.fd, boa_write) true
watch_status have_sendfile a body_write = on (a.post_data_fd, boa_write) true
watch_status have_sendfile a pipe_read = on (a.data_fd, boa_read) true
watch_status have_sendfile a done = on (a.fd, boa_write) true
watch_status have_sendfile a timed_out = at_once
watch_status have_sendfile a dead = at_once
watch_status have_sendfile a _ = on (a.fd, boa_read) true

-- status < DONE
abbrev pub is_before_done : ReqStatus → Bool
is_before_done done = false
is_before_done timed_out = false
is_before_done dead = false
is_before_done _ = true

unfoldable pub watch : Bool → Active → Watch
watch have_sendfile a =
    if not (length a.out.content == 0) && is_before_done a.out.status
    then on (a.fd, boa_write) true
    else watch_status have_sendfile a a.out.status

abbrev pub make_ready : Config → ℕ → Server → Server
make_ready config n s = record s {
  queues = ready_request config.have_sendfile (λ k. waiting_of (s.request k)) s.queues n;
}

unfoldable pub look : Config → ℕ → Watch → Server → Server
look config n at_once s = make_ready config n s
look config n (on w again) s =
    if is_set s.queues.sets w
    then make_ready config n s
    else if again
    then record s { queues = record s.queues { sets = fd_set s.queues.sets w } }
    else s

-- The body of the loop.
unfoldable pub update_one : Config → (ka_timeout now : ℕ) → ℕ → Server → Server
update_one config ka_timeout now n s =
    let a = expire (expired config.ka_max ka_timeout now (s.request n)) (s.request n) in
    look config n (watch config.have_sendfile a) (put_request n a s)

-- On as much fuel as there are blocked requests; the result tells where `current` is in the end.
unfoldable pub update_loop :
    Config → (ka_timeout now fuel : ℕ) → (current : Option ℕ) → Server → Server × Option ℕ
update_loop config ka_timeout now zero current s = (s, current)
update_loop config ka_timeout now (suc fuel) none s = (s, none)
update_loop config ka_timeout now (suc fuel) (some n) s =
    update_loop config ka_timeout now fuel (s.queues.links.next n)
      (update_one config ka_timeout now n s)

unfoldable pub fdset_update : Config → (ka_timeout now fuel : ℕ) → Server → Server × Option ℕ
fdset_update config ka_timeout now fuel s =
    update_loop config ka_timeout now fuel s.queues.request_block s
