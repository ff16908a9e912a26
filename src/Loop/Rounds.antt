-- ===== src/Loop/Rounds.antt =====
-- src/request.c, `free_request` and `process_requests`.
use boa.Common.{
  ℕ, zero, suc, ◌+◌, ◌-◌, Bool, not, ◌&&◌, Option, none, some, List, [], ◌∷◌, ltb, ◌==◌,
  if◌then◌else◌, length,
}
use boa.Status.{done, timed_out, dead, is_over, Retval, blocked, finished, more, ka_stopped}
use boa.Buffer.{OutBuf, Written, Flushed, error, stored, req_flush}
use boa.Queue.{FdSets, boa_read, boa_write, dequeue, block_request, fd_set, fd_clr}
use boa.Response.KeepAlive.{keeps_connection}
use boa.Loop.{
  Active, Server, Config, store, put_request, waiting_of, sanitize_again, put_block, put_free,
  Accepted, get_request,
}

abbrev pub dequeue_ready : ℕ → Server → Server
dequeue_ready n s =
    let (l, ready) = dequeue s.queues.links s.queues.request_ready n in
    record s { queues = record s.queues { links = l; request_ready = ready } }

abbrev pub with_sets : (FdSets → FdSets) → Server → Server
with_sets f s = record s { queues = record s.queues { sets = f s.queues.sets } }

-- if (fd) BOA_FD_CLR(req, fd, ...)
abbrev pub clear_open : ℕ → FdSets → FdSets
clear_open data_fd sets = if data_fd == 0 then sets else fd_clr sets (data_fd, boa_read)

abbrev pub clear_post : ℕ → FdSets → FdSets
clear_post post_data_fd sets =
    if post_data_fd == 0 then sets else fd_clr sets (post_data_fd, boa_write)

-- The connection is used again, or closed.
unfoldable pub finish_request : ℕ → Active → Server → Server
finish_request n a s =
    if keeps_connection a.out.status a.keepalive a.response_status a.kacount
    then with_sets (λ sets. fd_clr (fd_set sets (a.fd, boa_read)) (a.fd, boa_write))
        (put_block n (record s {
          request =
              store s.request n
                (let again = sanitize_again a in record again { kacount = again.kacount - 1 });
          requests = s.requests + 1;
        }))
    else put_free n (
        with_sets (λ sets. fd_clr (fd_clr sets (a.fd, boa_read)) (a.fd, boa_write))
          (record s { request = store s.request n a; total_connections = s.total_connections - 1 }))

-- The status 408 for a request that has timed out unanswered.
abbrev pub answered : Active → Active
answered a = elim a.out.status [
  | timed_out ↦ if a.response_status == 0 then record a { response_status = 408 } else a
  | _ ↦ a
]

-- From the dequeue on.
unfoldable pub release_request : ℕ → Active → Server → Server
release_request n a s =
    let a = answered a in
    let s = dequeue_ready n s in
    let s = with_sets (λ sets. clear_post a.post_data_fd (clear_open a.data_fd sets)) s in
    finish_request n a
      (record s { errors = if ltb a.response_status 400 then s.errors else s.errors + 1 })

-- Behind the flush: bytes that are left keep the request in the ready list.
unfoldable pub after_last_flush : ℕ → Active → OutBuf × Flushed → Server → Server
after_last_flush n a (o, stored (suc left)) s = put_request n (record a { out = o }) s
after_last_flush n a (o, error) s =
    release_request n (record a { out = record o { status = dead } }) s
after_last_flush n a (o, f) s = release_request n (record a { out = o }) s

unfoldable pub free_request : Written → ℕ → Server → Server
free_request w n s =
    let a = s.request n in
    if not (length a.out.content == 0) && not (is_over a.out.status)
    then after_last_flush n a (req_flush w (record a.out { status = done })) s
    else release_request n a s

-- The flush in front of the `switch`: any number of bytes that are left counts as a success.
unfoldable pub flushed_first : Active → OutBuf × Flushed → Active × Retval
flushed_first a (o, error) = (record a { out = record o { status = dead } }, finished)
flushed_first a (o, Flushed.blocked) = (record a { out = o }, blocked)
flushed_first a (o, stored left) = (record a { out = o }, more)

-- The case DONE.
unfoldable pub flushed_done : Active → OutBuf × Flushed → Active × Retval
flushed_done a (o, error) = (record a { out = record o { status = dead } }, finished)
flushed_done a (o, Flushed.blocked) = (record a { out = o }, blocked)
flushed_done a (o, stored zero) = (record a { out = o }, finished)
flushed_done a (o, stored (suc left)) = (record a { out = o }, more)

-- What happens from outside in one round: the time, the answers of write(2) to the flush in front of
-- the `switch`, in DONE and in free_request, whether SIGTERM has come, and what get_request meets.
pub record Inputs : Type 0 where
  pub now : ℕ
  pub first_write : Written
  pub done_write : Written
  pub last_write : Written
  pub sigterm_flag : Bool
  pub memory : Bool
  pub accepted : Accepted

abbrev pub stop_keepalive : Active → Active
stop_keepalive a = record a { keepalive = ka_stopped }

-- The handlers of the statuses up to IOSHUFFLE.
module _ (config : Config) (handler : Active → Active × Retval) where
  unfoldable pub dispatch : Written → Active → Active × Retval
  dispatch w a = elim a.out.status [
    | done ↦ flushed_done a (req_flush w a.out)
    | timed_out ↦ (stop_keepalive (record a { out = record a.out { content = [] } }), finished)
    | dead ↦ (stop_keepalive (record a { out = record a.out { content = [] } }), finished)
    | _ ↦ handler a
  ]

  unfoldable pub first_flush : Written → Active → Active × Retval
  first_flush w a =
      if not (length a.out.content == 0) && not (is_over a.out.status)
      then flushed_first a (req_flush w a.out)
      else (a, more)

  unfoldable pub go_on : Written → Active × Retval → Active × Retval
  go_on w (a, more) = dispatch w a
  go_on w (a, r) = (a, r)

  -- A round for one request, up to the second `switch`.
  unfoldable pub run_request : Inputs → Active → Active × Retval
  run_request i a =
      let (a, r) = go_on i.done_write (first_flush i.first_write a) in
      (if i.sigterm_flag then stop_keepalive a else a, r)

  -- The second `switch`.
  unfoldable pub settle_request : Inputs → ℕ → Retval → Server → Server
  settle_request i n blocked s = record s {
    queues = block_request config.have_sendfile (λ k. waiting_of (s.request k)) s.queues n;
  }
  settle_request i n finished s =
      free_request i.last_write n (put_request n (record (s.request n) { time_last = i.now }) s)
  settle_request i n more s = put_request n (record (s.request n) { time_last = i.now }) s

  abbrev pub poll_connection : Inputs → Server → Server
  poll_connection i s =
      if s.pending_requests then get_request config i.now i.memory i.accepted s else s

  -- The body of the loop; the result is the next value of `current`.
  unfoldable pub turn : Inputs → ℕ → Server → Server × Option ℕ
  turn i n s =
      let (a, r) = run_request i (s.request n) in
      let s = poll_connection i (put_request n a s) in
      (settle_request i n r s, s.queues.links.next n)

  -- The loop, on one Inputs for each round; the result tells where `current` is in the end.
  unfoldable pub process_loop : List Inputs → Option ℕ → Server → Server × Option ℕ
  process_loop [] current s = (s, current)
  process_loop (i ∷ is) none s = (s, none)
  process_loop (i ∷ is) (some n) s = let (s, current) = turn i n s in process_loop is current s

  -- `first` is the answer to the get_request in front of the loop.
  unfoldable pub process_requests : (first : Inputs) → List Inputs → Server → Server × Option ℕ
  process_requests first is s =
      let s = poll_connection first s in process_loop is s.queues.request_ready s
