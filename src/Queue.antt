-- ===== src/Queue.antt =====
-- src/queue.c: the lists of ready and of blocked requests, linked through the requests
-- themselves, and the descriptors the main loop waits for (src/defines.h, the select build).
-- A request is its number, NULL is `none`; a store gives the links of every request.
pub mod Chain
pub mod Insert
pub mod Unlink
pub mod Moves
pub mod Requests
use Prim.Native.Nat.{max}
use boa.Common.{
  if◌then◌else◌, ℕ, zero, suc, ◌+◌, ◌-◌, ◌*◌, ◌/◌, ◌%◌, ◌^◌, ◌≤◌, ◌<◌, min, ◌≡◌, refl, sym, ap, ap₂,
  ◌∙◌, ◌≢◌, ◌↔◌, ◌⊎◌, inl, inr, Bool, true, false, not, ◌&&◌, ◌||◌, Option, none, some, List, [],
  ◌∷◌, ◌++◌, map, append-nil, append_assoc, arith, ltb, leb, ◌==◌, within, ==_iff, eq-of-==,
  ==_refl, Bool-cases, Option-cases, and-eq-true, length, get_or, set, take, drop, replicate,
  length-append, length-set, length-take, length-drop, get_or-set_self, get_or-set_ne, All,
  All-append, Bytes, codes, str_eq, str_eq_iff, starts, suc-ne-zero, check_range, check_range-below,
  bool_eq, bool_eq_iff, member,
}
use boa.Status.{ReqStatus, ioshuffle, write, pipe_write, done, pipe_read, body_write}

unfoldable pub is : Option ℕ → ℕ → Bool
is none q = false
is (some p) q = p == q

pub record Links : Type 0 where
  pub next : ℕ → Option ℕ
  pub prev : ℕ → Option ℕ

unfoldable pub update : (ℕ → Option ℕ) → ℕ → Option ℕ → ℕ → Option ℕ
update f p v q = if p == q then v else f q

-- if (p) p->next = v;
unfoldable pub set_next : Links → Option ℕ → Option ℕ → Links
set_next h none v = h
set_next h (some p) v = record { next = update h.next p v; prev = h.prev }

-- if (p) p->prev = v;
unfoldable pub set_prev : Links → Option ℕ → Option ℕ → Links
set_prev h none v = h
set_prev h (some p) v = record { next = h.next; prev = update h.prev p v }

-- The links and the head behind the call.
unfoldable pub dequeue : Links → Option ℕ → ℕ → Links × Option ℕ
dequeue h head req =
    let head' = if is head req then h.next req else head in
    let h1 = set_next h (h.prev req) (h.next req) in
    let h2 = set_prev h1 (h1.next req) (h1.prev req) in
    let h3 = set_next h2 (some req) none in (set_prev h3 (some req) none, head')

unfoldable pub enqueue : Links → Option ℕ → ℕ → Links × Option ℕ
enqueue h head req =
    let h1 = set_prev h head (some req) in
    let h2 = set_next h1 (some req) head in (set_prev h2 (some req) none, some req)

-- The fields of a request that say what it waits for.
pub record Waiting : Type 0 where
  pub status : ReqStatus
  pub buffer_start : ℕ
  pub buffer_end : ℕ
  pub fd : ℕ
  pub data_fd : ℕ
  pub post_data_fd : ℕ

pub data Direction : Type 0 where
  boa_read boa_write : Direction

-- The descriptor and the set that the two `switch` statements choose, for a build with or without
-- sendfile. Behind the outer test buffer_end is 0.
unfoldable pub wait_of : Bool → Waiting → ℕ × Direction
wait_of have_sendfile w =
    if not (w.buffer_end == 0) then (w.fd, boa_write) else by_status have_sendfile w w.status
  where
    by_status : Bool → Waiting → ReqStatus → ℕ × Direction
    by_status have_sendfile w ioshuffle =
        if not have_sendfile && w.buffer_start == w.buffer_end
        then (w.data_fd, boa_read)
        else (w.fd, boa_write)
    by_status have_sendfile w write = (w.fd, boa_write)
    by_status have_sendfile w pipe_write = (w.fd, boa_write)
    by_status have_sendfile w done = (w.fd, boa_write)
    by_status have_sendfile w pipe_read = (w.data_fd, boa_read)
    by_status have_sendfile w body_write = (w.post_data_fd, boa_write)
    by_status have_sendfile w _ = (w.fd, boa_read)

-- block_read_fdset and block_write_fdset
pub record FdSets : Type 0 where
  pub reads : ℕ → Bool
  pub writes : ℕ → Bool
  pub max_fd : ℕ

abbrev pub put : (ℕ → Bool) → ℕ → Bool → ℕ → Bool
put f k b q = if k == q then b else f q

-- BOA_FD_SET and BOA_FD_CLR
unfoldable pub fd_set : FdSets → ℕ × Direction → FdSets
fd_set s (fd, boa_read) = record {
  reads = put s.reads fd true;
  writes = s.writes;
  max_fd = max s.max_fd fd;
}
fd_set s (fd, boa_write) = record {
  reads = s.reads;
  writes = put s.writes fd true;
  max_fd = max s.max_fd fd;
}

unfoldable pub fd_clr : FdSets → ℕ × Direction → FdSets
fd_clr s (fd, boa_read) = record {
  reads = put s.reads fd false;
  writes = s.writes;
  max_fd = s.max_fd;
}
fd_clr s (fd, boa_write) = record {
  reads = s.reads;
  writes = put s.writes fd false;
  max_fd = s.max_fd;
}

pub record Queues : Type 0 where
  pub links : Links
  pub request_ready : Option ℕ
  pub request_block : Option ℕ
  pub sets : FdSets

unfoldable pub block_request : Bool → (ℕ → Waiting) → Queues → ℕ → Queues
block_request have_sendfile waiting q req =
    let (l1, ready) = dequeue q.links q.request_ready req in
    let (l2, block) = enqueue l1 q.request_block req in
    record {
      links = l2;
      request_ready = ready;
      request_block = block;
      sets = fd_set q.sets (wait_of have_sendfile (waiting req));
    }

unfoldable pub ready_request : Bool → (ℕ → Waiting) → Queues → ℕ → Queues
ready_request have_sendfile waiting q req =
    let (l1, block) = dequeue q.links q.request_block req in
    let (l2, ready) = enqueue l1 q.request_ready req in
    record {
      links = l2;
      request_ready = ready;
      request_block = block;
      sets = fd_clr q.sets (wait_of have_sendfile (waiting req));
    }
