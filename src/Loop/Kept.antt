-- ===== src/Loop/Kept.antt =====
-- No request is lost: the lists of the server behind get_request and behind the main loop.
use boa.Common.{
  sym, ap, ℕ, ◌+◌, ◌≤◌, ◌<◌, ◌≡◌, refl, sym, ap, Bool, true, false, Option, none, some, List, [],
  ◌∷◌, ◌++◌, append_assoc, arith, if◌then◌else◌, length, length-append,
}
use boa.Status.{Retval, blocked, finished, more}
use boa.Buffer.{Written}
use boa.Queue.Chain.{first}
use boa.Queue.Unlink.{Linked-at}
use boa.Loop.{
  Active, Server, Config, put_request, new_from, new_request, take_connection, Accepted,
  no_connection, closed_early, closed_late, connected, get_request,
}
use boa.Loop.Account.{turn-IsLists, turn-Misses, dequeue-Misses, malloc-Misses}
use boa.Loop.Invariant.{
  IsServer, IsMissing, EndsWith, stays, put_ready-IsLists, put_free-IsLists, free_request-EndsWith,
  block_request-EndsWith,
}
use boa.Loop.Rounds.{
  Inputs, run_request, settle_request, poll_connection, turn, process_loop, process_requests,
}

-- What new_request leaves: the same lists, or a request that stands in none of them.
abbrev NewEnd : List ℕ → List ℕ → Server × Option ℕ → Type 0
NewEnd readys blocks (s, none) = (frees : List ℕ) × IsServer s readys blocks frees
NewEnd readys blocks (s, some n) =
    (frees : List ℕ) × IsMissing n s readys blocks frees
    × (s.total_connections ≡ length readys + length blocks)

-- The lists are right, and the ready list is this one or has one new request in front.
abbrev pub Grows : List ℕ → Server → Type 0
Grows readys s =
    (us : List ℕ) × (blocks : List ℕ) × (frees : List ℕ) × (length us ≤ 1)
    × IsServer s (us ++ readys) blocks frees

new_from-NewEnd :
    (config : Config) (now : ℕ) (memory : Bool) (s : Server) (o : Option ℕ)
    (readys blocks frees : List ℕ)
    → IsServer s readys blocks frees
    → o ≡ first frees
    → NewEnd readys blocks (new_from config now memory s o)
unfolding new_from first
new_from-NewEnd config now memory s (some n) readys blocks [] i e = absurd (ground (arith, e))
new_from-NewEnd config now memory s (some n) readys blocks (k ∷ frees) i e =
    rw (same_number n k e) (
      frees,
      turn-Misses (
          dequeue-Misses s.queues.links s.request_free s.queues.request_ready s.queues.request_block
            s.next_number [] k frees readys blocks (turn-IsLists (turn-IsLists i.lists))),
      i.counted,
    )
  where
    number : Option ℕ → ℕ
    number none = 0
    number (some x) = x

    same_number : (n k : ℕ) → some n ≡ some k → n ≡ k
    same_number n k e = ap number e
new_from-NewEnd config now true s none readys blocks frees i e = (
  frees,
  malloc-Misses s.queues.links s.queues.request_ready s.queues.request_block s.request_free
      s.next_number readys blocks frees i.lists,
  i.counted,
)
new_from-NewEnd config now false s none readys blocks frees i e = (frees, i)

take_connection-Grows :
    (config : Config) (now : ℕ) (fd : Option (ℕ × Written)) (p : Server × Option ℕ)
    (readys blocks : List ℕ)
    → NewEnd readys blocks p
    → Grows readys (take_connection config now fd p)
unfolding take_connection
take_connection-Grows config now fd (s, none) readys blocks (frees, i) =
    ([], blocks, frees, omega arith, i)
take_connection-Grows config now none (s, some n) readys blocks (frees, m, c) = (
  [],
  blocks,
  n ∷ frees,
  omega arith,
  record { lists = put_free-IsLists n s readys blocks frees m; counted = c },
)
take_connection-Grows config now (some (fd, w)) (s, some n) readys blocks (frees, m, c) = (
  n ∷ [],
  blocks,
  frees,
  omega arith,
  record { lists = put_ready-IsLists n s readys blocks frees m; counted = omega (arith, c) },
)

-- get_request keeps the lists; a new connection comes to the head of the ready list.
pub get_request-Grows :
    (config : Config) (now : ℕ) (memory : Bool) (accepted : Accepted) (s : Server)
    (readys blocks frees : List ℕ)
    → IsServer s readys blocks frees
    → Grows readys (get_request config now memory accepted s)
unfolding get_request new_request
get_request-Grows config now memory no_connection s readys blocks frees i =
    ([], blocks, frees, omega arith, record { lists = i.lists; counted = i.counted })
get_request-Grows config now memory closed_early s readys blocks frees i =
    ([], blocks, frees, omega arith, i)
get_request-Grows config now memory closed_late s readys blocks frees i =
    take_connection-Grows config now none _ readys blocks (
      new_from-NewEnd config now memory s s.request_free readys blocks frees i
        i.lists.lists.queue_c.head_first)
get_request-Grows config now memory (connected fd w) s readys blocks frees i =
    take_connection-Grows config now (some (fd, w)) _ readys blocks (
      new_from-NewEnd config now memory s s.request_free readys blocks frees i
        i.lists.lists.queue_c.head_first)

module _ (config : Config) (handler : Active → Active × Retval) where
  poll_connection-Grows :
      (inputs : Inputs) (s : Server) (readys blocks frees : List ℕ)
      → IsServer s readys blocks frees
      → Grows readys (poll_connection config handler inputs s)
  poll_connection-Grows inputs s readys blocks frees i = by_pending s.pending_requests
    where
      by_pending :
          (b : Bool)
          → Grows readys
              (if b then get_request config inputs.now inputs.memory inputs.accepted s else s)
      by_pending true =
          get_request-Grows config inputs.now inputs.memory inputs.accepted s readys blocks frees i
      by_pending false = ([], blocks, frees, omega arith, i)

  settle_request-EndsWith :
      (inputs : Inputs) (n : ℕ) (r : Retval) (s : Server) (vs rest blocks frees : List ℕ)
      → IsServer s (vs ++ n ∷ rest) blocks frees
      → EndsWith rest (settle_request config handler inputs n r s)
  unfolding settle_request
  settle_request-EndsWith inputs n blocked s vs rest blocks frees i =
      block_request-EndsWith config n s vs rest blocks frees i
  settle_request-EndsWith inputs n finished s vs rest blocks frees i =
      free_request-EndsWith inputs.last_write n _ vs rest blocks frees
        (record { lists = i.lists; counted = i.counted })
  settle_request-EndsWith inputs n more s vs rest blocks frees i =
      stays _ n vs rest blocks frees (record { lists = i.lists; counted = i.counted })

  next_of :
      (s : Server) (vs : List ℕ) (n : ℕ) (rest blocks frees : List ℕ)
      → IsServer s (vs ++ n ∷ rest) blocks frees
      → s.queues.links.next n ≡ first rest
  next_of s vs n rest blocks frees i =
      (Linked-at s.queues.links none vs n rest i.lists.lists.queue_a.linked).1

  -- A round keeps the lists, and goes on to the request that stood behind this one.
  pub turn-EndsWith :
      (inputs : Inputs) (n : ℕ) (s : Server) (vs rest blocks frees : List ℕ)
      → IsServer s (vs ++ n ∷ rest) blocks frees
      → EndsWith rest (turn config handler inputs n s).0
        × ((turn config handler inputs n s).1 ≡ first rest)
  unfolding turn
  turn-EndsWith inputs n s vs rest blocks frees i =
      let a = run_request config handler inputs (s.request n) in
      let (us, bs, fs, short, j) =
        poll_connection-Grows inputs (put_request n a.0 s) (vs ++ n ∷ rest) blocks frees
          (record { lists = i.lists; counted = i.counted }) in
      let k = along (poll_connection config handler inputs (put_request n a.0 s)) us bs fs j in
      (
        settle_request-EndsWith inputs n a.1 _ (us ++ vs) rest bs fs k,
        next_of _ (us ++ vs) n rest bs fs k,
      )
    where
      along :
          (t : Server) (us bs fs : List ℕ)
          → IsServer t (us ++ (vs ++ n ∷ rest)) bs fs
          → IsServer t ((us ++ vs) ++ n ∷ rest) bs fs
      along t us bs fs j = rw (append_assoc us vs (n ∷ rest)) j

  process_loop-EndsWith :
      (is : List Inputs) (s : Server) (rest : List ℕ)
      → EndsWith rest s
      → length rest ≤ length is
      → EndsWith [] (process_loop config handler is (first rest) s).0
        × ((process_loop config handler is (first rest) s).1 ≡ none)
  unfolding process_loop first
  process_loop-EndsWith [] s [] e h = (e, refl)
  process_loop-EndsWith (i ∷ is) s [] e h = (e, refl)
  process_loop-EndsWith [] s (n ∷ rest) e h = absurd (omega (arith, h))
  process_loop-EndsWith (i ∷ is) s (n ∷ rest) (vs, blocks, frees, k) h =
      let (e, next) = turn-EndsWith i n s vs rest blocks frees k in
      rw (next) (process_loop-EndsWith is (turn config handler i n s).0 rest e (omega (arith, h)))

  -- For three well-formed lists that share no request, in which every allocated request stands
  -- exactly once, and as many rounds as there are ready requests and one more: whatever the
  -- handlers do with a request, whatever accept, malloc and write answer, process_requests comes
  -- to the end of the ready list, the lists are well formed and share no request, every allocated
  -- request, the new ones included, stands in exactly one of them and once, and the connections
  -- are counted.
  pub process_requests-IsServer :
      (start : Inputs) (is : List Inputs) (s : Server) (readys blocks frees : List ℕ)
      → IsServer s readys blocks frees
      → length readys < length is
      → ((process_requests config handler start is s).1 ≡ none)
        × (readys' : List ℕ) × (blocks' : List ℕ) × (frees' : List ℕ) × IsServer
            (process_requests config handler start is s).0
            readys'
            blocks'
            frees'
  unfolding process_requests
  process_requests-IsServer start is s readys blocks frees i h =
      let (us, bs, fs, short, j) = poll_connection-Grows start s readys blocks frees i in
      let after = poll_connection config handler start s in
      let (e, stop) =
        process_loop-EndsWith is after (us ++ readys) ([], bs, fs, j)
          (omega (arith, short, h, length-append us readys)) in
      let same : first (us ++ readys) ≡ after.queues.request_ready =
        sym j.lists.lists.queue_a.head_first in
      let (vs, blocks', frees', k) = e in rw (sym same) (stop, vs ++ [], blocks', frees', k)
