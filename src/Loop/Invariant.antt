-- ===== src/Loop/Invariant.antt =====
-- The lists of the server behind every step of the main loop.
use boa.Common.{
  ℕ, zero, suc, ◌+◌, ◌≡◌, inl, inr, Bool, true, false, not, ◌&&◌, List, [], ◌∷◌, ◌++◌, append_assoc,
  arith, ◌==◌, if◌then◌else◌, Bool-cases, length,
}
use boa.Status.{done, is_over}
use boa.Buffer.{OutBuf, Written, Flushed, error, stored, req_flush}
use boa.Queue.{block_request}
use boa.Response.KeepAlive.{keeps_connection}
use boa.Loop.{waiting_of, Active, Server, Config, put_request, put_ready, put_block, put_free}
use boa.Loop.Account.{
  IsLists, Misses, turn-IsLists, turn-Misses, dequeue-Misses, enqueue-IsLists, length-middle,
}
use boa.Loop.Rounds.{dequeue_ready, finish_request, release_request, after_last_flush, free_request}

-- The three lists are well formed and without a common request, every request that was allocated
-- stands in exactly one of them, and the connections are those of the ready and blocked requests.
pub record IsServer (s : Server) (readys blocks frees : List ℕ) : Type 0 where
  pub lists :
      IsLists s.queues.links s.queues.request_ready s.queues.request_block s.request_free
        s.next_number readys blocks frees
  pub counted : s.total_connections ≡ length readys + length blocks

-- The same for the lists, but for a request that stands in none.
abbrev pub IsMissing : ℕ → Server → (readys blocks frees : List ℕ) → Type 0
IsMissing n s =
    Misses n s.queues.links s.queues.request_ready s.queues.request_block s.request_free
      s.next_number

-- The lists are right, and the ready list ends with these.
abbrev pub EndsWith : List ℕ → Server → Type 0
EndsWith rest s =
    (vs : List ℕ) × (blocks : List ℕ) × (frees : List ℕ) × IsServer s (vs ++ rest) blocks frees

pub put_ready-IsLists :
    (n : ℕ) (s : Server) (readys blocks frees : List ℕ)
    → IsMissing n s readys blocks frees
    → IsLists
        (put_ready n s).queues.links
        (put_ready n s).queues.request_ready
        s.queues.request_block
        s.request_free
        s.next_number
        (n ∷ readys)
        blocks
        frees
put_ready-IsLists n s readys blocks frees m =
    enqueue-IsLists n s.queues.links s.queues.request_ready s.queues.request_block s.request_free
      s.next_number readys blocks frees m

pub put_block-IsLists :
    (n : ℕ) (s : Server) (readys blocks frees : List ℕ)
    → IsMissing n s readys blocks frees
    → IsLists
        (put_block n s).queues.links
        s.queues.request_ready
        (put_block n s).queues.request_block
        s.request_free
        s.next_number
        readys
        (n ∷ blocks)
        frees
put_block-IsLists n s readys blocks frees m = turn-IsLists (
    turn-IsLists (
      enqueue-IsLists n s.queues.links s.queues.request_block s.request_free s.queues.request_ready
        s.next_number blocks frees readys (turn-Misses m)))

pub put_free-IsLists :
    (n : ℕ) (s : Server) (readys blocks frees : List ℕ)
    → IsMissing n s readys blocks frees
    → IsLists
        (put_free n s).queues.links
        s.queues.request_ready
        s.queues.request_block
        (put_free n s).request_free
        s.next_number
        readys
        blocks
        (n ∷ frees)
put_free-IsLists n s readys blocks frees m = turn-IsLists (
    enqueue-IsLists n s.queues.links s.request_free s.queues.request_ready s.queues.request_block
      s.next_number frees readys blocks (turn-Misses (turn-Misses m)))

-- A request that leaves the ready list, while it still is counted as a connection.
pub dequeue_ready-Misses :
    (s : Server) (ws : List ℕ) (n : ℕ) (ys blocks frees : List ℕ)
    → IsServer s (ws ++ n ∷ ys) blocks frees
    → Misses n
        (dequeue_ready n s).queues.links
        (dequeue_ready n s).queues.request_ready
        s.queues.request_block
        s.request_free
        s.next_number
        (ws ++ ys)
        blocks
        frees
dequeue_ready-Misses s ws n ys blocks frees i =
    dequeue-Misses s.queues.links s.queues.request_ready s.queues.request_block s.request_free
      s.next_number ws n ys blocks frees i.lists

finish_request-EndsWith :
    (n : ℕ) (a : Active) (s : Server) (vs rest blocks frees : List ℕ)
    → IsMissing n s (vs ++ rest) blocks frees
    → s.total_connections ≡ suc (length (vs ++ rest) + length blocks)
    → EndsWith rest (finish_request n a s)
unfolding finish_request
finish_request-EndsWith n a s vs rest blocks frees m e =
    elim (Bool-cases (keeps_connection a.out.status a.keepalive a.response_status a.kacount)) [
      | inl k ↦ rw (k) (
        vs,
        n ∷ blocks,
        frees,
        record {
          lists = put_block-IsLists n s (vs ++ rest) blocks frees m;
          counted = omega (arith, e);
        },
      )
      | inr k ↦ rw (k) (
        vs,
        blocks,
        n ∷ frees,
        record {
          lists = put_free-IsLists n s (vs ++ rest) blocks frees m;
          counted = omega (arith, e);
        },
      )
    ]

release_request-EndsWith :
    (n : ℕ) (a : Active) (s : Server) (vs rest blocks frees : List ℕ)
    → IsServer s (vs ++ n ∷ rest) blocks frees
    → EndsWith rest (release_request n a s)
unfolding release_request
release_request-EndsWith n a s vs rest blocks frees i =
    finish_request-EndsWith n _ _ vs rest blocks frees
      (dequeue_ready-Misses s vs n rest blocks frees i)
      (omega (arith, i.counted, length-middle vs n rest))

-- The request stays where it is.
pub stays :
    (s : Server) (n : ℕ) (vs rest blocks frees : List ℕ)
    → IsServer s (vs ++ n ∷ rest) blocks frees
    → EndsWith rest s
stays s n vs rest blocks frees i =
    (vs ++ n ∷ [], blocks, frees, rw (append_assoc vs (n ∷ []) rest) i)

after_last_flush-EndsWith :
    (n : ℕ) (a : Active) (p : OutBuf × Flushed) (s : Server) (vs rest blocks frees : List ℕ)
    → IsServer s (vs ++ n ∷ rest) blocks frees
    → EndsWith rest (after_last_flush n a p s)
unfolding after_last_flush
after_last_flush-EndsWith n a (o, stored (suc left)) s vs rest blocks frees i =
    stays (put_request n (record a { out = o }) s) n vs rest blocks frees
      (record { lists = i.lists; counted = i.counted })
after_last_flush-EndsWith n a (o, error) s vs rest blocks frees i =
    release_request-EndsWith n _ s vs rest blocks frees i
after_last_flush-EndsWith n a (o, stored zero) s vs rest blocks frees i =
    release_request-EndsWith n _ s vs rest blocks frees i
after_last_flush-EndsWith n a (o, Flushed.blocked) s vs rest blocks frees i =
    release_request-EndsWith n _ s vs rest blocks frees i

pub free_request-EndsWith :
    (w : Written) (n : ℕ) (s : Server) (vs rest blocks frees : List ℕ)
    → IsServer s (vs ++ n ∷ rest) blocks frees
    → EndsWith rest (free_request w n s)
unfolding free_request
free_request-EndsWith w n s vs rest blocks frees i =
    by_test (not (length (s.request n).out.content == 0) && not (is_over (s.request n).out.status))
  where
    by_test :
        (b : Bool)
        → EndsWith rest (
            if b
            then after_last_flush n
                (s.request n)
                (req_flush w (record (s.request n).out { status = done }))
                s
            else release_request n (s.request n) s)
    by_test true = after_last_flush-EndsWith n _ _ s vs rest blocks frees i
    by_test false = release_request-EndsWith n _ s vs rest blocks frees i

pub block_request-EndsWith :
    (config : Config) (n : ℕ) (s : Server) (vs rest blocks frees : List ℕ)
    → IsServer s (vs ++ n ∷ rest) blocks frees
    → EndsWith rest (record s {
      queues = block_request config.have_sendfile (λ k. waiting_of (s.request k)) s.queues n;
    })
unfolding block_request
block_request-EndsWith config n s vs rest blocks frees i = (
  vs,
  n ∷ blocks,
  frees,
  record {
    lists =
        put_block-IsLists n (dequeue_ready n s) (vs ++ rest) blocks frees
          (dequeue_ready-Misses s vs n rest blocks frees i);
    counted = omega (arith, i.counted, length-middle vs n rest);
  },
)
