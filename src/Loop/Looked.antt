-- ===== src/Loop/Looked.antt =====
-- What one step of `fdset_update` makes of the lists.
use boa.Common.{
  ℕ, ◌+◌, ◌≡◌, refl, Bool, true, false, List, [], ◌∷◌, ◌++◌, append_assoc, arith, if◌then◌else◌,
}
use boa.Queue.{dequeue, enqueue, ready_request}
use boa.Queue.Requests.{is_set}
use boa.Loop.{Active, Server, Config}
use boa.Loop.Account.{
  occurs, length-middle, turn-IsLists, turn-Misses, dequeue-Misses, enqueue-IsLists,
}
use boa.Loop.Invariant.{IsServer}
use boa.Loop.Select.{expire, Watch, at_once, on, watch, watch_status, make_ready, look}

pub make_ready-IsServer :
    (config : Config) (n : ℕ) (s : Server) (readys vs rest frees : List ℕ)
    → IsServer s readys (vs ++ n ∷ rest) frees
    → IsServer (make_ready config n s) (n ∷ readys) (vs ++ rest) frees
unfolding ready_request
make_ready-IsServer config n s readys vs rest frees i = record {
  lists =
      enqueue-IsLists n _ s.queues.request_ready _ s.request_free s.next_number readys (vs ++ rest)
        frees
        (turn-Misses (
          turn-Misses (
            dequeue-Misses s.queues.links s.queues.request_block s.request_free
              s.queues.request_ready s.next_number vs n rest frees readys (turn-IsLists i.lists))));
  counted = omega (arith, i.counted, length-middle vs n rest);
}

-- What a step for the request `n` leaves of the lists: it is ready, or stays blocked. The blocked
-- list ends with `rest`.
pub data Looked (n : ℕ) (readys rest frees : List ℕ) (t : Server) : Type 0 where
  woken : (ws : List ℕ) → IsServer t (n ∷ readys) (ws ++ rest) frees → Looked n readys rest frees t
  waits : (ws : List ℕ) → IsServer t readys (ws ++ rest) frees → Looked n readys rest frees t

pub look-Looked :
    (config : Config) (n : ℕ) (w : Watch) (s : Server) (readys vs rest frees : List ℕ)
    → IsServer s readys (vs ++ n ∷ rest) frees
    → Looked n readys rest frees (look config n w s)
unfolding look
look-Looked config n at_once s readys vs rest frees i =
    woken vs (make_ready-IsServer config n s readys vs rest frees i)
look-Looked config n (on w again) s readys vs rest frees i = by_set (is_set s.queues.sets w) again
  where
    stay : (t : Server) → IsServer t readys (vs ++ n ∷ rest) frees → Looked n readys rest frees t
    stay t j = waits (vs ++ n ∷ []) (rw (append_assoc vs (n ∷ []) rest) j)

    by_set :
        (b again : Bool)
        → Looked n readys rest frees (
            if b
            then make_ready config n s
            else if again
            then record s { queues = record s.queues { sets = boa.Queue.fd_set s.queues.sets w } }
            else s)
    by_set true again = woken vs (make_ready-IsServer config n s readys vs rest frees i)
    by_set false true = stay _ (record { lists = i.lists; counted = i.counted })
    by_set false false = stay s i

-- The requests themselves are left alone.
pub look-request :
    (config : Config) (n : ℕ) (w : Watch) (s : Server) → (look config n w s).request ≡ s.request
unfolding look
look-request config n at_once s = refl
look-request config n (on w again) s = by_set (is_set s.queues.sets w) again
  where
    by_set :
        (b again : Bool)
        → (if b
            then make_ready config n s
            else if again
            then record s { queues = record s.queues { sets = boa.Queue.fd_set s.queues.sets w } }
            else s).request
          ≡ s.request
    by_set true again = refl
    by_set false true = refl
    by_set false false = refl

pub watch-expired :
    (have_sendfile : Bool) (a : Active) → watch have_sendfile (expire true a) ≡ at_once
unfolding watch watch_status
watch-expired have_sendfile a = ground arith

pub occurs-append : (x : ℕ) (xs ys : List ℕ) → occurs x (xs ++ ys) ≡ occurs x xs + occurs x ys
unfolding occurs
occurs-append x [] ys = omega arith
occurs-append x (y ∷ xs) ys = omega (arith, occurs-append x xs ys)
