-- ===== src/Queue/Requests.antt =====
-- `block_request` and `ready_request`: what they make of the two lists and of the sets of
-- descriptors the main loop waits for.
use boa.Common.{
  ℕ, ◌≡◌, refl, sym, ap, ◌∙◌, inl, inr, Bool, true, false, Option, some, List, [], ◌∷◌, ◌++◌, ◌==◌,
  eq-of-==, ==_refl, Bool-cases,
}
use boa.Queue.{
  put, Links, Queues, Waiting, FdSets, Direction, boa_read, boa_write, wait_of, fd_set, fd_clr,
  block_request, ready_request,
}
use boa.Queue.Chain.{first, Fresh}
use boa.Queue.Moves.{TwoQueues, Apart, Apart-first, move-TwoQueues}

-- The ready list and the blocked list of the server.
abbrev pub IsQueues : Queues → List ℕ → List ℕ → Type 0
IsQueues q readys blocks = TwoQueues q.links q.request_ready q.request_block readys blocks

-- The server waits for this descriptor.
unfoldable pub is_set : FdSets → ℕ × Direction → Bool
is_set s (fd, boa_read) = s.reads fd
is_set s (fd, boa_write) = s.writes fd

Apart-tail : (xs : List ℕ) (y : ℕ) (ys : List ℕ) → Apart xs (y ∷ ys) → Apart xs ys
unfolding Apart Fresh
Apart-tail [] y ys a = tt
Apart-tail (x ∷ xs) y ys ((f, fs), a) = (fs, Apart-tail xs y ys a)

Apart-first-cons : (xs : List ℕ) (y : ℕ) (ys : List ℕ) → Apart xs (y ∷ ys) → Fresh (some y) xs
unfolding first
Apart-first-cons xs y ys a = Apart-first xs (y ∷ ys) a

pub Apart-sym : (xs ys : List ℕ) → Apart xs ys → Apart ys xs
unfolding Apart
Apart-sym xs [] a = tt
Apart-sym xs (y ∷ ys) a = (Apart-first-cons xs y ys a, Apart-sym xs ys (Apart-tail xs y ys a))

fd_set-is_set : (s : FdSets) (w : ℕ × Direction) → is_set (fd_set s w) w ≡ true
unfolding fd_set is_set
fd_set-is_set s (fd, boa_read) = rw (==_refl fd) refl
fd_set-is_set s (fd, boa_write) = rw (==_refl fd) refl

put-put : (f : ℕ → Bool) (fd k : ℕ) → f fd ≡ false → put (put f fd true) fd false k ≡ f k
put-put f fd k n = elim (Bool-cases (fd == k)) [
  | inl e ↦ rw (e) (sym (ap f (sym (eq-of-== fd k e)) ∙ n))
  | inr e ↦ rw (e) refl
]

-- Clearing what was set leaves every descriptor as it was, if it was not set before.
fd_clr-fd_set :
    (s : FdSets) (w v : ℕ × Direction)
    → is_set s w ≡ false
    → is_set (fd_clr (fd_set s w) w) v ≡ is_set s v
unfolding fd_set fd_clr is_set
fd_clr-fd_set s (fd, boa_read) (k, boa_read) n = put-put s.reads fd k n
fd_clr-fd_set s (fd, boa_read) (k, boa_write) n = refl
fd_clr-fd_set s (fd, boa_write) (k, boa_read) n = refl
fd_clr-fd_set s (fd, boa_write) (k, boa_write) n = put-put s.writes fd k n

-- For well-formed ready and blocked lists without a common request, block_request takes the request
-- out of its place in the ready list, puts it at the head of the blocked list and keeps the others
-- in order; the two lists stay well formed and disjoint, and the descriptor that the request's
-- status names is in its set.
pub block_request-IsQueues :
    (have_sendfile : Bool) (waiting : ℕ → Waiting) (q : Queues) (xs : List ℕ) (req : ℕ)
    (ys zs : List ℕ)
    → IsQueues q (xs ++ req ∷ ys) zs
    → IsQueues (block_request have_sendfile waiting q req) (xs ++ ys) (req ∷ zs)
      × (is_set
            (block_request have_sendfile waiting q req).sets
            (wait_of have_sendfile (waiting req))
          ≡ true)
unfolding block_request
block_request-IsQueues have_sendfile waiting q xs req ys zs t =
    (move-TwoQueues q.links q.request_ready q.request_block xs req ys zs t, fd_set-is_set q.sets _)

-- For well-formed ready and blocked lists without a common request, ready_request takes the request
-- out of its place in the blocked list, puts it at the head of the ready list and keeps the others
-- in order; the two lists stay well formed and disjoint.
pub ready_request-IsQueues :
    (have_sendfile : Bool) (waiting : ℕ → Waiting) (q : Queues) (xs ys : List ℕ) (req : ℕ)
    (zs : List ℕ)
    → IsQueues q xs (ys ++ req ∷ zs)
    → IsQueues (ready_request have_sendfile waiting q req) (req ∷ xs) (ys ++ zs)
unfolding ready_request
ready_request-IsQueues have_sendfile waiting q xs ys req zs t =
    flip (move-TwoQueues q.links q.request_block q.request_ready ys req zs xs (flip t))
  where
    flip :
        {h : Links} {a b : Option ℕ} {us vs : List ℕ}
        → TwoQueues h a b us vs
        → TwoQueues h b a vs us
    flip {us = us} {vs = vs} t = record {
      queue_a = t.queue_b;
      queue_b = t.queue_a;
      apart = Apart-sym us vs t.apart;
    }

sets_restored :
    (have_sendfile : Bool) (waiting : ℕ → Waiting) (q : Queues) (req : ℕ) (w : ℕ × Direction)
    → is_set q.sets (wait_of have_sendfile (waiting req)) ≡ false
    → is_set
        (ready_request have_sendfile waiting (block_request have_sendfile waiting q req) req).sets
        w
      ≡ is_set q.sets w
unfolding block_request ready_request
sets_restored have_sendfile waiting q req w n = fd_clr-fd_set q.sets _ w n

-- For well-formed and disjoint lists, a ready request that is blocked and made ready again stands
-- at the head of the ready list with the others in order, and if the server did not wait for its
-- descriptor before, every descriptor is waited for as before.
pub ready_request-block_request :
    (have_sendfile : Bool) (waiting : ℕ → Waiting) (q : Queues) (xs : List ℕ) (req : ℕ)
    (ys zs : List ℕ)
    → IsQueues q (xs ++ req ∷ ys) zs
    → is_set q.sets (wait_of have_sendfile (waiting req)) ≡ false
    → IsQueues
        (ready_request have_sendfile waiting (block_request have_sendfile waiting q req) req)
        (req ∷ xs ++ ys)
        zs
      × ((w : ℕ × Direction)
          → is_set
              (ready_request have_sendfile waiting
                (block_request have_sendfile waiting q req)
                req).sets
              w
            ≡ is_set q.sets w)
ready_request-block_request have_sendfile waiting q xs req ys zs t n = (
  ready_request-IsQueues have_sendfile waiting _ (xs ++ ys) [] req zs
      ((block_request-IsQueues have_sendfile waiting q xs req ys zs t).0),
  (λ w. sets_restored have_sendfile waiting q req w n),
)
