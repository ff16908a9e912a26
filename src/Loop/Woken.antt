-- ===== src/Loop/Woken.antt =====
-- The requests that have waited for too long, behind `fdset_update`.
use boa.Common.{
  ◌∙◌, sym, ap, ℕ, zero, suc, ◌+◌, ◌≤◌, ◌≡◌, refl, sym, ap, ◌∙◌, ◌⊎◌, inl, inr, Bool, true, false,
  Option, none, List, [], ◌∷◌, ◌++◌, arith, ◌==◌, eq-of-==, ==_refl, Bool-cases, length,
}
use boa.Queue.Chain.{first}
use boa.Queue.Unlink.{Linked-at}
use boa.Loop.{put_request, timed_out, Active, Server, Config}
use boa.Loop.Account.{occurs-middle, same, occurs}
use boa.Loop.Invariant.{IsServer}
use boa.Loop.Select.{fdset_update, update_loop, expired, update_one, look}
use boa.Loop.Looked.{
  Looked, woken, waits, make_ready-IsServer, look-Looked, look-request, watch-expired,
  occurs-append,
}

module _ (config : Config) (ka_timeout now : ℕ) where
  abbrev late : Active → Bool
  late a = expired config.ka_max ka_timeout now a

  -- What the loop over `rest` makes of the server `s`: no request leaves the ready list, requests
  -- that are not looked at keep their fields, and those that have waited for too long are ready,
  -- with the status of a timeout.
  pub record Woken (s t : Server) (readys rest readys' : List ℕ) : Type 0 where
    pub grown : (k : ℕ) → occurs k readys ≤ occurs k readys'
    pub untouched : (k : ℕ) → occurs k rest ≡ 0 → t.request k ≡ s.request k
    pub timed :
        (k : ℕ)
        → 1 ≤ occurs k rest
        → late (s.request k) ≡ true
        → (1 ≤ occurs k readys') × ((t.request k).out.status ≡ timed_out)

  Woken-step :
      (s s' t : Server) (n : ℕ) (readys between rest readys' : List ℕ)
      → ((k : ℕ) → occurs k readys ≤ occurs k between)
      → ((k : ℕ) → (n == k) ≡ false → s'.request k ≡ s.request k)
      → (late (s.request n) ≡ true
          → (1 ≤ occurs n between) × ((s'.request n).out.status ≡ timed_out))
      → occurs n rest ≡ 0
      → Woken s' t between rest readys'
      → Woken s t readys (n ∷ rest) readys'
  unfolding occurs
  Woken-step s s' t n readys between rest readys' grows others own once w = record {
    grown = λ k. omega (arith, grows k, w.grown k);
    untouched = λ k e. w.untouched k (omega (arith, e)) ∙ others k (ground (arith, e));
    timed = λ k h l. by_number k h l (Bool-cases (n == k));
  }
    where
      own_timed :
          late (s.request n) ≡ true
          → (1 ≤ occurs n readys') × ((t.request n).out.status ≡ timed_out)
      own_timed l = (
        omega (arith, (own l).0, w.grown n),
        ap (λ (a : Active). a.out.status) (w.untouched n once) ∙ (own l).1,
      )

      by_number :
          (k : ℕ)
          → 1 ≤ same n k + occurs k rest
          → late (s.request k) ≡ true
          → ((n == k) ≡ true) ⊎ ((n == k) ≡ false)
          → (1 ≤ occurs k readys') × ((t.request k).out.status ≡ timed_out)
      by_number k h l (inl e) = let p : n ≡ k = eq-of-== n k e in rw (sym p) (own_timed (rw p l))
      by_number k h l (inr e) = w.timed k (ground (arith, h, e)) (ap late (others k e) ∙ l)

  update_one-request :
      (n : ℕ) (s : Server) (k : ℕ)
      → (n == k) ≡ false
      → (update_one config ka_timeout now n s).request k ≡ s.request k
  unfolding update_one
  update_one-request n s k e =
      ap (λ f. f k) (look-request config n _ (put_request n _ s)) ∙ rw e refl

  update_one-expired :
      (n : ℕ) (s : Server)
      → late (s.request n) ≡ true
      → ((update_one config ka_timeout now n s).request n).out.status ≡ timed_out
  unfolding update_one
  update_one-expired n s e =
      ap (λ f. (f n).out.status) (look-request config n _ (put_request n _ s))
      ∙ rw (==_refl n, e) refl

  update_one-Looked :
      (n : ℕ) (s : Server) (readys vs rest frees : List ℕ)
      → IsServer s readys (vs ++ n ∷ rest) frees
      → Looked n readys rest frees (update_one config ka_timeout now n s)
  unfolding update_one
  update_one-Looked n s readys vs rest frees i =
      look-Looked config n _ (put_request n _ s) readys vs rest frees
        (record { lists = i.lists; counted = i.counted })

  -- A request that has waited for too long does not stay.
  update_one-woken :
      (n : ℕ) (s : Server) (readys vs rest frees : List ℕ)
      → IsServer s readys (vs ++ n ∷ rest) frees
      → late (s.request n) ≡ true
      → IsServer (update_one config ka_timeout now n s) (n ∷ readys) (vs ++ rest) frees
  unfolding update_one look
  update_one-woken n s readys vs rest frees i e = rw (e) (
      rw (watch-expired config.have_sendfile (s.request n)) (
        make_ready-IsServer config n _ readys vs rest frees
          (record { lists = i.lists; counted = i.counted })))

  once_behind :
      (n : ℕ) (s : Server) (readys vs rest frees : List ℕ)
      → IsServer s readys (vs ++ n ∷ rest) frees
      → occurs n rest ≡ 0
  once_behind n s readys vs rest frees i =
      ground (arith, i.lists.accounted n, occurs-middle n vs n rest, occurs-append n vs rest)

  -- The result of the loop over `rest`.
  abbrev pub EndsWoken : Server → (readys rest frees : List ℕ) → Server × Option ℕ → Type 0
  EndsWoken s readys rest frees (t, stop) =
      (stop ≡ none)
      × (readys' : List ℕ) × (blocks' : List ℕ) × IsServer t readys' blocks' frees
      × Woken s t readys rest readys'

  nothing_left :
      (s : Server) (readys vs frees : List ℕ)
      → IsServer s readys (vs ++ []) frees
      → EndsWoken s readys [] frees (s, none)
  unfolding occurs
  nothing_left s readys vs frees i = (
    refl,
    readys,
    vs ++ [],
    i,
    record {
      grown = λ k. omega arith;
      untouched = λ k e. refl;
      timed = λ k h l. absurd (omega (arith, h));
    },
  )

  one_more :
      (s s' : Server) (n : ℕ) (readys between rest frees : List ℕ) (p : Server × Option ℕ)
      → ((k : ℕ) → occurs k readys ≤ occurs k between)
      → ((k : ℕ) → (n == k) ≡ false → s'.request k ≡ s.request k)
      → (late (s.request n) ≡ true
          → (1 ≤ occurs n between) × ((s'.request n).out.status ≡ timed_out))
      → occurs n rest ≡ 0
      → EndsWoken s' between rest frees p
      → EndsWoken s readys (n ∷ rest) frees p
  one_more s s' n readys between rest frees (t, stop) a b c d (e, readys', blocks', j, w) =
      (e, readys', blocks', j, Woken-step s s' t n readys between rest readys' a b c d w)

  grows : (n : ℕ) (readys : List ℕ) (k : ℕ) → occurs k readys ≤ occurs k (n ∷ readys)
  unfolding occurs
  grows n readys k = omega arith

  in_front : (n : ℕ) (readys : List ℕ) → 1 ≤ occurs n (n ∷ readys)
  unfolding occurs
  in_front n readys = rw (==_refl n) (omega arith)

  update_loop-EndsWoken :
      (fuel : ℕ) (s : Server) (readys vs rest frees : List ℕ)
      → IsServer s readys (vs ++ rest) frees
      → length rest ≤ fuel
      → EndsWoken s readys rest frees (update_loop config ka_timeout now fuel (first rest) s)
  unfolding update_loop first
  update_loop-EndsWoken zero s readys vs [] frees i h = nothing_left s readys vs frees i
  update_loop-EndsWoken (suc fuel) s readys vs [] frees i h = nothing_left s readys vs frees i
  update_loop-EndsWoken zero s readys vs (n ∷ rest) frees i h = absurd (omega (arith, h))
  update_loop-EndsWoken (suc fuel) s readys vs (n ∷ rest) frees i h =
      rw ((Linked-at s.queues.links none vs n rest i.lists.lists.queue_b.linked).1) (
        by_late (Bool-cases (late (s.request n))) (update_one-Looked n s readys vs rest frees i)
          (λ between ws j.
            update_loop-EndsWoken fuel s' between ws rest frees j (omega (arith, h))))
    where
      s' : Server
      s' = update_one config ka_timeout now n s

      once : occurs n rest ≡ 0
      once = once_behind n s readys vs rest frees i

      end : Server × Option ℕ
      end = update_loop config ka_timeout now fuel (first rest) s'

      by_late :
          (late (s.request n) ≡ true) ⊎ (late (s.request n) ≡ false)
          → Looked n readys rest frees s'
          → ((between ws : List ℕ)
              → IsServer s' between (ws ++ rest) frees
              → EndsWoken s' between rest frees end)
          → EndsWoken s readys (n ∷ rest) frees end
      by_late (inl e) l loop =
          one_more s s' n readys (n ∷ readys) rest frees end (grows n readys)
            (update_one-request n s) (λ _. (in_front n readys, update_one-expired n s e)) once
            (loop (n ∷ readys) vs (update_one-woken n s readys vs rest frees i e))
      by_late (inr e) (woken ws j) loop =
          one_more s s' n readys (n ∷ readys) rest frees end (grows n readys)
            (update_one-request n s) (λ l. absurd (ground (arith, l, e))) once
            (loop (n ∷ readys) ws j)
      by_late (inr e) (waits ws j) loop =
          one_more s s' n readys readys rest frees end (λ k. omega arith) (update_one-request n s)
            (λ l. absurd (ground (arith, l, e))) once (loop readys ws j)

  -- For three well-formed lists that share no request, in which every allocated request stands
  -- exactly once: fdset_update comes to the end of the blocked list, whatever select has left of
  -- the sets; the lists are as well formed behind it, no request has left the ready list, and
  -- every blocked request that has waited for too long, on a kept connection before its first
  -- line or for more than 60 seconds, is ready with the status TIMED_OUT.
  pub fdset_update-Woken :
      (fuel : ℕ) (s : Server) (readys blocks frees : List ℕ)
      → IsServer s readys blocks frees
      → length blocks ≤ fuel
      → EndsWoken s readys blocks frees (fdset_update config ka_timeout now fuel s)
  unfolding fdset_update
  fdset_update-Woken fuel s readys blocks frees i h =
      from_head s.queues.request_block i.lists.lists.queue_b.head_first
    where
      from_head :
          (o : Option ℕ)
          → o ≡ first blocks
          → EndsWoken s readys blocks frees (update_loop config ka_timeout now fuel o s)
      from_head o e = rw (e) (update_loop-EndsWoken fuel s readys [] blocks frees i h)
