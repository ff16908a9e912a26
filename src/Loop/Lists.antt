-- ===== src/Loop/Lists.antt =====
-- Three lists in one store: the ready, the blocked and the free requests.
use boa.Common.{ap, ℕ, ap, Option, none, some, List, ◌∷◌, ◌++◌}
use boa.Queue.{Links, dequeue, enqueue}
use boa.Queue.Chain.{Fresh, IsQueue}
use boa.Queue.Insert.{Fresh-none, enqueue-Agree, dequeue-Agree, enqueue-IsQueue}
use boa.Queue.Unlink.{Linked-at, Distinct-parts}
use boa.Queue.Moves.{Apart, Apart-parts, Fresh-head, not-own-prev, IsQueue-Agree, dequeue-IsQueue}
use boa.Queue.Requests.{Apart-sym}

pub record ThreeQueues (h : Links) (a b c : Option ℕ) (xs ys zs : List ℕ) : Type 0 where
  pub queue_a : IsQueue h a xs
  pub queue_b : IsQueue h b ys
  pub queue_c : IsQueue h c zs
  pub apart_ab : Apart xs ys
  pub apart_ac : Apart xs zs
  pub apart_bc : Apart ys zs

pub turn-ThreeQueues :
    {h : Links} {a b c : Option ℕ} {xs ys zs : List ℕ}
    → ThreeQueues h a b c xs ys zs
    → ThreeQueues h b c a ys zs xs
turn-ThreeQueues {xs = xs} {ys = ys} {zs = zs} t = record {
  queue_a = t.queue_b;
  queue_b = t.queue_c;
  queue_c = t.queue_a;
  apart_ab = t.apart_bc;
  apart_ac = Apart-sym xs ys t.apart_ab;
  apart_bc = Apart-sym xs zs t.apart_ac;
}

-- The request stands in none of the lists.
pub record IsLoose (x : ℕ) (xs ys zs : List ℕ) : Type 0 where
  pub not_a : Fresh (some x) xs
  pub not_b : Fresh (some x) ys
  pub not_c : Fresh (some x) zs

-- A list that shares no request with the one that is changed.
dequeue-other :
    (h : Links) (a b : Option ℕ) (ws : List ℕ) (x : ℕ) (ys us : List ℕ)
    → IsQueue h a (ws ++ x ∷ ys)
    → Apart (ws ++ x ∷ ys) us
    → IsQueue h b us
    → IsQueue (dequeue h a x).0 b us × Apart (ws ++ ys) us × Fresh (some x) us
dequeue-other h a b ws x ys us q p o =
    let (d, f, fa) = Distinct-parts ws x ys q.distinct in
    let (ap, fx, fb, ff) = Apart-parts none ws x ys us (Fresh-none us) p in
    let (at_p, at_n) = Linked-at h none ws x ys q.linked in
    (
      IsQueue-Agree h (dequeue h a x).0 b us
          (dequeue-Agree h a x us (not-own-prev h ws x ys q.linked f) fx (rw at_p fb) (rw at_n ff))
          o,
      ap,
      fx,
    )

-- A request is taken out of the first list.
pub dequeue-ThreeQueues :
    (h : Links) (a b c : Option ℕ) (ws : List ℕ) (x : ℕ) (ys us zs : List ℕ)
    → ThreeQueues h a b c (ws ++ x ∷ ys) us zs
    → ThreeQueues (dequeue h a x).0 (dequeue h a x).1 b c (ws ++ ys) us zs
      × IsLoose x (ws ++ ys) us zs
dequeue-ThreeQueues h a b c ws x ys us zs t =
    let (d, f, fa) = Distinct-parts ws x ys t.queue_a.distinct in
    let (qb, pb, fb) = dequeue-other h a b ws x ys us t.queue_a t.apart_ab t.queue_b in
    let (qc, pc, fc) = dequeue-other h a c ws x ys zs t.queue_a t.apart_ac t.queue_c in
    (
      record {
        queue_a = dequeue-IsQueue h a ws x ys t.queue_a;
        queue_b = qb;
        queue_c = qc;
        apart_ab = pb;
        apart_ac = pc;
        apart_bc = t.apart_bc;
      },
      record { not_a = fa; not_b = fb; not_c = fc },
    )

enqueue-other :
    (h : Links) (a b : Option ℕ) (x : ℕ) (xs us : List ℕ)
    → IsQueue h a xs
    → Apart xs us
    → Fresh (some x) us
    → IsQueue h b us
    → IsQueue (enqueue h a x).0 b us
enqueue-other h a b x xs us q p f o =
    IsQueue-Agree h (enqueue h a x).0 b us
      (enqueue-Agree h a x us f (rw q.head_first (Fresh-head xs us p))) o

-- A request of none of the lists is put at the head of the first one.
pub enqueue-ThreeQueues :
    (h : Links) (a b c : Option ℕ) (x : ℕ) (xs us zs : List ℕ)
    → ThreeQueues h a b c xs us zs
    → IsLoose x xs us zs
    → ThreeQueues (enqueue h a x).0 (enqueue h a x).1 b c (x ∷ xs) us zs
unfolding Apart
enqueue-ThreeQueues h a b c x xs us zs t l = record {
  queue_a = enqueue-IsQueue h a x xs t.queue_a l.not_a;
  queue_b = enqueue-other h a b x xs us t.queue_a t.apart_ab l.not_b t.queue_b;
  queue_c = enqueue-other h a c x xs zs t.queue_a t.apart_ac l.not_c t.queue_c;
  apart_ab = (l.not_b, t.apart_ab);
  apart_ac = (l.not_c, t.apart_ac);
  apart_bc = t.apart_bc;
}
