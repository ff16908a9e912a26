-- ===== src/Queue/Moves.antt =====
-- Moving a request from one of the two lists of src/queue.c to the other.
use boa.Common.{ap, ℕ, ◌≡◌, refl, ap, false, Option, none, some, List, [], ◌∷◌, ◌++◌, ==_refl}
use boa.Queue.{is, Links, dequeue, enqueue}
use boa.Queue.Chain.{Fresh, first, Linked, IsQueue, Agree, Linked-Agree}
use boa.Queue.Insert.{is_comm, Fresh-none, differs, enqueue-Agree, dequeue-Agree, enqueue-IsQueue}
use boa.Queue.Unlink.{before, Linked-at, Fresh-before, Fresh-first, Distinct-parts, dequeue-Linked}

-- The lists have no request in common.
unfoldable pub Apart : List ℕ → List ℕ → Type 0
Apart [] zs = Unit
Apart (y ∷ ys) zs = Fresh (some y) zs × Apart ys zs

pub Fresh-head : (ys zs : List ℕ) → Apart ys zs → Fresh (first ys) zs
unfolding Apart first
Fresh-head [] zs a = Fresh-none zs
Fresh-head (y ∷ ys) zs (f, a) = f

pub Apart-parts :
    (p : Option ℕ) (ws : List ℕ) (x : ℕ) (ys zs : List ℕ)
    → Fresh p zs
    → Apart (ws ++ x ∷ ys) zs
    → Apart (ws ++ ys) zs × Fresh (some x) zs × Fresh (before p ws) zs × Fresh (first ys) zs
unfolding Apart before
Apart-parts p [] x ys zs g (f, a) = (a, f, g, Fresh-head ys zs a)
Apart-parts p (w ∷ ws) x ys zs g (f, a) =
    let (b, c, d, e) = Apart-parts (some w) ws x ys zs f a in ((f, b), c, d, e)

pub Apart-first : (ys zs : List ℕ) → Apart ys zs → Fresh (first zs) ys
unfolding Apart Fresh
Apart-first [] zs a = tt
Apart-first (y ∷ ys) zs (f, a) = (Fresh-first y zs f, Apart-first ys zs a)

dequeue-first :
    (h : Links) (head : Option ℕ) (ws : List ℕ) (x : ℕ) (ys : List ℕ)
    → head ≡ first (ws ++ x ∷ ys)
    → h.next x ≡ first ys
    → Fresh (some x) ws
    → (dequeue h head x).1 ≡ first (ws ++ ys)
unfolding dequeue first Fresh is
dequeue-first h head [] x ys e n f = rw (e, ==_refl x) n
dequeue-first h head (w ∷ ws) x ys e n (f, fs) = rw (e, differs x w f) refl

pub not-own-prev :
    (h : Links) (ws : List ℕ) (x : ℕ) (ys : List ℕ)
    → Linked h none (ws ++ x ∷ ys)
    → Fresh (some x) ws
    → is (h.prev x) x ≡ false
unfolding is
not-own-prev h ws x ys l f = rw ((Linked-at h none ws x ys l).0) (Fresh-before none x ws refl f)

-- Behind dequeue the request is out of its list, and the other requests keep their order.
pub dequeue-IsQueue :
    (h : Links) (head : Option ℕ) (ws : List ℕ) (x : ℕ) (ys : List ℕ)
    → IsQueue h head (ws ++ x ∷ ys)
    → IsQueue (dequeue h head x).0 (dequeue h head x).1 (ws ++ ys)
dequeue-IsQueue h head ws x ys q =
    let (d, f, fa) = Distinct-parts ws x ys q.distinct in
    record {
      head_first =
          dequeue-first h head ws x ys q.head_first (Linked-at h none ws x ys q.linked).1 f;
      linked =
          dequeue-Linked h head none ws x ys (not-own-prev h ws x ys q.linked f) q.linked q.distinct
            (Fresh-none (ws ++ x ∷ ys));
      distinct = d;
    }

pub IsQueue-Agree :
    (h h' : Links) (head : Option ℕ) (xs : List ℕ)
    → Agree h h' xs
    → IsQueue h head xs
    → IsQueue h' head xs
IsQueue-Agree h h' head xs a q = record {
  head_first = q.head_first;
  linked = Linked-Agree h h' xs none a q.linked;
  distinct = q.distinct;
}

-- Two lists in one store that share no request.
pub record TwoQueues (h : Links) (a b : Option ℕ) (xs ys : List ℕ) : Type 0 where
  pub queue_a : IsQueue h a xs
  pub queue_b : IsQueue h b ys
  pub apart : Apart xs ys

Apart-cons :
    (ws : List ℕ) (x : ℕ) (zs : List ℕ) → Fresh (some x) ws → Apart ws zs → Apart ws (x ∷ zs)
unfolding Apart Fresh
Apart-cons [] x zs f a = tt
Apart-cons (w ∷ ws) x zs (f, fs) (g, a) = ((is_comm x w f, g), Apart-cons ws x zs fs a)

-- Moving a request to the head of the other list.
pub move-TwoQueues :
    (h : Links) (a b : Option ℕ) (ws : List ℕ) (x : ℕ) (ys zs : List ℕ)
    → TwoQueues h a b (ws ++ x ∷ ys) zs
    → TwoQueues
        (enqueue (dequeue h a x).0 b x).0
        (dequeue h a x).1
        (enqueue (dequeue h a x).0 b x).1
        (ws ++ ys)
        (x ∷ zs)
move-TwoQueues h a b ws x ys zs t =
    let (d, f, fa) = Distinct-parts ws x ys t.queue_a.distinct in
    let (ap, fx, fb, ff) = Apart-parts none ws x ys zs (Fresh-none zs) t.apart in
    let (at_p, at_n) = Linked-at h none ws x ys t.queue_a.linked in
    let b_before =
      IsQueue-Agree h (dequeue h a x).0 b zs
        (dequeue-Agree h a x zs (not-own-prev h ws x ys t.queue_a.linked f) fx (rw at_p fb)
          (rw at_n ff))
        t.queue_b in
    record {
      queue_a =
          IsQueue-Agree (dequeue h a x).0 _ _ (ws ++ ys)
            (enqueue-Agree (dequeue h a x).0 b x (ws ++ ys) fa
              (rw t.queue_b.head_first (Apart-first (ws ++ ys) zs ap)))
            (dequeue-IsQueue h a ws x ys t.queue_a);
      queue_b = enqueue-IsQueue (dequeue h a x).0 b x zs b_before fx;
      apart = Apart-cons (ws ++ ys) x zs fa ap;
    }
