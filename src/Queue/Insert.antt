-- ===== src/Queue/Insert.antt =====
-- Putting a request at the head of a list of src/queue.c.
use boa.Common.{ℕ, ◌≡◌, refl, true, false, Option, none, some, List, [], ◌∷◌, arith, ◌==◌, ==_refl}
use boa.Queue.{is, Links, dequeue, enqueue}
use boa.Queue.Chain.{
  Fresh, Distinct, first, Linked, IsQueue, Agree, Linked-Agree, enqueue-next, enqueue-prev,
  dequeue-next, dequeue-prev,
}

pub is_self : (x : ℕ) → is (some x) x ≡ true
unfolding is
is_self x = ==_refl x

pub is_comm : (x y : ℕ) → is (some x) y ≡ false → is (some y) x ≡ false
unfolding is
is_comm x y h = ground arith

pub Fresh-none : (zs : List ℕ) → Fresh none zs
unfolding Fresh is
Fresh-none [] = tt
Fresh-none (z ∷ zs) = (refl, Fresh-none zs)

pub differs : (x y : ℕ) → is (some x) y ≡ false → (y == x) ≡ false
unfolding is
differs x y h = ground arith

pub enqueue-Agree :
    (h : Links) (head : Option ℕ) (x : ℕ) (zs : List ℕ)
    → Fresh (some x) zs
    → Fresh head zs
    → Agree h (enqueue h head x).0 zs
unfolding Agree Fresh is
enqueue-Agree h head x [] f g = tt
enqueue-Agree h head x (z ∷ zs) (f, fs) (g, gs) = (
  rw (enqueue-next h head x z, f) refl,
  rw (enqueue-prev h head x z, f, g) refl,
  enqueue-Agree h head x zs fs gs,
)

pub dequeue-Agree :
    (h : Links) (head : Option ℕ) (x : ℕ) (zs : List ℕ)
    → is (h.prev x) x ≡ false
    → Fresh (some x) zs
    → Fresh (h.prev x) zs
    → Fresh (h.next x) zs
    → Agree h (dequeue h head x).0 zs
unfolding Agree Fresh is
dequeue-Agree h head x [] ne f p n = tt
dequeue-Agree h head x (z ∷ zs) ne (f, fs) (p, ps) (n, ns) = (
  rw (dequeue-next h head x z, f, p) refl,
  rw (dequeue-prev h head x z ne, f, n) refl,
  dequeue-Agree h head x zs ne fs ps ns,
)

pub enqueue-first :
    (h : Links) (head : Option ℕ) (x : ℕ) (xs : List ℕ) → (enqueue h head x).1 ≡ first (x ∷ xs)
unfolding enqueue first
enqueue-first h head x xs = refl

pub Distinct-cons : (x : ℕ) (xs : List ℕ) → Fresh (some x) xs → Distinct xs → Distinct (x ∷ xs)
unfolding Distinct
Distinct-cons x xs f d = (f, d)

pub enqueue-tail :
    (h : Links) (head : Option ℕ) (x : ℕ) (xs : List ℕ)
    → head ≡ first xs
    → Linked h none xs
    → Distinct xs
    → Fresh (some x) xs
    → Linked (enqueue h head x).0 (some x) xs
unfolding Linked first Distinct Fresh is
enqueue-tail h head x [] e l d f = tt
enqueue-tail h head x (y ∷ ys) e (lp, ln, l) (dy, ds) (f, fs) = (
  rw (enqueue-prev h head x y, f, e, ==_refl y) refl,
  rw (enqueue-next h head x y, f) ln,
  Linked-Agree h _ ys (some y) (enqueue-Agree h head x ys fs (rw e dy)) l,
)

pub enqueue-Linked :
    (h : Links) (head : Option ℕ) (x : ℕ) (xs : List ℕ)
    → head ≡ first xs
    → Linked h none xs
    → Distinct xs
    → Fresh (some x) xs
    → Linked (enqueue h head x).0 none (x ∷ xs)
unfolding Linked
enqueue-Linked h head x xs e l d f = (
  rw (enqueue-prev h head x x, ==_refl x) refl,
  rw (enqueue-next h head x x, ==_refl x) e,
  enqueue-tail h head x xs e l d f,
)

pub enqueue-IsQueue :
    (h : Links) (head : Option ℕ) (x : ℕ) (xs : List ℕ)
    → IsQueue h head xs
    → Fresh (some x) xs
    → IsQueue (enqueue h head x).0 (enqueue h head x).1 (x ∷ xs)
enqueue-IsQueue h head x xs q f = record {
  head_first = enqueue-first h head x xs;
  linked = enqueue-Linked h head x xs q.head_first q.linked q.distinct f;
  distinct = Distinct-cons x xs f q.distinct;
}
