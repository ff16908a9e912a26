-- ===== src/Queue/Unlink.antt =====
-- Taking a request out of its place in a list of src/queue.c.
use boa.Common.{ℕ, ◌≡◌, refl, false, Option, some, List, [], ◌∷◌, ◌++◌, ◌==◌, ==_refl}
use boa.Queue.{is, Links, dequeue}
use boa.Queue.Chain.{Fresh, Distinct, first, Linked, Linked-Agree, dequeue-next, dequeue-prev}
use boa.Queue.Insert.{is_comm, differs, dequeue-Agree}

-- The request before x in ws ++ x ∷ ys, where p stands before the list.
unfoldable pub before : Option ℕ → List ℕ → Option ℕ
before p [] = p
before p (w ∷ ws) = before (some w) ws

pub Linked-at :
    (h : Links) (p : Option ℕ) (ws : List ℕ) (x : ℕ) (ys : List ℕ)
    → Linked h p (ws ++ x ∷ ys)
    → (h.prev x ≡ before p ws) × (h.next x ≡ first ys)
unfolding Linked before
Linked-at h p [] x ys (lp, ln, l) = (lp, ln)
Linked-at h p (w ∷ ws) x ys (lp, ln, l) = Linked-at h (some w) ws x ys l

pub Fresh-before :
    (p : Option ℕ) (q : ℕ) (ws : List ℕ)
    → is p q ≡ false
    → Fresh (some q) ws
    → is (before p ws) q ≡ false
unfolding before Fresh
Fresh-before p q [] e f = e
Fresh-before p q (w ∷ ws) e (f, fs) = Fresh-before (some w) q ws (is_comm q w f) fs

pub Fresh-first : (q : ℕ) (ys : List ℕ) → Fresh (some q) ys → is (first ys) q ≡ false
unfolding first Fresh is
Fresh-first q [] f = refl
Fresh-first q (y ∷ ys) (f, fs) = is_comm q y f

pub Fresh-parts :
    (o : Option ℕ) (ws : List ℕ) (x : ℕ) (ys : List ℕ)
    → Fresh o (ws ++ x ∷ ys)
    → Fresh o ws × (is o x ≡ false) × Fresh o ys × Fresh o (ws ++ ys)
unfolding Fresh
Fresh-parts o [] x ys (f, fs) = (tt, f, fs, fs)
Fresh-parts o (w ∷ ws) x ys (f, fs) =
    let (a, b, c, d) = Fresh-parts o ws x ys fs in ((f, a), b, c, (f, d))

-- Taking x out of a list of different requests: the others are different, and x is none of them.
pub Distinct-parts :
    (ws : List ℕ) (x : ℕ) (ys : List ℕ)
    → Distinct (ws ++ x ∷ ys)
    → Distinct (ws ++ ys) × Fresh (some x) ws × Fresh (some x) (ws ++ ys)
unfolding Distinct Fresh
Distinct-parts [] x ys (f, d) = (d, tt, f)
Distinct-parts (w ∷ ws) x ys (f, d) =
    let (a, b, c) = Distinct-parts ws x ys d in
    let (k, m, n, o) = Fresh-parts (some w) ws x ys f in
    ((o, a), (is_comm w x m, b), (is_comm w x m, c))

pub dequeue-here :
    (h : Links) (head p : Option ℕ) (x : ℕ) (ys : List ℕ)
    → is (h.prev x) x ≡ false
    → h.prev x ≡ p
    → h.next x ≡ first ys
    → Linked h (some x) ys
    → Fresh (some x) ys
    → Distinct ys
    → Fresh p ys
    → Linked (dequeue h head x).0 p ys
unfolding Linked first Distinct Fresh is
dequeue-here h head p x [] ne ep en l f d g = tt
dequeue-here h head p x (y ∷ ys) ne ep en (lp, ln, l) (f, fs) (dy, ds) (g, gs) = (
  rw (dequeue-prev h head x y ne, f, en, ==_refl y) ep,
  rw (dequeue-next h head x y, f, ep, g) ln,
  Linked-Agree h _ ys (some y) (dequeue-Agree h head x ys ne fs (rw ep gs) (rw en dy)) l,
)

pub dequeue-before :
    (h : Links) (head : Option ℕ) (w : ℕ) (ws : List ℕ) (x : ℕ) (ys : List ℕ)
    → (x == w) ≡ false
    → h.prev x ≡ before (some w) ws
    → h.next x ≡ first ys
    → h.next w ≡ first (ws ++ x ∷ ys)
    → Fresh (some w) ws
    → (dequeue h head x).0.next w ≡ first (ws ++ ys)
unfolding before first Fresh is
dequeue-before h head w [] x ys ne ep en nw f = rw (dequeue-next h head x w, ne, ep, ==_refl w) en
dequeue-before h head w (v ∷ vs) x ys ne ep en nw (f, fs) =
    rw (dequeue-next h head x w, ne, ep, Fresh-before (some v) w vs (is_comm w v f) fs) nw

pub dequeue-Linked :
    (h : Links) (head : Option ℕ) (p : Option ℕ) (ws : List ℕ) (x : ℕ) (ys : List ℕ)
    → is (h.prev x) x ≡ false
    → Linked h p (ws ++ x ∷ ys)
    → Distinct (ws ++ x ∷ ys)
    → Fresh p (ws ++ x ∷ ys)
    → Linked (dequeue h head x).0 p (ws ++ ys)
unfolding Linked Distinct Fresh
dequeue-Linked h head p [] x ys ne (lp, ln, l) (f, d) (g, gs) =
    dequeue-here h head p x ys ne lp ln l f d gs
dequeue-Linked h head p (w ∷ ws) x ys ne (lp, ln, l) (f, d) (g, gs) =
    let (fw, wx, fy, fwy) = Fresh-parts (some w) ws x ys f in
    let (at_p, at_n) = Linked-at h (some w) ws x ys l in
    (
      rw (dequeue-prev h head x w ne, differs w x wx, at_n, Fresh-first w ys fy) lp,
      dequeue-before h head w ws x ys (differs w x wx) at_p at_n ln fw,
      dequeue-Linked h head (some w) ws x ys ne l d f,
    )
