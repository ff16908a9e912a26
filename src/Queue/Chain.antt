-- ===== src/Queue/Chain.antt =====
-- The doubly linked lists of src/queue.c: what a well-formed list is, and what `enqueue` and
-- `dequeue` make of it.
use boa.Common.{if◌then◌else◌, ℕ, ◌≡◌, refl, ◌∙◌, false, Option, none, some, List, [], ◌∷◌, ◌==◌}
use boa.Queue.{is, Links, update, set_next, set_prev, dequeue, enqueue}

-- The request, if there is one, is not in the list.
unfoldable pub Fresh : Option ℕ → List ℕ → Type 0
Fresh o [] = Unit
Fresh o (y ∷ ys) = (is o y ≡ false) × Fresh o ys

unfoldable pub Distinct : List ℕ → Type 0
Distinct [] = Unit
Distinct (x ∷ xs) = Fresh (some x) xs × Distinct xs

unfoldable pub first : List ℕ → Option ℕ
first [] = none
first (x ∷ xs) = some x

-- The links of the requests of the list are those of a doubly linked list behind p.
unfoldable pub Linked : Links → Option ℕ → List ℕ → Type 0
Linked h p [] = Unit
Linked h p (x ∷ xs) = (h.prev x ≡ p) × (h.next x ≡ first xs) × Linked h (some x) xs

-- The head and the links are those of a list of different requests.
pub record IsQueue (h : Links) (head : Option ℕ) (xs : List ℕ) : Type 0 where
  pub head_first : head ≡ first xs
  pub linked : Linked h none xs
  pub distinct : Distinct xs

-- The two stores have the same links for the requests of the list.
unfoldable pub Agree : Links → Links → List ℕ → Type 0
Agree h h' [] = Unit
Agree h h' (x ∷ xs) = (h'.next x ≡ h.next x) × (h'.prev x ≡ h.prev x) × Agree h h' xs

pub Linked-Agree :
    (h h' : Links) (xs : List ℕ) (p : Option ℕ) → Agree h h' xs → Linked h p xs → Linked h' p xs
unfolding Linked Agree
Linked-Agree h h' [] p a l = tt
Linked-Agree h h' (x ∷ xs) p (n, q, a) (lp, ln, l) =
    (q ∙ lp, n ∙ ln, Linked-Agree h h' xs (some x) a l)

-- The fields of every request behind `enqueue` and `dequeue`.
pub enqueue-next :
    (h : Links) (head : Option ℕ) (x q : ℕ)
    → (enqueue h head x).0.next q ≡ (if x == q then head else h.next q)
unfolding enqueue set_next set_prev update
enqueue-next h none x q = refl
enqueue-next h (some p) x q = refl

pub enqueue-prev :
    (h : Links) (head : Option ℕ) (x q : ℕ)
    → (enqueue h head x).0.prev q
      ≡ (if x == q then none else if is head q then some x else h.prev q)
unfolding enqueue set_next set_prev update is
enqueue-prev h none x q = refl
enqueue-prev h (some p) x q = refl

set_next-next :
    (h : Links) (p v : Option ℕ) (q : ℕ)
    → (set_next h p v).next q ≡ (if is p q then v else h.next q)
unfolding set_next update is
set_next-next h none v q = refl
set_next-next h (some p) v q = refl

set_next-prev : (h : Links) (p v : Option ℕ) (q : ℕ) → (set_next h p v).prev q ≡ h.prev q
unfolding set_next
set_next-prev h none v q = refl
set_next-prev h (some p) v q = refl

set_prev-prev :
    (h : Links) (p v : Option ℕ) (q : ℕ)
    → (set_prev h p v).prev q ≡ (if is p q then v else h.prev q)
unfolding set_prev update is
set_prev-prev h none v q = refl
set_prev-prev h (some p) v q = refl

set_prev-next : (h : Links) (p v : Option ℕ) (q : ℕ) → (set_prev h p v).next q ≡ h.next q
unfolding set_prev
set_prev-next h none v q = refl
set_prev-next h (some p) v q = refl

is-some : (x q : ℕ) → is (some x) q ≡ (x == q)
unfolding is
is-some x q = refl

pub dequeue-next :
    (h : Links) (head : Option ℕ) (x q : ℕ)
    → (dequeue h head x).0.next q
      ≡ (if x == q then none else if is (h.prev x) q then h.next x else h.next q)
unfolding dequeue
dequeue-next h head x q = simp (set_next-next, set_next-prev, set_prev-next, is-some) refl

pub dequeue-prev :
    (h : Links) (head : Option ℕ) (x q : ℕ)
    → is (h.prev x) x ≡ false
    → (dequeue h head x).0.prev q
      ≡ (if x == q then none else if is (h.next x) q then h.prev x else h.prev q)
unfolding dequeue
dequeue-prev h head x q ne = simp (set_next-next, set_next-prev, set_prev-prev, is-some, ne) refl
