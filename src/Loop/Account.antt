-- ===== src/Loop/Account.antt =====
-- Every request that was ever allocated stands in exactly one of the three lists.
use boa.Common.{
  ap, ℕ, suc, ◌+◌, ◌≡◌, refl, ap, Option, some, List, [], ◌∷◌, ◌++◌, arith, ltb, ◌==◌,
  if◌then◌else◌, length,
}
use boa.Queue.{Links, dequeue, enqueue}
use boa.Queue.Chain.{Fresh}
use boa.Loop.Lists.{
  ThreeQueues, turn-ThreeQueues, IsLoose, dequeue-ThreeQueues, enqueue-ThreeQueues,
}

abbrev pub same : ℕ → ℕ → ℕ
same y x = if y == x then 1 else 0

-- How often the request stands in the list.
unfoldable pub occurs : ℕ → List ℕ → ℕ
occurs x [] = 0
occurs x (y ∷ ys) = same y x + occurs x ys

-- The numbers below `count` stand in exactly one of the lists, and once, the others in none.
abbrev pub IsAccounted : ℕ → (xs ys zs : List ℕ) → Type 0
IsAccounted count xs ys zs =
    (x : ℕ) → occurs x xs + occurs x ys + occurs x zs ≡ (if ltb x count then 1 else 0)

-- The same, but for one request that stands in no list.
abbrev pub IsAccountedBut : ℕ → ℕ → (xs ys zs : List ℕ) → Type 0
IsAccountedBut n count xs ys zs =
    (x : ℕ) → same n x + (occurs x xs + occurs x ys + occurs x zs) ≡ (if ltb x count then 1 else 0)

pub occurs-middle :
    (x : ℕ) (ws : List ℕ) (y : ℕ) (ys : List ℕ)
    → occurs x (ws ++ y ∷ ys) ≡ same y x + occurs x (ws ++ ys)
unfolding occurs
occurs-middle x [] y ys = refl
occurs-middle x (w ∷ ws) y ys = omega (arith, occurs-middle x ws y ys)

pub length-middle :
    (ws : List ℕ) (y : ℕ) (ys : List ℕ) → length (ws ++ y ∷ ys) ≡ suc (length (ws ++ ys))
length-middle [] y ys = refl
length-middle (w ∷ ws) y ys = ap suc (length-middle ws y ys)

pub Fresh-of-occurs : (x : ℕ) (ys : List ℕ) → occurs x ys ≡ 0 → Fresh (some x) ys
unfolding occurs Fresh boa.Queue.is
Fresh-of-occurs x [] e = tt
Fresh-of-occurs x (y ∷ ys) e = (ground (arith, e), Fresh-of-occurs x ys (omega (arith, e)))

-- The lists with their heads and the number of requests.
pub record IsLists (h : Links) (a b c : Option ℕ) (count : ℕ) (xs ys zs : List ℕ) : Type 0 where
  pub lists : ThreeQueues h a b c xs ys zs
  pub accounted : IsAccounted count xs ys zs

pub record Misses (n : ℕ) (h : Links) (a b c : Option ℕ) (count : ℕ) (xs ys zs : List ℕ)
    : Type 0 where
  pub lists : ThreeQueues h a b c xs ys zs
  pub loose : IsLoose n xs ys zs
  pub accounted : IsAccountedBut n count xs ys zs

pub turn-IsLists :
    {h : Links} {a b c : Option ℕ} {count : ℕ} {xs ys zs : List ℕ}
    → IsLists h a b c count xs ys zs
    → IsLists h b c a count ys zs xs
turn-IsLists l = record {
  lists = turn-ThreeQueues l.lists;
  accounted = λ x. omega (arith, l.accounted x);
}

pub turn-Misses :
    {n : ℕ} {h : Links} {a b c : Option ℕ} {count : ℕ} {xs ys zs : List ℕ}
    → Misses n h a b c count xs ys zs
    → Misses n h b c a count ys zs xs
turn-Misses l = record {
  lists = turn-ThreeQueues l.lists;
  loose = record { not_a = l.loose.not_b; not_b = l.loose.not_c; not_c = l.loose.not_a };
  accounted = λ x. omega (arith, l.accounted x);
}

-- A request leaves the first list.
pub dequeue-Misses :
    (h : Links) (a b c : Option ℕ) (count : ℕ) (ws : List ℕ) (n : ℕ) (ys us zs : List ℕ)
    → IsLists h a b c count (ws ++ n ∷ ys) us zs
    → Misses n (dequeue h a n).0 (dequeue h a n).1 b c count (ws ++ ys) us zs
dequeue-Misses h a b c count ws n ys us zs l =
    let (lists, loose) = dequeue-ThreeQueues h a b c ws n ys us zs l.lists in
    record {
      lists = lists;
      loose = loose;
      accounted = λ x. omega (arith, occurs-middle x ws n ys, l.accounted x);
    }

-- The request that stands in no list is put at the head of the first one.
pub enqueue-IsLists :
    (n : ℕ) (h : Links) (a b c : Option ℕ) (count : ℕ) (xs ys zs : List ℕ)
    → Misses n h a b c count xs ys zs
    → IsLists (enqueue h a n).0 (enqueue h a n).1 b c count (n ∷ xs) ys zs
unfolding occurs
enqueue-IsLists n h a b c count xs ys zs m = record {
  lists = enqueue-ThreeQueues h a b c n xs ys zs m.lists m.loose;
  accounted = λ x. omega (arith, m.accounted x);
}

-- A new number.
pub malloc-Misses :
    (h : Links) (a b c : Option ℕ) (count : ℕ) (xs ys zs : List ℕ)
    → IsLists h a b c count xs ys zs
    → Misses count h a b c (count + 1) xs ys zs
malloc-Misses h a b c count xs ys zs l = record {
  lists = l.lists;
  loose = record {
    not_a = Fresh-of-occurs count xs (omega (arith, none_yet));
    not_b = Fresh-of-occurs count ys (omega (arith, none_yet));
    not_c = Fresh-of-occurs count zs (omega (arith, none_yet));
  };
  accounted = λ x. ground (arith, l.accounted x);
}
  where
    none_yet : occurs count xs + occurs count ys + occurs count zs ≡ 0
    none_yet = ground (arith, l.accounted count)
