-- ===== src/Range.antt =====
-- src/range.c: the pool of range nodes, `range_add`, `range_abort` and `ranges_fixup`.
--
-- A linked list of nodes is the list of their values, and a request's list and the pool share no
-- node, since a node is pushed only after it is unlinked. `unsigned long` has 64 bits, an
-- `unsigned` has 32.
pub mod Fixup
pub mod Parse
pub mod RoundTrip
use boa.Common.{
  if◌then◌else◌, ℕ, ◌+◌, ◌-◌, ◌%◌, ◌^◌, Bool, true, false, not, ◌||◌, List, [], ◌∷◌, ◌++◌, ltb, leb,
  ◌==◌,
}

pub record Range : Type 0 where
  pub start : ℕ
  pub stop : ℕ

abbrev pub range : ℕ → ℕ → Range
range a b = record { start = a; stop = b }

-- (unsigned long) -1 and (unsigned) -1.
abbrev pub ulong_max : ℕ
ulong_max = 2 ^ 64 - 1

abbrev pub uint_max : ℕ
uint_max = 2 ^ 32 - 1

-- The fields of a request that the file uses, with the static `range_pool`.
pub record RangeState : Type 0 where
  pub ranges : List Range
  pub numranges : ℕ
  pub pool : List Range

-- The node has its fields cleared, wherever it comes from.
unfoldable pub range_pool_pop : List Range → Range × List Range
range_pool_pop [] = (range 0 0, [])
range_pool_pop (r ∷ pool) = (range 0 0, pool)

abbrev pub range_pool_push : Range → List Range → List Range
range_pool_push r pool = r ∷ pool

-- The loop of `ranges_reset`: the first node goes first.
unfoldable pub push_all : List Range → List Range → List Range
push_all [] pool = pool
push_all (r ∷ rs) pool = push_all rs (range_pool_push r pool)

unfoldable pub ranges_reset : RangeState → RangeState
unfolding push_all
ranges_reset s = record s { ranges = []; pool = push_all s.ranges s.pool }

-- Frees the nodes one by one.
unfoldable pub range_pool_empty : List Range → List Range
range_pool_empty [] = []
range_pool_empty (r ∷ pool) = range_pool_empty pool

unfoldable pub range_abort : RangeState → RangeState
unfolding ranges_reset range_pool_pop
range_abort s =
    let s' = ranges_reset s in
    let (r, pool) = range_pool_pop s'.pool in
    record s' { ranges = record r { stop = ulong_max } ∷ []; pool = pool }

unfoldable pub range_add : RangeState → ℕ → ℕ → RangeState
unfolding range_pool_pop
range_add s start stop =
    let (r, pool) = range_pool_pop s.pool in
    record s {
      ranges = s.ranges ++ record r { start = start; stop = stop } ∷ [];
      pool = pool;
      numranges = s.numranges + 1;
    }

-- The two tests of `ranges_fixup` that write to a node, for a file that is not empty.
unfoldable pub fix_stop : ℕ → Range → Range
fix_stop filesize r =
    if r.stop == uint_max || leb filesize r.stop then record r { stop = filesize - 1 } else r

-- `filesize - stop` wraps as an unsigned long.
unfoldable pub fix_start : ℕ → Range → Range
fix_start filesize r =
    if r.start == ulong_max then range ((filesize + 2 ^ 64 - r.stop) % 2 ^ 64) (filesize - 1) else r

abbrev pub fix_range : ℕ → Range → Range
fix_range filesize r = fix_start filesize (fix_stop filesize r)

-- (long) start < 0 || start > stop
unfoldable pub is_bad : Range → Bool
is_bad r = leb (2 ^ 63) r.start || ltb r.stop r.start

-- The second loop of `ranges_fixup`: the nodes that stay linked, in order, and the pool.
unfoldable pub fixup_loop : ℕ → List Range → List Range → List Range × List Range
fixup_loop filesize [] pool = ([], pool)
fixup_loop filesize (r ∷ rs) pool =
    let r' = fix_range filesize r in
    let bad = is_bad r' in
    let (kept, pool') = fixup_loop filesize rs (if bad then range_pool_push r' pool else pool) in
    (if bad then kept else r' ∷ kept, pool')

abbrev pub is_nil : List Range → Bool
is_nil [] = true
is_nil (r ∷ rs) = false

-- The flag is the result. On 0 (`false`) the code has also sent the "invalid range" response.
unfoldable pub ranges_fixup : ℕ → RangeState → RangeState × Bool
ranges_fixup filesize s =
    let (kept, pool) =
      (if filesize == 0
        then ([], push_all s.ranges s.pool)
        else fixup_loop filesize s.ranges s.pool) in
    (record s { ranges = kept; pool = pool }, not (is_nil kept))
