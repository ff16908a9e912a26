-- ===== src/MmapCache.antt =====
-- src/mmap_cache.c: the table of mapped files, with open addressing and reference counts.
--
-- An entry of the table is named by its index. What `mmap` returns is an argument of `find_mmap`,
-- `none` for -1 (or for a failed `madvise`, after which the file is unmapped again). The table has
-- 256 entries, so a step `& MMAP_LIST_MASK` is `% 256`.
pub mod Probe
pub mod Counts
use boa.Common.{
  ℕ, zero, suc, ◌+◌, ◌-◌, ◌*◌, ◌/◌, ◌%◌, ◌^◌, ◌≤◌, ◌<◌, min, ◌≡◌, refl, sym, ap, ap₂, ◌∙◌, ◌≢◌, ◌↔◌,
  ◌⊎◌, inl, inr, Bool, true, false, not, ◌&&◌, ◌||◌, Option, none, some, List, [], ◌∷◌, ◌++◌, map,
  append-nil, append_assoc, arith, ltb, leb, ◌==◌, if◌then◌else◌, within, ==_iff, eq-of-==, ==_refl,
  Bool-cases, Option-cases, and-eq-true, length, get_or, set, take, drop, replicate, length-append,
  length-set, length-take, length-drop, get_or-set_self, get_or-set_ne, All, All-append, Bytes,
  codes, str_eq, str_eq_iff, starts, suc-ne-zero, check_range, check_range-below, bool_eq,
  bool_eq_iff, member,
}

abbrev pub mmap_list_size : ℕ
mmap_list_size = 256

abbrev pub mmap_list_use_max : ℕ
mmap_list_use_max = 128

pub record MmapEntry : Type 0 where
  pub dev : ℕ
  pub ino : ℕ
  pub mmap : ℕ
  pub use_count : ℕ
  pub len : ℕ

-- The fields of `struct stat` that are read.
pub record Stat : Type 0 where
  pub st_dev : ℕ
  pub st_ino : ℕ
  pub st_size : ℕ

-- The static variables.
pub record MmapTable : Type 0 where
  pub mmap_list : List MmapEntry
  pub entries_used : ℕ
  pub total_requests : ℕ
  pub hash_bounces : ℕ

abbrev pub empty_entry : MmapEntry
empty_entry = record { dev = 0; ino = 0; mmap = 0; use_count = 0; len = 0 }

abbrev pub entry_at : List MmapEntry → ℕ → MmapEntry
entry_at l i = get_or l i empty_entry

abbrev pub mmap_list_next : ℕ → ℕ
mmap_list_next i = (i + 1) % mmap_list_size

abbrev pub mmap_list_hash : Stat → ℕ
mmap_list_hash s = s.st_ino % mmap_list_size

abbrev pub is_same_file : MmapEntry → Stat → Bool
is_same_file e s = e.dev == s.st_dev && e.ino == s.st_ino && e.len == s.st_size

-- How the `for` ends: at an entry for the file, at a free entry, or back at the start.
pub data Probed : Type 0 where
  hit : ℕ → Probed
  free : ℕ → Probed
  full : Probed

-- The `for`, on fuel, with the count of bounces. `none` means that the fuel ran out.
unfoldable pub probe : ℕ → List MmapEntry → Stat → ℕ → ℕ → ℕ → Option (Probed × ℕ)
probe zero l s start i bounces = none
probe (suc f) l s start i bounces =
    let rest = probe f l s start (mmap_list_next i) (bounces + 1) in
    if (entry_at l i).use_count == 0
    then some (free i, bounces)
    else if is_same_file (entry_at l i) s
    then some (hit i, bounces)
    else if mmap_list_next i == start
    then some (full, bounces + 1)
    else rest

abbrev pub stat_entry : Stat → ℕ → MmapEntry
stat_entry s address = record {
  dev = s.st_dev;
  ino = s.st_ino;
  mmap = address;
  use_count = 1;
  len = s.st_size;
}

-- The end of `find_mmap`, with what `mmap` has returned.
unfoldable pub add_entry : MmapTable → Stat → ℕ → Option ℕ → MmapTable × Option ℕ
add_entry t s i none = (t, none)
add_entry t s i (some address) = (
  record t {
    mmap_list = set t.mmap_list i (stat_entry s address);
    entries_used = t.entries_used + 1;
  },
  some i,
)

-- What `find_mmap` does with each end of the loop.
unfoldable pub use_probed : MmapTable → Stat → Option ℕ → Probed → MmapTable × Option ℕ
use_probed t s m full = (t, none)
use_probed t s m (hit i) =
    let e = entry_at t.mmap_list i in
    (record t { mmap_list = set t.mmap_list i (record e { use_count = e.use_count + 1 }) }, some i)
use_probed t s m (free i) =
    if ltb mmap_list_use_max t.entries_used then (t, none) else add_entry t s i m

-- `none` stands for a loop that does not end; `MmapCache.Probe` shows that there is none.
unfoldable pub find_mmap : MmapTable → Stat → Option ℕ → Option (MmapTable × Option ℕ)
find_mmap t s m =
    let start = mmap_list_hash s in
    elim (probe mmap_list_size t.mmap_list s start start t.hash_bounces) [
      | none ↦ none
      | some (ended, bounces) ↦ some (
          use_probed (record t { total_requests = t.total_requests + 1; hash_bounces = bounces }) s
            m ended)
    ]

-- On a null pointer, `none`, nothing is done.
unfoldable pub release_mmap : MmapTable → Option ℕ → MmapTable
release_mmap t none = t
release_mmap t (some i) =
    let e = entry_at t.mmap_list i in
    let t' = record t {
      mmap_list = set t.mmap_list i (record e { use_count = e.use_count - 1 });
    } in
    if e.use_count == 0
    then t
    else if e.use_count - 1 == 0
    then record t' { entries_used = t.entries_used - 1 }
    else t'

-- The entries in use.
abbrev pub is_live : MmapEntry → ℕ
is_live e = if e.use_count == 0 then 0 else 1

unfoldable pub count_live : List MmapEntry → ℕ
count_live [] = 0
count_live (e ∷ l) = is_live e + count_live l

-- The counter of used entries is right, and the limit of `find_mmap` is kept.
pub record IsTable (t : MmapTable) : Type 0 where
  pub size : length t.mmap_list ≡ mmap_list_size
  pub used : t.entries_used ≡ count_live t.mmap_list
  pub limit : t.entries_used ≤ mmap_list_use_max + 1
