-- ===== src/MmapCache/Counts.antt =====
-- The counter of used entries and the reference counts.
use boa.Common.{
  ℕ, zero, suc, ◌+◌, ◌-◌, ◌≤◌, ◌<◌, ◌≡◌, refl, sym, ap, ◌∙◌, inl, inr, true, false, Option, none,
  some, List, [], ◌∷◌, arith, ltb, ◌==◌, Bool-cases, length, set, length-set, get_or-set_self,
}
use mathlib.Core.Path.{subst}
use boa.MmapCache.{
  MmapEntry, Stat, MmapTable, empty_entry, entry_at, mmap_list_size, mmap_list_use_max,
  mmap_list_hash, is_same_file, stat_entry, add_entry, Probed, hit, free, full, use_probed,
  find_mmap, release_mmap, is_live, count_live, IsTable,
}
use boa.MmapCache.Probe.{EndsRight, probe-EndsRight}

count_live-set :
    (l : List MmapEntry) (i : ℕ) (e : MmapEntry)
    → i < length l
    → count_live (set l i e) + is_live (entry_at l i) ≡ count_live l + is_live e
unfolding count_live
count_live-set [] i e h = elim h [ ]
count_live-set (x ∷ l) zero e h = omega arith
count_live-set (x ∷ l) (suc i) e h = omega (arith, count_live-set l i e (omega arith))

live_le : (l : List MmapEntry) (i : ℕ) → is_live (entry_at l i) ≤ count_live l
unfolding count_live
live_le [] i = omega arith
live_le (x ∷ l) zero = omega arith
live_le (x ∷ l) (suc i) = omega (arith, live_le l i)

-- What a call for the file `s` makes of the entries: no entry is given, and they are as they were;
-- or it gives an entry of the table that names the file and counts one user more than before, and
-- touches no other.
pub data Found (l : List MmapEntry) (s : Stat) (l' : List MmapEntry) : Option ℕ → Type 0 where
  nothing : l' ≡ l → Found l s l' none
  entry :
      (i : ℕ) (e : MmapEntry)
      → i < mmap_list_size
      → l' ≡ set l i e
      → is_same_file e s ≡ true
      → e.use_count ≡ (entry_at l i).use_count + 1
      → Found l s l' (some i)

stat_entry-is_same_file : (s : Stat) (address : ℕ) → is_same_file (stat_entry s address) s ≡ true
stat_entry-is_same_file s address = ground arith

add_entry-Found :
    (t : MmapTable) (s : Stat) (i : ℕ) (m : Option ℕ)
    → IsTable t
    → i < mmap_list_size
    → (entry_at t.mmap_list i).use_count ≡ 0
    → t.entries_used ≤ mmap_list_use_max
    → IsTable (add_entry t s i m).0
      × Found t.mmap_list s (add_entry t s i m).0.mmap_list (add_entry t s i m).1
unfolding add_entry
add_entry-Found t s i none h k unused room = (h, nothing refl)
add_entry-Found t s i (some a) h k unused room = (
  record {
    size = length-set t.mmap_list i (stat_entry s a) ∙ h.size;
    used =
        ground
          (arith, count_live-set t.mmap_list i (stat_entry s a) (omega (arith, h.size)), h.used);
    limit = omega arith;
  },
  entry i (stat_entry s a) k refl (stat_entry-is_same_file s a) (omega arith),
)

use_probed-Found :
    (t : MmapTable) (s : Stat) (m : Option ℕ) (p : Probed)
    → IsTable t
    → EndsRight t.mmap_list s p
    → IsTable (use_probed t s m p).0
      × Found t.mmap_list s (use_probed t s m p).0.mmap_list (use_probed t s m p).1
unfolding use_probed
use_probed-Found t s m full h r = (h, nothing refl)
use_probed-Found t s m (hit i) h (k, live, same) =
    let e = entry_at t.mmap_list i in
    let e' = record e { use_count = e.use_count + 1 } in
    (
      record {
        size = length-set t.mmap_list i e' ∙ h.size;
        used = ground (arith, count_live-set t.mmap_list i e' (omega (arith, h.size)), h.used);
        limit = h.limit;
      },
      entry i e' k refl same refl,
    )
use_probed-Found t s m (free i) h (k, unused) =
    elim (Bool-cases (ltb mmap_list_use_max t.entries_used)) [
      | inl crowded ↦ rw crowded (h, nothing refl)
      | inr room ↦ rw room (add_entry-Found t s i m h k unused (ground arith))
    ]

-- On a sound table find_mmap ends, whatever mmap(2) answers; the table stays sound, with at most
-- 129 entries in use; and either no entry is given and the entries are as before, or the given
-- entry names the file, counts one user more, and is the only one changed.
pub find_mmap-Found :
    (t : MmapTable) (s : Stat) (m : Option ℕ)
    → IsTable t
    → (t' : MmapTable) × (r : Option ℕ) × (find_mmap t s m ≡ some (t', r))
      × IsTable t'
      × Found t.mmap_list s t'.mmap_list r
unfolding find_mmap
find_mmap-Found t s m h =
    let start = mmap_list_hash s in
    let (p, b, e, right) =
      probe-EndsRight mmap_list_size t.mmap_list s start start t.hash_bounces (omega arith)
        (omega arith) (omega arith) in
    let t0 = record t { total_requests = t.total_requests + 1; hash_bounces = b } in
    let (sound, found) =
      use_probed-Found t0 s m p (record { size = h.size; used = h.used; limit = h.limit }) right in
    ((use_probed t0 s m p).0, (use_probed t0 s m p).1, rw (e, find_mmap), sound, found)

live_index : (l : List MmapEntry) (i : ℕ) → ((entry_at l i).use_count == 0) ≡ false → i < length l
live_index [] i h = absurd (ground arith)
live_index (x ∷ l) zero h = omega arith
live_index (x ∷ l) (suc i) h = omega (arith, live_index l i h)

abbrev released : List MmapEntry → ℕ → MmapEntry
released l i = let e = entry_at l i in record e { use_count = e.use_count - 1 }

-- release_mmap keeps a table sound, for a null pointer and for any entry, also one that nobody
-- uses.
pub release_mmap-IsTable : (t : MmapTable) (e : Option ℕ) → IsTable t → IsTable (release_mmap t e)
unfolding release_mmap
release_mmap-IsTable t none h = h
release_mmap-IsTable t (some i) h = elim (Bool-cases ((entry_at t.mmap_list i).use_count == 0)) [
  | inl unused ↦ rw unused h
  | inr live ↦
      let e = released t.mmap_list i in
      let counted = count_live-set t.mmap_list i e (live_index t.mmap_list i live) in
      elim (Bool-cases ((entry_at t.mmap_list i).use_count - 1 == 0)) [
        | inl last ↦
            rw (live, last)
              (record {
                size = length-set t.mmap_list i e ∙ h.size;
                used = ground (arith, counted, h.used);
                limit = omega (arith, h.limit);
              })
        | inr shared ↦
            rw (live, shared)
              (record {
                size = length-set t.mmap_list i e ∙ h.size;
                used = ground (arith, counted, h.used);
                limit = h.limit;
              })
      ]
]

mmap_list-release :
    (t : MmapTable) (i : ℕ)
    → ((entry_at t.mmap_list i).use_count == 0) ≡ false
    → (release_mmap t (some i)).mmap_list ≡ set t.mmap_list i (released t.mmap_list i)
unfolding release_mmap
mmap_list-release t i live = rw live (ground arith)

abbrev Undone : MmapTable → MmapTable → ℕ → Type 0
Undone t t' i =
    ((entry_at (release_mmap t' (some i)).mmap_list i).use_count
      ≡ (entry_at t.mmap_list i).use_count)
    × ((release_mmap t' (some i)).entries_used ≡ t.entries_used)

module _ (t t' : MmapTable) (i : ℕ) (e : MmapEntry) (h : IsTable t) (h' : IsTable t')
    (k : i < mmap_list_size) (written : t'.mmap_list ≡ set t.mmap_list i e)
    (counted : e.use_count ≡ (entry_at t.mmap_list i).use_count + 1) where
  entry_found : entry_at t'.mmap_list i ≡ e
  entry_found = rw written (get_or-set_self t.mmap_list i e empty_entry (omega (arith, h.size)))

  found_live : ((entry_at t'.mmap_list i).use_count == 0) ≡ false
  found_live = rw entry_found (ground arith)

  list_undone : (release_mmap t' (some i)).mmap_list ≡ set t'.mmap_list i (released t'.mmap_list i)
  list_undone = mmap_list-release t' i found_live

  count_undone :
      (entry_at (release_mmap t' (some i)).mmap_list i).use_count
      ≡ (entry_at t.mmap_list i).use_count
  count_undone =
      rw
        (
          list_undone,
          get_or-set_self t'.mmap_list i (released t'.mmap_list i) empty_entry
              (omega (arith, h'.size)),
          entry_found,
        )
        (omega arith)

  live_undone : count_live (set t'.mmap_list i (released t'.mmap_list i)) ≡ count_live t.mmap_list
  live_undone =
      let once = count_live-set t.mmap_list i e (omega (arith, h.size)) in
      let twice =
        count_live-set t'.mmap_list i (released t'.mmap_list i) (omega (arith, h'.size)) in
      let middle : count_live t'.mmap_list ≡ count_live (set t.mmap_list i e) =
        ap count_live written in
      ground (arith, once, twice, middle, entry_found)

  undone : Undone t t' i
  undone = (
    count_undone,
    (release_mmap-IsTable t' (some i) h').used ∙ rw (list_undone, live_undone) (sym h.used),
  )

Found-Undone :
    (t t' : MmapTable) (s : Stat) (i : ℕ)
    → IsTable t
    → IsTable t'
    → Found t.mmap_list s t'.mmap_list (some i)
    → Undone t t' i
Found-Undone t t' s i h h' (entry _ e k written same counted) =
    undone t t' i e h h' k written counted

-- On a sound table, releasing the entry that find_mmap has given leaves it with as many users as
-- before find_mmap, and as many entries in use.
pub release_mmap-find_mmap :
    (t t' : MmapTable) (s : Stat) (m : Option ℕ) (i : ℕ)
    → IsTable t
    → find_mmap t s m ≡ some (t', some i)
    → ((entry_at (release_mmap t' (some i)).mmap_list i).use_count
        ≡ (entry_at t.mmap_list i).use_count)
      × ((release_mmap t' (some i)).entries_used ≡ t.entries_used)
release_mmap-find_mmap t t' s m i h e =
    let (t2, r, e2, sound, found) = find_mmap-Found t s m h in
    let p : ◌≡◌ {A = MmapTable × Option ℕ} (t2, r) (t', some i) = cc (e2, e) in
    let (sound', found') =
      subst (λ (q : MmapTable × Option ℕ). IsTable q.0 × Found t.mmap_list s q.0.mmap_list q.1) p
        (sound, found) in
    Found-Undone t t' s i h sound' found'
