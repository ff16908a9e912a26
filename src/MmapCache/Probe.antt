-- ===== src/MmapCache/Probe.antt =====
-- The loop of `find_mmap` ends, at an entry of the table.
use boa.Common.{
  ℕ, zero, suc, ◌+◌, ◌-◌, ◌%◌, ◌<◌, ◌≡◌, ◌≢◌, inl, inr, true, some, List, arith, ◌==◌, eq-of-==,
  Bool-cases,
}
use boa.MmapCache.{
  MmapEntry, Stat, entry_at, mmap_list_size, mmap_list_next, is_same_file, Probed, hit, free, full,
  probe,
}

-- The rounds that are left when the loop stands at `i`.
abbrev pub rounds : ℕ → ℕ → ℕ
rounds start i = (start + 255 - i) % 256

-- What an end of the loop says about the table.
abbrev pub EndsRight : List MmapEntry → Stat → Probed → Type 0
EndsRight l s (hit i) =
    (i < mmap_list_size) × ((entry_at l i).use_count ≢ 0) × (is_same_file (entry_at l i) s ≡ true)
EndsRight l s (free i) = (i < mmap_list_size) × ((entry_at l i).use_count ≡ 0)
EndsRight l s full = Unit {0}

pub probe-EndsRight :
    (f : ℕ) (l : List MmapEntry) (s : Stat) (start i bounces : ℕ)
    → start < mmap_list_size
    → i < mmap_list_size
    → rounds start i < f
    → (p : Probed) × (b : ℕ) × (probe f l s start i bounces ≡ some (p, b)) × EndsRight l s p
unfolding probe
probe-EndsRight zero l s start i bounces h k r = absurd (omega arith)
probe-EndsRight (suc f) l s start i bounces h k r =
    elim (Bool-cases ((entry_at l i).use_count == 0)) [
      | inl unused ↦ (free i, bounces, rw unused, (k, eq-of-== _ _ unused))
      | inr used ↦ elim (Bool-cases (is_same_file (entry_at l i) s)) [
        | inl same ↦ (hit i, bounces, rw (used, same), (k, ground arith, same))
        | inr differs ↦ elim (Bool-cases (mmap_list_next i == start)) [
          | inl round ↦ (full, bounces + 1, rw (used, differs, round), tt)
          | inr on ↦
              let (p, b, e, right) =
                probe-EndsRight f l s start (mmap_list_next i) (bounces + 1) h (omega arith)
                  (ground arith) in
              (p, b, rw (used, differs, on) e, right)
        ]
      ]
    ]
