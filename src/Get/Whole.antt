-- ===== src/Get/Whole.antt =====
-- A file that is asked for as a whole: what `init_get` leaves for the sending of it.
use boa.Common.{
  ◌∙◌, ap, ℕ, zero, suc, ◌+◌, ◌-◌, ◌^◌, ◌≤◌, ◌<◌, ◌≡◌, refl, ap, ap₂, ◌∙◌, ◌⊎◌, inl, inr, Bool,
  true, false, not, Option, none, some, [], ◌∷◌, ◌++◌, arith, ltb, ◌==◌, Bool-cases, length, Bytes,
  suc-ne-zero, take_all,
}
use boa.Get.Copied.{copy_first-Progress}
use boa.Buffer.{Written}
use boa.Range.{
  Range, range, RangeState, ranges_fixup, fixup_loop, fix_stop, fix_start, is_bad, ulong_max,
}
use boa.HttpDate.{Tm}
use boa.Response.{is_head, Server}
use boa.Response.Files.{send_r_request_ok}
use boa.FileSend.Sent.{held, span, IsSend, Progress}
use boa.Get.{FileStat, regular, opened, Config, change, System, GetRequest}
use boa.Get.Header.{IsOrdered, IsOk, send_r_request_ok-IsOk}
use boa.Get.Serve.{
  is_current, serve_file, opened_file, by_open, init_get, map_file, with_ranges, serve_whole,
  begin_body, max_file_mmap, whole_range,
}

-- The range of a request without ranges is the whole file.
whole_range-fix_range :
    (size : ℕ)
    → 1 ≤ size
    → size < 2 ^ 63
    → fix_start size (fix_stop size (range 0 ulong_max)) ≡ range 0 (size - 1)
unfolding fix_stop fix_start
whole_range-fix_range size some_bytes small = ground arith

whole_range-is_bad : (size : ℕ) → is_bad (range 0 (size - 1)) ≡ false
unfolding is_bad
whole_range-is_bad size = ground arith

whole_range-fixup :
    (size : ℕ) (q : RangeState)
    → 1 ≤ size
    → size < 2 ^ 63
    → ((ranges_fixup size (whole_range q)).1 ≡ true)
      × ((ranges_fixup size (whole_range q)).0.ranges ≡ range 0 (size - 1) ∷ [])
unfolding ranges_fixup whole_range fixup_loop
whole_range-fixup zero q some_bytes small = absurd (omega arith)
whole_range-fixup (suc n) q some_bytes small =
    rw (suc-ne-zero n, whole_range-fix_range (suc n) some_bytes small, whole_range-is_bad (suc n))
      (refl, refl)

take-whole : (file : Bytes) → span file (range 0 (length file - 1)) ≡ file
take-whole file = take_all (length file - 1 + 1 - 0) file (omega arith)

-- The file is mapped, or it is read through the buffer.
abbrev pub IsData : Bytes → Option Bytes → Type 0
IsData file memory = (memory ≡ none) ⊎ ((memory ≡ some file) × (length file < 2 ^ 32))

below_max : (file : Bytes) → ltb max_file_mmap (length file) ≡ false → length file < 2 ^ 32
below_max file e = ground arith

-- The bytes that wait behind the header of a whole file.
abbrev pub with_header : Server → GetRequest → GetRequest
with_header s g = change (send_r_request_ok s) g

abbrev pub plain_file : Bytes → Tm → FileStat
plain_file file mtime = record { kind = regular; size = length file; mtime = mtime }

-- What `init_get` takes from fstat(2).
abbrev pub with_stat : Bytes → Tm → GetRequest → GetRequest
with_stat file mtime g = change (λ r. record r { filesize = length file; last_modified = mtime }) g

module _ (s : Server) (w : Written) (y : System) where
  begin_body-Progress :
      (file total : Bytes) (r : Range) (g : GetRequest)
      → is_head g.send.reply.method ≡ false
      → y.copies ≡ true
      → IsData file g.data_mem
      → IsSend file total r g.send
      → Progress file total (begin_body s w y g).0.send
  unfolding begin_body
  begin_body-Progress file total r g no_head well (inl d) i = rw (no_head, d) (inl (r, i))
  begin_body-Progress file total r g no_head well (inr (d, small)) i =
      rw (no_head, d)
        (copy_first-Progress s w y file total r g well (omega (arith, small, i.inside, i.forward))
          i)

  with_header-IsSend :
      (file client : Bytes) (g : GetRequest)
      → g.send.client ≡ client
      → g.send.reply.ranges.ranges ≡ range 0 (length file - 1) ∷ []
      → 1 ≤ length file
      → IsOrdered g.send.reply.out
      → IsSend file
          (client ++ held (send_r_request_ok s g.send.reply).out ++ file)
          (range 0 (length file - 1))
          (with_header s g).send
  with_header-IsSend file client g same ranged some_bytes o = record {
    ranged = ap (λ (q : RangeState). q.ranges) k.ranges ∙ ranged;
    whole =
        ap₂ (λ c t. c ++ held (send_r_request_ok s g.send.reply).out ++ t) same (take-whole file);
    ordered = k.ordered;
    forward = omega arith;
    inside = omega (arith, some_bytes);
    single = rw (k.status) refl;
  }
    where
      k : IsOk g.send.reply (send_r_request_ok s g.send.reply)
      k = send_r_request_ok-IsOk s g.send.reply o

  -- The requests that `map_file` gives.
  mapped_request :
      (file : Bytes) (g : GetRequest)
      → g.data_mem ≡ none
      → (y.find_mmap ≡ none) ⊎ (y.find_mmap ≡ some file)
      → IsOrdered g.send.reply.out
      → (IsData file (map_file s w y (length file) g).data_mem)
        × ((map_file s w y (length file) g).send.client ≡ g.send.client)
        × ((map_file s w y (length file) g).send.reply.method ≡ g.send.reply.method)
        × IsOrdered (map_file s w y (length file) g).send.reply.out
  unfolding map_file
  mapped_request file g fresh m o = elim (Bool-cases (ltb max_file_mmap (length file))) [
    | inl e ↦ rw (e) (inl fresh, refl, refl, o)
    | inr e ↦ elim m [
      | inl n ↦ rw (e, n) (inl fresh, refl, refl, o)
      | inr n ↦ rw (e, n) (inr (refl, below_max file e), refl, refl, o)
    ]
  ]

  -- The request with the header of the whole file in its buffer.
  abbrev pub headed_whole : ℕ → GetRequest → GetRequest
  headed_whole size g =
      let g = map_file s w y size g in
      with_header s (with_ranges s w y (ranges_fixup size (whole_range g.send.reply.ranges)).0 g)

  serve_whole-Progress :
      (file : Bytes) (g : GetRequest)
      → is_head g.send.reply.method ≡ false
      → y.copies ≡ true
      → 1 ≤ length file
      → length file < 2 ^ 63
      → g.data_mem ≡ none
      → (y.find_mmap ≡ none) ⊎ (y.find_mmap ≡ some file)
      → IsOrdered g.send.reply.out
      → Progress file
          (g.send.client ++ held (headed_whole (length file) g).send.reply.out ++ file)
          (serve_whole s w y (length file) g).0.send
  unfolding serve_whole
  serve_whole-Progress file g no_head well some_bytes small fresh m o =
      let (data_mem, client, method, ordered) = mapped_request file g fresh m o in
      let (kept, ranged) =
        whole_range-fixup (length file) mapped.send.reply.ranges some_bytes small in
      rw (kept) (
        begin_body-Progress file _ (range 0 (length file - 1)) (headed_whole (length file) g)
          (ap is_head ((send_r_request_ok-IsOk s ranged_request.send.reply ordered).method ∙ method)
            ∙ no_head)
          well data_mem
          (with_header-IsSend file g.send.client ranged_request client ranged some_bytes ordered))
    where
      mapped : GetRequest
      mapped = map_file s w y (length file) g

      ranged_request : GetRequest
      ranged_request =
          with_ranges s w y (ranges_fixup (length file) (whole_range mapped.send.reply.ranges)).0
            mapped

  not_empty : (n : ℕ) → 1 ≤ n → (n == 0) ≡ false
  not_empty n h = ground arith

  -- A GET or POST request without ranges for a path that open(2) finds to be a regular file of at
  -- least one and less than 2 ^ 63 bytes, which access_allow admits, which is not ruled out by
  -- If-Modified-Since, which find_mmap has either mapped as it is or not at all, with no SIGBUS
  -- in the copy from the map: behind init_get, what the client has, the header in the buffer and
  -- the whole file are what the client has, what the buffer holds and what is still to be sent of
  -- the range; or they are what the client has and what the buffer holds, and the request is
  -- done.
  pub init_get-Progress :
      (c : Config) (file : Bytes) (mtime : Tm) (g : GetRequest)
      → y.open_file g.pathname ≡ opened (plain_file file mtime)
      → y.access_allow g.pathname ≡ true
      → is_current s w y g.if_modified_since (plain_file file mtime) ≡ false
      → g.send.reply.ranges.ranges ≡ []
      → is_head g.send.reply.method ≡ false
      → y.copies ≡ true
      → 1 ≤ length file
      → length file < 2 ^ 63
      → g.data_mem ≡ none
      → (y.find_mmap ≡ none) ⊎ (y.find_mmap ≡ some file)
      → IsOrdered g.send.reply.out
      → Progress file
          (g.send.client
            ++ held (headed_whole (length file) (with_stat file mtime g)).send.reply.out
            ++ file)
          (init_get s w c y g).0.send
  unfolding init_get by_open opened_file serve_file
  init_get-Progress c file mtime g found allowed newer plain no_head well some_bytes small fresh m
        o =
      rw
        (
          found,
          ap {B = Bool} not allowed,
          newer,
          not_empty (length file) some_bytes,
          ap {B = Bool} (λ l. elim l [ [] ↦ false | _ ∷ _ ↦ true ]) plain,
        )
        (serve_whole-Progress file (with_stat file mtime g) no_head well some_bytes small fresh m o)
