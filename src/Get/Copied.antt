-- ===== src/Get/Copied.antt =====
-- The bytes of a mapped file that are copied behind the header.
use boa.Common.{
  sym, ap, ℕ, ◌+◌, ◌-◌, ◌%◌, ◌^◌, ◌≤◌, ◌<◌, min, ◌≡◌, refl, sym, ap, inl, inr, Bool, true, false,
  ◌++◌, arith, leb, ◌==◌, if◌then◌else◌, eq-of-==, length, take, drop, length-take, length-drop,
  Bytes, take-append-drop,
}
use boa.Status.{Retval}
use boa.Buffer.{Written, buffer_size}
use boa.Range.{Range}
use boa.Response.{Server, first_range}
use boa.FileSend.{FileSend}
use boa.FileSend.Sent.{IsSend, Progress, filled-IsSend, complete-IsSent, same_range}
use boa.Get.{System, GetRequest, GetEnd, returns}
use boa.Get.Serve.{take_first, after_copy, copy_first}

-- More bytes are counted as written.
counted :
    (taken : Bytes) (f : FileSend) (r : Range) (file total : Bytes)
    → IsSend file total r f
    → IsSend file total r (record f { bytes_written = f.bytes_written + length taken })
counted taken f r file total i =
    same_range file total r f (record f { bytes_written = f.bytes_written + length taken }) refl
      refl refl i.ordered i

shorter :
    (n m : ℕ) (r : Range)
    → n ≡ m
    → n ≤ r.stop - r.start + 1
    → (n == r.stop - r.start + 1) ≡ false
    → r.start ≤ r.stop
    → m < r.stop + 1 - r.start
shorter n m r e few a o = ground arith

module _ (s : Server) (w : Written) where
  after_copy-Progress :
      (file total taken rest : Bytes) (r : Range) (g : GetRequest) (n : ℕ) (all : Bool)
      → n ≡ length taken
      → (n == r.stop - r.start + 1) ≡ all
      → n ≤ r.stop - r.start + 1
      → drop r.start file ≡ taken ++ rest
      → IsSend file total r g.send
      → Progress file total (after_copy s w all (take_first n taken g.send) g).0.send
  unfolding after_copy
  after_copy-Progress file total taken rest r g n true e a few d i = rw (e) (
      inr (
        complete-IsSent s w file total taken rest r
          (record g.send { bytes_written = g.send.bytes_written + length taken })
          (omega (arith, sym e, eq-of-== n _ a, i.forward)) d
          (counted taken g.send r file total i)))
  after_copy-Progress file total taken rest r g n false e a few d i = rw (e) (
      inl (
        record r { start = r.start + length taken },
        filled-IsSend file total taken rest r
            (record g.send { bytes_written = g.send.bytes_written + length taken })
            (shorter n (length taken) r e few a i.forward) d (counted taken g.send r file total i),
      ))

  pub copy_first-Progress :
      (y : System) (file total : Bytes) (r : Range) (g : GetRequest)
      → y.copies ≡ true
      → r.stop - r.start + 1 < 2 ^ 32
      → IsSend file total r g.send
      → Progress file total (copy_first s w y file g).0.send
  unfolding copy_first
  copy_first-Progress y file total r g well small i =
      rw (ap (λ l. first_range l) i.ranged, fits, well)
        (by_room (leb (buffer_size - length g.send.reply.out.content) 256))
    where
      fits : (r.stop - r.start + 1) % 2 ^ 32 ≡ r.stop - r.start + 1
      fits = omega (arith, small)

      n : ℕ
      n = min (buffer_size - length g.send.reply.out.content) (r.stop - r.start + 1)

      taken : Bytes
      taken = take n (drop r.start file)

      by_room :
          (b : Bool)
          → Progress file total
              (if◌then◌else◌ {A = GetRequest × GetEnd} b
                (g, returns Retval.more)
                (after_copy s w (n == r.stop - r.start + 1) (take_first n taken g.send) g)).0.send
      by_room true = inl (r, i)
      by_room false =
          after_copy-Progress file total taken (drop n (drop r.start file)) r g n
            (n == r.stop - r.start + 1)
            (omega (
              arith,
              length-take n (drop r.start file),
              length-drop r.start file,
              i.inside,
              i.forward,
            ))
            refl (omega arith) (sym (take-append-drop n (drop r.start file))) i
