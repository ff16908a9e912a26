-- ===== src/Buffer/Flush.antt =====
-- `req_write` and `req_flush`: bounds, and what has been sent.
use boa.Common.{
  take-append-drop, drop-drop, drop_all, ℕ, ◌+◌, ◌-◌, ◌≤◌, ◌<◌, ◌≡◌, refl, sym, ap, ◌∙◌, ◌↔◌, inl,
  inr, false, none, some, [], ◌∷◌, ◌++◌, append-nil, arith, ◌==◌, eq-of-==, Bool-cases, length,
  take, drop, length-append, Bytes,
}
use boa.Status.{is_over}
use boa.Buffer.{
  OutBuf, buffer_end, buffer_size, req_write, Written, wrote, would_block, failed, stored, settle,
  req_flush, IsOutBuf,
}

-- The bytes that still have to be sent.
abbrev pub pending : OutBuf → Bytes
pending o = drop o.buffer_start o.content

-- `write` takes no more bytes than it is given.
abbrev pub IsAnswer : OutBuf → Written → Type 0
IsAnswer o (wrote n) = n ≤ buffer_end o - o.buffer_start
IsAnswer o _ = Unit {0}

-- A live request with room for the message gets all of it behind the old content, and the result
-- is the new end.
pub req_write-append :
    (msg : Bytes) (o : OutBuf)
    → is_over o.status ≡ false
    → buffer_end o + length msg ≤ buffer_size
    → req_write msg o ≡ (record o { content = o.content ++ msg }, some (buffer_end o + length msg))
unfolding req_write
req_write-append [] o live room = rw append-nil (ground arith)
req_write-append (c ∷ msg) o live room = ground arith

-- req_write keeps the pointers of the buffer valid, whatever the message, and its result is -1
-- exactly if a live request has no room for the message.
pub req_write-IsOutBuf :
    (msg : Bytes) (o : OutBuf)
    → IsOutBuf o
    → IsOutBuf (req_write msg o).0
      × (((req_write msg o).1 ≡ none)
          ↔ ((is_over o.status ≡ false) × (buffer_size < buffer_end o + length msg)))
unfolding req_write
req_write-IsOutBuf msg o h =
    (ground (arith, length-append o.content msg), (λ e. ground arith, λ e. ground arith))

req_flush-IsOutBuf :
    (w : Written) (o : OutBuf) → IsAnswer o w → IsOutBuf o → IsOutBuf (req_flush w o).0
unfolding req_flush
req_flush-IsOutBuf (wrote n) o a h = ground arith
req_flush-IsOutBuf would_block o a h = ground arith
req_flush-IsOutBuf failed o a h = ground arith

pending-settle : (o : OutBuf) → o.buffer_start ≤ buffer_end o → pending (settle o).0 ≡ pending o
pending-settle o h = elim (Bool-cases (o.buffer_start == buffer_end o)) [
  | inl e ↦ rw (e, drop_all o.buffer_start o.content (omega (arith, eq-of-== _ _ e)))
  | inr e ↦ rw e
]

stored-settle : (o : OutBuf) → (settle o).1 ≡ stored (buffer_end (settle o).0)
stored-settle o = ground arith

-- For a live request with valid pointers, when write(2) takes n of the pending bytes, these n bytes
-- and those pending behind req_flush are together what was pending before, in order; and the result
-- is the new end of the buffer.
pub req_flush-wrote :
    (n : ℕ) (o : OutBuf)
    → IsOutBuf o
    → is_over o.status ≡ false
    → n ≤ buffer_end o - o.buffer_start
    → (pending o ≡ take n (pending o) ++ pending (req_flush (wrote n) o).0)
      × ((req_flush (wrote n) o).1 ≡ stored (buffer_end (req_flush (wrote n) o).0))
unfolding req_flush
req_flush-wrote n o h live fits = elim (Bool-cases (buffer_end o - o.buffer_start == 0)) [
  | inl e ↦
      let none_sent : n ≡ 0 = omega (arith, eq-of-== _ _ e) in
      rw (live, e, none_sent, pending-settle o h.ordered) (refl, stored-settle o)
  | inr e ↦
      let o' = record o { buffer_start = o.buffer_start + n } in
      rw (live, e, pending-settle o' (omega (arith, h.ordered)))
        (
          sym (
              ap (λ t. take n (pending o) ++ t) (sym (drop-drop o.buffer_start n o.content))
              ∙ take-append-drop n (pending o)),
          stored-settle o',
        )
]
