-- ===== src/Header.antt =====
-- src/read.c, `read_header`: the scanner that cuts the stream of a client into header lines.
--
-- What a complete line is handed to, process_logline or process_option_line, and
-- process_header_end are arguments: a session is what they read and change. The pointers
-- header_line, check and header_end are the bytes since header_line and the length of their part
-- before header_end. An error reply is what the function returns.
pub mod Lines
use boa.Common.{
  ◌∙◌, sym, ap, ℕ, zero, suc, ◌+◌, ◌-◌, ◌*◌, ◌/◌, ◌%◌, ◌^◌, ◌≤◌, ◌<◌, min, ◌≡◌, refl, sym, ap, ap₂,
  ◌∙◌, ◌≢◌, ◌↔◌, ◌⊎◌, inl, inr, Bool, true, false, not, ◌&&◌, ◌||◌, Option, none, some, List, [],
  ◌∷◌, ◌++◌, map, append-nil, append_assoc, arith, ltb, leb, ◌==◌, if◌then◌else◌, within, ==_iff,
  eq-of-==, ==_refl, Bool-cases, Option-cases, and-eq-true, length, get_or, set, take, drop,
  replicate, length-append, length-set, length-take, length-drop, get_or-set_self, get_or-set_ne,
  All, All-append, Bytes, codes, str_eq, str_eq_iff, starts, suc-ne-zero, check_range,
  check_range-below, bool_eq, bool_eq_iff, member, take-append-drop, get_or-drop,
}
use boa.Status.{ReqStatus, read_header, one_cr, one_lf, two_cr, body_read}

-- The bytes that are not refused.
unfoldable pub is_legal : ℕ → Bool
is_legal c = c == 13 || c == 10 || c == 9 || within 32 127 c

-- The `switch` on the status.
unfoldable pub next_status : ReqStatus → ℕ → ReqStatus
next_status read_header c = if c == 13 then one_cr else if c == 10 then one_lf else read_header
next_status one_cr c = if c == 10 then one_lf else if c == 13 then one_cr else read_header
next_status one_lf c = if c == 13 then two_cr else if c == 10 then body_read else read_header
next_status two_cr c = if c == 10 then body_read else if c == 13 then two_cr else read_header
next_status st c = st

abbrev pub is_read_header : ReqStatus → Bool
is_read_header read_header = true
is_read_header _ = false

abbrev pub max_header_length : ℕ
max_header_length = 1536

pub record HeaderScan (S : Type 0) : Type 0 where
  pub status : ReqStatus
  pub line : Bytes
  pub header_end : ℕ
  pub session : S

-- What becomes of the session with a line, or what the function returns at once.
pub data LineDone (S R : Type 0) : Type 0 where
  goes_on : S → LineDone S R
  returns : R → LineDone S R

-- One round of the `while`.
pub data Round (S R : Type 0) : Type 0 where
  next : HeaderScan S → Round S R
  stops : R → Round S R

-- The end of the `while`: the bytes are used up, or the function returns in front of the rest.
pub data Scanned (S R : Type 0) : Type 0 where
  waits : HeaderScan S → Scanned S R
  stopped : R → (rest : Bytes) → Scanned S R

module _ {S R : Type 0} (bad_request : R) (process_line : S → Bytes → LineDone S R)
    (process_header_end : S → R) where
  unfoldable pub line_done : ℕ → LineDone S R → Round S R
  line_done end (goes_on s) =
      next (record { status = one_lf; line = []; header_end = end; session = s })
  line_done end (returns r) = stops r

  -- The part of the round behind the `switch`.
  unfoldable pub after_switch : ReqStatus → Bytes → ℕ → S → Round S R
  after_switch one_lf line end s =
      let done = line_done end (process_line s (take end line)) in
      if leb max_header_length end then stops bad_request else done
  after_switch body_read line end s = stops (process_header_end s)
  after_switch st line end s =
      next (record { status = st; line = line; header_end = end; session = s })

  unfoldable pub read_char : ℕ → HeaderScan S → Round S R
  read_char c q =
      let end =
        if is_read_header q.status && (c == 13 || c == 10) then length q.line else q.header_end in
      if is_legal c
      then after_switch (next_status q.status c) (q.line ++ c ∷ []) end q.session
      else stops bad_request

  unfoldable pub read_loop : Bytes → HeaderScan S → Scanned S R
  read_loop [] q = waits q
  read_loop (c ∷ s) q = elim (read_char c q) [ next q' ↦ read_loop s q' | stops r ↦ stopped r s ]

  -- The scanner goes on where it stood.
  unfoldable pub resume : Scanned S R → Bytes → Scanned S R
  resume (waits q) more = read_loop more q
  resume (stopped r rest) more = stopped r (rest ++ more)

  -- For any line handler and any end of the header, from any state, it does not matter how the
  -- stream is cut into reads: scanning two pieces one after the other, if the first does not end
  -- the request, is scanning them as one.
  pub read_loop-append :
      (a b : Bytes) (q : HeaderScan S) → read_loop (a ++ b) q ≡ resume (read_loop a q) b
  unfolding read_loop resume
  read_loop-append [] b q = refl
  read_loop-append (c ∷ a) b q = go (read_char c q) (λ q'. read_loop-append a b q')
    where
      go :
          (p : Round S R)
          → ((q' : HeaderScan S) → read_loop (a ++ b) q' ≡ resume (read_loop a q') b)
          → elim p [ next q' ↦ read_loop (a ++ b) q' | stops r ↦ stopped r (a ++ b) ]
            ≡ resume (elim p [ next q' ↦ read_loop a q' | stops r ↦ stopped r a ]) b
      go (next q') tail = tail q'
      go (stops r) tail = refl
