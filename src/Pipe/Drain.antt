-- ===== src/Pipe/Drain.antt =====
-- Behind the end of the program's output the request ends, if the socket takes something each time.
use boa.Common.{
  ◌∙◌, sym, ap, ℕ, zero, suc, ◌+◌, ◌≤◌, ◌≡◌, refl, sym, ap, ◌∙◌, ◌⊎◌, inl, inr, true, false, [],
  ◌++◌, append-nil, arith, ◌==◌, if◌then◌else◌, eq-of-==, Bool-cases, length, take, Bytes,
}
use boa.Status.{ReqStatus, pipe_read, pipe_write, Retval, finished, more, cgi_done}
use boa.Body.{write_again, put}
use boa.Pipe.{
  Pipe, pipe_eof, waiting, is_done, bytes_to_read, rewind, write_from_pipe, read_from_pipe,
}
use boa.Pipe.Relay.{
  put-IsPipe, put_all-IsPipe, rewind-IsPipe, unsent, IsPipe, status-IsPipe, all_sent,
}

module _ (process_cgi_header : Pipe → Pipe × Retval) (socket : ℕ → ℕ) where
  -- One round of the main loop: the program has ended, and of n bytes the socket takes socket n.
  unfoldable pub pipe_round : ReqStatus → Pipe → Pipe × Retval
  pipe_round pipe_write p = write_from_pipe p (put (socket (waiting p)))
  pipe_round _ p = read_from_pipe process_cgi_header p pipe_eof write_again

  unfoldable pub next_round : (Pipe → Pipe × Retval) → Pipe × Retval → Pipe × Retval
  next_round k (p, more) = k p
  next_round k (p, r) = (p, r)

  -- At most `fuel` rounds.
  unfoldable pub drain : ℕ → Pipe → Pipe × Retval
  drain zero p = (p, more)
  drain (suc fuel) p = next_round (λ q. drain fuel q) (pipe_round p.status p)

  abbrev Ends : Bytes → ℕ → Pipe → Type 0
  Ends out fuel p = ((drain fuel p).1 ≡ finished) × ((drain fuel p).0.client ≡ out)

  Ends-round :
      (out : Bytes) (fuel : ℕ) (p q : Pipe)
      → pipe_round p.status p ≡ (q, more)
      → Ends out fuel q
      → Ends out (suc fuel) p
  unfolding drain next_round
  Ends-round out fuel p q e h = rw (e) h

  module _ (takes_some : (n : ℕ) → 1 ≤ n → (1 ≤ socket n) × (socket n ≤ n)) (out : Bytes) where
    -- Nothing waits, and the end has been seen.
    Ends-done :
        (fuel : ℕ) (p : Pipe)
        → IsPipe out [] p
        → p.status ≡ pipe_write
        → is_done p.cgi_status ≡ true
        → waiting p ≡ 0
        → 1 ≤ fuel
        → Ends out fuel p
    unfolding drain next_round pipe_round write_from_pipe
    Ends-done zero p i s d w f = absurd (omega (arith, f))
    Ends-done (suc fuel) p i s d w f =
        rw (s, w, d) (refl, sym (append-nil p.client) ∙ all_sent out [] p w i)

    -- The buffer is empty.
    Ends-empty :
        (fuel : ℕ) (p : Pipe)
        → IsPipe out [] p
        → p.status ≡ pipe_read
        → p.content ≡ []
        → 2 ≤ fuel
        → Ends out fuel p
    unfolding pipe_round read_from_pipe
    Ends-empty zero p i s c f = absurd (omega (arith, f))
    Ends-empty (suc fuel) p i s c f =
        Ends-round out fuel p (record p { status = pipe_write; cgi_status = cgi_done })
          (rw (s, c, i.parsed) refl)
          (Ends-done fuel (record p { status = pipe_write; cgi_status = cgi_done })
            (status-IsPipe out [] p pipe_write cgi_done refl (inl refl) i) refl refl
            (omega (arith, ap length c)) (omega (arith, f)))

    abbrev advanced : ℕ → Pipe → Pipe
    advanced n p = record p {
      header_line = p.header_line + n;
      bytes_written = p.bytes_written + n;
      client = p.client ++ take n (unsent p);
    }

    write_some :
        (p q : Pipe)
        → p.status ≡ pipe_write
        → 1 ≤ waiting p
        → (if socket (waiting p) == waiting p
            then rewind (advanced (socket (waiting p)) p)
            else advanced (socket (waiting p)) p)
          ≡ q
        → pipe_round p.status p ≡ (q, more)
    unfolding pipe_round write_from_pipe
    write_some p q s w e = ap (λ st. pipe_round st p) s ∙ rw (not_zero, e) refl
      where
        not_zero : (waiting p == 0) ≡ false
        not_zero = ground (arith, w)

    Ends-write :
        (fuel : ℕ) (p : Pipe)
        → IsPipe out [] p
        → p.status ≡ pipe_write
        → 1 ≤ waiting p
        → waiting p + 2 ≤ fuel
        → Ends out fuel p
    Ends-write zero p i s w f = absurd (omega (arith, f))
    Ends-write (suc fuel) p i s w f = elim (Bool-cases (n == waiting p)) [
      | inl e ↦ Ends-round out fuel p (rewind (advanced n p)) (write_some p _ s w (rw (e) refl)) (
          Ends-empty fuel (rewind (advanced n p)) (put_all-IsPipe out [] p n (eq-of-== _ _ e) i)
            refl refl (omega (arith, w, f)))
      | inr e ↦ Ends-round out fuel p (advanced n p) (write_some p _ s w (rw (e) refl)) (
          Ends-write fuel (advanced n p)
            (put-IsPipe out [] p n (ground (arith, (takes_some (waiting p) w).1, e)) w i) s
            (ground (arith, (takes_some (waiting p) w).1, e))
            (omega (arith, f, w, (takes_some (waiting p) w).0)))
    ]
      where
        n : ℕ
        n = socket (waiting p)

    -- Nothing waits, and the end has not been seen.
    Ends-unseen :
        (fuel : ℕ) (p : Pipe)
        → IsPipe out [] p
        → p.status ≡ pipe_write
        → is_done p.cgi_status ≡ false
        → waiting p ≡ 0
        → 3 ≤ fuel
        → Ends out fuel p
    unfolding pipe_round write_from_pipe
    Ends-unseen zero p i s d w f = absurd (omega (arith, f))
    Ends-unseen (suc fuel) p i s d w f =
        Ends-round out fuel p (rewind p) (ap (λ st. pipe_round st p) s ∙ rw (w, d) refl) (
          Ends-empty fuel (rewind p)
            (rewind-IsPipe out [] p (all_sent out [] p w i) i.parsed i.counted) refl refl
            (omega (arith, f)))

    Ends-writing :
        (fuel : ℕ) (p : Pipe)
        → IsPipe out [] p
        → p.status ≡ pipe_write
        → waiting p + 3 ≤ fuel
        → Ends out fuel p
    Ends-writing fuel p i s f = elim (Bool-cases (waiting p == 0)) [
      | inl z ↦ elim (Bool-cases (is_done p.cgi_status)) [
        | inl d ↦ Ends-done fuel p i s d (eq-of-== _ _ z) (omega (arith, f))
        | inr d ↦ Ends-unseen fuel p i s d (eq-of-== _ _ z) (omega (arith, f))
      ]
      | inr z ↦ Ends-write fuel p i s (ground (arith, z)) (omega (arith, f))
    ]

    -- Behind the end of the program's output, from any state of the relay in which nothing is
    -- left to read, if the socket takes at least one byte of what it is given each time, the
    -- request ends within four rounds more than bytes wait, and the client has then got all of
    -- the output.
    pub drain-finished :
        (p : Pipe)
        → IsPipe out [] p
        → (p.status ≡ pipe_read) ⊎ (p.status ≡ pipe_write)
        → ((drain (waiting p + 4) p).1 ≡ finished) × ((drain (waiting p + 4) p).0.client ≡ out)
    unfolding pipe_round read_from_pipe
    drain-finished p i (inr s) = Ends-writing (waiting p + 4) p i s (omega arith)
    drain-finished p i (inl s) = rw (count) (elim (Bool-cases (bytes_to_read p == 0)) [
      | inl z ↦
          Ends-round out (waiting p + 3) p (record p { status = pipe_write })
            (ap (λ st. pipe_round st p) s ∙ rw (z, i.parsed) refl)
            (Ends-writing (waiting p + 3) (record p { status = pipe_write })
              (status-IsPipe out [] p pipe_write p.cgi_status i.parsed (inl refl) i) refl
              (omega arith))
      | inr z ↦
          Ends-round out (waiting p + 3) p (record p { status = pipe_write; cgi_status = cgi_done })
            (ap (λ st. pipe_round st p) s ∙ rw (z, i.parsed) refl)
            (Ends-writing (waiting p + 3) (record p { status = pipe_write; cgi_status = cgi_done })
              (status-IsPipe out [] p pipe_write cgi_done refl (inl refl) i) refl (omega arith))
    ])
      where
        count : waiting p + 4 ≡ suc (waiting p + 3)
        count = omega arith
