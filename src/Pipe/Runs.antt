-- ===== src/Pipe/Runs.antt =====
-- The runs of the two functions, a call for each round of the main loop as the status says.
use boa.Common.{
  ◌∙◌, sym, ap, ◌≤◌, ◌≡◌, refl, sym, ap, ◌∙◌, ◌⊎◌, inl, inr, true, false, [], ◌++◌, append-nil,
  append_assoc, arith, ◌==◌, if◌then◌else◌, eq-of-==, Bool-cases, length, length-append, Bytes,
  drop-append,
}
use boa.Status.{pipe_read, pipe_write, dead, Retval, blocked, finished, more, cgi_done}
use boa.Body.{WriteAnswer, write_again, write_intr, write_error, put}
use boa.Body.Relay.{IsWriteAnswer}
use boa.Pipe.{
  Pipe, PipeAnswer, pipe_intr, pipe_again, pipe_error, pipe_eof, got, waiting, is_parse, is_done,
  bytes_to_read, write_from_pipe, after_read, read_from_pipe,
}
use boa.Pipe.Relay.{
  Reads, interrupted, again, failed, ended, some_bytes, unsent, IsPipe, write_from_pipe-IsPipe,
  status-IsPipe, dead-ne, all_sent,
}

-- The write behind a read is asked to take what waits with the bytes that were read.
abbrev pub IsNext : Pipe → PipeAnswer → WriteAnswer → Type 0
IsNext p (got bytes) w = IsWriteAnswer (waiting (record p { content = p.content ++ bytes })) w
IsNext p _ w = Unit

got-IsPipe :
    (out rest bytes : Bytes) (p : Pipe)
    → 1 ≤ length bytes
    → length bytes ≤ bytes_to_read p
    → IsPipe out (bytes ++ rest) p
    → IsPipe out rest (record p { content = p.content ++ bytes })
got-IsPipe out rest bytes p l u i = record {
  whole =
      ap (λ t. p.client ++ t ++ rest) (drop-append p.header_line p.content bytes i.ordered)
      ∙ ap (λ t. t ++ rest) (sym (append_assoc p.client (unsent p) bytes))
      ∙ append_assoc (p.client ++ unsent p) bytes rest
      ∙ i.whole;
  parsed = i.parsed;
  ordered = omega (arith, i.ordered, length-append p.content bytes);
  bounded = omega (arith, u, i.bounded, length-append p.content bytes);
  not_stuck = inr (omega (arith, l, i.ordered, length-append p.content bytes));
  has_more = inr (inr (omega (arith, l, i.ordered, length-append p.content bytes)));
  counted = i.counted;
}

module _ (process_cgi_header : Pipe → Pipe × Retval) where
  -- One more call of read_from_pipe keeps the relay.
  pub read_from_pipe-IsPipe :
      (out rest rest' : Bytes) (p : Pipe) (a : PipeAnswer) (w : WriteAnswer)
      → Reads (bytes_to_read p) rest a rest'
      → IsNext p a w
      → IsPipe out rest p
      → IsPipe out rest' (read_from_pipe process_cgi_header p a w).0
  unfolding read_from_pipe after_read
  read_from_pipe-IsPipe out rest rest' p a w r n i = elim (Bool-cases (bytes_to_read p == 0)) [
    | inl z ↦ rw (z, i.parsed) (full rest' a r z)
    | inr z ↦ rw (z) (by_answer rest' a r n)
  ]
    where
      still : (1 ≤ waiting p) → IsPipe out rest (record p { status = pipe_write })
      still h = status-IsPipe out rest p pipe_write p.cgi_status i.parsed (inr (inr h)) i

      some_waiting : (bytes_to_read p == 0) ≡ true → 1 ≤ waiting p
      some_waiting z = elim i.not_stuck [
        | inl h ↦ absurd (ground (arith, h, z))
        | inr h ↦ omega (arith, h)
      ]

      full :
          (after : Bytes) (a : PipeAnswer)
          → Reads (bytes_to_read p) rest a after
          → (bytes_to_read p == 0) ≡ true
          → IsPipe out after (record p { status = pipe_write })
      full _ _ interrupted z = still (some_waiting z)
      full _ _ again z = still (some_waiting z)
      full _ _ failed z = still (some_waiting z)
      full _ _ (ended e) z = still (some_waiting z)
      full _ _ (some_bytes bytes _ l u e) z =
          absurd (omega (arith, l, u, eq-of-== (bytes_to_read p) 0 z))

      answered : PipeAnswer → Pipe × Retval
      answered a = elim a [
        | pipe_intr ↦ (p, more)
        | pipe_again ↦ (p, blocked)
        | pipe_error ↦ (record p { status = dead }, finished)
        | pipe_eof ↦
            if is_parse p.cgi_status
            then process_cgi_header (record p { status = pipe_write; cgi_status = cgi_done })
            else (record p { status = pipe_write; cgi_status = cgi_done }, more)
        | got bytes ↦ after_read process_cgi_header (record p { content = p.content ++ bytes }) w
      ]

      by_answer :
          (after : Bytes) (a : PipeAnswer)
          → Reads (bytes_to_read p) rest a after
          → IsNext p a w
          → IsPipe out after (answered a).0
      by_answer _ _ interrupted n = i
      by_answer _ _ again n = i
      by_answer _ _ failed n =
          status-IsPipe out rest p dead p.cgi_status i.parsed (inr (inl dead-ne)) i
      by_answer _ _ (ended e) n =
          rw (i.parsed) (status-IsPipe out rest p pipe_write cgi_done refl (inl e) i)
      by_answer after _ (some_bytes bytes _ l u e) n = rw (i.parsed) (
          write_from_pipe-IsPipe out after (record p { content = p.content ++ bytes }) w n
            (got-IsPipe out after bytes p l u (rw (sym e) i)))

  -- `out` is what the program writes behind its header; what is not read yet and the state follow.
  pub data Runs (out : Bytes) : Bytes → Pipe → Type 0 where
    starts_with : (rest : Bytes) (p : Pipe) → IsPipe out rest p → p.client ≡ [] → Runs out rest p
    reads :
        (rest rest' : Bytes) (p : Pipe) (a : PipeAnswer) (w : WriteAnswer)
        → Runs out rest p
        → p.status ≡ pipe_read
        → Reads (bytes_to_read p) rest a rest'
        → IsNext p a w
        → Runs out rest' (read_from_pipe process_cgi_header p a w).0
    writes :
        (rest : Bytes) (p : Pipe) (a : WriteAnswer)
        → Runs out rest p
        → p.status ≡ pipe_write
        → IsWriteAnswer (waiting p) a
        → Runs out rest (write_from_pipe p a).0

  -- In every state of a run of the pipe relay, what the client has got, what waits in the buffer
  -- and what is not read yet are together the program's output, the buffer holds at most 4097
  -- bytes, and bytes_written counts what the client has got.
  pub Runs-IsPipe : (out rest : Bytes) (p : Pipe) → Runs out rest p → IsPipe out rest p
  Runs-IsPipe out rest p (starts_with _ _ i _) = i
  Runs-IsPipe out rest _ (reads before _ p a w r e d n) =
      read_from_pipe-IsPipe out before rest p a w d n (Runs-IsPipe out before p r)
  Runs-IsPipe out rest _ (writes _ p a r e w) =
      write_from_pipe-IsPipe out rest p a w (Runs-IsPipe out rest p r)

  -- In every run of the pipe relay from a state whose header has been parsed (read_from_pipe and
  -- write_from_pipe as the status says, with any answers of read(2) and write(2) within what was
  -- asked for), when write_from_pipe ends the request, the request is dead by a write error or
  -- the client has got exactly what the program wrote, in order.
  pub write_from_pipe-finished :
      (out rest : Bytes) (p : Pipe) (a : WriteAnswer)
      → Runs out rest p
      → p.status ≡ pipe_write
      → (write_from_pipe p a).1 ≡ finished
      → ((write_from_pipe p a).0.status ≡ dead) ⊎ ((write_from_pipe p a).0.client ≡ out)
  unfolding write_from_pipe
  write_from_pipe-finished out rest p a r e f = elim (Bool-cases (waiting p == 0)) [
    | inl z ↦ elim (Bool-cases (is_done p.cgi_status)) [
      | inl d ↦
          rw (z, d)
            (inr (
              sym (append-nil p.client)
              ∙ ap (λ t. p.client ++ t) (sym (nothing z))
              ∙ all_sent out rest p (eq-of-== _ _ z) i))
      | inr d ↦ absurd (ground (arith, f, z, d))
    ]
    | inr z ↦ by_answer a z f
  ]
    where
      i : IsPipe out rest p
      i = Runs-IsPipe out rest p r

      nothing : (waiting p == 0) ≡ true → rest ≡ []
      nothing z = elim i.has_more [
        | inl h ↦ h
        | inr (inl h) ↦ absurd (h e)
        | inr (inr h) ↦ absurd (ground (arith, h, z))
      ]

      by_answer :
          (a : WriteAnswer)
          → (waiting p == 0) ≡ false
          → (write_from_pipe p a).1 ≡ finished
          → ((write_from_pipe p a).0.status ≡ dead) ⊎ ((write_from_pipe p a).0.client ≡ out)
      by_answer write_error z f = rw (z) (inl refl)
      by_answer write_again z f = absurd (ground (arith, z, f))
      by_answer write_intr z f = absurd (ground (arith, z, f))
      by_answer (put n) z f = absurd (ground (arith, z, f))
