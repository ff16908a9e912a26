-- ===== src/Pipe/Relay.antt =====
-- Every run of `read_from_pipe` and `write_from_pipe` sends the client what the program wrote.
use boa.Common.{
  ◌∙◌, sym, ap, ℕ, ◌+◌, ◌≤◌, ◌<◌, ◌≡◌, sym, ap, ◌∙◌, ◌≢◌, ◌⊎◌, inl, inr, false, [], ◌++◌,
  append-nil, append_assoc, arith, ◌==◌, if◌then◌else◌, eq-of-==, Bool-cases, length, take, drop,
  length-append, length-take, length-drop, Bytes, take-append-drop, drop-drop, drop_all, take_all,
}
use boa.Status.{ReqStatus, pipe_read, pipe_write, dead, Retval, blocked, finished, more, CgiStatus}
use boa.Body.{WriteAnswer, write_again, write_intr, write_error, put, buffer_size}
use boa.Body.Relay.{IsWriteAnswer}
use boa.Pipe.{
  Pipe, PipeAnswer, pipe_intr, pipe_again, pipe_error, pipe_eof, got, waiting, is_parse, is_done,
  rewind, write_from_pipe,
}

-- read(2) on the pipe gives the next bytes, at least one and no more than asked for; the end of
-- the file stands behind the last byte.
pub data Reads (n : ℕ) (stream : Bytes) : PipeAnswer → Bytes → Type 0 where
  interrupted : Reads n stream pipe_intr stream
  again : Reads n stream pipe_again stream
  failed : Reads n stream pipe_error stream
  ended : stream ≡ [] → Reads n stream pipe_eof stream
  some_bytes :
      (bytes rest : Bytes)
      → 1 ≤ length bytes
      → length bytes ≤ n
      → stream ≡ bytes ++ rest
      → Reads n stream (got bytes) rest

abbrev pub unsent : Pipe → Bytes
unsent p = drop p.header_line p.content

-- `out` is what the program writes behind its header, `rest` what is not read yet.
pub record IsPipe (out rest : Bytes) (p : Pipe) : Type 0 where
  pub whole : p.client ++ unsent p ++ rest ≡ out
  pub parsed : is_parse p.cgi_status ≡ false
  pub ordered : p.header_line ≤ length p.content
  pub bounded : length p.content ≤ buffer_size + 1
  pub not_stuck : (length p.content ≤ buffer_size) ⊎ (p.header_line < length p.content)
  pub has_more : (rest ≡ []) ⊎ (p.status ≢ pipe_write) ⊎ (1 ≤ waiting p)
  pub counted : p.bytes_written ≡ length p.client

pub pipe_read-ne : pipe_read ≢ pipe_write
pipe_read-ne e = ground (arith, e)

pub dead-ne : dead ≢ pipe_write
dead-ne e = ground (arith, e)

pub rewind-IsPipe :
    (out rest : Bytes) (p : Pipe)
    → p.client ++ rest ≡ out
    → is_parse p.cgi_status ≡ false
    → p.bytes_written ≡ length p.client
    → IsPipe out rest (rewind p)
rewind-IsPipe out rest p w e c = record {
  whole = ap (λ t. t ++ rest) (append-nil p.client) ∙ w;
  parsed = e;
  ordered = omega arith;
  bounded = omega arith;
  not_stuck = inl (omega arith);
  has_more = inr (inl pipe_read-ne);
  counted = c;
}

pub put-IsPipe :
    (out rest : Bytes) (p : Pipe) (n : ℕ)
    → n < waiting p
    → 1 ≤ waiting p
    → IsPipe out rest p
    → IsPipe out rest (record p {
      header_line = p.header_line + n;
      bytes_written = p.bytes_written + n;
      client = p.client ++ take n (unsent p);
    })
put-IsPipe out rest p n l w i = record {
  whole =
      ap (λ t. p.client ++ take n (unsent p) ++ t ++ rest)
        (sym (drop-drop p.header_line n p.content))
      ∙ ap (λ t. t ++ rest) (append_assoc p.client (take n (unsent p)) (drop n (unsent p)))
      ∙ ap (λ t. p.client ++ t ++ rest) (take-append-drop n (unsent p))
      ∙ i.whole;
  parsed = i.parsed;
  ordered = omega (arith, l, i.ordered);
  bounded = i.bounded;
  not_stuck = inr (omega (arith, l, i.ordered));
  has_more = inr (inr (omega (arith, l, i.ordered)));
  counted = omega (
    arith,
    i.counted,
    l,
    length-append p.client (take n (unsent p)),
    length-take n (unsent p),
    length-drop p.header_line p.content,
  );
}

abbrev answered : Pipe → WriteAnswer → Pipe × Retval
answered p answer = elim answer [
  | write_again ↦ (p, blocked)
  | write_intr ↦ (p, more)
  | write_error ↦ (record p { status = dead }, finished)
  | put n ↦
      let p' = record p {
        header_line = p.header_line + n;
        bytes_written = p.bytes_written + n;
        client = p.client ++ take n (drop p.header_line p.content);
      } in
      (if n == waiting p then rewind p' else p', more)
]

pub all_sent :
    (out rest : Bytes) (p : Pipe) → waiting p ≡ 0 → IsPipe out rest p → p.client ++ rest ≡ out
all_sent out rest p z i =
    ap (λ t. t ++ rest)
      (sym (append-nil p.client)
        ∙ ap (λ t. p.client ++ t) (sym (drop_all p.header_line p.content (omega (arith, z)))))
    ∙ i.whole

-- The whole rest of the buffer is written.
pub put_all-IsPipe :
    (out rest : Bytes) (p : Pipe) (n : ℕ)
    → n ≡ waiting p
    → IsPipe out rest p
    → IsPipe out rest (
        rewind (record p {
          header_line = p.header_line + n;
          bytes_written = p.bytes_written + n;
          client = p.client ++ take n (unsent p);
        }))
put_all-IsPipe out rest p n e i =
    rewind-IsPipe out rest
      (record p {
        header_line = p.header_line + n;
        bytes_written = p.bytes_written + n;
        client = p.client ++ take n (unsent p);
      })
      (ap (λ t. p.client ++ t ++ rest) same ∙ i.whole) i.parsed
      (omega (
        arith,
        i.counted,
        length-append p.client (take n (unsent p)),
        ap length same,
        e,
        length-drop p.header_line p.content,
      ))
  where
    same : take n (unsent p) ≡ unsent p
    same = take_all n (unsent p) (omega (arith, e, length-drop p.header_line p.content))

pub status-IsPipe :
    (out rest : Bytes) (p : Pipe) (st : ReqStatus) (c : CgiStatus)
    → is_parse c ≡ false
    → ((rest ≡ []) ⊎ (st ≢ pipe_write) ⊎ (1 ≤ waiting p))
    → IsPipe out rest p
    → IsPipe out rest (record p { status = st; cgi_status = c })
status-IsPipe out rest p st c e h i = record {
  whole = i.whole;
  parsed = e;
  ordered = i.ordered;
  bounded = i.bounded;
  not_stuck = i.not_stuck;
  has_more = h;
  counted = i.counted;
}

-- One more call of write_from_pipe keeps the relay.
pub write_from_pipe-IsPipe :
    (out rest : Bytes) (p : Pipe) (a : WriteAnswer)
    → IsWriteAnswer (waiting p) a
    → IsPipe out rest p
    → IsPipe out rest (write_from_pipe p a).0
unfolding write_from_pipe
write_from_pipe-IsPipe out rest p a w i = elim (Bool-cases (waiting p == 0)) [
  | inl z ↦ elim (Bool-cases (is_done p.cgi_status)) [
    | inl d ↦ rw (z, d) i
    | inr d ↦
        rw (z, d)
          (rewind-IsPipe out rest p (all_sent out rest p (eq-of-== _ _ z) i) i.parsed i.counted)
  ]
  | inr z ↦ rw (z) (by_answer a w z)
]
  where
    by_answer :
        (a : WriteAnswer)
        → IsWriteAnswer (waiting p) a
        → (waiting p == 0) ≡ false
        → IsPipe out rest (answered p a).0
    by_answer write_again w z = i
    by_answer write_intr w z = i
    by_answer write_error w z =
        status-IsPipe out rest p dead p.cgi_status i.parsed (inr (inl dead-ne)) i
    by_answer (put n) w z = elim (Bool-cases (n == waiting p)) [
      | inl e ↦ rw (e) (put_all-IsPipe out rest p n (eq-of-== _ _ e) i)
      | inr e ↦ rw (e) (put-IsPipe out rest p n (ground (arith, w, e)) (ground (arith, z)) i)
    ]
