-- ===== src/FileSend/Direct.antt =====
-- The rounds of `io_shuffle_sendfile` and `process_get`, which send from the file at once: they keep
-- what the client has and what is still to be sent of the range together the same bytes.
use boa.Common.{
  ◌∙◌, sym, ap, ℕ, ◌+◌, ◌-◌, ◌^◌, ◌≤◌, ◌<◌, ◌≡◌, refl, sym, ap, ◌∙◌, inl, inr, Bool, true, false,
  ◌&&◌, Option, none, some, [], ◌∷◌, ◌++◌, append-nil, arith, ltb, leb, ◌==◌, if◌then◌else◌, length,
  take, drop, length-take, Bytes, take-append-drop, drop-append,
}
use boa.Status.{done, Retval, blocked, finished, more}
use boa.Range.{Range, RangeState}
use boa.Buffer.{OutBuf, buffer_end, Written}
use boa.Response.{Server, Reply, is_head, first_range, complete_response}
use boa.FileSend.{
  file_bytes_to_read, io_shuffle, FileSend, SendAnswer, send_again, send_error, sent,
  SendfileAnswer, sendfile_again, sendfile_nosys, sendfile_error, copied, current, advance, kill,
  completed, sendfile_bytes, sendfile_sent, get_sent, io_shuffle_sendfile, process_get,
}
use mathlib.Core.Path.{subst}
use boa.FileSend.Sent.{
  IsRead, IsSendAnswer, before_write, io_shuffle-Progress, span, held, IsSend, IsSent, Progress,
  filled_whole, advance-one, completed-reply, complete_response-out, same_range,
}

-- The bytes go from the file to the client.
abbrev pub direct : Bytes → FileSend → FileSend
direct bytes f = record f {
  reply = record f.reply { ranges = advance (length bytes) f.reply.ranges };
  bytes_written = f.bytes_written + length bytes;
  client = f.client ++ bytes;
}

direct_whole :
    (file bytes rest : Bytes) (r : Range) (f : FileSend)
    → length bytes ≤ r.stop + 1 - r.start
    → drop r.start file ≡ bytes ++ rest
    → f.reply.out.buffer_start ≤ buffer_end f.reply.out
    → held f.reply.out ≡ []
    → f.client
        ++ bytes
        ++ held f.reply.out
        ++ span file (record r { start = r.start + length bytes })
      ≡ f.client ++ held f.reply.out ++ span file r
direct_whole file bytes rest r f l e o h =
    ap (λ t. f.client ++ bytes ++ t ++ behind) h
    ∙ ap (λ t. t ++ behind) (append-nil (f.client ++ bytes))
    ∙ ap (λ t. f.client ++ t ++ behind)
        (ap (λ t. t ++ bytes) (sym h)
          ∙ sym (drop-append f.reply.out.buffer_start f.reply.out.content bytes o))
    ∙ filled_whole file bytes rest r f l e o
  where
    behind : Bytes
    behind = span file (record r { start = r.start + length bytes })

direct-IsSend :
    (file total bytes rest : Bytes) (r : Range) (f : FileSend)
    → length bytes < r.stop + 1 - r.start
    → drop r.start file ≡ bytes ++ rest
    → held f.reply.out ≡ []
    → IsSend file total r f
    → IsSend file total (record r { start = r.start + length bytes }) (direct bytes f)
direct-IsSend file total bytes rest r f l e h i =
    rw (advance-one (length bytes) f.reply.ranges r i.ranged) (record {
      ranged = refl;
      whole = direct_whole file bytes rest r f (omega (arith, l)) e i.ordered h ∙ i.whole;
      ordered = i.ordered;
      forward = omega (arith, l, i.forward);
      inside = i.inside;
      single = i.single;
    })

direct-IsSent :
    (s : Server) (w : Written) (file total bytes rest : Bytes) (r : Range) (f : FileSend)
    → length bytes ≡ r.stop + 1 - r.start
    → drop r.start file ≡ bytes ++ rest
    → held f.reply.out ≡ []
    → IsSend file total r f
    → IsSent total (completed (direct bytes f) (complete_response s w (direct bytes f).reply)).0
direct-IsSent s w file total bytes rest r f l e h i = record {
  over = ap (λ (g : FileSend). g.reply.out.status) reply_is ∙ ap (λ (o : OutBuf). o.status) out_is;
  whole =
      ap (λ (g : FileSend). g.client ++ held g.reply.out) reply_is
      ∙ ap (λ (o : OutBuf). f.client ++ bytes ++ held o) out_is
      ∙ sym (append-nil (f.client ++ bytes ++ held f.reply.out))
      ∙ ap (λ t. f.client ++ bytes ++ held f.reply.out ++ t) (sym nothing_left)
      ∙ direct_whole file bytes rest r f (omega (arith, l)) e i.ordered h
      ∙ i.whole;
}
  where
    p : Reply × Bool
    p = complete_response s w (direct bytes f).reply

    reply_is : (completed (direct bytes f) p).0 ≡ record (direct bytes f) { reply = p.0 }
    reply_is = completed-reply (direct bytes f) p

    ranges_are :
        advance (length bytes) f.reply.ranges
        ≡ record f.reply.ranges { ranges = record r { start = r.start + length bytes } ∷ [] }
    ranges_are = advance-one (length bytes) f.reply.ranges r i.ranged

    out_is : p.0.out ≡ record f.reply.out { status = done }
    out_is =
        complete_response-out s w (direct bytes f).reply
          (record r { start = r.start + length bytes })
          (ap (λ (q : RangeState). q.ranges) ranges_are)
          (ap (λ (q : RangeState). f.reply.response_status == 206 && ltb 1 q.numranges) ranges_are
            ∙ i.single)

    nothing_left : span file (record r { start = r.start + length bytes }) ≡ []
    nothing_left = ap (λ n. take n (drop (r.start + length bytes) file)) none_left
      where
        none_left : r.stop + 1 - (r.start + length bytes) ≡ 0
        none_left = omega (arith, l)

-- Behind the bytes, whichever test says that they are the last ones.
direct-Progress :
    (s : Server) (w : Written) (file total bytes rest : Bytes) (r : Range) (f : FileSend) (c : Bool)
    → (c ≡ true → length bytes ≡ r.stop + 1 - r.start)
    → (c ≡ false → length bytes < r.stop + 1 - r.start)
    → drop r.start file ≡ bytes ++ rest
    → held f.reply.out ≡ []
    → IsSend file total r f
    → Progress file total
        (if◌then◌else◌ {A = FileSend × Retval} c
          (completed (direct bytes f) (complete_response s w (direct bytes f).reply))
          (direct bytes f, more)).0
direct-Progress s w file total bytes rest r f true l k e h i =
    inr (direct-IsSent s w file total bytes rest r f (l refl) e h i)
direct-Progress s w file total bytes rest r f false l k e h i = inl (
  record r { start = r.start + length bytes },
  direct-IsSend file total bytes rest r f (k refl) e h i,
)

-- What write(2) takes is at most what it is given.
abbrev pub IsGetAnswer : ℕ → FileSend → Option SendAnswer → Type 0
IsGetAnswer system_bufsize f (some (sent n)) = n ≤ sendfile_bytes system_bufsize f
IsGetAnswer system_bufsize f _ = Unit

-- sendfile(2) copies the next bytes of the file, and no more than it is asked for; read(2) and
-- write(2) of io_shuffle do the same.
abbrev pub IsCopied : Bytes → ℕ → FileSend → SendfileAnswer → Type 0
IsCopied file system_bufsize f (copied bytes) =
    (length bytes ≤ sendfile_bytes system_bufsize f)
    × (rest : Bytes) × (drop (current f).start file ≡ bytes ++ rest)
IsCopied file system_bufsize f (sendfile_nosys seeks a b) =
    IsRead file (current f).start (file_bytes_to_read f) a
    × IsSendAnswer (before_write a f).reply.out b
IsCopied file system_bufsize f _ = Unit

asked_in_range :
    (system_bufsize : ℕ) (f : FileSend) (r : Range)
    → current f ≡ r
    → r.start ≤ r.stop
    → sendfile_bytes system_bufsize f ≤ r.stop + 1 - r.start
asked_in_range system_bufsize f r c l =
    omega (arith, ap (λ (q : Range). q.stop) c, ap (λ (q : Range). q.start) c, l)

module _ (s : Server) (w : Written) where
  get_sent-Progress :
      (file total bytes rest : Bytes) (r : Range) (f : FileSend)
      → length bytes ≤ r.stop + 1 - r.start
      → drop r.start file ≡ bytes ++ rest
      → held f.reply.out ≡ []
      → IsSend file total r f
      → Progress file total (get_sent s w f bytes).0
  unfolding get_sent
  get_sent-Progress file total bytes rest r f l e h i =
      rw
        (ap (λ (q : RangeState). (first_range q.ranges).stop + 1 - (first_range q.ranges).start)
          (advance-one (length bytes) f.reply.ranges r i.ranged))
        (direct-Progress s w file total bytes rest r f _ (λ z. ground (arith, z, l))
          (λ z. ground (arith, z, l)) e h i)

  sendfile_sent-Progress :
      (file total bytes rest : Bytes) (r : Range) (f : FileSend)
      → length bytes ≤ r.stop + 1 - r.start
      → drop r.start file ≡ bytes ++ rest
      → held f.reply.out ≡ []
      → IsSend file total r f
      → Progress file total (sendfile_sent s w f bytes).0
  unfolding sendfile_sent
  sendfile_sent-Progress file total bytes rest r f l e h i =
      rw
        (ap (λ (q : RangeState). leb ((first_range q.ranges).stop + 1) (first_range q.ranges).start)
          (advance-one (length bytes) f.reply.ranges r i.ranged))
        (direct-Progress s w file total bytes rest r f _ (λ z. ground (arith, z, l, i.forward))
          (λ z. ground (arith, z, l, i.forward)) e h i)

  -- While one range of a mapped file is sent (no HEAD, one part, the range inside the file,
  -- nothing in the buffer), whatever write(2) answers within what was asked for, and for a SIGBUS
  -- too, a round of process_get keeps what the client has and what is still to be sent of the
  -- range together the same bytes; or the client has all of it and the request is done.
  pub process_get-Progress :
      (system_bufsize : ℕ) (file total : Bytes) (r : Range) (f : FileSend) (a : Option SendAnswer)
      → is_head f.reply.method ≡ false
      → IsGetAnswer system_bufsize f a
      → held f.reply.out ≡ []
      → IsSend file total r f
      → Progress file total (process_get s w file f a).0
  unfolding process_get
  process_get-Progress system_bufsize file total r f a m k h i = rw (m) (by_answer a k)
    where
      here : current f ≡ r
      here = ap (λ l. first_range l) i.ranged

      answered : Option SendAnswer → FileSend × Retval
      answered a = elim a [
        | none ↦ (kill f, finished)
        | some send_again ↦ (f, blocked)
        | some send_error ↦ (kill f, finished)
        | some (sent n) ↦ get_sent s w f (take n (drop (current f).start file))
      ]

      by_answer :
          (a : Option SendAnswer)
          → IsGetAnswer system_bufsize f a
          → Progress file total (answered a).0
      by_answer none k = inl (r, same_range file total r f (kill f) refl refl refl i.ordered i)
      by_answer (some send_again) k = inl (r, i)
      by_answer (some send_error) k =
          inl (r, same_range file total r f (kill f) refl refl refl i.ordered i)
      by_answer (some (sent n)) k = rw (ap (λ (q : Range). take n (drop q.start file)) here) (
          get_sent-Progress file total (take n (drop r.start file)) (drop n (drop r.start file)) r f
            (omega (
              arith,
              k,
              asked_in_range system_bufsize f r here i.forward,
              length-take n (drop r.start file),
            ))
            (sym (take-append-drop n (drop r.start file))) h i)

  -- While one range of a file is sent (no HEAD, one part, the range inside the file, nothing in
  -- the buffer), whatever sendfile(2) answers, if it copies the next bytes of the file and no
  -- more than asked for, or has no support and the calls of io_shuffle answer within what was
  -- asked for, a round of io_shuffle_sendfile keeps what the client has and what is still to be
  -- sent of the range together the same bytes; or all of it has been taken and the request is
  -- done.
  pub io_shuffle_sendfile-Progress :
      (system_bufsize : ℕ) (file total : Bytes) (r : Range) (f : FileSend) (a : SendfileAnswer)
      → is_head f.reply.method ≡ false
      → IsCopied file system_bufsize f a
      → held f.reply.out ≡ []
      → IsSend file total r f
      → Progress file total (io_shuffle_sendfile s w f a).0
  unfolding io_shuffle_sendfile
  io_shuffle_sendfile-Progress system_bufsize file total r f a m k h i =
      rw (m) (by_start (leb (2 ^ 63) (current f).start))
    where
      here : current f ≡ r
      here = ap (λ l. first_range l) i.ranged

      killed : Progress file total (kill f)
      killed = inl (r, same_range file total r f (kill f) refl refl refl i.ordered i)

      answered : SendfileAnswer → FileSend × Retval
      answered a = elim a [
        | sendfile_again ↦ (f, blocked)
        | sendfile_nosys seeks b c ↦ io_shuffle s w f seeks b c
        | sendfile_error ↦ (kill f, finished)
        | copied [] ↦ (f, blocked)
        | copied (c ∷ taken) ↦ sendfile_sent s w f (c ∷ taken)
      ]

      by_answer :
          (a : SendfileAnswer)
          → IsCopied file system_bufsize f a
          → Progress file total (answered a).0
      by_answer sendfile_again k = inl (r, i)
      by_answer (sendfile_nosys seeks b c) (read, put) =
          io_shuffle-Progress s w file total r f seeks b c m
            (subst (λ (q : Range). IsRead file q.start (file_bytes_to_read f) b) here read) put i
      by_answer sendfile_error k = killed
      by_answer (copied []) k = inl (r, i)
      by_answer (copied (c ∷ taken)) (l, rest, e) =
          sendfile_sent-Progress file total (c ∷ taken) rest r f
            (omega (arith, l, asked_in_range system_bufsize f r here i.forward))
            (ap (λ (q : Range). drop q.start file) (sym here) ∙ e) h i

      by_start :
          (c : Bool)
          → Progress file total
              (if◌then◌else◌ {A = FileSend × Retval} c (kill f, finished) (answered a)).0
      by_start true = killed
      by_start false = by_answer a k
