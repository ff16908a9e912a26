-- ===== src/FileSend/Sent.antt =====
-- Every round of `io_shuffle` keeps what the client has, what the buffer holds and what is still to
-- be read of the range together the same bytes.
use boa.Common.{
  ◌∙◌, sym, ap, ℕ, ◌+◌, ◌-◌, ◌≤◌, ◌<◌, ◌≡◌, refl, sym, ap, ◌∙◌, ◌⊎◌, inl, inr, Bool, true, false,
  ◌&&◌, [], ◌∷◌, ◌++◌, append-nil, append_assoc, arith, ltb, ◌==◌, if◌then◌else◌, eq-of-==,
  Bool-cases, length, take, drop, length-append, length-drop, Bytes, take-append-drop, drop-drop,
  drop_all, drop-append, take_all, take-append,
}
use boa.Status.{done, Retval, blocked, finished, more}
use boa.Body.{ReadAnswer, read_again, read_error, read_eof, got}
use boa.Range.{Range, RangeState}
use boa.Buffer.{OutBuf, buffer_end, Written}
use boa.Response.{
  Server, Reply, is_head, first_range, drop_range, complete_ranges, complete_response,
}
use boa.FileSend.{
  FileSend, SendAnswer, send_again, send_error, sent, advance, kill, completed, file_bytes_to_read,
  shuffle_write, filled, shuffle_read, io_shuffle,
}

-- The bytes of the range.
abbrev pub span : Bytes → Range → Bytes
span file r = take (r.stop + 1 - r.start) (drop r.start file)

abbrev pub held : OutBuf → Bytes
held o = drop o.buffer_start o.content

-- read(2) at `start` gives the next bytes of the file, and the end only behind its last byte.
abbrev pub IsRead : Bytes → ℕ → ℕ → ReadAnswer → Type 0
IsRead file start n (got bytes) =
    (1 ≤ length bytes) × (length bytes ≤ n) × (rest : Bytes) × (drop start file ≡ bytes ++ rest)
IsRead file start n read_eof = length file ≤ start
IsRead file start n _ = Unit

-- write(2) takes at most what it is given.
abbrev pub IsSendAnswer : OutBuf → SendAnswer → Type 0
IsSendAnswer o (sent n) = n ≤ buffer_end o - o.buffer_start
IsSendAnswer o _ = Unit

-- The state that the write finds.
abbrev pub after_read : ReadAnswer → FileSend → FileSend
after_read (got bytes) f = filled bytes f
after_read _ f = f

-- With the read left out where the buffer has no room or the file has been closed.
abbrev pub before_write : ReadAnswer → FileSend → FileSend
before_write a f = if ltb 0 (file_bytes_to_read f) && f.data_open then after_read a f else f

-- One range of the file is on its way, and `total` is what the client will have got.
pub record IsSend (file total : Bytes) (r : Range) (f : FileSend) : Type 0 where
  pub ranged : f.reply.ranges.ranges ≡ r ∷ []
  pub whole : f.client ++ held f.reply.out ++ span file r ≡ total
  pub ordered : f.reply.out.buffer_start ≤ buffer_end f.reply.out
  pub forward : r.start ≤ r.stop
  pub inside : r.stop < length file
  pub single : (f.reply.response_status == 206 && ltb 1 f.reply.ranges.numranges) ≡ false

-- All of it has been read, and the request waits only for the buffer.
pub record IsSent (total : Bytes) (f : FileSend) : Type 0 where
  pub over : f.reply.out.status ≡ done
  pub whole : f.client ++ held f.reply.out ≡ total

abbrev pub Progress : Bytes → Bytes → FileSend → Type 0
Progress file total f = ((r : Range) × IsSend file total r f) ⊎ IsSent total f

-- The buffer has other bytes, and the client too.
pub same_range :
    (file total : Bytes) (r : Range) (f f' : FileSend)
    → f'.reply.ranges ≡ f.reply.ranges
    → f'.reply.response_status ≡ f.reply.response_status
    → f'.client ++ held f'.reply.out ≡ f.client ++ held f.reply.out
    → f'.reply.out.buffer_start ≤ buffer_end f'.reply.out
    → IsSend file total r f
    → IsSend file total r f'
same_range file total r f f' e c b o i = record {
  ranged = ap (λ (s : RangeState). s.ranges) e ∙ i.ranged;
  whole = ap (λ t. t ++ span file r) b ∙ i.whole;
  ordered = o;
  forward = i.forward;
  inside = i.inside;
  single = rw (e, c) i.single;
}

shuffle_write-IsSend :
    (file total : Bytes) (r : Range) (f : FileSend) (a : SendAnswer)
    → IsSendAnswer f.reply.out a
    → IsSend file total r f
    → IsSend file total r (shuffle_write f a).0
unfolding shuffle_write
shuffle_write-IsSend file total r f a h i = elim (Bool-cases (asked == 0)) [
  | inl z ↦ rw (z) (by_open (eq-of-== _ _ z) f.data_open)
  | inr z ↦ rw (z) (by_answer a h)
]
  where
    o : OutBuf
    o = f.reply.out

    asked : ℕ
    asked = buffer_end o - o.buffer_start

    emptied : OutBuf
    emptied = record o { buffer_start = 0; content = [] }

    by_open :
        asked ≡ 0
        → (b : Bool)
        → IsSend file total r
            (if◌then◌else◌ {A = FileSend × Retval} b
              (record f { reply = record f.reply { out = emptied } }, more)
              (f, finished)).0
    by_open z true =
        same_range file total r f (record f { reply = record f.reply { out = emptied } }) refl refl
          (ap (λ t. f.client ++ t) (sym (drop_all o.buffer_start o.content (omega (arith, z)))))
          (omega arith) i
    by_open z false = i

    answered : SendAnswer → FileSend × Retval
    answered a = elim a [
      | send_again ↦ (f, blocked)
      | send_error ↦ (kill f, finished)
      | sent n ↦ (
        record f {
          reply = record f.reply {
            out = if asked == n then emptied else record o { buffer_start = o.buffer_start + n };
          };
          bytes_written = f.bytes_written + n;
          client = f.client ++ take n (drop o.buffer_start o.content);
        },
        more,
      )
    ]

    by_answer : (a : SendAnswer) → IsSendAnswer o a → IsSend file total r (answered a).0
    by_answer send_again h = i
    by_answer send_error h = same_range file total r f (kill f) refl refl refl i.ordered i
    by_answer (sent n) h =
        same_range file total r f (answered (sent n)).0 refl refl (moved n h) (in_order n h) i
      where
        moved :
            (n : ℕ)
            → n ≤ asked
            → (answered (sent n)).0.client ++ held (answered (sent n)).0.reply.out
              ≡ f.client ++ held o
        moved n h = elim (Bool-cases (asked == n)) [
          | inl e ↦ rw (e) (
              append-nil (f.client ++ take n (held o))
              ∙ ap (λ t. f.client ++ t)
                  (take_all n (held o)
                    (omega (arith, length-drop o.buffer_start o.content, eq-of-== _ _ e))))
          | inr e ↦ rw (e) (
              ap (λ t. f.client ++ take n (held o) ++ t)
                (sym (drop-drop o.buffer_start n o.content))
              ∙ append_assoc f.client (take n (held o)) (drop n (held o))
              ∙ ap (λ t. f.client ++ t) (take-append-drop n (held o)))
        ]

        in_order :
            (n : ℕ)
            → n ≤ asked
            → (answered (sent n)).0.reply.out.buffer_start
              ≤ buffer_end (answered (sent n)).0.reply.out
        in_order n h = elim (Bool-cases (asked == n)) [
          | inl e ↦ rw (e) (omega arith)
          | inr e ↦ rw (e) (omega (arith, h, i.ordered))
        ]

-- The bytes that are read move from the range to the buffer.
pub filled_whole :
    (file bytes rest : Bytes) (r : Range) (f : FileSend)
    → length bytes ≤ r.stop + 1 - r.start
    → drop r.start file ≡ bytes ++ rest
    → f.reply.out.buffer_start ≤ buffer_end f.reply.out
    → f.client
        ++ drop f.reply.out.buffer_start (f.reply.out.content ++ bytes)
        ++ span file (record r { start = r.start + length bytes })
      ≡ f.client ++ held f.reply.out ++ span file r
filled_whole file bytes rest r f l e o =
    ap (λ t. f.client ++ t ++ span file (record r { start = r.start + length bytes }))
      (drop-append f.reply.out.buffer_start f.reply.out.content bytes o)
    ∙ ap (λ t. t ++ span file (record r { start = r.start + length bytes }))
        (sym (append_assoc f.client (held f.reply.out) bytes))
    ∙ append_assoc (f.client ++ held f.reply.out) bytes _
    ∙ ap (λ t. f.client ++ held f.reply.out ++ t)
        (ap (λ t. bytes ++ t)
            (ap (λ t. take (r.stop + 1 - (r.start + length bytes)) t) rest_is
              ∙ ap (λ n. take n rest) left)
          ∙ sym (
              ap (λ t. take (r.stop + 1 - r.start) t) e
              ∙ ap (λ n. take n (bytes ++ rest)) split
              ∙ take-append (r.stop + 1 - r.start - length bytes) bytes rest))
  where
    split : r.stop + 1 - r.start ≡ length bytes + (r.stop + 1 - r.start - length bytes)
    split = omega (arith, l)

    left : r.stop + 1 - (r.start + length bytes) ≡ r.stop + 1 - r.start - length bytes
    left = omega arith

    rest_is : drop (r.start + length bytes) file ≡ rest
    rest_is =
        sym (drop-drop r.start (length bytes) file)
        ∙ ap (λ t. drop (length bytes) t) e
        ∙ drop-append (length bytes) bytes rest (omega arith)
        ∙ ap (λ t. t ++ rest) (drop_all (length bytes) bytes (omega arith))

pub advance-one :
    (n : ℕ) (s : RangeState) (r : Range)
    → s.ranges ≡ r ∷ []
    → advance n s ≡ record s { ranges = record r { start = r.start + n } ∷ [] }
unfolding advance
advance-one n s r e = rw (e) refl

pub completed-reply :
    (f : FileSend) (p : Reply × Bool) → (completed f p).0 ≡ record f { reply = p.0 }
unfolding completed
completed-reply f (r, true) = refl
completed-reply f (r, false) = refl

-- The last range of a reply in one part.
pub complete_response-out :
    (s : Server) (w : Written) (x : Reply) (r : Range)
    → x.ranges.ranges ≡ r ∷ []
    → (x.response_status == 206 && ltb 1 x.ranges.numranges) ≡ false
    → (complete_response s w x).0.out ≡ record x.out { status = done }
unfolding complete_response complete_ranges drop_range
complete_response-out s w x r e h = rw (e, h) refl

pub filled-IsSend :
    (file total bytes rest : Bytes) (r : Range) (f : FileSend)
    → length bytes < r.stop + 1 - r.start
    → drop r.start file ≡ bytes ++ rest
    → IsSend file total r f
    → IsSend file total (record r { start = r.start + length bytes }) (filled bytes f)
filled-IsSend file total bytes rest r f l e i =
    rw (advance-one (length bytes) f.reply.ranges r i.ranged) (record {
      ranged = refl;
      whole = filled_whole file bytes rest r f (omega (arith, l)) e i.ordered ∙ i.whole;
      ordered = omega (arith, i.ordered, length-append f.reply.out.content bytes);
      forward = omega (arith, l, i.forward);
      inside = i.inside;
      single = i.single;
    })

pub complete-IsSent :
    (s : Server) (w : Written) (file total bytes rest : Bytes) (r : Range) (f : FileSend)
    → length bytes ≡ r.stop + 1 - r.start
    → drop r.start file ≡ bytes ++ rest
    → IsSend file total r f
    → IsSent total (completed (filled bytes f) (complete_response s w (filled bytes f).reply)).0
complete-IsSent s w file total bytes rest r f l e i = record {
  over = ap (λ (g : FileSend). g.reply.out.status) reply_is ∙ ap (λ (o : OutBuf). o.status) out_is;
  whole =
      ap (λ (g : FileSend). g.client ++ held g.reply.out) reply_is
      ∙ ap (λ (o : OutBuf). f.client ++ held o) out_is
      ∙ sym (append-nil (f.client ++ drop f.reply.out.buffer_start (f.reply.out.content ++ bytes)))
      ∙ ap (λ t. f.client ++ drop f.reply.out.buffer_start (f.reply.out.content ++ bytes) ++ t)
          (sym nothing_left)
      ∙ filled_whole file bytes rest r f (omega (arith, l)) e i.ordered
      ∙ i.whole;
}
  where
    p : Reply × Bool
    p = complete_response s w (filled bytes f).reply

    reply_is : (completed (filled bytes f) p).0 ≡ record (filled bytes f) { reply = p.0 }
    reply_is = completed-reply (filled bytes f) p

    ranges_are :
        advance (length bytes) f.reply.ranges
        ≡ record f.reply.ranges { ranges = record r { start = r.start + length bytes } ∷ [] }
    ranges_are = advance-one (length bytes) f.reply.ranges r i.ranged

    out_is : p.0.out ≡ record (filled bytes f).reply.out { status = done }
    out_is =
        complete_response-out s w (filled bytes f).reply
          (record r { start = r.start + length bytes })
          (ap (λ (q : RangeState). q.ranges) ranges_are)
          (ap (λ (q : RangeState). f.reply.response_status == 206 && ltb 1 q.numranges) ranges_are
            ∙ i.single)

    nothing_left : span file (record r { start = r.start + length bytes }) ≡ []
    nothing_left = ap (λ n. take n (drop (r.start + length bytes) file)) none_left
      where
        none_left : r.stop + 1 - (r.start + length bytes) ≡ 0
        none_left = omega (arith, l)

shuffle_read-Progress :
    (s : Server) (w : Written) (file total : Bytes) (r : Range) (f : FileSend) (a : ReadAnswer)
    (b : SendAnswer)
    → IsRead file r.start (file_bytes_to_read f) a
    → IsSendAnswer (after_read a f).reply.out b
    → IsSend file total r f
    → Progress file total (shuffle_read s w f a b).0
unfolding shuffle_read file_bytes_to_read
shuffle_read-Progress s w file total r f read_again b h k i =
    by_held (buffer_end f.reply.out - f.reply.out.buffer_start == 0)
  where
    by_held :
        (c : Bool)
        → Progress file total
            (if◌then◌else◌ {A = FileSend × Retval} c (f, blocked) (shuffle_write f b)).0
    by_held true = inl (r, i)
    by_held false = inl (r, shuffle_write-IsSend file total r f b k i)
shuffle_read-Progress s w file total r f read_error b h k i =
    inl (r, same_range file total r f (kill f) refl refl refl i.ordered i)
shuffle_read-Progress s w file total r f read_eof b h k i =
    absurd (omega (arith, h, i.forward, i.inside))
shuffle_read-Progress s w file total r f (got bytes) b (some_read, few, rest, e) k i =
    rw
      (ap (λ (q : RangeState). (first_range q.ranges).stop + 1 - (first_range q.ranges).start)
        (advance-one (length bytes) f.reply.ranges r i.ranged))
      (by_test _ refl)
  where
    g : FileSend
    g = filled bytes f

    in_range : length bytes ≤ r.stop + 1 - r.start
    in_range = few_in_range (ap (λ l. first_range l) i.ranged)
      where
        few_in_range : first_range f.reply.ranges.ranges ≡ r → length bytes ≤ r.stop + 1 - r.start
        few_in_range c =
            omega
              (arith, few, ap (λ (q : Range). q.stop) c, ap (λ (q : Range). q.start) c, i.forward)

    by_test :
        (c : Bool)
        → (r.stop + 1 - (r.start + length bytes) == 0) ≡ c
        → Progress file total
            (if◌then◌else◌ {A = FileSend × Retval} c
              (completed g (complete_response s w g.reply))
              (shuffle_write g b)).0
    by_test true z =
        inr (complete-IsSent s w file total bytes rest r f (ground (arith, z, in_range)) e i)
    by_test false z = inl (
      record r { start = r.start + length bytes },
      shuffle_write-IsSend file total _ g b k
          (filled-IsSend file total bytes rest r f (ground (arith, z, in_range)) e i),
    )

module _ (s : Server) (w : Written) where
  -- While one range of a file is sent (no HEAD, one part, the range inside the file), whatever
  -- lseek(2), read(2) and write(2) answer within what was asked for, a round of io_shuffle keeps
  -- what the client has, what the buffer holds and what is still to be read of the range together
  -- the same bytes; or the whole range has been read, the request is done, and the client's bytes
  -- and the buffer's are together all of it.
  pub io_shuffle-Progress :
      (file total : Bytes) (r : Range) (f : FileSend) (seeks : Bool) (a : ReadAnswer)
      (b : SendAnswer)
      → is_head f.reply.method ≡ false
      → IsRead file r.start (file_bytes_to_read f) a
      → IsSendAnswer (before_write a f).reply.out b
      → IsSend file total r f
      → Progress file total (io_shuffle s w f seeks a b).0
  unfolding io_shuffle
  io_shuffle-Progress file total r f seeks a b m h k i =
      rw (m) (by_room (ltb 0 (file_bytes_to_read f) && f.data_open) seeks k)
    where
      by_room :
          (c d : Bool)
          → IsSendAnswer (if◌then◌else◌ {A = FileSend} c (after_read a f) f).reply.out b
          → Progress file total
              (if◌then◌else◌ {A = FileSend × Retval} c
                (if◌then◌else◌ {A = FileSend × Retval} d
                  (shuffle_read s w f a b)
                  (kill f, finished))
                (shuffle_write f b)).0
      by_room true true k = shuffle_read-Progress s w file total r f a b h k i
      by_room true false k = inl (r, same_range file total r f (kill f) refl refl refl i.ordered i)
      by_room false d k = inl (r, shuffle_write-IsSend file total r f b k i)
