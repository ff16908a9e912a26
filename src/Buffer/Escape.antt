-- ===== src/Buffer/Escape.antt =====
-- The escaping writers: the buffer never overflows, and what they write is the escaped text.
use boa.Common.{
  ℕ, ◌+◌, ◌-◌, ◌≤◌, ◌<◌, ◌≡◌, refl, sym, ap, ◌∙◌, ◌⊎◌, inl, inr, Option, none, some, [], ◌∷◌, ◌++◌,
  append-nil, append_assoc, arith, leb, Bool-cases, length, length-append, Bytes,
}
use boa.Status.{dead}
use boa.Buffer.{
  OutBuf, buffer_end, buffer_size, next_skip, http_piece, http_loop, html_piece, html_loop,
  close_write, req_write_escape_http, req_write_escape_html,
}

-- The whole text, escaped for a URL and for a page.
unfoldable pub http_text : ℕ → Bytes → Bytes
http_text skip [] = []
http_text skip (c ∷ s) = http_piece skip c ++ http_text (next_skip skip c) s

unfoldable pub html_text : Bytes → Bytes
html_text [] = []
html_text (c ∷ s) = html_piece c ++ html_text s

length-http_piece :
    (skip c : ℕ) → (1 ≤ length (http_piece skip c)) × (length (http_piece skip c) ≤ 3)
length-http_piece skip c = ground arith

length-html_piece : (c : ℕ) → (1 ≤ length (html_piece c)) × (length (html_piece c) ≤ 6)
length-html_piece c = ground arith

-- How a loop that escapes by `text` has run, from `content` with `left` free bytes and the guard
-- band `band`: the input `s` is split in what is written and the rest, nothing is written past the
-- free bytes, and it gave up only with less than the band free.
record Ran (text : Bytes → Bytes) (band left : ℕ) (content s : Bytes) (out : Bytes × Bytes)
    : Type 0 where
  copied : Bytes
  splits : s ≡ copied ++ out.0
  written : out.1 ≡ content ++ text copied
  fits : length out.1 ≤ length content + left
  gave_up : (out.0 ≡ []) ⊎ (length content + left < length out.1 + band)

http_loop-Ran :
    (s : Bytes) (left skip : ℕ) (content : Bytes)
    → Ran (http_text skip) 3 left content s (http_loop s left skip content)
unfolding http_loop http_text
http_loop-Ran [] left skip content = record {
  copied = [];
  splits = refl;
  written = sym (append-nil content);
  fits = omega arith;
  gave_up = inl refl;
}
http_loop-Ran (c ∷ s) left skip content = elim (Bool-cases (leb 3 left)) [
  | inl e ↦
      let piece = http_piece skip c in
      let r = http_loop-Ran s (left - length piece) (next_skip skip c) (content ++ piece) in
      let (p, q) = length-http_piece skip c in
      rw e (record {
        copied = c ∷ r.copied;
        splits = ap (λ (t : Bytes). c ∷ t) r.splits;
        written = r.written ∙ append_assoc content piece (http_text (next_skip skip c) r.copied);
        fits = ground (arith, r.fits, length-append content piece, p, q);
        gave_up = ground (arith, r.gave_up, length-append content piece, p, q);
      })
  | inr e ↦ rw e (record {
    copied = [];
    splits = refl;
    written = sym (append-nil content);
    fits = omega arith;
    gave_up = inr (ground arith);
  })
]

html_loop-Ran :
    (s : Bytes) (left : ℕ) (content : Bytes)
    → Ran html_text 6 left content s (html_loop s left content)
unfolding html_loop html_text
html_loop-Ran [] left content = record {
  copied = [];
  splits = refl;
  written = sym (append-nil content);
  fits = omega arith;
  gave_up = inl refl;
}
html_loop-Ran (c ∷ s) left content = elim (Bool-cases (leb 6 left)) [
  | inl e ↦
      let piece = html_piece c in
      let r = html_loop-Ran s (left - length piece) (content ++ piece) in
      let (p, q) = length-html_piece c in
      rw e (record {
        copied = c ∷ r.copied;
        splits = ap (λ (t : Bytes). c ∷ t) r.splits;
        written = r.written ∙ append_assoc content piece (html_text r.copied);
        fits = ground (arith, r.fits, length-append content piece, p, q);
        gave_up = ground (arith, r.gave_up, length-append content piece, p, q);
      })
  | inr e ↦ rw e (record {
    copied = [];
    splits = refl;
    written = sym (append-nil content);
    fits = omega arith;
    gave_up = inr (ground arith);
  })
]

-- What an escaping writer has done with `msg`: the whole escaped text is behind the old content,
-- and the result is the new end; or the request is dead, the result is -1, a front of `msg` is
-- written, and less than the guard band is free. In both cases the buffer has not overflowed.
pub data Escaped (text : Bytes → Bytes) (band : ℕ) (msg : Bytes) (o : OutBuf)
    : OutBuf × Option ℕ → Type 0 where
  whole :
      {o' : OutBuf} {n : ℕ}
      → o' ≡ record o { content = o.content ++ text msg }
      → n ≡ buffer_end o'
      → buffer_end o' ≤ buffer_size
      → Escaped text band msg o (o', some n)
  cut :
      {o' : OutBuf} (front rest : Bytes)
      → msg ≡ front ++ rest
      → o' ≡ record o { content = o.content ++ text front; status = dead }
      → buffer_end o' ≤ buffer_size
      → buffer_size < buffer_end o' + band
      → Escaped text band msg o (o', none)

close_write-Escaped :
    (text : Bytes → Bytes) (band : ℕ) (msg : Bytes) (o : OutBuf) (out : Bytes × Bytes)
    → buffer_end o ≤ buffer_size
    → Ran text band (buffer_size - buffer_end o) o.content msg out
    → Escaped text band msg o (close_write o out)
unfolding close_write
close_write-Escaped text band msg o ([], content) h r =
    whole (ground (arith, r.written, r.splits, append-nil r.copied)) refl (omega (arith, r.fits))
close_write-Escaped text band msg o (c ∷ s, content) h r =
    cut r.copied (c ∷ s) r.splits (ground (arith, r.written)) (omega (arith, r.fits))
      (ground (arith, r.gave_up))

-- From a buffer that is not overfull, req_write_escape_http either appends the whole URL-escaped
-- text and gives the new end, or it appends the escaped text of a beginning of the message, gives
-- -1 and kills the request, and then less than three bytes are free; the buffer is never written
-- past its end.
pub req_write_escape_http-Escaped :
    (msg : Bytes) (o : OutBuf)
    → buffer_end o ≤ buffer_size
    → Escaped (http_text 0) 3 msg o (req_write_escape_http msg o)
unfolding req_write_escape_http
req_write_escape_http-Escaped msg o h =
    close_write-Escaped (http_text 0) 3 msg o _ h (http_loop-Ran msg _ 0 o.content)

-- From a buffer that is not overfull, req_write_escape_html either appends the whole text escaped
-- for a page and gives the new end, or it appends the escaped text of a beginning of the message,
-- gives -1 and kills the request, and then less than six bytes are free; the buffer is never
-- written past its end.
pub req_write_escape_html-Escaped :
    (msg : Bytes) (o : OutBuf)
    → buffer_end o ≤ buffer_size
    → Escaped html_text 6 msg o (req_write_escape_html msg o)
unfolding req_write_escape_html
req_write_escape_html-Escaped msg o h =
    close_write-Escaped html_text 6 msg o _ h (html_loop-Ran msg _ o.content)
