-- ===== src/Body/Runs.antt =====
-- The runs of the body relay: the end of `read_header`, and then a call of `read_body` or of
-- `write_body` for each round of the main loop, as the status says.
use boa.Common.{
  if◌then◌else◌, take-append-drop, ℕ, ◌+◌, ◌≤◌, ◌≡◌, refl, sym, ap, ◌∙◌, inl, inr, Bool, true,
  false, not, ◌&&◌, Option, none, some, [], ◌++◌, append_assoc, arith, ltb, ◌==◌, Bool-cases,
  length, take, drop, length-take, Bytes,
}
use boa.Status.{body_read, body_write}
use boa.Decimal.{boa_atoi}
use boa.Body.{
  ReqBody, ReadAnswer, WriteAnswer, init_cgi, start_body, bytes_to_read, read_body, bytes_to_write,
  write_body,
}
use boa.Body.Relay.{
  body_write-ne, Reads, IsWriteAnswer, IsRelay, read_body-IsRelay, write_body-IsRelay,
  write_body-init_cgi,
}

-- `body` is the stream behind the header; the stream that is not read yet and the state follow.
pub data Runs (body : Bytes) : Bytes → ReqBody → Type 0 where
  started :
      (single_post_limit : ℕ) (content_length : Option Bytes) (available rest : Bytes) (s : ReqBody)
      → start_body single_post_limit content_length available ≡ some s
      → body ≡ available ++ rest
      → Runs body rest s
  reads :
      (rest rest' : Bytes) (s : ReqBody) (a : ReadAnswer)
      → Runs body rest s
      → s.status ≡ body_read
      → Reads (bytes_to_read s) rest a rest'
      → Runs body rest' (read_body s a).0
  writes :
      (rest : Bytes) (s : ReqBody) (a : WriteAnswer)
      → Runs body rest s
      → s.status ≡ body_write
      → IsWriteAnswer (bytes_to_write s) a
      → Runs body rest (write_body s a).0

abbrev first_state : ℕ → Bytes → ReqBody
first_state size available = record {
  status = body_write;
  held = if ltb size (length available) then take size available else available;
  filesize = size;
  filepos = 0;
  post_data = [];
  response_status = 0;
}

start_size :
    (single_post_limit : ℕ) (content_length : Option Bytes) (available : Bytes) (s : ReqBody)
    → start_body single_post_limit content_length available ≡ some s
    → (size : ℕ) × (s ≡ first_state size available)
unfolding start_body
start_size limit none available s e = absurd (ground (arith, e))
start_size limit (some text) available s e = by_size (boa_atoi text) e
  where
    by_limit : (b : Bool) (r : ReqBody) → (if b then none else some r) ≡ some s → s ≡ r
    by_limit true r e = absurd (ground (arith, e))
    by_limit false r e = ap (λ o. elim o [ none ↦ r | some x ↦ x ]) (sym e)

    by_size :
        (o : Option ℕ)
        → elim o [
          | none ↦ none
          | some size ↦
              if not (limit == 0) && ltb limit size then none else some (first_state size available)
        ]
          ≡ some s
        → (size : ℕ) × (s ≡ first_state size available)
    by_size none e = absurd (ground (arith, e))
    by_size (some size) e = (size, by_limit _ _ e)

first_state-IsRelay :
    (body rest available : Bytes) (size : ℕ)
    → body ≡ available ++ rest
    → IsRelay body rest (first_state size available)
first_state-IsRelay body rest available size e = elim (Bool-cases (ltb size (length available))) [
  | inl l ↦ rw (l) (record {
    unread = drop size available ++ rest;
    whole =
        sym (append_assoc (take size available) (drop size available) rest)
        ∙ ap (λ t. t ++ rest) (take-append-drop size available)
        ∙ sym e;
    unread_rest = inr (ground (arith, length-take size available, l));
    counted = refl;
    within_size = ground (arith, length-take size available, l);
    empty_to_read = body_write-ne;
  })
  | inr l ↦ rw (l) (record {
    unread = rest;
    whole = sym e;
    unread_rest = inl refl;
    counted = refl;
    within_size = ground (arith, l);
    empty_to_read = body_write-ne;
  })
]

pub Runs-IsRelay : (body rest : Bytes) (s : ReqBody) → Runs body rest s → IsRelay body rest s
Runs-IsRelay body _ _ (started limit text available rest s e b) =
    let (size, p) = start_size limit text available s e in
    rw (p) (first_state-IsRelay body rest available size b)
Runs-IsRelay body _ _ (reads rest rest' s a r e w) =
    read_body-IsRelay body rest rest' s a e w (Runs-IsRelay body rest s r)
Runs-IsRelay body _ _ (writes rest s a r e w) =
    write_body-IsRelay body rest s a e w (Runs-IsRelay body rest s r)

-- In every run of the body relay (start_body, then read_body and write_body as the status says,
-- with any answers of read(2) and write(2) that are within what was asked for), the program is
-- started only when the temporary file holds exactly the announced number of bytes, and they are
-- the first ones of the stream behind the header.
pub Runs-init_cgi :
    (body rest : Bytes) (s : ReqBody) (a : WriteAnswer)
    → Runs body rest s
    → (write_body s a).1 ≡ init_cgi
    → (s.post_data ≡ take s.filesize body) × (length s.post_data ≡ s.filesize)
Runs-init_cgi body rest s a r e = write_body-init_cgi body rest s a (Runs-IsRelay body rest s r) e

-- In every state of a run of the body relay the bytes of the temporary file and the bytes that wait
-- to be written are together a beginning of the stream behind the header, and no more than the
-- announced number.
pub Runs-post_data :
    (body rest : Bytes) (s : ReqBody)
    → Runs body rest s
    → ((unread : Bytes) × (s.post_data ++ s.held ++ unread ≡ body))
      × (length s.post_data + length s.held ≤ s.filesize)
Runs-post_data body rest s r =
    let i = Runs-IsRelay body rest s r in
    ((i.unread, i.whole), omega (arith, i.counted, i.within_size))
