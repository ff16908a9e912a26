-- ===== src/Body/Relay.antt =====
-- Every run of `read_body` and `write_body` writes a prefix of the posted data to the temporary
-- file, and the program is started when the file holds the announced number of bytes.
use boa.Common.{
  take-append-drop, length-drop, length-take, length-append, append_assoc, leb, ℕ, zero, suc, ◌+◌,
  ◌-◌, ◌≤◌, ◌≡◌, refl, sym, ap, ◌∙◌, ◌⊎◌, inl, inr, true, [], ◌∷◌, ◌++◌, arith, ◌==◌, eq-of-==,
  Bool-cases, length, take, drop, Bytes,
}
use boa.Status.{blocked, finished, more, ReqStatus, body_read, body_write}
use boa.Body.{
  ReqBody, ReadAnswer, read_again, read_error, read_eof, got, WriteAnswer, write_again, write_intr,
  write_error, put, Return, ret, init_cgi, bytes_to_read, read_body, bytes_to_write, write_body,
}

-- read(2) returns at least one byte and at most as many as were asked for, and they are the next
-- ones of the stream; the stream behind the call is the index.
pub data Reads (n : ℕ) (stream : Bytes) : ReadAnswer → Bytes → Type 0 where
  again : Reads n stream read_again stream
  failed : Reads n stream read_error stream
  ended : Reads n stream read_eof stream
  some_bytes :
      (bytes rest : Bytes)
      → 1 ≤ length bytes
      → length bytes ≤ n
      → stream ≡ bytes ++ rest
      → Reads n stream (got bytes) rest

-- write(2) writes at most as many bytes as it is given.
abbrev pub IsWriteAnswer : ℕ → WriteAnswer → Type 0
IsWriteAnswer n (put k) = k ≤ n
IsWriteAnswer n _ = Unit

-- The posted data: `body` is the stream behind the header, `rest` what is not read yet.
pub record IsRelay (body rest : Bytes) (s : ReqBody) : Type 0 where
  pub unread : Bytes
  pub whole : s.post_data ++ s.held ++ unread ≡ body
  pub unread_rest : (unread ≡ rest) ⊎ (s.filepos + length s.held ≡ s.filesize)
  pub counted : s.filepos ≡ length s.post_data
  pub within_size : s.filepos + length s.held ≤ s.filesize
  pub empty_to_read : s.status ≡ body_read → s.held ≡ []

take-append-exact : (n : ℕ) (p t : Bytes) → length p ≡ n → take n (p ++ t) ≡ p
take-append-exact zero [] t e = refl
take-append-exact zero (c ∷ p) t e = absurd (omega arith)
take-append-exact (suc n) [] t e = absurd (omega arith)
take-append-exact (suc n) (c ∷ p) t e = ap (λ r. c ∷ r) (take-append-exact n p t (omega arith))

length-nil : (s : Bytes) → length s ≡ 0 → s ≡ []
length-nil [] e = refl
length-nil (c ∷ s) e = absurd (omega arith)

-- A state that holds the same bytes and does not start to read.
same-IsRelay :
    (body rest : Bytes) (s : ReqBody) (st : ReqStatus) (code : ℕ)
    → (st ≡ body_read → s.held ≡ [])
    → IsRelay body rest s
    → IsRelay body rest (record s { status = st; response_status = code })
same-IsRelay body rest s st code h i = record {
  unread = i.unread;
  whole = i.whole;
  unread_rest = i.unread_rest;
  counted = i.counted;
  within_size = i.within_size;
  empty_to_read = h;
}

pub body_write-ne : {P : Type 0} → body_write ≡ body_read → P
body_write-ne e = ground arith

bytes_to_read-bound : (s : ReqBody) → bytes_to_read s ≤ s.filesize - s.filepos
unfolding bytes_to_read
bytes_to_read-bound s = ground arith

got-IsRelay :
    (body rest' bytes : Bytes) (s : ReqBody) (n : ℕ)
    → s.held ≡ []
    → n ≤ s.filesize - s.filepos
    → 1 ≤ length bytes
    → length bytes ≤ n
    → IsRelay body (bytes ++ rest') s
    → IsRelay body rest' (record s { status = body_write; held = s.held ++ bytes })
got-IsRelay body rest' bytes s n h b l u i = record {
  unread = rest';
  whole =
      ap (λ t. t ++ rest') (sym (append_assoc s.post_data s.held bytes))
      ∙ append_assoc (s.post_data ++ s.held) bytes rest'
      ∙ ap (λ t. s.post_data ++ s.held ++ t) (sym unread_is)
      ∙ i.whole;
  unread_rest = inl refl;
  counted = i.counted;
  within_size = omega (arith, length-append s.held bytes, ap length h, b, u, l);
  empty_to_read = body_write-ne;
}
  where
    unread_is : i.unread ≡ bytes ++ rest'
    unread_is = elim i.unread_rest [
      | inl e ↦ e
      | inr e ↦ absurd (omega (arith, e, ap length h, i.within_size))
    ]

-- One more call of read_body keeps the relay.
pub read_body-IsRelay :
    (body rest rest' : Bytes) (s : ReqBody) (a : ReadAnswer)
    → s.status ≡ body_read
    → Reads (bytes_to_read s) rest a rest'
    → IsRelay body rest s
    → IsRelay body rest' (read_body s a).0
unfolding read_body
read_body-IsRelay body rest _ s _ e again i = elim (Bool-cases (bytes_to_read s == 0)) [
  | inl z ↦ rw (z) (same-IsRelay body rest s body_write s.response_status body_write-ne i)
  | inr z ↦ rw (z) i
]
read_body-IsRelay body rest _ s _ e failed i = elim (Bool-cases (bytes_to_read s == 0)) [
  | inl z ↦ rw (z) (same-IsRelay body rest s body_write s.response_status body_write-ne i)
  | inr z ↦ rw (z) (same-IsRelay body rest s s.status 400 i.empty_to_read i)
]
read_body-IsRelay body rest _ s _ e ended i = elim (Bool-cases (bytes_to_read s == 0)) [
  | inl z ↦ rw (z) (same-IsRelay body rest s body_write s.response_status body_write-ne i)
  | inr z ↦ rw (z) (same-IsRelay body rest s s.status 400 i.empty_to_read i)
]
read_body-IsRelay body rest rest' s _ e (some_bytes bytes _ l u p) i =
    elim (Bool-cases (bytes_to_read s == 0)) [
      | inl z ↦ absurd (omega (arith, l, u, eq-of-== _ _ z))
      | inr z ↦ rw (z) (
          got-IsRelay body rest' bytes s (bytes_to_read s) (i.empty_to_read e)
            (bytes_to_read-bound s) l u (rw (sym p) i))
    ]

put-IsRelay :
    (body rest : Bytes) (s : ReqBody) (n : ℕ)
    → s.status ≡ body_write
    → n ≤ length s.held
    → IsRelay body rest s
    → IsRelay body rest (record s {
      filepos = s.filepos + n;
      post_data = s.post_data ++ take n s.held;
      held = drop n s.held;
    })
put-IsRelay body rest s n e b i = record {
  unread = i.unread;
  whole =
      ap (λ t. t ++ i.unread)
        (append_assoc s.post_data (take n s.held) (drop n s.held)
          ∙ ap (λ t. s.post_data ++ t) (take-append-drop n s.held))
      ∙ i.whole;
  unread_rest = elim i.unread_rest [
    | inl u ↦ inl u
    | inr u ↦ inr (omega (arith, u, length-drop n s.held, b))
  ];
  counted =
      omega (arith, i.counted, length-append s.post_data (take n s.held), length-take n s.held, b);
  within_size = omega (arith, i.within_size, length-drop n s.held, b);
  empty_to_read = λ r. body_write-ne (sym e ∙ r);
}

empty-IsRelay :
    (body rest : Bytes) (s : ReqBody) (st : ReqStatus)
    → s.held ≡ []
    → IsRelay body rest s
    → IsRelay body rest (record s { status = st; held = [] })
empty-IsRelay body rest s st h i = record {
  unread = i.unread;
  whole = ap (λ t. s.post_data ++ t ++ i.unread) (sym h) ∙ i.whole;
  unread_rest = elim i.unread_rest [ inl u ↦ inl u | inr u ↦ inr (omega (arith, u, ap length h)) ];
  counted = i.counted;
  within_size = omega (arith, i.within_size);
  empty_to_read = λ r. refl;
}

bytes_to_write_all :
    (body rest : Bytes) (s : ReqBody) → IsRelay body rest s → bytes_to_write s ≡ length s.held
unfolding bytes_to_write
bytes_to_write_all body rest s i = ground (arith, i.within_size)

abbrev by_answer : WriteAnswer → ReqBody → ReqBody × Return
by_answer a s = elim a [
  | write_again ↦ (s, ret blocked)
  | write_intr ↦ (s, ret more)
  | write_error ↦ (s, ret finished)
  | put n ↦ (
    record s {
      filepos = s.filepos + n;
      post_data = s.post_data ++ take n s.held;
      held = drop n s.held;
    },
    ret more,
  )
]

-- One more call of write_body keeps the relay.
pub write_body-IsRelay :
    (body rest : Bytes) (s : ReqBody) (a : WriteAnswer)
    → s.status ≡ body_write
    → IsWriteAnswer (bytes_to_write s) a
    → IsRelay body rest s
    → IsRelay body rest (write_body s a).0
unfolding write_body
write_body-IsRelay body rest s a e w i = elim (Bool-cases (bytes_to_write s == 0)) [
  | inl z ↦ elim (Bool-cases (leb s.filesize s.filepos)) [
    | inl l ↦ rw (z, l) (empty-IsRelay body rest s s.status (nothing z) i)
    | inr l ↦ rw (z, l) (empty-IsRelay body rest s body_read (nothing z) i)
  ]
  | inr z ↦ rw (z) (go a w)
]
  where
    all : bytes_to_write s ≡ length s.held
    all = bytes_to_write_all body rest s i

    nothing : (bytes_to_write s == 0) ≡ true → s.held ≡ []
    nothing z = length-nil s.held (omega (arith, all, eq-of-== (bytes_to_write s) 0 z))

    go :
        (a : WriteAnswer) → IsWriteAnswer (bytes_to_write s) a → IsRelay body rest (by_answer a s).0
    go write_again w = i
    go write_intr w = i
    go write_error w = i
    go (put n) w = put-IsRelay body rest s n e (omega (arith, w, all)) i

-- When write_body starts the program, the file holds the announced number of bytes of the stream.
pub write_body-init_cgi :
    (body rest : Bytes) (s : ReqBody) (a : WriteAnswer)
    → IsRelay body rest s
    → (write_body s a).1 ≡ init_cgi
    → (s.post_data ≡ take s.filesize body) × (length s.post_data ≡ s.filesize)
unfolding write_body bytes_to_write
write_body-init_cgi body rest s a i e =
    let done = init_cgi-done a e in
    (
      sym (take-append-exact s.filesize s.post_data (s.held ++ i.unread) (sizes done))
          ∙ ap (λ t. take s.filesize t) (sym (append_assoc s.post_data s.held i.unread) ∙ i.whole),
      sizes done,
    )
  where
    init_cgi-done : (a : WriteAnswer) → (write_body s a).1 ≡ init_cgi → s.filesize ≤ s.filepos
    init_cgi-done write_again e = ground (arith, e)
    init_cgi-done write_intr e = ground (arith, e)
    init_cgi-done write_error e = ground (arith, e)
    init_cgi-done (put n) e = ground (arith, e)

    sizes : s.filesize ≤ s.filepos → length s.post_data ≡ s.filesize
    sizes d = omega (arith, d, i.counted, i.within_size)
