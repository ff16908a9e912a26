-- ===== src/Header/Lines.antt =====
-- The scanner of `read_header` on the text of a header: it hands over the lines that were written.
use boa.Common.{
  take-length, ◌∙◌, ap, ℕ, ◌<◌, ◌≡◌, refl, ap, ◌∙◌, ◌≢◌, true, false, List, [], ◌∷◌, ◌++◌,
  append-nil, append_assoc, arith, leb, ◌==◌, length, take, All, Bytes,
}
use boa.Status.{ReqStatus, read_header, one_cr, one_lf}
use boa.Header.{
  is_legal, next_status, max_header_length, HeaderScan, LineDone, goes_on, returns, Round, next,
  stops, Scanned, stopped, line_done, after_switch, read_char, read_loop,
}

-- A byte of a line: it is not refused, and ends no line.
abbrev pub IsLineChar : ℕ → Type 0
IsLineChar c = (is_legal c ≡ true) × ((c == 13) ≡ false) × ((c == 10) ≡ false)

-- A line with at least one byte, within the limit.
abbrev pub IsHeaderLine : Bytes → Type 0
IsHeaderLine w = (w ≢ []) × All IsLineChar w × (length w < max_header_length)

-- The lines, each with CR LF behind it, an empty line, and what follows the header.
unfoldable pub print_lines : List Bytes → Bytes → Bytes
print_lines [] rest = 13 ∷ 10 ∷ rest
print_lines (w ∷ ws) rest = w ++ 13 ∷ 10 ∷ print_lines ws rest

abbrev pub scan : {S : Type 0} → ReqStatus → Bytes → ℕ → S → HeaderScan S
scan st l e s = record { status = st; line = l; header_end = e; session = s }

module _ {S R : Type 0} (bad : R) (line : S → Bytes → LineDone S R) (ended : S → R) where
  -- The lines are handed over one by one, until one of them ends the request.
  unfoldable pub run_lines : List Bytes → Bytes → S → Scanned S R
  run_lines [] rest s = stopped (ended s) rest
  run_lines (w ∷ ws) rest s = elim (line s w) [
    | goes_on s' ↦ run_lines ws rest s'
    | returns r ↦ stopped r (print_lines ws rest)
  ]

  read_char-line :
      (c : ℕ) (l : Bytes) (e : ℕ) (s : S)
      → IsLineChar c
      → read_char bad line ended c (scan read_header l e s)
        ≡ next (scan read_header (l ++ c ∷ []) e s)
  unfolding read_char next_status after_switch
  read_char-line c l e s (k, r, n) = rw (k, r, n) refl

  read_char-first :
      (c : ℕ) (e : ℕ) (s : S)
      → IsLineChar c
      → read_char bad line ended c (scan one_lf [] e s) ≡ next (scan read_header (c ∷ []) e s)
  unfolding read_char next_status after_switch
  read_char-first c e s (k, r, n) = rw (k, r, n) refl

  read_loop-round :
      (c : ℕ) (t : Bytes) (q : HeaderScan S) (p : Round S R)
      → read_char bad line ended c q ≡ p
      → read_loop bad line ended (c ∷ t) q
        ≡ elim p [ next q' ↦ read_loop bad line ended t q' | stops r ↦ stopped r t ]
  unfolding read_loop
  read_loop-round c t q p e =
      ap
        (λ (x : Round S R). elim x [
          | next q' ↦ read_loop bad line ended t q'
          | stops r ↦ stopped r t
        ])
        e

  read_loop-line :
      (w l t : Bytes) (e : ℕ) (s : S)
      → All IsLineChar w
      → read_loop bad line ended (w ++ t) (scan read_header l e s)
        ≡ read_loop bad line ended t (scan read_header (l ++ w) e s)
  read_loop-line [] l t e s h = rw (append-nil l) refl
  read_loop-line (c ∷ w) l t e s h =
      read_loop-round c (w ++ t) (scan read_header l e s) _ (read_char-line c l e s h.0)
      ∙ read_loop-line w (l ++ c ∷ []) t e s h.1
      ∙ ap (λ m. read_loop bad line ended t (scan read_header m e s)) (append_assoc l (c ∷ []) w)

  read_char-cr :
      (l : Bytes) (e : ℕ) (s : S)
      → read_char bad line ended 13 (scan read_header l e s)
        ≡ next (scan one_cr (l ++ 13 ∷ []) (length l) s)
  unfolding read_char next_status after_switch is_legal
  read_char-cr l e s = refl

  read_char-lf :
      (l : Bytes) (s : S)
      → length l < max_header_length
      → read_char bad line ended 10 (scan one_cr (l ++ 13 ∷ []) (length l) s)
        ≡ line_done bad line ended (length l) (line s l)
  unfolding read_char next_status after_switch is_legal
  read_char-lf l s h = rw (not_long) (
      ap (λ t. line_done bad line ended (length l) (line s t))
        (ap (λ t. take (length l) t) (append_assoc l (13 ∷ []) (10 ∷ []))
          ∙ take-length l (13 ∷ 10 ∷ [])))
    where
      not_long : leb max_header_length (length l) ≡ false
      not_long = ground (arith, h)

  read_loop-crlf :
      (l t : Bytes) (e : ℕ) (s : S)
      → length l < max_header_length
      → read_loop bad line ended (13 ∷ 10 ∷ t) (scan read_header l e s) ≡ elim (line s l) [
        | goes_on s' ↦ read_loop bad line ended t (scan one_lf [] (length l) s')
        | returns r ↦ stopped r t
      ]
  unfolding line_done
  read_loop-crlf l t e s h =
      read_loop-round 13 (10 ∷ t) (scan read_header l e s) _ (read_char-cr l e s)
      ∙ read_loop-round 10 t (scan one_cr (l ++ 13 ∷ []) (length l) s) _ (read_char-lf l s h)
      ∙ by_line (line s l)
    where
      by_line :
          (d : LineDone S R)
          → elim (line_done bad line ended (length l) d) [
            | next q' ↦ read_loop bad line ended t q'
            | stops r ↦ stopped r t
          ]
            ≡ elim d [
              | goes_on s' ↦ read_loop bad line ended t (scan one_lf [] (length l) s')
              | returns r ↦ stopped r t
            ]
      by_line (goes_on s') = refl
      by_line (returns r) = refl

  read_loop-done :
      (w : Bytes) (ws : List Bytes) (rest : Bytes) (e : ℕ) (s : S)
      → length w < max_header_length
      → ((e' : ℕ) (s' : S)
          → read_loop bad line ended (print_lines ws rest) (scan one_lf [] e' s')
            ≡ run_lines ws rest s')
      → read_loop bad line ended (13 ∷ 10 ∷ print_lines ws rest) (scan read_header w e s)
        ≡ run_lines (w ∷ ws) rest s
  unfolding run_lines
  read_loop-done w ws rest e s h others =
      read_loop-crlf w (print_lines ws rest) e s h ∙ by_line (line s w)
    where
      by_line :
          (d : LineDone S R)
          → elim d [
            | goes_on s' ↦
                read_loop bad line ended (print_lines ws rest) (scan one_lf [] (length w) s')
            | returns r ↦ stopped r (print_lines ws rest)
          ]
            ≡ elim d [
              | goes_on s' ↦ run_lines ws rest s'
              | returns r ↦ stopped r (print_lines ws rest)
            ]
      by_line (goes_on s') = others (length w) s'
      by_line (returns r) = refl

  read_loop-end :
      (rest : Bytes) (e : ℕ) (s : S)
      → read_loop bad line ended (13 ∷ 10 ∷ rest) (scan one_lf [] e s) ≡ stopped (ended s) rest
  unfolding read_loop read_char next_status after_switch is_legal
  read_loop-end rest e s = refl

  read_loop-lines :
      (ws : List Bytes) (rest : Bytes) (e : ℕ) (s : S)
      → All IsHeaderLine ws
      → read_loop bad line ended (print_lines ws rest) (scan one_lf [] e s) ≡ run_lines ws rest s
  unfolding print_lines run_lines
  read_loop-lines [] rest e s h = read_loop-end rest e s
  read_loop-lines ([] ∷ ws) rest e s h = absurd (h.0.0 refl)
  read_loop-lines ((c ∷ w) ∷ ws) rest e s ((n, (hc, hw), short), hs) =
      read_loop-round c (w ++ 13 ∷ 10 ∷ print_lines ws rest) (scan one_lf [] e s) _
        (read_char-first c e s hc)
      ∙ read_loop-line w (c ∷ []) (13 ∷ 10 ∷ print_lines ws rest) e s hw
      ∙ read_loop-done (c ∷ w) ws rest e s short (λ e' s'. read_loop-lines ws rest e' s' hs)

  -- For any line handler and any end of the header: a header of non-empty lines of legal
  -- characters, each shorter than 1536 bytes and ended by CR LF, and an empty line behind them,
  -- is handed over line by line, in order, without the line ends; the request ends in front of
  -- the bytes that follow as soon as the handler ends it for a line, and else with
  -- process_header_end behind the empty line.
  pub read_loop-print_lines :
      (w : Bytes) (ws : List Bytes) (rest : Bytes) (e : ℕ) (s : S)
      → IsHeaderLine w
      → All IsHeaderLine ws
      → read_loop bad line ended (print_lines (w ∷ ws) rest) (scan read_header [] e s)
        ≡ run_lines (w ∷ ws) rest s
  unfolding print_lines
  read_loop-print_lines w ws rest e s h hs =
      read_loop-line w [] (13 ∷ 10 ∷ print_lines ws rest) e s h.1
      ∙ read_loop-done w ws rest e s h.2 (λ e' s'. read_loop-lines ws rest e' s' hs)
