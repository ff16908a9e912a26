-- ===== src/Examples/Headers.antt =====
-- The header scanner at concrete inputs. The session collects the lines, the last one first; the
-- results 0 and 1 stand for a bad request and for the end of the header.
use boa.Common.{ℕ, ◌≡◌, refl, List, [], ◌∷◌, arith, Bytes, codes}
use boa.Status.{read_header}
use boa.Header.{HeaderScan, LineDone, goes_on, Scanned, read_loop, resume, read_loop-append}
use boa.Header.Lines.{IsHeaderLine, scan, print_lines, run_lines, read_loop-print_lines}

abbrev collect : List Bytes → Bytes → LineDone (List Bytes) ℕ
collect lines w = goes_on (w ∷ lines)

abbrev finish : List Bytes → ℕ
finish lines = 1

get_line : IsHeaderLine (codes "GET")
unfolding boa.Header.is_legal
get_line =
    ((λ e. cc), ((refl, refl, refl), ((refl, refl, refl), ((refl, refl, refl), tt))), ground arith)

host_line : IsHeaderLine (codes "H:")
unfolding boa.Header.is_legal
host_line = ((λ e. cc), ((refl, refl, refl), ((refl, refl, refl), tt)), ground arith)

read_loop-print_lines_example :
    read_loop 0 collect finish
      (print_lines (codes "GET" ∷ codes "H:" ∷ []) (codes "data"))
      (scan read_header [] 0 [])
    ≡ run_lines 0 collect finish (codes "GET" ∷ codes "H:" ∷ []) (codes "data") []
read_loop-print_lines_example =
    read_loop-print_lines 0 collect finish (codes "GET") (codes "H:" ∷ []) (codes "data") 0 []
      get_line (host_line, tt)
