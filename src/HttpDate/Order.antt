-- ===== src/HttpDate/Order.antt =====
-- `modified_since` compares points in time.
use boa.Common.{if◌then◌else◌, ℕ, ◌+◌, ◌*◌, ◌<◌, ◌≡◌, Bool, false, not, arith, ltb, ◌==◌}
use boa.HttpDate.{Tm, newer}

pub record IsTime (t : Tm) : Type 0 where
  pub sec : t.tm_sec < 60
  pub min : t.tm_min < 60
  pub hour : t.tm_hour < 24
  pub mday : t.tm_mday < 32
  pub mon : t.tm_mon < 12

-- The seconds since the start of a year in which every month has 32 days, and of all years.
abbrev pub time_key : Tm → ℕ
time_key t =
    t.tm_year * 33177600
    + (t.tm_mon * 2764800 + (t.tm_mday * 86400 + (t.tm_hour * 3600 + (t.tm_min * 60 + t.tm_sec))))

-- One comparison of the chain, for a unit of `n` smaller ones, in front of the other comparisons.
abbrev Lex : ℕ → Type 0
Lex n =
    (a b x y : ℕ) (rest : Bool)
    → x < n
    → y < n
    → rest ≡ ltb y x
    → (if not (a == b) then ltb b a else rest) ≡ ltb (b * n + y) (a * n + x)

Lex-minute : Lex 60
Lex-minute a b x y rest h k e = ground arith

Lex-hour : Lex 3600
Lex-hour a b x y rest h k e = ground arith

Lex-day : Lex 86400
Lex-day a b x y rest h k e = ground arith

Lex-month : Lex 2764800
Lex-month a b x y rest h k e = ground arith

Lex-year : Lex 33177600
Lex-year a b x y rest h k e = ground arith

lex_second : (a b : ℕ) → (if not (a == b) then ltb b a else false) ≡ ltb b a
lex_second a b = ground arith

-- For two broken-down times with fields in range, the chain of comparisons of modified_since
-- answers that the file is newer exactly if its time lies strictly behind the other in the order of
-- time.
pub newer-time_key :
    (file asked : Tm)
    → IsTime file
    → IsTime asked
    → newer file asked ≡ ltb (time_key asked) (time_key file)
unfolding newer
newer-time_key file asked f a =
    Lex-year file.tm_year asked.tm_year _ _ _ (omega arith) (omega arith) (
      Lex-month file.tm_mon asked.tm_mon _ _ _ (omega arith) (omega arith) (
        Lex-day file.tm_mday asked.tm_mday _ _ _ (omega arith) (omega arith) (
          Lex-hour file.tm_hour asked.tm_hour _ _ _ (omega arith) (omega arith) (
            Lex-minute file.tm_min asked.tm_min _ _ _ (omega arith) (omega arith)
              (lex_second file.tm_sec asked.tm_sec)))))
