-- ===== src/HttpDate/Format.antt =====
-- What stands where in the text of `rfc822_time_buf`.
use boa.Common.{
  ℕ, zero, suc, ◌+◌, ◌*◌, ◌/◌, ◌%◌, ◌≤◌, ◌<◌, ◌≡◌, refl, some, [], ◌∷◌, ◌++◌, arith, length, take,
  drop, length-take, length-drop, Bytes, codes,
}
use boa.Decimal.Print.{value}
use boa.HttpDate.{
  Tm, month_tab, day_tab, two_digits, year_loop, year_digits, rfc822_time, month2int,
}

-- The three letters of a month in the table, and the blank behind them.
record MonthText (m : ℕ) : Type 0 where
  first : ℕ
  second : ℕ
  third : ℕ
  text : take 4 (drop (4 * m) month_tab) ≡ first ∷ second ∷ third ∷ b' ' ∷ []
  read : (rest : Bytes) → month2int (first ∷ second ∷ third ∷ rest) ≡ some m

month_text : (m : ℕ) → m < 12 → MonthText m
unfolding month_tab month2int
month_text zero h = record {
  first = b'J';
  second = b'a';
  third = b'n';
  text = refl;
  read = λ r. refl;
}
month_text (suc zero) h = record {
  first = b'F';
  second = b'e';
  third = b'b';
  text = refl;
  read = λ r. refl;
}
month_text (suc (suc zero)) h = record {
  first = b'M';
  second = b'a';
  third = b'r';
  text = refl;
  read = λ r. refl;
}
month_text (suc (suc (suc zero))) h = record {
  first = b'A';
  second = b'p';
  third = b'r';
  text = refl;
  read = λ r. refl;
}
month_text (suc (suc (suc (suc zero)))) h = record {
  first = b'M';
  second = b'a';
  third = b'y';
  text = refl;
  read = λ r. refl;
}
month_text (suc (suc (suc (suc (suc zero))))) h = record {
  first = b'J';
  second = b'u';
  third = b'n';
  text = refl;
  read = λ r. refl;
}
month_text (suc (suc (suc (suc (suc (suc zero)))))) h = record {
  first = b'J';
  second = b'u';
  third = b'l';
  text = refl;
  read = λ r. refl;
}
month_text (suc (suc (suc (suc (suc (suc (suc zero))))))) h = record {
  first = b'A';
  second = b'u';
  third = b'g';
  text = refl;
  read = λ r. refl;
}
month_text (suc (suc (suc (suc (suc (suc (suc (suc zero)))))))) h = record {
  first = b'S';
  second = b'e';
  third = b'p';
  text = refl;
  read = λ r. refl;
}
month_text (suc (suc (suc (suc (suc (suc (suc (suc (suc zero))))))))) h = record {
  first = b'O';
  second = b'c';
  third = b't';
  text = refl;
  read = λ r. refl;
}
month_text (suc (suc (suc (suc (suc (suc (suc (suc (suc (suc zero)))))))))) h = record {
  first = b'N';
  second = b'o';
  third = b'v';
  text = refl;
  read = λ r. refl;
}
month_text (suc (suc (suc (suc (suc (suc (suc (suc (suc (suc (suc zero))))))))))) h = record {
  first = b'D';
  second = b'e';
  third = b'c';
  text = refl;
  read = λ r. refl;
}
month_text (suc (suc (suc (suc (suc (suc (suc (suc (suc (suc (suc (suc m)))))))))))) h =
    absurd (omega arith)

year_four :
    (a : ℕ) (rest : Bytes)
    → 1000 ≤ a
    → a ≤ 9999
    → year_digits a rest
      ≡ (b'0' + a / 1000) ∷ (b'0' + a / 100 % 10) ∷ (b'0' + a / 10 % 10) ∷ (b'0' + a % 10) ∷ rest
unfolding year_loop
year_four a rest l h = ground arith

-- A day's name fills its four bytes.
length-day : (d : ℕ) → d < 7 → length (take 4 (drop (d * 4) day_tab)) ≡ 4
unfolding day_tab
length-day d h = omega (arith, length-take 4 (drop (d * 4) day_tab), length-drop (d * 4) day_tab)

-- The four bytes of a list of that length.
four : (s : Bytes) → length s ≡ 4 → (a b c d : ℕ) × (s ≡ a ∷ b ∷ c ∷ d ∷ [])
four (a ∷ b ∷ c ∷ d ∷ []) h = (a, b, c, d, refl)
four (a ∷ b ∷ c ∷ d ∷ e ∷ s) h = absurd (omega arith)
four (a ∷ b ∷ c ∷ []) h = absurd (omega arith)
four (a ∷ b ∷ []) h = absurd (omega arith)
four (a ∷ []) h = absurd (omega arith)
four [] h = absurd (omega arith)

two_digits-value : (a : ℕ) → a < 100 → value 0 (two_digits a []) ≡ a
two_digits-value a h = omega arith

-- The text with its names of day and month written out.
abbrev layout : (day : Bytes) → (month : Bytes) → Tm → Bytes
layout day month t =
    day
    ++ (b' '
        ∷ two_digits t.tm_mday (
            b' '
            ∷ (month
                ++ ((b'0' + (1900 + t.tm_year) / 1000)
                    ∷ (b'0' + (1900 + t.tm_year) / 100 % 10)
                    ∷ (b'0' + (1900 + t.tm_year) / 10 % 10)
                    ∷ (b'0' + (1900 + t.tm_year) % 10)
                    ∷ b' '
                    ∷ two_digits t.tm_hour
                        (b':' ∷ two_digits t.tm_min (b':' ∷ two_digits t.tm_sec (codes " GMT")))))))

rfc822_time-layout :
    (t : Tm)
    → t.tm_year ≤ 8099
    → rfc822_time t
      ≡ layout (take 4 (drop (t.tm_wday * 4) day_tab)) (take 4 (drop (4 * t.tm_mon) month_tab)) t
unfolding rfc822_time
rfc822_time-layout t y = rw (
    year_four (1900 + t.tm_year)
      (b' '
        ∷ two_digits t.tm_hour
            (b':' ∷ two_digits t.tm_min (b':' ∷ two_digits t.tm_sec (codes " GMT"))))
      (omega arith) (omega arith))

-- For a time with a valid weekday and month, a year up to 9999 and two-digit fields, the text of
-- rfc822_time_buf is 29 bytes, and the day, the name of the month (which month2int reads back), the
-- year and the time of day stand at their places in it.
pub rfc822_time-fields :
    (t : Tm)
    → t.tm_wday < 7
    → t.tm_mon < 12
    → t.tm_mday < 100
    → t.tm_year ≤ 8099
    → t.tm_hour < 100
    → t.tm_min < 100
    → t.tm_sec < 100
    → (length (rfc822_time t) ≡ 29)
      × (value 0 (take 2 (drop 5 (rfc822_time t))) ≡ t.tm_mday)
      × (month2int (drop 8 (rfc822_time t)) ≡ some t.tm_mon)
      × (value 0 (take 4 (drop 12 (rfc822_time t))) ≡ 1900 + t.tm_year)
      × (value 0 (take 2 (drop 17 (rfc822_time t))) ≡ t.tm_hour)
      × (value 0 (take 2 (drop 20 (rfc822_time t))) ≡ t.tm_min)
      × (value 0 (take 2 (drop 23 (rfc822_time t))) ≡ t.tm_sec)
rfc822_time-fields t w m d y h n s =
    let (d0, d1, d2, d3, e) =
      four (take 4 (drop (t.tm_wday * 4) day_tab)) (length-day t.tm_wday w) in
    let name = month_text t.tm_mon m in
    rw (rfc822_time-layout t y, e, name.text)
      (
        refl,
        two_digits-value t.tm_mday d,
        name.read _,
        omega arith,
        two_digits-value t.tm_hour h,
        two_digits-value t.tm_min n,
        two_digits-value t.tm_sec s,
      )
