-- ===== src/HttpDate.antt =====
-- src/util.c: the texts of times, and the comparison behind If-Modified-Since.
--
-- `localtime` and `gmtime` are the C library's, so a broken-down time is an argument. A year is
-- printed by a loop that runs once for each of its digits.
pub mod Format
pub mod Order
use boa.Common.{
  if◌then◌else◌, ℕ, zero, suc, ◌+◌, ◌-◌, ◌*◌, ◌/◌, ◌%◌, Bool, false, not, ◌&&◌, Option, none, some,
  ◌∷◌, ◌++◌, ltb, leb, ◌==◌, get_or, take, drop, Bytes, codes,
}

-- The fields of `struct tm` that the code reads, none of them negative.
pub record Tm : Type 0 where
  pub tm_sec : ℕ
  pub tm_min : ℕ
  pub tm_hour : ℕ
  pub tm_mday : ℕ
  pub tm_mon : ℕ
  pub tm_year : ℕ
  pub tm_wday : ℕ

unfoldable pub month_tab : Bytes
month_tab = codes "Jan Feb Mar Apr May Jun Jul Aug Sep Oct Nov Dec "

unfoldable pub day_tab : Bytes
day_tab = codes "Sun,Mon,Tue,Wed,Thu,Fri,Sat,"

-- '0' + a / 10 and '0' + a % 10, in front of `rest`.
abbrev pub two_digits : ℕ → Bytes → Bytes
two_digits a rest = (b'0' + a / 10) ∷ (b'0' + a % 10) ∷ rest

-- The `while (a)` that writes the year backwards. An int has ten digits at most.
unfoldable pub year_loop : ℕ → ℕ → Bytes → Bytes
year_loop zero a rest = rest
year_loop (suc f) a rest =
    let more = year_loop f (a / 10) ((b'0' + a % 10) ∷ rest) in if a == 0 then rest else more

abbrev pub year_digits : ℕ → Bytes → Bytes
year_digits a rest = year_loop 10 a rest

-- `rfc822_time_buf`: the 29 bytes, written from the back; there is no NUL.
unfoldable pub rfc822_time : Tm → Bytes
rfc822_time t =
    let zone = codes " GMT" in
    let clock =
      two_digits t.tm_hour (b':' ∷ two_digits t.tm_min (b':' ∷ two_digits t.tm_sec zone)) in
    let year = year_digits (1900 + t.tm_year) (b' ' ∷ clock) in
    let month = take 4 (drop (4 * t.tm_mon) month_tab) ++ year in
    take 4 (drop (t.tm_wday * 4) day_tab) ++ (b' ' ∷ two_digits t.tm_mday (b' ' ∷ month))

-- The offset from UTC in seconds, as its sign and its size.
pub record Offset : Type 0 where
  pub negative : Bool
  pub seconds : ℕ

-- `get_commonlog_time`, with the NUL at its end left out.
unfoldable pub commonlog_time : Tm → Offset → Bytes
commonlog_time t offset =
    let a = offset.seconds / 60 in
    let zone =
      (if offset.negative then b'-' else b'+')
      ∷ two_digits (a / 10 / 6) ((b'0' + a / 10 % 6) ∷ (b'0' + a % 10) ∷ codes "] ") in
    let clock =
      two_digits t.tm_hour
        (b':' ∷ two_digits t.tm_min (b':' ∷ two_digits t.tm_sec (b' ' ∷ zone))) in
    let year = year_digits (1900 + t.tm_year) (b':' ∷ clock) in
    let month = take 3 (drop (4 * t.tm_mon) month_tab) ++ (b'/' ∷ year) in
    b'[' ∷ two_digits t.tm_mday (b'/' ∷ month)

-- `month2int`: `none` is -1. A read of the name stops at its NUL, which is a 0 here.
abbrev char_at : ℕ → Bytes → ℕ
char_at i s = get_or s i 0

unfoldable pub month2int : Bytes → Option ℕ
month2int s =
    let c = char_at 0 s in
    if c == b'A'
    then some (if char_at 1 s == b'p' then 3 else 7)
    else if c == b'D'
    then some 11
    else if c == b'F'
    then some 1
    else if c == b'J'
    then (if char_at 1 s == b'a' then some 0 else some (if char_at 2 s == b'n' then 5 else 6))
    else if c == b'M'
    then some (if char_at 2 s == b'r' then 2 else 4)
    else if c == b'N'
    then some 10
    else if c == b'O'
    then some 9
    else if c == b'S'
    then some 8
    else none

-- The end of `date_to_tm`, from the numbers and the name that `sscanf` has stored: the two
-- corrections of the year, and the checks. That `sscanf` can store a negative number is left out.
unfoldable pub fix_year : ℕ → ℕ
fix_year year =
    let y = if ltb year 70 then year + 100 else year in if ltb 1900 y then y - 1900 else y

abbrev in_range : Tm → Bool
in_range t =
    leb t.tm_sec 59
    && leb t.tm_min 59
    && leb t.tm_hour 23
    && (leb 1 t.tm_mday && leb t.tm_mday 31)
    && leb t.tm_mon 11
    && (leb 70 t.tm_year && leb t.tm_year 120)

unfoldable pub check_tm : Tm → Option Tm
check_tm t = if in_range t then some t else none

unfoldable pub parsed_tm : ℕ → Bytes → ℕ → ℕ → ℕ → ℕ → Option Tm
unfolding month2int fix_year check_tm
parsed_tm day monthname year hour minute second = elim (month2int monthname) [
  | none ↦ none
  | some mon ↦ check_tm (record {
    tm_sec = second;
    tm_min = minute;
    tm_hour = hour;
    tm_mday = day;
    tm_mon = mon;
    tm_year = fix_year year;
    tm_wday = 0;
  })
]

-- `modified_since` behind `date_to_tm`: the first field that differs decides.
unfoldable pub newer : Tm → Tm → Bool
newer file asked =
    if not (file.tm_year == asked.tm_year)
    then ltb asked.tm_year file.tm_year
    else if not (file.tm_mon == asked.tm_mon)
    then ltb asked.tm_mon file.tm_mon
    else if not (file.tm_mday == asked.tm_mday)
    then ltb asked.tm_mday file.tm_mday
    else if not (file.tm_hour == asked.tm_hour)
    then ltb asked.tm_hour file.tm_hour
    else if not (file.tm_min == asked.tm_min)
    then ltb asked.tm_min file.tm_min
    else if not (file.tm_sec == asked.tm_sec)
    then ltb asked.tm_sec file.tm_sec
    else false
