-- ===== src/Listing.antt =====
-- src/index_dir.c, the program that prints a directory as a page, for the build with GUNZIP.
--
-- What chdir(2), scandir(3), stat(2), ctime(3) and asctime(3) answer is an argument. The buffers of
-- the escaping functions are given by the callers, and names are at most MAXNAMLEN bytes.
pub mod Html
use boa.Common.{
  ◌∙◌, sym, ap, ℕ, zero, suc, ◌+◌, ◌-◌, ◌*◌, ◌/◌, ◌%◌, ◌^◌, ◌≤◌, ◌<◌, min, ◌≡◌, refl, sym, ap, ap₂,
  ◌∙◌, ◌≢◌, ◌↔◌, ◌⊎◌, inl, inr, Bool, true, false, not, ◌&&◌, ◌||◌, Option, none, some, List, [],
  ◌∷◌, ◌++◌, map, append-nil, append_assoc, arith, ltb, leb, ◌==◌, if◌then◌else◌, within, ==_iff,
  eq-of-==, ==_refl, Bool-cases, Option-cases, and-eq-true, length, get_or, set, take, drop,
  replicate, length-append, length-set, length-take, length-drop, get_or-set_self, get_or-set_ne,
  All, All-append, Bytes, codes, str_eq, str_eq_iff, starts, suc-ne-zero, check_range,
  check_range-below, bool_eq, bool_eq_iff, member, take-append-drop, get_or-drop, take-length,
  drop_nil, drop-drop, drop_all, drop-append, take_all, take-append, starts_split,
}
use boa.Decimal.{simple_itoa}
use boa.Escape.{needs_escape}

-- What a byte is written as.
unfoldable pub html_text : ℕ → Bytes
html_text c =
    if c == b'>'
    then codes "&gt;"
    else if c == b'<'
    then codes "&lt;"
    else if c == b'&'
    then codes "&amp;"
    else if c == b'"'
    then codes "&quot;"
    else c ∷ []

unfoldable pub html_escape_string : Bytes → Bytes
html_escape_string [] = []
html_escape_string (c ∷ s) = html_text c ++ html_escape_string s

-- INT_TO_HEX of this file, with capital letters.
abbrev pub capital_hex : ℕ → ℕ
capital_hex x = if ltb 9 x then b'A' - 10 + x else b'0' + x

abbrev pub percent : ℕ → Bytes
percent c = b'%' ∷ capital_hex (c / 16) ∷ capital_hex (c % 16) ∷ []

-- The buffer, and `found_a_colon`. The first colon behind another byte puts "./" in front.
unfoldable pub http_step : ℕ → Bytes × Bool → Bytes × Bool
http_step c (buf, found_a_colon) =
    if c == b':' && not found_a_colon && ltb 0 (length buf)
    then (codes "./" ++ buf ++ b':' ∷ [], true)
    else (buf ++ (if needs_escape c || c == b'?' then percent c else c ∷ []), found_a_colon)

unfoldable pub http_loop : Bytes → Bytes × Bool → Bytes
http_loop [] (buf, found_a_colon) = buf
http_loop (c ∷ s) state = http_loop s (http_step c state)

abbrev pub http_escape_string : Bytes → Bytes
http_escape_string s = http_loop s ([], false)

-- The case 4 has no break.
unfoldable pub error_text : ℕ → Bytes
error_text error =
    if error == 1
    then codes "Not enough arguments were passed to the indexer."
    else if error == 2
    then codes "The Directory Sorter ran out of Memory"
    else if error == 3
    then codes "The was a problem changing to the appropriate directory."
    else if error == 4
    then codes "Too many arguments were passed to the indexer."
    else if error == 5
    then codes "Too many arguments were passed to the indexer."
    else if error == 6
    then codes "No files in this directory."
    else codes "An unknown error occurred producing the directory."

unfoldable pub send_error : ℕ → Bytes
send_error error =
    codes "<html>\n<head>\n<title>\n"
    ++ error_text error
    ++ codes "\n</title>\n<body>\n"
    ++ error_text error
    ++ codes "\n</body>\n</html>\n"

unfoldable pub select_files : Bytes → Bool
select_files name = not (get_or name 0 0 == b'.')

-- `ctime` is the text that ctime(3) gives for the time of the change.
pub record ListStat : Type 0 where
  pub is_dir : Bool
  pub size : ℕ
  pub ctime : Bytes

pub record ListEntry : Type 0 where
  pub name : Bytes
  -- What stat(2) answers.
  pub stat : Option ListStat

pub data ScanAnswer : Type 0 where
  scan_error scan_none : ScanAnswer
  scanned : List ListEntry → ScanAnswer

unfoldable pub dir_row : Bytes → ListStat → Bytes
dir_row name stat =
    codes "<tr><td width=\"40%\"><a href=\""
    ++ html_escape_string (http_escape_string name)
    ++ codes "/\">"
    ++ html_escape_string name
    ++ codes "/</a></td><td align=right>"
    ++ stat.ctime
    ++ codes "</td><td align=right>"
    ++ simple_itoa stat.size
    ++ codes " bytes</td></tr>\n"

-- The cells of the date and the size.
abbrev pub file_cells : ListStat → Bytes
file_cells stat =
    codes "<td align=right>"
    ++ stat.ctime
    ++ codes "</td><td align=right>"
    ++ simple_itoa stat.size
    ++ codes "bytes</td></tr>\n"

abbrev pub without_gz : Bytes → Bytes
without_gz s = take (length s - 3) s

unfoldable pub file_row : Bytes → ListStat → Bytes
file_row name stat =
    let http_filename = http_escape_string name in
    let html_filename = html_escape_string name in
    let len = length http_filename in
    if ltb 3 len && str_eq (drop (len - 3) http_filename) (codes ".gz")
    then codes "<tr><td width=\"40%\"><a href=\""
      ++ html_escape_string (without_gz http_filename)
      ++ codes "\">"
      ++ without_gz html_filename
      ++ codes "</a> <a href=\""
      ++ without_gz http_filename
      ++ codes ".gz\">(.gz)</a></td>"
      ++ file_cells stat
    else codes "<tr><td width=\"40%\"><a href=\""
      ++ html_escape_string http_filename
      ++ codes "\">"
      ++ html_filename
      ++ codes "</a></td>"
      ++ file_cells stat

-- One of the two loops: `dirs` is the one over the directories.
unfoldable pub rows : (dirs : Bool) → List ListEntry → Bytes
rows dirs [] = []
rows dirs (e ∷ es) = row e.stat ++ rows dirs es
  where
    row : Option ListStat → Bytes
    row none = []
    row (some stat) =
        if bool_eq dirs stat.is_dir
        then if dirs then dir_row e.name stat else file_row e.name stat
        else []

unfoldable pub list_head : Bytes → Bytes
list_head title =
    codes "<html>\n<head>\n<title>Index of "
    ++ html_escape_string title
    ++ codes "</title>\n</head>\n\n<body bgcolor=\"#ffffff\">\n<H2>Index of "
    ++ html_escape_string title
    ++ codes "</H2>\n<table>\n"
    ++ (if str_eq title (codes "/")
        then []
        else codes "<tr><td colspan=3><h3>Directories</h3></td></tr>"
          ++ codes "<tr><td colspan=3><a href=\"../\">Parent Directory</a></td></tr>\n")

-- `entered` is that chdir(2) succeeds. The flag is that the result is 0.
unfoldable pub index_directory : (entered : Bool) → ScanAnswer → Bytes → Bytes × Bool
index_directory false scan title = (send_error 3, false)
index_directory true scan_error title = (send_error 2, false)
index_directory true scan_none title = (send_error 6, false)
index_directory true (scanned entries) title = (
  list_head title
      ++ rows true entries
      ++ codes "<tr><td colspan=3>&nbsp;</td></tr>\n<tr><td colspan=3><h3>Files</h3></td></tr>\n"
      ++ rows false entries,
  true,
)

-- The end of the page; `now` is the text of asctime(3), without its line feed.
unfoldable pub list_foot : Bytes → Bytes
list_foot now =
    codes "</table>\n<hr noshade>\nIndex generated "
    ++ now
    ++ codes " UTC\n<!-- This program is part of the Boa Webserver Copyright (C) 1991-2002 "
    ++ codes "http://www.boa.org -->\n</body>\n</html>\n"

-- `main`, with the arguments behind the name of the program, and what is printed.
unfoldable pub index_main : List Bytes → (entered : Bool) → ScanAnswer → Bytes → Bytes
index_main [] entered scan now = send_error 1
index_main (dir ∷ []) entered scan now = send_error 1
index_main (dir ∷ title ∷ []) entered scan now =
    (index_directory entered scan title).0 ++ list_foot now
index_main (dir ∷ title ∷ _ ∷ _) entered scan now = send_error 5
