-- ===== src/Options/Session.antt =====
-- The header as a whole: the scanner of `read_header` (src/read.c) with the two functions of
-- src/request.c that it hands the lines to.
use boa.Common.{ℕ, ◌≤◌, ◌≡◌, ◌≢◌, ◌⊎◌, Option, none, [], Bytes}
use boa.Status.{HttpVersion, http09}
use boa.Header.{LineDone, goes_on, returns, Scanned, stopped}
use boa.Logline.{Logline, LoglineEnd, success, process_logline}
use boa.Logline.Target.{Target}
use boa.Options.{cgi_env_max, Headers, OptionEnd, accepted, overread, process_option_line}
use boa.Options.Kept.{IsExtended}

-- Without a first line, as req->logline says, and with one.
pub data Session : Type 0 where
  no_logline : Logline → Session
  in_options : Headers → Session

-- What read_header ends with: process_header_end on the session, or an error reply.
pub data HeaderEnd : Type 0 where
  header_end : Session → HeaderEnd
  bad_header : HeaderEnd
  bad_logline : Logline → LoglineEnd → HeaderEnd
  bad_option : Headers → OptionEnd → HeaderEnd

-- The other fields are cleared when the request begins.
abbrev pub fresh : Logline → Headers
fresh l = record {
  logline = l;
  content_type = none;
  content_length = none;
  if_modified_since = none;
  header_referer = none;
  header_user_agent = none;
  header_forwarded_for = none;
  ranges = record { ranges = []; numranges = 0; pool = [] };
  cgi_env = [];
}

-- Behind a process_logline with the result 1.
unfoldable pub of_version : Logline → HttpVersion → LineDone Session HeaderEnd
of_version l http09 = returns (header_end (in_options (fresh l)))
of_version l _ = goes_on (in_options (fresh l))

-- Behind process_logline.
unfoldable pub after_logline : Logline × LoglineEnd → LineDone Session HeaderEnd
after_logline (l, success) = of_version l l.http_version
after_logline (l, e) = returns (bad_logline l e)

-- Behind process_option_line.
unfoldable pub after_option : Headers × OptionEnd → LineDone Session HeaderEnd
after_option (h, accepted) = goes_on (in_options h)
after_option (h, e) = returns (bad_option h e)

module _ (scan_version : Bytes → Option (ℕ × ℕ)) (common_cgi_env_count ka_max : ℕ) where
  unfoldable pub process_line : Session → Bytes → LineDone Session HeaderEnd
  process_line (no_logline l) line =
      after_logline (process_logline scan_version common_cgi_env_count line l)
  process_line (in_options h) line = after_option (process_option_line ka_max line h)

  -- How a header ends that began as `h`: all lines are taken, or one of them is refused.
  pub data Ends (rest : Bytes) (h : Headers) : Scanned Session HeaderEnd → Type 0 where
    all_taken :
        (h' : Headers) → IsExtended h h' → Ends rest h (stopped (header_end (in_options h')) rest)
    refused :
        (h' : Headers) (e : OptionEnd) (more : Bytes)
        → e ≢ overread
        → IsExtended h h'
        → Ends rest h (stopped (bad_option h' e) more)

  -- The header ends in one of these ways with at most 100 variables in the environment.
  abbrev pub EndsWithRoom : Bytes → Scanned Session HeaderEnd → Type 0
  EndsWithRoom rest x =
      (h' : Headers) × (h'.logline.cgi_env_index ≤ cgi_env_max)
      × ((x ≡ stopped (header_end (in_options h')) rest)
          ⊎ ((e : OptionEnd) × (more : Bytes) × (x ≡ stopped (bad_option h' e) more)))
