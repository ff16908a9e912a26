-- ===== src/Examples/Sessions.antt =====
-- A request line and its options at concrete inputs. The scanner of the version knows two texts.
use boa.Common.{ℕ, ◌≡◌, refl, Option, none, some, [], arith, if◌then◌else◌, Bytes, codes, str_eq}
use boa.Status.{m_get, http10, ka_inactive}
use boa.Logline.{Logline, success, process_logline}
use boa.Logline.Target.{path, print_logline, IsTarget}
use boa.Logline.RoundTrip.{ScansVersions, requested, process_logline-print}
use boa.Options.{process_option_line}
use boa.Options.Kept.{IsExtended, process_option_line-IsExtended}
use boa.Options.Session.{fresh}

unfoldable scan_text : Bytes → Option (ℕ × ℕ)
scan_text s =
    if str_eq s (codes "HTTP/1.0")
    then some (1, 0)
    else if str_eq s (codes "HTTP/1.1")
    then some (1, 1)
    else none

scan_text-ScansVersions : ScansVersions scan_text
unfolding scan_text str_eq
scan_text-ScansVersions = record { scans10 = refl; scans11 = refl }

abbrev pub no_line : Logline
no_line = record {
  method = m_get;
  http_version = http10;
  keepalive = ka_inactive;
  request_uri = [];
  header_host = none;
  cgi_env_index = 0;
}

root-IsTarget : IsTarget (path (codes "/a"))
root-IsTarget = ((λ e. cc), (refl, (refl, tt)), ground arith, refl)

process_logline-print_example :
    process_logline scan_text 5 (print_logline m_get (path (codes "/a")) http10) no_line
    ≡ (requested scan_text 5 m_get (path (codes "/a")) http10 no_line, success)
process_logline-print_example =
    process_logline-print scan_text 5 m_get (path (codes "/a")) http10 no_line
      scan_text-ScansVersions tt root-IsTarget

process_option_line-IsExtended_example :
    IsExtended (fresh no_line) (process_option_line 10 (codes "Host: x") (fresh no_line)).0
process_option_line-IsExtended_example =
    process_option_line-IsExtended 10 (codes "Host: x") (fresh no_line)
