-- ===== src/Examples/Paths.antt =====
-- Requests, paths and hosts at concrete inputs.
use boa.Common.{
  ◌≡◌, refl, Bool, true, false, none, some, List, [], ◌∷◌, ◌++◌, arith, Bytes, codes, str_eq,
}
use boa.Uri.{unescape_uri, unescape_char, hex_to_decimal, hex_value, skip_fragment}
use boa.Escape.{escape_loop}
use boa.Uri.RoundTrip.{unescape_uri-escape_loop}
use boa.PathClean.{clean_pathname, clean_loop, skip_dots}
use boa.PathClean.Safe.{begins_dots, clean_pathname-safe}
use boa.Host.{is_alnum, to_lower, strlower, host_loop, check_host}
use boa.Request.{
  c_string, cut_port, strip_caudium, Settings, virtual_host, translate, process_header_end,
}
use boa.Request.Checked.{IsRooted, IsHostOr, process_header_end-translate}
use boa.Access.{deny, AccessNode, access_node}

abbrev settings : Settings
settings = record {
  use_caudium_hack = true;
  vhost_root = true;
  default_vhost = codes "www.boa.org";
}

translated :
    process_header_end settings
      (some (codes "GET /"))
      (codes "/(ab)//b/%2e/c?q=1")
      none
      (some (codes "Example.com:80"))
    ≡ translate (codes "/b/c") (some (codes "q=1")) (some (codes "example.com"))
unfolding process_header_end unescape_uri unescape_char hex_to_decimal hex_value skip_fragment
    clean_pathname clean_loop skip_dots c_string cut_port strip_caudium virtual_host strlower
    to_lower check_host host_loop is_alnum
translated = refl

process_header_end-translate_example :
    IsRooted (codes "/b/c")
    × IsHostOr (some (codes "example.com"))
    × (some (codes "q=1") ≡ (unescape_uri (codes "/(ab)//b/%2e/c?q=1") none).query)
process_header_end-translate_example =
    process_header_end-translate settings (some (codes "GET /")) (codes "/(ab)//b/%2e/c?q=1") none
      (some (codes "Example.com:80")) (codes "/b/c") (some (codes "q=1"))
      (some (codes "example.com")) translated

cleaned : clean_pathname (codes "/a/../b") ≡ codes "/a" ++ b'/' ∷ codes "b"
unfolding clean_pathname clean_loop skip_dots
cleaned = refl

clean_pathname-safe_example : begins_dots (codes "b") ≡ false
clean_pathname-safe_example = clean_pathname-safe (codes "/a/../b") (codes "/a") (codes "b") cleaned

unescape_uri-escape_loop_example :
    unescape_uri (escape_loop (codes "a %b")) (some (codes "q"))
    ≡ record { uri = codes "a %b"; query = some (codes "q"); legal = true }
unescape_uri-escape_loop_example = unescape_uri-escape_loop (codes "a %b") (some (codes "q")) (
  (ground arith, ground arith),
  (
    (ground arith, ground arith),
    ((ground arith, ground arith), ((ground arith, ground arith), tt)),
  ),
)

-- fnmatch of patterns without wildcards
abbrev equal_names : Bytes → Bytes → Bool
equal_names = str_eq

abbrev one_rule : List AccessNode
one_rule = access_node (codes "/a") deny ∷ []
