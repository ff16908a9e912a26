-- ===== src/Examples/Pages.antt =====
-- Names in the page of a directory at concrete inputs.
use boa.Common.{◌≤◌, ◌≡◌, refl, true, [], ◌∷◌, length, All, codes}
use boa.Listing.{
  html_escape_string, http_escape_string, error_text, index_main, ScanAnswer, scanned,
}
use boa.Listing.Html.{html_unescape, IsNoMarkup, html_unescape-html_escape_string}

html_unescape-html_escape_string_example :
    (html_unescape 0 (html_escape_string (codes "<a&b>.gz")) ≡ codes "<a&b>.gz")
    × (All IsNoMarkup (html_escape_string (codes "<a&b>.gz")))
    × (length (html_escape_string (codes "<a&b>.gz")) ≤ 48)
html_unescape-html_escape_string_example = html_unescape-html_escape_string (codes "<a&b>.gz")

-- The first colon puts "./" in front.
colon_escaped : http_escape_string (codes "a:b:c") ≡ codes "./a:b:c"
unfolding boa.Listing.http_loop boa.Listing.http_step boa.Escape.needs_escape
    boa.Escape.build_needs_escape boa.Escape.clear_bits boa.Escape.needs_escape_mask
colon_escaped = refl

-- The error 4 is reported as 5.
error_falls_through : error_text 4 ≡ error_text 5
unfolding error_text
error_falls_through = refl

one_argument :
    index_main (codes "/d" ∷ []) true (scanned []) (codes "now") ≡ boa.Listing.send_error 1
unfolding index_main
one_argument = refl
