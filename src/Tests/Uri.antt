-- ===== src/Tests/Uri.antt =====
-- siprec_uri_check at concrete URIs.
use mod_siprec.Base.{Bytes, codes, none, refl, some, ◌↔◌, ◌≡◌}
use mod_siprec.Uri.{bad_char, no_host, separator, uri_check}
use mod_siprec.Uri.Accepted.{IsAcceptable, uri_check-accepts_iff}

abbrev tls_uri : Bytes
tls_uri = codes "SIPS:rec@srs.example.com:5061;transport=tls"

tls_uri-accepted : uri_check (some tls_uri) ≡ none
unfolding uri_check
tls_uri-accepted = refl

comma_refused : uri_check (some (codes "sip:a@b,sofia/x/sip:c@d")) ≡ some bad_char
unfolding uri_check
comma_refused = refl

separator_refused : uri_check (some (codes "sip:a:_:b")) ≡ some separator
unfolding uri_check
separator_refused = refl

bare_scheme_refused : uri_check (some (codes "sips:")) ≡ some no_host
unfolding uri_check
bare_scheme_refused = refl

uri_check-accepts_iff_example : (uri_check (some tls_uri) ≡ none) ↔ IsAcceptable tls_uri
uri_check-accepts_iff_example = uri_check-accepts_iff tls_uri
