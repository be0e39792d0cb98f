-- ===== src/Uri.antt =====
-- siprec_uri.c and siprec_uri.h: the allowlist check of per-call SRS URIs.
pub mod Accepted
use mod_siprec.Base.{
  Bool, Bytes, Option, [], all, between, codes, contains, has_infix, if◌then◌else◌, length, ltb,
  none, not, some, starts_with_nocase, true, ℕ, ◌&&◌, ◌==◌, ◌||◌, ◌∷◌,
}

-- The reasons that the C function names by its message.
pub data Refusal : Type 0 where
  empty too_long not_sip no_host bad_char separator : Refusal

abbrev pub max_len : ℕ
max_len = 255

-- A byte is never NUL inside a C string, which the C test `c != '\0'` covers.
unfoldable pub uri_char_ok : ℕ → Bool
unfolding contains
uri_char_ok c =
    if (between b'a' b'z' c || between b'A' b'Z' c) || between b'0' b'9' c
    then true
    else not (c == 0) && contains (codes "-._~%!*+;=:@$") c

-- The two checks that follow the scheme, for its length.
unfoldable pub check_rest : ℕ → Bytes → Option Refusal
unfolding uri_char_ok has_infix
check_rest scheme_len uri =
    if length uri == scheme_len
    then some no_host
    else if not (all uri_char_ok uri)
    then some bad_char
    else if has_infix (codes ":_:") uri
    then some separator
    else none

-- The checks on a non-empty URI, in the order of the source.
unfoldable pub check_uri : Bytes → Option Refusal
unfolding check_rest starts_with_nocase
check_uri uri =
    if ltb max_len (length uri)
    then some too_long
    else if starts_with_nocase (codes "sip:") uri
    then check_rest 4 uri
    else if starts_with_nocase (codes "sips:") uri
    then check_rest 5 uri
    else some not_sip

-- `siprec_uri_check`; `none` is the NULL of success. A NULL pointer is `none` of the argument.
unfoldable pub uri_check : Option Bytes → Option Refusal
unfolding check_uri
uri_check none = some empty
uri_check (some []) = some empty
uri_check (some (c ∷ cs)) = check_uri (c ∷ cs)
