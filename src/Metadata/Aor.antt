-- ===== src/Metadata/Aor.antt =====
-- `siprec_metadata_aor` of siprec_metadata.c: the address of a participant as a URI.
pub mod Uri
use mod_siprec.Base.{
  Bool, Bytes, Option, [], codes, contains, false, if◌then◌else◌, none, some, starts_with_nocase,
  true, ℕ, ◌++◌, ◌||◌, ◌∷◌,
}
use mod_siprec.Sb.{sb_appendf, sb_init, sb_take}

-- The C test `p && *p`.
abbrev pub is_set : Option Bytes → Bool
is_set none = false
is_set (some []) = false
is_set (some (c ∷ s)) = true

unfoldable pub has_scheme : Bytes → Bool
unfolding starts_with_nocase
has_scheme raw =
    (starts_with_nocase (codes "sip:") raw || starts_with_nocase (codes "sips:") raw)
    || starts_with_nocase (codes "tel:") raw

abbrev pub host_or_invalid : Option Bytes → Bytes
host_or_invalid none = codes "invalid"
host_or_invalid (some []) = codes "invalid"
host_or_invalid (some (c ∷ s)) = c ∷ s

-- The text that the chosen format prints.
unfoldable pub aor_text : Bytes → Option Bytes → Bytes
unfolding has_scheme contains
aor_text raw host =
    if has_scheme raw
    then raw
    else if contains raw b'@'
    then codes "sip:" ++ raw
    else codes "sip:" ++ (raw ++ (b'@' ∷ host_or_invalid host))

-- `none` is NULL.
unfoldable pub metadata_aor : (ℕ → ℕ → Bool) → Option Bytes → Option Bytes → Option Bytes
unfolding aor_text sb_take sb_appendf sb_init
metadata_aor realloc none host = none
metadata_aor realloc (some []) host = none
metadata_aor realloc (some (c ∷ s)) host =
    sb_take (sb_appendf realloc (aor_text (c ∷ s) host) sb_init)
