-- ===== src/Metadata/Escape.antt =====
-- `xml_escape_into` of siprec_metadata.c. No call of the buffer's operations depends on what they
-- did before, so each function that appends is modelled by the list of the calls that it makes.
pub mod RoundTrip
use mod_siprec.Base.{
  Bytes, List, Option, [], ap, codes, if◌then◌else◌, none, refl, some, ℕ, ◌++◌, ◌==◌, ◌∷◌, ◌≡◌,
}
use mod_siprec.Sb.Concat.{Op, concat, raw}

-- What stands for one byte.
unfoldable pub entity : ℕ → Bytes
entity c =
    if c == b'&'
    then codes "&amp;"
    else if c == b'<'
    then codes "&lt;"
    else if c == b'>'
    then codes "&gt;"
    else if c == b'"'
    then codes "&quot;"
    else if c == b'\''
    then codes "&apos;"
    else c ∷ []

unfoldable pub escape_calls : Bytes → List Op
unfolding entity
escape_calls [] = []
escape_calls (c ∷ s) = raw (entity c) ∷ escape_calls s

-- NULL appends nothing.
abbrev pub xml_escape_into : Option Bytes → List Op
xml_escape_into none = []
xml_escape_into (some s) = escape_calls s

-- The text that these calls write.
unfoldable pub escape : Bytes → Bytes
unfolding entity
escape [] = []
escape (c ∷ s) = entity c ++ escape s

pub concat-escape_calls : (s : Bytes) → concat (escape_calls s) ≡ escape s
unfolding escape_calls escape
concat-escape_calls [] = refl
concat-escape_calls (c ∷ s) = ap (◌++◌ (entity c)) (concat-escape_calls s)
