-- ===== src/Metadata/Escape/RoundTrip.antt =====
-- Escaped text is inert in XML, and a reader of XML gets the original back.
use mod_siprec.Base.{
  All, All-append, Bytes, Option, [], ap, arith, codes, contains, false, if◌then◌else◌, refl, some,
  starts_with, suc, zero, ℕ, ◌++◌, ◌==◌, ◌∙◌, ◌∷◌, ◌≡◌,
}
use mod_siprec.Metadata.Escape.{entity, escape_calls, xml_escape_into}
use mod_siprec.Sb.Concat.{concat}

-- The entity that begins at an ampersand, from what follows it: its character, and the length of
-- its rest. An unknown one is left as it is.
pub resolve : Bytes → ℕ × ℕ
resolve s =
    if starts_with (codes "amp;") s
    then (b'&', 4)
    else if starts_with (codes "lt;") s
    then (b'<', 3)
    else if starts_with (codes "gt;") s
    then (b'>', 3)
    else if starts_with (codes "quot;") s
    then (b'"', 5)
    else if starts_with (codes "apos;") s
    then (b'\'', 5)
    else (b'&', 0)

-- Reads a text with entities; the first argument counts the bytes still to skip.
pub unescape : ℕ → Bytes → Bytes
unfolding resolve starts_with
unescape n [] = []
unescape (suc n) (c ∷ s) = unescape n s
unescape zero (c ∷ s) =
    let (d, skip) = if c == b'&' then resolve s else (c, 0) in d ∷ unescape skip s

-- Neither a tag nor an attribute value can end at such a byte.
abbrev pub markup : Bytes
markup = codes "<>\"'"

unescape-entity : (c : ℕ) (rest : Bytes) → unescape 0 (entity c ++ rest) ≡ c ∷ unescape 0 rest
unfolding unescape entity
unescape-entity c rest = ground arith

-- The bytes that `xml_escape_into` hands to the buffer.
abbrev pub written : Option Bytes → Bytes
unfolding escape_calls
written text = concat (xml_escape_into text)

-- Whatever text is escaped, the bytes that go to the buffer give that text back when their entities
-- are resolved.
pub unescape-xml_escape_into : (s : Bytes) → unescape 0 (written (some s)) ≡ s
unfolding written escape_calls
unescape-xml_escape_into [] = unfold unescape in refl
unescape-xml_escape_into (c ∷ s) =
    unescape-entity c (written (some s)) ∙ ap (◌∷◌ c) (unescape-xml_escape_into s)

entity-markup : (c : ℕ) → All (λ d. contains markup d ≡ false) (entity c)
unfolding entity contains
entity-markup c = ground arith

-- No byte that goes to the buffer for a text is an angle bracket or a quote.
pub xml_escape_into-markup : (s : Bytes) → All (λ d. contains markup d ≡ false) (written (some s))
unfolding written escape_calls
xml_escape_into-markup [] = tt
xml_escape_into-markup (c ∷ s) =
    All-append _ (entity c) (written (some s)) (entity-markup c) (xml_escape_into-markup s)
