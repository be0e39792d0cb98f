-- ===== src/Tests/Document.antt =====
-- A metadata document of two participants and one stream.
use mod_siprec.Base.{
  All, Bool, Bytes, [], arith, codes, contains, false, none, refl, some, true, ℕ, ◌++◌, ◌∷◌, ◌≡◌,
  ◌≢◌,
}
use mod_siprec.Sb.Concat.{Taken}
use mod_siprec.Metadata.Escape.{escape, escape_calls}
use mod_siprec.Metadata.Escape.RoundTrip.{
  markup, unescape, unescape-xml_escape_into, written, xml_escape_into-markup,
}
use mod_siprec.Metadata.Aor.{metadata_aor}
use mod_siprec.Metadata.Aor.Uri.{IsUri, Normal, metadata_aor-Normal}
use mod_siprec.Metadata.Document.{
  Datamode, Mode, Options, Participant, Stream, metadata_build, prolog,
}
use mod_siprec.Metadata.Document.Tree.{document, join, print}
use mod_siprec.Metadata.Document.Built.{IsBuildable, metadata_build-document}

abbrev always : ℕ → ℕ → Bool
always k size = true

abbrev caller : Participant
caller = record {
  participant_id = some (codes "cA==");
  aor = some (codes "sip:a&b@example.com");
  display_name = none;
}

abbrev mixed : Stream
mixed = record {
  stream_id = some (codes "cw==");
  mode = Mode.send;
  participant_idx = 0;
  label = some (codes "1");
}

abbrev small : Options
small = record {
  session_id = some (codes "cQ==");
  group_id = none;
  associate_time_utc = none;
  datamode = Datamode.complete;
  session_reason = none;
  participants = caller ∷ [];
  streams = mixed ∷ [];
}

small_built : metadata_build always small ≡ some (prolog ++ print 0 (document small))
unfolding metadata_build print escape escape_calls join
small_built = refl

bad_index :
    metadata_build always (record small { streams = record mixed { participant_idx = 1 } ∷ [] })
    ≡ none
unfolding metadata_build
bad_index = refl

small-IsBuildable : IsBuildable small
small-IsBuildable = record {
  session = (codes "cQ==", refl, λ e. cc);
  peopled = λ e. cc;
  identified = (((codes "cA==", refl, λ e. cc), (codes "sip:a&b@example.com", refl, λ e. cc)), tt);
  attributed = (((codes "cw==", refl, λ e. cc), omega arith), tt);
}

metadata_build-document_example :
    (IsBuildable small
      → Taken always (prolog ++ print 0 (document small)) (metadata_build always small))
    × (¬ IsBuildable small → metadata_build always small ≡ none)
metadata_build-document_example = metadata_build-document small always

unescape-xml_escape_into_example : unescape 0 (written (some (codes "a<b&\"c'"))) ≡ codes "a<b&\"c'"
unescape-xml_escape_into_example = unescape-xml_escape_into (codes "a<b&\"c'")

xml_escape_into-markup_example :
    All (λ d. contains markup d ≡ false) (written (some (codes "a<b&\"c'")))
xml_escape_into-markup_example = xml_escape_into-markup (codes "a<b&\"c'")

number_aor :
    metadata_aor always (some (codes "1000")) (some (codes "pbx")) ≡ some (codes "sip:1000@pbx")
unfolding metadata_aor
number_aor = refl

metadata_aor-Normal_example :
    (raw : Bytes) × (some (codes "1000") ≡ some raw)
    × (raw ≢ [])
    × Normal raw (some (codes "pbx")) (codes "sip:1000@pbx")
    × IsUri (codes "sip:1000@pbx")
metadata_aor-Normal_example =
    metadata_aor-Normal always (some (codes "1000")) (some (codes "pbx")) (codes "sip:1000@pbx")
      number_aor
