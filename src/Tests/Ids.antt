-- ===== src/Tests/Ids.antt =====
-- Metadata IDs of concrete texts, with the expected values of siprec_test.c.
use mod_siprec.Base.{Bytes, codes, length, none, refl, some, ◌↔◌, ◌≡◌}
use mod_siprec.Metadata.Id.{encode, fallback, session_id, uuid_to_id}
use mod_siprec.Metadata.Id.Base64.{decode}
use mod_siprec.Metadata.Id.Names.{Names, uuid_to_id-decode, uuid_to_id_iff}

abbrev uuid_text : Bytes
uuid_text = codes "00112233-4455-6677-8899-aabbccddeeff"

abbrev id_text : Bytes
id_text = codes "ABEiM0RVZneImaq7zN3u/w=="

uuid_encoded : uuid_to_id (some uuid_text) ≡ some id_text
unfolding uuid_to_id
uuid_encoded = refl

callsid_encoded : uuid_to_id (some (codes "CA00112233445566778899aabbccddeeff")) ≡ some id_text
unfolding uuid_to_id
callsid_encoded = refl

misplaced_hyphen : uuid_to_id (some (codes "001122334-455-6677-8899-aabbccddeeff")) ≡ none
unfolding uuid_to_id
misplaced_hyphen = refl

fallback_used : session_id (some (codes "not-a-uuid")) (some uuid_text) ≡ some (fallback, id_text)
unfolding session_id
fallback_used = refl

uuid_to_id_iff_example :
    (uuid_to_id (some uuid_text) ≡ some id_text)
    ↔ ((bytes : Bytes) × Names bytes uuid_text × (id_text ≡ encode bytes))
uuid_to_id_iff_example = uuid_to_id_iff uuid_text id_text

uuid_to_id-decode_example :
    Names (decode id_text) uuid_text × (length (decode id_text) ≡ 16) × (length id_text ≡ 24)
uuid_to_id-decode_example = uuid_to_id-decode uuid_text id_text uuid_encoded
