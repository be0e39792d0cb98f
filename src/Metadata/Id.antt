-- ===== src/Metadata/Id.antt =====
-- The RFC 7865 IDs of siprec_metadata.c: base64 of the 16 bytes that a UUID's text spells.
pub mod Base64
pub mod Spelling
pub mod Names
use mod_siprec.Base.{
  Bool, Bytes, Option, [], between, codes, drop, get_or, if◌then◌else◌, length, none, not, some, ℕ,
  ◌%◌, ◌&&◌, ◌*◌, ◌++◌, ◌+◌, ◌-◌, ◌/◌, ◌==◌, ◌^◌, ◌||◌, ◌∷◌,
}

-- The C function gives -1 for `none`.
unfoldable pub hex_nibble : ℕ → Option ℕ
hex_nibble c =
    if between b'0' b'9' c
    then some (c - b'0')
    else if between b'a' b'f' c
    then some (c - b'a' + 10)
    else if between b'A' b'F' c
    then some (c - b'A' + 10)
    else none

-- `b64[]`
abbrev pub alphabet : Bytes
alphabet = codes "ABCDEFGHIJKLMNOPQRSTUVWXYZabcdefghijklmnopqrstuvwxyz0123456789+/"

abbrev pub b64 : ℕ → ℕ
b64 n = get_or alphabet n 0

-- The positions where the canonical form has a hyphen.
abbrev pub hyphen_at : ℕ → Bool
hyphen_at i = ((i == 8 || i == 13) || i == 18) || i == 23

abbrev pub byte_of : Option ℕ → Option ℕ → Option ℕ
byte_of (some hi) (some lo) = some (hi * 16 + lo)
byte_of _ _ = none

abbrev pub cons_byte : Option ℕ → Option Bytes → Option Bytes
cons_byte (some b) (some bs) = some (b ∷ bs)
cons_byte _ _ = none

-- The loop over the text, whose rest from position `i` is the last argument.
unfoldable pub scan : Bool → ℕ → Bytes → Option Bytes
unfolding hex_nibble
scan hyphenated i [] = some []
scan hyphenated i (c ∷ []) =
    if hyphenated && hyphen_at i then (if c == b'-' then some [] else none) else none
scan hyphenated i (c ∷ d ∷ rest) =
    let skip = scan hyphenated (i + 1) (d ∷ rest) in
    let pair = cons_byte (byte_of (hex_nibble c) (hex_nibble d)) (scan hyphenated (i + 2) rest) in
    if hyphenated && hyphen_at i then (if c == b'-' then skip else none) else pair

-- The four characters of `v`, three bytes as one number.
abbrev pub sextets : ℕ → Bytes
sextets v = b64 (v / 2 ^ 18 % 64) ∷ b64 (v / 2 ^ 12 % 64) ∷ b64 (v / 2 ^ 6 % 64) ∷ b64 (v % 64) ∷ []

-- Three-byte groups, then the trailing byte with its padding.
unfoldable pub encode : Bytes → Bytes
encode [] = []
encode (x ∷ []) = b64 (x / 4) ∷ b64 (x % 4 * 16) ∷ b'=' ∷ b'=' ∷ []
encode (a ∷ b ∷ []) = []
encode (a ∷ b ∷ c ∷ rest) = sextets (a * 2 ^ 16 + b * 2 ^ 8 + c) ++ encode rest

abbrev pub encode_if : Option Bytes → Option Bytes
encode_if none = none
encode_if (some bytes) = if length bytes == 16 then some (encode bytes) else none

-- The CallSid prefix is dropped.
abbrev pub strip_callsid : Bytes → Bytes
strip_callsid uuid =
    if length uuid == 34 && (get_or uuid 0 0 == b'C' && get_or uuid 1 0 == b'A')
    then drop 2 uuid
    else uuid

abbrev pub bytes_of : Bytes → Option Bytes
bytes_of uuid =
    if not (length uuid == 36) && not (length uuid == 32)
    then none
    else scan (length uuid == 36) 0 uuid

-- `siprec_metadata_uuid_to_id`; `none` is -1, where `out` is the empty string.
unfoldable pub uuid_to_id : Option Bytes → Option Bytes
unfolding scan encode
uuid_to_id none = none
uuid_to_id (some uuid) = encode_if (bytes_of (strip_callsid uuid))

-- Which identity an ID was taken from.
pub data Source : Type 0 where
  channel fallback : Source

abbrev pub prefer : Option Bytes → Option Bytes → Option (Source × Bytes)
prefer (some id) _ = some (channel, id)
prefer none (some id) = some (fallback, id)
prefer none none = none

-- `siprec_metadata_session_id`, with its result 0, 1 or -1 and what it leaves in `out`.
unfoldable pub session_id : Option Bytes → Option Bytes → Option (Source × Bytes)
unfolding uuid_to_id
session_id channel_uuid fallback_uuid = prefer (uuid_to_id channel_uuid) (uuid_to_id fallback_uuid)
