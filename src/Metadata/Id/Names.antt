-- ===== src/Metadata/Id/Names.antt =====
-- Which texts name which 16 bytes, and that `siprec_metadata_uuid_to_id` accepts exactly those.
use mod_siprec.Base.{
  ==_iff, All, Bool, Bool-cases, Bytes, Option, [], arith, false, inl, inr, length, none, refl,
  some, suc, true, ℕ, ◌&&◌, ◌<◌, ◌==◌, ◌↔◌, ◌∷◌, ◌≡◌,
}
use mod_siprec.Metadata.Id.{bytes_of, encode, encode_if, strip_callsid, uuid_to_id}
use mod_siprec.Metadata.Id.Base64.{decode, decode-encode, encode-length}
use mod_siprec.Metadata.Id.Spelling.{
  Spells, Spells-bounds, Spells-scan, bare-length, hyphenated-length, scan-Spells,
}

-- The forms of a UUID: canonical, 32 digits, or a CallSid.
pub data Names (bytes : Bytes) : Bytes → Type 0 where
  canonical : {t : Bytes} → length t ≡ 36 → Spells true 0 bytes t → Names bytes t
  bare : {t : Bytes} → length t ≡ 32 → Spells false 0 bytes t → Names bytes t
  callsid : {t : Bytes} → length t ≡ 32 → Spells false 0 bytes t → Names bytes (b'C' ∷ b'A' ∷ t)

encode_if-some :
    (o : Option Bytes) {id : Bytes}
    → encode_if o ≡ some id
    → (bytes : Bytes) × (o ≡ some bytes) × (length bytes ≡ 16) × (id ≡ encode bytes)
encode_if-some none e = cc
encode_if-some (some bytes) e = (bytes, refl, ground arith, ground arith)

encode_if_of : (bytes : Bytes) → length bytes ≡ 16 → encode_if (some bytes) ≡ some (encode bytes)
encode_if_of bytes e = ground arith

-- Without a CallSid's prefix.
data NamesBare (bytes t : Bytes) : Type 0 where
  long : length t ≡ 36 → Spells true 0 bytes t → NamesBare bytes t
  short : length t ≡ 32 → Spells false 0 bytes t → NamesBare bytes t

NamesBare-length : {bytes t : Bytes} → NamesBare bytes t → length bytes ≡ 16
NamesBare-length (long e s) = hyphenated-length e s
NamesBare-length (short e s) = omega (arith, bare-length s)

NamesBare-bytes_of : {bytes t : Bytes} → NamesBare bytes t → bytes_of t ≡ some bytes
NamesBare-bytes_of {t} (long e s) =
    let l : (length t == 36) ≡ true = ground arith in rw l (scan-Spells s)
NamesBare-bytes_of {t} (short e s) =
    let l : (length t == 36) ≡ false = ground arith in
    let k : (length t == 32) ≡ true = ground arith in rw (l, k) (scan-Spells s)

bytes_of-NamesBare : (t : Bytes) {bytes : Bytes} → bytes_of t ≡ some bytes → NamesBare bytes t
bytes_of-NamesBare t e = elim (Bool-cases (length t == 36)) [
  | inl l ↦ long ((==_iff _ _).0 l) (Spells-scan true 0 t (rw l at e))
  | inr l ↦ elim (Bool-cases (length t == 32)) [
    | inl k ↦ short ((==_iff _ _).0 k) (Spells-scan false 0 t (rw (l, k) at e))
    | inr k ↦ absurd (ground arith)
  ]
]

Names-strip : {bytes u : Bytes} → Names bytes u → NamesBare bytes (strip_callsid u)
Names-strip {u} (canonical e s) =
    let other : (length u == 34) ≡ false = ground arith in rw other (long e s)
Names-strip {u} (bare e s) =
    let other : (length u == 34) ≡ false = ground arith in rw other (short e s)
Names-strip (callsid {t} e s) =
    let sid : (suc (suc (length t)) == 34) ≡ true = ground arith in rw sid (short e s)

abbrev is_callsid : ℕ → ℕ → Bytes → Bool
is_callsid a b t = suc (suc (length t)) == 34 && (a == b'C' && b == b'A')

sid_Names :
    (a b : ℕ) (t : Bytes) {bytes : Bytes}
    → is_callsid a b t ≡ true
    → NamesBare bytes t
    → Names bytes (a ∷ b ∷ t)
sid_Names a b t sid (long e s) = absurd (ground arith)
sid_Names a b t sid (short e s) =
    let c : a ≡ b'C' = ground arith in let d : b ≡ b'A' = ground arith in rw (c, d) (callsid e s)

strip-Names : (u : Bytes) {bytes : Bytes} → NamesBare bytes (strip_callsid u) → Names bytes u
strip-Names [] (long e s) = absurd (omega arith)
strip-Names [] (short e s) = absurd (omega arith)
strip-Names (a ∷ []) (long e s) = absurd (ground arith)
strip-Names (a ∷ []) (short e s) = absurd (ground arith)
strip-Names (a ∷ b ∷ t) n = elim (Bool-cases (is_callsid a b t)) [
  | inl sid ↦ sid_Names a b t sid (rw sid at n)
  | inr other ↦ unprefixed (rw other at n)
]
  where
    unprefixed : {bytes u : Bytes} → NamesBare bytes u → Names bytes u
    unprefixed (long e s) = canonical e s
    unprefixed (short e s) = bare e s

Names-bounds : {bytes u : Bytes} → Names bytes u → All (λ b. b < 256) bytes
Names-bounds (canonical e s) = Spells-bounds s
Names-bounds (bare e s) = Spells-bounds s
Names-bounds (callsid e s) = Spells-bounds s

-- `siprec_metadata_uuid_to_id` succeeds exactly on the three forms of a UUID, and the ID is then
-- the base64 encoding of the 16 bytes that the text names.
pub uuid_to_id_iff :
    (u id : Bytes)
    → (uuid_to_id (some u) ≡ some id) ↔ ((bytes : Bytes) × Names bytes u × (id ≡ encode bytes))
unfolding uuid_to_id
uuid_to_id_iff u id = (forth, λ w. back w.0 w.1 w.2)
  where
    forth :
        encode_if (bytes_of (strip_callsid u)) ≡ some id
        → (bytes : Bytes) × Names bytes u × (id ≡ encode bytes)
    forth h =
        let (bytes, read, _, e) = encode_if-some _ h in
        (bytes, strip-Names u (bytes_of-NamesBare (strip_callsid u) read), e)

    back :
        (bytes : Bytes)
        → Names bytes u
        → id ≡ encode bytes
        → encode_if (bytes_of (strip_callsid u)) ≡ some id
    back bytes n e =
        let b = Names-strip n in
        rw (NamesBare-bytes_of b, e) (encode_if_of bytes (NamesBare-length b))

-- The ID determines the bytes: whoever decodes it as base64 gets the 16 bytes that the text
-- names, and it has 24 characters.
pub uuid_to_id-decode :
    (u id : Bytes)
    → uuid_to_id (some u) ≡ some id
    → Names (decode id) u × (length (decode id) ≡ 16) × (length id ≡ 24)
uuid_to_id-decode u id h =
    let (bytes, n, e) = (uuid_to_id_iff u id).0 h in
    let sixteen = NamesBare-length (Names-strip n) in
    let back = decode-encode bytes (omega arith) (Names-bounds n) in
    rw (e, back) (n, sixteen, omega (arith, encode-length bytes (omega arith)))
