-- ===== src/Metadata/Id/Base64.antt =====
-- The ID determines the 16 bytes: a decoder of RFC 4648 reads them back.
use mod_siprec.Base.{
  All, Bool, Bytes, [], ap, arith, between, false, if◌then◌else◌, length, not, refl, suc, true,
  zero, ℕ, ◌%◌, ◌&&◌, ◌*◌, ◌+◌, ◌-◌, ◌/◌, ◌<◌, ◌==◌, ◌^◌, ◌∷◌, ◌≡◌,
}
use mod_siprec.Metadata.Id.{b64, encode}

-- The value of a character of the base64 alphabet; 64 and more for any other.
pub value : ℕ → ℕ
value c =
    if between b'A' b'Z' c
    then c - b'A'
    else if between b'a' b'z' c
    then c - b'a' + 26
    else if between b'0' b'9' c
    then c - b'0' + 52
    else if c == b'+'
    then 62
    else if c == b'/'
    then 63
    else 64

-- The bytes that groups of four characters stand for, with a last group `xx==`.
pub decode : Bytes → Bytes
unfolding value
decode (p ∷ q ∷ r ∷ s ∷ rest) =
    let head = value p * 4 + value q / 16 in
    let more = decode rest in
    if r == b'='
    then head ∷ []
    else head ∷ (value q % 16 * 16 + value r / 4) ∷ (value r % 4 * 64 + value s) ∷ more
decode _ = []

-- The letter of a sextet is read back, and is not the padding.
reads_back : ℕ → Bool
reads_back sextet = value (b64 sextet) == sextet && not (b64 sextet == b'=')

-- That it is so for the `count` lowest sextets.
lowest_read : ℕ → Bool
lowest_read (suc count) = if reads_back count then lowest_read count else false
lowest_read zero = true

all_read : lowest_read 64 ≡ true
unfolding lowest_read reads_back value
all_read = refl

one_read : (sextet count : ℕ) → sextet < count → lowest_read count ≡ true → reads_back sextet ≡ true
unfolding lowest_read
one_read sextet (suc count) below good = let earlier = one_read sextet count in ground arith
one_read sextet zero below good = absurd (omega arith)

value-b64 : (n : ℕ) → n < 64 → (value (b64 n) ≡ n) × ((b64 n == b'=') ≡ false)
unfolding reads_back
value-b64 n h = let good = one_read n 64 h all_read in ground arith

sextets_back :
    (v : ℕ)
    → v < 2 ^ 24
    → (value (b64 (v / 2 ^ 18 % 64)) ≡ v / 2 ^ 18 % 64)
      × (value (b64 (v / 2 ^ 12 % 64)) ≡ v / 2 ^ 12 % 64)
      × (value (b64 (v / 2 ^ 6 % 64)) ≡ v / 2 ^ 6 % 64)
      × (value (b64 (v % 64)) ≡ v % 64)
      × ((b64 (v / 2 ^ 6 % 64) == b'=') ≡ false)
sextets_back v h = (
  (value-b64 _ (omega arith)).0,
  (value-b64 _ (omega arith)).0,
  (value-b64 _ (omega arith)).0,
  (value-b64 _ (omega arith)).0,
  (value-b64 (v / 2 ^ 6 % 64) (omega arith)).1,
)

-- Splitting three bytes into sextets and joining them again.
rejoin :
    (a b c v : ℕ)
    → a < 256
    → b < 256
    → c < 256
    → v ≡ a * 2 ^ 16 + b * 2 ^ 8 + c
    → (v / 2 ^ 18 % 64 * 4 + v / 2 ^ 12 % 64 / 16 ≡ a)
      × (v / 2 ^ 12 % 64 % 16 * 16 + v / 2 ^ 6 % 64 / 4 ≡ b)
      × (v / 2 ^ 6 % 64 % 4 * 64 + v % 64 ≡ c)
rejoin a b c v ha hb hc e = (omega arith, omega arith, omega arith)

pub decode-encode :
    (bytes : Bytes)
    → length bytes % 3 ≡ 1
    → All (λ b. b < 256) bytes
    → decode (encode bytes) ≡ bytes
unfolding decode encode
decode-encode [] e h = absurd (omega arith)
decode-encode (x ∷ []) e h =
    let (p, _) = value-b64 (x / 4) (omega arith) in
    let (q, _) = value-b64 (x % 4 * 16) (omega arith) in rw (p, q) (ap (λ b. b ∷ []) (omega arith))
decode-encode (a ∷ b ∷ []) e h = absurd (omega arith)
decode-encode (a ∷ b ∷ c ∷ rest) e h =
    let v = a * 2 ^ 16 + b * 2 ^ 8 + c in
    let (p, q, r, s, no_pad) = sextets_back v (omega arith) in
    let (ea, eb, ec) = rejoin a b c v (omega arith) (omega arith) (omega arith) refl in
    rw (no_pad, p, q, r, s, ea, eb, ec)
      (ap (λ t. a ∷ b ∷ c ∷ t) (decode-encode rest (omega arith) h.1.1.1))

pub encode-length :
    (bytes : Bytes) → length bytes % 3 ≡ 1 → 3 * length (encode bytes) ≡ 4 * (length bytes + 2)
unfolding encode
encode-length [] e = absurd (omega arith)
encode-length (x ∷ []) e = refl
encode-length (a ∷ b ∷ []) e = absurd (omega arith)
encode-length (a ∷ b ∷ c ∷ rest) e = omega (arith, encode-length rest (omega arith))
