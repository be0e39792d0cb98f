-- ===== src/Metadata/Id/Spelling.antt =====
-- Which texts spell which bytes, and that the loop of `siprec_metadata_uuid_to_id` reads those.
use mathlib.Core.Path.{subst}
use mod_siprec.Base.{
  All, Bool, Bool-cases, Bytes, Option, [], arith, false, if◌then◌else◌, inl, inr, leb, length,
  none, refl, some, true, ℕ, ◌%◌, ◌&&◌, ◌*◌, ◌+◌, ◌-◌, ◌<◌, ◌==◌, ◌∷◌, ◌≡◌, ◌≤◌, ◌⊎◌,
}
use mod_siprec.Metadata.Id.{byte_of, cons_byte, hex_nibble, hyphen_at, scan}

-- `c` is the hexadecimal digit for `n`, in either case.
abbrev pub IsDigit : ℕ → ℕ → Type 0
IsDigit n c =
    ((n < 10) × (c ≡ n + b'0'))
    ⊎ ((10 ≤ n) × (n < 16) × ((c ≡ n + b'a' - 10) ⊎ (c ≡ n + b'A' - 10)))

-- A text from position `i` on spells the bytes: two digits for each byte, and a hyphen at each of
-- the positions that want one.
pub data Spells (hyphenated : Bool) : ℕ → Bytes → Bytes → Type 0 where
  end : {i : ℕ} → Spells hyphenated i [] []
  hyphen :
      {i : ℕ} {bytes t : Bytes}
      → (hyphenated && hyphen_at i) ≡ true
      → Spells hyphenated (i + 1) bytes t
      → Spells hyphenated i bytes (b'-' ∷ t)
  pair :
      {i hi lo c d : ℕ} {bytes t : Bytes}
      → (hyphenated && hyphen_at i) ≡ false
      → IsDigit hi c
      → IsDigit lo d
      → Spells hyphenated (i + 2) bytes t
      → Spells hyphenated i ((hi * 16 + lo) ∷ bytes) (c ∷ d ∷ t)

hex_nibble-IsDigit : (n c : ℕ) → IsDigit n c → hex_nibble c ≡ some n
unfolding hex_nibble
hex_nibble-IsDigit n c h = ground arith

IsDigit-hex_nibble : (c n : ℕ) → hex_nibble c ≡ some n → IsDigit n c
unfolding hex_nibble
IsDigit-hex_nibble c n h = ground arith

pub scan-Spells :
    {h : Bool} {i : ℕ} {bytes t : Bytes} → Spells h i bytes t → scan h i t ≡ some bytes
unfolding scan
scan-Spells end = refl
scan-Spells (hyphen {t = []} here s) = rw here (scan-Spells s)
scan-Spells (hyphen {t = c ∷ t} here s) = rw here (scan-Spells s)
scan-Spells (pair {i} {hi} {lo} {c} {d} no_hyphen x y s) =
    rw (no_hyphen, hex_nibble-IsDigit hi c x, hex_nibble-IsDigit lo d y, scan-Spells s)

-- The three ways in which a round of the loop goes on.
scan-hyphen :
    (h : Bool) (i c : ℕ) (t : Bytes) {bytes : Bytes}
    → (h && hyphen_at i) ≡ true
    → scan h i (c ∷ t) ≡ some bytes
    → (c ≡ b'-') × (scan h (i + 1) t ≡ some bytes)
unfolding scan
scan-hyphen h i c [] here e = ground arith
scan-hyphen h i c (d ∷ t) here e = is_hyphen (rw here at e)
  where
    is_hyphen :
        {bytes : Bytes}
        → (if c == b'-' then scan h (i + 1) (d ∷ t) else none) ≡ some bytes
        → (c ≡ b'-') × (scan h (i + 1) (d ∷ t) ≡ some bytes)
    is_hyphen e = ground arith

cons_byte-some :
    (x y : Option ℕ) (r : Option Bytes) {bytes : Bytes}
    → cons_byte (byte_of x y) r ≡ some bytes
    → (hi : ℕ) × (lo : ℕ) × (rest : Bytes) × (x ≡ some hi)
      × (y ≡ some lo)
      × (r ≡ some rest)
      × (bytes ≡ (hi * 16 + lo) ∷ rest)
cons_byte-some (some hi) (some lo) (some rest) e = (hi, lo, rest, refl, refl, refl, cc)
cons_byte-some (some hi) (some lo) none e = cc
cons_byte-some (some hi) none r e = cc
cons_byte-some none y r e = cc

scan-pair :
    (h : Bool) (i c d : ℕ) (t : Bytes) {bytes : Bytes}
    → (h && hyphen_at i) ≡ false
    → scan h i (c ∷ d ∷ t) ≡ some bytes
    → cons_byte (byte_of (hex_nibble c) (hex_nibble d)) (scan h (i + 2) t) ≡ some bytes
unfolding scan
scan-pair h i c d t off e = rw off at e

pub Spells-scan :
    (h : Bool) (i : ℕ) (t : Bytes) {bytes : Bytes} → scan h i t ≡ some bytes → Spells h i bytes t
Spells-scan h i [] {bytes} e = unfold scan in subst (λ bs. Spells h i bs []) (cc) end
Spells-scan h i (c ∷ []) {bytes} e = elim (Bool-cases (h && hyphen_at i)) [
  | inl here ↦
      let (is_hyphen, rest) = scan-hyphen h i c [] here e in
      rw is_hyphen (hyphen here (Spells-scan h (i + 1) [] rest))
  | inr off ↦ unfold scan in absurd (ground arith)
]
Spells-scan h i (c ∷ d ∷ t) {bytes} e = elim (Bool-cases (h && hyphen_at i)) [
  | inl here ↦
      let (is_hyphen, rest) = scan-hyphen h i c (d ∷ t) here e in
      rw is_hyphen (hyphen here (Spells-scan h (i + 1) (d ∷ t) rest))
  | inr off ↦
      let (hi, lo, rest, x, y, more, whole) = cons_byte-some _ _ _ (scan-pair h i c d t off e) in
      rw whole (
        pair off (IsDigit-hex_nibble c hi x) (IsDigit-hex_nibble d lo y)
          (Spells-scan h (i + 2) t more))
]

-- Bytes spelled are bytes.
pub Spells-bounds :
    {h : Bool} {i : ℕ} {bytes t : Bytes} → Spells h i bytes t → All (λ b. b < 256) bytes
Spells-bounds end = tt
Spells-bounds (hyphen here s) = Spells-bounds s
Spells-bounds (pair no_hyphen x y s) = (omega arith, Spells-bounds s)

-- A bare text has two digits for each byte.
pub bare-length : {i : ℕ} {bytes t : Bytes} → Spells false i bytes t → length t ≡ 2 * length bytes
bare-length end = refl
bare-length (hyphen here s) = absurd (cc)
bare-length (pair no_hyphen x y s) = omega (arith, bare-length s)

-- The hyphens still to come here position `i`, which the groups of digits lead to.
abbrev hyphens_left : ℕ → ℕ
hyphens_left i =
    if leb i 8 then 4 else if leb i 13 then 3 else if leb i 18 then 2 else if leb i 23 then 1 else 0

abbrev IsAligned : ℕ → Type 0
IsAligned i = (i + hyphens_left i) % 2 ≡ 0

canonical-length :
    {i : ℕ} {bytes t : Bytes}
    → Spells true i bytes t
    → IsAligned i
    → i + length t ≡ 36
    → length t ≡ 2 * length bytes + hyphens_left i
canonical-length end al e = ground arith
canonical-length (hyphen here s) al e = ground (arith, canonical-length s)
canonical-length (pair {i} no_hyphen x y s) al e = ground (arith, canonical-length s)

pub hyphenated-length :
    {bytes t : Bytes} → length t ≡ 36 → Spells true 0 bytes t → length bytes ≡ 16
hyphenated-length e s = omega (arith, canonical-length s refl (omega arith))
