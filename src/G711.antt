-- ===== src/G711.antt =====
-- siprec_g711.c and siprec_g711.h: the reference encoders, the tables and the lookups. A sample is
-- the 16-bit pattern of an `int16_t`, as the tables index it; a code is a byte.
pub mod Tables
pub mod Quiet
pub mod Sign
pub mod Close
use mod_siprec.Base.{
  Bool, if◌then◌else◌, leb, lower, ltb, suc, true, zero, ℕ, ◌%◌, ◌*◌, ◌+◌, ◌-◌, ◌/◌, ◌==◌, ◌^◌,
}

-- `p < 0`, of the pattern.
abbrev pub is_negative : ℕ → Bool
is_negative pcm = leb 32768 pcm

abbrev pub clip : ℕ → ℕ → ℕ
clip top p = if ltb top p then top else p

-- The loop over `mask`, which is 2 ^ (exponent + 7).
abbrev pub exponent_from : ℕ → ℕ → ℕ
exponent_from zero p = 0
exponent_from (suc e) p =
    let lower = exponent_from e p in if p / 2 ^ (suc e + 7) % 2 == 0 then lower else suc e

-- The code's sign bit, exponent and mantissa, which do not overlap.
abbrev pub packed : Bool → ℕ → ℕ → ℕ
packed sign exponent mantissa = (if sign then 128 else 0) + exponent * 16 + mantissa

abbrev pub ulaw_packed : Bool → ℕ → ℕ
ulaw_packed sign p =
    let exponent = exponent_from 7 p in
    packed sign exponent (p / 2 ^ (if exponent == 0 then 4 else exponent + 3) % 16)

-- `~` of a byte is 255 minus it.
unfoldable pub ulaw_ref : ℕ → ℕ
ulaw_ref pcm =
    255
    - ulaw_packed (is_negative pcm)
        (clip 32635 (if is_negative pcm then 65536 - pcm else pcm) + 132)

-- `^ 0x55` of a byte flips the bits 0, 2, 4 and 6.
abbrev pub flip_even : ℕ → ℕ
flip_even b =
    flip 1 b
    + flip 4 b
    + flip 16 b
    + flip 64 b
    + b / 2 % 2 * 2
    + b / 8 % 2 * 8
    + b / 32 % 2 * 32
    + b / 128 % 2 * 128
  where
    flip : ℕ → ℕ → ℕ
    flip bit b = (1 - b / bit % 2) * bit

abbrev pub alaw_packed : Bool → ℕ → ℕ
alaw_packed sign p =
    let exponent = exponent_from 7 p in
    packed sign exponent (if ltb exponent 1 then p / 16 % 16 else p / 2 ^ (exponent + 3) % 16)

unfoldable pub alaw_ref : ℕ → ℕ
alaw_ref pcm =
    flip_even (
      alaw_packed (is_negative pcm) (clip 32767 (if is_negative pcm then 65536 - pcm - 1 else pcm)))

pub record Codebook : Type 0 where
  pub ulaw_tab : ℕ → ℕ
  pub alaw_tab : ℕ → ℕ
  pub built : Bool

abbrev pub fill : ℕ → (ℕ → ℕ) → (ℕ → ℕ) → ℕ → ℕ
fill idx ref tab q = if q == idx then ref idx else tab q

-- The loop from -32768, after `n` rounds: the next value is `n - 32768`, its pattern `(n + 32768) % 2 ^ 16`.
unfoldable pub build : ℕ → Codebook → Codebook
build zero t = t
build (suc n) t =
    let t' = build n t in
    let idx = (n + 32768) % 65536 in
    record t' { ulaw_tab = fill idx ulaw_ref t'.ulaw_tab; alaw_tab = fill idx alaw_ref t'.alaw_tab }

unfoldable pub g711_init : Codebook → Codebook
g711_init t = if t.built then t else record (build 65536 t) { built = true }

-- The table loads of siprec_g711.h.
abbrev pub l16_to_ulaw : Codebook → ℕ → ℕ
l16_to_ulaw t pcm = t.ulaw_tab pcm

abbrev pub l16_to_alaw : Codebook → ℕ → ℕ
l16_to_alaw t pcm = t.alaw_tab pcm
