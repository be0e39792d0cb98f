-- ===== src/G711/Quiet.antt =====
-- How siprec_g711.c's µ-law encoder treats quiet samples.
use mod_siprec.Base.{arith, false, ltb, ℕ, ◌%◌, ◌*◌, ◌+◌, ◌-◌, ◌/◌, ◌<◌, ◌^◌, ◌≡◌, ◌≤◌}
use mod_siprec.G711.{exponent_from, is_negative, ulaw_ref}

-- The magnitude that ITU-T G.711 gives a µ-law code, without its sign.
abbrev pub expanded : ℕ → ℕ
expanded code = let u = 255 - code in (u % 16 * 8 + 132) * 2 ^ (u / 16 % 8) - 132

pub lowest_segment : (p : ℕ) → p < 256 → exponent_from 7 p ≡ 0
lowest_segment p lt = ground arith

quiet_code : (pcm : ℕ) → pcm < 124 → ulaw_ref pcm ≡ 255 - (pcm + 132) / 16 % 16
unfolding ulaw_ref
quiet_code pcm lt =
    let low = lowest_segment (pcm + 132) (omega arith) in
    let positive : is_negative pcm ≡ false = ground arith in
    let unclipped : ltb 32635 pcm ≡ false = ground arith in
    rw (positive, unclipped, low) (omega arith)

-- Every µ-law code of a sample from 0 to 123 expands to a magnitude from 64 to 120, by ITU-T G.711
-- in steps of 8, and the codes of 0 to 11 all to 64: digital silence is encoded as a constant 64.
pub ulaw_ref-quiet :
    (pcm : ℕ)
    → pcm < 124
    → (64 ≤ expanded (ulaw_ref pcm))
      × (expanded (ulaw_ref pcm) ≤ 120)
      × (pcm < 12 → expanded (ulaw_ref pcm) ≡ 64)
ulaw_ref-quiet pcm lt =
    let q = (pcm + 132) / 16 % 16 in
    let twice : 255 - (255 - q) ≡ q = omega arith in
    let flat : q / 16 % 8 ≡ 0 = omega arith in
    rw (quiet_code pcm lt, twice, flat) (omega arith, omega arith, λ few. omega arith)
