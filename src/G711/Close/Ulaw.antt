-- ===== src/G711/Close/Ulaw.antt =====
-- How near the µ-law codes of siprec_g711.c are.
use mod_siprec.Base.{Bool, arith, false, refl, ℕ, ◌%◌, ◌*◌, ◌+◌, ◌-◌, ◌/◌, ◌<◌, ◌==◌, ◌^◌, ◌≡◌, ◌≤◌}
use mod_siprec.G711.{clip, exponent_from, is_negative, packed, ulaw_packed, ulaw_ref}
use mod_siprec.G711.Quiet.{expanded}
use mod_siprec.G711.Close.Segments.{gap, magnitude, middle, packed-fields, placed}

expanded-packed :
    (sign : Bool) (e m : ℕ)
    → e < 8
    → m < 16
    → expanded (255 - packed sign e m) ≡ (m * 8 + 132) * 2 ^ e - 132
expanded-packed sign e m he hm =
    let fits = packed-fields sign e m he hm in
    let twice : 255 - (255 - packed sign e m) ≡ packed sign e m = omega (arith, fits.0) in
    rw (twice, fits.1, fits.2) refl

ulaw_packed-at :
    (sign : Bool) (p e : ℕ)
    → exponent_from 7 p ≡ e
    → (e == 0) ≡ false
    → ulaw_packed sign p ≡ packed sign e (p / 2 ^ (e + 3) % 16)
ulaw_packed-at sign p e found wide = rw (found, wide) refl

shifted : (a c : ℕ) → 132 ≤ a → 32 * gap a (c + 132) ≤ c + 132 → 32 * gap (a - 132) c ≤ c + 132
shifted a c above close = omega arith

-- `c` is the clipped magnitude, to which the encoder adds its bias.
ulaw_packed-near :
    (sign : Bool) (c : ℕ)
    → 124 ≤ c
    → c ≤ 32635
    → 32 * gap (expanded (255 - ulaw_packed sign (c + 132))) c ≤ c + 132
ulaw_packed-near sign c ge le =
    let at = placed (c + 132) (omega arith) (omega arith) in
    let e = at.exponent in
    let m = (c + 132) / 2 ^ (e + 3) % 16 in
    let packed_at = ulaw_packed-at sign (c + 132) e at.found (ground (arith, at.positive)) in
    let code = expanded-packed sign e m at.at_most (omega arith) in
    rw (packed_at, code) (shifted (middle e m) c at.above at.near)

pub ulaw_ref-near :
    (pcm : ℕ)
    → 124 ≤ magnitude pcm
    → 32 * gap (expanded (ulaw_ref pcm)) (clip 32635 (magnitude pcm))
      ≤ clip 32635 (magnitude pcm) + 132
unfolding ulaw_ref
ulaw_ref-near pcm loud =
    ulaw_packed-near (is_negative pcm) (clip 32635 (magnitude pcm)) (clip_loud (magnitude pcm) loud)
      (clip-le 32635 (magnitude pcm))
  where
    clip_loud : (c : ℕ) → 124 ≤ c → 124 ≤ clip 32635 c
    clip_loud c loud = ground arith

    clip-le : (top c : ℕ) → clip top c ≤ top
    clip-le top c = ground arith
