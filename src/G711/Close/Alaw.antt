-- ===== src/G711/Close/Alaw.antt =====
-- How near the A-law codes of siprec_g711.c are, and the decoder of ITU-T G.711 for them.
use mod_siprec.Base.{
  ==_iff, Bool, Bool-cases, arith, false, if◌then◌else◌, inl, inr, ltb, ltb→lt, refl, suc, true,
  zero, ℕ, ◌%◌, ◌&&◌, ◌*◌, ◌+◌, ◌-◌, ◌/◌, ◌<◌, ◌==◌, ◌^◌, ◌≡◌, ◌≤◌, ◌⊎◌,
}
use mod_siprec.G711.{alaw_packed, alaw_ref, clip, exponent_from, flip_even, is_negative, packed}
use mod_siprec.G711.Quiet.{lowest_segment}
use mod_siprec.G711.Close.Segments.{gap, magnitude, middle, packed-fields, placed}

-- A fact about every byte, by trying them all.
abbrev all_below : ℕ → (ℕ → Bool) → Bool
all_below zero test = true
all_below (suc n) test = test n && all_below n test

below : (n : ℕ) (test : ℕ → Bool) (x : ℕ) → all_below n test ≡ true → x < n → test x ≡ true
below zero test x h lt = absurd (omega arith)
below (suc n) test x h lt = ground (arith, below n test x)

every_byte : all_below 256 (λ x. flip_even (flip_even x) == x) ≡ true
every_byte = refl

flip_even_twice : (x : ℕ) → x < 256 → flip_even (flip_even x) ≡ x
flip_even_twice x lt =
    (==_iff (flip_even (flip_even x)) x).0
      (below 256 (λ x. flip_even (flip_even x) == x) x every_byte lt)

-- The magnitude that ITU-T G.711 gives an A-law code, without its sign.
abbrev pub alaw_expanded : ℕ → ℕ
alaw_expanded code =
    let a = flip_even code in
    let e = a / 16 % 8 in if e == 0 then a % 16 * 16 + 8 else (a % 16 * 8 + 132) * 2 ^ e

alaw_expanded-packed :
    (sign : Bool) (e m : ℕ)
    → e < 8
    → m < 16
    → alaw_expanded (flip_even (packed sign e m)) ≡ (if e == 0 then m * 16 + 8 else middle e m)
alaw_expanded-packed sign e m he hm =
    let fits = packed-fields sign e m he hm in
    rw (flip_even_twice (packed sign e m) fits.0, fits.1, fits.2) refl

alaw_packed-low :
    (sign : Bool) (p : ℕ) → exponent_from 7 p ≡ 0 → alaw_packed sign p ≡ packed sign 0 (p / 16 % 16)
alaw_packed-low sign p found = rw found refl

alaw_packed-at :
    (sign : Bool) (p e : ℕ)
    → exponent_from 7 p ≡ e
    → ltb e 1 ≡ false
    → alaw_packed sign p ≡ packed sign e (p / 2 ^ (e + 3) % 16)
alaw_packed-at sign p e found wide = rw (found, wide) refl

abbrev pub at_least : ℕ → ℕ → ℕ
at_least low q = if ltb q low then low else q

low_near :
    (p q : ℕ) → p < 256 → (q ≡ p) ⊎ (q ≡ p + 1) → 32 * gap (p / 16 % 16 * 16 + 8) q ≤ at_least 256 q
low_near p q lt (inl e) = ground arith
low_near p q lt (inr e) = ground arith

high_near :
    (a p q : ℕ)
    → 256 ≤ p
    → 32 * gap a p ≤ p
    → 32 * gap a (p + 1) ≤ p
    → (q ≡ p) ⊎ (q ≡ p + 1)
    → 32 * gap a q ≤ at_least 256 q
high_near a p q ge near next (inl e) = rw e (ground arith)
high_near a p q ge near next (inr e) = rw e (ground arith)

-- A sample's magnitude `q` is `p`, or one more where the sample is negative.
alaw_packed-near :
    (sign : Bool) (p q : ℕ)
    → p < 32768
    → (q ≡ p) ⊎ (q ≡ p + 1)
    → 32 * gap (alaw_expanded (flip_even (alaw_packed sign p))) q ≤ at_least 256 q
alaw_packed-near sign p q lt at_q = elim (Bool-cases (ltb p 256)) [
  | inl small ↦
      let low = lowest_segment p (ltb→lt p 256 small) in
      rw
        (
          alaw_packed-low sign p low,
          alaw_expanded-packed sign 0 (p / 16 % 16) (omega arith) (omega arith),
        )
        (low_near p q (ltb→lt p 256 small) at_q)
  | inr large ↦
      let ge : 256 ≤ p = ground arith in
      let at = placed p ge lt in
      let e = at.exponent in
      let m = p / 2 ^ (e + 3) % 16 in
      let wide : (e == 0) ≡ false = ground (arith, at.positive) in
      let one : ltb e 1 ≡ false = ground (arith, at.positive) in
      rw
        (
          alaw_packed-at sign p e at.found one,
          alaw_expanded-packed sign e m at.at_most (omega arith),
          wide,
        )
        (high_near (middle e m) p q ge at.near at.next at_q)
]

pub alaw_ref-near :
    (pcm : ℕ)
    → pcm < 65536
    → 32 * gap (alaw_expanded (alaw_ref pcm)) (magnitude pcm) ≤ at_least 256 (magnitude pcm)
unfolding alaw_ref
alaw_ref-near pcm lt =
    let p = clip 32767 (if is_negative pcm then 65536 - pcm - 1 else pcm) in
    alaw_packed-near (is_negative pcm) p (magnitude pcm) (small pcm) (around (is_negative pcm) refl)
  where
    small : (pcm : ℕ) → clip 32767 (if is_negative pcm then 65536 - pcm - 1 else pcm) < 32768
    small pcm = ground arith

    around :
        (sign : Bool)
        → is_negative pcm ≡ sign
        → ((if sign then 65536 - pcm else pcm) ≡ clip 32767 (if sign then 65536 - pcm - 1 else pcm))
          ⊎ ((if sign then 65536 - pcm else pcm)
              ≡ clip 32767 (if sign then 65536 - pcm - 1 else pcm) + 1)
    around true e = inr (ground arith)
    around false e = inl (ground arith)
