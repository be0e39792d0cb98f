-- ===== src/G711/Sign.antt =====
-- The sign bit of siprec_g711.c's A-law codes.
use mod_siprec.Base.{
  Bool, arith, false, if_elim, if◌then◌else◌, leb, ltb, suc, true, zero, ℕ, ◌%◌, ◌+◌, ◌-◌, ◌/◌, ◌<◌,
  ◌==◌, ◌^◌, ◌≡◌, ◌≤◌,
}
use mod_siprec.G711.{alaw_packed, alaw_ref, clip, exponent_from, flip_even, is_negative, packed}

exponent_from-le : (n p : ℕ) → exponent_from n p ≤ n
exponent_from-le zero p = omega arith
exponent_from-le (suc n) p =
    if_elim (λ e. e ≤ suc n) (p / 2 ^ (suc n + 7) % 2 == 0)
      (λ _. omega (arith, exponent_from-le n p)) (λ _. omega arith)

flip_even-high : (x : ℕ) → x < 256 → flip_even x / 128 ≡ x / 128
flip_even-high x lt = omega arith

packed-high :
    (sign : Bool) (e m : ℕ)
    → e ≤ 7
    → m < 16
    → (packed sign e m < 256) × (packed sign e m / 128 ≡ (if sign then 1 else 0))
packed-high true e m he hm = (omega arith, omega arith)
packed-high false e m he hm = (omega arith, omega arith)

alaw_packed-high :
    (sign : Bool) (p : ℕ)
    → (alaw_packed sign p < 256) × (alaw_packed sign p / 128 ≡ (if sign then 1 else 0))
alaw_packed-high sign p =
    let e = exponent_from 7 p in
    packed-high sign e (if ltb e 1 then p / 16 % 16 else p / 2 ^ (e + 3) % 16)
      (exponent_from-le 7 p) (if_elim (λ m. m < 16) (ltb e 1) (λ _. omega arith) (λ _. omega arith))

-- The top bit of the A-law code of a 16-bit sample is set exactly if the sample is negative. In
-- ITU-T G.711 it is set exactly if the sample is not negative.
pub alaw_ref-sign : (pcm : ℕ) → alaw_ref pcm / 128 ≡ (if leb 32768 pcm then 1 else 0)
unfolding alaw_ref
alaw_ref-sign pcm =
    let p = clip 32767 (if is_negative pcm then 65536 - pcm - 1 else pcm) in
    let (small, high) = alaw_packed-high (is_negative pcm) p in
    rw (flip_even-high (alaw_packed (is_negative pcm) p) small) high
