-- ===== src/G711/Close/Segments.antt =====
-- The segment of a magnitude in siprec_g711.c's codes, and the middle of its interval there.
use native.Mathlib.Numerals.{towards_suc}
use mod_siprec.Base.{
  ==_iff, Bool, Bool-cases, arith, false, if◌then◌else◌, inl, inr, lower, ltb, suc, sym, true, zero,
  ℕ, ◌%◌, ◌*◌, ◌+◌, ◌-◌, ◌/◌, ◌<◌, ◌==◌, ◌^◌, ◌≡◌, ◌≤◌,
}
use mod_siprec.G711.{exponent_from, is_negative, packed}

-- The distance of two numbers.
abbrev pub gap : ℕ → ℕ → ℕ
gap a b = (a - b) + (b - a)

-- `p` has its highest bit, of the bits 7 to 14, at `e + 7`.
abbrev InSegment : ℕ → ℕ → Type 0
InSegment e p = (2 ^ (e + 7) ≤ p) × (p < 2 ^ (e + 8))

-- What a code with that exponent and mantissa stands for, the bias included.
abbrev pub middle : ℕ → ℕ → ℕ
middle e m = (m * 8 + 132) * 2 ^ e

-- A value whose highest bit the encoders find, with the distance from it, and from the value after
-- it, to what its code stands for.
pub record Placed (p : ℕ) : Type 0 where
  pub exponent : ℕ
  pub found : exponent_from 7 p ≡ exponent
  pub positive : 0 < exponent
  pub at_most : exponent < 8
  pub above : 132 ≤ middle exponent (p / 2 ^ (exponent + 3) % 16)
  pub near : 32 * gap (middle exponent (p / 2 ^ (exponent + 3) % 16)) p ≤ p
  pub next : 32 * gap (middle exponent (p / 2 ^ (exponent + 3) % 16)) (p + 1) ≤ p

-- A value of five bits `16 + m` in units of `q`, with a rest.
quotient-bounds : (q p : ℕ) → 16 * q ≤ p → p < 32 * q → (16 ≤ p / q) × (p / q < 32)
quotient-bounds q p ge lt = (grind arith, grind arith)

split : (q p : ℕ) → 16 * q ≤ p → p < 32 * q → (p ≡ (16 + p / q % 16) * q + p % q) × (p % q < q)
split q p ge lt =
    let (low, high) = quotient-bounds q p ge lt in
    let e : 16 + p / q % 16 ≡ p / q = omega arith in (rw e (grind arith), grind arith)

-- The middle of an interval of 8 units is 4 units from each end of it.
middle-gap :
    (w m r p : ℕ)
    → p ≡ (16 + m) * (8 * w) + r
    → r < 8 * w
    → (32 * gap ((m * 8 + 132) * w) p ≤ 128 * w) × (32 * gap ((m * 8 + 132) * w) (p + 1) ≤ 128 * w)
middle-gap w m r p e lt = (grind arith, grind arith)

pow-positive : (e : ℕ) → 1 ≤ 2 ^ e
pow-positive zero = omega arith
pow-positive (suc e) = omega (arith, pow-positive e)

pow_eight : (e : ℕ) → 2 ^ (e + 3) ≡ 8 * 2 ^ e
pow_eight e = simp towards_suc (omega arith)

InSegment-units : (e p : ℕ) → InSegment e p → (128 * 2 ^ e ≤ p) × (p < 256 * 2 ^ e)
InSegment-units e p (ge, lt) =
    let low : 2 ^ (e + 7) ≡ 128 * 2 ^ e = simp towards_suc (omega arith) in
    let high : 2 ^ (e + 8) ≡ 256 * 2 ^ e = simp towards_suc (omega arith) in
    (omega arith, omega arith)

pow-le : (e n : ℕ) → e ≤ n → 2 ^ e ≤ 2 ^ n
pow-le zero n le = pow-positive n
pow-le (suc e) zero le = absurd (omega arith)
pow-le (suc e) (suc n) le = omega (arith, pow-le e n (omega arith))

bit_set : (q p : ℕ) → q ≤ p → p < 2 * q → (p / q % 2 == 0) ≡ false
bit_set q p ge lt =
    let low : 1 ≤ p / q = grind arith in let high : p / q < 2 = grind arith in ground arith

bit_clear : (q p : ℕ) → p < q → (p / q % 2 == 0) ≡ true
bit_clear q p lt = let low : p / q ≡ 0 = grind arith in ground arith

-- The loop over `mask` stops at the highest bit.
exponent_from-InSegment : (n e p : ℕ) → 0 < e → e ≤ n → InSegment e p → exponent_from n p ≡ e
exponent_from-InSegment zero e p positive le h = absurd (omega arith)
exponent_from-InSegment (suc n) e p positive le (ge, lt) = elim (Bool-cases (e == suc n)) [
  | inl top ↦
      let e_top = (==_iff e (suc n)).0 top in
      let w = 2 ^ (suc n + 7) in
      let twice : 2 ^ (suc n + 8) ≡ 2 * 2 ^ (suc n + 7) = simp towards_suc (omega arith) in
      let below : p < 2 * w = omega (arith, twice, rw e_top at lt) in
      rw (bit_set w p (rw e_top at ge) below) (sym e_top)
  | inr lower ↦
      let le' : e ≤ n = ground arith in
      rw (bit_clear (2 ^ (suc n + 7)) p (omega (arith, pow-le (e + 8) (suc n + 7) (omega arith))))
        (exponent_from-InSegment n e p positive le' (ge, lt))
]

segment : (e p : ℕ) → 0 < e → e < 8 → InSegment e p → Placed p
segment e p positive at_most h =
    let w = 2 ^ e in
    let (ge, lt) = InSegment-units e p h in
    let (sum, rest) = split (8 * w) p (omega arith) (omega arith) in
    let (near, next) = middle-gap w (p / (8 * w) % 16) (p % (8 * w)) p sum rest in
    record {
      exponent = e;
      found = exponent_from-InSegment 7 e p positive (omega arith) h;
      positive = positive;
      at_most = at_most;
      above = rw (pow_eight e) (above (p / (8 * w) % 16) w (pow-positive e));
      near = rw (pow_eight e) (omega (arith, near));
      next = rw (pow_eight e) (omega (arith, next));
    }
  where
    above : (m w : ℕ) → 1 ≤ w → 132 ≤ (m * 8 + 132) * w
    above m w one = grind arith

-- Every value of at least 256 and at most 15 bits.
pub placed : (p : ℕ) → 256 ≤ p → p < 32768 → Placed p
placed p ge lt = elim (Bool-cases (ltb p 2048)) [
  | inl small ↦ elim (Bool-cases (ltb p 512)) [
    | inl a ↦ segment 1 p (omega arith) (omega arith) (ge, ground arith)
    | inr b ↦ elim (Bool-cases (ltb p 1024)) [
      | inl c ↦ segment 2 p (omega arith) (omega arith) (ground arith, ground arith)
      | inr d ↦ segment 3 p (omega arith) (omega arith) (ground arith, ground arith)
    ]
  ]
  | inr large ↦ elim (Bool-cases (ltb p 8192)) [
    | inl a ↦ elim (Bool-cases (ltb p 4096)) [
      | inl c ↦ segment 4 p (omega arith) (omega arith) (ground arith, ground arith)
      | inr d ↦ segment 5 p (omega arith) (omega arith) (ground arith, ground arith)
    ]
    | inr b ↦ elim (Bool-cases (ltb p 16384)) [
      | inl c ↦ segment 6 p (omega arith) (omega arith) (ground arith, ground arith)
      | inr d ↦ segment 7 p (omega arith) (omega arith) (ground arith, lt)
    ]
  ]
]

pub packed-fields :
    (sign : Bool) (e m : ℕ)
    → e < 8
    → m < 16
    → (packed sign e m < 256) × (packed sign e m % 16 ≡ m) × (packed sign e m / 16 % 8 ≡ e)
packed-fields true e m he hm = (omega arith, omega arith, omega arith)
packed-fields false e m he hm = (omega arith, omega arith, omega arith)

abbrev pub magnitude : ℕ → ℕ
magnitude pcm = if is_negative pcm then 65536 - pcm else pcm
