-- ===== src/G711/Tables.antt =====
-- The lookup tables hold what the reference encoders compute.
use mod_siprec.Base.{
  ==_iff, ==_refl, Bool-cases, arith, false, inl, inr, refl, suc, zero, ℕ, ◌%◌, ◌+◌, ◌<◌, ◌==◌, ◌≡◌,
}
use mod_siprec.G711.{Codebook, alaw_ref, build, fill, g711_init, l16_to_alaw, l16_to_ulaw, ulaw_ref}

AgreesAt : Codebook → ℕ → Type 0
AgreesAt t q = (t.ulaw_tab q ≡ ulaw_ref q) × (t.alaw_tab q ≡ alaw_ref q)

filled : (idx q : ℕ) (ref tab : ℕ → ℕ) → q ≡ idx → fill idx ref tab q ≡ ref q
filled idx q ref tab e = rw (e, ==_refl idx)

kept : (idx q : ℕ) (ref tab : ℕ → ℕ) → tab q ≡ ref q → fill idx ref tab q ≡ ref q
kept idx q ref tab e = elim (Bool-cases (q == idx)) [
  | inl same ↦ filled idx q ref tab ((==_iff q idx).0 same)
  | inr other ↦ rw other e
]

-- After `n` rounds the loop has written the pattern of every value before the next one.
build-AgreesAt : (n i : ℕ) (t : Codebook) → i < n → AgreesAt (build n t) ((i + 32768) % 65536)
unfolding AgreesAt build
build-AgreesAt zero i t lt = absurd (omega arith)
build-AgreesAt (suc n) i t lt = elim (Bool-cases (i == n)) [
  | inl last ↦
      let e : (i + 32768) % 65536 ≡ (n + 32768) % 65536 = rw ((==_iff i n).0 last) refl in
      (filled _ _ ulaw_ref (build n t).ulaw_tab e, filled _ _ alaw_ref (build n t).alaw_tab e)
  | inr earlier ↦
      let (u, a) = build-AgreesAt n i t (ground arith) in
      (kept _ _ ulaw_ref (build n t).ulaw_tab u, kept _ _ alaw_ref (build n t).alaw_tab a)
]

-- After the first `siprec_g711_init`, the loads of both tables give the reference encoder's code
-- for every 16-bit sample, and a second call changes nothing.
pub g711_init-tables :
    (t : Codebook) (pcm : ℕ)
    → t.built ≡ false
    → pcm < 65536
    → (l16_to_ulaw (g711_init t) pcm ≡ ulaw_ref pcm)
      × (l16_to_alaw (g711_init t) pcm ≡ alaw_ref pcm)
      × (g711_init (g711_init t) ≡ g711_init t)
unfolding g711_init AgreesAt
g711_init-tables t pcm fresh lt =
    let i = (pcm + 32768) % 65536 in
    let (u, a) = build-AgreesAt 65536 i (record t { built = false }) (omega arith) in
    let e : (i + 32768) % 65536 ≡ pcm = omega arith in rw fresh (rw e at u, rw e at a, refl)
