-- ===== src/G711/Close.antt =====
-- How near the codes of siprec_g711.c are to the samples, by the decoders of ITU-T G.711.
pub mod Segments
pub mod Ulaw
pub mod Alaw
use mod_siprec.Base.{
  Bool-cases, arith, false, inl, inr, ltb, ltb→lt, ℕ, ◌*◌, ◌+◌, ◌<◌, ◌≡◌, ◌≤◌, ◌⊎◌,
}
use mod_siprec.G711.{Codebook, clip, g711_init, l16_to_alaw, l16_to_ulaw}
use mod_siprec.G711.Quiet.{expanded}
use mod_siprec.G711.Tables.{g711_init-tables}
use mod_siprec.G711.Close.Segments.{gap, magnitude}
use mod_siprec.G711.Close.Ulaw.{ulaw_ref-near}
use mod_siprec.G711.Close.Alaw.{alaw_expanded, alaw_ref-near, at_least}

-- After the first `siprec_g711_init`, the code that a table gives for a 16-bit sample is near it, by
-- the decoders of ITU-T G.711 and but for its sign: the A-law code is within a 32nd of the sample's
-- magnitude, or within 8 for a magnitude below 256; and the µ-law code is, for a magnitude of at
-- least 124, within a 32nd of the magnitude clipped to 32635 and biased by 132.
pub g711_init-close :
    (t : Codebook) (pcm : ℕ)
    → t.built ≡ false
    → pcm < 65536
    → (32 * gap (alaw_expanded (l16_to_alaw (g711_init t) pcm)) (magnitude pcm)
        ≤ at_least 256 (magnitude pcm))
      × ((magnitude pcm < 124)
          ⊎ (32 * gap (expanded (l16_to_ulaw (g711_init t) pcm)) (clip 32635 (magnitude pcm))
              ≤ clip 32635 (magnitude pcm) + 132))
g711_init-close t pcm fresh lt =
    let (u, a, again) = g711_init-tables t pcm fresh lt in
    (
      rw a (alaw_ref-near pcm lt),
      elim (Bool-cases (ltb (magnitude pcm) 124)) [
        | inl quiet ↦ inl (ltb→lt (magnitude pcm) 124 quiet)
        | inr loud ↦ inr (rw u (ulaw_ref-near pcm (ltb_false (magnitude pcm) 124 loud)))
      ],
    )
  where
    ltb_false : (a b : ℕ) → ltb a b ≡ false → b ≤ a
    ltb_false a b h = ground arith
