-- ===== src/Direction/Gate.antt =====
-- The RTP clock of a fork across a pause, in siprec_media.c.
use mod_siprec.Base.{
  Bool, Bool-cases, arith, false, inl, inr, leb, refl, true, ℕ, ◌%◌, ◌+◌, ◌-◌, ◌/◌, ◌<◌, ◌==◌, ◌^◌,
  ◌≡◌, ◌≤◌,
}
use mod_siprec.Media.{Ctx}
use mod_siprec.Direction.{elapsed, media_set_paused}

module _ {R : Type 0} (ctx : Ctx R) (t : ℕ) (flag : Bool) (on : ctx.bug ≡ true) where
  pause_first :
      ctx.paused_at ≡ 0 → media_set_paused t true (ctx, flag) ≡ (record ctx { paused_at = t }, true)
  unfolding media_set_paused
  pause_first ready = rw (on, ready) refl

  pause_again : (ctx.paused_at == 0) ≡ false → media_set_paused t true (ctx, flag) ≡ (ctx, true)
  unfolding media_set_paused
  pause_again running = rw (on, running) refl

  resumed :
      ctx.stream_count ≡ 2
      → (ctx.paused_at == 0) ≡ false
      → let (last, open_flag) = media_set_paused t false (ctx, flag) in
        let gap = elapsed t ctx.paused_at in
        (open_flag ≡ false)
        × (last.paused_at ≡ 0)
        × (last.stream0.timestamp ≡ (ctx.stream0.timestamp + gap) % 2 ^ 32)
        × (last.stream1.timestamp ≡ (ctx.stream1.timestamp + gap) % 2 ^ 32)
        × (last.stream0.marker_pending ≡ true)
        × (last.stream1.marker_pending ≡ true)
  unfolding media_set_paused
  resumed two running = rw (on, two, running) (refl, refl, refl, refl, refl, refl)

-- How a timestamp moves from a pause at `t1` to a resume at `t3`, in 8 kHz ticks of 125
-- microseconds: forward, or back where the clock was set back in between.
pub data Moved (t1 t3 before after : ℕ) : Type 0 where
  forward : t1 ≤ t3 → after ≡ (before + (t3 - t1) / 125) % 2 ^ 32 → Moved t1 t3 before after
  back :
      t3 < t1
      → (after + (t1 - t3) / 125) % 2 ^ 32 ≡ before % 2 ^ 32
      → after < 2 ^ 32
      → Moved t1 t3 before after

elapsed-Moved : (t1 t3 before : ℕ) → Moved t1 t3 before ((before + elapsed t3 t1) % 2 ^ 32)
unfolding elapsed
elapsed-Moved t1 t3 before = elim (Bool-cases (leb t1 t3)) [
  | inl on ↦ forward (ground arith) (rw on (omega arith))
  | inr set_back ↦ back (ground arith) (rw set_back (omega arith)) (omega arith)
]

-- A fork with two streams that is paused at a time after 0, paused again later, and resumed, has
-- the pause flag on after each pause and off in the end; each stream's timestamp has moved by the
-- 8 kHz ticks between the first pause and the resume, modulo 2 ^ 32, forward, or back where the
-- clock was set back to before the first pause; each stream opens a talkspurt; and the fork is
-- ready for the next pause.
pub pause-resume :
    {R : Type 0} (ctx : Ctx R) (t1 t2 t3 : ℕ) (flag : Bool)
    → ctx.bug ≡ true
    → ctx.stream_count ≡ 2
    → ctx.paused_at ≡ 0
    → 0 < t1
    → let first = media_set_paused t1 true (ctx, flag) in
      let second = media_set_paused t2 true first in
      let (last, open_flag) = media_set_paused t3 false second in
      (first.1 ≡ true)
      × (second.1 ≡ true)
      × (open_flag ≡ false)
      × (last.paused_at ≡ 0)
      × Moved t1 t3 ctx.stream0.timestamp last.stream0.timestamp
      × Moved t1 t3 ctx.stream1.timestamp last.stream1.timestamp
      × (last.stream0.marker_pending ≡ true)
      × (last.stream1.marker_pending ≡ true)
pause-resume ctx t1 t2 t3 flag on two ready lt =
    let running : (t1 == 0) ≡ false = ground arith in
    let late = record ctx { paused_at = t1 } in
    let (a, b, c, d, e, f) = resumed late t3 true on two running in
    rw (pause_first ctx t1 flag on ready, pause_again late t2 true on running)
      (
        refl,
        refl,
        a,
        b,
        rw c (elapsed-Moved t1 t3 ctx.stream0.timestamp),
        rw d (elapsed-Moved t1 t3 ctx.stream1.timestamp),
        e,
        f,
      )
