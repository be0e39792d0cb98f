-- ===== src/Media/Clock.antt =====
-- The streams of one recording share their RTP clock, in siprec_media.c's callback.
use mod_siprec.Base.{
  Bool, List, Option, [], arith, drop, if_elim, if◌then◌else◌, ltb, none, not, refl, some, true, ℕ,
  ◌%◌, ◌&&◌, ◌+◌, ◌/◌, ◌==◌, ◌^◌, ◌∷◌, ◌≡◌,
}
use mod_siprec.G711.{Codebook}
use mod_siprec.Media.{
  Audio, Ctx, Datagram, Frame, Stream, read_frame, read_frames, read_ping, renewed, resampled,
  send_frame, send_stream, silent_tick,
}

-- A fork of two streams, of which the second is `d` ticks ahead of the first on the clock that wraps
-- at 2 ^ 32; the initial timestamps of an attach are random, so that any `d` is possible.
pub record InStep {R : Type 0} (d : ℕ) (ctx : Ctx R) : Type 0 where
  pub both : ctx.separate ≡ true
  pub two : ctx.stream_count ≡ 2
  pub agree : ctx.stream1.timestamp ≡ (ctx.stream0.timestamp + d) % 2 ^ 32

-- Both clocks go on by `c` ticks.
pub shift :
    (a b c d : ℕ) → b ≡ (a + d) % 2 ^ 32 → (b + c) % 2 ^ 32 ≡ ((a + c) % 2 ^ 32 + d) % 2 ^ 32
shift a b c d e = omega arith

-- The same of a result.
record Stays {R : Type 0} (d : ℕ) (x : Ctx R × List Datagram × Bool) : Type 0 where
  stays : InStep d x.0

sent-timestamp :
    (book : Codebook) (net : Datagram → Bool) (pcm : List ℕ) (stride n : ℕ) (s : Stream)
    → (send_stream book net pcm stride n s).0.timestamp
      ≡ (s.timestamp + (if ltb 1500 n then 1500 else n)) % 2 ^ 32
unfolding send_stream
sent-timestamp book net pcm stride n s = refl

module _ {R : Type 0} (audio : Audio R) (book : Codebook) (net : Datagram → Bool) (d : ℕ) where
  send_frame-InStep :
      (pcm : List ℕ) (n : ℕ) (ctx : Ctx R)
      → InStep d ctx
      → InStep d (send_frame audio book net pcm n ctx).0
  send_frame-InStep pcm n ctx h = rw h.both (record {
    both = refl;
    two = h.two;
    agree =
        rw
          (
            sent-timestamp book net pcm 2 n ctx.stream0,
            sent-timestamp book net (drop 1 pcm) 2 n ctx.stream1,
          )
          (shift ctx.stream0.timestamp ctx.stream1.timestamp (if ltb 1500 n then 1500 else n) d
            h.agree);
  })

  resampled-InStep :
      (o : Option (ℕ × ℕ × R)) (pcm : List ℕ) (n : ℕ) (ctx : Ctx R)
      → InStep d ctx
      → InStep d (resampled audio book net o pcm n ctx).0
  resampled-InStep none pcm n ctx h = record { both = h.both; two = h.two; agree = h.agree }
  resampled-InStep (some (rate, channels, state)) pcm n ctx h =
      send_frame-InStep _ _ _ (record { both = h.both; two = h.two; agree = h.agree })

  read_frame-InStep :
      (frame : Frame) (ctx : Ctx R) → InStep d ctx → Stays d (read_frame audio book net frame ctx)
  unfolding read_frame
  read_frame-InStep frame ctx h =
      let channels = if frame.channels == 0 then 1 else frame.channels in
      let rate = if frame.rate == 0 then 8000 else frame.rate in
      let n = frame.datalen / 2 / channels in
      let pcm =
        if not ctx.separate && ltb 1 channels
        then audio.mux frame.samples n channels
        else frame.samples in
      let out_channels = if ctx.separate then 2 else 1 in
      if_elim (Stays d) (ctx.separate && not (channels == 2)) (λ _. record { stays = h })
        (λ _.
          if_elim (Stays d) (rate == 8000) (λ _. record { stays = send_frame-InStep pcm n ctx h })
            (λ _. record {
              stays =
                  resampled-InStep (renewed audio book net rate out_channels ctx.resampler) pcm n
                    ctx h;
            }))

  read_frames-InStep :
      (frames : List Frame) (ctx : Ctx R)
      → InStep d ctx
      → Stays d (read_frames audio book net frames ctx)
  unfolding read_frames
  read_frames-InStep [] ctx h = record { stays = h }
  read_frames-InStep (frame ∷ frames) ctx h =
      let rest = read_frames-InStep frames _ (read_frame-InStep frame ctx h).stays in
      if_elim (Stays d) (frame.datalen == 0) (λ _. record { stays = h })
        (λ _. record { stays = rest.stays })

  silent_tick-InStep :
      (microseconds : ℕ) (ctx : Ctx R)
      → InStep d ctx
      → InStep d (silent_tick audio book net microseconds ctx)
  silent_tick-InStep microseconds ctx h =
      let tick = if ltb 0 microseconds then microseconds / (1000000 / 8000) else 160 in
      rw h.two (record {
        both = h.both;
        two = refl;
        agree = shift ctx.stream0.timestamp ctx.stream1.timestamp tick d h.agree;
      })

  read_ping-Stays :
      (frames : List Frame) (microseconds : ℕ) (leg_gone : Bool) (ctx : Ctx R)
      → InStep d ctx
      → Stays d (read_ping audio book net frames microseconds leg_gone ctx)
  unfolding read_ping
  read_ping-Stays frames microseconds leg_gone ctx h =
      let after = (read_frames-InStep frames ctx h).stays in
      if_elim (Stays d) (ctx.stream_count == 0) (λ _. record { stays = h })
        (λ _.
          if_elim (Stays d) leg_gone
            (λ _. record { stays = record { both = h.both; two = h.two; agree = h.agree } })
            (λ _.
              if_elim (Stays d) (read_frames audio book net frames ctx).2
                (λ _. record { stays = after })
                (λ _. record { stays = silent_tick-InStep microseconds _ after })))

  -- A tick of the media bug keeps the distance between the RTP timestamps of a fork's two streams,
  -- modulo 2 ^ 32, whatever frames the bug returned, however they had to be resampled, whichever
  -- packets the kernel took, whether or not there was audio in the tick, and whether or not the
  -- recording's leg had gone.
  pub read_ping-InStep :
      (frames : List Frame) (microseconds : ℕ) (leg_gone : Bool) (ctx : Ctx R)
      → InStep d ctx
      → InStep d (read_ping audio book net frames microseconds leg_gone ctx).0
  read_ping-InStep frames microseconds leg_gone ctx h =
      (read_ping-Stays frames microseconds leg_gone ctx h).stays
