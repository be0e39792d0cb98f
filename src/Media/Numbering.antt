-- ===== src/Media/Numbering.antt =====
-- The packets that one tick of a mixed fork sends, in siprec_media.c's callback.
use mod_siprec.Base.{
  Bool, Bool-cases, List, Option, [], arith, false, if_elim, if◌then◌else◌, inl, inr, ltb, none,
  not, refl, some, true, ℕ, ◌&&◌, ◌/◌, ◌==◌, ◌∙◌, ◌∷◌, ◌≡◌,
}
use mod_siprec.G711.{Codebook}
use mod_siprec.Media.{
  Audio, Ctx, Datagram, Frame, read_frame, read_frames, read_ping, renewed, resampled, send_frame,
  silent_tick,
}
use mod_siprec.Media.Sending.{InWidth, Numbered, Numbered-append, SameStream, send_stream-Sent}

-- What a part of a tick does to a mixed fork.
pub record Ticks {R : Type 0} (ctx : Ctx R) (result : Ctx R × List Datagram × Bool) : Type 0 where
  pub numbered : Numbered ctx.stream0 ctx.stream0.sequence result.1 result.0.stream0.sequence
  pub in_width : InWidth result.0.stream0
  pub same : SameStream ctx.stream0 result.0.stream0
  pub mixed : result.0.separate ≡ false

module _ {R : Type 0} (audio : Audio R) (book : Codebook) (net : Datagram → Bool) where
  idle :
      (ctx : Ctx R) (o : Option (ℕ × ℕ × R)) (b : Bool)
      → ctx.separate ≡ false
      → InWidth ctx.stream0
      → Ticks ctx (record ctx { resampler = o }, [], b)
  idle ctx o b mixed w = record {
    numbered = refl;
    in_width = w;
    same = record { same_fd = refl; same_pt = refl; same_ssrc = refl };
    mixed = mixed;
  }

  sent-Ticks :
      (pcm : List ℕ) (n : ℕ) (o : Option (ℕ × ℕ × R)) (ctx : Ctx R)
      → ctx.separate ≡ false
      → InWidth ctx.stream0
      → Ticks ctx (
          let (ctx', out) = send_frame audio book net pcm n (record ctx { resampler = o }) in
          (ctx', out, true))
  sent-Ticks pcm n o ctx mixed w =
      let sent = send_stream-Sent book net pcm 1 n ctx.stream0 w in
      rw mixed (record {
        numbered = sent.numbered;
        in_width = sent.in_width;
        same = sent.same;
        mixed = refl;
      })

  resampled-Ticks :
      (o : Option (ℕ × ℕ × R)) (pcm : List ℕ) (n : ℕ) (ctx : Ctx R)
      → ctx.separate ≡ false
      → InWidth ctx.stream0
      → Ticks ctx (resampled audio book net o pcm n ctx)
  resampled-Ticks none pcm n ctx mixed w = idle ctx none false mixed w
  resampled-Ticks (some (rate, channels, state)) pcm n ctx mixed w =
      let (state', samples, n') = audio.process state pcm n in
      sent-Ticks samples n' (some (rate, channels, state')) ctx mixed w

  read_frame-Ticks :
      (frame : Frame) (ctx : Ctx R)
      → ctx.separate ≡ false
      → InWidth ctx.stream0
      → Ticks ctx (read_frame audio book net frame ctx)
  unfolding read_frame
  read_frame-Ticks frame ctx mixed w =
      let channels = if frame.channels == 0 then 1 else frame.channels in
      let rate = if frame.rate == 0 then 8000 else frame.rate in
      let n = frame.datalen / 2 / channels in
      let pcm =
        if not ctx.separate && ltb 1 channels
        then audio.mux frame.samples n channels
        else frame.samples in
      let out_channels = if ctx.separate then 2 else 1 in
      if_elim (Ticks ctx) (ctx.separate && not (channels == 2))
        (λ _. idle ctx ctx.resampler false mixed w)
        (λ _.
          if_elim (Ticks ctx) (rate == 8000) (λ _. sent-Ticks pcm n ctx.resampler ctx mixed w)
            (λ _.
              resampled-Ticks (renewed audio book net rate out_channels ctx.resampler) pcm n ctx
                mixed w))

  read_frames-Ticks :
      (frames : List Frame) (ctx : Ctx R)
      → ctx.separate ≡ false
      → InWidth ctx.stream0
      → Ticks ctx (read_frames audio book net frames ctx)
  unfolding read_frames
  read_frames-Ticks [] ctx mixed w = idle ctx ctx.resampler false mixed w
  read_frames-Ticks (frame ∷ frames) ctx mixed w =
      let (ctx1, out1, sent1) = read_frame audio book net frame ctx in
      let (ctx2, out2, sent2) = read_frames audio book net frames ctx1 in
      let first = read_frame-Ticks frame ctx mixed w in
      let rest = read_frames-Ticks frames ctx1 first.mixed first.in_width in
      if_elim (Ticks ctx) (frame.datalen == 0) (λ _. idle ctx ctx.resampler false mixed w)
        (λ _. record {
          numbered =
              Numbered-append ctx.stream0 ctx1.stream0 ctx.stream0.sequence ctx1.stream0.sequence
                ctx2.stream0.sequence out1 out2 first.same first.numbered rest.numbered;
          in_width = rest.in_width;
          same = record {
            same_fd = rest.same.same_fd ∙ first.same.same_fd;
            same_pt = rest.same.same_pt ∙ first.same.same_pt;
            same_ssrc = rest.same.same_ssrc ∙ first.same.same_ssrc;
          };
          mixed = rest.mixed;
        })

  silent-Ticks :
      (microseconds : ℕ) (out : List Datagram) (b : Bool) (ctx ctx' : Ctx R)
      → Ticks ctx (ctx', out, b)
      → Ticks ctx (silent_tick audio book net microseconds ctx', out, true)
  silent-Ticks microseconds out b ctx ctx' after = elim (Bool-cases (ltb 0 ctx'.stream_count)) [
    | inl on ↦ rw on (record {
      numbered = after.numbered;
      in_width = record {
        pt_fits = after.in_width.pt_fits;
        sequence_fits = after.in_width.sequence_fits;
        timestamp_fits = omega arith;
        ssrc_fits = after.in_width.ssrc_fits;
      };
      same = record {
        same_fd = after.same.same_fd;
        same_pt = after.same.same_pt;
        same_ssrc = after.same.same_ssrc;
      };
      mixed = after.mixed;
    })
    | inr off ↦ rw off (record {
      numbered = after.numbered;
      in_width = after.in_width;
      same = after.same;
      mixed = after.mixed;
    })
  ]

  pub read_ping-Ticks :
      (frames : List Frame) (microseconds : ℕ) (leg_gone : Bool) (ctx : Ctx R)
      → ctx.separate ≡ false
      → InWidth ctx.stream0
      → Ticks ctx (read_ping audio book net frames microseconds leg_gone ctx)
  unfolding read_ping
  read_ping-Ticks frames microseconds leg_gone ctx mixed w =
      let (ctx', out, sent_any) = read_frames audio book net frames ctx in
      let after = read_frames-Ticks frames ctx mixed w in
      if_elim (Ticks ctx) (ctx.stream_count == 0) (λ _. idle ctx ctx.resampler true mixed w)
        (λ _.
          if_elim (Ticks ctx) leg_gone
            (λ _. record {
              numbered = refl;
              in_width = w;
              same = record { same_fd = refl; same_pt = refl; same_ssrc = refl };
              mixed = mixed;
            })
            (λ _.
              if_elim (Ticks ctx) sent_any
                (λ _. record {
                  numbered = after.numbered;
                  in_width = after.in_width;
                  same = after.same;
                  mixed = after.mixed;
                })
                (λ _. silent-Ticks microseconds out sent_any ctx ctx' after)))

  -- In one tick of a mixed fork whose stream is within the widths of the RTP header, every datagram
  -- goes out of the stream's socket and reads as an RTP packet with the stream's payload type and
  -- source and at most 1500 bytes of payload; the packets are numbered one by one modulo 2 ^ 16
  -- from the stream's sequence number on, the stream's next number comes after the last of them,
  -- whether or not the kernel took the packets, and the stream is still within the widths.
  pub read_ping-Numbered :
      (frames : List Frame) (microseconds : ℕ) (leg_gone : Bool) (ctx : Ctx R)
      → ctx.separate ≡ false
      → InWidth ctx.stream0
      → Numbered ctx.stream0 ctx.stream0.sequence
          (read_ping audio book net frames microseconds leg_gone ctx).1
          (read_ping audio book net frames microseconds leg_gone ctx).0.stream0.sequence
        × InWidth (read_ping audio book net frames microseconds leg_gone ctx).0.stream0
  read_ping-Numbered frames microseconds leg_gone ctx mixed w =
      let ticks = read_ping-Ticks frames microseconds leg_gone ctx mixed w in
      (ticks.numbered, ticks.in_width)
