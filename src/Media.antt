-- ===== src/Media.antt =====
-- siprec_media.c: RTP packets, the streams of a fork, and the media bug's callback. What FreeSWITCH
-- and the kernel do is a parameter: whether `sendto` takes a packet, the mix of channels, and the
-- resampler, whose own state is `R`.
pub mod Rtp
pub mod Clock
pub mod Sending
pub mod Numbering
pub mod Attach
pub mod Callback
pub mod Fork
use mod_siprec.Base.{
  Bool, List, Option, [], drop, false, if◌then◌else◌, length, ltb, map, none, not, some, suc, true,
  zero, ℕ, ◌%◌, ◌&&◌, ◌++◌, ◌+◌, ◌/◌, ◌==◌, ◌^◌, ◌||◌, ◌∷◌,
}
use mod_siprec.G711.{Codebook, l16_to_alaw, l16_to_ulaw}

-- The header of `rtp_pack_and_send`; the flag and the type of byte 1 do not overlap.
unfoldable pub rtp_header : ℕ → Bool → ℕ → ℕ → ℕ → List ℕ
rtp_header pt marker ssrc sequence timestamp =
    128
    ∷ ((if marker then 128 else 0) + pt % 128)
    ∷ (sequence / 256 % 256)
    ∷ (sequence % 256)
    ∷ (timestamp / 16777216 % 256)
    ∷ (timestamp / 65536 % 256)
    ∷ (timestamp / 256 % 256)
    ∷ (timestamp % 256)
    ∷ (ssrc / 16777216 % 256)
    ∷ (ssrc / 65536 % 256)
    ∷ (ssrc / 256 % 256)
    ∷ (ssrc % 256)
    ∷ []

-- The packet, none where the payload is too long for the buffer.
unfoldable pub rtp_pack : ℕ → Bool → ℕ → ℕ → ℕ → List ℕ → Option (List ℕ)
unfolding rtp_header
rtp_pack pt marker ssrc sequence timestamp payload =
    if ltb 1500 (length payload)
    then none
    else some (rtp_header pt marker ssrc sequence timestamp ++ payload)

-- One element of `streams[]`, with its destination and socket as `fd`, none for -1.
pub record Stream : Type 0 where
  pub fd : Option ℕ
  pub pt : ℕ
  pub ssrc : ℕ
  pub timestamp : ℕ
  pub sequence : ℕ
  pub marker_pending : Bool
  pub packets_sent : ℕ
  pub send_errors : ℕ

-- A packet on its way out of a socket.
abbrev pub Datagram : Type 0
Datagram = Option ℕ × List ℕ

-- `pcm[i * stride]` for `i < n`; a caller gives that many samples.
unfoldable pub every : ℕ → ℕ → List ℕ → List ℕ
every stride zero pcm = []
every stride (suc n) [] = []
every stride (suc n) (x ∷ pcm) = x ∷ every stride n (drop stride (x ∷ pcm))

unfoldable pub encode : Codebook → ℕ → List ℕ → List ℕ
encode book pt samples = map (if pt == 8 then l16_to_alaw book else l16_to_ulaw book) samples

-- The counters after `rtp_pack_and_send`.
abbrev pub counted : (Datagram → Bool) → Option (List ℕ) → Stream → Stream
counted net none s = record s { send_errors = (s.send_errors + 1) % 2 ^ 64 }
counted net (some packet) s =
    if net (s.fd, packet)
    then record s { packets_sent = (s.packets_sent + 1) % 2 ^ 64 }
    else record s { send_errors = (s.send_errors + 1) % 2 ^ 64 }

abbrev pub outgoing : Option ℕ → Option (List ℕ) → List Datagram
outgoing fd none = []
outgoing fd (some packet) = (fd, packet) ∷ []

-- `send_stream`, with the datagram that it hands to `sendto`.
unfoldable pub send_stream :
    Codebook → (Datagram → Bool) → List ℕ → ℕ → ℕ → Stream → Stream × List Datagram
unfolding rtp_pack every encode
send_stream book net pcm stride n s =
    let count = if ltb 1500 n then 1500 else n in
    let packet =
      rtp_pack s.pt s.marker_pending s.ssrc s.sequence s.timestamp
        (encode book s.pt (every stride count pcm)) in
    let s' = counted net packet s in
    (
      record s' {
        sequence = (s.sequence + 1) % 2 ^ 16;
        marker_pending = false;
        timestamp = (s.timestamp + count) % 2 ^ 32;
      },
      outgoing s.fd packet,
    )

-- A read of the media bug: the frame's length in bytes, layout, rate, and its samples.
pub record Frame : Type 0 where
  pub datalen : ℕ
  pub channels : ℕ
  pub rate : ℕ
  pub samples : List ℕ

-- What `switch_mux_channels` and the resampler compute, and whether one can be created.
pub record Audio (R : Type 0) : Type 0 where
  pub mux : List ℕ → ℕ → ℕ → List ℕ
  pub create : ℕ → ℕ → Option R
  pub process : R → List ℕ → ℕ → R × List ℕ × ℕ

-- `siprec_media_ctx_t`, with `streams[0]` and `streams[1]` named apart, the resampler with the
-- rate and the channels it was made for, and the recording's flag `leg_gone`.
pub record Ctx (R : Type 0) : Type 0 where
  pub bug : Bool
  pub detaching : Bool
  pub leg_ended : Bool
  pub stream0 : Stream
  pub stream1 : Stream
  pub stream_count : ℕ
  pub resampler : Option (ℕ × ℕ × R)
  pub separate : Bool
  pub paused_at : ℕ

module _ {R : Type 0} (audio : Audio R) (book : Codebook) (net : Datagram → Bool) where
  -- The sends of one frame of `n` samples for each channel.
  abbrev pub send_frame : List ℕ → ℕ → Ctx R → Ctx R × List Datagram
  send_frame samples n ctx =
      let (s0, out0) = send_stream book net samples (if ctx.separate then 2 else 1) n ctx.stream0 in
      let (s1, out1) = send_stream book net (drop 1 samples) 2 n ctx.stream1 in
      if ctx.separate
      then (record ctx { stream0 = s0; stream1 = s1 }, out0 ++ out1)
      else (record ctx { stream0 = s0 }, out0)

  abbrev pub fits : ℕ → ℕ → Option (ℕ × ℕ × R) → Bool
  fits rate channels none = false
  fits rate channels (some (r, c, state)) = r == rate && c == channels

  -- The resampler in place for a rate, none where creating it failed.
  abbrev pub renewed : ℕ → ℕ → Option (ℕ × ℕ × R) → Option (ℕ × ℕ × R)
  renewed rate channels old =
      if fits rate channels old then old else elim (audio.create rate channels) [
        | none ↦ none
        | some state ↦ some (rate, channels, state)
      ]

  -- Whether anything was sent is the last result.
  abbrev pub resampled : Option (ℕ × ℕ × R) → List ℕ → ℕ → Ctx R → Ctx R × List Datagram × Bool
  resampled none pcm n ctx = (record ctx { resampler = none }, [], false)
  resampled (some (rate, channels, state)) pcm n ctx =
      let (state', samples, n') = audio.process state pcm n in
      let (ctx', out) =
        send_frame samples n' (record ctx { resampler = some (rate, channels, state') }) in
      (ctx', out, true)

  -- One round of the loop over the frames of a tick, past the test that ends it.
  unfoldable pub read_frame : Frame → Ctx R → Ctx R × List Datagram × Bool
  unfolding send_stream
  read_frame frame ctx =
      let channels = if frame.channels == 0 then 1 else frame.channels in
      let rate = if frame.rate == 0 then 8000 else frame.rate in
      let n = frame.datalen / 2 / channels in
      let pcm =
        if not ctx.separate && ltb 1 channels
        then audio.mux frame.samples n channels
        else frame.samples in
      let out_channels = if ctx.separate then 2 else 1 in
      let (ctx', out) = send_frame pcm n ctx in
      if ctx.separate && not (channels == 2)
      then (ctx, [], false)
      else if rate == 8000
      then (ctx', out, true)
      else resampled (renewed rate out_channels ctx.resampler) pcm n ctx

  -- The loop, over the frames that `switch_core_media_bug_read` returns until it returns no more.
  unfoldable pub read_frames : List Frame → Ctx R → Ctx R × List Datagram × Bool
  unfolding read_frame
  read_frames [] ctx = (ctx, [], false)
  read_frames (frame ∷ frames) ctx =
      let (ctx1, out1, sent1) = read_frame frame ctx in
      let (ctx2, out2, sent2) = read_frames frames ctx1 in
      if frame.datalen == 0 then (ctx, [], false) else (ctx2, out1 ++ out2, sent1 || sent2)

  -- The timestamp runs on through a tick without audio, on each of the `stream_count` streams.
  abbrev pub skip_tick : ℕ → Bool → Stream → Stream
  skip_tick tick true s = record s {
    timestamp = (s.timestamp + tick) % 2 ^ 32;
    marker_pending = true;
  }
  skip_tick tick false s = s

  abbrev pub silent_tick : ℕ → Ctx R → Ctx R
  silent_tick microseconds ctx =
      let tick = if ltb 0 microseconds then microseconds / (1000000 / 8000) else 160 in
      record ctx {
        stream0 = skip_tick tick (ltb 0 ctx.stream_count) ctx.stream0;
        stream1 = skip_tick tick (ltb 1 ctx.stream_count) ctx.stream1;
      }

  -- The callback on READ_PING; its result says whether the core keeps the bug. `microseconds` is
  -- the packet time of the read codec.
  unfoldable pub read_ping : List Frame → ℕ → Bool → Ctx R → Ctx R × List Datagram × Bool
  unfolding read_frames
  read_ping frames microseconds leg_gone ctx =
      let (ctx', out, sent_any) = read_frames frames ctx in
      if ctx.stream_count == 0
      then (ctx, [], true)
      else if leg_gone
      then (record ctx { leg_ended = true }, [], false)
      else if sent_any
      then (ctx', out, true)
      else (silent_tick microseconds ctx', out, true)

-- The callback on CLOSE.
unfoldable pub media_bug_close : {R : Type 0} → Ctx R → Ctx R
media_bug_close ctx = record ctx { bug = false }
