-- ===== src/Media/Fork.antt =====
-- A fork of siprec_media.c from its attach through the ticks of the call.
use mathlib.Core.Option.{some-injective}
use mod_siprec.Base.{
  Bool, List, Option, [], arith, false, if_elim, if◌then◌else◌, none, refl, some, true, ℕ, ◌%◌,
  ◌++◌, ◌+◌, ◌-◌, ◌<◌, ◌^◌, ◌∷◌, ◌≡◌,
}
use mod_siprec.G711.{Codebook}
use mod_siprec.Media.{Audio, Ctx, Datagram, Frame, Stream, media_bug_close, read_ping}
use mod_siprec.Media.Callback.{close, media_bug_callback, ping}
use mod_siprec.Media.Clock.{InStep, read_ping-InStep}
use mod_siprec.Media.Numbering.{read_ping-Ticks}
use mod_siprec.Media.Sending.{InWidth, Numbered, Numbered-append}
use mod_siprec.Media.Attach.{Host, SocketOp, attach}
use mod_siprec.Media.Attach.Ready.{
  Attached, IsAttached, attach-Attached, failed, mixed, separate, succeeded,
}
use mod_siprec.Sdp.{Negotiated}

-- What one tick finds: the frames of the bug, the packet time of the read codec, `leg_gone`, and
-- which packets the kernel takes.
pub record Tick : Type 0 where
  pub frames : List Frame
  pub microseconds : ℕ
  pub leg_gone : Bool
  pub net : Datagram → Bool

-- All datagrams of a run are the stream's, in order.
record Sends {R : Type 0} (s : Stream) (result : Ctx R × List Datagram) : Type 0 where
  numbered : Numbered s s.sequence result.1 result.0.stream0.sequence

-- The second clock is `d` ticks ahead after a run.
record Keeps {R : Type 0} (d : ℕ) (result : Ctx R × List Datagram) : Type 0 where
  apart : result.0.stream1.timestamp ≡ (result.0.stream0.timestamp + d) % 2 ^ 32

module _ {R : Type 0} (audio : Audio R) (book : Codebook) where
  -- The calls of the callback on READ_PING, one after the other; where it returns FALSE, the core
  -- removes the bug and reports CLOSE.
  abbrev pub run_ticks : List Tick → Ctx R → Ctx R × List Datagram
  run_ticks [] ctx = (ctx, [])
  run_ticks (t ∷ ticks) ctx =
      let event = ping t.frames t.microseconds t.leg_gone in
      let (ctx1, out1, keep) = media_bug_callback audio book t.net event ctx in
      let (ctx2, out2) = run_ticks ticks ctx1 in
      let (removed, last, done) = media_bug_callback audio book t.net close ctx1 in
      if keep then (ctx2, out1 ++ out2) else (removed, out1)

  ticks-Sends :
      (ticks : List Tick) (ctx : Ctx R)
      → ctx.separate ≡ false
      → InWidth ctx.stream0
      → Sends ctx.stream0 (run_ticks ticks ctx)
  unfolding media_bug_close
  ticks-Sends [] ctx mono w = record { numbered = refl }
  ticks-Sends (t ∷ ticks) ctx mono w =
      let (ctx1, out1, keep) = read_ping audio book t.net t.frames t.microseconds t.leg_gone ctx in
      let first = read_ping-Ticks audio book t.net t.frames t.microseconds t.leg_gone ctx mono w in
      let rest = ticks-Sends ticks ctx1 first.mixed first.in_width in
      if_elim (Sends ctx.stream0) keep
        (λ _. record {
          numbered =
              Numbered-append ctx.stream0 ctx1.stream0 ctx.stream0.sequence ctx1.stream0.sequence
                (run_ticks ticks ctx1).0.stream0.sequence out1 (run_ticks ticks ctx1).1 first.same
                first.numbered rest.numbered;
        })
        (λ _. record { numbered = first.numbered })

  ticks-Keeps :
      (d : ℕ) (ticks : List Tick) (ctx : Ctx R) → InStep d ctx → Keeps d (run_ticks ticks ctx)
  unfolding media_bug_close
  ticks-Keeps d [] ctx h = record { apart = h.agree }
  ticks-Keeps d (t ∷ ticks) ctx h =
      let after = read_ping-InStep audio book t.net d t.frames t.microseconds t.leg_gone ctx h in
      let (ctx1, out1, keep) = read_ping audio book t.net t.frames t.microseconds t.leg_gone ctx in
      let rest = ticks-Keeps d ticks ctx1 after in
      if_elim (Keeps d) keep (λ _. record { apart = rest.apart })
        (λ _. record { apart = after.agree })

  -- What the ticks of a call send on an attached fork, and how they leave its clocks.
  pub data Forked (ctx : Ctx R) : Ctx R × List Datagram → Type 0 where
    one_stream :
        {later : Ctx R} {out : List Datagram}
        → ctx.separate ≡ false
        → ctx.stream_count ≡ 1
        → Numbered ctx.stream0 ctx.stream0.sequence out later.stream0.sequence
        → Forked ctx (later, out)
    two_streams :
        {later : Ctx R} {out : List Datagram} (d : ℕ)
        → ctx.separate ≡ true
        → ctx.stream_count ≡ 2
        → ctx.stream1.timestamp ≡ (ctx.stream0.timestamp + d) % 2 ^ 32
        → later.stream1.timestamp ≡ (later.stream0.timestamp + d) % 2 ^ 32
        → Forked ctx (later, out)

  distance : (a b : ℕ) → a < 2 ^ 32 → b < 2 ^ 32 → b ≡ (a + (b + 2 ^ 32 - a)) % 2 ^ 32
  distance a b la lb = omega arith

  attached-Forked :
      {asked : Bool} {negotiated : List Negotiated} (ctx : Ctx R) (ticks : List Tick)
      → IsAttached asked negotiated ctx
      → Forked ctx (run_ticks ticks ctx)
  attached-Forked ctx ticks (mixed mono one ready on) =
      one_stream mono one (ticks-Sends ticks ctx mono ready.in_width).numbered
  attached-Forked ctx ticks (separate both two ready0 ready1 on want took) =
      let d = ctx.stream1.timestamp + 2 ^ 32 - ctx.stream0.timestamp in
      let apart =
        distance ctx.stream0.timestamp ctx.stream1.timestamp ready0.in_width.timestamp_fits
          ready1.in_width.timestamp_fits in
      two_streams d both two apart
        (ticks-Keeps d ticks ctx (record { both = both; two = two; agree = apart })).apart

  inverted :
      {asked : Bool} {negotiated : List Negotiated} (ctx : Ctx R) (ticks : List Tick)
      (result : Option (Ctx R) × List SocketOp)
      → Attached asked negotiated result
      → result.0 ≡ some ctx
      → Forked ctx (run_ticks ticks ctx)
  inverted ctx ticks (none, ops) (failed e) ok = cc
  inverted {asked} {negotiated} ctx ticks (some ctx', ops) (succeeded h all_shut) ok =
      let same = some-injective ctx' ctx ok in rw (← same) (attached-Forked ctx' ticks h)

  -- Where an attach gives a fork, then whatever the ticks of the call find: a mixed fork has one
  -- stream and sends packets that are numbered one by one modulo 2 ^ 16 from its first sequence
  -- number on, over all its ticks, each with its own source, payload type and socket; and a
  -- separate fork has two streams and keeps the distance between their RTP timestamps.
  pub attach-Forked :
      (host : Host) (asked : Bool) (negotiated : List Negotiated) (ctx : Ctx R) (ticks : List Tick)
      → (attach host asked negotiated).0 ≡ some ctx
      → Forked ctx (run_ticks ticks ctx)
  attach-Forked host asked negotiated ctx ticks ok =
      inverted ctx ticks (attach host asked negotiated) (attach-Attached host asked negotiated) ok
