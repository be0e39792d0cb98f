-- ===== src/Tests/Media.antt =====
-- Packets and ticks of concrete forks, and a load of concrete recording servers.
use mod_siprec.Base.{
  Bool, List, [], arith, false, length, none, refl, some, sym, true, ℕ, ◌*◌, ◌+◌, ◌/◌, ◌<◌, ◌∷◌,
  ◌≡◌, ◌≤◌, ◌⊎◌,
}
use mod_siprec.G711.{Codebook, alaw_ref, g711_init, l16_to_alaw, l16_to_ulaw, ulaw_ref}
use mod_siprec.G711.Close.{g711_init-close}
use mod_siprec.G711.Close.Segments.{gap}
use mod_siprec.G711.Close.Alaw.{alaw_expanded}
use mod_siprec.G711.Quiet.{expanded, ulaw_ref-quiet}
use mod_siprec.G711.Sign.{alaw_ref-sign}
use mod_siprec.G711.Tables.{g711_init-tables}
use mod_siprec.Media.{Audio, Ctx, Datagram, Frame, Stream, read_ping, rtp_pack}
use mod_siprec.Media.Rtp.{Packet, parse, rtp_pack-parse}
use mod_siprec.Media.Clock.{InStep, read_ping-InStep}
use mod_siprec.Media.Sending.{InWidth, Numbered}
use mod_siprec.Media.Numbering.{read_ping-Numbered}
use mod_siprec.Direction.{media_set_paused}
use mod_siprec.Direction.Gate.{pause-resume}

-- The codes of silence, which ITU-T G.711 gives as 255 and as 213.
ulaw_silence : ulaw_ref 0 ≡ 247
unfolding ulaw_ref
ulaw_silence = refl

alaw_silence : alaw_ref 0 ≡ 85
unfolding alaw_ref
alaw_silence = refl

abbrev pub blank : Codebook
blank = record { ulaw_tab = λ q. 0; alaw_tab = λ q. 0; built = false }

g711_init-tables_example :
    (l16_to_ulaw (g711_init blank) 65535 ≡ ulaw_ref 65535)
    × (l16_to_alaw (g711_init blank) 65535 ≡ alaw_ref 65535)
    × (g711_init (g711_init blank) ≡ g711_init blank)
g711_init-tables_example = g711_init-tables blank 65535 refl (omega arith)

abbrev packet : Packet
packet = record {
  version = 2;
  flags = 0;
  marker = true;
  pt = 8;
  sequence = 65535;
  timestamp = 305419896;
  ssrc = 2864434397;
  payload = 213 ∷ 85 ∷ [];
}

rtp_pack-parse_example :
    (length packet.payload ≤ 1500
      → (bytes : List ℕ) × (rtp_pack 8 true 2864434397 65535 305419896 packet.payload ≡ some bytes)
        × (length bytes ≡ length packet.payload + 12)
        × (parse bytes ≡ some packet))
    × (1500 < length packet.payload
        → rtp_pack 8 true 2864434397 65535 305419896 packet.payload ≡ none)
rtp_pack-parse_example =
    rtp_pack-parse 8 true 2864434397 65535 305419896 packet.payload (omega arith) (omega arith)
      (omega arith) (omega arith)

abbrev stream : ℕ → Stream
stream socket = record {
  fd = some socket;
  pt = 0;
  ssrc = 7;
  timestamp = 4294967290;
  sequence = 65535;
  marker_pending = true;
  packets_sent = 0;
  send_errors = 0;
}

-- No resampler is there, and a mix keeps the samples.
abbrev pub plain : Audio Unit
plain = record {
  mux = λ pcm n channels. pcm;
  create = λ rate channels. none;
  process = λ state pcm n. (state, pcm, n);
}

abbrev fork : Bool → ℕ → Ctx Unit
fork both count = record {
  bug = true;
  detaching = false;
  leg_ended = false;
  stream0 = stream 5;
  stream1 = stream 6;
  stream_count = count;
  resampler = none;
  separate = both;
  paused_at = 0;
}

abbrev pub stereo : Frame
stereo = record { datalen = 8; channels = 2; rate = 8000; samples = 1 ∷ 2 ∷ 3 ∷ 4 ∷ [] }

abbrev pub accepting : Datagram → Bool
accepting d = true

read_ping-InStep_example :
    InStep 0 (read_ping plain blank accepting (stereo ∷ []) 20000 false (fork true 2)).0
read_ping-InStep_example =
    read_ping-InStep plain blank accepting 0 (stereo ∷ []) 20000 false (fork true 2)
      (record { both = refl; two = refl; agree = refl })

read_ping-Numbered_example :
    Numbered
      (stream 5)
      65535
      (read_ping plain blank accepting (stereo ∷ stereo ∷ []) 20000 false (fork false 1)).1
      (read_ping plain blank accepting
        (stereo ∷ stereo ∷ [])
        20000
        false
        (fork false 1)).0.stream0.sequence
    × InWidth
        (read_ping plain blank accepting
          (stereo ∷ stereo ∷ [])
          20000
          false
          (fork false 1)).0.stream0
read_ping-Numbered_example =
    read_ping-Numbered plain blank accepting (stereo ∷ stereo ∷ []) 20000 false (fork false 1) refl
      (record {
        pt_fits = omega arith;
        sequence_fits = omega arith;
        timestamp_fits = omega arith;
        ssrc_fits = omega arith;
      })

abbrev resumed : Ctx Unit × Bool
resumed =
    media_set_paused 1001000 false
      (media_set_paused 1000500 true (media_set_paused 1000000 true (fork true 2, false)))

pause-resume_example :
    (true ≡ (media_set_paused 1000000 true (fork true 2, false)).1) × (resumed.1 ≡ false)
pause-resume_example =
    let h = pause-resume (fork true 2) 1000000 1000500 1001000 false refl refl refl (omega arith) in
    (sym (h.0), h.2)

ulaw_ref-quiet_example :
    (64 ≤ expanded (ulaw_ref 5))
    × (expanded (ulaw_ref 5) ≤ 120)
    × (5 < 12 → expanded (ulaw_ref 5) ≡ 64)
ulaw_ref-quiet_example = ulaw_ref-quiet 5 (omega arith)

alaw_ref-sign_example : alaw_ref 65535 / 128 ≡ 1
alaw_ref-sign_example = alaw_ref-sign 65535

g711_init-close_example :
    (32 * gap (alaw_expanded (l16_to_alaw (g711_init blank) 64535)) 1001 ≤ 1001)
    × ((1001 < 124) ⊎ (32 * gap (expanded (l16_to_ulaw (g711_init blank) 64535)) 1001 ≤ 1001 + 132))
g711_init-close_example = g711_init-close blank 64535 refl (omega arith)
