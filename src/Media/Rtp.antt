-- ===== src/Media/Rtp.antt =====
-- The RTP header of siprec_media.c, read back as RFC 3550 lays it out.
use mod_siprec.Base.{
  Bool, List, Option, arith, false, if◌then◌else◌, leb, length, ltb, none, refl, some, true, ℕ, ◌%◌,
  ◌*◌, ◌++◌, ◌+◌, ◌/◌, ◌<◌, ◌^◌, ◌∷◌, ◌≡◌, ◌≤◌,
}
use mod_siprec.Media.{rtp_header, rtp_pack}

-- The fixed header of RFC 3550, section 5.1, and what comes after it.
pub record Packet : Type 0 where
  pub version : ℕ
  pub flags : ℕ
  pub marker : Bool
  pub pt : ℕ
  pub sequence : ℕ
  pub timestamp : ℕ
  pub ssrc : ℕ
  pub payload : List ℕ

-- Four bytes in network order.
abbrev pub be32 : ℕ → ℕ → ℕ → ℕ → ℕ
be32 a b c d = a * 16777216 + b * 65536 + c * 256 + d

abbrev pub parse : List ℕ → Option Packet
parse (b0 ∷ b1 ∷ s0 ∷ s1 ∷ t0 ∷ t1 ∷ t2 ∷ t3 ∷ r0 ∷ r1 ∷ r2 ∷ r3 ∷ rest) = some (record {
  version = b0 / 64;
  flags = b0 % 64;
  marker = leb 128 b1;
  pt = b1 % 128;
  sequence = s0 * 256 + s1;
  timestamp = be32 t0 t1 t2 t3;
  ssrc = be32 r0 r1 r2 r3;
  payload = rest;
})
parse _ = none

be32_bytes :
    (x : ℕ) → x < 2 ^ 32 → be32 (x / 16777216 % 256) (x / 65536 % 256) (x / 256 % 256) (x % 256) ≡ x
be32_bytes x lt = omega arith

be16_bytes : (x : ℕ) → x < 2 ^ 16 → x / 256 % 256 * 256 + x % 256 ≡ x
be16_bytes x lt = omega arith

marker_bit : (marker : Bool) (pt : ℕ) → leb 128 ((if marker then 128 else 0) + pt % 128) ≡ marker
marker_bit true pt = ground arith
marker_bit false pt = ground arith

type_bits :
    (marker : Bool) (pt : ℕ) → pt < 128 → ((if marker then 128 else 0) + pt % 128) % 128 ≡ pt
type_bits true pt lt = omega arith
type_bits false pt lt = omega arith

pub parse-header :
    (pt : ℕ) (marker : Bool) (ssrc sequence timestamp : ℕ) (payload : List ℕ)
    → pt < 128
    → sequence < 2 ^ 16
    → timestamp < 2 ^ 32
    → ssrc < 2 ^ 32
    → parse (rtp_header pt marker ssrc sequence timestamp ++ payload)
      ≡ some (record {
        version = 2;
        flags = 0;
        marker = marker;
        pt = pt;
        sequence = sequence;
        timestamp = timestamp;
        ssrc = ssrc;
        payload = payload;
      })
unfolding rtp_header
parse-header pt marker ssrc sequence timestamp payload p s t r =
    rw
      (
        marker_bit marker pt,
        type_bits marker pt p,
        be16_bytes sequence s,
        be32_bytes timestamp t,
        be32_bytes ssrc r,
      )
      refl

-- A payload of at most 1500 bytes is packed, with 12 bytes of header before it, and a receiver
-- that reads the packet as RFC 3550 lays it out gets version 2, no padding, extension or
-- contributing source, and the marker, payload type, sequence number, timestamp, source and
-- payload that were packed, each within the width of its field; a longer payload is refused.
pub rtp_pack-parse :
    (pt : ℕ) (marker : Bool) (ssrc sequence timestamp : ℕ) (payload : List ℕ)
    → pt < 128
    → sequence < 2 ^ 16
    → timestamp < 2 ^ 32
    → ssrc < 2 ^ 32
    → (length payload ≤ 1500
        → (packet : List ℕ) × (rtp_pack pt marker ssrc sequence timestamp payload ≡ some packet)
          × (length packet ≡ length payload + 12)
          × (parse packet
              ≡ some (record {
                version = 2;
                flags = 0;
                marker = marker;
                pt = pt;
                sequence = sequence;
                timestamp = timestamp;
                ssrc = ssrc;
                payload = payload;
              })))
      × (1500 < length payload → rtp_pack pt marker ssrc sequence timestamp payload ≡ none)
unfolding rtp_pack rtp_header
rtp_pack-parse pt marker ssrc sequence timestamp payload p s t r = (
  λ short.
      let in_buffer : ltb 1500 (length payload) ≡ false = ground arith in
      (
        rtp_header pt marker ssrc sequence timestamp ++ payload,
        rw in_buffer refl,
        omega arith,
        parse-header pt marker ssrc sequence timestamp payload p s t r,
      ),
  λ long. let too_long : ltb 1500 (length payload) ≡ true = ground arith in rw too_long refl,
)
