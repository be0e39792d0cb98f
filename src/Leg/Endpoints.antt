-- ===== src/Leg/Endpoints.antt =====
-- The endpoints that a fork sends to, as siprec_invite.c takes them from an answered leg.
use mod_siprec.Base.{
  All, Bool, Bytes, List, Option, [], ap, arith, if_elim, leb, length, length-take-le, ltb, map,
  none, not, refl, some, suc, ℕ, ◌&&◌, ◌<◌, ◌∷◌, ◌≡◌, ◌≤◌, ◌⊎◌,
}
use mod_siprec.Sdp.{Negotiated}
use mod_siprec.Sdp.Endpoints.{IsEndpoint}
use mod_siprec.Sdp.Streams.{parse_remote_streams-IsAnswer}
use mod_siprec.Leg.{
  Answer, Network, endpoint_of, fallback, negotiate, parsed, streams_or, usable_pt, with_codec,
}

-- An address that fits its field, and a port to send to.
pub record IsRoutable (s : Negotiated) : Type 0 where
  pub ip_fits : length s.remote_ip ≤ 63
  pub port_low : 0 < s.remote_port
  pub port_high : s.remote_port ≤ 65535

-- At most two of them.
record AreRoutable (out : List Negotiated) : Type 0 where
  at_most_two : length out ≤ 2
  each : All IsRoutable out

IsEndpoint-IsRoutable :
    (n : ℕ) (out : List Negotiated) → All (IsEndpoint n) out → All IsRoutable out
IsEndpoint-IsRoutable n [] h = tt
IsEndpoint-IsRoutable n (s ∷ out) (e, h) = (
  record { ip_fits = e.ip_fits; port_low = e.port_low; port_high = e.port_high },
  IsEndpoint-IsRoutable n out h,
)

module _ (net : Network) where
  parsed-AreRoutable : (sdp : Option Bytes) → AreRoutable (parsed net sdp)
  parsed-AreRoutable none = record { at_most_two = omega arith; each = tt }
  parsed-AreRoutable (some []) = record { at_most_two = omega arith; each = tt }
  parsed-AreRoutable (some (c ∷ sdp)) =
      let answer = parse_remote_streams-IsAnswer net.sscanf 2 (some (c ∷ sdp)) in
      record {
        at_most_two = answer.in_bounds;
        each = IsEndpoint-IsRoutable answer.sound.0 _ answer.sound.1;
      }

  endpoint_of-AreRoutable :
      (ip : Bytes) (number : Bool × ℕ × Bytes) → AreRoutable (endpoint_of net ip number)
  endpoint_of-AreRoutable ip (negative, n, c ∷ rest) = record {
    at_most_two = omega arith;
    each = tt;
  }
  endpoint_of-AreRoutable ip (negative, n, []) =
      if_elim AreRoutable (not negative && ltb 0 n && leb n 65535)
        (λ ok. record {
          at_most_two = omega arith;
          each = (
            record {
              ip_fits = length-take-le 63 ip;
              port_low = ground arith;
              port_high = ground arith;
            },
            tt,
          );
        })
        (λ _. record { at_most_two = omega arith; each = tt })

  fallback-AreRoutable : (ip port : Option Bytes) → AreRoutable (fallback net ip port)
  fallback-AreRoutable (some (c ∷ ip)) (some (d ∷ port)) =
      endpoint_of-AreRoutable (c ∷ ip) (net.strtol (d ∷ port))
  fallback-AreRoutable (some (c ∷ ip)) (some []) = record { at_most_two = omega arith; each = tt }
  fallback-AreRoutable (some (c ∷ ip)) none = record { at_most_two = omega arith; each = tt }
  fallback-AreRoutable (some []) port = record { at_most_two = omega arith; each = tt }
  fallback-AreRoutable none port = record { at_most_two = omega arith; each = tt }

  streams_or-AreRoutable :
      (out other : List Negotiated)
      → AreRoutable out
      → AreRoutable other
      → AreRoutable (streams_or net out other)
  streams_or-AreRoutable [] other h k = k
  streams_or-AreRoutable (s ∷ out) other h k = h

  with_codec-IsRoutable :
      (codec : Option ℕ) (s : Negotiated) → IsRoutable s → IsRoutable (with_codec net codec s)
  with_codec-IsRoutable none s h = h
  with_codec-IsRoutable (some pt) s h =
      if_elim IsRoutable (not (usable_pt net s.pt) && usable_pt net pt)
        (λ _. record { ip_fits = h.ip_fits; port_low = h.port_low; port_high = h.port_high })
        (λ _. h)

  map-AreRoutable :
      (codec : Option ℕ) (out : List Negotiated)
      → All IsRoutable out
      → (length (map (with_codec net codec) out) ≡ length out)
        × All IsRoutable (map (with_codec net codec) out)
  map-AreRoutable codec [] h = (refl, tt)
  map-AreRoutable codec (s ∷ out) (e, h) =
      let (same, each) = map-AreRoutable codec out h in
      (ap suc same, (with_codec-IsRoutable codec s e, each))

  with_codec-usable :
      (pt : ℕ) (s : Negotiated)
      → (pt ≡ 0) ⊎ (pt ≡ 8)
      → ((with_codec net (some pt) s).pt ≡ 0) ⊎ ((with_codec net (some pt) s).pt ≡ 8)
  with_codec-usable pt s usable =
      if_elim (λ (t : Negotiated). (t.pt ≡ 0) ⊎ (t.pt ≡ 8))
        (not (usable_pt net s.pt) && usable_pt net pt) {x = record s { pt = pt }} {y = s}
        (λ _. usable) (λ h. ground arith)

  map-usable :
      (pt : ℕ) (out : List Negotiated)
      → (pt ≡ 0) ⊎ (pt ≡ 8)
      → All (λ s. (s.pt ≡ 0) ⊎ (s.pt ≡ 8)) (map (with_codec net (some pt)) out)
  map-usable pt [] usable = tt
  map-usable pt (s ∷ out) usable = (with_codec-usable pt s usable, map-usable pt out usable)

  -- Whatever an answered leg's channel holds, at most two endpoints are taken from it, each with an
  -- address of at most 63 bytes and a port from 1 to 65535; and where the leg's own codec is PCMU
  -- or PCMA, every endpoint has one of these two payload types.
  pub negotiate-endpoints :
      (ans : Answer)
      → (length (negotiate net ans) ≤ 2)
        × All IsRoutable (negotiate net ans)
        × ((pt : ℕ)
            → ans.codec ≡ some pt
            → (pt ≡ 0) ⊎ (pt ≡ 8)
            → All (λ s. (s.pt ≡ 0) ⊎ (s.pt ≡ 8)) (negotiate net ans))
  unfolding negotiate
  negotiate-endpoints ans =
      let found =
        streams_or-AreRoutable _ _ (parsed-AreRoutable ans.remote_sdp)
          (fallback-AreRoutable ans.media_ip ans.media_port) in
      let (same, each) = map-AreRoutable ans.codec _ found.each in
      (rw same found.at_most_two, each, λ pt e usable. rw e (map-usable pt _ usable))
