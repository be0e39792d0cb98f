-- ===== src/Leg.antt =====
-- The INVITE of a recording leg and its failover: siprec_invite.c. What FreeSWITCH and libc do is
-- a parameter: `switch_ivr_originate` with what the answered leg's channel then holds, `sscanf`,
-- `strtol`, and the text that `%d` prints.
pub mod Failover
pub mod Endpoints
use mod_siprec.Base.{
  Bool, Bytes, List, Option, [], codes, equal_nocase, false, if◌then◌else◌, leb, length, ltb, map,
  none, not, some, suc, take, zero, ℕ, ◌&&◌, ◌++◌, ◌==◌, ◌||◌, ◌∷◌,
}
use mod_siprec.Config.{Server}
use mod_siprec.Sdp.{Negotiated, Sscanf, parse_remote_streams, pt_unset, separate_append}

-- An answered leg: its uuid and the variables of its channel, and the payload type of its codec.
pub record Answer : Type 0 where
  pub uuid : Bytes
  pub remote_sdp : Option Bytes
  pub media_ip : Option Bytes
  pub media_port : Option Bytes
  pub codec : Option ℕ

-- The call of the dial string is with the offer text of `rtp_append_audio_sdp` and the value of
-- `sip_multipart`.
pub record Network : Type 0 where
  pub originate : Bytes → Bytes → Bytes → Option Answer
  pub sscanf : Sscanf
  pub strtol : Bytes → Bool × ℕ × Bytes
  pub decimal : ℕ → Bytes

-- `siprec_invite_ctx_t`
pub record Ctx : Type 0 where
  pub recording_uuid : Bytes
  pub negotiated : List Negotiated

-- `siprec_invite_append_sdp` into 256 bytes.
unfoldable pub append_sdp : Bool → Bytes → Option Bytes
unfolding separate_append
append_sdp separate direction =
    if not separate then some (codes "a=label:1") else elim (separate_append direction) [
      | none ↦ none
      | some text ↦ if ltb (length text) 256 then some text else none
    ]

-- `multipart_value`
abbrev pub multipart_value : Bytes → Bytes → Bytes → Bytes
multipart_value content_type disposition body =
    content_type ++ (codes ":~Content-Disposition: " ++ (disposition ++ (codes "\r\n\r\n" ++ body)))

abbrev pub dial_prefix : Bytes
dial_prefix =
    codes
      "{ignore_early_media=true,hangup_after_bridge=false,media_timeout=0,media_hold_timeout=0,rtp_timeout_sec=0,rtp_hold_timeout_sec=0,absolute_codec_string='PCMU,PCMA'}sofia/"

abbrev pub dial_string : Bytes → Bytes → Bytes
dial_string profile uri = dial_prefix ++ (profile ++ (b'/' ∷ uri))

module _ (net : Network) where
  -- The endpoint of `remote_media_ip` and `remote_media_port`.
  abbrev pub endpoint_of : Bytes → Bool × ℕ × Bytes → List Negotiated
  endpoint_of ip (negative, magnitude, _ ∷ _) = []
  endpoint_of ip (negative, magnitude, []) =
      if not negative && ltb 0 magnitude && leb magnitude 65535
      then record { remote_ip = take 63 ip; remote_port = magnitude; pt = pt_unset; mline = 0 } ∷ []
      else []

  abbrev pub fallback : Option Bytes → Option Bytes → List Negotiated
  fallback (some (c ∷ ip)) (some (d ∷ port)) = endpoint_of (c ∷ ip) (net.strtol (d ∷ port))
  fallback _ _ = []

  abbrev pub parsed : Option Bytes → List Negotiated
  parsed none = []
  parsed (some []) = []
  parsed (some (c ∷ sdp)) = parse_remote_streams net.sscanf 2 (some (c ∷ sdp))

  abbrev pub usable_pt : ℕ → Bool
  usable_pt pt = pt == 0 || pt == 8

  -- A stream without a usable payload type takes the leg's own, if that is usable.
  abbrev pub with_codec : Option ℕ → Negotiated → Negotiated
  with_codec none s = s
  with_codec (some leg_pt) s =
      if not (usable_pt s.pt) && usable_pt leg_pt then record s { pt = leg_pt } else s

  abbrev pub streams_or : List Negotiated → List Negotiated → List Negotiated
  streams_or [] other = other
  streams_or (s ∷ streams) other = s ∷ streams

  unfoldable pub negotiate : Answer → List Negotiated
  unfolding parse_remote_streams
  negotiate ans =
      map (with_codec ans.codec)
        (streams_or (parsed ans.remote_sdp) (fallback ans.media_ip ans.media_port))

  abbrev pub answered : Option Answer → Option Ctx
  answered none = none
  answered (some ans) = some (record { recording_uuid = ans.uuid; negotiated = negotiate ans })

  -- `siprec_invite_send` with arguments that are not NULL, into a dial string of 512 bytes.
  unfoldable pub invite_send : Bool → Bytes → Bytes → Bytes → Option Ctx
  unfolding append_sdp negotiate
  invite_send separate profile uri metadata = elim (append_sdp separate (codes "sendonly")) [
    | none ↦ none
    | some text ↦
        if leb 512 (length (dial_string profile uri))
        then none
        else answered (
            net.originate (dial_string profile uri) text (
              multipart_value (codes "application/rs-metadata+xml") (codes "recording-session")
                metadata))
  ]

  abbrev pub port_or_default : Option ℕ → ℕ
  port_or_default none = 5060
  port_or_default (some p) = if ltb 0 p then p else 5060

  abbrev pub transport_is : Bytes → Option Bytes → Bool
  transport_is word none = false
  transport_is word (some t) = equal_nocase word t

  abbrev pub hosted_uri : Server → Option Bytes → Option Bytes
  hosted_uri srv none = none
  hosted_uri srv (some host) =
      let at_port = host ++ (b':' ∷ net.decimal (port_or_default srv.port)) in
      if transport_is (codes "tls") srv.transport
      then some (take 255 (codes "sips:" ++ (at_port ++ codes ";transport=tls")))
      else if transport_is (codes "tcp") srv.transport
      then some (take 255 (codes "sip:" ++ (at_port ++ codes ";transport=tcp")))
      else some (take 255 (codes "sip:" ++ at_port))

  abbrev pub given_uri : Server → Option Bytes → Option Bytes
  given_uri srv (some (c ∷ uri)) = some (c ∷ uri)
  given_uri srv _ = hosted_uri srv srv.host

  -- `siprec_uri_for`
  unfoldable pub uri_for : Server → Option Bytes
  uri_for srv = given_uri srv srv.uri

  -- One candidate of the walk.
  abbrev pub try_server : Bool → Bytes → Bytes → Option Bytes → Option Ctx
  try_server separate profile metadata none = none
  try_server separate profile metadata (some uri) = invite_send separate profile uri metadata

  abbrev pub first_of : Option Ctx → Option Ctx → Option Ctx
  first_of (some ctx) later = some ctx
  first_of none later = later

  -- The loop of `siprec_invite_send_failover`, with the attempts that are left.
  unfoldable pub walk : ℕ → Bool → Bytes → Bytes → List Server → Option Ctx
  unfolding uri_for invite_send
  walk zero separate profile metadata chain = none
  walk (suc attempts) separate profile metadata [] = none
  walk (suc attempts) separate profile metadata (srv ∷ chain) =
      first_of (try_server separate profile metadata (uri_for srv))
        (walk attempts separate profile metadata chain)

  unfoldable pub send_failover : Bool → Bytes → Bytes → List Server → Option Ctx
  unfolding walk
  send_failover separate profile metadata chain = walk 16 separate profile metadata chain
