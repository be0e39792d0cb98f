-- ===== src/Direction.antt =====
-- The pause and resume of a recording: `siprec_change_direction` of mod_siprec.c, with
-- `siprec_invite_set_direction` of siprec_invite.c and the gate of siprec_media.c. A result `none`
-- is the use of a freed recording, as in Registry.
pub mod Gate
pub mod Order
pub mod Runs
use mod_siprec.Base.{
  Bool, Bytes, List, Option, [], codes, false, if◌then◌else◌, leb, ltb, none, not, some, true, ℕ,
  ◌%◌, ◌&&◌, ◌++◌, ◌+◌, ◌-◌, ◌/◌, ◌==◌, ◌^◌, ◌∷◌,
}
use mod_siprec.Registry.{
  Recording, Registry, acquire_recording, recording_key, release_recording, write,
}
use mod_siprec.Leg.{append_sdp}
use mod_siprec.Media.{Ctx, Stream}

-- The loop of `siprec_media_set_paused` over the streams.
abbrev pub resume_stream : ℕ → Bool → Stream → Stream
resume_stream gap true s = record s {
  timestamp = (s.timestamp + gap) % 2 ^ 32;
  marker_pending = true;
}
resume_stream gap false s = s

-- `(uint32_t)((now - since) / (1000000 / SIPREC_G711_RATE))`: the times are signed and the quotient
-- is cut towards 0, so a clock that was set back gives a negative one, which the cast wraps.
unfoldable pub elapsed : ℕ → ℕ → ℕ
elapsed now since =
    if leb since now
    then (now - since) / (1000000 / 8000) % 2 ^ 32
    else (2 ^ 32 - (since - now) / (1000000 / 8000) % 2 ^ 32) % 2 ^ 32

-- `siprec_media_set_paused` at the time `now`, with the bug's flag SMBF_PAUSE.
unfoldable pub media_set_paused : {R : Type 0} → ℕ → Bool → Ctx R × Bool → Ctx R × Bool
unfolding elapsed
media_set_paused now paused (ctx, flag) =
    let gap = if ctx.paused_at == 0 then 0 else elapsed now ctx.paused_at in
    if not ctx.bug
    then (ctx, flag)
    else if paused
    then (record ctx { paused_at = if ctx.paused_at == 0 then now else ctx.paused_at }, true)
    else (
      record ctx {
        paused_at = 0;
        stream0 = resume_stream gap (ltb 0 ctx.stream_count) ctx.stream0;
        stream1 = resume_stream gap (ltb 1 ctx.stream_count) ctx.stream1;
      },
      false,
    )

-- What a change of direction does beyond the registry, in order: the gate of a recording's fork
-- shut or opened, and the re-INVITE on a leg, with the text that `rtp_append_audio_sdp` is set to
-- before it, if it is, and with `origination_audio_mode` at `inactive` or at `sendonly`.
pub data Act : Type 0 where
  gated : ℕ → Act
  opened : ℕ → Act
  offered : Bytes → Option Bytes → Bool → Act

-- The parts that FreeSWITCH decides: whether a leg's session still exists, whether a re-INVITE on
-- it succeeds, and whether a recording's bug is attached; and whether a recording has `separate`
-- set, which stays as its start set it.
pub record World : Type 0 where
  pub located : Bytes → Bool
  pub renegotiated : Bytes → Bool → Bool
  pub bug_of : ℕ → Bool
  pub separate_of : ℕ → Bool

module _ (world : World) where
  abbrev pub set_paused : ℕ → Bool → Recording → List Act
  set_paused r paused rec =
      if rec.forked && world.bug_of r then (if paused then gated r else opened r) ∷ [] else []

  abbrev pub direction_word : Bool → Bytes
  direction_word paused = if paused then codes "inactive" else codes "sendonly"

  -- In separate mode the first stream's direction is in the appended text, which is rewritten.
  abbrev pub rewritten : ℕ → Bool → Option Bytes
  rewritten r paused = if world.separate_of r then append_sdp true (direction_word paused) else none

  -- `siprec_invite_set_direction` on a leg that is set: the leg after it, what it did, its status.
  abbrev pub set_direction : ℕ → Bytes → Bool → Bytes × List Act × Bool
  set_direction r leg paused =
      if world.located leg
      then (leg, offered leg (rewritten r paused) paused ∷ [], world.renegotiated leg paused)
      else ([], [], false)

  -- What happens to a pinned recording, up to its release.
  abbrev pub redirect_leg : ℕ → Bool → Recording → Option Bytes → Recording × List Act × Bool
  redirect_leg r paused rec none = (rec, [], false)
  redirect_leg r paused rec (some []) = (rec, [], false)
  redirect_leg r paused rec (some (c ∷ leg)) =
      let (leg', acts, ok) = set_direction r (c ∷ leg) paused in
      (
        record rec { leg = some leg' },
        acts ++ (if ok && not paused then set_paused r false rec else []),
        ok,
      )

  abbrev pub redirect : ℕ → Bool → Recording → Recording × List Act × Bool
  redirect r paused rec =
      let (rec', acts, ok) = redirect_leg r paused rec rec.leg in
      (rec', (if paused then set_paused r true rec else []) ++ acts, ok)

  abbrev pub finish_change :
      List Act → Bool → Option (Registry × Bool) → Option (Registry × List Act × Bool)
  finish_change acts ok none = none
  finish_change acts ok (some (g, doomed)) = some (g, acts, ok)

  abbrev pub change_pinned :
      ℕ → Bool → Option Recording → Registry → Option (Registry × List Act × Bool)
  change_pinned r paused none g = none
  change_pinned r paused (some rec) g =
      let (rec', acts, ok) = redirect r paused rec in
      finish_change acts ok
        (release_recording world.located r (record g { heap = write g.heap r (some rec') }))

  abbrev pub change_acquired :
      Bool → Option (Registry × Option ℕ) → Option (Registry × List Act × Bool)
  change_acquired paused none = none
  change_acquired paused (some (g, none)) = some (g, [], false)
  change_acquired paused (some (g, some r)) = change_pinned r paused (g.heap r) g

  abbrev pub named_or_default : Option Bytes → Bytes
  named_or_default none = codes "default"
  named_or_default (some []) = codes "default"
  named_or_default (some (c ∷ name)) = c ∷ name

  -- The acts are in order; the last result is whether the status is success.
  unfoldable pub change_direction :
      Bool → Bytes → Option Bytes → Bool → Registry → Option (Registry × List Act × Bool)
  unfolding acquire_recording release_recording recording_key
  change_direction src_enabled uuid server_name paused g =
      if not paused && not src_enabled
      then some (g, [], false)
      else change_acquired paused
          (acquire_recording (recording_key (named_or_default server_name) uuid) g)
