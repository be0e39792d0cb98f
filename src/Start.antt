-- ===== src/Start.antt =====
-- `start_recording_session` of recording_session.c, from its gates to the release of its pin, with
-- the metadata, the INVITE and the fork that it composes. It runs whole, with no other thread
-- between its parts; Start.Finish is about its end after any steps of other threads.
pub mod Servers
pub mod Asked
pub mod Snapshot
pub mod Metadata
pub mod Giveup
pub mod Finish
pub mod Inserts
pub mod Frame
pub mod Outcome
pub mod Begin
pub mod Runs
use mod_siprec.Base.{
  Bool, Bytes, List, Option, [], codes, false, if◌then◌else◌, none, not, some, true, ℕ, ◌||◌, ◌∷◌,
}
use mod_siprec.Config.{Server}
use mod_siprec.Leg.{Network, send_failover}
use mod_siprec.Leg as Leg
use mod_siprec.Media as Media
use mod_siprec.Media.Attach.{Host, attach}
use mod_siprec.Metadata.Document.{metadata_build}
use mod_siprec.Start.Servers.{Globals, chain_for, separate_of}
use mod_siprec.Start.Metadata.{Call, Ids, metadata_ids, options_of, recording_aor}
use mod_siprec.Registry.{
  Insertion, Recording, Registry, bind, in_use, insert_recording, inserted, recording_key,
  release_recording, teardown_recording, write,
}
use mod_siprec.Registry.Discard.{discard_pending_recording}
use mod_siprec.Registry.Drain.{release_call_handler}
use mod_siprec.Registry.Interleaving.{equip}

-- SWITCH_STATUS_SUCCESS, SWITCH_STATUS_INUSE and SWITCH_STATUS_FALSE.
pub data Status : Type 0 where
  status_success : Status
  status_inuse : Status
  status_false : Status

-- How far the INVITE and the fork got.
pub data Dispatch (R : Type 0) : Type 0 where
  no_leg : Dispatch R
  leg_up : Leg.Ctx → Dispatch R
  forked : Leg.Ctx → Media.Ctx R → Dispatch R

module _ {R : Type 0} (net : Network) (host : Host) (call : Call) (separate : Bool)
    (chain : List Server) where
  abbrev pub with_fork : Leg.Ctx → Option (Media.Ctx R) → Dispatch R
  with_fork ctx none = leg_up ctx
  with_fork ctx (some media) = forked ctx media

  abbrev pub with_leg : Option Leg.Ctx → Dispatch R
  with_leg none = no_leg
  with_leg (some ctx) = with_fork ctx (attach host separate ctx.negotiated).0

  abbrev pub with_profile : Bytes → Option Bytes → Dispatch R
  with_profile body (some (c ∷ profile)) =
      with_leg (send_failover net separate (c ∷ profile) body chain)
  with_profile body _ = no_leg

  abbrev pub with_metadata : Option Bytes → Dispatch R
  with_metadata none = no_leg
  with_metadata (some body) = with_profile body (call.variable (codes "sofia_profile_name"))

  abbrev pub with_ids : Option Ids → Dispatch R
  with_ids none = no_leg
  with_ids (some ids) = with_metadata (metadata_build call.realloc (options_of call separate ids))

  -- From the derivation of the IDs to the attach.
  unfoldable pub dispatch : Dispatch R
  unfolding metadata_ids metadata_build recording_aor send_failover attach
  dispatch = with_ids (metadata_ids call)

module _ (located : Bytes → Bool) (r : ℕ) (uuid : Bytes) where
  abbrev pub released_handler : Option Registry → Option (Registry × Status)
  released_handler none = none
  released_handler (some g) = elim (release_call_handler located uuid g) [
    | none ↦ none
    | some g' ↦ some (g', status_false)
  ]

  -- `discard_pending_recording` and the return of SWITCH_STATUS_FALSE.
  unfoldable pub give_up : Registry → Option (Registry × Status)
  unfolding discard_pending_recording release_call_handler
  give_up g = released_handler (discard_pending_recording located r g)

  abbrev pub set_contexts : Option Recording → Bytes → Bool → Registry → Option Registry
  set_contexts none leg fork g = none
  set_contexts (some rec) leg fork g =
      some (record g { heap = write g.heap r (some (equip rec (some leg) (fork || rec.forked))) })

  abbrev pub give_up_leg : Option Registry → Option (Registry × Status)
  give_up_leg none = none
  give_up_leg (some g) = give_up g

  abbrev pub end_start : Option (Registry × Bool) → Option (Registry × Status)
  end_start none = none
  end_start (some (g, true)) = some (g, status_false)
  end_start (some (g, false)) = some (g, status_success)

  abbrev pub release_start : Option Registry → Option (Registry × Status)
  release_start none = none
  release_start (some g) = end_start (release_recording located r g)

  -- What the start does with its recording after the INVITE and the attach.
  unfoldable pub finish_start : {R : Type 0} → Dispatch R → Registry → Option (Registry × Status)
  unfolding give_up release_recording
  finish_start no_leg g = give_up g
  finish_start (leg_up ctx) g = give_up_leg (set_contexts (g.heap r) ctx.recording_uuid false g)
  finish_start (forked ctx media) g =
      release_start (set_contexts (g.heap r) ctx.recording_uuid true g)

module _ (R : Type 0) (located : Bytes → Bool) (net : Network) (host : Host) (globals : Globals)
    (call : Call) where
  -- The hangup handler is bound, and the INVITE goes out.
  abbrev pub start_bound : ℕ → Bool → List Server → Registry → Option (Registry × Status)
  start_bound r separate chain g =
      finish_start located r call.uuid (dispatch {R = R} net host call separate chain)
        (record g { effects = bind call.uuid ∷ g.effects })

  abbrev pub start_torn : ℕ → Bool → List Server → Option Registry → Option (Registry × Status)
  start_torn r separate chain none = none
  start_torn r separate chain (some g) = start_bound r separate chain g

  abbrev pub start_inserted :
      ℕ → Bool → List Server → Option (Registry × Insertion) → Option (Registry × Status)
  start_inserted r separate chain none = none
  start_inserted r separate chain (some (g, in_use)) = some (g, status_inuse)
  start_inserted r separate chain (some (g, inserted none)) = start_bound r separate chain g
  start_inserted r separate chain (some (g, inserted (some stale))) =
      start_torn r separate chain (teardown_recording located stale g)

  -- With the recording's pool, at the pointer `r`.
  abbrev pub start_resolved : ℕ → Bytes → List Server → Registry → Option (Registry × Status)
  start_resolved r handle [] g = some (g, status_false)
  start_resolved r handle (srv ∷ chain) g =
      start_inserted r (separate_of globals.separate_streams srv.separate_streams) (srv ∷ chain)
        (insert_recording r (recording_key handle call.uuid) call.uuid g)

  abbrev pub start_pooled : Option ℕ → Bytes → Option Bytes → Registry → Option (Registry × Status)
  start_pooled none handle srs_uri g = some (g, status_false)
  start_pooled (some r) handle srs_uri g =
      start_resolved r handle (chain_for globals handle srs_uri) g

  -- An empty name stands for NULL too.
  abbrev pub start_named : Bytes → Option Bytes → Registry → Option (Registry × Status)
  start_named [] srs_uri g = some (g, status_false)
  start_named (c ∷ handle) srs_uri g =
      if not call.media_ready
      then some (g, status_false)
      else start_pooled call.pool (c ∷ handle) srs_uri g

  -- The result is none where a freed recording is used.
  unfoldable pub start_recording_session :
      Bytes → Option Bytes → Registry → Option (Registry × Status)
  unfolding finish_start dispatch insert_recording teardown_recording recording_key chain_for
  start_recording_session handle srs_uri g =
      if not globals.src_enabled then some (g, status_false) else start_named handle srs_uri g
