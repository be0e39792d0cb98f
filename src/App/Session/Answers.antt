-- ===== src/App/Session/Answers.antt =====
-- Each call that the module of mod_siprec.c gets in a reachable state is answered.
use mod_siprec.Base.{
  Bool, Bool-cases, Bytes, List, Option, Option-cases, [], ap, arith, codes, false, inl, inr,
  length, lookup, none, not, refl, some, suc, true, ℕ, ◌&&◌, ◌∷◌, ◌≡◌,
}
use mod_siprec.App.{VarWrite, arg_handle, change_outcome, pause_app, resume_app}
use mod_siprec.App.Outcomes.{siprec_app-StartOutcome}
use mod_siprec.App.Stopping.{stop_app-StopOutcome}
use mod_siprec.App.Session.{
  Event, hangs_up, left, left_acts, leg_hangs_up, on_event, on_events, runs_pause, runs_resume,
  runs_siprec, runs_stop,
}
use mod_siprec.App.Session.Ran.{pause_app-RanTo, resume_app-RanTo, siprec_app-RanTo, stop_app-RanTo}
use mod_siprec.Direction.{Act, World, change_direction, named_or_default}
use mod_siprec.Direction.Order.{change_direction-Allowed}
use mod_siprec.Leg.{Network}
use mod_siprec.Media.Attach.{Host}
use mod_siprec.Registry.{
  Registry, acquire_recording, leg_on_hangup, recording_key, recording_leg_ended,
}
use mod_siprec.Registry.Drain.{on_hangup, stop_recording_session, stop_status}
use mod_siprec.Registry.Drain.Passes.{drain_recordings-retire_all}
use mod_siprec.Registry.Drain.Reference.{retire_all}
use mod_siprec.Registry.Interleaving.{Reach, System, empty_system}
use mod_siprec.Registry.Invariant.{empty-Inv}
use mod_siprec.Registry.Invariant.Steps.{Reach-Inv, Safe, recording_leg_ended-Safe}
use mod_siprec.Registry.Runs.{join}
use mod_siprec.Registry.Runs.Drains.{RanTo}
use mod_siprec.Registry.Runs.Stops.{leg_on_hangup-RanTo, on_hangup-RanTo}
use mod_siprec.Start.Servers.{Globals}

module _ (world : World) {s : System} (path : Reach world.located empty_system s) where
  -- A change of direction comes to an end, with a recording under the key or without one.
  change_direction-answers :
      (src_enabled : Bool) (uuid : Bytes) (name : Option Bytes) (paused : Bool)
      → (x : Registry × List Act × Bool) × (change_direction world src_enabled uuid name paused
            s.reg
          ≡ some x)
  change_direction-answers src_enabled uuid name paused =
      elim (Bool-cases (not paused && not src_enabled)) [
        | inl disabled ↦ ((s.reg, [], false), gated disabled)
        | inr enabled ↦ elim (Option-cases (lookup key s.reg.table)) [
          | inl missing ↦ ((s.reg, [], false), absent enabled missing)
          | inr (r, at_r) ↦
              let (rec, live, _) = (Reach-Inv empty-Inv path).keyed key r at_r in
              let (g, acts, ok, e, allowed) =
                change_direction-Allowed world src_enabled uuid name paused s.reg r rec at_r live
                  enabled in
              ((g, acts, ok), e)
        ]
      ]
    where
      key : Bytes
      key = recording_key (named_or_default world name) uuid

      gated :
          (not paused && not src_enabled) ≡ true
          → change_direction world src_enabled uuid name paused s.reg ≡ some (s.reg, [], false)
      gated e = unfold change_direction in rw e refl

      absent :
          (not paused && not src_enabled) ≡ false
          → lookup key s.reg.table ≡ none
          → change_direction world src_enabled uuid name paused s.reg ≡ some (s.reg, [], false)
      absent e missing = unfold change_direction acquire_recording in rw (e, missing) refl

-- An operation on the registry that answers.
abbrev Answers : Option Registry → Type 0
Answers o = (g : Registry) × (o ≡ some g)

left-Answers :
    (o : Option (Registry × List VarWrite)) (x : Registry × List VarWrite)
    → o ≡ some x
    → Answers (left o)
left-Answers o (g, writes) e = (g, ap left e)

acts-Answers :
    (var : Bytes) (o : Option (Registry × List Act × Bool)) (x : Registry × List Act × Bool)
    → o ≡ some x
    → Answers (left_acts (change_outcome var o))
acts-Answers var o (g, acts, ok) e = (g, ap (λ o. left_acts (change_outcome var o)) e)

marked-Answers :
    (P : Registry × Bool → Type 0) (o : Option (Registry × Bool))
    → Safe P o
    → Answers (elim o [ none ↦ none | some (g', marked) ↦ some g' ])
marked-Answers P none impossible = absurd impossible
marked-Answers P (some (g, marked)) safe = (g, refl)

module _ (split : Bytes → Option (List Bytes)) (R : Type 0) (world : World) (net : Network)
    (host : Host) (globals : Globals) (new_pool : Registry → Option ℕ)
    (fresh : (g : Registry) (r : ℕ) → new_pool g ≡ some r → g.heap r ≡ none) where
  module _ {s : System} (path : Reach world.located empty_system s) where
    hangup-Answers :
        (uuid : Bytes) → Answers (on_hangup world.located uuid (suc (length s.reg.table)) s.reg)
    unfolding on_hangup stop_recording_session
    hangup-Answers uuid =
        let e =
          drain_recordings-retire_all path (some uuid) false (suc (length s.reg.table))
            (omega arith) in
        (retire_all world.located (some uuid) false s.reg, ap (λ d. ignored (stop_status d)) e)
      where
        ignored : Option (Registry × Bool) → Option Registry
        ignored o = elim o [ none ↦ none | some (g', stopped) ↦ some g' ]

    leg-Answers :
        (key : Option Bytes) (leg_uuid : Bytes) → Answers (leg_on_hangup key leg_uuid s.reg)
    leg-Answers none leg_uuid = (s.reg, refl)
    leg-Answers (some key) leg_uuid =
        marked-Answers _ (recording_leg_ended key leg_uuid s.reg)
          (recording_leg_ended-Safe s (Reach-Inv empty-Inv path) key leg_uuid)

    on_event-Answers :
        (event : Event) → Answers (on_event split R world net host globals new_pool event s.reg)
    unfolding on_event pause_app resume_app
    on_event-Answers (runs_siprec call text) =
        let (out, e, done) =
          siprec_app-StartOutcome split R world net host globals
            (record call { pool = new_pool s.reg }) path text (fresh s.reg) in
        left-Answers _ out e
    on_event-Answers (runs_pause call text) =
        let (x, e) =
          change_direction-answers world path globals.src_enabled call.uuid (arg_handle split text)
            true in
        acts-Answers (codes "siprec_pause_status") _ x e
    on_event-Answers (runs_resume call text) =
        let (x, e) =
          change_direction-answers world path globals.src_enabled call.uuid (arg_handle split text)
            false in
        acts-Answers (codes "siprec_resume_status") _ x e
    on_event-Answers (runs_stop call text) =
        let (out, e, done) = stop_app-StopOutcome split R world net host globals call path text in
        left-Answers _ out e
    on_event-Answers (hangs_up uuid) = hangup-Answers uuid
    on_event-Answers (leg_hangs_up key leg_uuid) = leg-Answers key leg_uuid

    on_event-RanTo :
        (event : Event)
        → RanTo world.located s (on_event split R world net host globals new_pool event s.reg)
    unfolding on_event
    on_event-RanTo (runs_siprec call text) =
        siprec_app-RanTo split R world net host globals (record call { pool = new_pool s.reg }) path
          (fresh s.reg) text
    on_event-RanTo (runs_pause call text) =
        pause_app-RanTo split R world net host globals call path text
    on_event-RanTo (runs_resume call text) =
        resume_app-RanTo split R world net host globals call path text
    on_event-RanTo (runs_stop call text) =
        stop_app-RanTo split R world net host globals call path text
    on_event-RanTo (hangs_up uuid) = on_hangup-RanTo world.located s uuid (suc (length s.reg.table))
    on_event-RanTo (leg_hangs_up key leg_uuid) = leg_on_hangup-RanTo world.located s key leg_uuid

  -- Calls one after the other, from a state in which no thread holds anything.
  pub on_events-Reach :
      (events : List Event) (g : Registry)
      → Reach world.located empty_system (record empty_system { reg = g })
      → (g' : Registry) × (on_events split R world net host globals new_pool events g ≡ some g')
        × Reach world.located empty_system (record empty_system { reg = g' })
  unfolding on_events
  on_events-Reach [] g path = (g, refl, path)
  on_events-Reach (event ∷ events) g path =
      let (g1, e) = on_event-Answers path event in
      let step = rw e at (on_event-RanTo path event) in
      let (g2, e2, path2) = on_events-Reach events g1 (join world.located path step) in
      (g2, rw e e2, path2)
