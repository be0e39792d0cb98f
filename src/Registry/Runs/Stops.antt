-- ===== src/Registry/Runs/Stops.antt =====
-- The stops and hangups of recording_session.c and siprec_invite.c as runs of steps.
use mod_siprec.Base.{Bool, Bytes, Option, [], false, none, refl, some, true, ℕ, ◌∷◌, ◌≡◌}
use mod_siprec.Registry.{Registry, leg_on_hangup, recording_key, recording_leg_ended}
use mod_siprec.Registry.Drain.{
  Drained, drain_recordings, drained, faulted, on_hangup, out_of_fuel, release_call_handler,
  release_found, stop_recording_session, stop_recording_session_for_server, stop_status,
  then_release,
}
use mod_siprec.Registry.Interleaving.{System, go, leg_ends, stay}
use mod_siprec.Registry.Runs.{Runs, join}
use mod_siprec.Registry.Runs.Drains.{
  DrainRan, Ran, RanTo, drain_passes-Ran, finish_stop-Ran, release_call_handler-Runs,
}
use mod_siprec.Registry.Stop.{stop_for_server}

module _ (located : Bytes → Bool) (s : System) where
  status-Ran : (d : Drained) → DrainRan located s d → Ran located s (stop_status d)
  status-Ran (drained g n) ran = ran
  status-Ran faulted ran = tt
  status-Ran out_of_fuel ran = tt

  stop_recording_session-Ran :
      (uuid : Bytes) (fuel : ℕ) → Ran located s (stop_recording_session located uuid fuel s.reg)
  unfolding stop_recording_session
  stop_recording_session-Ran uuid fuel =
      status-Ran (drain_recordings located (some uuid) false fuel s.reg)
        (drain_passes-Ran located (some uuid) false fuel s 0)

  pub on_hangup-RanTo :
      (uuid : Bytes) (fuel : ℕ) → RanTo located s (on_hangup located uuid fuel s.reg)
  unfolding on_hangup
  on_hangup-RanTo uuid fuel =
      ignored (stop_recording_session located uuid fuel s.reg)
        (stop_recording_session-Ran uuid fuel)
    where
      ignored :
          (o : Option (Registry × Bool))
          → Ran located s o
          → RanTo located s (elim o [ none ↦ none | some (g', stopped) ↦ some g' ])
      ignored none ran = tt
      ignored (some (g, b)) ran = ran

  released-Ran :
      (uuid : Bytes) {g : Registry} (found : Bool)
      → Runs located s g
      → Ran located s (then_release located uuid (some (g, found)))
  released-Ran uuid {g} found ran =
      after (release_call_handler located uuid g)
        (release_call_handler-Runs located (record s { reg = g }) uuid)
    where
      after :
          (o : Option Registry)
          → RanTo located (record s { reg = g }) o
          → Ran located s (elim o [ none ↦ none | some g' ↦ some (g', found) ])
      after none rest = tt
      after (some g') rest = join located ran rest

  then_release-Ran :
      (uuid : Bytes) (o : Option (Registry × Bool))
      → Ran located s o
      → Ran located s (then_release located uuid o)
  then_release-Ran uuid none ran = tt
  then_release-Ran uuid (some (g, found)) ran = released-Ran uuid found ran

  release_found-Ran :
      (uuid : Bytes) (o : Option (Registry × Bool))
      → Ran located s o
      → Ran located s (release_found located uuid o)
  release_found-Ran uuid none ran = tt
  release_found-Ran uuid (some (g, false)) ran = ran
  release_found-Ran uuid (some (g, true)) ran = released-Ran uuid true ran

  -- Every stop of a call's recordings is a run.
  pub stop_recording_session_for_server-Ran :
      (server_name uuid : Bytes) (fuel : ℕ)
      → Ran located s (stop_recording_session_for_server located server_name uuid fuel s.reg)
  unfolding stop_recording_session_for_server stop_for_server
  stop_recording_session_for_server-Ran [] uuid fuel =
      then_release-Ran uuid (stop_recording_session located uuid fuel s.reg)
        (stop_recording_session-Ran uuid fuel)
  stop_recording_session_for_server-Ran (c ∷ server_name) uuid fuel =
      release_found-Ran uuid (stop_for_server located (c ∷ server_name) uuid s.reg)
        (finish_stop-Ran located s (recording_key (c ∷ server_name) uuid) _ refl)

  marked-RanTo :
      (key leg_uuid : Bytes) (o : Option (Registry × Bool))
      → recording_leg_ended key leg_uuid s.reg ≡ o
      → RanTo located s (elim o [ none ↦ none | some (g', marked) ↦ some g' ])
  marked-RanTo key leg_uuid none e = tt
  marked-RanTo key leg_uuid (some (g, marked)) e = go stay (leg_ends key leg_uuid e)

  pub leg_on_hangup-RanTo :
      (key : Option Bytes) (leg_uuid : Bytes) → RanTo located s (leg_on_hangup key leg_uuid s.reg)
  leg_on_hangup-RanTo none leg_uuid = stay
  leg_on_hangup-RanTo (some key) leg_uuid = marked-RanTo key leg_uuid _ refl
