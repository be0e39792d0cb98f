-- ===== src/App/Session/Ran.antt =====
-- Each call that the module of mod_siprec.c gets is answered, and is a run of the threads' steps.
use mod_siprec.Base.{
  Bool, Bytes, List, Option, [], codes, false, length, none, some, suc, true, ℕ, ◌∷◌, ◌≡◌,
}
use mod_siprec.App.{
  arg_handle, change_outcome, first_word, or_empty, pause_app, publish, resume_app, second_word,
  siprec_app, start_app, start_checked, start_outcome, start_with, start_words, stop_app,
  stop_outcome,
}
use mod_siprec.App.Session.{left, left_acts}
use mod_siprec.Direction.{Act, World}
use mod_siprec.Direction.Runs.{RanActs, change_direction-RanActs}
use mod_siprec.Leg.{Network}
use mod_siprec.Media.Attach.{Host}
use mod_siprec.Registry.{Registry}
use mod_siprec.Registry.Interleaving.{Reach, System, empty_system, stay}
use mod_siprec.Registry.Invariant.{empty-Inv}
use mod_siprec.Registry.Invariant.Steps.{Reach-Inv}
use mod_siprec.Registry.Runs.Drains.{Ran, RanTo}
use mod_siprec.Registry.Runs.Stops.{stop_recording_session_for_server-Ran}
use mod_siprec.Start.{Status}
use mod_siprec.Start.Metadata.{Call}
use mod_siprec.Start.Runs.{StartRan}
use mod_siprec.Start.Runs.Whole.{start_recording_session-Runs}
use mod_siprec.Start.Servers.{Globals}
use mod_siprec.Uri.{Refusal, uri_check}

module _ (split : Bytes → Option (List Bytes)) (R : Type 0) (world : World) (net : Network)
    (host : Host) (globals : Globals) (call : Call) {s : System}
    (path : Reach world.located empty_system s) where
  published-RanTo :
      (var : Bytes) (o : Option (Registry × Bytes))
      → Ran world.located s o
      → RanTo world.located s (left (publish var o))
  published-RanTo var none ran = tt
  published-RanTo var (some (g, outcome)) ran = ran

  started-Ran :
      (o : Option (Registry × Status))
      → StartRan world.located s o
      → Ran world.located s (start_outcome o)
  started-Ran none ran = tt
  started-Ran (some (g, status)) ran = ran

  module _ (vacant : (r : ℕ) → call.pool ≡ some r → s.reg.heap r ≡ none) where
    start_with-Ran :
        (why : Option Refusal) (handle : Bytes) (srs_uri : Option Bytes)
        → Ran world.located s (start_with R world net host globals call why handle srs_uri s.reg)
    start_with-Ran (some why) handle srs_uri = stay
    start_with-Ran none handle srs_uri = started-Ran _ (
        start_recording_session-Runs R world.located net host globals call s
          (Reach-Inv empty-Inv path) handle srs_uri vacant)

    start_checked-Ran :
        (handle : Bytes) (srs_uri : Option Bytes)
        → Ran world.located s (start_checked R world net host globals call handle srs_uri s.reg)
    start_checked-Ran handle none = start_with-Ran none handle none
    start_checked-Ran handle (some uri) = start_with-Ran (uri_check (some uri)) handle (some uri)

    start_words-Ran :
        (words : Option (List Bytes))
        → Ran world.located s (start_words split R world net host globals call words s.reg)
    start_words-Ran none = stay
    start_words-Ran (some words) =
        start_checked-Ran (or_empty (first_word (some words))) (second_word words)

    pub siprec_app-RanTo :
        (text : Bytes)
        → RanTo world.located s (left (siprec_app split R world net host globals call text s.reg))
    unfolding siprec_app start_app
    siprec_app-RanTo [] = stay
    siprec_app-RanTo (c ∷ text) =
        published-RanTo (codes "siprec_start_status") _ (start_words-Ran (split (c ∷ text)))

  changed-RanTo :
      (var : Bytes) (o : Option (Registry × List Act × Bool))
      → RanActs world s o
      → RanTo world.located s (left_acts (change_outcome var o))
  changed-RanTo var none ran = tt
  changed-RanTo var (some (g, acts, ok)) ran = ran

  pub pause_app-RanTo :
      (text : Bytes)
      → RanTo world.located s (left_acts (pause_app split R world net host globals call text s.reg))
  unfolding pause_app
  pause_app-RanTo text =
      changed-RanTo (codes "siprec_pause_status") _ (
        change_direction-RanActs world s globals.src_enabled call.uuid (arg_handle split text) true)

  pub resume_app-RanTo :
      (text : Bytes)
      → RanTo world.located s
          (left_acts (resume_app split R world net host globals call text s.reg))
  unfolding resume_app
  resume_app-RanTo text =
      changed-RanTo (codes "siprec_resume_status") _ (
        change_direction-RanActs world s globals.src_enabled call.uuid (arg_handle split text)
          false)

  stopped-Ran :
      (o : Option (Registry × Bool)) → Ran world.located s o → Ran world.located s (stop_outcome o)
  stopped-Ran none ran = tt
  stopped-Ran (some (g, stopped)) ran = ran

  pub stop_app-RanTo :
      (text : Bytes)
      → RanTo world.located s (left (stop_app split R world net host globals call text s.reg))
  unfolding stop_app
  stop_app-RanTo text = published-RanTo (codes "siprec_stop_status") _ (
      stopped-Ran _ (
        stop_recording_session_for_server-Ran world.located s (or_empty (arg_handle split text))
          call.uuid (suc (length s.reg.table))))
