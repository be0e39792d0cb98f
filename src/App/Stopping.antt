-- ===== src/App/Stopping.antt =====
-- What the stop application of mod_siprec.c publishes.
use mod_siprec.Base.{
  Bool, Bytes, List, Option, [], ap, arith, codes, false, inl, inr, length, ltb, none, refl, some,
  suc, true, ℕ, ◌∷◌, ◌≡◌, ◌⊎◌,
}
use mod_siprec.App.{
  VarWrite, arg_handle, first_word, or_empty, publish, stop_app, stop_outcome, stop_word,
}
use mod_siprec.Direction.{World}
use mod_siprec.Leg.{Network}
use mod_siprec.Media.Attach.{Host}
use mod_siprec.Registry.{Registry, recording_key}
use mod_siprec.Registry.Drain.{stop_recording_session_for_server}
use mod_siprec.Registry.Drain.Ends.{
  Named, stop_recording_session_for_server-Named, stop_recording_session_for_server-all,
}
use mod_siprec.Registry.Drain.Reference.{hits}
use mod_siprec.Registry.Interleaving.{Reach, System, empty_system}
use mod_siprec.Start.Metadata.{Call}
use mod_siprec.Start.Servers.{Globals}
use mod_siprec.App.Outcomes.{Unnamed, empty_word, no_word, published, unsplit}

-- The words for what a stop comes to.
pub data StopWord : Bool → Bytes → Type 0 where
  ceased : StopWord true (codes "success")
  nothing : StopWord false (codes "no_recording")

stop_word-StopWord : (stopped : Bool) → StopWord stopped (stop_word stopped)
stop_word-StopWord true = ceased
stop_word-StopWord false = nothing

module _ (split : Bytes → Option (List Bytes)) (R : Type 0) (world : World) (net : Network)
    (host : Host) (globals : Globals) (call : Call) {s : System}
    (path : Reach world.located empty_system s) where
  -- What the siprec_stop application comes to.
  pub data StopOutcome (text : Bytes) : Registry × List VarWrite → Type 0 where
    whole_call :
        (outcome : Bytes) {g : Registry}
        → (text ≡ []) ⊎ Unnamed (split text)
        → hits (some call.uuid) g.heap g.table ≡ []
        → StopWord (ltb 0 (length (hits (some call.uuid) s.reg.heap s.reg.table))) outcome
        → StopOutcome text (g, published (codes "siprec_stop_status") outcome)
    under_name :
        (c : ℕ) (handle : Bytes) (words : List Bytes) (outcome : Bytes) {g : Registry}
        {stopped : Bool}
        → split text ≡ some ((c ∷ handle) ∷ words)
        → Named path call.uuid (recording_key (c ∷ handle) call.uuid) (g, stopped)
        → StopWord stopped outcome
        → StopOutcome text (g, published (codes "siprec_stop_status") outcome)

  abbrev StopOutcomes : Bytes → Option Bytes → Type 0
  StopOutcomes text handle =
      (out : Registry × List VarWrite) × (publish (codes "siprec_stop_status") (
          stop_outcome (
            stop_recording_session_for_server world.located (or_empty handle) call.uuid
              (suc (length s.reg.table)) s.reg))
        ≡ some out)
      × StopOutcome text out

  stopped_all : (text : Bytes) → (text ≡ []) ⊎ Unnamed (split text) → StopOutcomes text none
  stopped_all text none_there =
      let (stop, none_left) =
        stop_recording_session_for_server-all path call.uuid (suc (length s.reg.table))
          (omega arith) in
      (
        _,
        ap (λ o. publish (codes "siprec_stop_status") (stop_outcome o)) stop,
        whole_call _ none_there none_left (stop_word-StopWord _),
      )

  stopped_by :
      (text : Bytes) (o : Option (List Bytes)) → split text ≡ o → StopOutcomes text (first_word o)
  stopped_by text none read = stopped_all text (inr (rw read unsplit))
  stopped_by text (some []) read = stopped_all text (inr (rw read no_word))
  stopped_by text (some ([] ∷ words)) read = stopped_all text (inr (rw read (empty_word words)))
  stopped_by text (some ((c ∷ handle) ∷ words)) read =
      let ((g, stopped), stop, named) =
        stop_recording_session_for_server-Named path c handle call.uuid
          (suc (length s.reg.table)) in
      (
        (g, published (codes "siprec_stop_status") (stop_word stopped)),
        ap (λ o. publish (codes "siprec_stop_status") (stop_outcome o)) stop,
        under_name c handle words (stop_word stopped) read named (stop_word-StopWord stopped),
      )

  -- In a reachable state, the siprec_stop application comes to an end without a fault; it clears
  -- its variable, sets it to one outcome, and sets the application's response to the same. Without
  -- a handle as the first word of its argument, no recording of the call is left in the table, and
  -- the outcome is "success" if there was one and "no_recording" otherwise. With a handle, it is
  -- "success" if a recording was under its key, which is stopped, and "no_recording" otherwise, with
  -- nothing changed.
  pub stop_app-StopOutcome :
      (text : Bytes)
      → (out : Registry × List VarWrite) × (stop_app split R world net host globals call text s.reg
          ≡ some out)
        × StopOutcome text out
  unfolding stop_app arg_handle
  stop_app-StopOutcome [] = stopped_all [] (inl refl)
  stop_app-StopOutcome (c ∷ text) = stopped_by (c ∷ text) (split (c ∷ text)) refl
