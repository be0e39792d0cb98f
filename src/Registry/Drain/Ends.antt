-- ===== src/Registry/Drain/Ends.antt =====
-- How the commands of recording_session.c that drain the table, or release a call's hangup
-- handler, come to an end.
use mod_siprec.Base.{
  Bool, Bool-cases, Bytes, Option-cases, [], ap, arith, false, inl, inr, length, lookup, ltb, none,
  refl, some, sym, true, ℕ, ◌<◌, ◌∙◌, ◌∷◌, ◌≡◌, ◌≢◌,
}
use mod_siprec.Registry.{Recording, Registry, claim_recording, recording_key}
use mod_siprec.Registry.Stop.{stop_for_server}
use mod_siprec.Registry.Drain.{
  drained, release_call_handler, stop_recording_session, stop_recording_session_for_server,
  teardown_all_recordings, unbind_call_handler,
}
use mod_siprec.Registry.Drain.Batches.{retire_all-Inv, stop_one-lem, stopped_registry}
use mod_siprec.Registry.Drain.Heads.{Inv-Owns}
use mod_siprec.Registry.Drain.Passes.{drain_recordings-retire_all}
use mod_siprec.Registry.Drain.Reference.{hits, kept, retire_all, retired, retired_heap}
use mod_siprec.Registry.Interleaving.{Reach, System, empty_system}
use mod_siprec.Registry.Invariant.{Inv, empty-Inv}
use mod_siprec.Registry.Invariant.Steps.{Reach-Inv}
use mod_siprec.Registry.Drain.Release.{
  kept-none, length-hits-none, length-zero, release-lem, retired_heap-entry, stop_for_server-one,
  then_release-lem,
}

module _ {located : Bytes → Bool} {s : System} (path : Reach located empty_system s) where
  open s.reg use {table, heap}

  reached : Inv s
  reached = Reach-Inv empty-Inv path

  -- In a reachable state, the teardown of all recordings at unload, with more fuel than the table
  -- has entries, comes to an end without a fault and empties the table; it counts all recordings
  -- of the table, and dooms those that are pinned and frees the others.
  pub teardown_all_recordings-empty :
      (fuel : ℕ)
      → length table < fuel
      → (g : Registry) × (teardown_all_recordings located fuel s.reg ≡ drained g (length table))
        × (g.table ≡ [])
        × ((k : Bytes) (r : ℕ) (rec : Recording)
            → lookup k table ≡ some r
            → heap r ≡ some rec
            → g.heap r ≡ retired rec)
  unfolding teardown_all_recordings
  teardown_all_recordings-empty fuel lt =
      let owns = Inv-Owns s reached in
      (
        retire_all located none true s.reg,
        drain_recordings-retire_all path none true fuel lt
            ∙ ap (drained (retire_all located none true s.reg)) (length-hits-none heap table owns),
        kept-none heap table owns,
        λ k r rec at_r live. retired_heap-entry heap table k r rec owns at_r live,
      )

  -- In a reachable state, a stop without a server name, with more fuel than the table has entries,
  -- comes to an end without a fault: it stops all recordings of the call at once, and none of
  -- another call, leaves none of the call in the table, unbinds the hangup handler of the call, and
  -- succeeds if there was a recording of the call.
  pub stop_recording_session_for_server-all :
      (uuid : Bytes) (fuel : ℕ)
      → length table < fuel
      → (stop_recording_session_for_server located [] uuid fuel s.reg
          ≡ some (
            unbind_call_handler located uuid (retire_all located (some uuid) false s.reg),
            ltb 0 (length (hits (some uuid) heap table)),
          ))
        × (hits (some uuid) (retired_heap (some uuid) heap table) (kept (some uuid) heap table)
            ≡ [])
  unfolding stop_recording_session_for_server stop_recording_session
  stop_recording_session_for_server-all uuid fuel lt =
      let (t, inv, same, none_left) = retire_all-Inv located false (some uuid) s reached in
      let e = drain_recordings-retire_all path (some uuid) false fuel lt in
      let gone : hits (some uuid) (retired_heap (some uuid) heap table)
            (kept (some uuid) heap table)
          ≡ [] =
        ap (λ g. hits (some uuid) g.heap g.table) (sym same) ∙ none_left in
      let none_listed : release_call_handler located uuid t.reg
          ≡ some (unbind_call_handler located uuid t.reg) =
        rw none_left at (release-lem located uuid t inv) in
      let released : release_call_handler located uuid (retire_all located (some uuid) false s.reg)
          ≡ some (unbind_call_handler located uuid (retire_all located (some uuid) false s.reg)) =
        rw same at none_listed in
      (
        rw e (
            then_release-lem located uuid (retire_all located (some uuid) false s.reg)
              (unbind_call_handler located uuid (retire_all located (some uuid) false s.reg))
              (ltb 0 (length (hits (some uuid) heap table))) released),
        gone,
      )

  -- What a stop under a server name comes to: nothing is under the key; or the recording there is
  -- stopped, and other recordings of the call keep its hangup handler; or it was the last one.
  pub data Named (uuid key : Bytes) : Registry × Bool → Type 0 where
    no_recording : lookup key table ≡ none → Named uuid key (s.reg, false)
    others_left :
        (r : ℕ) (rec : Recording) {g : Registry}
        → lookup key table ≡ some r
        → heap r ≡ some rec
        → g ≡ stopped_registry located false r rec s.reg
        → hits (some uuid) g.heap g.table ≢ []
        → Named uuid key (g, true)
    last_one :
        (r : ℕ) (rec : Recording) {g : Registry}
        → lookup key table ≡ some r
        → heap r ≡ some rec
        → g ≡ stopped_registry located false r rec s.reg
        → hits (some uuid) g.heap g.table ≡ []
        → Named uuid key (unbind_call_handler located uuid g, true)

  absent_stop :
      (server_name uuid : Bytes)
      → lookup (recording_key server_name uuid) table ≡ none
      → stop_for_server located server_name uuid s.reg ≡ some (s.reg, false)
  unfolding stop_for_server claim_recording
  absent_stop server_name uuid missing = rw missing refl

  -- In a reachable state, a stop under a server's name comes to an end without a fault. Where
  -- nothing is under the key, it fails and changes nothing; otherwise it succeeds, the recording
  -- there alone is stopped, and the call's hangup handler is unbound if and only if no other
  -- recording of the call is left in the table.
  pub stop_recording_session_for_server-Named :
      (c : ℕ) (server_name uuid : Bytes) (fuel : ℕ)
      → (result : Registry × Bool) × (stop_recording_session_for_server located
            (c ∷ server_name)
            uuid
            fuel
            s.reg
          ≡ some result)
        × Named uuid (recording_key (c ∷ server_name) uuid) result
  unfolding stop_recording_session_for_server
  stop_recording_session_for_server-Named c server_name uuid fuel =
      let key = recording_key (c ∷ server_name) uuid in
      elim (Option-cases (lookup key table)) [
        | inl missing ↦
            let e = absent_stop (c ∷ server_name) uuid missing in
            ((s.reg, false), rw e refl, no_recording missing)
        | inr (r, at_r) ↦
            let (rec, live, at_key) = reached.keyed key r at_r in
            let (stop, (pins, claims, inv)) =
              stop_one-lem located false s reached r rec (rw at_key at_r) live in
            let g = stopped_registry located false r rec s.reg in
            let t : System = record { reg = g; pins = pins; claims = claims } in
            let e : stop_for_server located (c ∷ server_name) uuid s.reg ≡ some (g, true) =
              stop_for_server-one located (c ∷ server_name) uuid rec.uuid s.reg
              ∙ rw (← at_key) stop in
            let released = release-lem located uuid t inv in
            elim (Bool-cases (ltb 0 (length (hits (some uuid) g.heap g.table)))) [
              | inl more ↦ (
                (g, true),
                rw e (then_release-lem located uuid g g true (rw more at released)),
                others_left r rec at_r live refl
                    (λ none_left. let e' = rw none_left at more in absurd (ground arith)),
              )
              | inr last ↦ (
                (unbind_call_handler located uuid g, true),
                rw e (
                    then_release-lem located uuid g (unbind_call_handler located uuid g) true
                      (rw last at released)),
                last_one r rec at_r live refl (length-zero _ last),
              )
            ]
      ]
