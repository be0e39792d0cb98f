-- ===== src/Start/Begin.antt =====
-- The whole of a start of recording_session.c, from its gates.
use mod_siprec.Base.{
  Bool, Bool-cases, Bytes, List, Option, [], inl, inr, none, refl, some, true, ℕ, ◌∷◌, ◌≡◌, ◌≢◌,
}
use mod_siprec.Config.{Server}
use mod_siprec.Leg.{Network}
use mod_siprec.Media.Attach.{Host}
use mod_siprec.Registry.{Registry}
use mod_siprec.Registry.Interleaving.{Reach, System, empty_system}
use mod_siprec.Start.Servers.{Globals, chain_for}
use mod_siprec.Start.Asked.{Chosen, chain_for-Chosen}
use mod_siprec.Start.Metadata.{Call}
use mod_siprec.Start.{
  Status, start_named, start_pooled, start_recording_session, start_resolved, status_false,
}
use mod_siprec.Start.Outcome.{
  Begun, disabled, live-Begun, no_media, no_name, no_pool, no_server, refused, through_gate,
}

module _ (R : Type 0) {located : Bytes → Bool} (net : Network) (host : Host) (globals : Globals)
    (call : Call) {s : System} (path : Reach located empty_system s) where
  abbrev Starts : Bytes → Option Bytes → Option (Registry × Status) → Type 0
  Starts handle srs_uri out =
      (result : Registry × Status) × (out ≡ some result)
      × Begun R net host globals call path handle srs_uri result

  module _ (on : globals.src_enabled ≡ true) (up : call.media_ready ≡ true) where
    with_chain :
        (handle : Bytes) (srs_uri : Option Bytes) (r : ℕ) (chain : List Server)
        → call.pool ≡ some r
        → s.reg.heap r ≡ none
        → handle ≢ []
        → Chosen globals handle srs_uri chain
        → Starts handle srs_uri
            (start_resolved R located net host globals call r handle chain s.reg)
    with_chain handle srs_uri r [] pooled vacant named found =
        ((s.reg, status_false), refl, refused (no_server found))
    with_chain handle srs_uri r (srv ∷ chain) pooled vacant named found =
        live-Begun R net host globals call path handle srs_uri r srv chain
          (record { named = named; enabled = on; ready = up; pooled = pooled; served = found })
          vacant

    with_pool :
        (handle : Bytes) (srs_uri : Option Bytes) (o : Option ℕ)
        → handle ≢ []
        → call.pool ≡ o
        → ((r : ℕ) → call.pool ≡ some r → s.reg.heap r ≡ none)
        → Starts handle srs_uri
            (start_pooled R located net host globals call o handle srs_uri s.reg)
    with_pool handle srs_uri none named pooled vacant =
        ((s.reg, status_false), refl, refused (no_pool pooled))
    with_pool handle srs_uri (some r) named pooled vacant =
        with_chain handle srs_uri r (chain_for globals handle srs_uri) pooled (vacant r pooled)
          named (chain_for-Chosen globals handle srs_uri)

  with_name :
      globals.src_enabled ≡ true
      → (handle : Bytes) (srs_uri : Option Bytes)
      → ((r : ℕ) → call.pool ≡ some r → s.reg.heap r ≡ none)
      → Starts handle srs_uri (start_named R located net host globals call handle srs_uri s.reg)
  with_name on [] srs_uri vacant = ((s.reg, status_false), refl, refused (no_name refl))
  with_name on (c ∷ handle) srs_uri vacant = elim (Bool-cases call.media_ready) [
    | inl up ↦
        let (result, e, done) =
          with_pool on up (c ∷ handle) srs_uri call.pool (λ e. cc) refl vacant in
        (result, through_gate (some (s.reg, status_false)) up e, done)
    | inr off ↦ ((s.reg, status_false), rw off refl, refused (no_media off))
  ]

  -- A start that runs whole in a reachable state, with a memory pool that is not in use, comes to
  -- an end without a fault. Without a name, with SRC disabled, without media, pool or server it is
  -- refused, with nothing changed. Otherwise it reports a recording that is pinned or whose leg is
  -- not gone under its key, with nothing changed; or it fails with its recording freed; or it
  -- succeeds. Then the URI that it was given or a server that the configuration has under its name
  -- has answered the INVITE of the failover, which was made for as many streams as the first server
  -- or else the default asks for, with metadata that has as many; the attach for as many gave the
  -- fork; and the recording is in the table, unpinned, with its leg and its fork. Where it fails or
  -- succeeds, a recording that was under the key is freed.
  pub start_recording_session-Begun :
      (handle : Bytes) (srs_uri : Option Bytes)
      → ((r : ℕ) → call.pool ≡ some r → s.reg.heap r ≡ none)
      → (result : Registry × Status) × (start_recording_session R located net host globals call
            handle srs_uri s.reg
          ≡ some result)
        × Begun R net host globals call path handle srs_uri result
  unfolding start_recording_session
  start_recording_session-Begun handle srs_uri vacant = elim (Bool-cases globals.src_enabled) [
    | inl on ↦
        let (result, e, done) = with_name on handle srs_uri vacant in
        (result, through_gate (some (s.reg, status_false)) on e, done)
    | inr off ↦ ((s.reg, status_false), rw off refl, refused (disabled off))
  ]
