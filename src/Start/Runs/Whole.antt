-- ===== src/Start/Runs/Whole.antt =====
-- `start_recording_session` of recording_session.c as a run.
use mathlib.Core.Path.{subst}
use mod_siprec.Base.{
  Bool, Bytes, List, Option, [], if_elim, none, not, refl, some, sym, ℕ, ◌∷◌, ◌≡◌,
}
use mod_siprec.Config.{Server}
use mod_siprec.Leg.{Network}
use mod_siprec.Media.Attach.{Host}
use mod_siprec.Registry.{
  Insertion, Registry, bind, in_use, insert_recording, inserted, recording_key, teardown_recording,
}
use mod_siprec.Registry.Interleaving.{Reach, System, bump, go, handles, starts, stay}
use mod_siprec.Registry.Invariant.{Inv}
use mod_siprec.Registry.Invariant.Steps.{insert_recording-Safe}
use mod_siprec.Registry.Runs.{Runs, owner-Runs}
use mod_siprec.Start.{
  dispatch, start_bound, start_inserted, start_pooled, start_recording_session, start_resolved,
  start_torn,
}
use mod_siprec.Start.Metadata.{Call}
use mod_siprec.Start.Runs.{Held, StartRan, finish_start-Runs}
use mod_siprec.Start.Servers.{Globals, chain_for, separate_of}

module _ (R : Type 0) (located : Bytes → Bool) (net : Network) (host : Host) (globals : Globals)
    (call : Call) (s : System) (inv : Inv s) where
  start_bound-Runs :
      (r : ℕ) (separate : Bool) (chain : List Server) (g : Registry)
      → Held located s r call.uuid g
      → StartRan located s (start_bound R located net host globals call r separate chain g)
  start_bound-Runs r separate chain g path =
      finish_start-Runs located s r call.uuid (dispatch net host call separate chain) _
        (go path (handles (bind call.uuid)))

  start_torn-Runs :
      (r q : ℕ) (separate : Bool) (chain : List Server) (g : Registry)
      → Reach located s (record { reg = g; pins = bump s.pins r; claims = bump s.claims q })
      → (o : Option Registry) → teardown_recording located q g ≡ o
      → StartRan located s (start_torn R located net host globals call r separate chain o)
  start_torn-Runs r q separate chain g path none e = tt
  start_torn-Runs r q separate chain g path (some g') e =
      start_bound-Runs r separate chain g'
        (owner-Runs located {s = s} g g' (bump s.pins r) s.claims q path e)

  module _ (r : ℕ) (vacant : s.reg.heap r ≡ none) where
    start_inserted-Runs :
        (separate : Bool) (chain : List Server) (key uuid : Bytes)
        (o : Option (Registry × Insertion))
        → insert_recording r key uuid s.reg ≡ o
        → StartRan located s (start_inserted R located net host globals call r separate chain o)
    start_inserted-Runs separate chain key uuid none e = tt
    start_inserted-Runs separate chain key uuid (some (g, in_use)) e =
        let same : g ≡ s.reg = rw e at (insert_recording-Safe s inv r key uuid vacant) in
        subst (λ x. Runs located s x) (sym same) stay
    start_inserted-Runs separate chain key uuid (some (g, inserted none)) e =
        start_bound-Runs r separate chain g (go stay (starts r key uuid vacant e))
    start_inserted-Runs separate chain key uuid (some (g, inserted (some q))) e =
        start_torn-Runs r q separate chain g (go stay (starts r key uuid vacant e)) _ refl

    start_resolved-Runs :
        (handle : Bytes) (chain : List Server)
        → StartRan located s (start_resolved R located net host globals call r handle chain s.reg)
    start_resolved-Runs handle [] = stay
    start_resolved-Runs handle (srv ∷ chain) =
        start_inserted-Runs (separate_of globals.separate_streams srv.separate_streams)
          (srv ∷ chain) (recording_key handle call.uuid) call.uuid _ refl

  start_pooled-Runs :
      (handle : Bytes) (srs_uri : Option Bytes) (o : Option ℕ)
      → ((r : ℕ) → o ≡ some r → s.reg.heap r ≡ none)
      → StartRan located s (start_pooled R located net host globals call o handle srs_uri s.reg)
  start_pooled-Runs handle srs_uri none vacant = stay
  start_pooled-Runs handle srs_uri (some r) vacant =
      start_resolved-Runs r (vacant r refl) handle (chain_for globals handle srs_uri)

  -- A start that runs whole with a memory pool that is not in use is a run.
  pub start_recording_session-Runs :
      (handle : Bytes) (srs_uri : Option Bytes)
      → ((r : ℕ) → call.pool ≡ some r → s.reg.heap r ≡ none)
      → StartRan located s
          (start_recording_session R located net host globals call handle srs_uri s.reg)
  unfolding start_recording_session
  start_recording_session-Runs [] srs_uri vacant =
      if_elim (StartRan located s) (not globals.src_enabled) (λ _. stay) (λ _. stay)
  start_recording_session-Runs (c ∷ handle) srs_uri vacant =
      if_elim (StartRan located s) (not globals.src_enabled) (λ _. stay)
        (λ _.
          if_elim (StartRan located s) (not call.media_ready) (λ _. stay)
            (λ _. start_pooled-Runs (c ∷ handle) srs_uri call.pool vacant))
