-- ===== src/Registry/Stop.antt =====
-- The stop of one recording by its server's name, in recording_session.c.
use mod_siprec.Base.{
  ==_refl, Bool, Bool-cases, Bytes, List, Option, Option-cases, arith, delete, equal_refl, false,
  inl, inr, lookup, lookup-delete, ltb, ltb→lt, none, refl, some, true, ℕ, ◌<◌, ◌∷◌, ◌≡◌,
}
use mod_siprec.Registry.{
  Recording, Registry, bye_effect, claim_recording, detach_effect, free, recording_key,
  teardown_recording,
}
use mod_siprec.Registry.Interleaving.{Reach, System, empty_system}
use mod_siprec.Registry.Invariant.{empty-Inv}
use mod_siprec.Registry.Invariant.Steps.{Reach-Inv}

abbrev pub finish_stop :
    (Bytes → Bool) → Option (Registry × Option ℕ × Bool) → Option (Registry × Bool)
finish_stop located none = none
finish_stop located (some (g, none, found)) = some (g, found)
finish_stop located (some (g, some r, found)) = elim (teardown_recording located r g) [
  | none ↦ none
  | some g' ↦ some (g', found)
]

-- `stop_recording_session_for_server` with a server name, up to the release of the call's handler;
-- the result says whether a recording was stopped.
unfoldable pub stop_for_server :
    (Bytes → Bool) → Bytes → Bytes → Registry → Option (Registry × Bool)
unfolding claim_recording teardown_recording recording_key
stop_for_server located server_name uuid g =
    finish_stop located (claim_recording (recording_key server_name uuid) g)

-- What a stop under `key` may come to.
pub data Stopped (located : Bytes → Bool) (key : Bytes) (g : Registry)
    : Registry × Bool → Type 0 where
  not_there : lookup key g.table ≡ none → Stopped located key g (g, false)
  torn_down :
      (r : ℕ) (rec : Recording) {g' : Registry}
      → lookup key g.table ≡ some r
      → g.heap r ≡ some rec
      → rec.use_count ≡ 0
      → lookup key g'.table ≡ none
      → g'.heap r ≡ none
      → g'.effects ≡ free r ∷ bye_effect located rec.leg (detach_effect r rec g.effects)
      → Stopped located key g (g', true)
  deferred :
      (r : ℕ) (rec : Recording) {g' : Registry}
      → lookup key g.table ≡ some r
      → g.heap r ≡ some rec
      → 0 < rec.use_count
      → lookup key g'.table ≡ none
      → g'.heap r ≡ some (record rec { doomed = true })
      → g'.effects ≡ g.effects
      → Stopped located key g (g', true)

gone : (key : Bytes) (table : List (Bytes × ℕ)) → lookup key (delete key table) ≡ none
gone key table = rw (lookup-delete key key table, equal_refl key) refl

module _ (located : Bytes → Bool) (server_name uuid : Bytes) (g : Registry) where
  entry-Stopped :
      (r : ℕ) (rec : Recording)
      → lookup (recording_key server_name uuid) g.table ≡ some r
      → g.heap r ≡ some rec
      → (result : Registry × Bool) × (stop_for_server located server_name uuid g ≡ some result)
        × Stopped located (recording_key server_name uuid) g result
  unfolding stop_for_server claim_recording teardown_recording
  entry-Stopped r rec at_r live =
      let key = recording_key server_name uuid in
      elim (Bool-cases (ltb 0 rec.use_count)) [
        | inl pinned ↦
            rw (at_r, live, pinned)
              (
                _,
                refl,
                deferred r rec at_r live (ltb→lt 0 rec.use_count pinned) (gone key g.table)
                    (rw (==_refl r) refl) refl,
              )
        | inr idle ↦
            rw (at_r, live, idle, finish_stop, live)
              (
                _,
                refl,
                torn_down r rec at_r live (ground arith) (gone key g.table) (rw (==_refl r) refl)
                    refl,
              )
      ]

-- In every reachable state, a stop under a server name comes to an end without a fault and reports
-- whether there was a recording under the key. Afterwards the key leads to none; an unpinned
-- recording is freed, after its fork is detached and the BYE of its leg is sent where they are
-- there; and a pinned one is left alive and doomed, for its last release to tear it down.
pub stop_for_server-Stopped :
    {located : Bytes → Bool} {s : System} (path : Reach located empty_system s)
    (server_name uuid : Bytes)
    → (result : Registry × Bool) × (stop_for_server located server_name uuid s.reg ≡ some result)
      × Stopped located (recording_key server_name uuid) s.reg result
unfolding stop_for_server claim_recording
stop_for_server-Stopped {located} {s} path server_name uuid =
    let key = recording_key server_name uuid in
    let inv = Reach-Inv empty-Inv path in
    elim (Option-cases (lookup key s.reg.table)) [
      | inl missing ↦ rw missing (_, refl, not_there missing)
      | inr (r, at_r) ↦
          let (rec, live, _) = inv.keyed key r at_r in
          entry-Stopped located server_name uuid s.reg r rec at_r live
    ]
