-- ===== src/Registry/Discard.antt =====
-- The end of a start that failed: `discard_pending_recording` of recording_session.c.
use mod_siprec.Base.{
  ==_refl, Bool, Bytes, Option, arith, lookup, none, refl, some, true, ℕ, ◌∷◌, ◌≡◌,
}
use mod_siprec.Registry.{
  Recording, Registry, bye_effect, detach_effect, doom, free, release_recording, unlink, write,
}
use mod_siprec.Registry.Interleaving.{Reach, System, dooms, empty_system, go}
use mod_siprec.Registry.Safety.{last_release-teardown}

abbrev pub finish_discard : Option (Registry × Bool) → Option Registry
finish_discard none = none
finish_discard (some (g, doomed)) = some g

abbrev pub release_doomed : (Bytes → Bool) → ℕ → Option Registry → Option Registry
release_doomed located r none = none
release_doomed located r (some g) = finish_discard (release_recording located r g)

-- Up to the release of the call's handler.
unfoldable pub discard_pending_recording : (Bytes → Bool) → ℕ → Registry → Option Registry
unfolding doom release_recording
discard_pending_recording located r g = release_doomed located r (doom r g)

module _ (g : Registry) (r : ℕ) (rec : Recording) (live : g.heap r ≡ some rec) where
  abbrev pub doomed_registry : Registry
  doomed_registry = record g {
    table = unlink rec.key r (lookup rec.key g.table) g.table;
    heap = write g.heap r (some (record rec { doomed = true }));
  }

  pub doom_lem : doom r g ≡ some doomed_registry
  unfolding doom
  doom_lem = rw live refl

composed :
    (located : Bytes → Bool) (r : ℕ) (g : Registry) {g1 g2 : Registry} {doomed : Bool}
    → doom r g ≡ some g1
    → release_recording located r g1 ≡ some (g2, doomed)
    → discard_pending_recording located r g ≡ some g2
unfolding discard_pending_recording
composed located r g done released = rw (done, released) refl

-- In a reachable state, when a start that holds the only pin on its recording gives up, the
-- recording is freed, whether or not a stop has taken it out of the table before; what the start
-- had attached is retired first: the fork is detached, and the BYE of the leg is sent.
pub discard_pending_recording-teardown :
    {located : Bytes → Bool} {s : System} (path : Reach located empty_system s) (r : ℕ)
    (rec : Recording)
    → s.reg.heap r ≡ some rec
    → s.pins r ≡ 1
    → (g : Registry) × (discard_pending_recording located r s.reg ≡ some g)
      × (g.heap r ≡ none)
      × (g.effects ≡ free r ∷ bye_effect located rec.leg (detach_effect r rec s.reg.effects))
discard_pending_recording-teardown {located} {s} path r rec live one =
    let done = doom_lem s.reg r rec live in
    let (g, released, freed, retired) =
      last_release-teardown (go path (dooms r (omega arith) done)) r (record rec { doomed = true })
        (rw (==_refl r) refl) refl one in
    (g, composed located r s.reg done released, freed, retired)
