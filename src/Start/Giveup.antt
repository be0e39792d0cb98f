-- ===== src/Start/Giveup.antt =====
-- How a start of recording_session.c gives up, and where its releases leave the threads.
use mathlib.Core.Option.{some-injective}
use mod_siprec.Base.{
  Bool, Bytes, List, Option, ap, arith, false, inl, inr, length, ltb, none, refl, some, true, ℕ,
  ◌&&◌, ◌-◌, ◌<◌, ◌==◌, ◌∙◌, ◌∷◌, ◌≡◌, ◌⊎◌,
}
use mod_siprec.Registry.{
  Effect, Recording, Registry, bye_effect, detach_effect, doom, free, release_recording, unpin,
  write,
}
use mod_siprec.Registry.Discard.{
  discard_pending_recording, discard_pending_recording-teardown, doom_lem, finish_discard,
}
use mod_siprec.Registry.Drain.{
  release_call_handler, release_unless, unbind_call_handler, unbind_effect,
}
use mod_siprec.Registry.Drain.Release.{release-lem}
use mod_siprec.Registry.Drain.Reference.{hits, retired}
use mod_siprec.Registry.Interleaving.{Reach, System, dooms, drop_one, empty_system, go, stay}
use mod_siprec.Registry.Invariant.{empty-Inv}
use mod_siprec.Registry.Invariant.Steps.{Reach-Inv}
use mod_siprec.Registry.Runs.{join, release_recording-Runs}
use mod_siprec.Start.{give_up, released_handler, status_false}

module _ (located : Bytes → Bool) where
  -- The registry of a state that the threads can reach from another one.
  abbrev Reaches : System → Registry → Type 0
  Reaches s g = (t : System) × Reach located s t × (t.reg ≡ g)

  release-Reaches :
      (s : System) (r : ℕ) (g' : Registry) (doomed : Bool)
      → 0 < s.pins r
      → release_recording located r s.reg ≡ some (g', doomed)
      → Reaches s g'
  release-Reaches s r g' doomed lt e = (
    record s { reg = g'; pins = drop_one s.pins r },
    release_recording-Runs located s r g' doomed lt e,
    refl,
  )

  -- A start that gives up: its recording is freed, after the fork and the leg that it has, and the
  -- hangup handler of the call goes if the call has no other recording.
  pub record GaveUp (log : List Effect) (uuid : Bytes) (r : ℕ) (rec : Recording) (g : Registry)
      : Type 0 where
    pub freed : g.heap r ≡ none
    pub retired_as :
        (g.effects ≡ free r ∷ bye_effect located rec.leg (detach_effect r rec log))
        ⊎ (g.effects
            ≡ unbind_effect located uuid
                (free r ∷ bye_effect located rec.leg (detach_effect r rec log)))

  handler-GaveUp :
      (log : List Effect) (uuid : Bytes) (r : ℕ) (rec : Recording) (g : Registry) (live : Bool)
      → g.heap r ≡ none
      → g.effects ≡ free r ∷ bye_effect located rec.leg (detach_effect r rec log)
      → (g' : Registry) × (release_unless located uuid (some live) g ≡ some g')
        × GaveUp log uuid r rec g'
  handler-GaveUp log uuid r rec g true freed retired =
      (g, refl, record { freed = freed; retired_as = inl retired })
  handler-GaveUp log uuid r rec g false freed retired = (
    unbind_call_handler located uuid g,
    refl,
    record { freed = freed; retired_as = inr (ap (unbind_effect located uuid) retired) },
  )

  after-Reaches : {s t : System} {g : Registry} → Reach located s t → Reaches t g → Reaches s g
  after-Reaches path (u, later, same) = (u, join located path later, same)

  discarded :
      (s : System) (r : ℕ) (g g1 : Registry)
      → 0 < s.pins r
      → doom r s.reg ≡ some g1
      → (o : Option (Registry × Bool)) → release_recording located r g1 ≡ o
      → finish_discard o ≡ some g
      → Reaches s g
  discarded s r g g1 lt done none e out = cc
  discarded s r g g1 lt done (some (g2, d)) e out =
      let t = record s { reg = g1 } in
      let same = some-injective g2 g out in
      after-Reaches (go stay (dooms r lt done)) (release-Reaches t r g d lt (rw (← same) e))

  discard-Reaches :
      (s : System) (r : ℕ) (g g1 : Registry)
      → 0 < s.pins r
      → doom r s.reg ≡ some g1
      → discard_pending_recording located r s.reg ≡ some g
      → Reaches s g
  unfolding discard_pending_recording
  discard-Reaches s r g g1 lt done e =
      let e' = rw done at e in discarded s r g g1 lt done (release_recording located r g1) refl e'

  released_handler-lem :
      (r : ℕ) (uuid : Bytes) (g g' : Registry)
      → release_call_handler located uuid g ≡ some g'
      → released_handler located r uuid (some g) ≡ some (g', status_false)
  released_handler-lem r uuid g g' e = rw (released_handler, e) refl

  -- The release of a recording that nobody has doomed.
  pub quiet_release :
      (g : Registry) (r : ℕ) (rec : Recording)
      → g.heap r ≡ some rec
      → rec.doomed ≡ false
      → release_recording located r g
        ≡ some (
          record g { heap = write g.heap r (some (record rec { use_count = rec.use_count - 1 })) },
          false,
        )
  unfolding release_recording unpin
  quiet_release g r rec live alive =
      let more : (rec.use_count - 1 == 0 && rec.doomed) ≡ false = ground arith in
      rw (live, more)
        (ap
          (λ d. some (
            record g {
              heap = write g.heap r (some (record rec { use_count = rec.use_count - 1 }));
            },
            d,
          ))
          alive)

  module _ {s : System} (path : Reach located empty_system s) (uuid : Bytes) (r : ℕ) where
    pub give_up-GaveUp :
        (rec : Recording)
        → s.reg.heap r ≡ some rec
        → s.pins r ≡ 1
        → (g : Registry) × (give_up located r uuid s.reg ≡ some (g, status_false))
          × GaveUp s.reg.effects uuid r rec g
    unfolding give_up
    give_up-GaveUp rec live one =
        let (g, e, freed, retired) = discard_pending_recording-teardown path r rec live one in
        let (t, path', same) =
          discard-Reaches s r g _ (omega arith) (doom_lem s.reg r rec live) e in
        let released =
          rw same at (release-lem located uuid t (Reach-Inv empty-Inv (join located path path'))) in
        let (g', e', done) =
          handler-GaveUp s.reg.effects uuid r rec g
            (ltb 0 (length (hits (some uuid) g.heap g.table))) freed retired in
        (g', rw e (released_handler-lem r uuid g g' (released ∙ e')), done)
