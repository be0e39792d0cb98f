-- ===== src/Start/Runs.antt =====
-- A start of recording_session.c as a run of the steps of its threads.
pub mod Whole
use mathlib.Core.Option.{some-injective}
use mathlib.Core.Path.{subst}
use mod_siprec.Base.{
  ==_refl, Bool, Bytes, Option, arith, false, none, refl, some, true, ℕ, ◌<◌, ◌||◌, ◌≡◌,
}
use mod_siprec.Registry.{Recording, Registry, doom, release_recording}
use mod_siprec.Registry.Discard.{discard_pending_recording, finish_discard, release_doomed}
use mod_siprec.Registry.Drain.{release_call_handler}
use mod_siprec.Registry.Interleaving.{Reach, System, bump, dooms, equips, go}
use mod_siprec.Registry.Runs.{Runs, join, pins_back, release_recording-Runs}
use mod_siprec.Registry.Runs.Drains.{RanTo, release_call_handler-Runs}
use mod_siprec.Start.{
  Dispatch, Status, end_start, finish_start, forked, give_up, give_up_leg, leg_up, no_leg,
  release_start, released_handler, set_contexts, status_false,
}

module _ (located : Bytes → Bool) where
  abbrev pub StartRan : System → Option (Registry × Status) → Type 0
  StartRan s none = Unit
  StartRan s (some (g, status)) = Runs located s g

  -- A start that holds a pin on its recording.
  module _ (s : System) (r : ℕ) (uuid : Bytes) where
    abbrev pub held : Registry → System
    held g = record s { reg = g; pins = bump s.pins r }

    abbrev pub Held : Registry → Type 0
    Held g = Reach located s (held g)

    has_pin : (g : Registry) → 0 < (held g).pins r
    has_pin g = rw (==_refl r) (omega arith)

    unpinned :
        (g g' : Registry) (d : Bool)
        → Held g
        → release_recording located r g ≡ some (g', d)
        → Runs located s g'
    unpinned g g' d path e =
        pins_back located {s = s} {g = g'} s.pins s.claims r
          (join located path (release_recording-Runs located (held g) r g' d (has_pin g) e))

    finish_discard-Runs :
        (g : Registry)
        → Held g
        → (o : Option (Registry × Bool)) → release_recording located r g ≡ o
        → RanTo located s (finish_discard o)
    finish_discard-Runs g path none e = tt
    finish_discard-Runs g path (some (g', d)) e = unpinned g g' d path e

    release_doomed-Runs :
        (g : Registry)
        → Held g
        → (o : Option Registry) → doom r g ≡ o
        → RanTo located s (release_doomed located r o)
    release_doomed-Runs g path none e = tt
    release_doomed-Runs g path (some g1) e =
        finish_discard-Runs g1 (go path (dooms r (has_pin g) e)) _ refl

    released_handler-Runs :
        (o : Option Registry) → RanTo located s o → StartRan s (released_handler located r uuid o)
    released_handler-Runs none ran = tt
    released_handler-Runs (some g) ran =
        after (release_call_handler located uuid g)
          (release_call_handler-Runs located (record s { reg = g }) uuid)
      where
        after :
            (o : Option Registry)
            → RanTo located (record s { reg = g }) o
            → StartRan s (elim o [ none ↦ none | some g' ↦ some (g', status_false) ])
        after none rest = tt
        after (some g') rest = join located ran rest

    give_up-Runs : (g : Registry) → Held g → StartRan s (give_up located r uuid g)
    unfolding give_up discard_pending_recording
    give_up-Runs g path =
        released_handler-Runs (discard_pending_recording located r g)
          (release_doomed-Runs g path (doom r g) refl)

    end_start-Runs :
        (g : Registry)
        → Held g
        → (o : Option (Registry × Bool)) → release_recording located r g ≡ o
        → StartRan s (end_start located r uuid o)
    end_start-Runs g path none e = tt
    end_start-Runs g path (some (g', true)) e = unpinned g g' true path e
    end_start-Runs g path (some (g', false)) e = unpinned g g' false path e

    abbrev HeldIn : Option Registry → Type 0
    HeldIn none = Unit
    HeldIn (some g) = Held g

    set_contexts-Held :
        (g : Registry) (leg : Bytes) (fork : Bool)
        → Held g
        → (o : Option Recording) → g.heap r ≡ o
        → HeldIn (set_contexts located r uuid o leg fork g)
    set_contexts-Held g leg fork path none e = tt
    set_contexts-Held g leg fork path (some rec) live =
        go path (equips r (some leg) (fork || rec.forked) (has_pin g) live)

    give_up_leg-Runs : (o : Option Registry) → HeldIn o → StartRan s (give_up_leg located r uuid o)
    give_up_leg-Runs none path = tt
    give_up_leg-Runs (some g) path = give_up-Runs g path

    release_start-Runs :
        (o : Option Registry) → HeldIn o → StartRan s (release_start located r uuid o)
    release_start-Runs none path = tt
    release_start-Runs (some g) path = end_start-Runs g path _ refl

    pub finish_start-Runs :
        {R : Type 0} (d : Dispatch R) (g : Registry)
        → Held g
        → StartRan s (finish_start located r uuid d g)
    unfolding finish_start
    finish_start-Runs no_leg g path = give_up-Runs g path
    finish_start-Runs (leg_up ctx) g path =
        give_up_leg-Runs _ (set_contexts-Held g ctx.recording_uuid false path (g.heap r) refl)
    finish_start-Runs (forked ctx media) g path =
        release_start-Runs _ (set_contexts-Held g ctx.recording_uuid true path (g.heap r) refl)
