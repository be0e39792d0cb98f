-- ===== src/Start/Frame.antt =====
-- The end of a start of recording_session.c touches no recording but its own.
use mod_siprec.Base.{Bool, Bytes, Option, false, none, refl, some, true, ℕ, ◌==◌, ◌||◌, ◌∙◌, ◌≡◌}
use mathlib.Core.Path.{subst}
use mod_siprec.Registry.Interleaving.{equip}
use mod_siprec.Registry.{
  Recording, Registry, doom, doom_found, finish_release, release_recording, teardown_found,
  teardown_recording, unpin, unpin_found, write,
}
use mod_siprec.Registry.Discard.{discard_pending_recording, finish_discard, release_doomed}
use mod_siprec.Registry.Drain.{release_call_handler, release_unless, scan_live}
use mod_siprec.Start.{
  Dispatch, Status, end_start, finish_start, forked, give_up, give_up_leg, leg_up, no_leg,
  release_start, released_handler, set_contexts, status_false,
}

module _ (located : Bytes → Bool) (r q : ℕ) (ne : (q == r) ≡ false) where
  -- A result that leaves what is at `q` as it was.
  abbrev Leaves : Registry → Option Registry → Type 0
  Leaves g none = Unit
  Leaves g (some g') = g'.heap q ≡ g.heap q

  teardown-Leaves : (g : Registry) (o : Option Recording) → Leaves g (teardown_found located r o g)
  teardown-Leaves g none = tt
  teardown-Leaves g (some rec) = rw ne refl

  doom-Leaves : (g : Registry) (o : Option Recording) → Leaves g (doom_found r o g)
  doom-Leaves g none = tt
  doom-Leaves g (some rec) = rw ne refl

  Leaves-trans :
      (g g1 : Registry) (o : Option Registry) → g1.heap q ≡ g.heap q → Leaves g1 o → Leaves g o
  Leaves-trans g g1 none e h = tt
  Leaves-trans g g1 (some g2) e h = h ∙ e

  abbrev reg_of : Option (Registry × Bool) → Option Registry
  reg_of none = none
  reg_of (some (g, b)) = some g

  torn-Leaves :
      (g g1 : Registry) (d : Bool) (o : Option Registry)
      → g1.heap q ≡ g.heap q
      → Leaves g1 o
      → Leaves g (
          reg_of
            (elim o as (λ x. Option (Registry × Bool)) [ none ↦ none | some g2 ↦ some (g2, d) ]))
  torn-Leaves g g1 d none e h = tt
  torn-Leaves g g1 d (some g2) e h = h ∙ e

  finish-Leaves :
      (g g1 : Registry) (d last : Bool)
      → g1.heap q ≡ g.heap q
      → Leaves g (reg_of (finish_release located r (some (g1, d, last))))
  unfolding teardown_recording
  finish-Leaves g g1 d false e = e
  finish-Leaves g g1 d true e =
      torn-Leaves g g1 d (teardown_recording located r g1) e (teardown-Leaves g1 (g1.heap r))

  unpinned-Leaves :
      (g : Registry) (o : Option Recording)
      → Leaves g (reg_of (finish_release located r (unpin_found r o g)))
  unpinned-Leaves g none = tt
  unpinned-Leaves g (some rec) = finish-Leaves g _ _ _ (rw ne refl)

  release-Leaves : (g : Registry) → Leaves g (reg_of (release_recording located r g))
  unfolding release_recording unpin
  release-Leaves g = unpinned-Leaves g (g.heap r)

  discard_out :
      (g : Registry) (o : Option (Registry × Bool))
      → Leaves g (reg_of o)
      → Leaves g (finish_discard o)
  discard_out g none h = tt
  discard_out g (some (g1, d)) h = h

  discarded-Leaves :
      (g : Registry) (o : Option Registry) → Leaves g o → Leaves g (release_doomed located r o)
  discarded-Leaves g none h = tt
  discarded-Leaves g (some g1) h =
      Leaves-trans g g1 (finish_discard (release_recording located r g1)) h
        (discard_out g1 (release_recording located r g1) (release-Leaves g1))

  abbrev result_of : Option (Registry × Status) → Option Registry
  result_of none = none
  result_of (some (g, status)) = some g

  module _ (uuid : Bytes) where
    handler-Leaves : (g : Registry) (o : Option Bool) → Leaves g (release_unless located uuid o g)
    handler-Leaves g none = tt
    handler-Leaves g (some true) = refl
    handler-Leaves g (some false) = refl

    failed_out :
        (g : Registry) (o : Option Registry)
        → Leaves g o
        → Leaves g (
            result_of (elim o as (λ x. Option (Registry × Status)) [
              | none ↦ none
              | some g' ↦ some (g', status_false)
            ]))
    failed_out g none h = tt
    failed_out g (some g') h = h

    released-Leaves :
        (g : Registry) (o : Option Registry)
        → Leaves g o
        → Leaves g (result_of (released_handler located r uuid o))
    unfolding release_call_handler
    released-Leaves g none h = tt
    released-Leaves g (some g1) h = failed_out g (release_call_handler located uuid g1) (
        Leaves-trans g g1 (release_call_handler located uuid g1) h
          (handler-Leaves g1 (scan_live uuid g1.heap g1.table)))

    give_up-Leaves : (g : Registry) → Leaves g (result_of (give_up located r uuid g))
    unfolding give_up discard_pending_recording doom
    give_up-Leaves g =
        released-Leaves g (discard_pending_recording located r g)
          (discarded-Leaves g (doom r g) (doom-Leaves g (g.heap r)))

    Result-trans :
        (g g1 : Registry) (o : Option (Registry × Status))
        → g1.heap q ≡ g.heap q
        → Leaves g1 (result_of o)
        → Leaves g (result_of o)
    Result-trans g g1 o e h = Leaves-trans g g1 (result_of o) e h

    leg-Leaves :
        (g : Registry) (o : Option Recording) (leg : Bytes)
        → Leaves g
            (result_of (give_up_leg located r uuid (set_contexts located r uuid o leg false g)))
    leg-Leaves g none leg = tt
    leg-Leaves g (some rec) leg =
        let g1 = record g {
          heap = write g.heap r (some (equip rec (some leg) (false || rec.forked)));
        } in
        Result-trans g g1 (give_up located r uuid g1) (rw ne refl) (give_up-Leaves g1)

    end_out :
        (g : Registry) (o : Option (Registry × Bool))
        → Leaves g (reg_of o)
        → Leaves g (result_of (end_start located r uuid o))
    end_out g none h = tt
    end_out g (some (g1, true)) h = h
    end_out g (some (g1, false)) h = h

    fork-Leaves :
        (g : Registry) (o : Option Recording) (leg : Bytes)
        → Leaves g
            (result_of (release_start located r uuid (set_contexts located r uuid o leg true g)))
    fork-Leaves g none leg = tt
    fork-Leaves g (some rec) leg =
        let g1 = record g {
          heap = write g.heap r (some (equip rec (some leg) (true || rec.forked)));
        } in
        Result-trans g g1 (end_start located r uuid (release_recording located r g1)) (rw ne refl)
          (end_out g1 (release_recording located r g1) (release-Leaves g1))

    finish_start-Leaves :
        {R : Type 0} (d : Dispatch R) (g : Registry)
        → Leaves g (result_of (finish_start located r uuid d g))
    unfolding finish_start
    finish_start-Leaves no_leg g = give_up-Leaves g
    finish_start-Leaves (leg_up ctx) g = leg-Leaves g (g.heap r) ctx.recording_uuid
    finish_start-Leaves (forked ctx media) g = fork-Leaves g (g.heap r) ctx.recording_uuid

    -- The end of a start changes no other recording.
    pub finish_start-frame :
        {R : Type 0} (d : Dispatch R) (g : Registry) (result : Registry × Status)
        → finish_start located r uuid d g ≡ some result
        → result.0.heap q ≡ g.heap q
    finish_start-frame d g result e =
        subst (λ o. Leaves g (result_of o)) e (finish_start-Leaves d g)
