-- ===== src/Start/Finish.antt =====
-- How a start of recording_session.c ends, whatever other threads have done to its recording.
use mod_siprec.Base.{
  ==_refl, Bool, Bool-cases, Bytes, ap, arith, false, inl, inr, lookup, none, refl, some, true, ℕ,
  ◌-◌, ◌<◌, ◌||◌, ◌∷◌, ◌≡◌, ◌⊎◌,
}
use mod_siprec.Leg as Leg
use mod_siprec.Media as Media
use mod_siprec.Registry.{Recording, Registry, bye_effect, detach_effect, free, write}
use mod_siprec.Registry.Drain.Reference.{retired}
use mod_siprec.Registry.Interleaving.{Reach, System, empty_system, equip, equips, go}
use mod_siprec.Registry.Safety.{claimed-alone, last_release-teardown, live-retirable}
use mod_siprec.Start.{
  Dispatch, Status, finish_start, forked, leg_up, no_leg, release_start, set_contexts, status_false,
  status_success,
}
use mod_siprec.Start.Giveup.{GaveUp, give_up-GaveUp, quiet_release}

module _ {located : Bytes → Bool} {s : System} (path : Reach located empty_system s) (uuid : Bytes)
    (r : ℕ) where
  module _ (rec : Recording) (live : s.reg.heap r ≡ some rec) (one : s.pins r ≡ 1) where
    -- The recording with its leg, and its fork if there is one.
    abbrev with_contexts : Bytes → Bool → Recording
    with_contexts leg fork = equip rec (some leg) (fork || rec.forked)

    abbrev equipped : Bytes → Bool → System
    equipped leg fork = record s {
      reg = record (s.reg) { heap = write s.reg.heap r (some (with_contexts leg fork)) };
    }

    equip_path : (leg : Bytes) (fork : Bool) → Reach located empty_system (equipped leg fork)
    equip_path leg fork = go path (equips r (some leg) (fork || rec.forked) (omega arith) live)

    -- How a start ends that got as far as the dispatch says.
    pub data Finished {R : Type 0} : Dispatch R → Registry × Status → Type 0 where
      unanswered :
          {g : Registry}
          → GaveUp located s.reg.effects uuid r rec g
          → Finished no_leg (g, status_false)
      unattached :
          {ctx : Leg.Ctx} {g : Registry}
          → GaveUp located s.reg.effects uuid r (with_contexts ctx.recording_uuid false) g
          → Finished (leg_up ctx) (g, status_false)
      stopped_meanwhile :
          {ctx : Leg.Ctx} {media : Media.Ctx R} {g : Registry}
          → rec.doomed ≡ true
          → g.heap r ≡ none
          → g.effects
            ≡ free r
              ∷ bye_effect located
                  (some ctx.recording_uuid)
                  (detach_effect r (with_contexts ctx.recording_uuid true) s.reg.effects)
          → Finished (forked ctx media) (g, status_false)
      running :
          {ctx : Leg.Ctx} {media : Media.Ctx R} {g : Registry}
          → rec.doomed ≡ false
          → lookup rec.key g.table ≡ some r
          → g.heap r ≡ some (record (with_contexts ctx.recording_uuid true) { use_count = 0 })
          → g.effects ≡ s.reg.effects
          → Finished (forked ctx media) (g, status_success)

    -- With its recording not doomed, the entry is still there.
    listed_still : rec.doomed ≡ false → lookup rec.key s.reg.table ≡ some r
    listed_still alive = from (live-retirable path r rec live).1
      where
        from :
            ((lookup rec.key s.reg.table ≡ some r) × (rec.doomed ≡ false))
              ⊎ (((rec.doomed ≡ true) × (0 < s.pins r)) ⊎ (s.claims r ≡ 1))
            → lookup rec.key s.reg.table ≡ some r
        from (inl (at_r, _)) = at_r
        from (inr (inl (doomed, _))) = absurd (cc)
        from (inr (inr claimed)) =
            let (_, unpinned, _) = claimed-alone path r (omega arith) in absurd (omega arith)

    set_contexts-lem :
        (leg : Bytes) (fork : Bool)
        → set_contexts located r uuid (s.reg.heap r) leg fork s.reg ≡ some ((equipped leg fork).reg)
    set_contexts-lem leg fork = rw live refl

    -- In a reachable state, whatever other threads have done meanwhile, a start that holds the only
    -- pin on its recording comes to an end without a fault. Without a leg, or with a leg and no
    -- fork, it fails and its recording is freed, after the BYE of the leg that it has. With both it
    -- succeeds and leaves the recording in the table, unpinned, with its leg and its fork, if
    -- nobody has doomed the recording; otherwise it fails, and it frees the recording after the
    -- fork is detached and the BYE is sent.
    pub finish_start-Finished :
        {R : Type 0} (d : Dispatch R)
        → (result : Registry × Status) × (finish_start located r uuid d s.reg ≡ some result)
          × Finished d result
    unfolding finish_start
    finish_start-Finished no_leg =
        let (g, e, done) = give_up-GaveUp located path uuid r rec live one in
        ((g, status_false), e, unanswered done)
    finish_start-Finished (leg_up ctx) =
        let leg = ctx.recording_uuid in
        let (g, e, done) =
          give_up-GaveUp located (equip_path leg false) uuid r (with_contexts leg false)
            (rw (==_refl r) refl) one in
        ((g, status_false), rw (set_contexts-lem leg false) e, unattached done)
    finish_start-Finished (forked ctx media) =
        let leg = ctx.recording_uuid in
        elim (Bool-cases rec.doomed) [
          | inl doomed ↦
              let (g, e, freed, retired) =
                last_release-teardown (equip_path leg true) r (with_contexts leg true)
                  (rw (==_refl r) refl) doomed one in
              (
                (g, status_false),
                rw (set_contexts-lem leg true, release_start, e) refl,
                stopped_meanwhile doomed freed retired,
              )
          | inr alive ↦
              let g = record ((equipped leg true).reg) {
                heap =
                    write (equipped leg true).reg.heap r
                      (some (record (with_contexts leg true) { use_count = rec.use_count - 1 }));
              } in
              let e =
                quiet_release located ((equipped leg true).reg) r (with_contexts leg true)
                  (rw (==_refl r) refl) alive in
              let (count, _) = live-retirable path r rec live in
              let idle : rec.use_count - 1 ≡ 0 = omega arith in
              (
                (g, status_success),
                rw (set_contexts-lem leg true, release_start, e) refl,
                running alive (listed_still alive)
                    (rw (==_refl r)
                      (ap (λ n. some (record (with_contexts leg true) { use_count = n })) idle))
                    refl,
              )
        ]
