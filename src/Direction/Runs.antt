-- ===== src/Direction/Runs.antt =====
-- A change of direction of mod_siprec.c as a run of the steps of recording_session.c.
use mathlib.Core.Path.{subst}
use mod_siprec.Base.{
  ==_refl, Bool, Bytes, List, Option, [], arith, if_elim, none, not, refl, some, sym, ℕ, ◌&&◌, ◌<◌,
  ◌∷◌, ◌≡◌,
}
use mod_siprec.Direction.{
  Act, World, change_acquired, change_direction, change_pinned, finish_change, named_or_default,
  redirect, redirect_leg,
}
use mod_siprec.Registry.{
  Recording, Registry, acquire_recording, recording_key, release_recording, write,
}
use mod_siprec.Registry.Interleaving.{Reach, System, acquires, bump, equip, equips, go, stay}
use mod_siprec.Registry.Runs.{Runs, join, pins_back, release_recording-Runs}

module _ (world : World) where
  abbrev pub RanActs : System → Option (Registry × List Act × Bool) → Type 0
  RanActs s none = Unit
  RanActs s (some (g, acts, ok)) = Runs world.located s g

  -- A change of direction touches the leg alone.
  redirected_leg :
      (r : ℕ) (paused : Bool) (rec : Recording) (leg : Option Bytes)
      → rec.leg ≡ leg
      → (l : Option Bytes) × ((redirect_leg world r paused rec leg).0 ≡ equip rec l rec.forked)
  redirected_leg r paused rec none e = (rec.leg, refl)
  redirected_leg r paused rec (some []) e = (rec.leg, refl)
  redirected_leg r paused rec (some (c ∷ leg)) e = (_, refl)

  module _ (s : System) (r : ℕ) (g : Registry)
      (pinned : Reach world.located s (record s { reg = g; pins = bump s.pins r })) where
    released :
        (rec' : Recording) (acts : List Act) (ok : Bool)
        → Reach world.located s (record s {
          reg = record g { heap = write g.heap r (some rec') };
          pins = bump s.pins r;
        })
        → (o : Option (Registry × Bool))
        → release_recording world.located r (record g { heap = write g.heap r (some rec') }) ≡ o
        → RanActs s (finish_change world acts ok o)
    released rec' acts ok path none e = tt
    released rec' acts ok path (some (g', d)) e =
        let changed : System = record s {
          reg = record g { heap = write g.heap r (some rec') };
          pins = bump s.pins r;
        } in
        let held : 0 < bump s.pins r r = rw (==_refl r) (omega arith) in
        pins_back world.located {s = s} {g = g'} s.pins s.claims r
          (join world.located path (release_recording-Runs world.located changed r g' d held e))

    equipped :
        (rec rec' : Recording) (l : Option Bytes)
        → g.heap r ≡ some rec
        → rec' ≡ equip rec l rec.forked
        → Reach world.located s (record s {
          reg = record g { heap = write g.heap r (some rec') };
          pins = bump s.pins r;
        })
    equipped rec rec' l live e =
        let held : 0 < bump s.pins r r = rw (==_refl r) (omega arith) in
        subst
          (λ x.
            Reach world.located s (record s {
              reg = record g { heap = write g.heap r (some x) };
              pins = bump s.pins r;
            }))
          (sym e) (go pinned (equips r l rec.forked held live))

    change_pinned-RanActs :
        (paused : Bool) (o : Option Recording)
        → g.heap r ≡ o
        → RanActs s (change_pinned world r paused o g)
    change_pinned-RanActs paused none e = tt
    change_pinned-RanActs paused (some rec) live =
        let (l, e) = redirected_leg r paused rec rec.leg refl in
        released (redirect world r paused rec).0 (redirect world r paused rec).1
          (redirect world r paused rec).2 (equipped rec (redirect world r paused rec).0 l live e) _
          refl

  module _ (s : System) where
    acquired-RanActs :
        (paused : Bool) (key : Bytes) (o : Option (Registry × Option ℕ))
        → acquire_recording key s.reg ≡ o
        → RanActs s (change_acquired world paused o)
    acquired-RanActs paused key none e = tt
    acquired-RanActs paused key (some (g, none)) e = go stay (acquires key e)
    acquired-RanActs paused key (some (g, some r)) e =
        change_pinned-RanActs s r g (go stay (acquires key e)) paused (g.heap r) refl

    pub change_direction-RanActs :
        (src_enabled : Bool) (uuid : Bytes) (server_name : Option Bytes) (paused : Bool)
        → RanActs s (change_direction world src_enabled uuid server_name paused s.reg)
    unfolding change_direction
    change_direction-RanActs src_enabled uuid server_name paused =
        if_elim (RanActs s) (not paused && not src_enabled) (λ _. stay)
          (λ _.
            acquired-RanActs paused (recording_key (named_or_default world server_name) uuid) _
              refl)
