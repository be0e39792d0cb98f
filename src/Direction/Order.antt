-- ===== src/Direction/Order.antt =====
-- In which order a pause gates the fork and offers the new direction, and a resume the reverse.
use mod_siprec.Base.{
  ==_refl, Bool, Bool-cases, Bytes, List, Option, [], false, inl, inr, lookup, none, not, refl,
  some, true, ℕ, ◌&&◌, ◌+◌, ◌-◌, ◌==◌, ◌∷◌, ◌≡◌,
}
use mod_siprec.Registry.{
  Recording, Registry, acquire_recording, finish_release, recording_key, release_recording,
  teardown_recording, unpin, write,
}
use mod_siprec.Direction.{
  Act, World, change_direction, change_pinned, gated, named_or_default, offered, opened, redirect,
  redirect_leg, rewritten,
}

-- What a change of direction may do to the recording at `r`, whose fork is attached or not: the
-- acts in order, and the status.
pub data Allowed (world : World) (r : ℕ) (attached : Bool) : Bool → List Act → Bool → Type 0 where
  pause_no_leg : attached ≡ true → Allowed world r attached true (gated r ∷ []) false
  pause_offered :
      (leg : Bytes) {ok : Bool}
      → world.renegotiated leg true ≡ ok
      → attached ≡ true
      → Allowed world r attached true (gated r ∷ offered leg (rewritten world r true) true ∷ []) ok
  unforked_no_leg : attached ≡ false → Allowed world r attached true [] false
  unforked_offered :
      (leg : Bytes) {ok : Bool}
      → world.renegotiated leg true ≡ ok
      → attached ≡ false
      → Allowed world r attached true (offered leg (rewritten world r true) true ∷ []) ok
  resume_no_leg : Allowed world r attached false [] false
  resume_refused :
      (leg : Bytes)
      → world.renegotiated leg false ≡ false
      → Allowed world r attached false (offered leg (rewritten world r false) false ∷ []) false
  resume_opened :
      (leg : Bytes)
      → world.renegotiated leg false ≡ true
      → attached ≡ true
      → Allowed world r attached false
          (offered leg (rewritten world r false) false ∷ opened r ∷ [])
          true
  resume_unforked :
      (leg : Bytes)
      → world.renegotiated leg false ≡ true
      → attached ≡ false
      → Allowed world r attached false (offered leg (rewritten world r false) false ∷ []) true

module _ (world : World) where
  abbrev pub attached : ℕ → Recording → Bool
  attached r rec = rec.forked && world.bug_of r

  module _ (r : ℕ) (rec : Recording) where
    pause_on :
        (leg : Option Bytes) (a : Bool)
        → a ≡ true
        → Allowed world r a true
            (gated r ∷ (redirect_leg world r true rec leg).1)
            (redirect_leg world r true rec leg).2
    pause_on none a on = pause_no_leg on
    pause_on (some []) a on = pause_no_leg on
    pause_on (some (c ∷ leg)) a on = elim (Bool-cases (world.located (c ∷ leg))) [
      | inr gone ↦ rw gone (pause_no_leg on)
      | inl there ↦ rw there (elim (Bool-cases (world.renegotiated (c ∷ leg) true)) [
        | inl ok ↦ rw ok (pause_offered (c ∷ leg) ok on)
        | inr refused ↦ rw refused (pause_offered (c ∷ leg) refused on)
      ])
    ]

    pause_off :
        (leg : Option Bytes) (a : Bool)
        → a ≡ false
        → Allowed world r a true
            (redirect_leg world r true rec leg).1
            (redirect_leg world r true rec leg).2
    pause_off none a off = unforked_no_leg off
    pause_off (some []) a off = unforked_no_leg off
    pause_off (some (c ∷ leg)) a off = elim (Bool-cases (world.located (c ∷ leg))) [
      | inr gone ↦ rw gone (unforked_no_leg off)
      | inl there ↦ rw there (elim (Bool-cases (world.renegotiated (c ∷ leg) true)) [
        | inl ok ↦ rw ok (unforked_offered (c ∷ leg) ok off)
        | inr refused ↦ rw refused (unforked_offered (c ∷ leg) refused off)
      ])
    ]

    resume_leg :
        (leg : Option Bytes)
        → Allowed world r
            (attached r rec)
            false
            (redirect_leg world r false rec leg).1
            (redirect_leg world r false rec leg).2
    resume_leg none = resume_no_leg
    resume_leg (some []) = resume_no_leg
    resume_leg (some (c ∷ leg)) = elim (Bool-cases (world.located (c ∷ leg))) [
      | inr gone ↦ rw gone resume_no_leg
      | inl there ↦ rw there (elim (Bool-cases (world.renegotiated (c ∷ leg) false)) [
        | inr refused ↦ rw refused (resume_refused (c ∷ leg) refused)
        | inl ok ↦ elim (Bool-cases (rec.forked && world.bug_of r)) [
          | inl on ↦ rw (ok, on) (resume_opened (c ∷ leg) ok refl)
          | inr off ↦ rw (ok, off) (resume_unforked (c ∷ leg) ok refl)
        ]
      ])
    ]

    redirect-Allowed :
        (paused : Bool)
        → Allowed world r
            (attached r rec)
            paused
            (redirect world r paused rec).1
            (redirect world r paused rec).2
    redirect-Allowed false = resume_leg rec.leg
    redirect-Allowed true = elim (Bool-cases (rec.forked && world.bug_of r)) [
      | inl on ↦ rw on (pause_on rec.leg true refl)
      | inr off ↦ rw off (pause_off rec.leg false refl)
    ]

  released :
      (located : Bytes → Bool) (r : ℕ) (g : Registry) {rec : Recording}
      → g.heap r ≡ some rec
      → (g' : Registry) × (doomed : Bool) × (release_recording located r g ≡ some (g', doomed))
  unfolding release_recording unpin teardown_recording
  released located r g {rec} live = elim (Bool-cases (rec.use_count - 1 == 0 && rec.doomed)) [
    | inl last ↦ rw (live, last, finish_release, ==_refl r) (_, _, refl)
    | inr more ↦ rw (live, more) (_, _, refl)
  ]

  changed :
      (r : ℕ) (paused : Bool) (g : Registry) {rec : Recording}
      → g.heap r ≡ some rec
      → (g' : Registry) × (acts : List Act) × (ok : Bool) × (change_pinned world r paused
            (g.heap r)
            g
          ≡ some (g', acts, ok))
        × Allowed world r (attached r rec) paused acts ok
  changed r paused g {rec} live =
      let (rec', acts, ok) = redirect world r paused rec in
      let (g', doomed, e) =
        released world.located r (record g { heap = write g.heap r (some rec') }) {rec = rec'}
          (rw (==_refl r) refl) in
      rw live (g', acts, ok, rw e refl, redirect-Allowed r rec paused)

  -- Where a recording that is not freed stands under the key of the server name (`default` without
  -- one) and the call, and the change is not a resume while `src-enabled` is off, the change comes
  -- to an end without a fault, and does what is allowed: a pause gates an attached fork before
  -- anything else and opens no fork; a resume opens it only after a re-INVITE that succeeded.
  pub change_direction-Allowed :
      (src_enabled : Bool) (uuid : Bytes) (server_name : Option Bytes) (paused : Bool)
      (g : Registry) (r : ℕ) (rec : Recording)
      → lookup (recording_key (named_or_default world server_name) uuid) g.table ≡ some r
      → g.heap r ≡ some rec
      → (not paused && not src_enabled) ≡ false
      → (g' : Registry) × (acts : List Act) × (ok : Bool) × (change_direction world src_enabled uuid
            server_name paused g
          ≡ some (g', acts, ok))
        × Allowed world r (attached r rec) paused acts ok
  unfolding change_direction acquire_recording
  change_direction-Allowed src_enabled uuid server_name paused g r rec at_r live enabled =
      let pinned = record g {
        heap = write g.heap r (some (record rec { use_count = rec.use_count + 1 }));
      } in
      rw (enabled, at_r, live)
        (changed r paused pinned {rec = record rec { use_count = rec.use_count + 1 }}
          (rw (==_refl r) refl))
