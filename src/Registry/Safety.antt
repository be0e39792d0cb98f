-- ===== src/Registry/Safety.antt =====
-- What the threads of recording_session.c may rely on in every state that they can reach.
use mod_siprec.Base.{
  ==_refl, Bool, Bytes, Option, ap, arith, false, inl, inr, lookup, none, refl, some, true, ℕ, ◌-◌,
  ◌<◌, ◌∷◌, ◌≡◌, ◌≢◌, ◌⊎◌,
}
use mod_siprec.Registry.{
  Recording, Registry, acquire_recording, bye_effect, claim_recording, detach_effect, doom, free,
  insert_recording, recording_leg_ended, release_recording, teardown_recording, unpin, write,
}
use mod_siprec.Registry.Interleaving.{Reach, System, empty_system}
use mod_siprec.Registry.Invariant.{Inv, Life, doomed_pinned, empty-Inv, listed, owned, points}
use mod_siprec.Registry.Invariant.Changes.{points_at}
use mod_siprec.Registry.Invariant.Lives.{Life-claimed}
use mod_siprec.Registry.Invariant.Shapes.{own_key, status_at}
use mod_siprec.Registry.Invariant.Steps.{
  Reach-Inv, Safe, acquire_recording-Safe, claim_recording-Safe, claimed_live, doom-Safe,
  insert_recording-Safe, recording_leg_ended-Safe, teardown_recording-Safe, unpin-Safe,
}

Safe-ok {ℓ} : {A : Type ℓ} (P : A → Type 0) {o : Option A} → Safe P o → o ≢ none
Safe-ok P {o = none} impossible e = impossible
Safe-ok P {o = some x} h e = absurd (cc)

write_self : (heap : ℕ → Option Recording) (r : ℕ) → write heap r none r ≡ none
write_self heap r = rw (==_refl r)

module _ {located : Bytes → Bool} {s : System} (path : Reach located empty_system s) where
  open s use {reg, pins, claims}

  reached : Inv s
  reached = Reach-Inv empty-Inv path

  -- In a state that the threads can reach from the empty registry, no operation uses a freed
  -- recording: a claim, an acquire and the end of a leg under any key, a start at a pointer that
  -- is not in use, a release or a dooming of a recording that is pinned, and a teardown of a
  -- recording that is claimed.
  pub operations-no_fault :
      ((key : Bytes) → claim_recording key reg ≢ none)
      × ((key : Bytes) → acquire_recording key reg ≢ none)
      × ((key leg : Bytes) → recording_leg_ended key leg reg ≢ none)
      × ((r : ℕ) (key uuid : Bytes) → reg.heap r ≡ none → insert_recording r key uuid reg ≢ none)
      × ((r : ℕ) → 0 < pins r → (unpin r reg ≢ none) × (doom r reg ≢ none))
      × ((r : ℕ) → 0 < claims r → teardown_recording located r reg ≢ none)
  operations-no_fault = (
    λ key. Safe-ok _ (claim_recording-Safe s reached key),
    λ key. Safe-ok _ (acquire_recording-Safe s reached key),
    λ key leg. Safe-ok _ (recording_leg_ended-Safe s reached key leg),
    λ r key uuid vacant. Safe-ok _ (insert_recording-Safe s reached r key uuid vacant),
    λ r lt. (Safe-ok _ (unpin-Safe s reached r lt), Safe-ok _ (doom-Safe s reached r lt)),
    λ r lt. Safe-ok _ (teardown_recording-Safe s reached located r lt),
  )

  -- In a reachable state, a recording that some thread has claimed for teardown is claimed once,
  -- is pinned by nobody, and no key of the table leads to it.
  pub claimed-alone :
      (r : ℕ)
      → 0 < claims r
      → (claims r ≡ 1) × (pins r ≡ 0) × ((key : Bytes) → lookup key reg.table ≢ some r)
  claimed-alone r lt =
      let (rec, live) = claimed_live s reached r lt in
      let (off, unpinned, once) = Life-claimed (status_at s reached r live).1 lt in
      (once, unpinned, λ key at_r. let own = own_key s reached key r at_r live in unlisted off own)
    where
      unlisted : {r : ℕ} {o : Option ℕ} → points o r ≡ false → o ≡ some r → ⊥
      unlisted {r} off e = let off' = rw e at off in ground (arith, ==_refl r)

  -- In a reachable state, the use count of a recording that is not freed is the number of pins
  -- held on it, and the recording can still be retired: it is under its key in the table and not
  -- doomed, or it is doomed and pinned, so that a release will tear it down, or it is claimed.
  pub live-retirable :
      (r : ℕ) (rec : Recording)
      → reg.heap r ≡ some rec
      → (rec.use_count ≡ pins r)
        × (((lookup rec.key reg.table ≡ some r) × (rec.doomed ≡ false))
            ⊎ (((rec.doomed ≡ true) × (0 < pins r)) ⊎ (claims r ≡ 1)))
  live-retirable r rec live = let (count, life) = status_at s reached r live in (count, kind life)
    where
      kind :
          {d : Bool} {o : Option ℕ}
          → Life (points o r) d (pins r) (claims r)
          → ((o ≡ some r) × (d ≡ false)) ⊎ (((d ≡ true) × (0 < pins r)) ⊎ (claims r ≡ 1))
      kind {o} (listed e d z) = inl (points_at r o e, d)
      kind (doomed_pinned e d lt z) = inr (inl (d, lt))
      kind (owned e z one) = inr (inr one)

  -- In a reachable state, the release of the only pin on a doomed recording frees it, after it has
  -- detached its fork and sent the BYE of its leg where they are there, and reports it doomed.
  pub last_release-teardown :
      (r : ℕ) (rec : Recording)
      → reg.heap r ≡ some rec
      → rec.doomed ≡ true
      → pins r ≡ 1
      → (g : Registry) × (release_recording located r reg ≡ some (g, true))
        × (g.heap r ≡ none)
        × (g.effects ≡ free r ∷ bye_effect located rec.leg (detach_effect r rec reg.effects))
  unfolding release_recording unpin teardown_recording
  last_release-teardown r rec live is_doomed one =
      let (count, _) = status_at s reached r live in
      let last : rec.use_count ≡ 1 = ground arith in
      rw (live, last, is_doomed, ==_refl r)
        (
          after,
          ap (λ d. some (after, d)) is_doomed,
          write_self (write reg.heap r (some (record rec { use_count = 1 - 1 }))) r,
          refl,
        )
    where
      after : Registry
      after = record reg {
        heap = write (write reg.heap r (some (record rec { use_count = 1 - 1 }))) r none;
        effects = free r ∷ bye_effect located rec.leg (detach_effect r rec reg.effects);
      }
