-- ===== src/Registry/Runs.antt =====
-- The whole operations of recording_session.c as runs of the steps that they are made of.
pub mod Drains
pub mod Stops
use mathlib.Core.Option.{some-injective}
use mathlib.Core.Path.{fun_ext, subst}
use mod_siprec.Base.{
  ==_refl, Bool, Bool-cases, Bytes, List, Option, Option-cases, [], ap, arith, false, if_elim,
  if◌then◌else◌, inl, inr, length, none, refl, some, suc, sym, true, zero, ℕ, ◌&&◌, ◌+◌, ◌-◌, ◌<◌,
  ◌==◌, ◌∙◌, ◌∷◌, ◌≡◌,
}
use mod_siprec.Registry.{
  Effect, Recording, Registry, claim_recording, finish_release, leg_on_hangup, recording_leg_ended,
  release_recording, teardown_recording, unbind, unpin,
}
use mod_siprec.Registry.Interleaving.{
  Reach, Step, System, bump, bump_if, bump_when, claims_it, drop_one, go, handles, leg_ends,
  releases, stay, tears_down,
}
use mod_siprec.Registry.Stop.{finish_stop}

drop_one-bump : (f : ℕ → ℕ) (r : ℕ) → drop_one (bump f r) r ≡ f
drop_one-bump f r = fun_ext λ q. ground arith

bumped : (f : ℕ → ℕ) (r : ℕ) → 0 < bump f r r
bumped f r = rw (==_refl r) (omega arith)

abbrev paired : Bool → Option Registry → Option (Registry × Bool)
paired b o = elim o [ none ↦ none | some g ↦ some (g, b) ]

paired-fst :
    (b d : Bool) (o : Option Registry) (g : Registry) → paired b o ≡ some (g, d) → o ≡ some g
paired-fst b d none g e = cc
paired-fst b d (some g') g e = ap some (ap (λ x. x.0) (some-injective (g', b) (g, d) e))

module _ (located : Bytes → Bool) where
  pub join : {s t u : System} → Reach located s t → Reach located t u → Reach located s u
  join p stay = p
  join p (go q step) = go (join p q) step

  -- A run from a state to a registry, after which the threads hold what they held before.
  abbrev pub Runs : System → Registry → Type 0
  Runs s g = Reach located s (record s { reg = g })

  pub claims_back :
      {s : System} {g : Registry} (pins claims : ℕ → ℕ) (r : ℕ)
      → Reach located s (record { reg = g; pins = pins; claims = drop_one (bump claims r) r })
      → Reach located s (record { reg = g; pins = pins; claims = claims })
  claims_back {s} {g} pins claims r path =
      subst (λ c. Reach located s (record { reg = g; pins = pins; claims = c }))
        (drop_one-bump claims r) path

  pub pins_back :
      {s : System} {g : Registry} (pins claims : ℕ → ℕ) (r : ℕ)
      → Reach located s (record { reg = g; pins = drop_one (bump pins r) r; claims = claims })
      → Reach located s (record { reg = g; pins = pins; claims = claims })
  pins_back {s} {g} pins claims r path =
      subst (λ p. Reach located s (record { reg = g; pins = p; claims = claims }))
        (drop_one-bump pins r) path

  -- A teardown by the thread that has just become the owner.
  pub owner-Runs :
      {s : System} (g g' : Registry) (pins claims : ℕ → ℕ) (r : ℕ)
      → Reach located s (record { reg = g; pins = pins; claims = bump claims r })
      → teardown_recording located r g ≡ some g'
      → Reach located s (record { reg = g'; pins = pins; claims = claims })
  owner-Runs g g' pins claims r path torn =
      claims_back pins claims r (go path (tears_down r (bumped claims r) torn))

  module _ (s : System) where
    stopped-Runs :
        (key : Bytes) (g g' : Registry) (owned : Option ℕ) (found d : Bool)
        → claim_recording key s.reg ≡ some (g, owned, found)
        → finish_stop located (some (g, owned, found)) ≡ some (g', d)
        → Runs s g'
    stopped-Runs key g g' none found d e out =
        let same = ap (λ x. x.0) (some-injective (g, found) (g', d) out) in
        subst (λ x. Runs s x) same (go stay (claims_it key e))
    stopped-Runs key g g' (some r) found d e out =
        owner-Runs g g' s.pins s.claims r (go stay (claims_it key e))
          (paired-fst found d (teardown_recording located r g) g' out)

    pub finish_stop-Runs :
        (key : Bytes) (g : Registry) (d : Bool)
        → finish_stop located (claim_recording key s.reg) ≡ some (g, d)
        → Runs s g
    finish_stop-Runs key g d out = elim (Option-cases (claim_recording key s.reg)) [
      | inl fault ↦ let out' = rw fault at out in absurd (cc)
      | inr ((g1, owned, found), e) ↦ stopped-Runs key g1 g owned found d e (rw e at out)
    ]

    released-Runs :
        (r : ℕ) (g g' : Registry) (doomed last d : Bool)
        → 0 < s.pins r
        → unpin r s.reg ≡ some (g, doomed, last)
        → finish_release located r (some (g, doomed, last)) ≡ some (g', d)
        → Reach located s (record s { reg = g'; pins = drop_one s.pins r })
    released-Runs r g g' doomed false d lt e out =
        let same = ap (λ x. x.0) (some-injective (g, doomed) (g', d) out) in
        subst (λ x. Reach located s (record s { reg = x; pins = drop_one s.pins r })) same
          (go stay (releases r lt e))
    released-Runs r g g' doomed true d lt e out =
        owner-Runs g g' (drop_one s.pins r) s.claims r (go stay (releases r lt e))
          (paired-fst doomed d (teardown_recording located r g) g' out)

    -- The whole of a release gives its pin back.
    pub release_recording-Runs :
        (r : ℕ) (g : Registry) (d : Bool)
        → 0 < s.pins r
        → release_recording located r s.reg ≡ some (g, d)
        → Reach located s (record s { reg = g; pins = drop_one s.pins r })
    unfolding release_recording
    release_recording-Runs r g d lt out = elim (Option-cases (unpin r s.reg)) [
      | inl fault ↦ let out' = rw fault at out in absurd (cc)
      | inr ((g1, doomed, last), e) ↦ released-Runs r g1 g doomed last d lt e (rw e at out)
    ]
