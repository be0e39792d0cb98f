-- ===== src/Registry/Progress.antt =====
-- A recording that is out of the table of recording_session.c on its way to its end.
pub mod Work
use mathlib.Core.Option.{some-injective}
use mathlib.Core.Path.{subst}
use mod_siprec.Base.{
  ==_iff, Bool, Bool-cases, Bytes, List, Option, Option-cases, [], arith, delete, equal, false,
  if_elim, if◌then◌else◌, inl, inr, insert, lookup, lookup-delete, lookup-insert, ltb, none, not,
  refl, some, sym, true, ℕ, ◌-◌, ◌<◌, ◌==◌, ◌||◌, ◌∙◌, ◌∷◌, ◌≡◌, ◌⊎◌,
}
use mod_siprec.Registry.{
  Insertion, Recording, Registry, acquire_recording, claim_recording, doom, insert_recording,
  mark_gone, recording_leg_ended, teardown_recording, unlink, unpin, write,
}
use mod_siprec.Registry.Interleaving.{System, bump_if, equip}
use mod_siprec.Registry.Invariant.{Inv, points}
use mod_siprec.Registry.Invariant.Shapes.{own_key}
use mod_siprec.Registry.Invariant.Lives.{points_self}
use mod_siprec.Registry.Invariant.Steps.{Safe, claimed_live, pinned_live}

-- The recording at `r` is not freed, and its key does not lead to it.
abbrev pub Out : Registry → ℕ → Type 0
Out g r = (rec : Recording) × (g.heap r ≡ some rec) × (points (lookup rec.key g.table) r ≡ false)

points-unless :
    (b : Bool) (o : Option ℕ) (r : ℕ)
    → points o r ≡ false
    → points (if b then none else o) r ≡ false
points-unless true o r off = refl
points-unless false o r off = off

points-if :
    (b : Bool) (q : ℕ) (o : Option ℕ) (r : ℕ)
    → (q == r) ≡ false
    → points o r ≡ false
    → points (if b then some q else o) r ≡ false
points-if true q o r ne off = ne
points-if false q o r ne off = off

flip_ne : (q r : ℕ) → (q == r) ≡ false → (r == q) ≡ false
flip_ne q r ne = ground arith

module _ (table : List (Bytes × ℕ)) (k : Bytes) (r : ℕ)
    (off : points (lookup k table) r ≡ false) where
  delete-off : (key : Bytes) → points (lookup k (delete key table)) r ≡ false
  delete-off key =
      rw (lookup-delete key k table) (points-unless (equal key k) (lookup k table) r off)

  insert-off :
      (key : Bytes) (q : ℕ) → (q == r) ≡ false → points (lookup k (insert key q table)) r ≡ false
  insert-off key q ne =
      rw (lookup-insert key k q table) (points-if (equal key k) q (lookup k table) r ne off)

  unlink-off :
      (key : Bytes) (q : ℕ) (o : Option ℕ) → points (lookup k (unlink key q o table)) r ≡ false
  unlink-off key q none = off
  unlink-off key q (some i) =
      if_elim (λ t. points (lookup k t) r ≡ false) (i == q) (λ _. delete-off key) (λ _. off)

module _ (s : System) (inv : Inv s) (r : ℕ) {rec : Recording} (live : s.reg.heap r ≡ some rec)
    (off : points (lookup rec.key s.reg.table) r ≡ false) where
  open s.reg use {table, heap}

  -- What the table leads to is another recording.
  other : (key : Bytes) (q : ℕ) → lookup key table ≡ some q → (r == q) ≡ false
  other key q at_q = elim (Bool-cases (r == q)) [
    | inl same ↦ absurd (
        let at_r : lookup key table ≡ some r = rw ((==_iff r q).0 same) at_q in
        let on = points_self r (own_key s inv key r at_r live) in cc)
    | inr ne ↦ ne
  ]

  spared : (q : ℕ) (v : Option Recording) → (r == q) ≡ false → write heap q v r ≡ some rec
  spared q v ne = rw ne live

  found-off :
      (q : ℕ) {found : Recording}
      → heap q ≡ some found
      → (r == q) ≡ true
      → points (lookup found.key table) r ≡ false
  found-off q {found} q_live same =
      let at_r : heap r ≡ some found = rw ((==_iff r q).0 same) q_live in
      subst (λ x. points (lookup x.key table) r ≡ false)
        (some-injective rec found (sym live ∙ at_r)) off

  pub claim_recording-Out :
      (key : Bytes)
      → Safe (λ (x : Registry × Option ℕ × Bool). Out x.0 r) (claim_recording key s.reg)
  unfolding claim_recording
  claim_recording-Out key = elim (Option-cases (lookup key table)) [
    | inl missing ↦ rw missing (rec, live, off)
    | inr (q, at_q) ↦
        let (found, q_live, e) = inv.keyed key q at_q in
        rw (at_q, q_live)
          (if_elim (Safe (λ (x : Registry × Option ℕ × Bool). Out x.0 r)) (ltb 0 found.use_count)
            (λ _. (rec, spared q _ (other key q at_q), delete-off table rec.key r off key))
            (λ _. (rec, live, delete-off table rec.key r off key)))
  ]

  pub acquire_recording-Out :
      (key : Bytes)
      → Safe
          (λ (x : Registry × Option ℕ). Out x.0 r × (bump_if s.pins x.1 r ≡ s.pins r))
          (acquire_recording key s.reg)
  unfolding acquire_recording
  acquire_recording-Out key = elim (Option-cases (lookup key table)) [
    | inl missing ↦ rw missing ((rec, live, off), refl)
    | inr (q, at_q) ↦
        let (found, q_live, e) = inv.keyed key q at_q in
        let ne = other key q at_q in rw (at_q, q_live) ((rec, spared q _ ne, off), rw ne refl)
  ]

  leg-Out :
      (q : ℕ) {found : Recording} (leg : Bytes)
      → heap q ≡ some found
      → (r == q) ≡ false
      → Safe (λ (x : Registry × Bool). Out x.0 r) (mark_gone q (some found) leg s.reg)
  leg-Out q {found} leg q_live ne = elim (Option-cases found.leg) [
    | inl no_leg ↦ rw no_leg (rec, live, off)
    | inr (l, has_leg) ↦ rw has_leg (
        if_elim (Safe (λ (x : Registry × Bool). Out x.0 r)) (equal l leg)
          (λ _. (rec, spared q _ ne, off)) (λ _. (rec, live, off)))
  ]

  pub recording_leg_ended-Out :
      (key leg : Bytes)
      → Safe (λ (x : Registry × Bool). Out x.0 r) (recording_leg_ended key leg s.reg)
  unfolding recording_leg_ended
  recording_leg_ended-Out [] leg = (rec, live, off)
  recording_leg_ended-Out (c ∷ key) [] = (rec, live, off)
  recording_leg_ended-Out (c ∷ key) (d ∷ leg) = elim (Option-cases (lookup (c ∷ key) table)) [
    | inl missing ↦ rw missing (rec, live, off)
    | inr (q, at_q) ↦
        let (found, q_live, e) = inv.keyed (c ∷ key) q at_q in
        rw (at_q, q_live) (leg-Out q (d ∷ leg) q_live (other (c ∷ key) q at_q))
  ]

  pub insert_recording-Out :
      (q : ℕ) (key uuid : Bytes)
      → (r == q) ≡ false
      → Safe (λ (x : Registry × Insertion). Out x.0 r) (insert_recording q key uuid s.reg)
  unfolding insert_recording
  insert_recording-Out q key uuid ne = elim (Option-cases (lookup key table)) [
    | inl missing ↦
        rw missing (rec, spared q _ ne, insert-off table rec.key r off key q (flip_ne r q ne))
    | inr (i, at_i) ↦
        let (found, i_live, e) = inv.keyed key i at_i in
        rw (at_i, i_live)
          (if_elim (Safe (λ (x : Registry × Insertion). Out x.0 r))
            (ltb 0 found.use_count || not found.leg_gone) (λ _. (rec, live, off))
            (λ _. (
              rec,
              spared q _ ne,
              insert-off (delete found.key table) rec.key r
                  (delete-off table rec.key r off found.key) key q (flip_ne r q ne),
            )))
  ]

  pub doom-Out : (q : ℕ) → 0 < s.pins q → Safe (λ g. Out g r) (doom q s.reg)
  unfolding doom
  doom-Out q lt =
      let (found, q_live) = pinned_live s inv q lt in
      rw q_live (elim (Bool-cases (r == q)) [
        | inl same ↦ (
          record found { doomed = true },
          rw same refl,
          unlink-off table found.key r (found-off q q_live same) found.key q
              (lookup found.key table),
        )
        | inr ne ↦ (
          rec,
          spared q _ ne,
          unlink-off table rec.key r off found.key q (lookup found.key table),
        )
      ])

  -- A step of the threads on the recording, or past it.
  pub unpin-Out :
      (q : ℕ) → 0 < s.pins q → Safe (λ (x : Registry × Bool × Bool). Out x.0 r) (unpin q s.reg)
  unfolding unpin
  unpin-Out q lt =
      let (found, q_live) = pinned_live s inv q lt in
      rw q_live (elim (Bool-cases (r == q)) [
        | inl same ↦ (
          record found { use_count = found.use_count - 1 },
          rw same refl,
          found-off q q_live same,
        )
        | inr ne ↦ (rec, spared q _ ne, off)
      ])

  pub teardown_recording-Out :
      (located : Bytes → Bool) (q : ℕ)
      → 0 < s.claims q
      → Safe
          (λ g. (g.heap r ≡ none) ⊎ (Out g r × ((r == q) ≡ false)))
          (teardown_recording located q s.reg)
  unfolding teardown_recording
  teardown_recording-Out located q lt =
      let (found, q_live) = claimed_live s inv q lt in
      rw q_live (elim (Bool-cases (r == q)) [
        | inl same ↦ inl (rw same refl)
        | inr ne ↦ inr ((rec, spared q _ ne, off), ne)
      ])

  pub equip-Out :
      (q : ℕ) {found : Recording} (leg : Option Bytes) (forked : Bool)
      → heap q ≡ some found
      → Out (record (s.reg) { heap = write heap q (some (equip found leg forked)) }) r
  equip-Out q {found} leg forked q_live = elim (Bool-cases (r == q)) [
    | inl same ↦ (equip found leg forked, rw same refl, found-off q q_live same)
    | inr ne ↦ (rec, spared q _ ne, off)
  ]

  -- A start takes a pointer that is not in use.
  pub vacant_other : (q : ℕ) → heap q ≡ none → (r == q) ≡ false
  vacant_other q vacant = elim (Bool-cases (r == q)) [
    | inl same ↦ absurd (let gone : heap r ≡ none = rw ((==_iff r q).0 same) vacant in cc)
    | inr ne ↦ ne
  ]
