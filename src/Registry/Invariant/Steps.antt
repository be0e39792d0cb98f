-- ===== src/Registry/Invariant/Steps.antt =====
-- Every operation of the registry keeps the invariant, and under it none of them faults.
use mod_siprec.Base.{
  Bool, Bool-cases, Bytes, Option, Option-cases, [], arith, delete, equal, equal_refl, if_elim, inl,
  inr, lookup, lookup-delete, ltb, none, not, refl, some, true, ℕ, ◌<◌, ◌||◌, ◌∷◌, ◌≡◌,
}
use mod_siprec.Registry.{
  Insertion, Recording, Registry, acquire_recording, claim_recording, doom, fresh_recording, in_use,
  insert_recording, inserted, mark_gone, put_recording, recording_leg_ended, teardown_recording,
  unpin,
}
use mod_siprec.Registry.Interleaving.{
  Reach, Step, System, acquires, bump, bump_if, bump_when, claims_it, dooms, drop_one, equips, go,
  handles, leg_ends, releases, starts, stay, tears_down,
}
use mod_siprec.Registry.Invariant.{Inv}
use mod_siprec.Registry.Invariant.Changes.{
  changed-Inv, doomed-Inv, freed-Inv, pinned-Inv, started-Inv, unpinned-Inv,
}
use mod_siprec.Registry.Invariant.Shapes.{entry-key, owned-Inv, status_at, unlisted_doomed-Inv}

-- A result that is no fault, and of which `P` holds.
abbrev pub Safe {ℓ} : {A : Type ℓ} → (A → Type 0) → Option A → Type 0
Safe P none = ⊥
Safe P (some x) = P x

abbrev pub Claimed : System → Registry × Option ℕ × Bool → Type 0
Claimed s (g, owner, found) = Inv (record s { reg = g; claims = bump_if s.claims owner })

abbrev pub Acquired : System → Registry × Option ℕ → Type 0
Acquired s (g, pinned) = Inv (record s { reg = g; pins = bump_if s.pins pinned })

abbrev pub Unpinned : System → ℕ → Registry × Bool × Bool → Type 0
Unpinned s r (g, doomed, last) =
    Inv (record s { reg = g; pins = drop_one s.pins r; claims = bump_when last s.claims r })

abbrev pub Torn : System → ℕ → Registry → Type 0
Torn s r g = Inv (record s { reg = g; claims = drop_one s.claims r })

abbrev pub Marked : System → Registry × Bool → Type 0
Marked s (g, marked) = Inv (record s { reg = g })

abbrev pub Doomed : System → Registry → Type 0
Doomed s g = Inv (record s { reg = g })

abbrev pub Started : System → ℕ → Registry × Insertion → Type 0
Started s r (g, in_use) = g ≡ s.reg
Started s r (g, inserted stale) =
    Inv (record s { reg = g; pins = bump s.pins r; claims = bump_if s.claims stale })

module _ (s : System) (inv : Inv s) where
  open s.reg use {table, heap}

  -- What a pin or a claim is held on has not been freed.
  pub pinned_live : (r : ℕ) → 0 < s.pins r → (rec : Recording) × (heap r ≡ some rec)
  pinned_live r lt = elim (Option-cases (heap r)) [
    | inl gone ↦ let (z, _) = rw gone at (inv.status r) in absurd (omega arith)
    | inr found ↦ found
  ]

  pub claimed_live : (r : ℕ) → 0 < s.claims r → (rec : Recording) × (heap r ≡ some rec)
  claimed_live r lt = elim (Option-cases (heap r)) [
    | inl gone ↦ let (_, z) = rw gone at (inv.status r) in absurd (omega arith)
    | inr found ↦ found
  ]

  pub claim_recording-Safe : (key : Bytes) → Safe (Claimed s) (claim_recording key s.reg)
  unfolding claim_recording
  claim_recording-Safe key = elim (Option-cases (lookup key table)) [
    | inl missing ↦ rw missing inv
    | inr (r, at_r) ↦
        let (rec, live, e) = inv.keyed key r at_r in
        rw (at_r, live)
          (elim (Bool-cases (ltb 0 rec.use_count)) [
            | inl pinned ↦
                let (count, _) = status_at s inv r live in
                let lt : 0 < s.pins r = ground arith in
                rw pinned (unlisted_doomed-Inv s inv key r at_r live lt)
            | inr unpinned ↦ rw unpinned (owned-Inv s inv key r at_r live (ground arith))
          ])
  ]

  pub acquire_recording-Safe : (key : Bytes) → Safe (Acquired s) (acquire_recording key s.reg)
  unfolding acquire_recording
  acquire_recording-Safe key = elim (Option-cases (lookup key table)) [
    | inl missing ↦ rw missing inv
    | inr (r, at_r) ↦
        let (rec, live, e) = inv.keyed key r at_r in
        rw (at_r, live) (pinned-Inv s inv r live key at_r)
  ]

  pub unpin-Safe : (r : ℕ) → 0 < s.pins r → Safe (Unpinned s r) (unpin r s.reg)
  unfolding unpin
  unpin-Safe r lt = let (rec, live) = pinned_live r lt in rw live (unpinned-Inv s inv r live lt)

  pub teardown_recording-Safe :
      (located : Bytes → Bool) (r : ℕ)
      → 0 < s.claims r
      → Safe (Torn s r) (teardown_recording located r s.reg)
  unfolding teardown_recording
  teardown_recording-Safe located r lt =
      let (rec, live) = claimed_live r lt in rw live (freed-Inv s inv r live _ lt)

  pub doom-Safe : (r : ℕ) → 0 < s.pins r → Safe (Doomed s) (doom r s.reg)
  unfolding doom
  doom-Safe r lt = let (rec, live) = pinned_live r lt in rw live (doomed-Inv s inv r live lt)

  leg-Marked :
      (r : ℕ) {rec : Recording} (leg : Bytes)
      → heap r ≡ some rec
      → Safe (Marked s) (mark_gone r (some rec) leg s.reg)
  leg-Marked r {rec} leg live = elim (Option-cases rec.leg) [
    | inl no_leg ↦ rw no_leg inv
    | inr (l, has_leg) ↦ rw has_leg (
        if_elim (Safe (Marked s)) (equal l leg)
          (λ _. changed-Inv s inv r live (record rec { leg_gone = true }) refl refl refl)
          (λ _. inv))
  ]

  pub recording_leg_ended-Safe :
      (key leg : Bytes) → Safe (Marked s) (recording_leg_ended key leg s.reg)
  unfolding recording_leg_ended
  recording_leg_ended-Safe [] leg = inv
  recording_leg_ended-Safe (c ∷ key) [] = inv
  recording_leg_ended-Safe (c ∷ key) (d ∷ leg) = elim (Option-cases (lookup (c ∷ key) table)) [
    | inl missing ↦ rw missing inv
    | inr (r, at_r) ↦
        let (rec, live, _) = inv.keyed (c ∷ key) r at_r in
        rw (at_r, live) (leg-Marked r (d ∷ leg) live)
  ]

  -- The replaced recording is out of the table and owned before the new one goes in.
  replaced :
      (r q : ℕ) (key uuid : Bytes) {rec : Recording}
      → heap r ≡ none
      → lookup key table ≡ some q
      → heap q ≡ some rec
      → rec.use_count ≡ 0
      → Started s r (
        put_recording r (fresh_recording key uuid) (delete rec.key table) s.reg,
        inserted (some q),
      )
  replaced r q key uuid vacant at_q live unpinned = rw (entry-key s inv key q at_q live) (
      started-Inv
        (record s { reg = record (s.reg) { table = delete key table }; claims = bump s.claims q }) r
        key uuid (owned-Inv s inv key q at_q live unpinned) vacant
        (rw (lookup-delete key key table, equal_refl key)))

  pub insert_recording-Safe :
      (r : ℕ) (key uuid : Bytes)
      → heap r ≡ none
      → Safe (Started s r) (insert_recording r key uuid s.reg)
  unfolding insert_recording
  insert_recording-Safe r key uuid vacant = elim (Option-cases (lookup key table)) [
    | inl missing ↦ rw missing (started-Inv s r key uuid inv vacant missing)
    | inr (q, at_q) ↦
        let (rec, live, _) = inv.keyed key q at_q in
        rw (at_q, live)
          (if_elim (Safe (Started s r)) (ltb 0 rec.use_count || not rec.leg_gone) (λ _. refl)
            (λ free_to. replaced r q key uuid vacant at_q live (ground arith)))
  ]

  pub Step-Inv : {located : Bytes → Bool} {t : System} → Step located s t → Inv t
  Step-Inv (claims_it key e) = rw e at (claim_recording-Safe key)
  Step-Inv (acquires key e) = rw e at (acquire_recording-Safe key)
  Step-Inv (releases r lt e) = rw e at (unpin-Safe r lt)
  Step-Inv {located} (tears_down r lt e) = rw e at (teardown_recording-Safe located r lt)
  Step-Inv (leg_ends key leg e) = rw e at (recording_leg_ended-Safe key leg)
  Step-Inv (equips r leg forked lt live) = changed-Inv s inv r live _ refl refl refl
  Step-Inv (starts r key uuid vacant e) = rw e at (insert_recording-Safe r key uuid vacant)
  Step-Inv (dooms r lt e) = rw e at (doom-Safe r lt)
  Step-Inv (handles change) = record {
    keyed = inv.keyed;
    distinct = inv.distinct;
    status = inv.status;
  }

pub Reach-Inv : {located : Bytes → Bool} {s t : System} → Inv s → Reach located s t → Inv t
Reach-Inv inv stay = inv
Reach-Inv inv (go {t} path step) = Step-Inv t (Reach-Inv inv path) step
