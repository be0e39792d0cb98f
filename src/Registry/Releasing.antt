-- ===== src/Registry/Releasing.antt =====
-- `release_recording` of recording_session.c in the states that the threads can reach.
use mod_siprec.Base.{
  ==_iff, ==_refl, Bool, Bool-cases, Bytes, List, Option, [], arith, false, inl, inr, lookup, none,
  refl, some, true, ℕ, ◌&&◌, ◌++◌, ◌-◌, ◌<◌, ◌==◌, ◌∙◌, ◌∷◌, ◌≡◌, ◌≢◌,
}
use mod_siprec.Registry.{
  Effect, Recording, Registry, bye, bye_effect, detach, detach_effect, finish_release, free,
  release_recording, teardown_recording, unpin, write,
}
use mod_siprec.Registry.Interleaving.{Reach, System, empty_system}
use mod_siprec.Registry.Invariant.{Life, doomed_pinned, empty-Inv, listed, owned, points}
use mod_siprec.Registry.Invariant.Shapes.{own_key, status_at}
use mod_siprec.Registry.Invariant.Steps.{Reach-Inv}
use mod_siprec.Registry.Safety.{claimed-alone, live-retirable}

-- The BYE of a leg: none is sent without a leg, or where its session is gone.
pub data Byes (located : Bytes → Bool) : Option Bytes → List Effect → Type 0 where
  no_leg : Byes located none []
  empty_leg : Byes located (some []) []
  gone : (c : ℕ) (leg : Bytes) → located (c ∷ leg) ≡ false → Byes located (some (c ∷ leg)) []
  sent :
      (c : ℕ) (leg : Bytes)
      → located (c ∷ leg) ≡ true
      → Byes located (some (c ∷ leg)) (bye (c ∷ leg) ∷ [])

-- The end of a fork.
pub data Detaches (r : ℕ) : Bool → List Effect → Type 0 where
  fork_off : Detaches r true (detach r ∷ [])
  no_fork : Detaches r false []

-- The effects of a teardown, the newest first: the fork, then the BYE, then the free.
pub data Teardown (located : Bytes → Bool) (r : ℕ) (rec : Recording) (old : List Effect)
    : List Effect → Type 0 where
  teardown :
      {byes detaches : List Effect}
      → Byes located rec.leg byes
      → Detaches r rec.forked detaches
      → Teardown located r rec old (free r ∷ (byes ++ (detaches ++ old)))

-- What the release of one of `pins` pins comes to.
pub data Released (located : Bytes → Bool) (pins r : ℕ) (rec : Recording) (reg : Registry)
    : Registry × Bool → Type 0 where
  in_table :
      {g : Registry}
      → rec.doomed ≡ false
      → lookup rec.key g.table ≡ some r
      → g.heap r ≡ some (record rec { use_count = pins - 1 })
      → g.effects ≡ reg.effects
      → Released located pins r rec reg (g, rec.doomed)
  waiting :
      {g : Registry}
      → rec.doomed ≡ true
      → 1 < pins
      → ((key : Bytes) → lookup key g.table ≢ some r)
      → g.heap r ≡ some (record rec { use_count = pins - 1 })
      → g.effects ≡ reg.effects
      → Released located pins r rec reg (g, rec.doomed)
  ended :
      {g : Registry}
      → rec.doomed ≡ true
      → pins ≡ 1
      → ((key : Bytes) → lookup key g.table ≢ some r)
      → g.heap r ≡ none
      → Teardown located r rec reg.effects g.effects
      → Released located pins r rec reg (g, rec.doomed)

detach_effect-Detaches :
    (r : ℕ) (rec : Recording) (old : List Effect)
    → (d : List Effect) × (detach_effect r rec old ≡ d ++ old) × Detaches r rec.forked d
detach_effect-Detaches r rec old = elim (Bool-cases rec.forked) [
  | inl on ↦ (detach r ∷ [], rw on refl, rw on fork_off)
  | inr off ↦ ([], rw off refl, rw off no_fork)
]

bye_effect-Byes :
    (located : Bytes → Bool) (leg : Option Bytes) (old : List Effect)
    → (b : List Effect) × (bye_effect located leg old ≡ b ++ old) × Byes located leg b
bye_effect-Byes located none old = ([], refl, no_leg)
bye_effect-Byes located (some []) old = ([], refl, empty_leg)
bye_effect-Byes located (some (c ∷ leg)) old = elim (Bool-cases (located (c ∷ leg))) [
  | inl there ↦ (bye (c ∷ leg) ∷ [], rw there refl, sent c leg there)
  | inr off ↦ ([], rw off refl, gone c leg off)
]

torn-Teardown :
    (located : Bytes → Bool) (r : ℕ) (rec : Recording) (old : List Effect)
    → Teardown located r rec old (free r ∷ bye_effect located rec.leg (detach_effect r rec old))
torn-Teardown located r rec old =
    let (d, forks, detaches) = detach_effect-Detaches r rec old in
    let (b, byes, sends) = bye_effect-Byes located rec.leg (d ++ old) in
    rw (forks, byes) (teardown sends detaches)

write_other :
    (heap : ℕ → Option Recording) (r q : ℕ) (o : Option Recording)
    → q ≢ r
    → write heap r o q ≡ heap q
write_other heap r q o ne = elim (Bool-cases (q == r)) [
  | inl same ↦ absurd (ne ((==_iff q r).0 same))
  | inr other ↦ rw other refl
]

module _ {located : Bytes → Bool} {s : System} (path : Reach located empty_system s) (r : ℕ)
    (rec : Recording) (live : s.reg.heap r ≡ some rec) (pinned : 0 < s.pins r) where
  open s use {reg, pins, claims}

  unclaimed : claims r ≡ 1 → ⊥
  unclaimed one =
      let (once, unpinned, hidden) = claimed-alone path r (omega arith) in absurd (omega arith)

  still_listed : rec.doomed ≡ false → lookup rec.key reg.table ≡ some r
  still_listed alive = elim ((live-retirable path r rec live).1) [
    | inl (at_r, d) ↦ at_r
    | inr (inl (d, lt)) ↦ absurd (cc)
    | inr (inr one) ↦ elim (unclaimed one) [ ]
  ]

  counted : Life (points (lookup rec.key reg.table) r) rec.doomed (pins r) (claims r)
  counted = (status_at s (Reach-Inv empty-Inv path) r live).1

  off : {entry doomed : Bool} {p c : ℕ} → doomed ≡ true → Life entry doomed p c → entry ≡ false
  off is_doomed (listed e d z) = absurd (cc)
  off is_doomed (doomed_pinned e d lt z) = e
  off is_doomed (owned e z one) = e

  unlisted : rec.doomed ≡ true → (key : Bytes) → lookup key reg.table ≢ some r
  unlisted doomed key at_r =
      let own = own_key s (Reach-Inv empty-Inv path) key r at_r live in
      let hidden = rw own at (off doomed counted) in ground (arith, ==_refl r)

  abbrev unpinned : Registry
  unpinned = record reg {
    heap = write reg.heap r (some (record rec { use_count = rec.use_count - 1 }));
  }

  abbrev freed : Registry
  freed = record reg {
    heap = write (write reg.heap r (some (record rec { use_count = rec.use_count - 1 }))) r none;
    effects = free r ∷ bye_effect located rec.leg (detach_effect r rec reg.effects);
  }

  stays :
      (rec.use_count - 1 == 0 && rec.doomed) ≡ false
      → release_recording located r reg ≡ some (unpinned, rec.doomed)
  unfolding release_recording unpin
  stays h = rw (live, h) refl

  torn_down : teardown_recording located r unpinned ≡ some freed
  unfolding teardown_recording
  torn_down = rw (==_refl r) refl

  goes :
      (rec.use_count - 1 == 0 && rec.doomed) ≡ true
      → release_recording located r reg ≡ some (freed, rec.doomed)
  unfolding release_recording unpin
  goes h = rw (live, h, finish_release, torn_down) refl

  count : rec.use_count ≡ pins r
  count = (status_at s (Reach-Inv empty-Inv path) r live).0

  one_less : unpinned.heap r ≡ some (record rec { use_count = pins r - 1 })
  one_less = rw (==_refl r, count) refl

  -- In a reachable state, let a recording be pinned. A release of it never faults, touches no other
  -- recording and not the table, and reports whether the recording was doomed. An undoomed one is
  -- in the table and has one pin less, and nothing else happens. So has a doomed one with more
  -- pins, which no key leads to. The last release of a doomed one frees it, after its fork is
  -- detached if it has one and then the BYE is sent if its leg is set and still has a session.
  pub release_recording-Released :
      (result : Registry × Bool) × (release_recording located r reg ≡ some result)
      × (result.0.table ≡ reg.table)
      × ((q : ℕ) → q ≢ r → result.0.heap q ≡ reg.heap q)
      × Released located (pins r) r rec reg result
  release_recording-Released = elim (Bool-cases rec.doomed) [
    | inr alive ↦ (
      (unpinned, rec.doomed),
      stays (ground arith),
      refl,
      λ q ne. write_other reg.heap r q _ ne,
      in_table alive (still_listed alive) one_less refl,
    )
    | inl doomed ↦ elim (Bool-cases (pins r == 1)) [
      | inl last ↦ (
        (freed, rec.doomed),
        goes (let c = count in ground arith),
        refl,
        λ q ne.
            write_other unpinned.heap r q none ne
            ∙ write_other reg.heap r q (some (record rec { use_count = rec.use_count - 1 })) ne,
        ended doomed (ground arith) (unlisted doomed) (rw (==_refl r) refl)
            (torn-Teardown located r rec reg.effects),
      )
      | inr more ↦ (
        (unpinned, rec.doomed),
        stays (let c = count in ground arith),
        refl,
        λ q ne. write_other reg.heap r q _ ne,
        waiting doomed (ground arith) (unlisted doomed) one_less refl,
      )
    ]
  ]
