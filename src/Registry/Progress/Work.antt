-- ===== src/Registry/Progress/Work.antt =====
-- How many steps of the threads a recording that is out of the table is away from its end.
use mod_siprec.Base.{
  ==_iff, ==_refl, Bool, Bool-cases, Bytes, Option-cases, arith, false, if◌then◌else◌, inl, inr,
  none, refl, ℕ, ◌+◌, ◌<◌, ◌==◌, ◌≡◌, ◌≤◌, ◌⊎◌,
}
use mod_siprec.Registry.{teardown_recording, unpin}
use mod_siprec.Registry.Interleaving.{
  Reach, Step, System, acquires, claims_it, dooms, drop_one, empty_system, equips, go, handles,
  leg_ends, releases, starts, stay, tears_down,
}
use mod_siprec.Registry.Invariant.{Inv, Life, doomed_pinned, empty-Inv, listed, owned}
use mod_siprec.Registry.Invariant.Shapes.{status_at}
use mod_siprec.Registry.Invariant.Steps.{Reach-Inv, teardown_recording-Safe, unpin-Safe}
use mod_siprec.Registry.Progress.{
  Out, acquire_recording-Out, claim_recording-Out, doom-Out, equip-Out, insert_recording-Out,
  recording_leg_ended-Out, teardown_recording-Out, unpin-Out, vacant_other,
}

-- The steps of a run that release or tear down the recording at `r`.
abbrev pub step_works : {located : Bytes → Bool} {s t : System} → ℕ → Step located s t → ℕ
step_works r (releases q lt e) = if r == q then 1 else 0
step_works r (tears_down q lt e) = if r == q then 1 else 0
step_works r step = 0

abbrev pub works : {located : Bytes → Bool} {s t : System} → ℕ → Reach located s t → ℕ
works r stay = 0
works r (go path step) = works r path + step_works r step

-- In some state of a run the recording at `r` is freed.
abbrev pub Freed : {located : Bytes → Bool} {s t : System} → ℕ → Reach located s t → Type 0
Freed {s} r stay = s.reg.heap r ≡ none
Freed r (go {t} {u} path step) = Freed r path ⊎ (u.reg.heap r ≡ none)

-- One step frees it, or leaves it out of the table with as many pins fewer as the step does work.
abbrev Nearer : ℕ → System → System → ℕ → Type 0
Nearer r s t work = (t.reg.heap r ≡ none) ⊎ (Out t.reg r × (t.pins r + work ≡ s.pins r))

dropped : (f : ℕ → ℕ) (r q : ℕ) → 0 < f q → drop_one f q r + (if r == q then 1 else 0) ≡ f r
dropped f r q lt = elim (Bool-cases (r == q)) [
  | inl same ↦ let e = (==_iff r q).0 same in let lt' : 0 < f r = rw e lt in rw same (omega arith)
  | inr ne ↦ rw ne (omega arith)
]

module _ {located : Bytes → Bool} (s : System) (inv : Inv s) (r : ℕ) (out : Out s.reg r) where
  Step-Nearer : {t : System} (step : Step located s t) → Nearer r s t (step_works r step)
  Step-Nearer (claims_it key e) =
      inr (rw e at (claim_recording-Out s inv r out.1 out.2 key), omega arith)
  Step-Nearer (acquires key e) =
      let kept = rw e at (acquire_recording-Out s inv r out.1 out.2 key) in
      inr (kept.0, omega (arith, kept.1))
  Step-Nearer (releases q lt e) =
      inr (rw e at (unpin-Out s inv r out.1 out.2 q lt), dropped s.pins r q lt)
  Step-Nearer (tears_down q {g} lt e) =
      torn (rw e at (teardown_recording-Out s inv r out.1 out.2 located q lt))
    where
      torn :
          (g.heap r ≡ none) ⊎ (Out g r × ((r == q) ≡ false))
          → (g.heap r ≡ none) ⊎ (Out g r × (s.pins r + (if r == q then 1 else 0) ≡ s.pins r))
      torn (inl gone) = inl gone
      torn (inr (o, ne)) = inr (o, rw ne (omega arith))
  Step-Nearer (leg_ends key leg e) =
      inr (rw e at (recording_leg_ended-Out s inv r out.1 out.2 key leg), omega arith)
  Step-Nearer (equips q leg forked lt live) =
      inr (equip-Out s inv r out.1 out.2 q leg forked live, omega arith)
  Step-Nearer (starts q key uuid vacant e) =
      let ne = vacant_other s inv r out.1 out.2 q vacant in
      inr (rw e at (insert_recording-Out s inv r out.1 out.2 q key uuid ne), rw ne (omega arith))
  Step-Nearer (dooms q lt e) = inr (rw e at (doom-Out s inv r out.1 out.2 q lt), omega arith)
  Step-Nearer (handles change) = inr (out, omega arith)

Reach-Nearer :
    {located : Bytes → Bool} {s t : System} (r : ℕ)
    → Inv s
    → Out s.reg r
    → (path : Reach located s t)
    → Freed r path ⊎ (Out t.reg r × (t.pins r + works r path ≡ s.pins r))
Reach-Nearer r inv out stay = inr (out, omega arith)
Reach-Nearer {located} {s} r inv out (go {t} {u} path step) = last (Reach-Nearer r inv out path)
  where
    nearer :
        t.pins r + works r path ≡ s.pins r
        → Nearer r t u (step_works r step)
        → Freed r (go path step) ⊎ (Out u.reg r × (u.pins r + works r (go path step) ≡ s.pins r))
    nearer e (inl gone) = inl (inr gone)
    nearer e (inr (o, e')) = inr (o, omega arith)

    last :
        Freed r path ⊎ (Out t.reg r × (t.pins r + works r path ≡ s.pins r))
        → Freed r (go path step) ⊎ (Out u.reg r × (u.pins r + works r (go path step) ≡ s.pins r))
    last (inl gone) = inl (inl gone)
    last (inr (o, e)) = nearer e (Step-Nearer t (Reach-Inv inv path) r o step)

-- A step that works on the recording can be taken.
abbrev pub Ready : (Bytes → Bool) → ℕ → System → Type 0
Ready located r t = (u : System) × (step : Step located t u) × (step_works r step ≡ 1)

module _ (located : Bytes → Bool) (t : System) (inv : Inv t) (r : ℕ) where
  unpin-Ready : 0 < t.pins r → Ready located r t
  unpin-Ready lt = elim (Option-cases (unpin r t.reg)) [
    | inl fault ↦ absurd (rw fault at (unpin-Safe t inv r lt))
    | inr (x, e) ↦ (_, releases r lt e, rw (==_refl r) refl)
  ]

  teardown_recording-Ready : 0 < t.claims r → Ready located r t
  teardown_recording-Ready lt = elim (Option-cases (teardown_recording located r t.reg)) [
    | inl fault ↦ absurd (rw fault at (teardown_recording-Safe t inv located r lt))
    | inr (g, e) ↦ (_, tears_down r lt e, rw (==_refl r) refl)
  ]

  Life-Ready : {doomed : Bool} → Life false doomed (t.pins r) (t.claims r) → Ready located r t
  Life-Ready (listed e d z) = absurd (cc)
  Life-Ready (doomed_pinned e d lt z) = unpin-Ready lt
  Life-Ready (owned e z one) = teardown_recording-Ready (omega arith)

-- In a reachable state, let a recording that is not freed be out of the table, so that its key does
-- not lead to it: a stop, a start that replaced it or a start that failed has taken it out. However
-- the threads run on, it is freed in the course of the run, or at most as many of the run's steps
-- have released it or torn it down as there were pins on it, and such a step can be taken next.
pub Out-Freed :
    {located : Bytes → Bool} {s t : System} (start : Reach located empty_system s) (r : ℕ)
    → Out s.reg r
    → (path : Reach located s t) → Freed r path ⊎ ((works r path ≤ s.pins r) × Ready located r t)
Out-Freed {located} {s} {t} start r out path = ended (Reach-Nearer r inv out path)
  where
    inv : Inv s
    inv = Reach-Inv empty-Inv start

    ended :
        Freed r path ⊎ (Out t.reg r × (t.pins r + works r path ≡ s.pins r))
        → Freed r path ⊎ ((works r path ≤ s.pins r) × Ready located r t)
    ended (inl gone) = inl gone
    ended (inr (o, e)) =
        let (count, life) = status_at t (Reach-Inv inv path) r o.1 in
        let life' : Life false o.0.doomed (t.pins r) (t.claims r) = rw o.2 at life in
        inr (omega arith, Life-Ready located t (Reach-Inv inv path) r life')
