-- ===== src/Registry/Drain/Batches.antt =====
-- The stops of a drain of recording_session.c: of one recording, and of a batch.
use mathlib.Core.Path.{fun_ext}
use mod_siprec.Base.{
  ==_refl, Bool, Bool-cases, Bytes, List, Option, [], ap, arith, delete, drop, drop-all, false,
  if◌then◌else◌, inl, inr, length, lookup, ltb, refl, some, suc, sym, take, true, zero, ℕ, ◌&&◌,
  ◌+◌, ◌<◌, ◌∙◌, ◌≡◌,
}
use mod_siprec.Registry.{Effect, Recording, Registry, claim_recording, teardown_recording, write}
use mod_siprec.Registry.Stop.{finish_stop}
use mod_siprec.Registry.Drain.{stop_batch, stop_one, unbind_call_handler, unbind_effect}
use mod_siprec.Registry.Drain.Reference.{hits, retire_all, retire_effects, retired}
use mod_siprec.Registry.Drain.Heads.{After, Head, Inv-Owns, first, head-lem, no_hit}
use mod_siprec.Registry.Interleaving.{System, bump, drop_one}
use mod_siprec.Registry.Invariant.{Inv}
use mod_siprec.Registry.Invariant.Changes.{freed-Inv}
use mod_siprec.Registry.Invariant.Shapes.{owned-Inv, status_at, unlisted_doomed-Inv}

module _ (located : Bytes → Bool) (unbinds : Bool) where
  -- The registry after the stop of one recording.
  abbrev pub stopped_registry : ℕ → Recording → Registry → Registry
  stopped_registry r rec g = record {
    table = delete rec.key g.table;
    heap = write g.heap r (retired rec);
    effects = retire_effects located unbinds r rec g.effects;
  }

  abbrev pub Stops : (s : System) → ℕ → Recording → Type 0
  Stops s r rec =
      (stop_one located unbinds rec.key rec.uuid s.reg ≡ some (stopped_registry r rec s.reg, true))
      × ((pins claims : ℕ → ℕ) × Inv
            (record { reg = stopped_registry r rec s.reg; pins = pins; claims = claims }))

  -- Effects do not matter to who may touch what.
  logged-Inv :
      (s : System) (log : List Effect)
      → Inv s
      → Inv (record s { reg = record (s.reg) { effects = log } })
  logged-Inv s log inv = record { keyed = inv.keyed; distinct = inv.distinct; status = inv.status }

  unbound :
      (b : Bool) (uuid : Bytes) (g : Registry)
      → (if b && true then unbind_call_handler located uuid g else g)
        ≡ record g { effects = if b then unbind_effect located uuid g.effects else g.effects }
  unbound true uuid g = refl
  unbound false uuid g = refl

  pub stop_one-lem :
      (s : System)
      → Inv s
      → (r : ℕ) (rec : Recording) → lookup rec.key s.reg.table ≡ some r
      → s.reg.heap r ≡ some rec
      → Stops s r rec
  unfolding stop_one claim_recording teardown_recording
  stop_one-lem s inv r rec at_r live = elim (Bool-cases (ltb 0 rec.use_count)) [
    | inl pinned ↦
        let (count, _) = status_at s inv r live in
        let lt : 0 < s.pins r = ground arith in
        rw (at_r, live, pinned)
          (
            ap (λ g. some (g, true)) (unbound unbinds rec.uuid _),
            (
              s.pins,
              s.claims,
              logged-Inv _
                  (if unbinds then unbind_effect located rec.uuid s.reg.effects else s.reg.effects)
                  (unlisted_doomed-Inv s inv rec.key r at_r live lt),
            ),
          )
    | inr idle ↦
        rw (at_r, live, idle, finish_stop, live)
          (
            ap (λ g. some (g, true)) (unbound unbinds rec.uuid _),
            (
              s.pins,
              drop_one (bump s.claims r) r,
              freed-Inv
                  (record s {
                    reg = record (s.reg) { table = delete rec.key s.reg.table };
                    claims = bump s.claims r;
                  })
                  (owned-Inv s inv rec.key r at_r live (ground arith)) r live _
                  (rw (==_refl r) (omega arith)),
            ),
          )
  ]

  module _ (uuid : Option Bytes) where
    abbrev pub todo : Registry → List (Bytes × Bytes)
    todo g = hits uuid g.heap g.table

    -- Some stops later, with `rest` still to do.
    pub record Progress (g : Registry) (result : Option (Registry × ℕ)) (stopped : ℕ)
        (rest : List (Bytes × Bytes)) : Type 0 where
      pub later : System
      pub later_inv : Inv later
      pub stops : result ≡ some (later.reg, stopped)
      pub same_end : retire_all located uuid unbinds later.reg ≡ retire_all located uuid unbinds g
      pub still : todo later.reg ≡ rest

    pub head_at : (s : System) → Inv s → Head located uuid unbinds s.reg.heap s.reg.table
    head_at s inv =
        head-lem located uuid unbinds s.reg.heap s.reg.table inv.distinct (Inv-Owns s inv)

    first-end :
        (g : Registry) (r : ℕ) (rec : Recording) (rest : List (Bytes × Bytes))
        → After located uuid unbinds g.heap g.table r rec rest
        → retire_all located uuid unbinds (stopped_registry r rec g)
          ≡ retire_all located uuid unbinds g
    first-end g r rec rest after = λ i. record {
      table = after.next_kept i;
      heap = fun_ext after.next_heap i;
      effects = after.next_log g.effects i;
    }

    abbrev pub Batch : ℕ → Type 0
    Batch n =
        (s : System)
        → Inv s
        → (stopped : ℕ)
        → Progress s.reg (stop_batch located unbinds (take n (todo s.reg)) s.reg stopped)
            (stopped + length (take n (todo s.reg))) (drop n (todo s.reg))

    stay-Progress :
        (s : System)
        → Inv s
        → (stopped : ℕ) → Progress s.reg (some (s.reg, stopped)) (stopped + 0) (todo s.reg)
    stay-Progress s inv stopped = record {
      later = s;
      later_inv = inv;
      stops = ap (λ n. some (s.reg, n)) (omega arith);
      same_end = refl;
      still = refl;
    }

    next-Progress :
        (n : ℕ)
        → Batch n
        → (s : System) (inv : Inv s) (stopped : ℕ)
        → Head located uuid unbinds s.reg.heap s.reg.table
        → Progress s.reg
            (stop_batch located unbinds (take (suc n) (todo s.reg)) s.reg stopped)
            (stopped + length (take (suc n) (todo s.reg)))
            (drop (suc n) (todo s.reg))
    unfolding stop_batch
    next-Progress n ih s inv stopped (no_hit none_left a b c) =
        rw none_left (rw none_left at (stay-Progress s inv stopped))
    next-Progress n ih s inv stopped (first r rec rest at_r live more after) =
        let (stop, (pins, claims, inv')) = stop_one-lem s inv r rec at_r live in
        let t : System = record {
          reg = stopped_registry r rec s.reg;
          pins = pins;
          claims = claims;
        } in
        let h = rw after.next_hits at (ih t inv' (stopped + 1)) in
        rw (more, stop)
          (record {
            later = h.later;
            later_inv = h.later_inv;
            stops = h.stops ∙ ap (λ k. some (h.later.reg, k)) (omega arith);
            same_end = h.same_end ∙ first-end s.reg r rec rest after;
            still = h.still;
          })

    pub take-Progress : (n : ℕ) → Batch n
    unfolding stop_batch
    take-Progress zero s inv stopped = stay-Progress s inv stopped
    take-Progress (suc n) s inv stopped =
        next-Progress n (take-Progress n) s inv stopped (head_at s inv)

    -- With nothing left to do, the end is reached.
    pub at_end :
        (s : System)
        → Head located uuid unbinds s.reg.heap s.reg.table
        → todo s.reg ≡ []
        → retire_all located uuid unbinds s.reg ≡ s.reg
    at_end s (no_hit none_left a b c) e =
        λ i. record { table = a i; heap = fun_ext b i; effects = c s.reg.effects i }
    at_end s (first r rec rest at_r live more after) e = cc

    -- The end of a drain is a state of the registry, with nothing left to do.
    pub retire_all-Inv :
        (s : System)
        → Inv s
        → (t : System) × Inv t × (t.reg ≡ retire_all located uuid unbinds s.reg) × (todo t.reg ≡ [])
    retire_all-Inv s inv =
        let n = length (todo s.reg) in
        let all = take-Progress n s inv 0 in
        let none_left = all.still ∙ drop-all (todo s.reg) in
        (
          all.later,
          all.later_inv,
          sym (at_end all.later (head_at all.later all.later_inv) none_left) ∙ all.same_end,
          none_left,
        )
