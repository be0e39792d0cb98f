-- ===== src/Registry/Drain/Passes.antt =====
-- What a scan of the table copies, and how the passes of a drain of recording_session.c end.
use mod_siprec.Base.{
  Bool, Bool-cases, Bytes, List, Option, [], ap, arith, inl, inr, length, length_parts, ltb, ltb→lt,
  none, refl, short-drop, some, suc, sym, take, true, zero, ℕ, ◌+◌, ◌-◌, ◌<◌, ◌∙◌, ◌∷◌, ◌≡◌, ◌≤◌,
}
use mod_siprec.Registry.{Recording}
use mod_siprec.Registry.Drain.{
  drain_batch, drain_passes, drain_recordings, drained, matches, scan, scan_entry,
}
use mod_siprec.Registry.Drain.Reference.{add_hit, hits, retire_all}
use mod_siprec.Registry.Drain.Heads.{Inv-Owns, Owns}
use mod_siprec.Registry.Drain.Batches.{at_end, take-Progress, head_at, todo}
use mod_siprec.Registry.Interleaving.{Reach, System, empty_system}
use mod_siprec.Registry.Invariant.{Inv, empty-Inv}
use mod_siprec.Registry.Invariant.Steps.{Reach-Inv}

-- A scan copies the first of the recordings to stop.
copied :
    (uuid : Option Bytes) (room : ℕ) (rec : Recording) (go_on : ℕ → Option (List (Bytes × Bytes)))
    (rest : List (Bytes × Bytes))
    → ((n : ℕ) → go_on n ≡ some (take n rest))
    → scan_entry uuid room (some rec) go_on ≡ some (take room (add_hit uuid (some rec) rest))
copied uuid zero rec go_on rest h = rw (scan_entry, h zero) refl
copied uuid (suc room) rec go_on rest h =
    let more : ltb 0 (suc room) ≡ true = ground arith in
    let pred : suc room - 1 ≡ room = omega arith in
    elim (Bool-cases (matches uuid rec)) [
      | inl hit ↦ rw (more, hit, pred, h room) refl
      | inr miss ↦ rw (more, miss, h (suc room)) refl
    ]

pub scan-take :
    (uuid : Option Bytes) (heap : ℕ → Option Recording) (table : List (Bytes × ℕ)) (room : ℕ)
    → Owns heap table
    → scan uuid heap table room ≡ some (take room (hits uuid heap table))
unfolding scan hits
scan-take uuid heap [] zero owns = refl
scan-take uuid heap [] (suc room) owns = refl
scan-take uuid heap ((k, r) ∷ table) room ((rec, live, e), owns) = rw live (
    copied uuid room rec (scan uuid heap table) (hits uuid heap table)
      (λ n. scan-take uuid heap table n owns))

module _ (located : Bytes → Bool) (unbinds : Bool) (uuid : Option Bytes) where
  passes-lem :
      (fuel : ℕ) (s : System)
      → Inv s
      → (stopped : ℕ) → length (todo located unbinds uuid s.reg) < fuel
      → drain_passes located uuid unbinds fuel s.reg stopped
        ≡ drained
            (retire_all located uuid unbinds s.reg)
            (stopped + length (todo located unbinds uuid s.reg))
  unfolding drain_passes
  passes-lem zero s inv stopped lt = absurd (omega arith)
  passes-lem (suc fuel) s inv stopped lt =
      let step = take-Progress located unbinds uuid drain_batch s inv stopped in
      let sizes = length_parts drain_batch (todo located unbinds uuid s.reg) in
      let found = scan-take uuid s.reg.heap s.reg.table drain_batch (Inv-Owns s inv) in
      elim (Bool-cases
        (ltb (length (take drain_batch (todo located unbinds uuid s.reg))) drain_batch)) [
          | inl short ↦
              let all =
                short-drop drain_batch (todo located unbinds uuid s.reg) (ltb→lt _ _ short) in
              let none_more = ap length all in
              let end =
                at_end located unbinds uuid step.later
                  (head_at located unbinds uuid step.later step.later_inv) (step.still ∙ all) in
              let count : stopped + length (take drain_batch (todo located unbinds uuid s.reg))
                  ≡ stopped + length (todo located unbinds uuid s.reg) =
                omega arith in
              rw (found, step.stops, short, count)
                (ap (λ g. drained g (stopped + length (todo located unbinds uuid s.reg)))
                  (sym end ∙ step.same_end))
          | inr full ↦
              let left = ap length step.still in
              let fewer : length (todo located unbinds uuid step.later.reg) < fuel = ground arith in
              let rest =
                passes-lem fuel step.later step.later_inv
                  (stopped + length (take drain_batch (todo located unbinds uuid s.reg))) fewer in
              let count : stopped
                    + length (take drain_batch (todo located unbinds uuid s.reg))
                    + length (todo located unbinds uuid step.later.reg)
                  ≡ stopped + length (todo located unbinds uuid s.reg) =
                omega arith in
              rw (found, step.stops, full) (rest ∙ (λ i. drained (step.same_end i) (count i)))
        ]

length-hits :
    (uuid : Option Bytes) (heap : ℕ → Option Recording) (table : List (Bytes × ℕ))
    → length (hits uuid heap table) ≤ length table
unfolding hits
length-hits uuid heap [] = omega arith
length-hits uuid heap ((k, r) ∷ table) = one (heap r) _ _ (length-hits uuid heap table)
  where
    one :
        (o : Option Recording) (rest : List (Bytes × Bytes)) (n : ℕ)
        → length rest ≤ n
        → length (add_hit uuid o rest) ≤ suc n
    one none rest n le = omega arith
    one (some rec) rest n le = ground arith

-- In a reachable state, a drain for one call or for all, with more fuel than the table has
-- entries, comes to an end without a fault, and what it leaves is what stopping all those
-- recordings at once does: their entries are out of the table, the pinned ones are doomed and the
-- others freed, and the effects are theirs in the table's order, with the unbinding of their calls
-- where it is asked for; it counts each of them.
pub drain_recordings-retire_all :
    {located : Bytes → Bool} {s : System} (path : Reach located empty_system s)
    (uuid : Option Bytes) (unbinds : Bool) (fuel : ℕ)
    → length s.reg.table < fuel
    → drain_recordings located uuid unbinds fuel s.reg
      ≡ drained (retire_all located uuid unbinds s.reg) (length (hits uuid s.reg.heap s.reg.table))
drain_recordings-retire_all {located} {s} path uuid unbinds fuel lt =
    let le = length-hits uuid s.reg.heap s.reg.table in
    passes-lem located unbinds uuid fuel s (Reach-Inv empty-Inv path) 0 (omega arith)
    ∙ ap (drained (retire_all located uuid unbinds s.reg)) (omega arith)
