-- ===== src/Registry/Drain/Reference.antt =====
-- What a drain of recording_session.c comes to, in one pass and with no batches.
use mod_siprec.Base.{
  Bool, Bytes, List, Option, [], equal, false, if◌then◌else◌, ltb, none, some, true, ℕ, ◌&&◌, ◌==◌,
  ◌∷◌,
}
use mod_siprec.Registry.{Effect, Recording, Registry, bye_effect, detach_effect, free}
use mod_siprec.Registry.Drain.{matches, unbind_effect}

-- A recording that is stopped: doomed while it is pinned, freed otherwise.
abbrev pub retired : Recording → Option Recording
retired rec = if ltb 0 rec.use_count then some (record rec { doomed = true }) else none

abbrev pub retire_effects : (Bytes → Bool) → Bool → ℕ → Recording → List Effect → List Effect
retire_effects located unbinds r rec log =
    let log' =
      if ltb 0 rec.use_count
      then log
      else free r ∷ bye_effect located rec.leg (detach_effect r rec log) in
    if unbinds then unbind_effect located rec.uuid log' else log'

abbrev pub is_hit : Option Bytes → Option Recording → Bool
is_hit uuid none = false
is_hit uuid (some rec) = matches uuid rec

abbrev pub add_hit : Option Bytes → Option Recording → List (Bytes × Bytes) → List (Bytes × Bytes)
add_hit uuid none rest = rest
add_hit uuid (some rec) rest = if matches uuid rec then (rec.key, rec.uuid) ∷ rest else rest

-- The recordings to stop.
unfoldable pub hits :
    Option Bytes → (ℕ → Option Recording) → List (Bytes × ℕ) → List (Bytes × Bytes)
unfolding equal
hits uuid heap [] = []
hits uuid heap ((k, r) ∷ table) = add_hit uuid (heap r) (hits uuid heap table)

-- The entries that stay.
unfoldable pub kept : Option Bytes → (ℕ → Option Recording) → List (Bytes × ℕ) → List (Bytes × ℕ)
unfolding equal
kept uuid heap [] = []
kept uuid heap ((k, r) ∷ table) =
    let rest = kept uuid heap table in if is_hit uuid (heap r) then rest else (k, r) ∷ rest

abbrev pub retire_at : Option Bytes → ℕ → Option Recording → ℕ → Option Recording → Option Recording
retire_at uuid r none q later = later
retire_at uuid r (some rec) q later = if matches uuid rec && q == r then retired rec else later

unfoldable pub retired_heap :
    Option Bytes → (ℕ → Option Recording) → List (Bytes × ℕ) → ℕ → Option Recording
unfolding equal
retired_heap uuid heap [] q = heap q
retired_heap uuid heap ((k, r) ∷ table) q =
    retire_at uuid r (heap r) q (retired_heap uuid heap table q)

abbrev pub log_entry :
    (Bytes → Bool) → Option Bytes → Bool → ℕ → Option Recording → List Effect → List Effect
log_entry located uuid unbinds r none log = log
log_entry located uuid unbinds r (some rec) log =
    if matches uuid rec then retire_effects located unbinds r rec log else log

unfoldable pub retired_log :
    (Bytes → Bool)
    → Option Bytes
    → Bool
    → (ℕ → Option Recording)
    → List (Bytes × ℕ)
    → List Effect
    → List Effect
unfolding equal
retired_log located uuid unbinds heap [] log = log
retired_log located uuid unbinds heap ((k, r) ∷ table) log =
    retired_log located uuid unbinds heap table (log_entry located uuid unbinds r (heap r) log)

-- All recordings of a call, or all there are, stopped at once.
abbrev pub retire_all : (Bytes → Bool) → Option Bytes → Bool → Registry → Registry
retire_all located uuid unbinds g = record {
  table = kept uuid g.heap g.table;
  heap = retired_heap uuid g.heap g.table;
  effects = retired_log located uuid unbinds g.heap g.table g.effects;
}
