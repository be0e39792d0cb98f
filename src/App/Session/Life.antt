-- ===== src/App/Session/Life.antt =====
-- From the load of mod_siprec.c to its shutdown, whatever calls come between.
use mathlib.Core.Path.{subst}
use mod_siprec.Base.{
  Bool, Bytes, List, Option, [], ap, arith, false, length, lookup, none, refl, some, suc, true, ℕ,
  ◌∙◌, ◌≡◌,
}
use mod_siprec.App.{Module, emptied, no_recordings, shutdown, unloaded}
use mod_siprec.App.Load.{LoadOutcome, Undone, loaded-LoadOutcome}
use mod_siprec.App.Session.{Event, lifetime, served}
use mod_siprec.App.Session.Answers.{on_events-Reach}
use mod_siprec.App.Session.Stored.{stored_globals-Holds, table_chains}
use mod_siprec.Config.{Element, Readers, Server}
use mod_siprec.Config.Pools.Freeing.{free_recording_servers-freed}
use mod_siprec.Config.Pools.Loading.{Holds}
use mod_siprec.Direction.{World}
use mod_siprec.G711.{Codebook}
use mod_siprec.Leg.{Network}
use mod_siprec.Media.Attach.{Host}
use mod_siprec.Registry.{Recording, Registry}
use mod_siprec.Registry.Drain.Ends.{teardown_all_recordings-empty}
use mod_siprec.Registry.Drain.Reference.{retired}
use mod_siprec.Registry.Interleaving.{Reach, empty_system, stay}
use mod_siprec.Registry.Invariant.{Life, StatusOf, doomed_pinned, empty-Inv, listed, owned}
use mod_siprec.Registry.Invariant.Steps.{Reach-Inv}
use mod_siprec.Registry.Runs.{join}
use mod_siprec.Registry.Runs.Drains.{teardown_all_recordings-Ran}
use mod_siprec.Start.Servers.{Globals}

-- Nothing of the module is left in memory.
abbrev pub Clean : Registry × Module → Type 0
Clean (g, m) =
    ((r : ℕ) → g.heap r ≡ none)
    × (m.recordings ≡ none)
    × (m.servers.hash ≡ none)
    × ((p : ℕ) → m.servers.memory p ≡ none)

module _ (split : Bytes → Option (List Bytes)) (R : Type 0) (world : World) (net : Network)
    (host : Host) (settings : Globals) (new_pool : Registry → Option ℕ)
    (fresh : (g : Registry) (r : ℕ) → new_pool g ≡ some r → g.heap r ≡ none) where
  -- With an empty table and no thread at work, every recording is freed.
  unlisted-freed :
      (g : Registry)
      → Reach world.located empty_system (record empty_system { reg = g })
      → g.table ≡ []
      → (r : ℕ) → g.heap r ≡ none
  unlisted-freed g path none_left r =
      let inv = Reach-Inv empty-Inv path in
      gone (g.heap r) (subst (λ t. StatusOf t r (g.heap r) 0 0) none_left (inv.status r))
    where
      ended : {doomed : Bool} → Life false doomed 0 0 → ⊥
      ended (listed e d c) = cc
      ended (doomed_pinned e d lt c) = absurd (omega arith)
      ended (owned e p c) = absurd (omega arith)

      gone : (o : Option Recording) → StatusOf [] r o 0 0 → o ≡ none
      gone none status = refl
      gone (some rec) (count, life) = absurd (ended {doomed = rec.doomed} (unfold lookup in life))

  shutdown-Clean :
      (m : Module) (g : Registry) {table : List (Bytes × List Server)}
      → Holds m.servers table
      → Reach world.located empty_system (record empty_system { reg = g })
      → (end : Registry × Module) × (shutdown world.located
            (suc (length g.table))
            (record m { recordings = some g })
          ≡ some end)
        × Clean end
  unfolding shutdown
  shutdown-Clean m g held path =
      let loaded : Module = record m { recordings = some g } in
      let (g', torn, none_left, retired) =
        teardown_all_recordings-empty path (suc (length g.table)) (omega arith) in
      let path' = join world.located path (
        rw torn at (
          teardown_all_recordings-Ran world.located (record empty_system { reg = g })
            (suc (length g.table)))) in
      let (s, run, no_hash, no_pool) = free_recording_servers-freed held in
      (
        (g', record loaded { servers = s; recordings = none }),
        ap (unloaded loaded) torn ∙ ap (emptied loaded g') run,
        (unlisted-freed g' path' none_left, refl, no_hash, no_pool),
      )

  abbrev Lives : Option (Registry × Module) → Type 0
  Lives o = (end : Registry × Module) × (o ≡ some end) × Clean end

  loaded-Lives :
      (events : List Event) (m : Module) {table : List (Bytes × List Server)}
      → Holds m.servers table
      → m.recordings ≡ some no_recordings
      → Lives (served split R world net host settings new_pool events m true m.recordings)
  loaded-Lives events m {table} held there =
      let now : Globals = record settings { recording_servers = table_chains table held.hash } in
      let (g, e, path) =
        on_events-Reach split R world net host now new_pool fresh events no_recordings stay in
      rw (there, stored_globals-Holds settings held, e) (shutdown-Clean m g held path)

  failed-Lives :
      (events : List Event) (m : Module) (ok : Bool)
      → ok ≡ false
      → Undone m
      → Lives (served split R world net host settings new_pool events m ok m.recordings)
  failed-Lives events m ok e (no_hash, no_pool, none_there, apps) =
      rw e ((no_recordings, m), refl, (λ r. refl, none_there, no_hash, no_pool))

  outcome-Lives :
      (readers : Readers) (granted : ℕ → Bool) (events : List Event) (reloaded : Bool)
      (file : Option (List Element)) (m : Module) (ok : Bool)
      → LoadOutcome readers granted reloaded file m ok
      → Lives (served split R world net host settings new_pool events m ok m.recordings)
  outcome-Lives readers granted events true (some elements) m ok (e, held, found, there, apps) =
      rw e (loaded-Lives events m held there)
  outcome-Lives readers granted events true none m ok (e, undone) =
      failed-Lives events m ok e undone
  outcome-Lives readers granted events false file m ok (e, undone) =
      failed-Lives events m ok e undone

  -- Whatever siprec.conf holds, and whatever calls come in between, one after the other and in any
  -- order: applications on any calls with any arguments, where starts read the recording servers that
  -- the load left in memory, and hangups of calls and of recording legs; if every start gets a
  -- memory pool that is not in use, then the life of the module, from its load to its shutdown,
  -- comes to an end without the use of a freed recording, of a destroyed pool or of a hash that is
  -- not there, and in the end every recording is freed, every server's pool is destroyed, and both
  -- hashes are.
  pub lifetime-Clean :
      (readers : Readers) (granted : ℕ → Bool) (reloaded : Bool) (file : Option (List Element))
      (book : Codebook) (events : List Event)
      → (end : Registry × Module) × (lifetime split R world net host settings new_pool readers
            granted reloaded file book events
          ≡ some end)
        × Clean end
  unfolding lifetime
  lifetime-Clean readers granted reloaded file book events =
      let (m, ok, e, built, outcome) = loaded-LoadOutcome readers granted book reloaded file in
      rw e (outcome-Lives readers granted events reloaded file m ok outcome)
