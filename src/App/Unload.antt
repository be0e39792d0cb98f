-- ===== src/App/Unload.antt =====
-- What the shutdown of mod_siprec.c leaves behind.
use mathlib.Core.Option.{some-injective}
use mod_siprec.Base.{
  Bool, Bool-cases, Bytes, List, Option, [], ap, arith, equal, if_elim, if◌then◌else◌, inl, inr,
  length, lookup, ltb, none, refl, set, some, true, ℕ, ◌<◌, ◌∙◌, ◌∷◌, ◌≡◌, ◌≢◌, ◌⊎◌,
}
use mod_siprec.App.{Module, emptied, shutdown, unloaded}
use mod_siprec.Config.{Server}
use mod_siprec.Config.Pools.{Servers}
use mod_siprec.Config.Pools.Freeing.{free_recording_servers-freed}
use mod_siprec.Config.Pools.Loading.{Holds}
use mod_siprec.Registry.{Effect, Recording, Registry, bye_effect, detach_effect, free, unbind}
use mod_siprec.Registry.Drain.{teardown_all_recordings, unbind_effect}
use mod_siprec.Registry.Drain.Release.{kept-none, retired_heap-entry}
use mod_siprec.Registry.Drain.Heads.{Inv-Owns, Owns}
use mod_siprec.Registry.Drain.Passes.{drain_recordings-retire_all}
use mod_siprec.Registry.Drain.Reference.{log_entry, retire_all, retire_effects, retired_log}
use mod_siprec.Registry.Invariant.{empty-Inv}
use mod_siprec.Registry.Invariant.Steps.{Reach-Inv}
use mod_siprec.Registry.Interleaving.{Reach, System, empty_system}

-- An effect is in the log.
abbrev pub Happened : Effect → List Effect → Type 0
Happened e [] = ⊥
Happened e (x ∷ log) = (x ≡ e) ⊎ Happened e log

module _ (e : Effect) (located : Bytes → Bool) where
  unbind_effect-Happened :
      (uuid : Bytes) (log : List Effect)
      → Happened e log
      → Happened e (unbind_effect located uuid log)
  unbind_effect-Happened [] log h = h
  unbind_effect-Happened (c ∷ uuid) log h =
      if_elim (Happened e) (located (c ∷ uuid)) (λ _. inr h) (λ _. h)

  bye_effect-Happened :
      (leg : Option Bytes) (log : List Effect)
      → Happened e log
      → Happened e (bye_effect located leg log)
  bye_effect-Happened none log h = h
  bye_effect-Happened (some []) log h = h
  bye_effect-Happened (some (c ∷ leg)) log h =
      if_elim (Happened e) (located (c ∷ leg)) (λ _. inr h) (λ _. h)

  detach_effect-Happened :
      (r : ℕ) (rec : Recording) (log : List Effect)
      → Happened e log
      → Happened e (detach_effect r rec log)
  detach_effect-Happened r rec log h = if_elim (Happened e) rec.forked (λ _. inr h) (λ _. h)

  abbrev stopped_log : ℕ → Recording → List Effect → List Effect
  stopped_log r rec log =
      if ltb 0 rec.use_count
      then log
      else free r ∷ bye_effect located rec.leg (detach_effect r rec log)

  stopped_log-Happened :
      (r : ℕ) (rec : Recording) (log : List Effect)
      → Happened e log
      → Happened e (stopped_log r rec log)
  stopped_log-Happened r rec log h =
      if_elim (Happened e) (ltb 0 rec.use_count) (λ _. h)
        (λ _. inr (bye_effect-Happened rec.leg _ (detach_effect-Happened r rec log h)))

  retired_log-Happened :
      (heap : ℕ → Option Recording) (table : List (Bytes × ℕ)) (log : List Effect)
      → Owns heap table
      → Happened e log
      → Happened e (retired_log located none true heap table log)
  unfolding retired_log
  retired_log-Happened heap [] log owns h = h
  retired_log-Happened heap ((k, r) ∷ table) log ((rec, live, at_k), owns) h = rw live (
      retired_log-Happened heap table (retire_effects located true r rec log) owns (
        unbind_effect-Happened rec.uuid (stopped_log r rec log) (stopped_log-Happened r rec log h)))

-- A recording of a call that is still there has its call's handler unbound.
own-Happened :
    (located : Bytes → Bool) (c : ℕ) (uuid : Bytes) (r : ℕ) (rec : Recording) (log : List Effect)
    → rec.uuid ≡ c ∷ uuid
    → located (c ∷ uuid) ≡ true
    → Happened (unbind (c ∷ uuid)) (retire_effects located true r rec log)
own-Happened located c uuid r rec log at_uuid there = rw (at_uuid, there) (inl refl)

module _ (located : Bytes → Bool) (heap : ℕ → Option Recording) (k : Bytes) (r : ℕ)
    (rec : Recording) (c : ℕ) (uuid : Bytes) (live : heap r ≡ some rec)
    (at_uuid : rec.uuid ≡ c ∷ uuid) (there : located (c ∷ uuid) ≡ true) where
  entry-Happened :
      (table : List (Bytes × ℕ)) (log : List Effect)
      → Owns heap table
      → lookup k table ≡ some r
      → Happened (unbind (c ∷ uuid)) (retired_log located none true heap table log)
  unfolding retired_log lookup
  entry-Happened [] log owns at_r = cc
  entry-Happened ((j, q) ∷ table) log ((other, found, at_j), owns) at_r =
      elim (Bool-cases (equal j k)) [
        | inl same ↦
            let at_q : some q ≡ some r = rw same at at_r in
            let e = some-injective q r at_q in
            rw (e, live)
              (retired_log-Happened (unbind (c ∷ uuid)) located heap table
                (retire_effects located true r rec log) owns
                (own-Happened located c uuid r rec log at_uuid there))
        | inr ne ↦
            entry-Happened table (log_entry located none true q (heap q) log) owns (rw ne at at_r)
      ]

-- What the shutdown makes of a recording of the hash.
pub record Ended (located : Bytes → Bool) (rec : Recording) (after : Option Recording)
    (log : List Effect) : Type 0 where
  pub unpinned : rec.use_count ≡ 0 → after ≡ none
  pub pinned : 0 < rec.use_count → after ≡ some (record rec { doomed = true })
  pub unbound : rec.uuid ≢ [] → located rec.uuid ≡ true → Happened (unbind rec.uuid) log

entry-unbound :
    (located : Bytes → Bool) (g : Registry) (k : Bytes) (r : ℕ) (rec : Recording)
    → Owns g.heap g.table
    → lookup k g.table ≡ some r
    → g.heap r ≡ some rec
    → (uuid : Bytes) → rec.uuid ≡ uuid
    → rec.uuid ≢ []
    → located rec.uuid ≡ true
    → Happened (unbind rec.uuid) (retire_all located none true g).effects
entry-unbound located g k r rec owns at_r live [] e set there = absurd (set e)
entry-unbound located g k r rec owns at_r live (c ∷ uuid) e set there = rw e (
    entry-Happened located g.heap k r rec c uuid live e (rw e at there) g.table g.effects owns at_r)

entry-Ended :
    (located : Bytes → Bool) (g : Registry) (k : Bytes) (r : ℕ) (rec : Recording)
    → Owns g.heap g.table
    → lookup k g.table ≡ some r
    → g.heap r ≡ some rec
    → Ended located rec
        ((retire_all located none true g).heap r)
        (retire_all located none true g).effects
entry-Ended located g k r rec owns at_r live = record {
  unpinned = λ z. retired_heap-entry g.heap g.table k r rec owns at_r live ∙ rw z refl;
  pinned = λ lt.
      retired_heap-entry g.heap g.table k r rec owns at_r live
      ∙ (let on : ltb 0 rec.use_count ≡ true = ground arith in rw on refl);
  unbound = λ set there. entry-unbound located g k r rec owns at_r live rec.uuid refl set there;
}

-- In a reachable state, the shutdown of a module whose hash of recordings is there and whose
-- memory holds the chains of a table of servers, with more fuel than the hash has entries, comes to
-- an end without a fault; the hash of recordings is destroyed when it is empty, and every server's
-- pool and the hash of servers are destroyed. Every recording that was in the hash is freed, or
-- doomed and left with its count if it is pinned; and for each one whose call still has a session,
-- the unbinding of this module's hangup handler from that call is among the effects.
pub shutdown-unbind :
    {located : Bytes → Bool} {s : System} (path : Reach located empty_system s) (m : Module)
    (table : List (Bytes × List Server)) (fuel : ℕ)
    → m.recordings ≡ some s.reg
    → Holds m.servers table
    → length s.reg.table < fuel
    → (g : Registry) × (freed : Servers) × (shutdown located fuel m
        ≡ some (g, record m { servers = freed; recordings = none }))
      × (g.table ≡ [])
      × (freed.hash ≡ none)
      × ((p : ℕ) → freed.memory p ≡ none)
      × ((k : Bytes) (r : ℕ) (rec : Recording)
          → lookup k s.reg.table ≡ some r
          → s.reg.heap r ≡ some rec
          → Ended located rec (g.heap r) g.effects)
unfolding shutdown teardown_all_recordings
shutdown-unbind {located} {s} path m table fuel hash held lt =
    let owns = Inv-Owns s (Reach-Inv empty-Inv path) in
    let drain = drain_recordings-retire_all path none true fuel lt in
    let (freed, run, no_hash, no_pool) = free_recording_servers-freed held in
    (
      retire_all located none true s.reg,
      freed,
      rw hash (ap (unloaded m) drain ∙ ap (emptied m (retire_all located none true s.reg)) run),
      kept-none s.reg.heap s.reg.table owns,
      no_hash,
      no_pool,
      λ k r rec at_r live. entry-Ended located s.reg k r rec owns at_r live,
    )
