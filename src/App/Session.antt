-- ===== src/App/Session.antt =====
-- The life of the module of mod_siprec.c: its load, what FreeSWITCH calls in it, one call after the
-- other, and its shutdown. `new_pool` gives a start its memory pool by the registry that it finds.
pub mod Ran
pub mod Answers
pub mod Life
pub mod Stored
use mod_siprec.Base.{Bool, Bytes, List, Option, [], false, length, none, some, suc, true, ℕ, ◌∷◌}
use mod_siprec.App.{
  Module, VarWrite, load, no_recordings, pause_app, resume_app, shutdown, siprec_app, stop_app,
}
use mod_siprec.Config.{Element, Readers, Server}
use mod_siprec.Config.Pools.{Run, Servers, dangling, finished, spent, ◌>>=◌}
use mod_siprec.Direction.{Act, World}
use mod_siprec.G711.{Codebook}
use mod_siprec.Leg.{Network}
use mod_siprec.Media.Attach.{Host}
use mod_siprec.Registry.{Registry, leg_on_hangup}
use mod_siprec.Registry.Drain.{on_hangup}
use mod_siprec.Start.Metadata.{Call}
use mod_siprec.Start.Servers.{Globals}
use mod_siprec.Start.Snapshot.{snapshot}

-- An application on a call with its argument, the hangup of a call, and that of a recording leg
-- with the key that its channel carries.
pub data Event : Type 0 where
  runs_siprec : Call → Bytes → Event
  runs_pause : Call → Bytes → Event
  runs_resume : Call → Bytes → Event
  runs_stop : Call → Bytes → Event
  hangs_up : Bytes → Event
  leg_hangs_up : Option Bytes → Bytes → Event

abbrev pub left : Option (Registry × List VarWrite) → Option Registry
left none = none
left (some (g, writes)) = some g

abbrev pub left_acts : Option (Registry × List VarWrite × List Act) → Option Registry
left_acts none = none
left_acts (some (g, writes, acts)) = some g

-- The chains that starts find in the memory of the configuration, under the names of its hash.
unfoldable pub stored_chains : Servers → List (Bytes × ℕ) → Run (List (Bytes × List Server))
unfolding snapshot
stored_chains s [] = finished []
stored_chains s ((name, p) ∷ hash) =
    snapshot name s >>= λ chain. stored_chains s hash >>= λ rest. finished ((name, chain) ∷ rest)

abbrev pub stored_under : Globals → Servers → Option (List (Bytes × ℕ)) → Run Globals
unfolding stored_chains
stored_under settings s none = dangling
stored_under settings s (some hash) =
    stored_chains s hash >>= λ chains. finished (record settings { recording_servers = chains })

-- What starts read of `globals`: the settings, and the chains in memory.
unfoldable pub stored_globals : Globals → Servers → Run Globals
unfolding stored_under
stored_globals settings s = stored_under settings s s.hash

module _ (split : Bytes → Option (List Bytes)) (R : Type 0) (world : World) (net : Network)
    (host : Host) (globals : Globals) (new_pool : Registry → Option ℕ) where
  unfoldable pub on_event : Event → Registry → Option Registry
  unfolding siprec_app pause_app resume_app stop_app on_hangup
  on_event (runs_siprec call text) g =
      left (siprec_app split R world net host globals (record call { pool = new_pool g }) text g)
  on_event (runs_pause call text) g =
      left_acts (pause_app split R world net host globals call text g)
  on_event (runs_resume call text) g =
      left_acts (resume_app split R world net host globals call text g)
  on_event (runs_stop call text) g = left (stop_app split R world net host globals call text g)
  on_event (hangs_up uuid) g = on_hangup world.located uuid (suc (length g.table)) g
  on_event (leg_hangs_up key leg_uuid) g = leg_on_hangup key leg_uuid g

  abbrev pub go_on : Option Registry → (Registry → Option Registry) → Option Registry
  go_on none rest = none
  go_on (some g) rest = rest g

  unfoldable pub on_events : List Event → Registry → Option Registry
  unfolding on_event
  on_events [] g = some g
  on_events (event ∷ events) g = go_on (on_event event g) (on_events events)

module _ (split : Bytes → Option (List Bytes)) (R : Type 0) (world : World) (net : Network)
    (host : Host) (settings : Globals) (new_pool : Registry → Option ℕ) where
  abbrev pub closed : Module → Option Registry → Option (Registry × Module)
  closed m none = none
  closed m (some g) =
      shutdown world.located (suc (length g.table)) (record m { recordings = some g })

  -- The memory of the configuration stays as the load left it until the shutdown.
  abbrev pub called : List Event → Module → Run Globals → Registry → Option (Registry × Module)
  called events m (finished globals) g =
      closed m (on_events split R world net host globals new_pool events g)
  called events m dangling g = none
  called events m spent g = none

  -- A module that is not loaded gets no calls.
  abbrev pub served : List Event → Module → Bool → Option Registry → Option (Registry × Module)
  served events m true (some g) = called events m (stored_globals settings m.servers) g
  served events m true none = none
  served events m false recordings = some (no_recordings, m)

  abbrev pub lived : List Event → Run (Module × Bool) → Option (Registry × Module)
  lived events (finished (m, ok)) = served events m ok m.recordings
  lived events dangling = none
  lived events spent = none

  unfoldable pub lifetime :
      Readers
      → (ℕ → Bool)
      → Bool
      → Option (List Element)
      → Codebook
      → List Event
      → Option (Registry × Module)
  unfolding load on_events shutdown stored_globals
  lifetime readers granted reloaded file book events =
      lived events (load readers granted reloaded file book)
