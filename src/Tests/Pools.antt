-- ===== src/Tests/Pools.antt =====
-- The recording servers of a small siprec.conf in memory, loaded and freed.
use mod_siprec.Base.{
  Bool, Bytes, List, Option, [], codes, equal, map, none, not, refl, some, true, ℕ, ◌++◌, ◌<◌, ◌==◌,
  ◌∷◌, ◌≡◌,
}
use mod_siprec.App.{Module, load, no_servers}
use mod_siprec.App.Load.{LoadOutcome, load-LoadOutcome}
use mod_siprec.App.Initial.{no_servers-Holds}
use mod_siprec.Config.{Element, Server, load_recording_servers}
use mod_siprec.Config.Pools.{Run, Servers, finished, free_recording_servers, load_pooled_servers}
use mod_siprec.Config.Pools.Freeing.{free_recording_servers-freed}
use mod_siprec.Config.Pools.Loading.{Holds, load_pooled_servers-Holds, with_pool}
use mod_siprec.G711.{alaw_ref, l16_to_alaw, l16_to_ulaw, ulaw_ref}
use mod_siprec.Config.Chains.{usable}
use mod_siprec.Start.Snapshot.{snapshot, snapshot-usable}
use mod_siprec.Tests.Answers.{element, file, readers}
use mod_siprec.Tests.Media.{blank}
use mod_siprec.Uri.{uri_check}

-- Every call gives a pool but the fourth.
abbrev pub granted : ℕ → Bool
granted n = not (n == 3)

-- A file with three entries of one name and an entry for which there is no pool; the host of the
-- second is refused.
abbrev pub entries : List Element
entries = file ++ (element (codes "c.example") ∷ element (codes "d.example") ∷ [])

abbrev linked : List (Option ℕ)
linked = some 2 ∷ none ∷ some 4 ∷ none ∷ none ∷ []

next_of : Servers → ℕ → Option ℕ
next_of s p = elim (s.memory p) [ none ↦ none | some c ↦ c.next ]

-- The `next` of the first five pools.
nexts : Run Servers → List (Option ℕ)
nexts (finished s) = map (next_of s) (0 ∷ 1 ∷ 2 ∷ 3 ∷ 4 ∷ [])
nexts run = []

entries_linked : nexts (load_pooled_servers readers granted entries no_servers) ≡ linked
unfolding nexts next_of load_pooled_servers equal uri_check
entries_linked = refl

abbrev pub entries_table : List (Bytes × List Server)
entries_table = load_recording_servers readers (with_pool granted 0 entries) []

load_pooled_servers-Holds_example :
    (s : Servers) × (load_pooled_servers readers granted entries no_servers ≡ finished s)
    × Holds s entries_table
load_pooled_servers-Holds_example =
    load_pooled_servers-Holds readers granted entries no_servers-Holds

-- The state that the load of the entries leaves.
abbrev pub in_memory : Servers
in_memory = (load_pooled_servers-Holds readers granted entries no_servers-Holds).0

pub in_memory-Holds : Holds in_memory entries_table
in_memory-Holds = (load_pooled_servers-Holds readers granted entries no_servers-Holds).2

free_recording_servers-freed_example :
    (s : Servers) × (free_recording_servers in_memory ≡ finished s)
    × (s.hash ≡ none)
    × ((p : ℕ) → s.memory p ≡ none)
free_recording_servers-freed_example = free_recording_servers-freed in_memory-Holds

load-LoadOutcome_example :
    (m : Module) × (ok : Bool) × (load readers granted true (some entries) blank ≡ finished (m, ok))
    × ((pcm : ℕ)
        → pcm < 65536
        → (l16_to_ulaw m.book pcm ≡ ulaw_ref pcm) × (l16_to_alaw m.book pcm ≡ alaw_ref pcm))
    × LoadOutcome readers granted true (some entries) m ok
load-LoadOutcome_example = load-LoadOutcome readers granted blank true (some entries) refl

snapshot-usable_example :
    (s : Servers) × (load_pooled_servers readers granted entries no_servers ≡ finished s)
    × (snapshot (codes "srs") s
        ≡ finished (usable readers (codes "srs") (with_pool granted 0 entries)))
snapshot-usable_example = snapshot-usable readers granted entries (codes "srs")
