-- ===== src/Start/Snapshot.antt =====
-- The copy of a failover chain that start_recording_session of recording_session.c takes from the
-- memory of the configuration into the recording's pool.
use mod_siprec.Base.{
  Bool, Bytes, List, Option, Option-cases, [], ap, arith, inl, inr, length, lookup, none, refl,
  some, suc, zero, ℕ, ◌<◌, ◌∙◌, ◌∷◌, ◌≡◌,
}
use mod_siprec.App.{no_servers}
use mod_siprec.App.Initial.{no_servers-Holds}
use mod_siprec.Config.{Element, Readers, Server}
use mod_siprec.Config.Chains.{chain_of, load_recording_servers-chain, usable}
use mod_siprec.Config.Pools.{
  Memory, Run, Servers, dangling, finished, load_pooled_servers, spent, ◌>>=◌,
}
use mod_siprec.Config.Pools.Linked.{Chain, Linked, Rising-length, servers_of}
use mod_siprec.Config.Pools.Loading.{Holds, load_pooled_servers-Holds, with_pool}
use mod_siprec.Start.Asked.{copy_server_chain_same}
use mod_siprec.Start.Servers.{Globals, chain_for, copy_server, copy_server_chain, found_chain}

-- The loop of `copy_server_chain` over the pools.
unfoldable pub copy_pools : ℕ → Option ℕ → Memory → Run (List Server)
copy_pools zero src memory = spent
copy_pools (suc fuel) none memory = finished []
copy_pools (suc fuel) (some p) memory = elim (memory p) [
  | none ↦ dangling
  | some c ↦ copy_pools fuel c.next memory >>= λ rest. finished (copy_server c.server ∷ rest)
]

-- The snapshot under `recording_servers_mutex`; the empty list is NULL.
unfoldable pub snapshot : Bytes → Servers → Run (List Server)
unfolding copy_pools lookup
snapshot name s = elim s.hash [
  | none ↦ dangling
  | some hash ↦ copy_pools (suc s.tried) (lookup name hash) s.memory
]

copy_pools-Linked :
    (memory : Memory) (name : Bytes) (from : Option ℕ) (chain : Chain) (fuel : ℕ)
    → Linked memory name from chain
    → length chain < fuel
    → copy_pools fuel from memory ≡ finished (copy_server_chain (servers_of chain))
unfolding copy_pools copy_server_chain
copy_pools-Linked memory name from chain zero linked lt = absurd (omega arith)
copy_pools-Linked memory name from [] (suc fuel) linked lt = rw linked refl
copy_pools-Linked memory name from ((p, srv) ∷ chain) (suc fuel) (next, at_p, named, there, linked)
      lt =
    rw (at_p, there, copy_pools, copy_pools-Linked memory name next chain fuel linked (omega arith))
      refl

chain_of-found :
    (name : Bytes) (table : List (Bytes × List Server))
    → copy_server_chain (chain_of name table) ≡ found_chain (lookup name table)
unfolding copy_server_chain
chain_of-found name table = elim (Option-cases (lookup name table)) [
  | inl absent ↦ rw (chain_of, absent) refl
  | inr (chain, there) ↦ rw (chain_of, there) refl
]

-- What a start copies from the memory.
pub snapshot-copied :
    (name : Bytes) {s : Servers} {table : List (Bytes × List Server)}
    → Holds s table
    → snapshot name s ≡ finished (copy_server_chain (chain_of name table))
unfolding snapshot
snapshot-copied name {s} {table} h =
    let long = Rising-length 0 (h.chains name) s.tried (h.owned.rising name) in
    rw h.there (
      copy_pools-Linked s.memory name (lookup name h.hash) (h.chains name) (suc s.tried)
        (h.owned.linked name) (omega (arith, long))
      ∙ ap (λ c. finished (copy_server_chain c)) (h.same name))

-- Where the memory holds the chains that `globals` stands for, a start without a URI of its own
-- works with what it copies from the memory.
pub snapshot-chain_for :
    (globals : Globals) (name : Bytes) {s : Servers}
    → Holds s globals.recording_servers
    → snapshot name s ≡ finished (chain_for globals name none)
unfolding chain_for
snapshot-chain_for globals name h =
    snapshot-copied name h ∙ ap finished (chain_of-found name globals.recording_servers)

-- What a start finds is what the table has, field by field.
pub snapshot-same :
    (name : Bytes) {s : Servers} {table : List (Bytes × List Server)}
    → Holds s table
    → snapshot name s ≡ finished (chain_of name table)
snapshot-same name {s} {table} h =
    snapshot-copied name h ∙ ap finished (copy_server_chain_same (chain_of name table))

-- After the recording servers of a file are loaded into a module without any, a start finds under
-- every name, without the use of a destroyed pool, exactly the servers of that name with all their
-- fields, in the order of the file: of the elements for which a pool was given and that have no configuration
-- error.
pub snapshot-usable :
    (readers : Readers) (granted : ℕ → Bool) (elements : List Element) (name : Bytes)
    → (s : Servers) × (load_pooled_servers readers granted elements no_servers ≡ finished s)
      × (snapshot name s ≡ finished (usable readers name (with_pool granted 0 elements)))
unfolding lookup
snapshot-usable readers granted elements name =
    let (s, run, h) = load_pooled_servers-Holds readers granted elements no_servers-Holds in
    (
      s,
      run,
      snapshot-same name h
          ∙ ap finished
              (load_recording_servers-chain readers name (with_pool granted 0 elements) []),
    )
