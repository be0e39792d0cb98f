-- ===== src/App/Session/Stored.antt =====
-- What starts find of the configuration in the memory that the load of mod_siprec.c left.
use mod_siprec.Base.{
  Bool-cases, Bytes, List, Option, Option-cases, [], ap, equal, equal_iff, inl, inr, lookup, none,
  refl, some, sym, ℕ, ◌∙◌, ◌∷◌, ◌≡◌,
}
use mod_siprec.App.Session.{stored_chains, stored_globals, stored_under}
use mod_siprec.Config.{Server}
use mod_siprec.Config.Chains.{chain_of}
use mod_siprec.Config.Pools.{Memory, Servers, finished}
use mod_siprec.Config.Pools.Linked.{Chain, Linked, servers_of}
use mod_siprec.Config.Pools.Loading.{Holds}
use mod_siprec.Start.Servers.{Globals, chain_for, copy_server_chain}
use mod_siprec.Start.Snapshot.{snapshot-copied}

-- The chains of the table, under the names of a hash.
abbrev pub table_chains : List (Bytes × List Server) → List (Bytes × ℕ) → List (Bytes × List Server)
table_chains table [] = []
table_chains table ((name, p) ∷ hash) =
    (name, copy_server_chain (chain_of name table)) ∷ table_chains table hash

stored_chains-table :
    {s : Servers} {table : List (Bytes × List Server)} (h : Holds s table) (hash : List (Bytes × ℕ))
    → stored_chains s hash ≡ finished (table_chains table hash)
unfolding stored_chains
stored_chains-table h [] = refl
stored_chains-table h ((name, p) ∷ hash) =
    rw (snapshot-copied name h, stored_chains-table h hash) refl

-- Where the memory holds the chains of a table, a start reads chains from it without the use of a
-- destroyed pool.
pub stored_globals-Holds :
    (settings : Globals) {s : Servers} {table : List (Bytes × List Server)} (h : Holds s table)
    → stored_globals settings s
      ≡ finished (record settings { recording_servers = table_chains table h.hash })
unfolding stored_globals stored_under
stored_globals-Holds settings {s} h =
    ap (stored_under settings s) h.there ∙ rw (stored_chains-table h h.hash) refl

copy_server_chain_idem :
    (chain : List Server) → copy_server_chain (copy_server_chain chain) ≡ copy_server_chain chain
unfolding copy_server_chain
copy_server_chain_idem [] = refl
copy_server_chain_idem (src ∷ chain) = rw (copy_server_chain_idem chain) refl

-- What a start finds under a name.
abbrev under : List (Bytes × List Server) → Bytes → Option ℕ → Option (List Server)
under table name none = none
under table name (some p) = some (copy_server_chain (chain_of name table))

lookup-table_chains :
    (table : List (Bytes × List Server)) (name : Bytes) (hash : List (Bytes × ℕ))
    → lookup name (table_chains table hash) ≡ under table name (lookup name hash)
unfolding lookup
lookup-table_chains table name [] = refl
lookup-table_chains table name ((j, p) ∷ hash) = elim (Bool-cases (equal j name)) [
  | inl e ↦ rw e (ap (λ k. some (copy_server_chain (chain_of k table))) ((equal_iff j name).0 e))
  | inr e ↦ rw (e, lookup-table_chains table name hash) refl
]

chain-absent :
    (memory : Memory) (name : Bytes) (from : Option ℕ) (chain : Chain)
    → from ≡ none
    → Linked memory name from chain
    → servers_of chain ≡ []
chain-absent memory name from [] absent linked = refl
chain-absent memory name from ((p, srv) ∷ chain) absent (next, at_p, named, there, linked) = cc

-- A start without a URI of its own gets from memory a copy of the chain that the table has.
pub stored_chain_for :
    (settings : Globals) (name : Bytes) {s : Servers} {table : List (Bytes × List Server)}
    (h : Holds s table)
    → chain_for (record settings { recording_servers = table_chains table h.hash }) name none
      ≡ copy_server_chain (chain_of name table)
unfolding chain_for copy_server_chain
stored_chain_for settings name {s} {table} h = elim (Option-cases (lookup name h.hash)) [
  | inl absent ↦
      let no_chain =
        chain-absent s.memory name (lookup name h.hash) (h.chains name) absent
          (h.owned.linked name) in
      rw (lookup-table_chains table name h.hash, absent)
        (ap copy_server_chain (sym no_chain ∙ h.same name))
  | inr (p, there) ↦
      rw (lookup-table_chains table name h.hash, there)
        (copy_server_chain_idem (chain_of name table))
]
