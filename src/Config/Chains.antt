-- ===== src/Config/Chains.antt =====
-- The failover chains that the configuration of mod_siprec.c leaves.
use mod_siprec.Base.{
  Bool, Bytes, List, Option, Option-cases, [], ap, append-nil, append_assoc, arith, equal,
  equal_iff, false, if◌then◌else◌, inl, inr, insert, lookup, lookup-insert, none, refl, some, sym,
  true, ◌++◌, ◌∙◌, ◌∷◌, ◌≡◌,
}
use mod_siprec.Config.{
  ConfigError, Element, Readers, Server, keep_server, load_recording_server, load_recording_servers,
  recording_server_config_error, server_of,
}

-- The chain under a name, empty where there is none.
abbrev pub chain_of : Bytes → List (Bytes × List Server) → List Server
chain_of name table = elim (lookup name table) [ none ↦ [] | some chain ↦ chain ]

-- A server of that name, if nothing is wrong with it.
abbrev pub accepted : Bytes → Option ConfigError → Server → List Server
accepted name (some why) srv = []
accepted name none srv = if equal srv.name name then srv ∷ [] else []

-- The elements' servers of that name that have no configuration error, in the order of the file.
abbrev pub usable : Readers → Bytes → List Element → List Server
usable readers name [] = []
usable readers name (xml ∷ elements) =
    let srv = server_of readers xml in
    accepted name (recording_server_config_error srv) srv ++ usable readers name elements

insert-chain :
    (name key : Bytes) (chain : List Server) (table : List (Bytes × List Server))
    → chain_of name (insert key chain table)
      ≡ (if equal key name then chain else chain_of name table)
insert-chain name key chain table = ground (arith, lookup-insert key name chain table)

joined :
    (b : Bool) (srv : Server) (chain old : List Server)
    → (b ≡ true → old ≡ chain)
    → (if b then chain ++ (srv ∷ []) else old) ≡ old ++ (if b then srv ∷ [] else [])
joined true srv chain old same = rw (same refl) refl
joined false srv chain old same = sym (append-nil old)

module _ (readers : Readers) where
  pub keep_server-chain :
      (name : Bytes) (e : Option ConfigError) (srv : Server) (table : List (Bytes × List Server))
      → chain_of name (keep_server readers e srv table) ≡ chain_of name table ++ accepted name e srv
  keep_server-chain name (some why) srv table = sym (append-nil (chain_of name table))
  keep_server-chain name none srv table = elim (Option-cases (lookup srv.name table)) [
    | inl fresh ↦ rw fresh (
        insert-chain name srv.name (srv ∷ []) table
        ∙ joined (equal srv.name name) srv [] (chain_of name table)
            (λ same. let e = (equal_iff srv.name name).0 same in rw (← e, chain_of, fresh) refl))
    | inr (chain, there) ↦ rw there (
        insert-chain name srv.name (chain ++ (srv ∷ [])) table
        ∙ joined (equal srv.name name) srv chain (chain_of name table)
            (λ same. let e = (equal_iff srv.name name).0 same in rw (← e, chain_of, there) refl))
  ]

  -- After the recording servers of a file are loaded into a table, the failover chain of every name
  -- is the chain that the table had for it and behind it, in the order of the file, the servers of
  -- that name whose elements have no configuration error; a bad element changes no chain.
  pub load_recording_servers-chain :
      (name : Bytes) (elements : List Element) (table : List (Bytes × List Server))
      → chain_of name (load_recording_servers readers elements table)
        ≡ chain_of name table ++ usable readers name elements
  unfolding load_recording_servers load_recording_server
  load_recording_servers-chain name [] table = sym (append-nil (chain_of name table))
  load_recording_servers-chain name (xml ∷ elements) table =
      let srv = server_of readers xml in
      let e = recording_server_config_error srv in
      load_recording_servers-chain name elements (keep_server readers e srv table)
      ∙ (ap (λ c. c ++ usable readers name elements) (keep_server-chain name e srv table)
          ∙ append_assoc (chain_of name table) (accepted name e srv) (usable readers name elements))
