-- ===== src/Config/Pools/Loading.antt =====
-- The configuration as it is loaded into memory, against the chains of Config.
use mod_siprec.Base.{
  Bool, Bool-cases, Bytes, List, Option, [], ap, equal, false, if◌then◌else◌, inl, inr, insert,
  lookup, none, refl, some, suc, sym, true, ℕ, ◌++◌, ◌∙◌, ◌∷◌, ◌≡◌,
}
use mathlib.Core.List.{map-append}
use mathlib.Core.Path.{subst}
use mod_siprec.Config.{
  ConfigError, Element, Readers, Server, keep_server, load_recording_server, load_recording_servers,
  recording_server_config_error, server_of,
}
use mod_siprec.Config.Chains.{chain_of, keep_server-chain}
use mod_siprec.Config.Pools.{
  Memory, Run, Servers, checked_server, finished, hashed_server, last_server, link_server,
  load_pooled_server, load_pooled_servers, pooled_server, set_next, store,
}
use mod_siprec.Config.Pools.Linked.{Chain, servers_of}
use mod_siprec.Config.Pools.Owned.{Owned, first-Owned, grown, refused-Owned, returned-Owned}
use mod_siprec.Config.Pools.Linking.{link-Owned}

-- The hash is there, each name's pools are linked in the order of its chain in the table, and no
-- other pool is left.
pub record Holds (s : Servers) (table : List (Bytes × List Server)) : Type 0 where
  pub hash : List (Bytes × ℕ)
  pub chains : Bytes → Chain
  pub there : s.hash ≡ some hash
  pub owned : Owned s.memory s.tried hash chains
  pub same : (name : Bytes) → servers_of (chains name) ≡ chain_of name table

-- The elements for which a pool is given, where the first of them is the call `n`.
abbrev pub with_pool : (ℕ → Bool) → ℕ → List Element → List Element
with_pool granted n [] = []
with_pool granted n (xml ∷ elements) =
    let rest = with_pool granted (suc n) elements in if granted n then xml ∷ rest else rest

abbrev Loaded : Servers → Run (Servers × Bool) → List (Bytes × List Server) → Type 0
Loaded s run table =
    (s' : Servers) × (taken : Bool) × (run ≡ finished (s', taken))
    × (s'.tried ≡ suc s.tried)
    × Holds s' table

link_server-linked :
    (name : Bytes) (p existing last : ℕ) (hash : List (Bytes × ℕ)) (s : Servers) (linked : Memory)
    → last_server (suc s.tried) existing s.memory ≡ finished last
    → set_next last p s.memory ≡ finished linked
    → link_server name p (some existing) hash s ≡ finished (record s { memory = linked }, true)
link_server-linked name p existing last hash s linked run written =
    rw (link_server, run, written) refl

module _ (readers : Readers) {s : Servers} {table : List (Bytes × List Server)} (srv : Server)
    (h : Holds s table) where
  abbrev made : Servers
  made = record s {
    tried = suc s.tried;
    memory = store s.memory s.tried (some (record { server = srv; next = none }));
  }

  grown-same :
      (name : Bytes)
      → servers_of (grown s.tried srv h.chains name)
        ≡ chain_of name (keep_server readers none srv table)
  grown-same name =
      let b = equal srv.name name in
      map-append (λ e. e.1) (h.chains name) (if b then (s.tried, srv) ∷ [] else [])
      ∙ (joined b (h.same name) ∙ sym (keep_server-chain readers name none srv table))
    where
      joined :
          (b : Bool) {old chain : List Server}
          → old ≡ chain
          → old ++ servers_of (if b then (s.tried, srv) ∷ [] else [])
            ≡ chain ++ (if b then srv ∷ [] else [])
      joined true e = ap (λ c. c ++ (srv ∷ [])) e
      joined false e = ap (λ c. c ++ []) e

  link_server-Holds :
      (o : Option ℕ)
      → lookup srv.name h.hash ≡ o
      → Loaded s (link_server srv.name s.tried o h.hash made) (keep_server readers none srv table)
  link_server-Holds none absent = (
    record made { hash = some (insert srv.name s.tried h.hash) },
    true,
    refl,
    refl,
    record {
      hash = insert srv.name s.tried h.hash;
      chains = grown s.tried srv h.chains;
      there = refl;
      owned = first-Owned h.owned srv absent;
      same = grown-same;
    },
  )
  link_server-Holds (some p) at_p =
      let (linked, (last, run, written, owned)) = link-Owned h.owned srv p at_p in
      (
        record made { memory = linked },
        true,
        link_server-linked srv.name s.tried p last h.hash made linked run written,
        refl,
        record {
          hash = h.hash;
          chains = grown s.tried srv h.chains;
          there = h.there;
          owned = owned;
          same = grown-same;
        },
      )

  checked_server-Holds :
      (e : Option ConfigError)
      → Loaded s (checked_server e srv s.tried made) (keep_server readers e srv table)
  checked_server-Holds (some why) = (
    record made { memory = store made.memory s.tried none },
    false,
    refl,
    refl,
    record {
      hash = h.hash;
      chains = h.chains;
      there = h.there;
      owned = returned-Owned h.owned (some (record { server = srv; next = none }));
      same = h.same;
    },
  )
  checked_server-Holds none =
      rw (h.there, hashed_server) (link_server-Holds (lookup srv.name h.hash) refl)

  refused-Holds : Loaded s (pooled_server false srv s) table
  refused-Holds = (
    record s { tried = suc s.tried },
    false,
    refl,
    refl,
    record {
      hash = h.hash;
      chains = h.chains;
      there = h.there;
      owned = refused-Owned h.owned;
      same = h.same;
    },
  )

module _ (readers : Readers) (granted : ℕ → Bool) where
  load_pooled_server-Holds :
      (xml : Element) {s : Servers} {table : List (Bytes × List Server)}
      → Holds s table
      → Loaded s
          (load_pooled_server readers granted xml s)
          (if granted s.tried then load_recording_server readers xml table else table)
  unfolding load_pooled_server load_recording_server
  load_pooled_server-Holds xml {s} {table} h = elim (Bool-cases (granted s.tried)) [
    | inl yes_pool ↦ rw yes_pool (
        checked_server-Holds readers (server_of readers xml) h
          (recording_server_config_error (server_of readers xml)))
    | inr no_pool ↦ rw no_pool (refused-Holds readers (server_of readers xml) h)
  ]

  passed_over :
      (b : Bool) (xml : Element) (rest : List Element) (table : List (Bytes × List Server))
      → load_recording_servers readers rest
          (if b then load_recording_server readers xml table else table)
        ≡ load_recording_servers readers (if b then xml ∷ rest else rest) table
  unfolding load_recording_servers
  passed_over true xml rest table = refl
  passed_over false xml rest table = refl

  -- Where the memory holds the chains of a table, the loading of a file's recording servers comes to
  -- an end without the use of a destroyed pool, and the memory then holds the chains that
  -- `load_recording_servers` makes of the elements for which a pool was given: each name's pools
  -- are linked by `next` in the order of its chain, and no other pool is left.
  pub load_pooled_servers-Holds :
      (elements : List Element) {s : Servers} {table : List (Bytes × List Server)}
      → Holds s table
      → (s' : Servers) × (load_pooled_servers readers granted elements s ≡ finished s')
        × Holds s' (load_recording_servers readers (with_pool granted s.tried elements) table)
  unfolding load_pooled_servers load_recording_servers
  load_pooled_servers-Holds [] {s} h = (s, refl, h)
  load_pooled_servers-Holds (xml ∷ elements) {s} {table} h =
      let (s', taken, run, count, h') = load_pooled_server-Holds xml h in
      let (s'', rest, h'') = load_pooled_servers-Holds elements h' in
      (
        s'',
        rw run rest,
        subst (λ t. Holds s'' t)
            (ap
                (λ n.
                  load_recording_servers readers (with_pool granted n elements)
                    (if granted s.tried then load_recording_server readers xml table else table))
                count
              ∙ passed_over (granted s.tried) xml (with_pool granted (suc s.tried) elements) table)
            h'',
      )
