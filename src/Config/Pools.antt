-- ===== src/Config/Pools.antt =====
-- mod_siprec.c: the memory of the configured recording servers. Each entry stands in a pool of its
-- own, and `next` leads from pool to pool along a failover chain. A pool is known by the number of
-- the call of switch_core_new_memory_pool that made it; whether that call gives a pool is a
-- parameter. A use of a pool that is not there, or of the hash where it is not there, is a fault.
pub mod Linked
pub mod Owned
pub mod Linking
pub mod Loading
pub mod Freeing
use mod_siprec.Base.{
  Bool, Bytes, List, Option, [], false, if◌then◌else◌, insert, lookup, none, some, suc, true, zero,
  ℕ, ◌==◌, ◌∷◌,
}
use mod_siprec.Config.{
  ConfigError, Element, Readers, Server, recording_server_config_error, server_of,
}

-- `recording_server_t` with its `next`, which is none for NULL.
pub record Cell : Type 0 where
  pub server : Server
  pub next : Option ℕ

abbrev pub Memory : Type 0
Memory = ℕ → Option Cell

abbrev pub store : Memory → ℕ → Option Cell → Memory
store memory p c q = if q == p then c else memory q

-- The pools and `globals.recording_servers_hash`; `tried` counts the calls that ask for a pool.
pub record Servers : Type 0 where
  pub tried : ℕ
  pub memory : Memory
  pub hash : Option (List (Bytes × ℕ))

pub data Run (A : Type 0) : Type 0 where
  finished : A → Run A
  dangling : Run A
  spent : Run A

module _ {A B : Type 0} where
  infixl 5 ◌>>=◌
  abbrev pub ◌>>=◌ : Run A → (A → Run B) → Run B
  finished a >>= f = f a
  dangling >>= f = dangling
  spent >>= f = spent

-- `while (existing->next) existing = existing->next`, on fuel.
unfoldable pub last_server : ℕ → ℕ → Memory → Run ℕ
last_server zero p memory = spent
last_server (suc fuel) p memory = elim (memory p) [
  | none ↦ dangling
  | some c ↦ elim c.next [ none ↦ finished p | some q ↦ last_server fuel q memory ]
]

abbrev pub set_next : ℕ → ℕ → Memory → Run Memory
set_next p q memory = elim (memory p) [
  | none ↦ dangling
  | some c ↦ finished (store memory p (some (record c { next = some q })))
]

-- Into the hash, or behind the last of the entries under its name.
abbrev pub link_server : Bytes → ℕ → Option ℕ → List (Bytes × ℕ) → Servers → Run (Servers × Bool)
link_server name p none hash s = finished (record s { hash = some (insert name p hash) }, true)
link_server name p (some existing) hash s = do
  last ← last_server (suc s.tried) existing s.memory
  memory ← set_next last p s.memory
  finished (record s { memory = memory }, true)

abbrev pub hashed_server : Bytes → ℕ → Servers → Run (Servers × Bool)
hashed_server name p s = elim s.hash [
  | none ↦ dangling
  | some hash ↦ link_server name p (lookup name hash) hash s
]

-- An entry that has an error gives its pool back.
abbrev pub checked_server : Option ConfigError → Server → ℕ → Servers → Run (Servers × Bool)
checked_server (some why) srv p s = finished (record s { memory = store s.memory p none }, false)
checked_server none srv p s = hashed_server srv.name p s

abbrev pub pooled_server : Bool → Server → Servers → Run (Servers × Bool)
pooled_server false srv s = finished (record s { tried = suc s.tried }, false)
pooled_server true srv s =
    checked_server (recording_server_config_error srv) srv s.tried (record s {
      tried = suc s.tried;
      memory = store s.memory s.tried (some (record { server = srv; next = none }));
    })

module _ (readers : Readers) (granted : ℕ → Bool) where
  -- `load_recording_server`, with whether the entry was taken.
  unfoldable pub load_pooled_server : Element → Servers → Run (Servers × Bool)
  unfolding last_server server_of recording_server_config_error insert lookup
  load_pooled_server xml s = pooled_server (granted s.tried) (server_of readers xml) s

  -- `load_recording_servers`: an entry that is not taken is passed over.
  unfoldable pub load_pooled_servers : List Element → Servers → Run Servers
  unfolding load_pooled_server
  load_pooled_servers [] s = finished s
  load_pooled_servers (xml ∷ elements) s =
      load_pooled_server xml s >>= λ taken. load_pooled_servers elements taken.0

-- The loop of `free_recording_servers` over one chain: `next` is read before the pool that it
-- stands in is destroyed.
unfoldable pub free_chain : ℕ → Option ℕ → Memory → Run Memory
free_chain zero from memory = spent
free_chain (suc fuel) none memory = finished memory
free_chain (suc fuel) (some p) memory = elim (memory p) [
  | none ↦ dangling
  | some c ↦ free_chain fuel c.next (store memory p none)
]

unfoldable pub free_chains : ℕ → List (Bytes × ℕ) → Memory → Run Memory
unfolding free_chain
free_chains fuel [] memory = finished memory
free_chains fuel ((name, p) ∷ hash) memory =
    free_chain fuel (some p) memory >>= λ rest. free_chains fuel hash rest

-- `free_recording_servers`, which destroys the hash at its end.
unfoldable pub free_recording_servers : Servers → Run Servers
unfolding free_chains
free_recording_servers s = elim s.hash [
  | none ↦ dangling
  | some hash ↦ free_chains (suc (suc s.tried)) hash s.memory >>= λ memory.
      finished (record s { memory = memory; hash = none })
]
