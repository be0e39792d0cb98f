-- ===== src/Start/Servers.antt =====
-- The servers of a start of recording_session.c: the chain of the configuration, copied, or the URI
-- that comes with the call.
use mod_siprec.Base.{Bool, Bytes, List, Option, [], false, lookup, none, some, true, ◌∷◌}
use mod_siprec.Config.{Choice, Server, inherited, mixed, separated, unreadable}

-- What a start reads of `globals`.
pub record Globals : Type 0 where
  pub src_enabled : Bool
  pub separate_streams : Bool
  pub recording_servers : List (Bytes × List Server)

abbrev pub copy_server : Server → Server
copy_server src = record {
  name = src.name;
  host = src.host;
  port = src.port;
  transport = src.transport;
  separate_streams = src.separate_streams;
  uri = src.uri;
}

-- NULL is the empty chain.
unfoldable pub copy_server_chain : List Server → List Server
copy_server_chain [] = []
copy_server_chain (src ∷ chain) = copy_server src ∷ copy_server_chain chain

abbrev pub adhoc_server : Bytes → Bytes → Server
adhoc_server handle uri = record {
  name = handle;
  host = none;
  port = some 0;
  transport = none;
  separate_streams = inherited;
  uri = some uri;
}

abbrev pub found_chain : Option (List Server) → List Server
found_chain none = []
found_chain (some chain) = copy_server_chain chain

-- The servers of a start: the URI that comes with it, or the chain of the configuration.
unfoldable pub chain_for : Globals → Bytes → Option Bytes → List Server
unfolding lookup copy_server_chain
chain_for globals handle (some (c ∷ uri)) = adhoc_server handle (c ∷ uri) ∷ []
chain_for globals handle _ = found_chain (lookup handle globals.recording_servers)

abbrev pub separate_of : Bool → Choice → Bool
separate_of default separated = true
separate_of default mixed = false
separate_of default inherited = default
separate_of default unreadable = default
