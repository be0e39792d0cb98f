-- ===== src/Config.antt =====
-- mod_siprec.c: the recording servers of siprec.conf, checked and kept in chains by name. The XML
-- of an entry is its name attribute and its `param` elements; `strtol`, `switch_true` and
-- `switch_false` are parameters.
pub mod Chains
pub mod Pools
use mod_siprec.Base.{
  Bool, Bytes, List, Option, [], codes, equal, equal_nocase, if◌then◌else◌, insert, leb, lookup,
  ltb, none, not, some, take, true, ℕ, ◌&&◌, ◌++◌, ◌+◌, ◌||◌, ◌∷◌,
}
use mod_siprec.Uri.{Refusal, max_len, uri_check}

-- `separate_streams`, which is -1, 0, 1 and -2.
pub data Choice : Type 0 where
  inherited : Choice
  mixed : Choice
  separated : Choice
  unreadable : Choice

-- `recording_server_t`; a port of -1 is none.
pub record Server : Type 0 where
  pub name : Bytes
  pub host : Option Bytes
  pub port : Option ℕ
  pub transport : Option Bytes
  pub separate_streams : Choice
  pub uri : Option Bytes

pub data ConfigError : Type 0 where
  missing_name : ConfigError
  missing_host : ConfigError
  bad_host : Refusal → ConfigError
  bad_port : ConfigError
  bad_transport : ConfigError
  bad_separate : ConfigError

abbrev pub known_transport : Option Bytes → Bool
known_transport none = true
known_transport (some t) =
    equal_nocase (codes "udp") t || equal_nocase (codes "tcp") t || equal_nocase (codes "tls") t

abbrev pub separate_error : Choice → Option ConfigError
separate_error unreadable = some bad_separate
separate_error _ = none

abbrev pub port_error : Server → Option ConfigError
port_error srv = elim srv.port [
  | none ↦ some bad_port
  | some p ↦
      if not (known_transport srv.transport)
      then some bad_transport
      else separate_error srv.separate_streams
]

-- The host within `sip:`, cut to the buffer of SIPREC_URI_MAX_LEN + 8 bytes.
abbrev pub host_error : Bytes → Server → Option ConfigError
host_error host srv = elim (uri_check (some (take (max_len + 7) (codes "sip:" ++ host)))) [
  | some why ↦ some (bad_host why)
  | none ↦ port_error srv
]

abbrev pub hosted_error : Option Bytes → Server → Option ConfigError
hosted_error none srv = some missing_host
hosted_error (some []) srv = some missing_host
hosted_error (some (c ∷ host)) srv = host_error (c ∷ host) srv

unfoldable pub recording_server_config_error : Server → Option ConfigError
recording_server_config_error srv = elim srv.name [
  | [] ↦ some missing_name
  | c ∷ name ↦ hosted_error srv.host srv
]

-- A `recording-server` element.
pub record Element : Type 0 where
  pub name_attr : Bytes
  pub params : List (Bytes × Bytes)

-- What libc and FreeSWITCH read from a value: the sign, the magnitude and the rest of a number,
-- and the words for true and false.
pub record Readers : Type 0 where
  pub strtol : Bytes → Bool × ℕ × Bytes
  pub switch_true : Bytes → Bool
  pub switch_false : Bytes → Bool

module _ (readers : Readers) where
  abbrev pub port_in : Bytes → Bool × ℕ × Bytes → Option ℕ
  port_in [] _ = none
  port_in (c ∷ val) (negative, magnitude, _ ∷ _) = none
  port_in (c ∷ val) (negative, magnitude, []) =
      if not negative && ltb 0 magnitude && leb magnitude 65535 then some magnitude else none

  abbrev pub choice_of : Bytes → Choice
  choice_of val =
      if readers.switch_true val
      then separated
      else if readers.switch_false val
      then mixed
      else unreadable

  abbrev pub set_param : Server → Bytes × Bytes → Server
  set_param srv (var, val) =
      if equal var (codes "host")
      then record srv { host = some val }
      else if equal var (codes "port")
      then record srv { port = port_in val (readers.strtol val) }
      else if equal var (codes "transport")
      then record srv { transport = some val }
      else if equal var (codes "separate-streams")
      then record srv { separate_streams = choice_of val }
      else srv

  abbrev pub set_params : Server → List (Bytes × Bytes) → Server
  set_params srv [] = srv
  set_params srv (p ∷ params) = set_params (set_param srv p) params

  -- The server that an element describes, before it is checked.
  unfoldable pub server_of : Element → Server
  server_of xml =
      set_params
        (record {
          name = xml.name_attr;
          host = none;
          port = some 0;
          transport = none;
          separate_streams = inherited;
          uri = none;
        })
        xml.params

  abbrev pub append_server :
      Server → Option (List Server) → List (Bytes × List Server) → List (Bytes × List Server)
  append_server srv none table = insert srv.name (srv ∷ []) table
  append_server srv (some chain) table = insert srv.name (chain ++ (srv ∷ [])) table

  abbrev pub keep_server :
      Option ConfigError → Server → List (Bytes × List Server) → List (Bytes × List Server)
  keep_server (some why) srv table = table
  keep_server none srv table = append_server srv (lookup srv.name table) table

  -- `load_recording_server`: the chains of `globals.recording_servers_hash` after one element.
  unfoldable pub load_recording_server :
      Element → List (Bytes × List Server) → List (Bytes × List Server)
  unfolding lookup insert server_of recording_server_config_error
  load_recording_server xml table =
      let srv = server_of xml in keep_server (recording_server_config_error srv) srv table

  -- `load_recording_servers`, over the elements of the file.
  unfoldable pub load_recording_servers :
      List Element → List (Bytes × List Server) → List (Bytes × List Server)
  unfolding load_recording_server
  load_recording_servers [] table = table
  load_recording_servers (xml ∷ elements) table =
      load_recording_servers elements (load_recording_server xml table)
