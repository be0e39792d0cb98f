-- ===== src/App.antt =====
-- The dialplan applications of mod_siprec.c with the outcomes that they publish, and the load and
-- the shutdown of the module. `switch_core_session_strdup` and `switch_separate_string` are a
-- parameter, which gives the words of an argument or none.
pub mod Load
pub mod Outcomes
pub mod Initial
pub mod Session
pub mod Stopping
pub mod Unload
use mod_siprec.Base.{
  Bool, Bytes, List, Option, [], codes, false, if◌then◌else◌, length, none, some, suc, true, ℕ,
  ◌++◌, ◌∷◌,
}
use mod_siprec.Config.{Element, Readers}
use mod_siprec.Config.Pools.{
  Run, Servers, dangling, finished, free_recording_servers, load_pooled_servers, spent, ◌>>=◌,
}
use mod_siprec.Direction.{Act, World, change_direction}
use mod_siprec.G711.{Codebook, g711_init}
use mod_siprec.Leg.{Network}
use mod_siprec.Media.Attach.{Host}
use mod_siprec.Registry.{Registry}
use mod_siprec.Registry.Drain.{
  Drained, drained, faulted, out_of_fuel, stop_recording_session_for_server,
  teardown_all_recordings,
}
use mod_siprec.Start.{Status, start_recording_session, status_false, status_inuse, status_success}
use mod_siprec.Start.Metadata.{Call}
use mod_siprec.Start.Servers.{Globals}
use mod_siprec.Uri.{Refusal, uri_check}

-- A write of a channel variable, where none is NULL.
abbrev pub VarWrite : Type 0
VarWrite = Bytes × Option Bytes

abbrev pub outcome_clear : Bytes → List VarWrite
outcome_clear var = (var, none) ∷ []

abbrev pub outcome_set : Bytes → Bytes → List VarWrite
outcome_set var outcome =
    (var, some outcome) ∷ (codes "current_application_response", some outcome) ∷ []

-- What an application leaves: the registry, the writes in order; none is the use of a freed
-- recording.
abbrev pub Outcome : Type 0
Outcome = Option (Registry × List VarWrite)

abbrev pub publish : Bytes → Option (Registry × Bytes) → Outcome
publish var none = none
publish var (some (g, outcome)) = some (g, outcome_clear var ++ outcome_set var outcome)

-- The first word, if it is there and not empty; NULL is none.
abbrev pub first_word : Option (List Bytes) → Option Bytes
first_word (some ((c ∷ word) ∷ words)) = some (c ∷ word)
first_word _ = none

abbrev pub second_word : List Bytes → Option Bytes
second_word (word ∷ (c ∷ uri) ∷ words) = some (c ∷ uri)
second_word _ = none

abbrev pub or_empty : Option Bytes → Bytes
or_empty none = []
or_empty (some word) = word

abbrev pub status_word : Status → Bytes
status_word status_success = codes "success"
status_word status_inuse = codes "exists"
status_word status_false = codes "failed"

abbrev pub start_outcome : Option (Registry × Status) → Option (Registry × Bytes)
start_outcome none = none
start_outcome (some (g, status)) = some (g, status_word status)

abbrev pub direction_outcome : Bool → Bytes
direction_outcome ok = if ok then codes "success" else codes "failed"

abbrev pub stop_word : Bool → Bytes
stop_word stopped = if stopped then codes "success" else codes "no_recording"

abbrev pub stop_outcome : Option (Registry × Bool) → Option (Registry × Bytes)
stop_outcome none = none
stop_outcome (some (g, stopped)) = some (g, stop_word stopped)

abbrev pub change_outcome :
    Bytes → Option (Registry × List Act × Bool) → Option (Registry × List VarWrite × List Act)
change_outcome var none = none
change_outcome var (some (g, acts, ok)) =
    some (g, outcome_clear var ++ outcome_set var (direction_outcome ok), acts)

module _ (R : Type 0) (world : World) (net : Network) (host : Host) (globals : Globals)
    (call : Call) where
  abbrev pub start_with :
      Option Refusal → Bytes → Option Bytes → Registry → Option (Registry × Bytes)
  start_with (some why) handle srs_uri g = some (g, codes "failed")
  start_with none handle srs_uri g =
      start_outcome (start_recording_session R world.located net host globals call handle srs_uri g)

  -- A URI that is given is checked before the start.
  abbrev pub start_checked : Bytes → Option Bytes → Registry → Option (Registry × Bytes)
  start_checked handle none g = start_with none handle none g
  start_checked handle (some uri) g = start_with (uri_check (some uri)) handle (some uri) g

module _ (split : Bytes → Option (List Bytes)) where
  unfoldable pub arg_handle : Bytes → Option Bytes
  arg_handle [] = none
  arg_handle (c ∷ data_text) = first_word (split (c ∷ data_text))

  module _ (R : Type 0) (world : World) (net : Network) (host : Host) (globals : Globals)
      (call : Call) where
    abbrev pub start_words : Option (List Bytes) → Registry → Option (Registry × Bytes)
    start_words none g = some (g, codes "failed")
    start_words (some words) g =
        start_checked R world net host globals call (or_empty (first_word (some words)))
          (second_word words) g

    -- `siprec_start_app`
    unfoldable pub start_app : Bytes → Registry → Option (Registry × Bytes)
    unfolding start_recording_session uri_check
    start_app [] g = some (g, codes "failed")
    start_app (c ∷ data_text) g = start_words (split (c ∷ data_text)) g

    unfoldable pub siprec_app : Bytes → Registry → Outcome
    unfolding start_app
    siprec_app data_text g = publish (codes "siprec_start_status") (start_app data_text g)

    -- `siprec_pause_app_function` and `siprec_resume_app_function`, with the acts on the fork and
    -- the leg.
    unfoldable pub pause_app : Bytes → Registry → Option (Registry × List VarWrite × List Act)
    unfolding arg_handle change_direction
    pause_app data_text g =
        change_outcome (codes "siprec_pause_status")
          (change_direction world globals.src_enabled call.uuid (arg_handle data_text) true g)

    unfoldable pub resume_app : Bytes → Registry → Option (Registry × List VarWrite × List Act)
    unfolding arg_handle change_direction
    resume_app data_text g =
        change_outcome (codes "siprec_resume_status")
          (change_direction world globals.src_enabled call.uuid (arg_handle data_text) false g)

    -- `siprec_stop_app_function`, with fuel for the drain of a stop without a name.
    unfoldable pub stop_app : Bytes → Registry → Outcome
    unfolding arg_handle stop_recording_session_for_server
    stop_app data_text g = publish (codes "siprec_stop_status") (
        stop_outcome (
          stop_recording_session_for_server world.located (or_empty (arg_handle data_text))
            call.uuid (suc (length g.table)) g))

-- The module's own state besides the registry: the tables of the encoders, the recording servers in
-- memory, whether the hash of recordings is there, and the applications that are registered.
pub record Module : Type 0 where
  pub book : Codebook
  pub servers : Servers
  pub recordings : Option Registry
  pub applications : List Bytes

abbrev pub no_recordings : Registry
no_recordings = record { table = []; heap = λ r. none; effects = [] }

abbrev pub no_servers : Servers
no_servers = record { tried = 0; memory = λ p. none; hash = some [] }

-- `do_config` of the elements of siprec.conf, with whether its settings and its file can be parsed.
abbrev pub do_config :
    Readers → (ℕ → Bool) → Bool → Option (List Element) → Servers → Run (Servers × Bool)
do_config readers granted false file s = finished (s, false)
do_config readers granted true none s = finished (s, false)
do_config readers granted true (some elements) s =
    load_pooled_servers readers granted elements s >>= λ s'. finished (s', true)

abbrev pub applications : List Bytes
applications =
    codes "siprec" ∷ codes "siprec_pause" ∷ codes "siprec_resume" ∷ codes "siprec_stop" ∷ []

-- A load that fails gives back what it has made.
abbrev pub loaded : Codebook → Servers × Bool → Run (Module × Bool)
loaded book (s, true) = finished (
  record { book = book; servers = s; recordings = some no_recordings; applications = applications },
  true,
)
loaded book (s, false) = free_recording_servers s >>= λ s'.
    finished (record { book = book; servers = s'; recordings = none; applications = [] }, false)

-- `mod_siprec_load`
unfoldable pub load :
    Readers → (ℕ → Bool) → Bool → Option (List Element) → Codebook → Run (Module × Bool)
unfolding g711_init load_pooled_servers free_recording_servers
load readers granted settings file book =
    do_config readers granted settings file no_servers >>= loaded (g711_init book)

-- The end of `mod_siprec_shutdown`, with the registry at which the hash of recordings is destroyed.
abbrev pub emptied : Module → Registry → Run Servers → Option (Registry × Module)
emptied m g dangling = none
emptied m g spent = none
emptied m g (finished s) = some (g, record m { servers = s; recordings = none })

abbrev pub unloaded : Module → Drained → Option (Registry × Module)
unloaded m faulted = none
unloaded m out_of_fuel = none
unloaded m (drained g stopped) = emptied m g (free_recording_servers m.servers)

abbrev pub shut : (Bytes → Bool) → ℕ → Module → Option Registry → Option (Registry × Module)
shut located fuel m none = none
shut located fuel m (some g) = unloaded m (teardown_all_recordings located fuel g)

-- `mod_siprec_shutdown`; none is the use of a freed recording or server, or of a hash that is not
-- there.
unfoldable pub shutdown : (Bytes → Bool) → ℕ → Module → Option (Registry × Module)
unfolding teardown_all_recordings free_recording_servers
shutdown located fuel m = shut located fuel m m.recordings
