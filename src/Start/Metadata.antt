-- ===== src/Start/Metadata.antt =====
-- The metadata of a start of recording_session.c: the AORs, the IDs and the options of the document.
use mod_siprec.Base.{
  Bool, Bytes, List, Option, [], codes, false, if◌then◌else◌, none, some, true, ℕ, ◌∷◌,
}
use mod_siprec.Metadata.Aor.{metadata_aor}
use mod_siprec.Metadata.Document.{Options, Participant, Stream, complete, send}
use mod_siprec.Metadata.Id.{Source, session_id, uuid_to_id}

-- The call's session and the machine during one start: its uuid, its channel, the memory pool that
-- FreeSWITCH gives, the n-th `switch_uuid_str`, the text of the time, and `realloc`.
pub record Call : Type 0 where
  pub uuid : Bytes
  pub media_ready : Bool
  pub inbound : Bool
  pub variable : Bytes → Option Bytes
  pub pool : Option ℕ
  pub fresh_uuid : ℕ → Bytes
  pub time : Bytes
  pub realloc : ℕ → ℕ → Bool

-- `raw` in `recording_aor`, the first variable that is set.
abbrev pub raw_aor : Option Bytes → Option Bytes → Option Bytes
raw_aor (some (c ∷ s)) other = some (c ∷ s)
raw_aor _ other = other

abbrev pub aor_or_unknown : Option Bytes → Bytes
aor_or_unknown none = codes "sip:unknown@invalid"
aor_or_unknown (some aor) = aor

unfoldable pub recording_aor : Call → Bytes → Bytes → Bytes → Bytes
unfolding metadata_aor
recording_aor call uri_var fallback_var host_var = aor_or_unknown (
    metadata_aor call.realloc (raw_aor (call.variable uri_var) (call.variable fallback_var))
      (call.variable host_var))

-- `metadata_id_fresh` with the n-th UUID.
abbrev pub metadata_id_fresh : Call → ℕ → Option Bytes
metadata_id_fresh call n = uuid_to_id (some (call.fresh_uuid n))

pub record Ids : Type 0 where
  pub session : Bytes
  pub group : Bytes
  pub caller : Bytes
  pub callee : Bytes
  pub stream : Bytes
  pub stream2 : Bytes

abbrev pub ids_of :
    Option (Source × Bytes)
    → Option Bytes
    → Option Bytes
    → Option Bytes
    → Option Bytes
    → Option Bytes
    → Option Ids
ids_of (some (source, session)) (some group) (some caller) (some callee) (some s) (some s2) =
    some (record {
      session = session;
      group = group;
      caller = caller;
      callee = callee;
      stream = s;
      stream2 = s2;
    })
ids_of _ _ _ _ _ _ = none

unfoldable pub metadata_ids : Call → Option Ids
unfolding session_id uuid_to_id
metadata_ids call =
    ids_of (session_id (some call.uuid) (some (call.fresh_uuid 0))) (metadata_id_fresh call 1)
      (metadata_id_fresh call 2) (metadata_id_fresh call 3) (metadata_id_fresh call 4)
      (metadata_id_fresh call 5)

abbrev pub participants_of : Call → Ids → List Participant
participants_of call ids =
    record {
      participant_id = some ids.caller;
      aor = some (
          recording_aor call (codes "sip_from_uri") (codes "caller_id_number")
            (codes "sip_from_host"));
      display_name = none;
    }
    ∷ record {
      participant_id = some ids.callee;
      aor = some (
          recording_aor call (codes "sip_to_uri") (codes "destination_number")
            (codes "sip_to_host"));
      display_name = none;
    }
    ∷ []

-- The participant that speaks on what the leg receives.
abbrev pub rx_idx : Call → ℕ
rx_idx call = if call.inbound then 0 else 1

abbrev pub stream_of : Bytes → ℕ → Bytes → Stream
stream_of id idx label = record {
  stream_id = some id;
  mode = send;
  participant_idx = idx;
  label = some label;
}

abbrev pub streams_of : Call → Bool → Ids → List Stream
streams_of call true ids =
    stream_of ids.stream (rx_idx call) (codes "1")
    ∷ stream_of ids.stream2 (if call.inbound then 1 else 0) (codes "2")
    ∷ []
streams_of call false ids = stream_of ids.stream 0 (codes "1") ∷ []

abbrev pub options_of : Call → Bool → Ids → Options
options_of call separate ids = record {
  session_id = some ids.session;
  group_id = some ids.group;
  associate_time_utc = some call.time;
  datamode = complete;
  session_reason = none;
  participants = participants_of call ids;
  streams = streams_of call separate ids;
}
