-- ===== src/Tests/Start.antt =====
-- Starts of a recording on a concrete call.
use mod_siprec.Base.{
  Option, [], codes, equal, false, if◌then◌else◌, none, refl, some, true, ◌+◌, ◌∷◌, ◌≡◌,
}
use mod_siprec.Leg as Leg
use mod_siprec.Leg.{Network}
use mod_siprec.Registry.{Registry}
use mod_siprec.Metadata.Escape.{escape_calls}
use mod_siprec.Registry.Interleaving.{Reach, empty_system, stay}
use mod_siprec.Start.Servers.{Globals}
use mod_siprec.Start.Metadata.{Call}
use mod_siprec.Start.{Status, finish_start, forked, start_recording_session, status_success}
use mod_siprec.Start.Begin.{start_recording_session-Begun}
use mod_siprec.Start.Outcome.{Begun}
use mod_siprec.Start.Finish.{Finished, finish_start-Finished}
use mod_siprec.Tests.Attach.{answer, host, two_ready}
use mod_siprec.Tests.Registry.{everywhere, first, start_path, started}

abbrev leg : Leg.Ctx
leg = record { recording_uuid = codes "leg"; negotiated = answer 0 ∷ answer 1 ∷ [] }

finish_start-Finished_example :
    (result : Registry × Status) × (finish_start everywhere 1
        (codes "call")
        (forked leg two_ready)
        started.reg
      ≡ some result)
    × Finished start_path (codes "call") 1 first refl refl (forked leg two_ready) result
finish_start-Finished_example =
    finish_start-Finished start_path (codes "call") 1 first refl refl (forked leg two_ready)

abbrev pub globals : Globals
globals = record { src_enabled = true; separate_streams = false; recording_servers = [] }

abbrev pub call : Call
call = record {
  uuid = codes "0f8fad5b-d9cb-469f-a165-70867728950e";
  media_ready = true;
  inbound = true;
  variable =
      λ name. if equal name (codes "sofia_profile_name") then some (codes "internal") else none;
  pool = some 4;
  fresh_uuid = λ n. codes "7c9e6679-7425-40de-944b-e07fc1f90ae7";
  time = codes "2026-01-02T03:04:05Z";
  realloc = λ old new. true;
}

abbrev pub net : Network
net = record {
  originate = λ dial offer metadata. some (record {
    uuid = codes "leg";
    remote_sdp = none;
    media_ip = some (codes "10.0.0.9");
    media_port = some (codes "4000");
    codec = some 8;
  });
  sscanf = λ text. (0, 0, 0);
  strtol = λ s. (false, 4000, []);
  decimal = λ n. [];
}

pub at_load : Reach everywhere empty_system empty_system
at_load = stay

status_of : Option (Registry × Status) → Option Status
status_of none = none
status_of (some (g, status)) = some status

-- The SRS answers, and the start succeeds.
answered :
    status_of (
      start_recording_session Unit everywhere net
        (host (λ n. some (7 + n)))
        globals
        call
        (codes "srs")
        (some (codes "sip:srs.example"))
        empty_system.reg)
    ≡ some status_success
unfolding start_recording_session status_of escape_calls
answered = refl

start_recording_session-Begun_example :
    (result : Registry × Status) × (start_recording_session Unit everywhere net
        (host (λ n. some (7 + n)))
        globals
        call
        (codes "srs")
        (some (codes "sip:srs.example"))
        empty_system.reg
      ≡ some result)
    × Begun Unit net
        (host (λ n. some (7 + n)))
        globals
        call
        at_load
        (codes "srs")
        (some (codes "sip:srs.example"))
        result
start_recording_session-Begun_example =
    start_recording_session-Begun Unit net (host (λ n. some (7 + n))) globals call at_load
      (codes "srs") (some (codes "sip:srs.example")) (λ r e. refl)
