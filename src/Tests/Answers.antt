-- ===== src/Tests/Answers.antt =====
-- The answer of an SRS, a file of recording servers, and a pause, at concrete inputs.
use mod_siprec.Base.{
  Bool, Bytes, List, [], codes, equal, false, if◌then◌else◌, lookup, none, refl, some, take, true,
  ◌==◌, ◌∷◌, ◌≡◌,
}
use mod_siprec.Sdp.{Sscanf, parse_remote_streams}
use mod_siprec.Sdp.Streams.{IsAnswer, parse_remote_streams-IsAnswer}
use mod_siprec.Config.{Element, Readers, Server, inherited, load_recording_servers}
use mod_siprec.Config.Chains.{chain_of}
use mod_siprec.Uri.{uri_check}
use mod_siprec.Registry.{Recording, Registry, recording_key}
use mod_siprec.Direction.{Act, World, change_direction}
use mod_siprec.Direction.Order.{Allowed, change_direction-Allowed}

abbrev answer : Bytes
answer =
    codes
      "v=0\r\nc=IN IP4 192.0.2.1\r\nm=audio 0 RTP/AVP 0\r\nc=IN IP4 192.0.2.9\r\nm=audio 5004 RTP/AVP 8 0\r\nc=IN IP4 192.0.2.2\r\n"

-- What `sscanf` reads behind the two `m=audio ` of the answer.
abbrev scanned : Sscanf
scanned text = if equal (take 4 text) (codes "5004") then (2, 5004, 8) else (2, 0, 0)

answer_streams :
    parse_remote_streams scanned 2 (some answer)
    ≡ record { remote_ip = codes "192.0.2.2"; remote_port = 5004; pt = 8; mline = 1 } ∷ []
unfolding parse_remote_streams equal
answer_streams = refl

parse_remote_streams-IsAnswer_example : IsAnswer 2 (parse_remote_streams scanned 2 (some answer))
parse_remote_streams-IsAnswer_example = parse_remote_streams-IsAnswer scanned 2 (some answer)

abbrev pub readers : Readers
readers = record {
  strtol = λ val. (false, 5062, []);
  switch_true = λ val. equal val (codes "true");
  switch_false = λ val. equal val (codes "false");
}

abbrev pub element : Bytes → Element
element host = record {
  name_attr = codes "srs";
  params = (codes "host", host) ∷ (codes "port", codes "5062") ∷ [];
}

abbrev pub file : List Element
file = element (codes "a.example") ∷ element (codes "bad,host") ∷ element (codes "b.example") ∷ []

abbrev pub server : Bytes → Server
server host = record {
  name = codes "srs";
  host = some host;
  port = some 5062;
  transport = none;
  separate_streams = inherited;
  uri = none;
}

file_loaded :
    chain_of (codes "srs") (load_recording_servers readers file [])
    ≡ server (codes "a.example") ∷ server (codes "b.example") ∷ []
unfolding load_recording_servers equal uri_check
file_loaded = refl

abbrev rec : Recording
rec = record {
  key = codes "default-call";
  uuid = codes "call";
  use_count = 0;
  doomed = false;
  leg_gone = false;
  leg = some (codes "leg");
  forked = true;
}

abbrev reg : Registry
reg = record {
  table = (codes "default-call", 3) ∷ [];
  heap = λ q. if q == 3 then some rec else none;
  effects = [];
}

abbrev world : World
world = record {
  located = λ leg. true;
  renegotiated = λ leg paused. paused;
  bug_of = λ r. true;
  separate_of = λ r. false;
}

change_direction-Allowed_example :
    (g' : Registry) × (acts : List Act) × (ok : Bool) × (change_direction world false
        (codes "call")
        none
        true
        reg
      ≡ some (g', acts, ok))
    × Allowed world 3 true true acts ok
unfolding recording_key lookup equal
change_direction-Allowed_example =
    change_direction-Allowed world false (codes "call") none true reg 3 rec refl refl refl
