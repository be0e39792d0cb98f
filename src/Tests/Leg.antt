-- ===== src/Tests/Leg.antt =====
-- A chain of servers of which the second answers, without an SDP in its answer.
use mod_siprec.Base.{
  All, Bytes, List, [], codes, false, has_infix, if◌then◌else◌, length, none, refl, some, take,
  true, ℕ, ◌∷◌, ◌≡◌, ◌≤◌, ◌⊎◌,
}
use mod_siprec.Config.{Server, inherited}
use mod_siprec.Leg.{Answer, Network, negotiate, send_failover}
use mod_siprec.Leg.Endpoints.{IsRoutable, negotiate-endpoints}
use mod_siprec.Leg.Failover.{Walked, send_failover-Walked}

abbrev answer : Answer
answer = record {
  uuid = codes "leg";
  remote_sdp = none;
  media_ip = some (codes "192.0.2.7");
  media_port = some (codes "5004");
  codec = some 8;
}

abbrev net : Network
net = record {
  originate =
      λ dial offer metadata. if has_infix (codes "b.example") dial then some answer else none;
  sscanf = λ text. (0, 0, 0);
  strtol = λ text. (false, 5004, []);
  decimal = λ n. codes "5060";
}

abbrev server : Bytes → Server
server host = record {
  name = codes "srs";
  host = some host;
  port = some 0;
  transport = none;
  separate_streams = inherited;
  uri = none;
}

abbrev chain : List Server
chain = server (codes "a.example") ∷ server (codes "b.example") ∷ []

second_answers :
    send_failover net true (codes "external") (codes "<xml/>") chain
    ≡ some (record {
      recording_uuid = codes "leg";
      negotiated =
          record { remote_ip = codes "192.0.2.7"; remote_port = 5004; pt = 8; mline = 0 } ∷ [];
    })
unfolding send_failover has_infix
second_answers = refl

send_failover-Walked_example :
    Walked net true
      (codes "external")
      (codes "<xml/>")
      (take 16 chain)
      (send_failover net true (codes "external") (codes "<xml/>") chain)
send_failover-Walked_example =
    send_failover-Walked net true (codes "external") (codes "<xml/>") chain

negotiate-endpoints_example :
    (length (negotiate net answer) ≤ 2)
    × All IsRoutable (negotiate net answer)
    × ((pt : ℕ)
        → some 8 ≡ some pt
        → (pt ≡ 0) ⊎ (pt ≡ 8)
        → All (λ s. (s.pt ≡ 0) ⊎ (s.pt ≡ 8)) (negotiate net answer))
negotiate-endpoints_example = negotiate-endpoints net answer
