-- ===== src/Tests/Attach.antt =====
-- Forks that concrete hosts attach.
use mod_siprec.Base.{
  List, Option, [], codes, false, if◌then◌else◌, none, refl, some, true, ℕ, ◌+◌, ◌==◌, ◌∷◌, ◌≡◌,
}
use mod_siprec.Media.{Ctx}
use mod_siprec.Media.Attach.{Host, attach, attached_ctx, closed, open_streams, opened, ready_stream}
use mod_siprec.Media.Attach.Ready.{Attached, attach-Attached}
use mod_siprec.Media.Fork.{Forked, Tick, attach-Forked, run_ticks}
use mod_siprec.Sdp.{Negotiated, addr_kind}
use mod_siprec.Tests.Media.{accepting, blank, plain, stereo}

-- A host with the given sockets, on a mono call in PCMA.
abbrev pub host : (ℕ → Option ℕ) → Host
host sockets = record {
  inet = λ ip. true;
  inet6 = λ ip. false;
  socket = λ n ipv6. sockets n;
  urandom = λ n. none;
  clock = λ n. n + 100;
  codec = some 8;
  channels = 1;
  bug_add = λ separate. true;
}

abbrev pub answer : ℕ → Negotiated
answer mline = record {
  remote_ip = codes "10.0.0.9";
  remote_port = 4000 + mline;
  pt = 255;
  mline = mline;
}

-- The second socket fails, and the first is closed.
half_open :
    attach {R = Unit} (host (λ n. if n == 0 then some 7 else none)) true (answer 0 ∷ answer 1 ∷ [])
    ≡ (none, opened 7 ∷ closed 7 ∷ [])
unfolding attach open_streams addr_kind
half_open = refl

attach-Attached_example :
    Attached {R = Unit} true
      (answer 0 ∷ answer 1 ∷ [])
      (attach (host (λ n. some (7 + n))) true (answer 0 ∷ answer 1 ∷ []))
attach-Attached_example = attach-Attached (host (λ n. some (7 + n))) true (answer 0 ∷ answer 1 ∷ [])

abbrev pub two_ready : Ctx Unit
two_ready = attached_ctx true 2 (
    ready_stream (host (λ n. some (7 + n))) 0 7 (answer 0)
    ∷ ready_stream (host (λ n. some (7 + n))) 1 8 (answer 1)
    ∷ [])

both_open : (attach (host (λ n. some (7 + n))) true (answer 0 ∷ answer 1 ∷ [])).0 ≡ some two_ready
unfolding attach open_streams addr_kind
both_open = refl

abbrev ticks : List Tick
ticks =
    record { frames = stereo ∷ []; microseconds = 20000; leg_gone = false; net = accepting } ∷ []

attach-Forked_example : Forked plain blank two_ready (run_ticks plain blank ticks two_ready)
attach-Forked_example =
    attach-Forked plain blank (host (λ n. some (7 + n))) true (answer 0 ∷ answer 1 ∷ []) two_ready
      ticks both_open
