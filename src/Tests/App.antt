-- ===== src/Tests/App.antt =====
-- The applications and the shutdown of the module on concrete calls.
use mod_siprec.Base.{
  Bytes, List, Option, [], arith, codes, false, insert, lookup, none, refl, some, true, ℕ, ◌∷◌, ◌≡◌,
}
use mod_siprec.Config.Pools.{Servers}
use mod_siprec.Tests.Pools.{entries_table, in_memory, in_memory-Holds}
use mod_siprec.App.{Module, VarWrite, applications, shutdown, siprec_app, stop_app}
use mod_siprec.App.Outcomes.{StartOutcome, published, siprec_app-StartOutcome}
use mod_siprec.App.Stopping.{StopOutcome, stop_app-StopOutcome}
use mod_siprec.App.Unload.{Ended, shutdown-unbind}
use mod_siprec.Direction.{World}
use mod_siprec.Registry.{Recording, Registry}
use mod_siprec.Registry.Interleaving.{empty_system}
use mod_siprec.Tests.Attach.{host}
use mod_siprec.Tests.Media.{blank}
use mod_siprec.Tests.Registry.{everywhere, start_path, started}
use mod_siprec.Tests.Start.{at_load, call, globals, net}
use mod_siprec.Uri.{uri_check}

abbrev pub world : World
world = record {
  located = everywhere;
  renegotiated = λ leg inactive. true;
  bug_of = λ r. true;
  separate_of = λ r. false;
}

-- An argument of a handle and a URI with a space escaped into it.
abbrev words : Bytes → Option (List Bytes)
words text = some (codes "srs" ∷ codes "sip:a,b" ∷ [])

refused_uri :
    siprec_app words Unit world net
      (host (λ n. some n))
      globals
      call
      (codes "srs sip:a,b")
      empty_system.reg
    ≡ some (empty_system.reg, published (codes "siprec_start_status") (codes "failed"))
unfolding siprec_app uri_check
refused_uri = refl

siprec_app-StartOutcome_example :
    (out : Registry × List VarWrite) × (siprec_app words Unit world net
        (host (λ n. some n))
        globals
        call
        (codes "srs sip:a,b")
        empty_system.reg
      ≡ some out)
    × StartOutcome words Unit world net
        (host (λ n. some n))
        globals
        call
        at_load
        (codes "srs sip:a,b")
        out
siprec_app-StartOutcome_example =
    siprec_app-StartOutcome words Unit world net (host (λ n. some n)) globals call at_load
      (codes "srs sip:a,b") (λ r e. refl)

stop_app-StopOutcome_example :
    (out : Registry × List VarWrite) × (stop_app words Unit world net
        (host (λ n. some n))
        globals
        call
        (codes "srs")
        started.reg
      ≡ some out)
    × StopOutcome words Unit world net
        (host (λ n. some n))
        globals
        call
        start_path
        (codes "srs")
        out
stop_app-StopOutcome_example =
    stop_app-StopOutcome words Unit world net (host (λ n. some n)) globals call start_path
      (codes "srs")

abbrev running : Module
running = record {
  book = blank;
  servers = in_memory;
  recordings = some started.reg;
  applications = applications;
}

shutdown-unbind_example :
    (g : Registry) × (freed : Servers) × (shutdown everywhere 3 running
      ≡ some (g, record running { servers = freed; recordings = none }))
    × (g.table ≡ [])
    × (freed.hash ≡ none)
    × ((p : ℕ) → freed.memory p ≡ none)
    × ((k : Bytes) (r : ℕ) (rec : Recording)
        → lookup k started.reg.table ≡ some r
        → started.reg.heap r ≡ some rec
        → Ended everywhere rec (g.heap r) g.effects)
unfolding insert
shutdown-unbind_example =
    shutdown-unbind start_path running entries_table 3 refl in_memory-Holds (omega arith)
