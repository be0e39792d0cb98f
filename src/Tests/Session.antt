-- ===== src/Tests/Session.antt =====
-- The life of the module with calls in between, at concrete inputs.
use mod_siprec.Base.{
  Bytes, List, Option, [], codes, equal, if◌then◌else◌, none, refl, some, take, true, ℕ, ◌+◌, ◌∷◌,
  ◌≡◌,
}
use mod_siprec.App.{Module}
use mod_siprec.App.Session.{
  Event, hangs_up, leg_hangs_up, lifetime, on_events, runs_pause, runs_resume, runs_siprec,
  runs_stop,
}
use mod_siprec.App.Session.Life.{Clean, lifetime-Clean}
use mod_siprec.Registry.{Recording, Registry}
use mod_siprec.Tests.App.{world}
use mod_siprec.Tests.Answers.{readers}
use mod_siprec.Tests.Attach.{host}
use mod_siprec.Config.{load_recording_servers}
use mod_siprec.Metadata.Escape.{escape_calls}
use mod_siprec.Registry.Interleaving.{empty_system}
use mod_siprec.Tests.Media.{blank}
use mod_siprec.Tests.Pools.{entries, entries_table, granted}
use mod_siprec.Uri.{uri_check}
use mod_siprec.Tests.Start.{call, globals, net}

-- A handle and a URI behind it, or a handle only.
abbrev split : Bytes → Option (List Bytes)
split text =
    if equal text (codes "srs")
    then some (codes "srs" ∷ [])
    else some (codes "srs" ∷ codes "sip:srs.example" ∷ [])

-- The pool 4 if no recording is in it.
pool_if_free : Option Recording → Option ℕ
pool_if_free none = some 4
pool_if_free (some rec) = none

new_pool : Registry → Option ℕ
unfolding pool_if_free
new_pool g = pool_if_free (g.heap 4)

free_if_given :
    (o : Option Recording) (r : ℕ) (g : Registry)
    → g.heap 4 ≡ o
    → pool_if_free o ≡ some r
    → g.heap r ≡ none
unfolding pool_if_free
free_if_given none r g e given = cc
free_if_given (some rec) r g e given = cc

new_pool_free : (g : Registry) (r : ℕ) → new_pool g ≡ some r → g.heap r ≡ none
unfolding new_pool
new_pool_free g r given = free_if_given (g.heap 4) r g refl given

table_of : Option Registry → List (Bytes × ℕ)
table_of none = []
table_of (some g) = g.table

-- A start by the servers of the file, a pause, a second start under the same name, a resume, a stop, a start again, the hangup
-- of its leg and of the call.
abbrev events : List Event
events =
    runs_siprec call (codes "srs")
    ∷ runs_pause call (codes "srs")
    ∷ runs_siprec call (codes "srs sip:srs.example")
    ∷ runs_resume call (codes "srs")
    ∷ runs_stop call (codes "srs")
    ∷ runs_siprec call (codes "srs sip:srs.example")
    ∷ leg_hangs_up (some (codes "srs-0f8fad5b-d9cb-469f-a165-70867728950e")) (codes "leg")
    ∷ hangs_up call.uuid
    ∷ []

-- The first four calls leave one recording, in the pool 4.
recording_left :
    table_of (
      on_events split Unit world net
        (host (λ n. some (7 + n)))
        (record globals { recording_servers = entries_table })
        new_pool
        (take 4 events)
        empty_system.reg)
    ≡ (codes "srs-0f8fad5b-d9cb-469f-a165-70867728950e", 4) ∷ []
unfolding on_events table_of new_pool load_recording_servers equal pool_if_free escape_calls
    uri_check
recording_left = refl

lifetime-Clean_example :
    (end : Registry × Module) × (lifetime split Unit world net
        (host (λ n. some (7 + n)))
        globals
        new_pool
        readers
        granted
        true
        (some entries)
        blank
        events
      ≡ some end)
    × Clean end
lifetime-Clean_example =
    lifetime-Clean split Unit world net (host (λ n. some (7 + n))) globals new_pool new_pool_free
      readers granted true (some entries) blank events
