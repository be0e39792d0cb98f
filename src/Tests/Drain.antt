-- ===== src/Tests/Drain.antt =====
-- Drains and stops with one recording in the table.
use mod_siprec.Base.{
  Bool, Bytes, List, Option, [], arith, codes, false, insert, length, ltb, none, refl, some, suc,
  zero, ℕ, ◌∷◌, ◌≡◌,
}
use mod_siprec.Registry.{Registry, fresh_recording, recording_key}
use mod_siprec.Registry.Drain.{
  Drained, drain_passes, drain_recordings, drained, stop_recording_session_for_server,
  unbind_call_handler,
}
use mod_siprec.Registry.Drain.Ends.{
  Named, stop_recording_session_for_server-Named, stop_recording_session_for_server-all,
}
use mod_siprec.Registry.Drain.Passes.{drain_recordings-retire_all}
use mod_siprec.Registry.Drain.Reference.{hits, kept, retire_all, retired_heap}
use mod_siprec.Tests.Registry.{everywhere, start_path, started}

abbrev call : Bytes
call = codes "call"

drain_recordings-retire_all_example :
    drain_recordings everywhere (some call) false 2 started.reg
    ≡ drained
        (retire_all everywhere (some call) false started.reg)
        (length (hits (some call) started.reg.heap started.reg.table))
unfolding insert
drain_recordings-retire_all_example =
    drain_recordings-retire_all start_path (some call) false 2 (omega arith)

stop_recording_session_for_server-all_example :
    (stop_recording_session_for_server everywhere [] call 2 started.reg
      ≡ some (
        unbind_call_handler everywhere call (retire_all everywhere (some call) false started.reg),
        ltb 0 (length (hits (some call) started.reg.heap started.reg.table)),
      ))
    × (hits
          (some call)
          (retired_heap (some call) started.reg.heap started.reg.table)
          (kept (some call) started.reg.heap started.reg.table)
        ≡ [])
unfolding insert
stop_recording_session_for_server-all_example =
    stop_recording_session_for_server-all start_path call 2 (omega arith)

stop_recording_session_for_server-Named_example :
    (result : Registry × Bool) × (stop_recording_session_for_server everywhere
        (b's' ∷ codes "rs")
        call
        2
        started.reg
      ≡ some result)
    × Named start_path call (recording_key (b's' ∷ codes "rs") call) result
stop_recording_session_for_server-Named_example =
    stop_recording_session_for_server-Named start_path b's' (codes "rs") call 2

-- The one recording of the call is counted.
one_hit : length (hits (some call) started.reg.heap started.reg.table) ≡ 1
unfolding hits insert
one_hit = refl

-- A table with a recording for each number below `n`, none of them pinned.
abbrev many : ℕ → List (Bytes × ℕ)
many zero = []
many (suc n) = (n ∷ [], n) ∷ many n

abbrev crowd : ℕ → Registry
crowd n = record {
  table = many n;
  heap = λ q. some (record (fresh_recording (q ∷ []) call) { use_count = 0 });
  effects = [];
}

count_of : Drained → Option ℕ
count_of (drained g stopped) = some stopped
count_of _ = none

-- One pass is enough for 15 recordings, and 17 take two.
one_pass : count_of (drain_recordings everywhere none false 1 (crowd 15)) ≡ some 15
unfolding drain_passes count_of
one_pass = refl

too_short : count_of (drain_recordings everywhere none false 1 (crowd 17)) ≡ none
unfolding drain_passes count_of
too_short = refl

two_passes : count_of (drain_recordings everywhere none false 2 (crowd 17)) ≡ some 17
unfolding drain_passes count_of
two_passes = refl
