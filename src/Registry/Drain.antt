-- ===== src/Registry/Drain.antt =====
-- The scans of `recordings_hash` in recording_session.c: the drain of a call's recordings or of
-- all of them, and the release of a call's hangup handler. Each runs with no other thread between
-- its parts; the hash is walked in the order of the table.
pub mod Reference
pub mod Heads
pub mod Batches
pub mod Passes
pub mod Release
pub mod Ends
use mod_siprec.Base.{
  Bool, Bytes, List, Option, [], equal, false, if◌then◌else◌, length, ltb, none, some, suc, true,
  zero, ℕ, ◌&&◌, ◌+◌, ◌-◌, ◌||◌, ◌∷◌,
}
use mod_siprec.Registry.{Effect, Recording, Registry, claim_recording, teardown_recording, unbind}
use mod_siprec.Registry.Stop.{finish_stop, stop_for_server}

-- The recordings that a drain is for: those of one call, or all.
abbrev pub matches : Option Bytes → Recording → Bool
matches none rec = true
matches (some uuid) rec = equal rec.uuid uuid

abbrev pub copy_key : Recording → Option (List (Bytes × Bytes)) → Option (List (Bytes × Bytes))
copy_key rec none = none
copy_key rec (some batch) = some ((rec.key, rec.uuid) ∷ batch)

abbrev pub copy_if :
    Bool → ℕ → Recording → (ℕ → Option (List (Bytes × Bytes))) → Option (List (Bytes × Bytes))
copy_if true room rec go_on = copy_key rec (go_on (room - 1))
copy_if false room rec go_on = go_on room

-- One iteration of the scan, with room for some more keys; none is the use of a freed recording.
abbrev pub scan_entry :
    Option Bytes
    → ℕ
    → Option Recording
    → (ℕ → Option (List (Bytes × Bytes)))
    → Option (List (Bytes × Bytes))
scan_entry uuid room none go_on = none
scan_entry uuid room (some rec) go_on = copy_if (ltb 0 room && matches uuid rec) room rec go_on

-- The keys and the calls of at most `room` recordings.
unfoldable pub scan :
    Option Bytes → (ℕ → Option Recording) → List (Bytes × ℕ) → ℕ → Option (List (Bytes × Bytes))
unfolding equal
scan uuid heap [] room = some []
scan uuid heap ((k, r) ∷ table) room = scan_entry uuid room (heap r) (scan uuid heap table)

-- `unbind_call_handler` as an effect.
abbrev pub unbind_effect : (Bytes → Bool) → Bytes → List Effect → List Effect
unbind_effect located [] log = log
unbind_effect located (c ∷ uuid) log = if located (c ∷ uuid) then unbind (c ∷ uuid) ∷ log else log

abbrev pub unbind_call_handler : (Bytes → Bool) → Bytes → Registry → Registry
unbind_call_handler located uuid g = record g { effects = unbind_effect located uuid g.effects }

abbrev pub finish_one :
    (Bytes → Bool) → Bool → Bytes → Option (Registry × Bool) → Option (Registry × Bool)
finish_one located unbinds uuid none = none
finish_one located unbinds uuid (some (g, found)) =
    some (if unbinds && found then unbind_call_handler located uuid g else g, found)

-- One iteration of the loop over a batch.
unfoldable pub stop_one :
    (Bytes → Bool) → Bool → Bytes → Bytes → Registry → Option (Registry × Bool)
unfolding claim_recording teardown_recording
stop_one located unbinds key uuid g =
    finish_one located unbinds uuid (finish_stop located (claim_recording key g))

abbrev pub after_one :
    ℕ → Option (Registry × Bool) → (Registry → ℕ → Option (Registry × ℕ)) → Option (Registry × ℕ)
after_one stopped none go_on = none
after_one stopped (some (g, found)) go_on = go_on g (if found then stopped + 1 else stopped)

-- The loop over a batch, with `stopped` as it goes in and comes out.
unfoldable pub stop_batch :
    (Bytes → Bool) → Bool → List (Bytes × Bytes) → Registry → ℕ → Option (Registry × ℕ)
unfolding stop_one
stop_batch located unbinds [] g stopped = some (g, stopped)
stop_batch located unbinds ((key, uuid) ∷ batch) g stopped =
    after_one stopped (stop_one located unbinds key uuid g) (stop_batch located unbinds batch)

-- How a drain may go: the use of a freed recording, no end within the fuel, or a count.
pub data Drained : Type 0 where
  faulted : Drained
  out_of_fuel : Drained
  drained : Registry → ℕ → Drained

-- `SIPREC_DRAIN_BATCH`
abbrev pub drain_batch : ℕ
drain_batch = 16

abbrev pub after_batch : Bool → Option (Registry × ℕ) → (Registry → ℕ → Drained) → Drained
after_batch short none again = faulted
after_batch true (some (g, stopped)) again = drained g stopped
after_batch false (some (g, stopped)) again = again g stopped

abbrev pub after_scan :
    (Bytes → Bool)
    → Bool
    → Option (List (Bytes × Bytes))
    → Registry
    → ℕ
    → (Registry → ℕ → Drained)
    → Drained
after_scan located unbinds none g stopped again = faulted
after_scan located unbinds (some batch) g stopped again =
    after_batch (ltb (length batch) drain_batch) (stop_batch located unbinds batch g stopped) again

-- The passes of `drain_recordings`, at most as many as the fuel.
unfoldable pub drain_passes : (Bytes → Bool) → Option Bytes → Bool → ℕ → Registry → ℕ → Drained
unfolding scan stop_batch
drain_passes located uuid unbinds zero g stopped = out_of_fuel
drain_passes located uuid unbinds (suc fuel) g stopped =
    after_scan located unbinds (scan uuid g.heap g.table drain_batch) g stopped
      (drain_passes located uuid unbinds fuel)

abbrev pub drain_recordings : (Bytes → Bool) → Option Bytes → Bool → ℕ → Registry → Drained
drain_recordings located uuid unbinds fuel g = drain_passes located uuid unbinds fuel g 0

-- A command on the registry: a fault, no end within the fuel, or the new registry and whether the
-- status is SWITCH_STATUS_SUCCESS.
abbrev pub stop_status : Drained → Option (Registry × Bool)
stop_status (drained g stopped) = some (g, ltb 0 stopped)
stop_status _ = none

-- `stop_recording_session` on the call `uuid`.
unfoldable pub stop_recording_session :
    (Bytes → Bool) → Bytes → ℕ → Registry → Option (Registry × Bool)
unfolding drain_passes
stop_recording_session located uuid fuel g =
    stop_status (drain_recordings located (some uuid) false fuel g)

-- `siprec_teardown_all_recordings`
unfoldable pub teardown_all_recordings : (Bytes → Bool) → ℕ → Registry → Drained
unfolding drain_passes
teardown_all_recordings located fuel g = drain_recordings located none true fuel g

-- The scan of `release_call_handler`: whether a recording of the call is in the table.
abbrev pub live_entry : Bytes → Option Recording → Option Bool → Option Bool
live_entry uuid none rest = none
live_entry uuid (some rec) none = none
live_entry uuid (some rec) (some live) = some (equal rec.uuid uuid || live)

unfoldable pub scan_live : Bytes → (ℕ → Option Recording) → List (Bytes × ℕ) → Option Bool
unfolding equal
scan_live uuid heap [] = some false
scan_live uuid heap ((k, r) ∷ table) = live_entry uuid (heap r) (scan_live uuid heap table)

abbrev pub release_unless : (Bytes → Bool) → Bytes → Option Bool → Registry → Option Registry
release_unless located uuid none g = none
release_unless located uuid (some live) g =
    some (if live then g else unbind_call_handler located uuid g)

unfoldable pub release_call_handler : (Bytes → Bool) → Bytes → Registry → Option Registry
unfolding scan_live
release_call_handler located uuid g = release_unless located uuid (scan_live uuid g.heap g.table) g

abbrev pub then_release :
    (Bytes → Bool) → Bytes → Option (Registry × Bool) → Option (Registry × Bool)
then_release located uuid none = none
then_release located uuid (some (g, found)) = elim (release_call_handler located uuid g) [
  | none ↦ none
  | some g' ↦ some (g', found)
]

-- With a name, a stop that found nothing returns before the release.
abbrev pub release_found :
    (Bytes → Bool) → Bytes → Option (Registry × Bool) → Option (Registry × Bool)
release_found located uuid (some (g, false)) = some (g, false)
release_found located uuid result = then_release located uuid result

-- The whole of `stop_recording_session_for_server`; an empty name stands for NULL too.
unfoldable pub stop_recording_session_for_server :
    (Bytes → Bool) → Bytes → Bytes → ℕ → Registry → Option (Registry × Bool)
unfolding stop_recording_session stop_for_server release_call_handler
stop_recording_session_for_server located [] uuid fuel g =
    then_release located uuid (stop_recording_session located uuid fuel g)
stop_recording_session_for_server located (c ∷ server_name) uuid fuel g =
    release_found located uuid (stop_for_server located (c ∷ server_name) uuid g)

-- `siprec_on_hangup` on the call `uuid`, which ignores the status.
unfoldable pub on_hangup : (Bytes → Bool) → Bytes → ℕ → Registry → Option Registry
unfolding stop_recording_session
on_hangup located uuid fuel g = elim (stop_recording_session located uuid fuel g) [
  | none ↦ none
  | some (g', stopped) ↦ some g'
]
