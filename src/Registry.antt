-- ===== src/Registry.antt =====
-- recording_session.c: the table of recordings, the pins that keep a recording alive outside the
-- lock, and the teardown that frees it. A recording is a pointer into `heap`, where a freed pool
-- is `none`: an access to it is a fault, the result `none` of an operation.
pub mod Interleaving
pub mod Invariant
pub mod Safety
pub mod Releasing
pub mod Progress
pub mod Stop
pub mod Discard
pub mod Drain
pub mod Runs
use mod_siprec.Base.{
  Bool, Bytes, List, Option, [], delete, equal, false, if◌then◌else◌, insert, lookup, ltb, none,
  not, some, true, ℕ, ◌&&◌, ◌++◌, ◌+◌, ◌-◌, ◌==◌, ◌||◌, ◌∷◌,
}

-- `struct recording` of mod_siprec.h, with what of the two contexts matters to its lifetime: `leg`
-- is `invite_ctx->recording_uuid`, none for a NULL context, and `forked` whether `media_ctx` is
-- set.
pub record Recording : Type 0 where
  pub key : Bytes
  pub uuid : Bytes
  pub use_count : ℕ
  pub doomed : Bool
  pub leg_gone : Bool
  pub leg : Option Bytes
  pub forked : Bool

-- What leaves the module when a recording is retired, and the hangup handler that a call gets and
-- loses.
pub data Effect : Type 0 where
  detach : ℕ → Effect
  bye : Bytes → Effect
  free : ℕ → Effect
  bind : Bytes → Effect
  unbind : Bytes → Effect

-- `globals.recordings_hash`, the recordings it points to, and the effects so far, latest first.
pub record Registry : Type 0 where
  pub table : List (Bytes × ℕ)
  pub heap : ℕ → Option Recording
  pub effects : List Effect

abbrev pub write : (ℕ → Option Recording) → ℕ → Option Recording → ℕ → Option Recording
write heap r v q = if q == r then v else heap q

-- `siprec_recording_key`
unfoldable pub recording_key : Bytes → Bytes → Bytes
recording_key server_name uuid = server_name ++ (b'-' ∷ uuid)

abbrev pub claim_found :
    Bytes → ℕ → Option Recording → Registry → Option (Registry × Option ℕ × Bool)
claim_found key r none g = none
claim_found key r (some rec) g =
    let removed = delete key g.table in
    if ltb 0 rec.use_count
    then some (
      record g { table = removed; heap = write g.heap r (some (record rec { doomed = true })) },
      none,
      true,
    )
    else some (record g { table = removed }, some r, true)

abbrev pub claim_pointer : Bytes → Option ℕ → Registry → Option (Registry × Option ℕ × Bool)
claim_pointer key none g = some (g, none, false)
claim_pointer key (some r) g = claim_found key r (g.heap r) g

-- The pointer is there if the caller has become the owner; the last result is `*found`.
unfoldable pub claim_recording : Bytes → Registry → Option (Registry × Option ℕ × Bool)
unfolding lookup delete
claim_recording key g = claim_pointer key (lookup key g.table) g

abbrev pub pin : ℕ → Option Recording → Registry → Option (Registry × Option ℕ)
pin r none g = none
pin r (some rec) g = some (
  record g { heap = write g.heap r (some (record rec { use_count = rec.use_count + 1 })) },
  some r,
)

abbrev pub acquire_pointer : Option ℕ → Registry → Option (Registry × Option ℕ)
acquire_pointer none g = some (g, none)
acquire_pointer (some r) g = pin r (g.heap r) g

unfoldable pub acquire_recording : Bytes → Registry → Option (Registry × Option ℕ)
unfolding lookup
acquire_recording key g = acquire_pointer (lookup key g.table) g

-- The locked part of `release_recording`: the decrement, `doomed`, and `do_teardown`.
abbrev pub unpin_found : ℕ → Option Recording → Registry → Option (Registry × Bool × Bool)
unpin_found r none g = none
unpin_found r (some rec) g = some (
  record g { heap = write g.heap r (some (record rec { use_count = rec.use_count - 1 })) },
  rec.doomed,
  rec.use_count - 1 == 0 && rec.doomed,
)

unfoldable pub unpin : ℕ → Registry → Option (Registry × Bool × Bool)
unpin r g = unpin_found r (g.heap r) g

-- `siprec_media_detach` and `siprec_invite_send_bye` as effects, none where they have nothing to
-- do; `located` says whether the leg's session still exists.
abbrev pub detach_effect : ℕ → Recording → List Effect → List Effect
detach_effect r rec log = if rec.forked then detach r ∷ log else log

abbrev pub bye_effect : (Bytes → Bool) → Option Bytes → List Effect → List Effect
bye_effect located none log = log
bye_effect located (some []) log = log
bye_effect located (some (c ∷ s)) log = if located (c ∷ s) then bye (c ∷ s) ∷ log else log

abbrev pub teardown_found : (Bytes → Bool) → ℕ → Option Recording → Registry → Option Registry
teardown_found located r none g = none
teardown_found located r (some rec) g = some (record g {
  heap = write g.heap r none;
  effects = free r ∷ bye_effect located rec.leg (detach_effect r rec g.effects);
})

unfoldable pub teardown_recording : (Bytes → Bool) → ℕ → Registry → Option Registry
teardown_recording located r g = teardown_found located r (g.heap r) g

abbrev pub finish_release :
    (Bytes → Bool) → ℕ → Option (Registry × Bool × Bool) → Option (Registry × Bool)
finish_release located r none = none
finish_release located r (some (g, doomed, false)) = some (g, doomed)
finish_release located r (some (g, doomed, true)) = elim (teardown_recording located r g) [
  | none ↦ none
  | some g' ↦ some (g', doomed)
]

-- The whole of `release_recording`, run with nothing between its two parts.
unfoldable pub release_recording : (Bytes → Bool) → ℕ → Registry → Option (Registry × Bool)
unfolding unpin teardown_recording
release_recording located r g = finish_release located r (unpin r g)

abbrev pub mark_gone : ℕ → Option Recording → Bytes → Registry → Option (Registry × Bool)
mark_gone r none leg_uuid g = none
mark_gone r (some rec) leg_uuid g = elim rec.leg [
  | none ↦ some (g, false)
  | some leg ↦
      if equal leg leg_uuid
      then some (record g { heap = write g.heap r (some (record rec { leg_gone = true })) }, true)
      else some (g, false)
]

abbrev pub mark_pointer : Option ℕ → Bytes → Registry → Option (Registry × Bool)
mark_pointer none leg_uuid g = some (g, false)
mark_pointer (some r) leg_uuid g = mark_gone r (g.heap r) leg_uuid g

unfoldable pub recording_leg_ended : Bytes → Bytes → Registry → Option (Registry × Bool)
unfolding lookup
recording_leg_ended [] leg_uuid g = some (g, false)
recording_leg_ended key [] g = some (g, false)
recording_leg_ended (c ∷ key) (d ∷ leg_uuid) g =
    mark_pointer (lookup (c ∷ key) g.table) (d ∷ leg_uuid) g

-- `siprec_leg_on_hangup` of siprec_invite.c, with the key that the leg's channel carries, if any.
abbrev pub leg_on_hangup : Option Bytes → Bytes → Registry → Option Registry
leg_on_hangup none leg_uuid g = some g
leg_on_hangup (some key) leg_uuid g = elim (recording_leg_ended key leg_uuid g) [
  | none ↦ none
  | some (g', marked) ↦ some g'
]

-- The locked part of `discard_pending_recording`.
abbrev pub unlink : Bytes → ℕ → Option ℕ → List (Bytes × ℕ) → List (Bytes × ℕ)
unlink key r none table = table
unlink key r (some q) table = if q == r then delete key table else table

abbrev pub doom_found : ℕ → Option Recording → Registry → Option Registry
doom_found r none g = none
doom_found r (some rec) g = some (record g {
  table = unlink rec.key r (lookup rec.key g.table) g.table;
  heap = write g.heap r (some (record rec { doomed = true }));
})

unfoldable pub doom : ℕ → Registry → Option Registry
unfolding lookup delete
doom r g = doom_found r (g.heap r) g

-- What the locked part of `start_recording_session` decides: refuse, or insert, with the stale
-- recording that was replaced.
pub data Insertion : Type 0 where
  in_use : Insertion
  inserted : Option ℕ → Insertion

abbrev pub put_recording : ℕ → Recording → List (Bytes × ℕ) → Registry → Registry
put_recording r rec table g = record g {
  table = insert rec.key r table;
  heap = write g.heap r (some rec);
}

abbrev pub replace_stale :
    ℕ → Recording → ℕ → Option Recording → Registry → Option (Registry × Insertion)
replace_stale r rec q none g = none
replace_stale r rec q (some stale) g =
    if ltb 0 stale.use_count || not stale.leg_gone
    then some (g, in_use)
    else some (put_recording r rec (delete stale.key g.table) g, inserted (some q))

abbrev pub insert_pointer : ℕ → Recording → Option ℕ → Registry → Option (Registry × Insertion)
insert_pointer r rec none g = some (put_recording r rec g.table g, inserted none)
insert_pointer r rec (some q) g = replace_stale r rec q (g.heap q) g

-- A recording as a start inserts it: pinned by the start, nothing attached yet.
abbrev pub fresh_recording : Bytes → Bytes → Recording
fresh_recording key uuid = record {
  key = key;
  uuid = uuid;
  use_count = 1;
  doomed = false;
  leg_gone = false;
  leg = none;
  forked = false;
}

-- The duplicate check and the insert, for a new recording at the pointer `r`.
unfoldable pub insert_recording : ℕ → Bytes → Bytes → Registry → Option (Registry × Insertion)
unfolding lookup delete insert
insert_recording r key uuid g = insert_pointer r (fresh_recording key uuid) (lookup key g.table) g
