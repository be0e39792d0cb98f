-- ===== src/Registry/Interleaving.antt =====
-- The threads of recording_session.c as interleavings of the parts that run under
-- `recordings_mutex`, of teardowns, and of what a thread does to a recording that it has pinned.
use mod_siprec.Base.{
  Bool, Bytes, Option, [], ◌∷◌, false, if◌then◌else◌, none, some, true, ℕ, ◌+◌, ◌-◌, ◌<◌, ◌==◌, ◌≡◌,
}
use mod_siprec.Registry.{
  Effect, Recording, Registry, acquire_recording, claim_recording, doom, insert_recording, inserted,
  recording_leg_ended, teardown_recording, unpin, write,
}

-- The registry, and for each pointer the pins that threads hold and the claims to tear it down.
pub record System : Type 0 where
  pub reg : Registry
  pub pins : ℕ → ℕ
  pub claims : ℕ → ℕ

abbrev pub bump : (ℕ → ℕ) → ℕ → ℕ → ℕ
bump f r q = if q == r then f q + 1 else f q

abbrev pub drop_one : (ℕ → ℕ) → ℕ → ℕ → ℕ
drop_one f r q = if q == r then f q - 1 else f q

abbrev pub bump_if : (ℕ → ℕ) → Option ℕ → ℕ → ℕ
bump_if f none = f
bump_if f (some r) = bump f r

abbrev pub bump_when : Bool → (ℕ → ℕ) → ℕ → ℕ → ℕ
bump_when false f r = f
bump_when true f r = bump f r

-- A recording with new contexts, for the start and the re-INVITE that hold a pin on it.
abbrev pub equip : Recording → Option Bytes → Bool → Recording
equip rec leg forked = record rec { leg = leg; forked = forked }

-- One step of any thread. A claim by a stop, an acquire, the locked part of a release, a teardown
-- by the owner, the end of a leg, a change of a pinned recording, an insert by a start, the dooming
-- of a start that failed, and a call that gets or loses the hangup handler.
pub data Step (located : Bytes → Bool) (s : System) : System → Type 0 where
  claims_it :
      (key : Bytes) {g : Registry} {owned : Option ℕ} {found : Bool}
      → claim_recording key s.reg ≡ some (g, owned, found)
      → Step located s (record s { reg = g; claims = bump_if s.claims owned })
  acquires :
      (key : Bytes) {g : Registry} {pinned : Option ℕ}
      → acquire_recording key s.reg ≡ some (g, pinned)
      → Step located s (record s { reg = g; pins = bump_if s.pins pinned })
  releases :
      (r : ℕ) {g : Registry} {doomed last : Bool}
      → 0 < s.pins r
      → unpin r s.reg ≡ some (g, doomed, last)
      → Step located s
          (record s { reg = g; pins = drop_one s.pins r; claims = bump_when last s.claims r })
  tears_down :
      (r : ℕ) {g : Registry}
      → 0 < s.claims r
      → teardown_recording located r s.reg ≡ some g
      → Step located s (record s { reg = g; claims = drop_one s.claims r })
  leg_ends :
      (key leg : Bytes) {g : Registry} {marked : Bool}
      → recording_leg_ended key leg s.reg ≡ some (g, marked)
      → Step located s (record s { reg = g })
  equips :
      (r : ℕ) {rec : Recording} (leg : Option Bytes) (forked : Bool)
      → 0 < s.pins r
      → s.reg.heap r ≡ some rec
      → Step located s (record s {
        reg = record (s.reg) { heap = write s.reg.heap r (some (equip rec leg forked)) };
      })
  starts :
      (r : ℕ) (key uuid : Bytes) {g : Registry} {stale : Option ℕ}
      → s.reg.heap r ≡ none
      → insert_recording r key uuid s.reg ≡ some (g, inserted stale)
      → Step located s (record s { reg = g; pins = bump s.pins r; claims = bump_if s.claims stale })
  dooms :
      (r : ℕ) {g : Registry}
      → 0 < s.pins r
      → doom r s.reg ≡ some g
      → Step located s (record s { reg = g })
  handles :
      (change : Effect)
      → Step located s (record s { reg = record (s.reg) { effects = change ∷ s.reg.effects } })

pub data Reach (located : Bytes → Bool) (s : System) : System → Type 0 where
  stay : Reach located s s
  go : {t u : System} → Reach located s t → Step located t u → Reach located s u

-- The module as it is loaded: nothing recorded, nothing pinned, nothing claimed.
abbrev pub empty_system : System
empty_system = record {
  reg = record { table = []; heap = λ r. none; effects = [] };
  pins = λ r. 0;
  claims = λ r. 0;
}
