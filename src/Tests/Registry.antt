-- ===== src/Tests/Registry.antt =====
-- A recording that is started, released, paused in part and stopped.
use mod_siprec.Base.{
  Bool, Bytes, [], arith, codes, equal, false, if◌then◌else◌, insert, lookup, none, refl, some,
  true, ℕ, ◌<◌, ◌==◌, ◌∷◌, ◌≡◌, ◌≢◌, ◌≤◌, ◌⊎◌,
}
use mod_siprec.Registry.{
  Recording, Registry, claim_recording, free, fresh_recording, insert_recording, put_recording,
  release_recording, teardown_recording, unpin,
}
use mod_siprec.Registry.Interleaving.{
  Reach, System, bump, claims_it, drop_one, empty_system, go, releases, starts, stay, tears_down,
}
use mod_siprec.Registry.Progress.Work.{Freed, Out-Freed, Ready, works}
use mod_siprec.Registry.Safety.{claimed-alone, live-retirable, operations-no_fault}
use mod_siprec.Registry.Releasing.{Released, release_recording-Released}

abbrev pub everywhere : Bytes → Bool
everywhere leg = true

abbrev pub key : Bytes
key = codes "srs-call"

abbrev pub first : Recording
first = fresh_recording key (codes "call")

-- After a start of the recording at pointer 1.
abbrev pub started : System
started = record empty_system {
  reg = put_recording 1 first [] empty_system.reg;
  pins = bump empty_system.pins 1;
}

pub start_path : Reach everywhere empty_system started
unfolding insert_recording
start_path = go stay (starts 1 key (codes "call") refl refl)

-- A stop dooms it while it is pinned.
abbrev stopped : System
stopped = record started {
  reg = record (started.reg) {
    table = [];
    heap = λ q. if q == 1 then some (record first { doomed = true }) else started.reg.heap q;
  };
}

stop_path : Reach everywhere empty_system stopped
unfolding claim_recording insert equal
stop_path = go start_path (claims_it key refl)

-- Or it is released first, and the stop owns it.
abbrev idle : System
idle = record started {
  reg = record (started.reg) {
    heap = λ q. if q == 1 then some (record first { use_count = 0 }) else started.reg.heap q;
  };
  pins = drop_one started.pins 1;
}

idle_path : Reach everywhere empty_system idle
unfolding unpin
idle_path = go start_path (releases 1 (omega arith) refl)

abbrev taken : System
taken = record idle { reg = record (idle.reg) { table = [] }; claims = bump idle.claims 1 }

taken_path : Reach everywhere empty_system taken
unfolding claim_recording insert equal
taken_path = go idle_path (claims_it key refl)

operations-no_fault_example : claim_recording key started.reg ≢ none
operations-no_fault_example = (operations-no_fault start_path).0 key

claimed-alone_example :
    (taken.claims 1 ≡ 1) × (taken.pins 1 ≡ 0) × ((k : Bytes) → lookup k taken.reg.table ≢ some 1)
claimed-alone_example = claimed-alone taken_path 1 (omega arith)

live-retirable_example :
    (1 ≡ started.pins 1)
    × (((lookup key started.reg.table ≡ some 1) × (false ≡ false))
        ⊎ (((false ≡ true) × (0 < started.pins 1)) ⊎ (started.claims 1 ≡ 1)))
live-retirable_example = live-retirable start_path 1 first refl

release_recording-Released_example :
    (result : Registry × Bool) × (release_recording everywhere 1 stopped.reg ≡ some result)
    × (result.0.table ≡ stopped.reg.table)
    × ((q : ℕ) → q ≢ 1 → result.0.heap q ≡ stopped.reg.heap q)
    × Released everywhere 1 1 (record first { doomed = true }) stopped.reg result
release_recording-Released_example =
    release_recording-Released stop_path 1 (record first { doomed = true }) refl (omega arith)

-- The last pin goes after the stop, and then the teardown runs.
abbrev handed_over : System
handed_over = record stopped {
  reg = record (stopped.reg) {
    heap = λ q.
        if q == 1 then some (record first { doomed = true; use_count = 0 }) else stopped.reg.heap q;
  };
  pins = drop_one stopped.pins 1;
  claims = bump stopped.claims 1;
}

abbrev torn_down : System
torn_down = record handed_over {
  reg = record (handed_over.reg) {
    heap = λ q. if q == 1 then none else handed_over.reg.heap q;
    effects = free 1 ∷ [];
  };
  claims = drop_one handed_over.claims 1;
}

abbrev ending : Reach everywhere stopped handed_over
unfolding unpin
ending = go stay (releases 1 (omega arith) refl)

ended : Reach everywhere stopped torn_down
unfolding teardown_recording
ended = go ending (tears_down 1 (omega arith) refl)

Out-Freed_example :
    Freed 1 ended ⊎ ((works 1 ended ≤ stopped.pins 1) × Ready everywhere 1 torn_down)
unfolding lookup
Out-Freed_example = Out-Freed stop_path 1 (record first { doomed = true }, refl, refl) ended
