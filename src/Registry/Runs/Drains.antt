-- ===== src/Registry/Runs/Drains.antt =====
-- The drains of recording_session.c and the release of a handler as runs of steps.
use mod_siprec.Base.{
  Bool, Bool-cases, Bytes, List, Option, [], false, if_elim, if◌then◌else◌, inl, inr, length, ltb,
  none, refl, some, suc, true, zero, ℕ, ◌&&◌, ◌+◌, ◌∷◌, ◌≡◌,
}
use mod_siprec.Registry.{Registry, claim_recording, unbind}
use mod_siprec.Registry.Drain.{
  Drained, after_batch, after_one, after_scan, drain_batch, drain_passes, drained, faulted,
  finish_one, out_of_fuel, release_call_handler, release_unless, scan, scan_live, stop_batch,
  stop_one, teardown_all_recordings, unbind_call_handler,
}
use mod_siprec.Registry.Interleaving.{System, go, handles, stay}
use mod_siprec.Registry.Runs.{Runs, finish_stop-Runs, join}
use mod_siprec.Registry.Stop.{finish_stop}

module _ (located : Bytes → Bool) where
  -- An operation that answers from the state `s` has run there.
  abbrev pub Ran : {B : Type 0} → System → Option (Registry × B) → Type 0
  Ran s none = Unit
  Ran s (some (g, b)) = Runs located s g

  abbrev pub RanTo : System → Option Registry → Type 0
  RanTo s none = Unit
  RanTo s (some g) = Runs located s g

  module _ (s : System) where
    unbind_call_handler-Runs :
        (uuid : Bytes) → Runs located s (unbind_call_handler located uuid s.reg)
    unbind_call_handler-Runs [] = stay
    unbind_call_handler-Runs (c ∷ uuid) = elim (Bool-cases (located (c ∷ uuid))) [
      | inl there ↦ rw there (go stay (handles (unbind (c ∷ uuid))))
      | inr gone ↦ rw gone stay
    ]

    release_unless-Runs :
        (uuid : Bytes) (o : Option Bool) → RanTo s (release_unless located uuid o s.reg)
    release_unless-Runs uuid none = tt
    release_unless-Runs uuid (some true) = stay
    release_unless-Runs uuid (some false) = unbind_call_handler-Runs uuid

    pub release_call_handler-Runs :
        (uuid : Bytes) → RanTo s (release_call_handler located uuid s.reg)
    unfolding release_call_handler
    release_call_handler-Runs uuid =
        release_unless-Runs uuid (scan_live uuid s.reg.heap s.reg.table)

    pub finish_stop-Ran :
        (key : Bytes) (o : Option (Registry × Bool))
        → finish_stop located (claim_recording key s.reg) ≡ o
        → Ran s o
    finish_stop-Ran key none e = tt
    finish_stop-Ran key (some (g, d)) e = finish_stop-Runs located s key g d e

  finish_one-Ran :
      (s : System) (unbinds : Bool) (uuid : Bytes) (o : Option (Registry × Bool))
      → Ran s o
      → Ran s (finish_one located unbinds uuid o)
  finish_one-Ran s unbinds uuid none ran = tt
  finish_one-Ran s unbinds uuid (some (g, found)) ran =
      if_elim (λ x. Runs located s x) (unbinds && found)
        (λ _. join located ran (unbind_call_handler-Runs (record s { reg = g }) uuid)) (λ _. ran)

  stop_one-Ran :
      (s : System) (unbinds : Bool) (key uuid : Bytes)
      → Ran s (stop_one located unbinds key uuid s.reg)
  unfolding stop_one
  stop_one-Ran s unbinds key uuid =
      finish_one-Ran s unbinds uuid (finish_stop located (claim_recording key s.reg))
        (finish_stop-Ran s key _ refl)

  then_Ran :
      {B : Type 0} {s : System} {g : Registry} (o : Option (Registry × B))
      → Runs located s g
      → Ran (record s { reg = g }) o
      → Ran s o
  then_Ran none first ran = tt
  then_Ran (some (g', b)) first ran = join located first ran

  stop_batch-Ran :
      (unbinds : Bool) (batch : List (Bytes × Bytes)) (s : System) (stopped : ℕ)
      → Ran s (stop_batch located unbinds batch s.reg stopped)
  unfolding stop_batch
  stop_batch-Ran unbinds [] s stopped = stay
  stop_batch-Ran unbinds ((key, uuid) ∷ batch) s stopped =
      after (stop_one located unbinds key uuid s.reg) (stop_one-Ran s unbinds key uuid)
        (λ g n. stop_batch-Ran unbinds batch (record s { reg = g }) n)
    where
      after :
          (o : Option (Registry × Bool))
          → Ran s o
          → ((g : Registry) (n : ℕ)
              → Ran (record s { reg = g }) (stop_batch located unbinds batch g n))
          → Ran s (after_one stopped o (stop_batch located unbinds batch))
      after none ran rest = tt
      after (some (g, found)) ran rest =
          then_Ran (stop_batch located unbinds batch g (if found then stopped + 1 else stopped)) ran
            (rest g (if found then stopped + 1 else stopped))

  abbrev pub DrainRan : System → Drained → Type 0
  DrainRan s (drained g stopped) = Runs located s g
  DrainRan s other = Unit

  then_DrainRan :
      {s : System} {g : Registry} (d : Drained)
      → Runs located s g
      → DrainRan (record s { reg = g }) d
      → DrainRan s d
  then_DrainRan (drained g' n) first ran = join located first ran
  then_DrainRan faulted first ran = tt
  then_DrainRan out_of_fuel first ran = tt

  batch-Ran :
      (s : System) (short : Bool) (o : Option (Registry × ℕ)) (again : Registry → ℕ → Drained)
      → Ran s o
      → ((g : Registry) (n : ℕ) → DrainRan (record s { reg = g }) (again g n))
      → DrainRan s (after_batch short o again)
  batch-Ran s short none again ran rest = tt
  batch-Ran s true (some (g, n)) again ran rest = ran
  batch-Ran s false (some (g, n)) again ran rest = then_DrainRan (again g n) ran (rest g n)

  scan-Ran :
      (s : System) (unbinds : Bool) (o : Option (List (Bytes × Bytes))) (stopped : ℕ)
      (again : Registry → ℕ → Drained)
      → ((g : Registry) (n : ℕ) → DrainRan (record s { reg = g }) (again g n))
      → DrainRan s (after_scan located unbinds o s.reg stopped again)
  scan-Ran s unbinds none stopped again rest = tt
  scan-Ran s unbinds (some batch) stopped again rest =
      batch-Ran s (ltb (length batch) drain_batch) (stop_batch located unbinds batch s.reg stopped)
        again (stop_batch-Ran unbinds batch s stopped) rest

  pub drain_passes-Ran :
      (uuid : Option Bytes) (unbinds : Bool) (fuel : ℕ) (s : System) (stopped : ℕ)
      → DrainRan s (drain_passes located uuid unbinds fuel s.reg stopped)
  unfolding drain_passes
  drain_passes-Ran uuid unbinds zero s stopped = tt
  drain_passes-Ran uuid unbinds (suc fuel) s stopped =
      scan-Ran s unbinds (scan uuid s.reg.heap s.reg.table drain_batch) stopped
        (drain_passes located uuid unbinds fuel)
        (λ g n. drain_passes-Ran uuid unbinds fuel (record s { reg = g }) n)

  module _ (s : System) where
    pub teardown_all_recordings-Ran :
        (fuel : ℕ) → DrainRan s (teardown_all_recordings located fuel s.reg)
    unfolding teardown_all_recordings
    teardown_all_recordings-Ran fuel = drain_passes-Ran none true fuel s 0
