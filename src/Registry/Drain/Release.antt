-- ===== src/Registry/Drain/Release.antt =====
-- The scan of the release of a call's hangup handler in recording_session.c, and what a drain of all
-- recordings leaves.
use mathlib.Core.Option.{some-injective}
use mod_siprec.Base.{
  ==_iff, ==_refl, Bool, Bool-cases, Bytes, List, Option, [], ap, arith, equal, false, inl, inr,
  length, lookup, ltb, none, refl, some, suc, sym, true, ℕ, ◌==◌, ◌∙◌, ◌∷◌, ◌≡◌,
}
use mod_siprec.Registry.{Recording, Registry, recording_key}
use mod_siprec.Registry.Stop.{stop_for_server}
use mod_siprec.Registry.Drain.{
  finish_one, live_entry, release_call_handler, release_unless, scan_live, stop_one, then_release,
}
use mod_siprec.Registry.Drain.Heads.{Inv-Owns, Owns}
use mod_siprec.Registry.Drain.Reference.{add_hit, hits, kept, retired, retired_heap}
use mod_siprec.Registry.Interleaving.{System}
use mod_siprec.Registry.Invariant.{Inv}

pub found_one :
    (uuid : Bytes) (rec : Recording) (rest : List (Bytes × Bytes))
    → live_entry uuid (some rec) (some (ltb 0 (length rest)))
      ≡ some (ltb 0 (length (add_hit (some uuid) (some rec) rest)))
found_one uuid rec rest = elim (Bool-cases (equal rec.uuid uuid)) [
  | inl same ↦ let more : ltb 0 (suc (length rest)) ≡ true = ground arith in rw (same, more) refl
  | inr other ↦ rw other refl
]

pub scan_live-hits :
    (uuid : Bytes) (heap : ℕ → Option Recording) (table : List (Bytes × ℕ))
    → Owns heap table
    → scan_live uuid heap table ≡ some (ltb 0 (length (hits (some uuid) heap table)))
unfolding scan_live hits
scan_live-hits uuid heap [] owns = refl
scan_live-hits uuid heap ((k, r) ∷ table) ((rec, live, e), owns) =
    rw (live, scan_live-hits uuid heap table owns)
      (found_one uuid rec (hits (some uuid) heap table))

-- The release of a call's handler is decided by the call's recordings in the table.
pub release-lem :
    (located : Bytes → Bool) (uuid : Bytes) (s : System)
    → Inv s
    → release_call_handler located uuid s.reg
      ≡ release_unless located uuid
          (some (ltb 0 (length (hits (some uuid) s.reg.heap s.reg.table))))
          s.reg
unfolding release_call_handler
release-lem located uuid s inv =
    ap (λ o. release_unless located uuid o s.reg)
      (scan_live-hits uuid s.reg.heap s.reg.table (Inv-Owns s inv))

pub kept-none :
    (heap : ℕ → Option Recording) (table : List (Bytes × ℕ))
    → Owns heap table
    → kept none heap table ≡ []
unfolding kept
kept-none heap [] owns = refl
kept-none heap ((k, r) ∷ table) ((rec, live, e), owns) = rw live (kept-none heap table owns)

pub length-hits-none :
    (heap : ℕ → Option Recording) (table : List (Bytes × ℕ))
    → Owns heap table
    → length (hits none heap table) ≡ length table
unfolding hits
length-hits-none heap [] owns = refl
length-hits-none heap ((k, r) ∷ table) ((rec, live, e), owns) =
    rw live (ap suc (length-hits-none heap table owns))

pub then_release-lem :
    (located : Bytes → Bool) (uuid : Bytes) (g g' : Registry) (found : Bool)
    → release_call_handler located uuid g ≡ some g'
    → then_release located uuid (some (g, found)) ≡ some (g', found)
then_release-lem located uuid g g' found e = rw (then_release, e) refl

pub quiet_finish :
    (located : Bytes → Bool) (uuid : Bytes) (o : Option (Registry × Bool))
    → finish_one located false uuid o ≡ o
quiet_finish located uuid none = refl
quiet_finish located uuid (some (g, found)) = refl

-- A stop under a server's name, up to the release, is one stop of a drain.
pub stop_for_server-one :
    (located : Bytes → Bool) (server_name uuid uuid' : Bytes) (g : Registry)
    → stop_for_server located server_name uuid g
      ≡ stop_one located false (recording_key server_name uuid) uuid' g
unfolding stop_for_server stop_one
stop_for_server-one located server_name uuid uuid' g = sym (quiet_finish located uuid' _)

pub length-zero : (xs : List (Bytes × Bytes)) → ltb 0 (length xs) ≡ false → xs ≡ []
length-zero [] e = refl
length-zero (x ∷ xs) e = absurd (ground arith)

pub entry_tail :
    (j k : Bytes) (q r : ℕ) (table : List (Bytes × ℕ))
    → (r == q) ≡ false
    → lookup k ((j, q) ∷ table) ≡ some r
    → lookup k table ≡ some r
unfolding lookup
entry_tail j k q r table apart at_r = elim (Bool-cases (equal j k)) [
  | inl same ↦
      let at_q : some q ≡ some r = rw same at at_r in
      let e = ==_refl r in let apart' = rw (some-injective q r at_q) at apart in absurd (cc)
  | inr other ↦ rw other at at_r
]

pub retired_heap-entry :
    (heap : ℕ → Option Recording) (table : List (Bytes × ℕ)) (k : Bytes) (r : ℕ) (rec : Recording)
    → Owns heap table
    → lookup k table ≡ some r
    → heap r ≡ some rec
    → retired_heap none heap table r ≡ retired rec
unfolding retired_heap lookup
retired_heap-entry heap [] k r rec owns at_r live = cc
retired_heap-entry heap ((j, q) ∷ table) k r rec ((other, there, e), owns) at_r live =
    elim (Bool-cases (r == q)) [
      | inl same ↦
          let there' : heap r ≡ some other = rw ((==_iff r q).0 same) there in
          rw (there, same) (ap retired (some-injective other rec (sym there' ∙ live)))
      | inr apart ↦
          rw (there, apart)
            (retired_heap-entry heap table k r rec owns (entry_tail j k q r table apart at_r) live)
    ]
