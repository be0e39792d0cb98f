-- ===== src/Registry/Drain/Heads.antt =====
-- The first recording that a drain of recording_session.c is for, and what its stop leaves.
use mathlib.Core.Option.{some-injective}
use mod_siprec.Base.{
  ==_iff, Bool, Bool-cases, Bytes, Distinct, List, Option, [], ap, arith, delete, delete-absent,
  equal, equal_iff, equal_refl, false, if◌then◌else◌, inl, inr, lookup, none, refl, some, sym, true,
  ℕ, ◌==◌, ◌∙◌, ◌∷◌, ◌≡◌,
}
use mod_siprec.Registry.{Effect, Recording, write}
use mod_siprec.Registry.Drain.{matches}
use mod_siprec.Registry.Drain.Reference.{
  hits, kept, retire_at, retire_effects, retired, retired_heap, retired_log,
}
use mod_siprec.Registry.Interleaving.{System}
use mod_siprec.Registry.Invariant.{Inv}

-- Each entry leads to a recording that is there, under the recording's own key.
abbrev pub Owns : (ℕ → Option Recording) → List (Bytes × ℕ) → Type 0
Owns heap [] = Unit
Owns heap ((k, r) ∷ table) =
    ((rec : Recording) × (heap r ≡ some rec) × (rec.key ≡ k)) × Owns heap table

Owns-of_keyed :
    (heap : ℕ → Option Recording) (table : List (Bytes × ℕ))
    → Distinct table
    → ((k : Bytes) (r : ℕ)
        → lookup k table ≡ some r
        → (rec : Recording) × (heap r ≡ some rec) × (rec.key ≡ k))
    → Owns heap table
unfolding lookup
Owns-of_keyed heap [] d h = tt
Owns-of_keyed heap ((k, r) ∷ table) (free_key, d) h = (
  h k r (rw (equal_refl k) refl),
  Owns-of_keyed heap table d (λ j q at_q. h j q (later j q at_q)),
)
  where
    later : (j : Bytes) (q : ℕ) → lookup j table ≡ some q → lookup j ((k, r) ∷ table) ≡ some q
    later j q at_q = ground (arith, equal_iff k j)

pub Inv-Owns : (s : System) → Inv s → Owns s.reg.heap s.reg.table
Inv-Owns s inv = Owns-of_keyed s.reg.heap s.reg.table inv.distinct inv.keyed

-- Recordings under different keys are at different pointers.
apart-of_keys :
    (heap : ℕ → Option Recording) (p r : ℕ) (other rec : Recording)
    → heap p ≡ some other
    → heap r ≡ some rec
    → equal other.key rec.key ≡ false
    → (p == r) ≡ false
apart-of_keys heap p r other rec there live ne = elim (Bool-cases (p == r)) [
  | inl same ↦
      let there' : heap r ≡ some other = rw (← (==_iff p r).0 same) there in
      let e : other ≡ rec = some-injective other rec (sym there' ∙ live) in
      let e' = (equal_iff other.key rec.key).1 (ap (λ x. x.key) e) in absurd (cc)
  | inr ne ↦ ne
]

missing-differs :
    (k j : Bytes) (r : ℕ) (table : List (Bytes × ℕ))
    → lookup k table ≡ none
    → lookup j table ≡ some r
    → equal k j ≡ false
missing-differs k j r table absent at_r = ground (arith, equal_iff k j)

retire_at-off :
    (uuid : Option Bytes) (p r q : ℕ) (other : Recording) (v a b : Option Recording)
    → (p == r) ≡ false
    → a ≡ (if q == r then v else b)
    → retire_at uuid p (some other) q a ≡ (if q == r then v else retire_at uuid p (some other) q b)
retire_at-off uuid p r q other v a b apart e = ground arith

module _ (located : Bytes → Bool) (uuid : Option Bytes) (unbinds : Bool) where
  -- A table that has no entry for a recording does not depend on it.
  record Off (heap : ℕ → Option Recording) (r : ℕ) (v : Option Recording) (table : List (Bytes × ℕ))
      : Type 0 where
    same_hits : hits uuid (write heap r v) table ≡ hits uuid heap table
    same_kept : kept uuid (write heap r v) table ≡ kept uuid heap table
    same_heap :
        (q : ℕ)
        → retired_heap uuid (write heap r v) table q
          ≡ (if q == r then v else retired_heap uuid heap table q)
    same_log :
        (log : List Effect)
        → retired_log located uuid unbinds (write heap r v) table log
          ≡ retired_log located uuid unbinds heap table log

  absent-Off :
      (heap : ℕ → Option Recording) (r : ℕ) (rec : Recording) (v : Option Recording)
      (table : List (Bytes × ℕ))
      → heap r ≡ some rec
      → lookup rec.key table ≡ none
      → Owns heap table
      → Off heap r v table
  unfolding hits kept retired_heap retired_log lookup
  absent-Off heap r rec v [] live absent owns = record {
    same_hits = refl;
    same_kept = refl;
    same_heap = λ q. refl;
    same_log = λ log. refl;
  }
  absent-Off heap r rec v ((k, p) ∷ table) live absent ((other, there, at_k), owns) =
      elim (Bool-cases (equal k rec.key)) [
        | inl same ↦ let e = rw same at absent in absurd (cc)
        | inr ne ↦
            let rest = absent-Off heap r rec v table live (rw ne at absent) owns in
            let apart = apart-of_keys heap p r other rec there live (rw at_k ne) in
            record {
              same_hits = rw (apart, there, rest.same_hits) refl;
              same_kept = rw (apart, there, rest.same_kept) refl;
              same_heap = λ q.
                  rw (apart, there) (retire_at-off uuid p r q other v _ _ apart (rest.same_heap q));
              same_log = λ log. rw (apart, there, rest.same_log) refl;
            }
      ]

  -- What the stop of the recording at `r` leaves for the drain to do.
  pub record After (heap : ℕ → Option Recording) (table : List (Bytes × ℕ)) (r : ℕ)
      (rec : Recording) (rest : List (Bytes × Bytes)) : Type 0 where
    pub next_hits : hits uuid (write heap r (retired rec)) (delete rec.key table) ≡ rest
    pub next_kept :
        kept uuid (write heap r (retired rec)) (delete rec.key table) ≡ kept uuid heap table
    pub next_heap :
        (q : ℕ)
        → retired_heap uuid (write heap r (retired rec)) (delete rec.key table) q
          ≡ retired_heap uuid heap table q
    pub next_log :
        (log : List Effect)
        → retired_log located uuid unbinds
            (write heap r (retired rec))
            (delete rec.key table)
            (retire_effects located unbinds r rec log)
          ≡ retired_log located uuid unbinds heap table log

  -- Nothing is to be stopped, or a first recording is.
  pub data Head (heap : ℕ → Option Recording) (table : List (Bytes × ℕ)) : Type 0 where
    no_hit :
        hits uuid heap table ≡ []
        → kept uuid heap table ≡ table
        → ((q : ℕ) → retired_heap uuid heap table q ≡ heap q)
        → ((log : List Effect) → retired_log located uuid unbinds heap table log ≡ log)
        → Head heap table
    first :
        (r : ℕ) (rec : Recording) (rest : List (Bytes × Bytes))
        → lookup rec.key table ≡ some r
        → heap r ≡ some rec
        → hits uuid heap table ≡ (rec.key, rec.uuid) ∷ rest
        → After heap table r rec rest
        → Head heap table

  -- A first recording at the first entry.
  head-hit :
      (heap : ℕ → Option Recording) (r : ℕ) (rec : Recording) (table : List (Bytes × ℕ))
      → heap r ≡ some rec
      → lookup rec.key table ≡ none
      → Owns heap table
      → matches uuid rec ≡ true
      → Head heap ((rec.key, r) ∷ table)
  unfolding hits kept retired_heap retired_log lookup delete
  head-hit heap r rec table live absent owns hit =
      let gone = delete-absent rec.key table absent in
      let off = absent-Off heap r rec (retired rec) table live absent owns in
      first r rec (hits uuid heap table) (rw (equal_refl rec.key) refl) live (rw (live, hit) refl)
        (record {
          next_hits = rw (equal_refl rec.key, gone) off.same_hits;
          next_kept = rw (equal_refl rec.key, gone, live, hit) off.same_kept;
          next_heap = λ q. rw (equal_refl rec.key, gone, live, hit) (off.same_heap q);
          next_log = λ log. rw (equal_refl rec.key, gone, live, hit) (off.same_log _);
        })

  skip_log :
      (heap : ℕ → Option Recording) (k : Bytes) (p : ℕ) (other : Recording)
      (table : List (Bytes × ℕ)) (log : List Effect)
      → heap p ≡ some other
      → matches uuid other ≡ false
      → retired_log located uuid unbinds heap ((k, p) ∷ table) log
        ≡ retired_log located uuid unbinds heap table log
  unfolding retired_log
  skip_log heap k p other table log there miss = rw (there, miss) refl

  -- An entry that stays, before a first recording.
  skip-After :
      (heap : ℕ → Option Recording) (p r : ℕ) (other rec : Recording) (table : List (Bytes × ℕ))
      (rest : List (Bytes × Bytes))
      → heap p ≡ some other
      → matches uuid other ≡ false
      → heap r ≡ some rec
      → equal other.key rec.key ≡ false
      → After heap table r rec rest
      → After heap ((other.key, p) ∷ table) r rec rest
  unfolding hits kept retired_heap retired_log lookup delete
  skip-After heap p r other rec table rest there miss live ne after =
      let apart = apart-of_keys heap p r other rec there live ne in
      record {
        next_hits = rw (ne, apart, there, miss) after.next_hits;
        next_kept = rw (ne, apart, there, miss) (ap (◌∷◌ (other.key, p)) after.next_kept);
        next_heap = λ q. rw (ne, apart, there, miss) (after.next_heap q);
        next_log = λ log. rw ne (
            skip_log (write heap r (retired rec)) other.key p other (delete rec.key table)
              (retire_effects located unbinds r rec log) (rw apart there) miss
            ∙ (after.next_log log ∙ sym (skip_log heap other.key p other table log there miss)));
      }

  skip-Head :
      (heap : ℕ → Option Recording) (p : ℕ) (other : Recording) (table : List (Bytes × ℕ))
      → heap p ≡ some other
      → matches uuid other ≡ false
      → lookup other.key table ≡ none
      → Head heap table
      → Head heap ((other.key, p) ∷ table)
  unfolding hits kept retired_heap retired_log lookup delete
  skip-Head heap p other table there miss absent (no_hit a b c d) =
      no_hit (rw (there, miss) a) (rw (there, miss) (ap (◌∷◌ (other.key, p)) b))
        (λ q. rw (there, miss) (c q)) (λ log. rw (there, miss) (d log))
  skip-Head heap p other table there miss absent (first r rec rest at_r live a after) =
      let ne = missing-differs other.key rec.key r table absent at_r in
      first r rec rest (rw ne at_r) live (rw (there, miss) a)
        (skip-After heap p r other rec table rest there miss live ne after)

  pub head-lem :
      (heap : ℕ → Option Recording) (table : List (Bytes × ℕ))
      → Distinct table
      → Owns heap table
      → Head heap table
  unfolding hits kept retired_heap retired_log
  head-lem heap [] d owns = no_hit refl refl (λ q. refl) (λ log. refl)
  head-lem heap ((k, r) ∷ table) (absent, d) ((rec, live, at_k), owns) =
      let absent' : lookup rec.key table ≡ none = rw at_k absent in
      rw (← at_k) (elim (Bool-cases (matches uuid rec)) [
        | inl hit ↦ head-hit heap r rec table live absent' owns hit
        | inr miss ↦ skip-Head heap r rec table live miss absent' (head-lem heap table d owns)
      ])
