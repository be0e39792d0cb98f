-- ===== src/Start/Inserts.antt =====
-- The outcomes of the insert of a start of recording_session.c, and the teardown of what it replaces.
use mod_siprec.Base.{
  ==_iff, Bool, Bool-cases, Bytes, Option, arith, delete, false, inl, inr, lookup, ltb, none, not,
  refl, some, true, ℕ, ◌<◌, ◌==◌, ◌||◌, ◌∷◌, ◌≡◌, ◌⊎◌,
}
use mod_siprec.Registry.{
  Recording, Registry, bye_effect, detach_effect, free, fresh_recording, in_use, insert_recording,
  inserted, put_recording, teardown_recording, write,
}

-- The three outcomes of the insert, and the teardown of a live recording.
module _ (r : ℕ) (key uuid : Bytes) (g : Registry) where
  pub insert-new :
      lookup key g.table ≡ none
      → insert_recording r key uuid g
        ≡ some (put_recording r (fresh_recording key uuid) g.table g, inserted none)
  unfolding insert_recording
  insert-new missing = rw missing refl

  pub insert-in_use :
      (q : ℕ) (old : Recording)
      → lookup key g.table ≡ some q
      → g.heap q ≡ some old
      → (ltb 0 old.use_count || not old.leg_gone) ≡ true
      → insert_recording r key uuid g ≡ some (g, in_use)
  unfolding insert_recording
  insert-in_use q old at_q live stays = rw (at_q, live, stays) refl

  pub insert-stale :
      (q : ℕ) (old : Recording)
      → lookup key g.table ≡ some q
      → g.heap q ≡ some old
      → (ltb 0 old.use_count || not old.leg_gone) ≡ false
      → insert_recording r key uuid g
        ≡ some (
          put_recording r (fresh_recording key uuid) (delete old.key g.table) g,
          inserted (some q),
        )
  unfolding insert_recording
  insert-stale q old at_q live goes = rw (at_q, live, goes) refl

pub teardown-live :
    (located : Bytes → Bool) (q : ℕ) (g : Registry) (old : Recording)
    → g.heap q ≡ some old
    → teardown_recording located q g
      ≡ some (record g {
        heap = write g.heap q none;
        effects = free q ∷ bye_effect located old.leg (detach_effect q old g.effects);
      })
unfolding teardown_recording
teardown-live located q g old live = rw live refl

pub apart-of_live :
    (heap : ℕ → Option Recording) (q r : ℕ) (old : Recording)
    → heap r ≡ none
    → heap q ≡ some old
    → (q == r) ≡ false
apart-of_live heap q r old vacant live = elim (Bool-cases (q == r)) [
  | inl same ↦ let e : heap r ≡ some old = rw (← (==_iff q r).0 same) live in absurd (cc)
  | inr ne ↦ ne
]

pub flip_apart : (q r : ℕ) → (q == r) ≡ false → (r == q) ≡ false
flip_apart q r e = ground arith

-- What keeps a recording from being replaced.
pub busy_of : (n : ℕ) (gone : Bool) → (ltb 0 n || not gone) ≡ true → (0 < n) ⊎ (gone ≡ false)
busy_of n true e = inl (ground arith)
busy_of n false e = inr refl
