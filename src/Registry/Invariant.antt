-- ===== src/Registry/Invariant.antt =====
-- Who may still touch a recording: at any time it is in the table, or doomed and pinned, or claimed
-- by exactly one thread; its use count is the number of pins held; and nothing holds a freed one.
pub mod Lives
pub mod Shapes
pub mod Changes
pub mod Steps
use mod_siprec.Base.{
  Bool, Bytes, Distinct, List, Option, arith, delete, equal_iff, false, insert, lookup,
  lookup-delete, lookup-insert, none, refl, some, true, ℕ, ◌<◌, ◌==◌, ◌≡◌,
}
use mod_siprec.Registry.{Recording}
use mod_siprec.Registry.Interleaving.{System, empty_system}

abbrev pub points : Option ℕ → ℕ → Bool
points none r = false
points (some q) r = q == r

-- The three lives of a recording at pointer `r`, with `p` pins and `c` claims on it.
pub data Life (entry : Bool) (doomed : Bool) (p c : ℕ) : Type 0 where
  listed : entry ≡ true → doomed ≡ false → c ≡ 0 → Life entry doomed p c
  doomed_pinned : entry ≡ false → doomed ≡ true → 0 < p → c ≡ 0 → Life entry doomed p c
  owned : entry ≡ false → p ≡ 0 → c ≡ 1 → Life entry doomed p c

abbrev pub StatusOf : List (Bytes × ℕ) → ℕ → Option Recording → ℕ → ℕ → Type 0
StatusOf table r none p c = (p ≡ 0) × (c ≡ 0)
StatusOf table r (some rec) p c =
    (rec.use_count ≡ p) × Life (points (lookup rec.key table) r) rec.doomed p c

pub record Inv (s : System) : Type 0 where
  pub keyed :
      (k : Bytes) (r : ℕ)
      → lookup k s.reg.table ≡ some r
      → (rec : Recording) × (s.reg.heap r ≡ some rec) × (rec.key ≡ k)
  pub distinct : Distinct s.reg.table
  pub status : (r : ℕ) → StatusOf s.reg.table r (s.reg.heap r) (s.pins r) (s.claims r)

pub empty-Inv : Inv empty_system
empty-Inv = record {
  keyed = λ k r e. unfold lookup in absurd (cc);
  distinct = tt;
  status = λ r. (refl, refl);
}

-- Taking another recording's entry out of the table changes nothing for the rest.
pub delete-StatusOf :
    (table : List (Bytes × ℕ)) (key : Bytes) (r q : ℕ) (o : Option Recording) (p c : ℕ)
    → lookup key table ≡ some r
    → (q == r) ≡ false
    → StatusOf table q o p c
    → StatusOf (delete key table) q o p c
delete-StatusOf table key r q none p c at_r ne h = h
delete-StatusOf table key r q (some rec) p c at_r ne (count, life) = (count, rw same life)
  where
    same : points (lookup rec.key (delete key table)) q ≡ points (lookup rec.key table) q
    same = ground (arith, lookup-delete key rec.key table, equal_iff key rec.key)

-- So does inserting at a key that has no entry.
pub insert-StatusOf :
    (table : List (Bytes × ℕ)) (key : Bytes) (r q : ℕ) (o : Option Recording) (p c : ℕ)
    → lookup key table ≡ none
    → (q == r) ≡ false
    → StatusOf table q o p c
    → StatusOf (insert key r table) q o p c
insert-StatusOf table key r q none p c vacant ne h = h
insert-StatusOf table key r q (some rec) p c vacant ne (count, life) = (count, rw same life)
  where
    same : points (lookup rec.key (insert key r table)) q ≡ points (lookup rec.key table) q
    same = ground (arith, lookup-insert key rec.key r table, equal_iff key rec.key)
