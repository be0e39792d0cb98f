-- ===== src/Base/Table.antt =====
-- Hash tables.
use mathlib.Core.Path.{◌≡◌, refl, ap, ◌∙◌}
use mathlib.Core.Logic.{inl, inr}
use mathlib.Core.Bool.{Bool, true, false}
use mathlib.Core.List.{List, [], ◌∷◌}
use mathlib.Core.Option.{Option, none, some}
use native.Mathlib.Omega.{arith}
use mod_siprec.Base.Tests.{Bool-cases, if_elim, if◌then◌else◌}
use mod_siprec.Base.Text.{Bytes, equal, equal_iff, equal_refl}

-- A hash table from C strings, as an association list: `switch_core_hash_find`,
-- `switch_core_hash_delete` and `switch_core_hash_insert`, which replaces.
module _ {ℓ} {V : Type ℓ} where
  unfoldable pub lookup : Bytes → List (Bytes × V) → Option V
  lookup k [] = none
  lookup k ((j, v) ∷ m) = if equal j k then some v else lookup k m

  unfoldable pub delete : Bytes → List (Bytes × V) → List (Bytes × V)
  delete k [] = []
  delete k ((j, v) ∷ m) = if equal j k then delete k m else (j, v) ∷ delete k m

  unfoldable pub insert : Bytes → V → List (Bytes × V) → List (Bytes × V)
  unfolding delete
  insert k v m = (k, v) ∷ delete k m

  pub lookup-delete :
      (k j : Bytes) (m : List (Bytes × V))
      → lookup j (delete k m) ≡ (if equal k j then none else lookup j m)
  unfolding lookup delete
  lookup-delete k j [] = ground arith
  lookup-delete k j ((i, v) ∷ m) =
      ground (arith, equal_iff i k, equal_iff i j, equal_iff k j, lookup-delete k j m)

  pub lookup-insert :
      (k j : Bytes) (v : V) (m : List (Bytes × V))
      → lookup j (insert k v m) ≡ (if equal k j then some v else lookup j m)
  unfolding lookup insert
  lookup-insert k j v m = ground (arith, lookup-delete k j m)

  -- No key occurs twice.
  abbrev pub Distinct : List (Bytes × V) → Type ℓ
  Distinct [] = Unit
  Distinct ((k, v) ∷ m) = (lookup k m ≡ none) × Distinct m

  pub delete-Distinct : (k : Bytes) (m : List (Bytes × V)) → Distinct m → Distinct (delete k m)
  unfolding delete
  delete-Distinct k [] h = tt
  delete-Distinct k ((j, v) ∷ m) (free_key, h) =
      let rest = delete-Distinct k m h in
      if_elim (λ l. Distinct l) (equal j k) (λ _. rest)
        (λ _. (lookup-delete k j m ∙ absent (equal k j) free_key, rest))
    where
      absent :
          (b : Bool) {o : Option V} → o ≡ none → ◌≡◌ {A = Option V} (if b then none else o) none
      absent true e = refl
      absent false e = e

  pub insert-Distinct :
      (k : Bytes) (v : V) (m : List (Bytes × V)) → Distinct m → Distinct (insert k v m)
  unfolding insert
  insert-Distinct k v m h = (lookup-delete k k m ∙ rw (equal_refl k) refl, delete-Distinct k m h)

  -- Deleting a key that is not there changes nothing.
  pub delete-absent : (k : Bytes) (m : List (Bytes × V)) → lookup k m ≡ none → delete k m ≡ m
  unfolding lookup delete
  delete-absent k [] e = refl
  delete-absent k ((j, v) ∷ m) e = elim (Bool-cases (equal j k)) [
    | inl same ↦ let e' = rw same at e in cc
    | inr other ↦ rw other (ap (◌∷◌ (j, v)) (delete-absent k m (rw other at e)))
  ]
