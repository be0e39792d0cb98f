-- ===== src/Tests/Sb.antt =====
-- The string buffer at concrete sequences of calls and allocators.
use mod_siprec.Base.{Bool, List, [], codes, false, none, refl, some, true, ℕ, ◌∷◌, ◌≡◌}
use mod_siprec.Sb.{sb_append, sb_appendf, sb_init, sb_take}
use mod_siprec.Sb.Concat.{Op, Taken, concat, formatted, raw, run, sb_take-run}

abbrev granting : ℕ → ℕ → Bool
granting k size = true

abbrev failing : ℕ → ℕ → Bool
failing k size = false

abbrev greeting : List Op
greeting = raw (codes "he") ∷ raw [] ∷ formatted (codes "llo") ∷ []

greeting_taken : sb_take (run granting greeting sb_init) ≡ some (codes "hello")
unfolding sb_take sb_append sb_appendf sb_init
greeting_taken = refl

greeting_lost : sb_take (run failing greeting sb_init) ≡ none
unfolding sb_take sb_append sb_appendf sb_init
greeting_lost = refl

sb_take-run_example : Taken failing (concat greeting) (sb_take (run failing greeting sb_init))
sb_take-run_example = sb_take-run failing greeting
