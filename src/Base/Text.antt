-- ===== src/Base/Text.antt =====
-- C strings as lists of byte values, without the terminating NUL: literals, `strcmp`,
-- `strncasecmp` against a literal prefix, `strchr`, `strstr`.
use Prim.Native.Nat.{ℕ, ◌+◌}
use Prim.Native.Char.{code}
use Prim.Native.String.{String}
use mathlib.Core.Path.{◌≡◌, refl, ap}
use mathlib.Core.Logic.{◌↔◌, inl, inr}
use mathlib.Core.List.{List, [], ◌∷◌, ◌++◌}
use mathlib.Core.Bool.{Bool, true, false, ◌&&◌, ◌||◌}
use native.Mathlib.Omega.{arith}
use mod_siprec.Base.Tests.{Bool-cases, if◌then◌else◌, leb, ◌==◌}

abbrev pub Bytes : Type 0
Bytes = List ℕ

-- The bytes of an ASCII literal.
abbrev pub codes : String → Bytes
codes String.[] = []
codes (String.◌∷◌ c s) = code c ∷ codes s

abbrev pub between : ℕ → ℕ → ℕ → Bool
between lo hi c = leb lo c && leb c hi

-- `strcmp(a, b) == 0`
unfoldable pub equal : Bytes → Bytes → Bool
equal (c ∷ cs) (d ∷ ds) = c == d && equal cs ds
equal (c ∷ cs) [] = false
equal [] (d ∷ ds) = false
equal [] [] = true

pub equal_iff : (s t : Bytes) → (equal s t ≡ true) ↔ (s ≡ t)
unfolding equal
equal_iff [] [] = (λ _. refl, λ _. refl)
equal_iff [] (d ∷ ds) = ground arith
equal_iff (c ∷ cs) [] = ground arith
equal_iff (c ∷ cs) (d ∷ ds) = let tails = equal_iff cs ds in ground arith

pub equal_refl : (a : Bytes) → equal a a ≡ true
equal_refl a = (equal_iff a a).1 refl

-- `strncmp(s, p, strlen(p)) == 0`
unfoldable pub starts_with : Bytes → Bytes → Bool
starts_with [] s = true
starts_with (c ∷ p) [] = false
starts_with (c ∷ p) (d ∷ s) = c == d && starts_with p s

-- `tolower` in the C locale.
unfoldable pub lower : ℕ → ℕ
lower c = if between 65 90 c then c + 32 else c

-- `strncasecmp(s, p, strlen(p)) == 0`, for `p` in lower case.
unfoldable pub starts_with_nocase : Bytes → Bytes → Bool
unfolding lower
starts_with_nocase [] s = true
starts_with_nocase (c ∷ p) [] = false
starts_with_nocase (c ∷ p) (d ∷ s) = c == lower d && starts_with_nocase p s

-- `strcasecmp(s, p) == 0`, for `p` in lower case.
unfoldable pub equal_nocase : Bytes → Bytes → Bool
unfolding lower
equal_nocase [] [] = true
equal_nocase (c ∷ p) (d ∷ s) = c == lower d && equal_nocase p s
equal_nocase _ _ = false

-- `strchr(s, c) != NULL`, for `c` not NUL.
unfoldable pub contains : Bytes → ℕ → Bool
contains [] c = false
contains (d ∷ s) c = c == d || contains s c

-- `strstr(s, p) != NULL`
unfoldable pub has_infix : Bytes → Bytes → Bool
unfolding starts_with
has_infix p [] = starts_with p []
has_infix p (d ∷ s) = starts_with p (d ∷ s) || has_infix p s

pub starts_with_iff : (p s : Bytes) → (starts_with p s ≡ true) ↔ ((rest : Bytes) × (s ≡ p ++ rest))
unfolding starts_with
starts_with_iff [] s = (λ _. (s, refl), λ _. refl)
starts_with_iff (c ∷ p) [] = (λ h. cc, λ h. cc (h.1))
starts_with_iff (c ∷ p) (d ∷ s) =
    let ih = starts_with_iff p s in
    (
      λ h. let (rest, e) = ih.0 (ground arith) in (rest, ground arith),
      λ h. let back : starts_with p s ≡ true = ih.1 (h.0, ground arith) in ground arith,
    )

-- `strstr` finds `p` exactly if the text holds it somewhere.
pub has_infix_found :
    (p s : Bytes) → has_infix p s ≡ true → (pre : Bytes) × (post : Bytes) × (s ≡ pre ++ (p ++ post))
unfolding has_infix
has_infix_found p [] h = let (rest, e) = (starts_with_iff p []).0 h in ([], rest, e)
has_infix_found p (d ∷ s) h = elim (Bool-cases (starts_with p (d ∷ s))) [
  | inl here ↦ let (rest, e) = (starts_with_iff p (d ∷ s)).0 here in ([], rest, e)
  | inr later ↦
      let (pre, post, e) = has_infix_found p s (ground arith) in (d ∷ pre, post, ap (◌∷◌ d) e)
]

pub has_infix_of : (p pre post : Bytes) → has_infix p (pre ++ (p ++ post)) ≡ true
unfolding has_infix
has_infix_of [] [] [] = refl
has_infix_of [] [] (d ∷ post) = refl
has_infix_of (c ∷ p) [] post = rw ((starts_with_iff (c ∷ p) (c ∷ (p ++ post))).1 (post, refl))
has_infix_of p (d ∷ pre) post = ground (arith, has_infix_of p pre post)
