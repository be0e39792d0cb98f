-- ===== src/Media/Attach/Sockets.antt =====
-- Sets of open sockets: what a run of `socket` and `close` leaves open.
use mod_siprec.Base.{
  ==_refl, All, Bool, Bool-cases, List, [], arith, false, if◌then◌else◌, inl, inr, refl, true, ℕ,
  ◌++◌, ◌==◌, ◌||◌, ◌∷◌, ◌≡◌,
}
use mod_siprec.Media.Attach.{SocketOp, close_all, closed, opened}

abbrev pub remove : ℕ → List ℕ → List ℕ
remove fd [] = []
remove fd (x ∷ l) = let rest = remove fd l in if x == fd then rest else x ∷ rest

-- The sockets that are open after some operations, where those of `l` were open before.
abbrev pub open_after : List SocketOp → List ℕ → List ℕ
open_after [] l = l
open_after (opened fd ∷ ops) l = open_after ops (l ++ (fd ∷ []))
open_after (closed fd ∷ ops) l = open_after ops (remove fd l)

pub open_after-append :
    (ops more : List SocketOp) (l : List ℕ)
    → open_after (ops ++ more) l ≡ open_after more (open_after ops l)
open_after-append [] more l = refl
open_after-append (opened fd ∷ ops) more l = open_after-append ops more (l ++ (fd ∷ []))
open_after-append (closed fd ∷ ops) more l = open_after-append ops more (remove fd l)

abbrev member : ℕ → List ℕ → Bool
member x [] = false
member x (y ∷ l) = x == y || member x l

Covers : List ℕ → List ℕ → Type 0
Covers fds l = All (λ x. member x fds ≡ true) l

Covers-more : (y : ℕ) (fds l : List ℕ) → Covers fds l → Covers (y ∷ fds) l
unfolding Covers
Covers-more y fds [] h = tt
Covers-more y fds (x ∷ l) (e, h) = (ground arith, Covers-more y fds l h)

Covers-refl : (fds : List ℕ) → Covers fds fds
unfolding Covers
Covers-refl [] = tt
Covers-refl (x ∷ fds) = (ground (arith, ==_refl x), Covers-more x fds fds (Covers-refl fds))

Covers-remove : (fd : ℕ) (fds l : List ℕ) → Covers (fd ∷ fds) l → Covers fds (remove fd l)
unfolding Covers
Covers-remove fd fds [] h = tt
Covers-remove fd fds (x ∷ l) (e, h) =
    let rest = Covers-remove fd fds l h in
    elim (Bool-cases (x == fd)) [
      | inl same ↦ rw same rest
      | inr other ↦ rw other (ground arith, rest)
    ]

covered-closed : (fds l : List ℕ) → Covers fds l → open_after (close_all fds) l ≡ []
unfolding Covers
covered-closed [] [] h = refl
covered-closed [] (x ∷ l) (e, h) = absurd (cc)
covered-closed (fd ∷ fds) l h = covered-closed fds (remove fd l) (Covers-remove fd fds l h)

-- Closing all sockets of a list leaves none of them open.
pub close_all-closed : (fds : List ℕ) → open_after (close_all fds) fds ≡ []
close_all-closed fds = covered-closed fds fds (Covers-refl fds)
