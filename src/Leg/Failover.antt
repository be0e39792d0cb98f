-- ===== src/Leg/Failover.antt =====
-- Which server records a call, and where its audio goes, in siprec_invite.c.
use mod_siprec.Base.{
  All, Bool, Bytes, List, Option, Option-cases, [], ap, inl, inr, none, refl, some, suc, take, zero,
  ℕ, ◌++◌, ◌∷◌, ◌≡◌,
}
use mod_siprec.Config.{Server}
use mod_siprec.Leg.{Ctx, Network, send_failover, try_server, uri_for, walk}

module _ (net : Network) (separate : Bool) (profile metadata : Bytes) where
  -- The outcome of a walk over some candidates.
  pub data Walked : List Server → Option Ctx → Type 0 where
    answered_by :
        {candidates : List Server} (passed : List Server) (srv : Server) (rest : List Server)
        {ctx : Ctx}
        → candidates ≡ passed ++ (srv ∷ rest)
        → All (λ s. try_server net separate profile metadata (uri_for net s) ≡ none) passed
        → try_server net separate profile metadata (uri_for net srv) ≡ some ctx
        → Walked candidates (some ctx)
    exhausted :
        {candidates : List Server}
        → All (λ s. try_server net separate profile metadata (uri_for net s) ≡ none) candidates
        → Walked candidates none

  skipped :
      (srv : Server) {chain : List Server} {o : Option Ctx}
      → try_server net separate profile metadata (uri_for net srv) ≡ none
      → Walked chain o
      → Walked (srv ∷ chain) o
  skipped srv refused (answered_by passed winner rest e fails won) =
      answered_by (srv ∷ passed) winner rest (ap (◌∷◌ srv) e) (refused, fails) won
  skipped srv refused (exhausted fails) = exhausted (refused, fails)

  walk-Walked :
      (attempts : ℕ) (chain : List Server)
      → Walked (take attempts chain) (walk net attempts separate profile metadata chain)
  unfolding walk
  walk-Walked zero chain = exhausted tt
  walk-Walked (suc attempts) [] = exhausted tt
  walk-Walked (suc attempts) (srv ∷ chain) =
      elim (Option-cases (try_server net separate profile metadata (uri_for net srv))) [
        | inl refused ↦ rw refused (skipped srv refused (walk-Walked attempts chain))
        | inr (ctx, won) ↦ rw won (answered_by [] srv (take attempts chain) refl tt won)
      ]

  -- The failover gives the leg of the first of the chain's first 16 servers whose INVITE succeeds,
  -- where every server before it has no URI or fails; it gives no leg only if all of these do.
  pub send_failover-Walked :
      (chain : List Server)
      → Walked (take 16 chain) (send_failover net separate profile metadata chain)
  unfolding send_failover
  send_failover-Walked chain = walk-Walked 16 chain
