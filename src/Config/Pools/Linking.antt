-- ===== src/Config/Pools/Linking.antt =====
-- A server linked behind the last of the entries under its name.
use mathlib.Core.Option.{some-injective}
use mathlib.Core.Path.{subst}
use mod_siprec.Base.{
  ==_iff, ==_refl, Bool-cases, Bytes, List, [], ap, append-nil, arith, equal, equal_iff, equal_refl,
  false, inl, inr, lookup, none, refl, some, suc, sym, true, ℕ, ◌++◌, ◌==◌, ◌∙◌, ◌∷◌, ◌≡◌,
}
use mod_siprec.Config.{Server}
use mod_siprec.Config.Pools.{Cell, Memory, finished, last_server, set_next, store}
use mod_siprec.Config.Pools.Linked.{
  Chain, Linked, Linked-has, Linked-head, Linked-same, Rising, Rising-length, has,
  last_server-Linked,
}
use mod_siprec.Config.Pools.Owned.{Owned, added, added-owned, grown, grown-Rising, spared}

set_next-stored :
    (memory : Memory) (p q : ℕ) (c : Cell)
    → memory p ≡ some c
    → set_next p q memory ≡ finished (store memory p (some (record c { next = some q })))
set_next-stored memory p q c there = rw (there, set_next) refl

module _ {memory : Memory} {tried : ℕ} {hash : List (Bytes × ℕ)} {chains : Bytes → Chain}
    (o : Owned memory tried hash chains) (srv : Server) where
  -- What the walk behind an entry finds, and what the write there leaves.
  abbrev pub Linking : ℕ → Memory → Type 0
  Linking p linked =
      (last : ℕ) × (last_server (suc (suc tried)) p (added o srv) ≡ finished last)
      × (set_next last tried (added o srv) ≡ finished linked)
      × Owned linked (suc tried) hash (grown tried srv chains)

  module _ (last : ℕ) (c : Cell) (at_last : added o srv last ≡ some c)
      (named : c.server.name ≡ srv.name) where
    abbrev extended : Memory
    extended = store (added o srv) last (some (record c { next = some tried }))

    extended-owned :
        (q : ℕ) (d : Cell)
        → extended q ≡ some d
        → has q (grown tried srv chains d.server.name) ≡ true
    extended-owned q d there = elim (Bool-cases (q == last)) [
      | inl same ↦
          let new : Cell = record c { next = some tried } in
          let at_new : some new ≡ some d = rw same at there in
          rw ((==_iff q last).0 same) (
            subst (λ x. has last (grown tried srv chains x.server.name) ≡ true)
              (some-injective new d at_new) (added-owned o srv last c at_last))
      | inr ne ↦ added-owned o srv q d (rw ne at there)
    ]

    -- The chains of the other names do not go through the last entry of this one.
    other-Linked :
        (name : Bytes)
        → equal srv.name name ≡ false
        → Linked extended name (lookup name hash) (chains name)
    other-Linked name ne =
        let before = spared o (some (record { server = srv; next = none })) name in
        Linked-same (added o srv) extended name (lookup name hash) (chains name) before (λ q is_in.
          apart q (Linked-has (added o srv) name (lookup name hash) (chains name) q before is_in))
      where
        apart :
            (q : ℕ)
            → (d : Cell) × (added o srv q ≡ some d) × (d.server.name ≡ name)
            → extended q ≡ added o srv q
        apart q (d, there, at_name) = elim (Bool-cases (q == last)) [
          | inl same ↦ absurd (
              let e =
                some-injective d c
                  (sym there ∙ (ap (added o srv) ((==_iff q last).0 same) ∙ at_last)) in
              let named' : srv.name ≡ name =
                sym named ∙ (ap (λ x. x.server.name) (sym e) ∙ at_name) in
              let yes_equal = (equal_iff srv.name name).1 named' in cc)
          | inr ne' ↦ rw ne' refl
        ]

    pub extended-Owned :
        Linked extended srv.name (lookup srv.name hash) (grown tried srv chains srv.name)
        → Owned extended (suc tried) hash (grown tried srv chains)
    extended-Owned own = record {
      distinct = o.distinct;
      linked = λ name. elim (Bool-cases (equal srv.name name)) [
        | inl same ↦
            subst (λ n. Linked extended n (lookup n hash) (grown tried srv chains n))
              ((equal_iff srv.name name).0 same) own
        | inr ne ↦ rw (ne, append-nil) (other-Linked name ne)
      ];
      rising = grown-Rising o srv;
      owned = extended-owned;
    }

  module _ (p : ℕ) (at_p : lookup srv.name hash ≡ some p) where
    own : Linked (added o srv) srv.name (some p) (chains srv.name)
    own =
        subst (λ from. Linked (added o srv) srv.name from (chains srv.name)) at_p
          (spared o (some (record { server = srv; next = none })) srv.name)

    module _ (head : Server) (rest : Chain) (e : chains srv.name ≡ (p, head) ∷ rest) where
      own_cons : Linked (added o srv) srv.name (some p) ((p, head) ∷ rest)
      own_cons = subst (λ chain. Linked (added o srv) srv.name (some p) chain) e own

      up : Rising 0 ((p, head) ∷ rest) tried
      up = subst (λ chain. Rising 0 chain tried) e (o.rising srv.name)

      walked :
          (last : ℕ) (c : Cell)
          → last_server (suc (suc tried)) p (added o srv) ≡ finished last
          → (at_last : added o srv last ≡ some c) → c.server.name ≡ srv.name
          → Linked
              (store (added o srv) last (some (record c { next = some tried })))
              srv.name
              (some p)
              (((p, head) ∷ rest) ++ ((tried, srv) ∷ []))
          → (linked : Memory) × Linking p linked
      walked last c run at_last named tail = (
        extended last c at_last named,
        (
          last,
          run,
          set_next-stored (added o srv) last tried c at_last,
          extended-Owned last c at_last named (rw (at_p, equal_refl srv.name, e) tail),
        ),
      )

      cons-Owned : (linked : Memory) × Linking p linked
      cons-Owned =
          let long = Rising-length 0 ((p, head) ∷ rest) tried up in
          let (last, c, run, at_last, named, low, high, tail) =
            last_server-Linked (added o srv) srv.name 0 p head rest tried (suc (suc tried)) srv
              own_cons up (rw (==_refl tried) refl) refl (omega (arith, long)) in
          walked last c run at_last named tail

    -- The walk in a well-formed memory ends, and the server is then the last under its name.
    pub link-Owned : (linked : Memory) × Linking p linked
    link-Owned =
        let (head, rest, e) = Linked-head (added o srv) srv.name p (chains srv.name) own in
        cons-Owned head rest e
