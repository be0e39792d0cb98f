-- ===== src/Config/Pools/Owned.antt =====
-- The well-formed states of the recording servers' memory, as a configuration is loaded.
use mathlib.Core.Option.{some-injective}
use mathlib.Core.Path.{fun_ext, subst}
use mod_siprec.Base.{
  ==_iff, ==_refl, Bool, Bool-cases, Bytes, Distinct, List, Option, [], append-nil, arith, equal,
  equal_iff, equal_refl, false, if◌then◌else◌, inl, inr, insert, insert-Distinct, lookup,
  lookup-insert, none, refl, some, suc, true, ℕ, ◌++◌, ◌<◌, ◌==◌, ◌∙◌, ◌∷◌, ◌≡◌,
}
use mod_siprec.Config.{Server}
use mod_siprec.Config.Pools.{Cell, Memory, store}
use mod_siprec.Config.Pools.Linked.{
  Chain, Linked, Linked-none, Linked-same, Rising, Rising-append, Rising-has, Rising-suc, has,
  store-below,
}

-- Each name's chain stands in memory behind its head in the hash, and no pool is outside of the
-- chains.
pub record Owned (memory : Memory) (tried : ℕ) (hash : List (Bytes × ℕ)) (chains : Bytes → Chain)
    : Type 0 where
  pub distinct : Distinct hash
  pub linked : (name : Bytes) → Linked memory name (lookup name hash) (chains name)
  pub rising : (name : Bytes) → Rising 0 (chains name) tried
  pub owned : (p : ℕ) (c : Cell) → memory p ≡ some c → has p (chains c.server.name) ≡ true

pub Owned-same :
    (memory : Memory) (tried : ℕ) (hash : List (Bytes × ℕ)) {chains other : Bytes → Chain}
    → ((name : Bytes) → chains name ≡ other name)
    → Owned memory tried hash chains
    → Owned memory tried hash other
Owned-same memory tried hash same o = subst (λ c. Owned memory tried hash c) (fun_ext same) o

has-append :
    (q : ℕ) (chain : Chain) (p : ℕ) (srv : Server)
    → has q (chain ++ ((p, srv) ∷ [])) ≡ (if has q chain then true else q == p)
has-append q [] p srv = ground arith
has-append q ((i, other) ∷ chain) p srv = ground (arith, has-append q chain p srv)

-- The chains with a server behind the chain of its name.
abbrev pub grown : ℕ → Server → (Bytes → Chain) → Bytes → Chain
grown p srv chains name = chains name ++ (if equal srv.name name then (p, srv) ∷ [] else [])

module _ {memory : Memory} {tried : ℕ} {hash : List (Bytes × ℕ)} {chains : Bytes → Chain}
    (o : Owned memory tried hash chains) where
  below : (name : Bytes) (q : ℕ) → has q (chains name) ≡ true → q < tried
  below name q is_in = (Rising-has 0 (chains name) tried q (o.rising name) is_in).1

  -- A call that gives no pool.
  pub refused-Owned : Owned memory (suc tried) hash chains
  refused-Owned = record {
    distinct = o.distinct;
    linked = o.linked;
    rising = λ name. Rising-suc 0 (chains name) tried (o.rising name);
    owned = o.owned;
  }

  pub spared :
      (v : Option Cell) (name : Bytes)
      → Linked (store memory tried v) name (lookup name hash) (chains name)
  spared v name =
      Linked-same memory (store memory tried v) name (lookup name hash) (chains name)
        (o.linked name) (λ q is_in. store-below memory tried q v (below name q is_in))

  -- A pool that is given back.
  pub returned-Owned :
      (v : Option Cell) → Owned (store (store memory tried v) tried none) (suc tried) hash chains
  returned-Owned v = record {
    distinct = o.distinct;
    linked = λ name.
        Linked-same (store memory tried v) (store (store memory tried v) tried none) name
          (lookup name hash) (chains name) (spared v name)
          (λ q is_in. store-below (store memory tried v) tried q none (below name q is_in));
    rising = λ name. Rising-suc 0 (chains name) tried (o.rising name);
    owned = λ p c there. o.owned p c (kept p c there);
  }
    where
      kept :
          (p : ℕ) (c : Cell)
          → store (store memory tried v) tried none p ≡ some c
          → memory p ≡ some c
      kept p c there = ground arith

  pub grown-Rising :
      (srv : Server) (name : Bytes) → Rising 0 (grown tried srv chains name) (suc tried)
  grown-Rising srv name = elim (Bool-cases (equal srv.name name)) [
    | inl same ↦ rw same (Rising-append 0 (chains name) tried srv (o.rising name))
    | inr ne ↦ rw (ne, append-nil) (Rising-suc 0 (chains name) tried (o.rising name))
  ]

  grown-has :
      (srv : Server) (name : Bytes) (q : ℕ)
      → has q (chains name) ≡ true
      → has q (grown tried srv chains name) ≡ true
  grown-has srv name q is_in = elim (Bool-cases (equal srv.name name)) [
    | inl same ↦ rw same (has-append q (chains name) tried srv ∙ rw is_in refl)
    | inr ne ↦ rw (ne, append-nil) is_in
  ]

  grown-new : (srv : Server) → has tried (grown tried srv chains srv.name) ≡ true
  grown-new srv = rw (equal_refl srv.name) (
      has-append tried (chains srv.name) tried srv
      ∙ rw (==_refl tried) (either (has tried (chains srv.name))))
    where
      either : (b : Bool) → (if b then true else true) ≡ true
      either true = refl
      either false = refl

  abbrev pub added : Server → Memory
  added srv = store memory tried (some (record { server = srv; next = none }))

  pub added-owned :
      (srv : Server) (p : ℕ) (c : Cell)
      → added srv p ≡ some c
      → has p (grown tried srv chains c.server.name) ≡ true
  added-owned srv p c there = elim (Bool-cases (p == tried)) [
    | inl same ↦
        let new : Cell = record { server = srv; next = none } in
        let at_new : some new ≡ some c = rw same at there in
        rw ((==_iff p tried).0 same) (
          subst (λ x. has tried (grown tried srv chains x.server.name) ≡ true)
            (some-injective new c at_new) (grown-new srv))
    | inr ne ↦ grown-has srv c.server.name p (o.owned p c (rw ne at there))
  ]

  -- The first server of its name goes into the hash.
  module _ (srv : Server) (first : lookup srv.name hash ≡ none) where
    first-Linked :
        (name : Bytes)
        → Linked
            (added srv)
            name
            (lookup name (insert srv.name tried hash))
            (grown tried srv chains name)
    first-Linked name = elim (Bool-cases (equal srv.name name)) [
      | inl same ↦
          rw
            (
              lookup-insert srv.name name tried hash,
              same,
              alone name (rw (← (equal_iff srv.name name).0 same) first),
            )
            (none, refl, (equal_iff srv.name name).0 same, rw (==_refl tried) refl, refl)
      | inr ne ↦
          rw (lookup-insert srv.name name tried hash, ne, append-nil)
            (spared (some (record { server = srv; next = none })) name)
    ]
      where
        alone : (name : Bytes) → lookup name hash ≡ none → chains name ≡ []
        alone name absent = Linked-none memory name (chains name) (rw absent at (o.linked name))

    pub first-Owned :
        Owned (added srv) (suc tried) (insert srv.name tried hash) (grown tried srv chains)
    first-Owned = record {
      distinct = insert-Distinct srv.name tried hash o.distinct;
      linked = first-Linked;
      rising = grown-Rising srv;
      owned = added-owned srv;
    }
