-- ===== src/Config/Pools/Freeing.antt =====
-- `free_recording_servers` on the memory that a configuration leaves.
use mathlib.Core.Option.{some-injective}
use mathlib.Core.Path.{subst}
use mod_siprec.Base.{
  Bool-cases, Bytes, List, Option, [], ap, arith, equal, equal_iff, equal_refl, false,
  if◌then◌else◌, inl, inr, length, lookup, none, refl, some, suc, sym, true, zero, ℕ, ◌<◌, ◌∙◌, ◌∷◌,
  ◌≡◌,
}
use mod_siprec.Config.{Server}
use mod_siprec.Config.Pools.{
  Cell, Memory, Servers, finished, free_chain, free_chains, free_recording_servers, store,
}
use mod_siprec.Config.Pools.Linked.{
  Chain, Linked, Linked-has, Linked-none, Linked-same, Rising, Rising-has, Rising-length, has,
  store-above,
}
use mod_siprec.Config.Pools.Loading.{Holds}
use mod_siprec.Config.Pools.Owned.{Owned}

-- `rest` is the memory without the pools of the chain.
abbrev Without : Chain → Memory → Memory → Type 0
Without chain memory rest = (q : ℕ) → rest q ≡ (if has q chain then none else memory q)

free_chain-Without :
    (memory : Memory) (name : Bytes) (lo : ℕ) (from : Option ℕ) (chain : Chain) (hi fuel : ℕ)
    → Linked memory name from chain
    → Rising lo chain hi
    → length chain < fuel
    → (rest : Memory) × (free_chain fuel from memory ≡ finished rest) × Without chain memory rest
unfolding free_chain
free_chain-Without memory name lo from chain hi zero linked up lt = absurd (omega arith)
free_chain-Without memory name lo from [] hi (suc fuel) linked up lt =
    (memory, rw linked refl, λ q. refl)
free_chain-Without memory name lo from ((p, srv) ∷ chain) hi (suc fuel)
      (next, at_p, named, there, linked) (le, up) lt =
    let after : Linked (store memory p none) name next chain =
      Linked-same memory (store memory p none) name next chain linked
        (λ q is_in. store-above memory p q none (Rising-has (suc p) chain hi q up is_in).0) in
    let (rest, run, gone) =
      free_chain-Without (store memory p none) name (suc p) next chain hi fuel after up
        (omega arith) in
    (rest, rw (at_p, there, free_chain) run, λ q. ground (arith, gone q))

module _ {tried : ℕ} {k : Bytes} {p : ℕ} {hash : List (Bytes × ℕ)} {memory rest : Memory}
    {chains : Bytes → Chain} (o : Owned memory tried ((k, p) ∷ hash) chains)
    (gone : Without (chains k) memory rest) where
  abbrev less : Bytes → Chain
  less name = if equal k name then [] else chains name

  apart :
      (name : Bytes) (q : ℕ)
      → equal k name ≡ false
      → has q (chains name) ≡ true
      → has q (chains k) ≡ false
  apart name q ne is_in = elim (Bool-cases (has q (chains k))) [
    | inl both ↦ absurd (
        clash (Linked-has memory k (lookup k ((k, p) ∷ hash)) (chains k) q (o.linked k) both) (
          Linked-has memory name (lookup name ((k, p) ∷ hash)) (chains name) q (o.linked name)
            is_in))
    | inr out ↦ out
  ]
    where
      clash :
          (c : Cell) × (memory q ≡ some c) × (c.server.name ≡ k)
          → (d : Cell) × (memory q ≡ some d) × (d.server.name ≡ name)
          → ⊥
      clash (c, at_c, at_k) (d, at_d, at_name) =
          let e = some-injective c d (sym at_c ∙ at_d) in
          let same : k ≡ name = sym at_k ∙ (ap (λ x. x.server.name) e ∙ at_name) in
          let b = (equal_iff k name).1 same in cc

  rest-Linked : (name : Bytes) → Linked rest name (lookup name hash) (less name)
  unfolding lookup
  rest-Linked name = elim (Bool-cases (equal k name)) [
    | inl same ↦
        rw same (subst (λ n. lookup n hash ≡ none) ((equal_iff k name).0 same) o.distinct.0)
    | inr ne ↦ rw ne (
        Linked-same memory rest name (lookup name hash) (chains name) (rw ne at (o.linked name))
          (λ q is_in. gone q ∙ rw (apart name q ne is_in) refl))
  ]

  rest-owned : (q : ℕ) (c : Cell) → rest q ≡ some c → has q (less c.server.name) ≡ true
  rest-owned q c there = elim (Bool-cases (has q (chains k))) [
    | inl freed ↦ absurd (let e : rest q ≡ none = gone q ∙ rw freed refl in cc)
    | inr kept ↦
        let is_in = o.owned q c (sym (gone q ∙ rw kept refl) ∙ there) in
        elim (Bool-cases (equal k c.server.name)) [
          | inl same ↦ absurd (
              let is_in' : has q (chains k) ≡ true =
                subst (λ n. has q (chains n) ≡ true) (sym ((equal_iff k c.server.name).0 same))
                  is_in in
              cc)
          | inr ne ↦ rw ne is_in
        ]
  ]

  rest-Owned : Owned rest tried hash less
  rest-Owned = record {
    distinct = o.distinct.1;
    linked = rest-Linked;
    rising = λ name. elim (Bool-cases (equal k name)) [
      | inl same ↦ rw same (omega arith)
      | inr ne ↦ rw ne (o.rising name)
    ];
    owned = rest-owned;
  }

free_chains-all :
    {tried : ℕ} (fuel : ℕ) (hash : List (Bytes × ℕ)) (memory : Memory) {chains : Bytes → Chain}
    → Owned memory tried hash chains
    → tried < fuel
    → (rest : Memory) × (free_chains fuel hash memory ≡ finished rest) × ((q : ℕ) → rest q ≡ none)
unfolding free_chains lookup
free_chains-all fuel [] memory {chains} o lt = (memory, refl, λ q. empty q (memory q) refl)
  where
    empty : (q : ℕ) (v : Option Cell) → memory q ≡ v → memory q ≡ none
    empty q none at_q = at_q
    empty q (some c) at_q = absurd (
        let is_in = o.owned q c at_q in
        let none_there =
          Linked-none memory c.server.name (chains c.server.name) (o.linked c.server.name) in
        let no : has q [] ≡ true = rw none_there at is_in in cc)
free_chains-all {tried} fuel ((k, p) ∷ hash) memory {chains} o lt =
    let long = Rising-length 0 (chains k) tried (o.rising k) in
    let (rest, run, gone) =
      free_chain-Without memory k 0 (some p) (chains k) tried fuel
        (rw (equal_refl k) at (o.linked k)) (o.rising k) (omega (arith, long)) in
    let (last, run', all_gone) = free_chains-all fuel hash rest (rest-Owned o gone) lt in
    (last, rw run run', all_gone)

-- Where the memory holds the chains of a table, `free_recording_servers` comes to an end without
-- the use of a destroyed pool, with every pool destroyed and the hash with them.
pub free_recording_servers-freed :
    {s : Servers} {table : List (Bytes × List Server)}
    → Holds s table
    → (s' : Servers) × (free_recording_servers s ≡ finished s')
      × (s'.hash ≡ none)
      × ((p : ℕ) → s'.memory p ≡ none)
unfolding free_recording_servers
free_recording_servers-freed {s} h =
    let (rest, run, gone) =
      free_chains-all (suc (suc s.tried)) h.hash s.memory h.owned (omega arith) in
    (record s { memory = rest; hash = none }, rw h.there (rw run refl), refl, gone)
