-- ===== src/Config/Pools/Linked.antt =====
-- Failover chains in memory: the pools that `next` leads through, with their servers.
use mathlib.Core.Option.{some-injective}
use mathlib.Core.Path.{subst}
use mod_siprec.Base.{
  ==_iff, ==_refl, Bool, Bool-cases, Bytes, List, Option, [], arith, false, if◌then◌else◌, inl, inr,
  length, map, none, refl, some, suc, sym, true, zero, ℕ, ◌++◌, ◌+◌, ◌<◌, ◌==◌, ◌∙◌, ◌∷◌, ◌≡◌, ◌≤◌,
}
use mod_siprec.Config.{Server}
use mod_siprec.Config.Pools.{Cell, Memory, finished, last_server, store}

abbrev pub Chain : Type 0
Chain = List (ℕ × Server)

abbrev pub has : ℕ → Chain → Bool
has q [] = false
has q ((p, srv) ∷ chain) = if q == p then true else has q chain

abbrev pub servers_of : Chain → List Server
servers_of = map (λ e. e.1)

-- From `from` on, `next` leads through the pools of the chain, with its servers, all of that name.
abbrev pub Linked : Memory → Bytes → Option ℕ → Chain → Type 0
Linked memory name from [] = from ≡ none
Linked memory name from ((p, srv) ∷ chain) =
    (next : Option ℕ) × (from ≡ some p)
    × (srv.name ≡ name)
    × (memory p ≡ some (record { server = srv; next = next }))
    × Linked memory name next chain

-- The pools of the chain rise, from `lo` on and below `hi`.
abbrev pub Rising : ℕ → Chain → ℕ → Type 0
Rising lo [] hi = lo ≤ hi
Rising lo ((p, srv) ∷ chain) hi = (lo ≤ p) × Rising (suc p) chain hi

pub Rising-length : (lo : ℕ) (chain : Chain) (hi : ℕ) → Rising lo chain hi → lo + length chain ≤ hi
Rising-length lo [] hi up = omega arith
Rising-length lo ((p, srv) ∷ chain) hi (le, up) =
    let rest = Rising-length (suc p) chain hi up in omega arith

pub Rising-has :
    (lo : ℕ) (chain : Chain) (hi q : ℕ)
    → Rising lo chain hi
    → has q chain ≡ true
    → (lo ≤ q) × (q < hi)
Rising-has lo [] hi q up is_in = absurd (cc)
Rising-has lo ((p, srv) ∷ chain) hi q (le, up) is_in =
    let long = Rising-length (suc p) chain hi up in ground (arith, Rising-has (suc p) chain hi q up)

pub Rising-append :
    (lo : ℕ) (chain : Chain) (q : ℕ) (srv : Server)
    → Rising lo chain q
    → Rising lo (chain ++ ((q, srv) ∷ [])) (suc q)
Rising-append lo [] q srv up = (up, omega arith)
Rising-append lo ((p, other) ∷ chain) q srv (le, up) = (le, Rising-append (suc p) chain q srv up)

pub Rising-suc : (lo : ℕ) (chain : Chain) (hi : ℕ) → Rising lo chain hi → Rising lo chain (suc hi)
Rising-suc lo [] hi up = omega arith
Rising-suc lo ((p, srv) ∷ chain) hi (le, up) = (le, Rising-suc (suc p) chain hi up)

pub Linked-has :
    (memory : Memory) (name : Bytes) (from : Option ℕ) (chain : Chain) (q : ℕ)
    → Linked memory name from chain
    → has q chain ≡ true
    → (c : Cell) × (memory q ≡ some c) × (c.server.name ≡ name)
Linked-has memory name from [] q linked is_in = absurd (cc)
Linked-has memory name from ((p, srv) ∷ chain) q (next, at_p, named, there, linked) is_in =
    elim (Bool-cases (q == p)) [
      | inl same ↦ (record { server = srv; next = next }, rw (((==_iff q p).0 same)) there, named)
      | inr ne ↦ Linked-has memory name next chain q linked (rw ne at is_in)
    ]

from_same :
    (memory : Memory) (name : Bytes) (chain : Chain) {from other : Option ℕ}
    → other ≡ from
    → Linked memory name other chain
    → Linked memory name from chain
from_same memory name chain e linked = subst (λ o. Linked memory name o chain) e linked

pub Linked-none :
    (memory : Memory) (name : Bytes) (chain : Chain) → Linked memory name none chain → chain ≡ []
Linked-none memory name [] linked = refl
Linked-none memory name ((p, srv) ∷ chain) linked = absurd (absurd_none linked.1)
  where
    absurd_none : ◌≡◌ {A = Option ℕ} none (some p) → ⊥
    absurd_none e = cc

pub Linked-head :
    (memory : Memory) (name : Bytes) (p : ℕ) (chain : Chain)
    → Linked memory name (some p) chain
    → (head : Server) × (rest : Chain) × (chain ≡ (p, head) ∷ rest)
Linked-head memory name p [] linked = absurd (cc)
Linked-head memory name p ((q, srv) ∷ chain) linked =
    (srv, chain, rw (some-injective p q linked.1) refl)

-- A write spares the pools on either side of it.
pub store-above :
    (memory : Memory) (p q : ℕ) (v : Option Cell) → p < q → store memory p v q ≡ memory q
store-above memory p q v lt = ground arith

pub store-below :
    (memory : Memory) (p q : ℕ) (v : Option Cell) → q < p → store memory p v q ≡ memory q
store-below memory p q v lt = ground arith

-- A chain stands as long as its own pools are not written.
pub Linked-same :
    (memory other : Memory) (name : Bytes) (from : Option ℕ) (chain : Chain)
    → Linked memory name from chain
    → ((q : ℕ) → has q chain ≡ true → other q ≡ memory q)
    → Linked other name from chain
Linked-same memory other name from [] linked same = linked
Linked-same memory other name from ((p, srv) ∷ chain) (next, at_p, named, there, linked) same = (
  next,
  at_p,
  named,
  same p (rw (==_refl p) refl) ∙ there,
  Linked-same memory other name next chain linked (λ q is_in. same q (ground arith)),
)

last_server-next :
    (memory : Memory) (p q fuel : ℕ) (c : Cell)
    → memory p ≡ some c
    → c.next ≡ some q
    → last_server (suc fuel) p memory ≡ last_server fuel q memory
unfolding last_server
last_server-next memory p q fuel c there e = rw (there, last_server, e) refl

-- The walk from the head of a chain ends at its last pool, and a pool written behind it is then the
-- last of the chain.
pub last_server-Linked :
    (memory : Memory) (name : Bytes) (lo p : ℕ) (head : Server) (chain : Chain) (q fuel : ℕ)
    (srv : Server)
    → Linked memory name (some p) ((p, head) ∷ chain)
    → Rising lo ((p, head) ∷ chain) q
    → memory q ≡ some (record { server = srv; next = none })
    → srv.name ≡ name
    → length chain < fuel
    → (last : ℕ) × (c : Cell) × (last_server fuel p memory ≡ finished last)
      × (memory last ≡ some c)
      × (c.server.name ≡ name)
      × (p ≤ last)
      × (last < q)
      × Linked
          (store memory last (some (record c { next = some q })))
          name
          (some p)
          (((p, head) ∷ chain) ++ ((q, srv) ∷ []))
unfolding last_server
last_server-Linked memory name lo p head chain q zero srv linked up fresh named lt =
    absurd (omega arith)
last_server-Linked memory name lo p head [] q (suc fuel) srv (next, at_p, at_name, there, end)
      (le, up) fresh named lt =
    (
      p,
      record { server = head; next = next },
      rw (there, last_server, end) refl,
      there,
      at_name,
      omega arith,
      up,
      (
        some q,
        refl,
        at_name,
        rw (==_refl p) refl,
        (
          none,
          refl,
          named,
          store-above memory p q (some (record { server = head; next = some q })) up ∙ fresh,
          refl,
        ),
      ),
    )
last_server-Linked memory name lo p head ((p', head') ∷ chain) q (suc fuel) srv
      (next, at_p, at_name, there, linked) (le, up) fresh named lt =
    let e = linked.1 in
    let (last, c, run, at_last, last_name, low, below, tail) =
      last_server-Linked memory name (suc p) p' head' chain q fuel srv
        (from_same memory name ((p', head') ∷ chain) e linked) up fresh named (omega arith) in
    (
      last,
      c,
      last_server-next memory p p' fuel (record { server = head; next = next }) there e ∙ run,
      at_last,
      last_name,
      omega arith,
      below,
      (
        next,
        refl,
        at_name,
        store-below memory last p (some (record c { next = some q })) (omega arith) ∙ there,
        from_same (store memory last (some (record c { next = some q }))) name
            (((p', head') ∷ chain) ++ ((q, srv) ∷ [])) (sym e) tail,
      ),
    )
