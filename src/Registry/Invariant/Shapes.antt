-- ===== src/Registry/Invariant/Shapes.antt =====
-- Taking a recording out of the table, into the hands of one owner or of its last pin.
use mathlib.Core.Path.{subst}
use mod_siprec.Base.{
  ==_iff, ==_refl, Bool-cases, Bytes, arith, delete, delete-Distinct, equal, equal_iff, equal_refl,
  false, inl, inr, lookup, lookup-delete, some, sym, true, ℕ, ◌<◌, ◌==◌, ◌∙◌, ◌≡◌,
}
use mod_siprec.Registry.{Recording, write}
use mod_siprec.Registry.Interleaving.{System, bump}
use mod_siprec.Registry.Invariant.Lives.{Life-doom, Life-unlist, points_self}
use mod_siprec.Registry.Invariant.{Inv, StatusOf, delete-StatusOf, points}

-- A property of all pointers, from one of them and all others.
pub at_and_off {ℓ} :
    (P : ℕ → Type ℓ) (r : ℕ) → P r → ((q : ℕ) → (q == r) ≡ false → P q) → (q : ℕ) → P q
at_and_off P r here others q = elim (Bool-cases (q == r)) [
  | inl same ↦ subst P (sym ((==_iff q r).0 same)) here
  | inr other ↦ others q other
]

module _ (s : System) (inv : Inv s) where
  open s.reg use {table, heap}

  -- The key of a recording that the table points to.
  pub entry-key :
      (key : Bytes) (r : ℕ) {rec : Recording}
      → lookup key table ≡ some r
      → heap r ≡ some rec
      → rec.key ≡ key
  entry-key key r at_r live = let (rec', there, e) = inv.keyed key r at_r in ground arith

  pub status_at :
      (r : ℕ) {rec : Recording}
      → heap r ≡ some rec
      → StatusOf table r (some rec) (s.pins r) (s.claims r)
  status_at r live = rw live at (inv.status r)

  module _ (key : Bytes) (r : ℕ) {rec : Recording} (at_r : lookup key table ≡ some r)
      (live : heap r ≡ some rec) where
    kept :
        (k : Bytes) (q : ℕ)
        → lookup k (delete key table) ≡ some q
        → (equal key k ≡ false) × (lookup k table ≡ some q)
    kept k q e = let law = lookup-delete key k table in ground (arith)

    keyed-delete :
        (k : Bytes) (q : ℕ)
        → lookup k (delete key table) ≡ some q
        → (lookup k table ≡ some q) × ((q == r) ≡ false)
    keyed-delete k q e = elim (Bool-cases (q == r)) [
      | inl same ↦
          let (other, at_q) = kept k q e in
          let at_r' : lookup k table ≡ some r = rw (← (==_iff q r).0 same) at_q in
          let e1 = entry-key key r at_r live in
          let e2 = entry-key k r at_r' live in
          let e3 = (equal_iff key k).1 (sym e1 ∙ e2) in absurd (cc)
      | inr ne ↦ ((kept k q e).1, ne)
    ]

    pub own_key : lookup rec.key table ≡ some r
    own_key = rw (entry-key key r at_r live) at_r

    unlisted : points (lookup rec.key (delete key table)) r ≡ false
    unlisted = rw (entry-key key r at_r live, lookup-delete key key table, equal_refl key)

    -- A stop takes an unpinned recording out of the table and owns it.
    pub owned-Inv :
        rec.use_count ≡ 0
        → Inv (record s {
          reg = record (s.reg) { table = delete key table };
          claims = bump s.claims r;
        })
    owned-Inv unpinned = record {
      keyed = λ k q e. inv.keyed k q (keyed-delete k q e).0;
      distinct = delete-Distinct key table inv.distinct;
      status =
          at_and_off (λ q. StatusOf (delete key table) q (heap q) (s.pins q) (bump s.claims r q)) r
            (let (count, life) = status_at r live in
              rw (live, ==_refl r)
                (
                  count,
                  rw unlisted (Life-unlist life (points_self r own_key) (sym count ∙ unpinned)),
                ))
            (λ q ne. rw ne (delete-StatusOf table key r q (heap q) _ _ at_r ne (inv.status q)));
    }

    -- A stop takes a pinned recording out of the table and dooms it.
    pub unlisted_doomed-Inv :
        0 < s.pins r
        → Inv (record s {
          reg = record (s.reg) {
            table = delete key table;
            heap = write heap r (some (record rec { doomed = true }));
          };
        })
    unlisted_doomed-Inv lt = record {
      keyed = λ k q e. let (at_q, ne) = keyed-delete k q e in rw ne (inv.keyed k q at_q);
      distinct = delete-Distinct key table inv.distinct;
      status =
          at_and_off
            (λ q.
              StatusOf (delete key table) q (write heap r (some (record rec { doomed = true })) q)
                (s.pins q) (s.claims q))
            r
            (let (count, life) = status_at r live in
              rw (==_refl r) (count, rw unlisted (Life-doom life lt)))
            (λ q ne. rw ne (delete-StatusOf table key r q (heap q) _ _ at_r ne (inv.status q)));
    }
