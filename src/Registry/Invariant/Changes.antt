-- ===== src/Registry/Invariant/Changes.antt =====
-- Changes that leave the table alone, or add to it: pins, marks, the end of a recording, a start.
use mod_siprec.Base.{
  ==_iff, ==_refl, Bool, Bool-cases, Bytes, List, Option, ap, arith, equal, equal_iff, equal_refl,
  false, if◌then◌else◌, inl, inr, insert, insert-Distinct, lookup, lookup-insert, none, refl, some,
  true, ℕ, ◌&&◌, ◌+◌, ◌-◌, ◌<◌, ◌==◌, ◌∙◌, ◌≡◌,
}
use mod_siprec.Registry.{Effect, Recording, fresh_recording, put_recording, unlink, write}
use mod_siprec.Registry.Interleaving.{System, bump, bump_when, drop_one}
use mod_siprec.Registry.Invariant.{Inv, Life, StatusOf, insert-StatusOf, listed, points}
use mod_siprec.Registry.Invariant.Lives.{Life-claimed, Life-doom, Life-pin, Life-unpin, points_self}
use mod_siprec.Registry.Invariant.Shapes.{
  at_and_off, entry-key, own_key, status_at, unlisted_doomed-Inv,
}

pub points_at : (r : ℕ) (o : Option ℕ) → points o r ≡ true → o ≡ some r
points_at r none e = cc
points_at r (some q) e = ap some ((==_iff q r).0 e)

unlink_off :
    (key : Bytes) (r : ℕ) (o : Option ℕ) (table : List (Bytes × ℕ))
    → points o r ≡ false
    → unlink key r o table ≡ table
unlink_off key r none table e = refl
unlink_off key r (some q) table e = rw e

module _ (s : System) (inv : Inv s) (r : ℕ) {rec : Recording} (live : s.reg.heap r ≡ some rec) where
  open s.reg use {table, heap}

  keyed-write :
      (new : Recording)
      → new.key ≡ rec.key
      → (k : Bytes) (q : ℕ) → lookup k table ≡ some q
      → (rec' : Recording) × (write heap r (some new) q ≡ some rec') × (rec'.key ≡ k)
  keyed-write new e k =
      at_and_off
        (λ q.
          lookup k table ≡ some q
          → (rec' : Recording) × (write heap r (some new) q ≡ some rec') × (rec'.key ≡ k))
        r (λ at_r. (new, rw (==_refl r), e ∙ entry-key s inv k r at_r live))
        (λ q ne at_q. rw ne (inv.keyed k q at_q))

  -- An acquire pins a listed recording.
  pub pinned-Inv :
      (key : Bytes)
      → lookup key table ≡ some r
      → Inv (record s {
        reg = record (s.reg) {
          heap = write heap r (some (record rec { use_count = rec.use_count + 1 }));
        };
        pins = bump s.pins r;
      })
  pinned-Inv key at_r = record {
    keyed = keyed-write (record rec { use_count = rec.use_count + 1 }) refl;
    distinct = inv.distinct;
    status =
        at_and_off
          (λ q.
            StatusOf table q (write heap r (some (record rec { use_count = rec.use_count + 1 })) q)
              (bump s.pins r q) (s.claims q))
          r
          (let (count, life) = status_at s inv r live in
            rw (==_refl r)
              (omega arith, Life-pin life (points_self r (own_key s inv key r at_r live))))
          (λ q ne. rw ne (inv.status q));
  }

  -- A change of what does not count: the leg, the fork, the mark that the leg is gone.
  pub changed-Inv :
      (new : Recording)
      → new.key ≡ rec.key
      → new.use_count ≡ rec.use_count
      → new.doomed ≡ rec.doomed
      → Inv (record s { reg = record (s.reg) { heap = write heap r (some new) } })
  changed-Inv new e c d = record {
    keyed = keyed-write new e;
    distinct = inv.distinct;
    status =
        at_and_off (λ q. StatusOf table q (write heap r (some new) q) (s.pins q) (s.claims q)) r
          (rw (==_refl r, e, c, d) (status_at s inv r live)) (λ q ne. rw ne (inv.status q));
  }

  bump_when_self :
      (b : Bool) → bump_when b s.claims r r ≡ (if b then s.claims r + 1 else s.claims r)
  bump_when_self true = rw (==_refl r)
  bump_when_self false = refl

  bump_when_off : (b : Bool) (r q : ℕ) → (q == r) ≡ false → bump_when b s.claims r q ≡ s.claims q
  bump_when_off true r q ne = rw ne
  bump_when_off false r q ne = refl

  unpinned-Life :
      0 < s.pins r
      → Life
          (points (lookup rec.key table) r)
          rec.doomed
          (s.pins r - 1)
          (if rec.use_count - 1 == 0 && rec.doomed then s.claims r + 1 else s.claims r)
  unpinned-Life lt = let (count, life) = status_at s inv r live in rw count (Life-unpin life lt)

  -- No entry of the table leads to a claimed recording.
  claimed_unlisted : (k : Bytes) → lookup k table ≡ some r → 0 < s.claims r → ⊥
  claimed_unlisted k at_r lt =
      let (off, _, _) = Life-claimed (status_at s inv r live).1 lt in
      let on = points_self r (own_key s inv k r at_r live) in absurd (cc)

  -- A start that failed dooms its recording, which a stop may have taken out before.
  pub doomed-Inv :
      0 < s.pins r
      → Inv (record s {
        reg = record (s.reg) {
          table = unlink rec.key r (lookup rec.key table) table;
          heap = write heap r (some (record rec { doomed = true }));
        };
      })
  doomed-Inv lt = elim (Bool-cases (points (lookup rec.key table) r)) [
    | inl on ↦
        let at_r = points_at r (lookup rec.key table) on in
        rw (at_r, ==_refl r) (unlisted_doomed-Inv s inv rec.key r at_r live lt)
    | inr off ↦ rw (unlink_off rec.key r (lookup rec.key table) table off) (record {
      keyed = keyed-write (record rec { doomed = true }) refl;
      distinct = inv.distinct;
      status =
          at_and_off
            (λ q.
              StatusOf table q (write heap r (some (record rec { doomed = true })) q) (s.pins q)
                (s.claims q))
            r
            (let (count, life) = status_at s inv r live in
              rw (==_refl r) (count, rw off (Life-doom life lt)))
            (λ q ne. rw ne (inv.status q));
    })
  ]

  -- A release drops one pin; the last one on a doomed recording makes its holder the owner.
  pub unpinned-Inv :
      0 < s.pins r
      → Inv (record s {
        reg = record (s.reg) {
          heap = write heap r (some (record rec { use_count = rec.use_count - 1 }));
        };
        pins = drop_one s.pins r;
        claims = bump_when (rec.use_count - 1 == 0 && rec.doomed) s.claims r;
      })
  unpinned-Inv lt = record {
    keyed = keyed-write (record rec { use_count = rec.use_count - 1 }) refl;
    distinct = inv.distinct;
    status =
        at_and_off
          (λ q.
            StatusOf table q (write heap r (some (record rec { use_count = rec.use_count - 1 })) q)
              (drop_one s.pins r q) (bump_when (rec.use_count - 1 == 0 && rec.doomed) s.claims r q))
          r
          (rw (==_refl r, bump_when_self (rec.use_count - 1 == 0 && rec.doomed))
            (ap (λ n. n - 1) (status_at s inv r live).0, unpinned-Life lt))
          (λ q ne. rw (ne, bump_when_off _ r q ne) (inv.status q));
  }

  -- The owner's teardown frees the recording.
  pub freed-Inv :
      (effects : List Effect)
      → 0 < s.claims r
      → Inv (record s {
        reg = record (s.reg) { heap = write heap r none; effects = effects };
        claims = drop_one s.claims r;
      })
  freed-Inv effects lt = record {
    keyed = λ k.
        at_and_off
          (λ q.
            lookup k table ≡ some q
            → (rec' : Recording) × (write heap r none q ≡ some rec') × (rec'.key ≡ k))
          r (λ at_r. absurd (claimed_unlisted k at_r lt)) (λ q ne at_q. rw ne (inv.keyed k q at_q));
    distinct = inv.distinct;
    status =
        at_and_off (λ q. StatusOf table q (write heap r none q) (s.pins q) (drop_one s.claims r q))
          r
          (let (_, none_pinned, one) = Life-claimed (status_at s inv r live).1 lt in
            rw (==_refl r) (none_pinned, omega arith))
          (λ q ne. rw ne (inv.status q));
  }

-- A start inserts a fresh recording, pinned by itself, under a key that has no entry.
pub started-Inv :
    (s : System) (r : ℕ) (key uuid : Bytes)
    → Inv s
    → s.reg.heap r ≡ none
    → lookup key s.reg.table ≡ none
    → Inv (record s {
      reg = put_recording r (fresh_recording key uuid) s.reg.table s.reg;
      pins = bump s.pins r;
    })
started-Inv s r key uuid inv vacant no_entry = record {
  keyed = λ k.
      at_and_off
        (λ q.
          lookup k (insert key r table) ≡ some q
          → (rec' : Recording) × (write heap r (some (fresh_recording key uuid)) q ≡ some rec')
            × (rec'.key ≡ k))
        r (λ at_r. (fresh_recording key uuid, rw (==_refl r), new_key k at_r))
        (λ q ne at_q. rw ne (inv.keyed k q (old_entry k q ne at_q)));
  distinct = insert-Distinct key r table inv.distinct;
  status =
      at_and_off
        (λ q.
          StatusOf (insert key r table) q (write heap r (some (fresh_recording key uuid)) q)
            (bump s.pins r q) (s.claims q))
        r
        (let (p, c) = rw vacant at (inv.status r) in
          rw (==_refl r) (
            omega arith,
            listed (points_self r (rw (lookup-insert key key r table, equal_refl key))) refl c,
          ))
        (λ q ne. rw ne (insert-StatusOf table key r q (heap q) _ _ no_entry ne (inv.status q)));
}
  where
    open s.reg use {table, heap}

    old_entry :
        (k : Bytes) (q : ℕ)
        → (q == r) ≡ false
        → lookup k (insert key r table) ≡ some q
        → lookup k table ≡ some q
    old_entry k q ne at_q = let law = lookup-insert key k r table in ground (arith)

    new_key : (k : Bytes) → lookup k (insert key r table) ≡ some r → key ≡ k
    new_key k at_r = elim (Bool-cases (equal key k)) [
      | inl same ↦ (equal_iff key k).0 same
      | inr other ↦
          let e : lookup k table ≡ some r =
            (let law = lookup-insert key k r table in ground (arith)) in
          let (rec', there, _) = inv.keyed k r e in absurd (cc)
    ]
