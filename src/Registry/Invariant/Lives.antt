-- ===== src/Registry/Invariant/Lives.antt =====
-- How the life of one recording goes on under each operation.
use mod_siprec.Base.{
  ==_refl, Bool, Bool-cases, Option, arith, false, if◌then◌else◌, inl, inr, refl, some, true, ℕ,
  ◌&&◌, ◌+◌, ◌-◌, ◌<◌, ◌==◌, ◌≡◌,
}
use mod_siprec.Registry.Invariant.{Life, doomed_pinned, listed, owned, points}

-- What a life is at the recording's own entry, and after that entry is gone.
pub Life-unlist :
    {entry doomed : Bool} {p c : ℕ}
    → Life entry doomed p c
    → entry ≡ true
    → p ≡ 0
    → Life false doomed p (c + 1)
Life-unlist (listed e d z) at_entry none_pinned = owned refl none_pinned (omega arith)
Life-unlist (doomed_pinned e d lt z) at_entry none_pinned = absurd (cc)
Life-unlist (owned e z o) at_entry none_pinned = absurd (cc)

pub Life-doom :
    {entry doomed : Bool} {p c : ℕ} → Life entry doomed p c → 0 < p → Life false true p c
Life-doom (listed e d z) lt = doomed_pinned refl refl lt z
Life-doom (doomed_pinned e d lt z) _ = doomed_pinned refl refl lt z
Life-doom (owned e z o) lt = absurd (omega arith)

pub Life-pin :
    {entry doomed : Bool} {p c : ℕ}
    → Life entry doomed p c
    → entry ≡ true
    → Life entry doomed (p + 1) c
Life-pin (listed e d z) at_entry = listed e d z
Life-pin (doomed_pinned e d lt z) at_entry = absurd (cc)
Life-pin (owned e z o) at_entry = absurd (cc)

-- A dropped pin: the last pin on a doomed recording makes its holder the owner.
pub Life-unpin :
    {entry doomed : Bool} {p c : ℕ}
    → Life entry doomed p c
    → 0 < p
    → Life entry doomed (p - 1) (if p - 1 == 0 && doomed then c + 1 else c)
Life-unpin {entry} {doomed} {p} (listed e d z) lt =
    let alive : (p - 1 == 0 && doomed) ≡ false = ground arith in rw alive (listed e d z)
Life-unpin {entry} {doomed} {p} (doomed_pinned e d _ z) lt = elim (Bool-cases (p - 1 == 0)) [
  | inl last ↦
      let retire : (p - 1 == 0 && doomed) ≡ true = ground arith in
      rw retire (owned e (ground arith) (omega arith))
  | inr more ↦
      let alive : (p - 1 == 0 && doomed) ≡ false = ground arith in
      rw alive (doomed_pinned e d (ground arith) z)
]
Life-unpin (owned e z o) lt = absurd (omega arith)

pub points_self : (r : ℕ) {o : Option ℕ} → o ≡ some r → points o r ≡ true
points_self r e = rw e (==_refl r)

-- A claim is on a recording that is out of the table and has no pins, and it is the only one.
pub Life-claimed :
    {entry doomed : Bool} {p c : ℕ}
    → Life entry doomed p c
    → 0 < c
    → (entry ≡ false) × (p ≡ 0) × (c ≡ 1)
Life-claimed (listed e d z) lt = absurd (omega arith)
Life-claimed (doomed_pinned e d _ z) lt = absurd (omega arith)
Life-claimed (owned e z o) lt = (e, z, o)
