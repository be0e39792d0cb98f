-- ===== src/Sb/Reserve.antt =====
-- The capacity doubling of siprec_sb.c: it reaches what is wanted, and never passes the ceiling.
use mod_siprec.Base.{
  Bool, Bool-cases, arith, false, if◌then◌else◌, inl, inr, leb, leb→le, length, ltb, none, refl,
  some, suc, true, zero, ℕ, ◌%◌, ◌*◌, ◌+◌, ◌<◌, ◌==◌, ◌≡◌, ◌≢◌, ◌≤◌, ◌⊎◌,
}
use mod_siprec.Sb.{Sb, double, double_fuel, max_cap, sb_reserve, size_mod, text_of}

-- `n` doublings of the capacity give the ceiling.
abbrev pub Doubles : ℕ → ℕ → Type 0
Doubles zero cap = cap ≡ max_cap
Doubles (suc n) cap = Doubles n (cap * 2)

-- A buffer that the operations of this file can be applied to.
pub record IsValid (sb : Sb) : Type 0 where
  pub measured : sb.len ≡ length (text_of sb.text)
  pub room : (sb.cap ≡ 0) ⊎ ((n : ℕ) × (n ≤ double_fuel) × Doubles n sb.cap)
  pub fits : (sb.text ≡ none) ⊎ (sb.len + 1 ≤ sb.cap)
  pub allocated : (sb.cap ≡ 0) ⊎ (sb.text ≢ none)

Doubles-le : (n cap : ℕ) → Doubles n cap → cap ≤ max_cap
Doubles-le zero cap d = omega arith
Doubles-le (suc n) cap d = omega (arith, Doubles-le n (cap * 2) d)

-- The loop ends at a capacity that covers what is wanted, within the fuel, and the multiplication
-- never wraps.
double_lem :
    (fuel n cap want : ℕ)
    → n ≤ fuel
    → Doubles n cap
    → want ≤ max_cap
    → (want ≤ double fuel cap want) × ((m : ℕ) × (m ≤ n) × Doubles m (double fuel cap want))
unfolding double
double_lem zero zero cap want le d h = (omega arith, (0, omega arith, d))
double_lem zero (suc n) cap want le d h = absurd (omega arith)
double_lem (suc fuel) zero cap want le d h =
    let stop : ltb cap want ≡ false = ground arith in rw stop (omega arith, (0, omega arith, d))
double_lem (suc fuel) (suc n) cap want le d h = elim (Bool-cases (ltb cap want)) [
  | inl more ↦
      let bound = Doubles-le n (cap * 2) d in
      let (reached, (m, m_le, dm)) = double_lem fuel n (cap * 2) want (omega arith) d h in
      let unwrapped : (cap * 2) % size_mod ≡ cap * 2 = omega arith in
      rw (more, unwrapped) (reached, (m, omega arith, dm))
  | inr enough ↦ rw enough (ground arith, (suc n, omega arith, d))
]

room-Doubles :
    (cap : ℕ)
    → (cap ≡ 0) ⊎ ((n : ℕ) × (n ≤ double_fuel) × Doubles n cap)
    → (n : ℕ) × (n ≤ double_fuel) × Doubles n (if cap == 0 then 256 else cap)
room-Doubles zero r = (18, omega arith, refl)
room-Doubles (suc c) (inl e) = absurd (omega arith)
room-Doubles (suc c) (inr r) = let nonzero : (suc c == 0) ≡ false = ground arith in rw nonzero r

-- A reservation gives room for what is wanted and keeps the text and the error flag, or the
-- allocator has refused and only the flag is set.
pub data Reserved (realloc : ℕ → ℕ → Bool) (sb : Sb) (want : ℕ) : Sb × Bool → Type 0 where
  granted :
      {new : Sb}
      → IsValid new
      → want ≤ new.cap
      → text_of new.text ≡ text_of sb.text
      → new.len ≡ sb.len
      → new.err ≡ sb.err
      → Reserved realloc sb want (new, true)
  refused :
      (size : ℕ)
      → realloc sb.calls size ≡ false
      → Reserved realloc sb want (record sb { err = true; calls = suc sb.calls }, false)

module _ (realloc : ℕ → ℕ → Bool) (sb : Sb) (want : ℕ) (v : IsValid sb) (le : want ≤ max_cap) where
  grown : Sb
  grown = record sb {
    text = some (text_of sb.text);
    cap = double double_fuel (if sb.cap == 0 then 256 else sb.cap) want;
    calls = suc sb.calls;
  }

  grown-IsValid : sb.len < want → IsValid grown × (want ≤ grown.cap)
  unfolding grown
  grown-IsValid lt =
      let (n, n_le, d) = room-Doubles sb.cap v.room in
      let (reached, (m, m_le, dm)) = double_lem double_fuel n _ want n_le d le in
      (
        record {
          measured = v.measured;
          room = inr (m, omega arith, dm);
          fits = inr (omega arith);
          allocated = inr (λ e. cc);
        },
        reached,
      )

  pub sb_reserve-Reserved : sb.len < want → Reserved realloc sb want (sb_reserve realloc sb want)
  unfolding sb_reserve grown
  sb_reserve-Reserved lt = elim (Bool-cases (leb want sb.cap)) [
    | inl enough ↦ rw enough (granted v (leb→le want sb.cap enough) refl refl refl)
    | inr short ↦ elim (Bool-cases (realloc sb.calls grown.cap)) [
      | inl given ↦
          let (valid, room) = grown-IsValid lt in
          rw (short, given) (granted valid room refl refl refl)
      | inr denied ↦ rw (short, denied) (refused grown.cap denied)
    ]
  ]
