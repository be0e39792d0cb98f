-- ===== src/Sb/Append.antt =====
-- `sb_append` and `sb_appendf` of siprec_sb.c on every branch.
use mod_siprec.Base.{
  Bool, Bytes, [], ap, append-nil, arith, false, if_elim, if◌then◌else◌, inl, inr, length,
  length-append, none, not, refl, sym, true, unless_elim, ℕ, ◌++◌, ◌+◌, ◌<◌, ◌==◌, ◌↔◌, ◌∙◌, ◌∷◌,
  ◌≡◌, ◌≤◌, ◌⊎◌,
}
use mod_siprec.Sb.{
  Sb, max_cap, printed_length, put_if, sb_append, sb_appendf, sb_can_grow_by, sb_reserve, text_of,
}
use mod_siprec.Sb.Reserve.{IsValid, Reserved, granted, refused, sb_reserve-Reserved}

-- Some call of the allocator has failed.
abbrev pub Refuses : (ℕ → ℕ → Bool) → Type 0
Refuses realloc = (k : ℕ) × (size : ℕ) × (realloc k size ≡ false)

-- What an operation that is meant to write `t` may do to the buffer `sb`: write exactly `t`
-- behind the text, or latch the error, for one of three causes.
pub data Outcome (realloc : ℕ → ℕ → Bool) (sb : Sb) (t : Bytes) : Sb → Type 0 where
  wrote :
      {new : Sb}
      → sb.err ≡ false
      → IsValid new
      → new.err ≡ false
      → text_of new.text ≡ text_of sb.text ++ t
      → (new.text ≡ none → (sb.text ≡ none) × (t ≡ []))
      → Outcome realloc sb t new
  failed :
      {new : Sb}
      → IsValid new
      → new.err ≡ true
      → (sb.err ≡ true) ⊎ (max_cap < length (text_of sb.text) + length t + 1) ⊎ Refuses realloc
      → Outcome realloc sb t new

module _ (realloc : ℕ → ℕ → Bool) where
  record-err-IsValid :
      (sb : Sb) (n : ℕ) → IsValid sb → IsValid (record sb { err = true; calls = n })
  record-err-IsValid sb n v = record {
    measured = v.measured;
    room = v.room;
    fits = v.fits;
    allocated = v.allocated;
  }

  put-Outcome :
      (sb : Sb) (s : Bytes) {r : Sb × Bool}
      → IsValid sb
      → sb.err ≡ false
      → Reserved realloc sb (sb.len + length s + 1) r
      → Outcome realloc sb s (put_if s r)
  put-Outcome sb s v clean (granted {new} w room same len err) =
      wrote clean
        (record {
          measured =
              omega (arith, len, w.measured, ap length same, length-append (text_of new.text) s);
          room = w.room;
          fits = inr (omega arith);
          allocated = inr (λ e. cc);
        })
        (err ∙ clean) (ap (λ t. t ++ s) same) (λ e. cc)
  put-Outcome sb s v clean (refused size no_room) =
      failed (record-err-IsValid sb _ v) refl (inr (inr (sb.calls, size, no_room)))

  can_grow_iff : (sb : Sb) (n : ℕ) → (sb_can_grow_by sb n ≡ true) ↔ (sb.len + n + 1 ≤ max_cap)
  unfolding sb_can_grow_by
  can_grow_iff sb n = (λ h. ground arith, λ h. ground arith)

  -- The common end of both operations, for a length that is the text's or is refused anyway.
  attempt : Bytes → ℕ → Sb → Sb
  attempt s n sb =
      if not (sb_can_grow_by sb n)
      then record sb { err = true }
      else put_if s (sb_reserve realloc sb (sb.len + n + 1))

  attempt-Outcome :
      (s : Bytes) (n : ℕ) (sb : Sb)
      → (n ≡ length s) ⊎ ((max_cap < n) × (max_cap < length s))
      → IsValid sb
      → sb.err ≡ false
      → Outcome realloc sb s (attempt s n sb)
  unfolding attempt
  attempt-Outcome s n sb same v clean =
      unless_elim (Outcome realloc sb s) (sb_can_grow_by sb n) refuse grow
    where
      refuse : sb_can_grow_by sb n ≡ false → Outcome realloc sb s (record sb { err = true })
      refuse cannot =
          let over : max_cap < sb.len + n + 1 = ground (arith, (can_grow_iff sb n).1) in
          failed (record-err-IsValid sb _ v) refl (inr (inl (omega (arith, v.measured))))

      grow :
          sb_can_grow_by sb n ≡ true
          → Outcome realloc sb s (put_if s (sb_reserve realloc sb (sb.len + n + 1)))
      grow can =
          let room = (can_grow_iff sb n).0 can in
          let e : n ≡ length s = omega arith in
          rw e (
            put-Outcome sb s v clean (
              sb_reserve-Reserved realloc sb (sb.len + length s + 1) v (omega arith) (omega arith)))

  -- `sb_append` writes exactly its bytes or latches the error, and a latched error stays.
  pub sb_append-Outcome :
      (s : Bytes) (sb : Sb) → IsValid sb → Outcome realloc sb s (sb_append realloc s sb)
  unfolding sb_append attempt
  sb_append-Outcome [] sb v =
      if_elim (Outcome realloc sb []) sb.err (λ latched. failed v latched (inl latched))
        λ clean. wrote clean v clean (sym (append-nil _)) (λ e. (e, refl))
  sb_append-Outcome (c ∷ cs) sb v =
      if_elim (Outcome realloc sb (c ∷ cs)) sb.err (λ latched. failed v latched (inl latched))
        λ clean.
          if_elim (Outcome realloc sb (c ∷ cs)) (length (c ∷ cs) == 0) (λ e. absurd (ground arith))
            λ _. attempt-Outcome (c ∷ cs) (length (c ∷ cs)) sb (inl refl) v clean

  -- So does `sb_appendf`, which counts with an `int` and refuses what does not fit into one.
  pub sb_appendf-Outcome :
      (s : Bytes) (sb : Sb) → IsValid sb → Outcome realloc sb s (sb_appendf realloc s sb)
  unfolding sb_appendf attempt
  sb_appendf-Outcome s sb v =
      if_elim (Outcome realloc sb s) sb.err (λ latched. failed v latched (inl latched))
        λ clean. attempt-Outcome s (printed_length s) sb (ground arith) v clean
