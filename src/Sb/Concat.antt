-- ===== src/Sb/Concat.antt =====
-- The buffer as a builder: what any sequence of its operations hands over is the concatenation of
-- the pieces, or nothing.
use mod_siprec.Base.{
  Bool, Bool-cases, Bytes, List, Option, [], all, ap, append-nil, append_assoc, arith, inl, inr,
  length, length-append, none, refl, some, sym, true, ℕ, ◌++◌, ◌+◌, ◌<◌, ◌∙◌, ◌∷◌, ◌≡◌, ◌≢◌, ◌≤◌,
}
use mod_siprec.Sb.{Sb, max_cap, sb_append, sb_appendf, sb_init, sb_take, text_of}
use mod_siprec.Sb.Reserve.{IsValid}
use mod_siprec.Sb.Append.{Outcome, Refuses, failed, sb_append-Outcome, sb_appendf-Outcome, wrote}

-- One call of `sb_append` or of `sb_appendf`, with the text that it writes.
pub data Op : Type 0 where
  raw formatted : Bytes → Op

abbrev pub piece : Op → Bytes
piece (raw s) = s
piece (formatted s) = s

abbrev pub concat : List Op → Bytes
concat [] = []
concat (op ∷ ops) = piece op ++ concat ops

pub concat-append : (xs ys : List Op) → concat (xs ++ ys) ≡ concat xs ++ concat ys
concat-append [] ys = refl
concat-append (op ∷ xs) ys =
    rw (concat-append xs ys) (sym (append_assoc (piece op) (concat xs) (concat ys)))

sb_init-IsValid : IsValid sb_init
unfolding sb_init
sb_init-IsValid = record { measured = refl; room = inl refl; fits = inl refl; allocated = inl refl }

module _ (realloc : ℕ → ℕ → Bool) where
  -- `f` is meant to write `t`, and does what `Outcome` says.
  abbrev pub Writes : (Sb → Sb) → Bytes → Type 0
  Writes f t = (sb : Sb) → IsValid sb → Outcome realloc sb t (f sb)

  abbrev pub apply : Op → Sb → Sb
  apply (raw s) = sb_append realloc s
  apply (formatted s) = sb_appendf realloc s

  abbrev pub run : List Op → Sb → Sb
  run [] sb = sb
  run (op ∷ ops) sb = run ops (apply op sb)

  Outcome-trans :
      {sb new last : Sb} (s t : Bytes)
      → Outcome realloc sb s new
      → Outcome realloc new t last
      → Outcome realloc sb (s ++ t) last
  Outcome-trans {sb} s t (wrote clean v ok text null) (wrote clean' v' ok' text' null') =
      wrote clean v' ok' (text' ∙ ap (λ x. x ++ t) text ∙ append_assoc (text_of sb.text) s t)
        (λ e. let (e1, e2) = null' e in let (e3, e4) = null e1 in (e3, rw (e2, e4)))
  Outcome-trans {sb} s t (wrote clean v ok text null) (failed v' bad (inl latched)) = absurd (cc)
  Outcome-trans {sb} s t (wrote clean v ok text null) (failed v' bad (inr (inl long))) =
      failed v' bad (
        inr (
          inl
            (omega (arith, ap length text, length-append (text_of sb.text) s, length-append s t))))
  Outcome-trans s t (wrote clean v ok text null) (failed v' bad (inr (inr no_room))) =
      failed v' bad (inr (inr no_room))
  Outcome-trans s t (failed v bad cause) (wrote clean' v' ok' text' null') = absurd (cc)
  Outcome-trans {sb} s t (failed v bad (inl latched)) (failed v' bad' cause') =
      failed v' bad' (inl latched)
  Outcome-trans {sb} s t (failed v bad (inr (inl long))) (failed v' bad' cause') =
      failed v' bad' (inr (inl (omega (arith, length-append s t))))
  Outcome-trans s t (failed v bad (inr (inr no_room))) (failed v' bad' cause') =
      failed v' bad' (inr (inr no_room))

  Outcome-IsValid : {sb new : Sb} {t : Bytes} → Outcome realloc sb t new → IsValid new
  Outcome-IsValid (wrote clean v ok text null) = v
  Outcome-IsValid (failed v bad cause) = v

  pub Writes-seq :
      {f g : Sb → Sb} (s t : Bytes) → Writes f s → Writes g t → Writes (λ sb. g (f sb)) (s ++ t)
  Writes-seq {f} {g} s t first second sb v =
      let o = first sb v in Outcome-trans s t o (second (f sb) (Outcome-IsValid o))

  -- Nothing is written, and nothing changes.
  pub Writes-skip : Writes (λ sb. sb) []
  Writes-skip sb v = elim (Bool-cases sb.err) [
    | inl latched ↦ failed v latched (inl latched)
    | inr clean ↦ wrote clean v clean (sym (append-nil _)) (λ e. (e, refl))
  ]

  apply-Writes : (op : Op) → Writes (apply op) (piece op)
  apply-Writes (raw s) = sb_append-Outcome realloc s
  apply-Writes (formatted s) = sb_appendf-Outcome realloc s

  pub run-Writes : (ops : List Op) → Writes (run ops) (concat ops)
  run-Writes [] = Writes-skip
  run-Writes (op ∷ ops) =
      Writes-seq {f = apply op} {g = run ops} (piece op) (concat ops) (apply-Writes op)
        (run-Writes ops)

  -- What is handed over in the end: the text written, or NULL if nothing was, if it passes the
  -- ceiling with its NUL, or if an allocation failed.
  pub data Taken (t : Bytes) : Option Bytes → Type 0 where
    whole : Taken t (some t)
    nothing : t ≡ [] → Taken t none
    too_long : max_cap < length t + 1 → Taken t none
    out_of_memory : Refuses realloc → Taken t none

  taken :
      {t : Bytes} (o : Option Bytes)
      → text_of o ≡ t
      → (o ≡ none → ◌≡◌ {A = Option Bytes} none none × (t ≡ []))
      → Taken t o
  taken none e null = nothing (null refl).1
  taken (some s) e null = rw e whole

  take-Outcome : (t : Bytes) (sb : Sb) → Outcome realloc sb_init t sb → Taken t (sb_take sb)
  unfolding sb_take sb_init
  take-Outcome t sb (wrote clean v ok text null) = rw (ok, sb_take) (taken sb.text text null)
  take-Outcome t sb (failed v bad (inl latched)) = absurd (cc)
  take-Outcome t sb (failed v bad (inr (inl long))) = rw (bad, sb_take) (too_long (omega arith))
  take-Outcome t sb (failed v bad (inr (inr no_room))) = rw (bad, sb_take) (out_of_memory no_room)

  pub take-Writes : {f : Sb → Sb} (t : Bytes) → Writes f t → Taken t (sb_take (f sb_init))
  take-Writes {f} t w = take-Outcome t (f sb_init) (w sb_init sb_init-IsValid)

  -- Whatever calls are made on a fresh buffer, and whatever the allocator does: `sb_take` hands
  -- over exactly the concatenation of the pieces, or NULL, and NULL only if there was nothing to
  -- write, the text with its NUL passes 64 MB, or an allocation failed.
  pub sb_take-run : (ops : List Op) → Taken (concat ops) (sb_take (run ops sb_init))
  sb_take-run ops = take-Writes {f = run ops} (concat ops) (run-Writes ops)

Taken-granted :
    (realloc : ℕ → ℕ → Bool) (t : Bytes) {o : Option Bytes}
    → ((k size : ℕ) → realloc k size ≡ true)
    → t ≢ []
    → length t + 1 ≤ max_cap
    → Taken realloc t o
    → o ≡ some t
Taken-granted realloc t all ne le whole = refl
Taken-granted realloc t all ne le (nothing e) = absurd (ne e)
Taken-granted realloc t all ne le (too_long lt) = absurd (omega arith)
Taken-granted realloc t all ne le (out_of_memory (k, size, e)) = cc (e, all k size)

-- With an allocator that grants every call, a text that is not empty and fits under the ceiling is
-- handed over in full.
pub take-granted :
    (realloc : ℕ → ℕ → Bool) {f : Sb → Sb} (t : Bytes)
    → ((k size : ℕ) → realloc k size ≡ true)
    → t ≢ []
    → length t + 1 ≤ max_cap
    → Writes realloc f t
    → sb_take (f sb_init) ≡ some t
take-granted realloc t all ne le w = Taken-granted realloc t all ne le (take-Writes realloc t w)
