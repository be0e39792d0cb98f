-- ===== src/Metadata/Document/Built.antt =====
-- Which options `siprec_metadata_build` accepts, and the document that it hands over.
use mod_siprec.Base.{
  All, All-of_all, Bool, Bool-cases, Bytes, List, Option, [], all, ap, arith, false, inl, inr, leb,
  length, none, not, refl, some, true, ℕ, ◌++◌, ◌<◌, ◌==◌, ◌↔◌, ◌∷◌, ◌≡◌, ◌≢◌,
}
use mod_siprec.Sb.Concat.{Taken, sb_take-run}
use mod_siprec.Metadata.Aor.{is_set}
use mod_siprec.Metadata.Document.{
  Options, Participant, Stream, build_calls, metadata_build, participant_ok, prolog, stream_ok,
  validate_options,
}
use mod_siprec.Metadata.Document.Tree.{document, print}
use mod_siprec.Metadata.Document.Render.{concat-build_calls}

-- The string is there and not empty.
abbrev pub IsGiven : Option Bytes → Type 0
IsGiven o = (s : Bytes) × (o ≡ some s) × (s ≢ [])

pub record IsBuildable (opts : Options) : Type 0 where
  pub session : IsGiven opts.session_id
  pub peopled : opts.participants ≢ []
  pub identified :
      All (λ (p : Participant). IsGiven p.participant_id × IsGiven p.aor) opts.participants
  pub attributed :
      All
        (λ (s : Stream). IsGiven s.stream_id × (s.participant_idx < length opts.participants))
        opts.streams

is_set-IsGiven : (o : Option Bytes) → is_set o ≡ true → IsGiven o
is_set-IsGiven none h = cc
is_set-IsGiven (some []) h = cc
is_set-IsGiven (some (c ∷ s)) h = (c ∷ s, refl, λ e. cc)

IsGiven-is_set : (o : Option Bytes) → IsGiven o → is_set o ≡ true
IsGiven-is_set none (s, e, ne) = cc
IsGiven-is_set (some []) (s, e, ne) = absurd (ne (cc))
IsGiven-is_set (some (c ∷ t)) g = refl

all_of_All {ℓ κ} :
    {A : Type ℓ} (P : A → Type κ) (p : A → Bool)
    → ((a : A) → P a → p a ≡ true)
    → (xs : List A) → All P xs
    → all p xs ≡ true
all_of_All P p sound [] h = refl
all_of_All P p sound (x ∷ xs) h = ground (arith, sound x h.0, all_of_All P p sound xs h.1)

length-ne_zero {ℓ} : {A : Type ℓ} (xs : List A) → xs ≢ [] → (length xs == 0) ≡ false
length-ne_zero [] ne = absurd (ne refl)
length-ne_zero (x ∷ xs) ne = ground arith

stream_in_range : (i n : ℕ) → i < n → not (leb n i) ≡ true
stream_in_range i n lt = ground arith

module _ (opts : Options) where
  valid-IsBuildable : validate_options opts ≡ true → IsBuildable opts
  unfolding validate_options
  valid-IsBuildable h = record {
    session = is_set-IsGiven opts.session_id (ground arith);
    peopled = λ e. ground (arith, ap (length {A = Participant}) e);
    identified =
        All-of_all _ participant_ok
          (λ p q. (is_set-IsGiven _ (ground arith), is_set-IsGiven _ (ground arith)))
          opts.participants (ground arith);
    attributed =
        All-of_all _ (stream_ok (length opts.participants))
          (λ s q. (is_set-IsGiven _ (ground arith), ground arith)) opts.streams (ground arith);
  }

  IsBuildable-valid : IsBuildable opts → validate_options opts ≡ true
  unfolding validate_options
  IsBuildable-valid b =
      rw
        (
          IsGiven-is_set opts.session_id b.session,
          length-ne_zero opts.participants b.peopled,
          participants_ok,
        )
        streams_ok
    where
      participants_ok : all participant_ok opts.participants ≡ true
      participants_ok =
          all_of_All _ participant_ok
            (λ p q. rw (IsGiven-is_set p.participant_id q.0, IsGiven-is_set p.aor q.1))
            opts.participants b.identified

      streams_ok : all (stream_ok (length opts.participants)) opts.streams ≡ true
      streams_ok =
          all_of_All _ (stream_ok (length opts.participants))
            (λ s q. rw (IsGiven-is_set s.stream_id q.0) (stream_in_range _ _ q.1)) opts.streams
            b.attributed

  -- `validate_options` accepts exactly options with a session ID, at least one participant, an ID
  -- and an address for each participant, and an ID and a participant in range for each stream.
  pub validate_options_iff : (validate_options opts ≡ true) ↔ IsBuildable opts
  validate_options_iff = (valid-IsBuildable, IsBuildable-valid)

  module _ (realloc : ℕ → ℕ → Bool) where
    -- From buildable options the build gives the declaration and the printed tree of the document,
    -- or NULL because that is too long or an allocation failed; from others it gives NULL.
    pub metadata_build-document :
        (IsBuildable opts
          → Taken realloc (prolog ++ print 0 (document opts)) (metadata_build realloc opts))
        × (¬ IsBuildable opts → metadata_build realloc opts ≡ none)
    unfolding metadata_build
    metadata_build-document = (
      λ b.
          rw (IsBuildable-valid b, ← concat-build_calls opts)
            (sb_take-run realloc (build_calls opts)),
      λ nb. elim (Bool-cases (validate_options opts)) [
        | inl valid ↦ absurd (nb (valid-IsBuildable valid))
        | inr invalid ↦ rw invalid
      ],
    )
