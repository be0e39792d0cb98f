-- ===== src/App/Outcomes.antt =====
-- What the start application of mod_siprec.c publishes.
use mod_siprec.Base.{
  Bool-cases, Bytes, List, Option, Option-cases, [], ap, codes, inl, inr, none, refl, some, ℕ, ◌∷◌,
  ◌≡◌, ◌⊎◌,
}
use mod_siprec.App.{
  VarWrite, publish, second_word, siprec_app, start_app, start_checked, start_outcome, start_with,
  start_words, status_word,
}
use mod_siprec.Direction.{World}
use mod_siprec.Leg.{Network}
use mod_siprec.Media.Attach.{Host}
use mod_siprec.Registry.{Registry}
use mod_siprec.Registry.Interleaving.{Reach, System, empty_system}
use mod_siprec.Start.{Status, start_recording_session, status_false, status_inuse, status_success}
use mod_siprec.Start.Begin.{start_recording_session-Begun}
use mod_siprec.Start.Outcome.{Begun}
use mod_siprec.Start.Metadata.{Call}
use mod_siprec.Start.Servers.{Globals}
use mod_siprec.Uri.{Refusal, uri_check}

-- An outcome in a variable: it is cleared, then set, and set as the application's response.
abbrev pub published : Bytes → Bytes → List VarWrite
published var outcome =
    (var, none) ∷ (var, some outcome) ∷ (codes "current_application_response", some outcome) ∷ []

-- An argument without a handle: it cannot be split, has no word, or an empty first one.
pub data Unnamed : Option (List Bytes) → Type 0 where
  unsplit : Unnamed none
  no_word : Unnamed (some [])
  empty_word : (words : List Bytes) → Unnamed (some ([] ∷ words))

-- The URI behind a handle, if there is a word that is not empty.
pub data UriWord : List Bytes → Option Bytes → Type 0 where
  no_more : UriWord [] none
  empty_next : (words : List Bytes) → UriWord ([] ∷ words) none
  next : (c : ℕ) (uri : Bytes) (words : List Bytes) → UriWord ((c ∷ uri) ∷ words) (some (c ∷ uri))

-- The words for what a start comes to.
pub data StartWord : Status → Bytes → Type 0 where
  began : StartWord status_success (codes "success")
  exists : StartWord status_inuse (codes "exists")
  failed : StartWord status_false (codes "failed")

status_word-StartWord : (status : Status) → StartWord status (status_word status)
status_word-StartWord status_success = began
status_word-StartWord status_inuse = exists
status_word-StartWord status_false = failed

second_word-UriWord :
    (word : Bytes) (words : List Bytes) → UriWord words (second_word (word ∷ words))
second_word-UriWord word [] = no_more
second_word-UriWord word ([] ∷ words) = empty_next words
second_word-UriWord word ((c ∷ uri) ∷ words) = next c uri words

module _ (split : Bytes → Option (List Bytes)) (R : Type 0) (world : World) (net : Network)
    (host : Host) (globals : Globals) (call : Call) {s : System}
    (path : Reach world.located empty_system s) where
  -- What the siprec application comes to.
  pub data StartOutcome (text : Bytes) : Registry × List VarWrite → Type 0 where
    no_handle :
        (text ≡ []) ⊎ Unnamed (split text)
        → StartOutcome text (s.reg, published (codes "siprec_start_status") (codes "failed"))
    bad_uri :
        (c : ℕ) (handle uri : Bytes) (words : List Bytes) (why : Refusal)
        → split text ≡ some ((c ∷ handle) ∷ words)
        → UriWord words (some uri)
        → uri_check (some uri) ≡ some why
        → StartOutcome text (s.reg, published (codes "siprec_start_status") (codes "failed"))
    ran :
        (c : ℕ) (handle : Bytes) (words : List Bytes) (srs_uri : Option Bytes) (outcome : Bytes)
        {g : Registry} {status : Status}
        → split text ≡ some ((c ∷ handle) ∷ words)
        → UriWord words srs_uri
        → (srs_uri ≡ none) ⊎ (uri_check srs_uri ≡ none)
        → Begun R net host globals call path (c ∷ handle) srs_uri (g, status)
        → StartWord status outcome
        → StartOutcome text (g, published (codes "siprec_start_status") outcome)

  abbrev Outcomes : Bytes → Option (Registry × Bytes) → Type 0
  Outcomes text o =
      (out : Registry × List VarWrite) × (publish (codes "siprec_start_status") o ≡ some out)
      × StartOutcome text out

  module _ (text : Bytes) (vacant : (r : ℕ) → call.pool ≡ some r → s.reg.heap r ≡ none) where
    run_start :
        (c : ℕ) (handle : Bytes) (words : List Bytes) (srs_uri : Option Bytes)
        → split text ≡ some ((c ∷ handle) ∷ words)
        → UriWord words srs_uri
        → (srs_uri ≡ none) ⊎ (uri_check srs_uri ≡ none)
        → Outcomes text (start_with R world net host globals call none (c ∷ handle) srs_uri s.reg)
    run_start c handle words srs_uri read at_uri safe =
        let ((g, status), e, done) =
          start_recording_session-Begun R net host globals call path (c ∷ handle) srs_uri vacant in
        (
          (g, published (codes "siprec_start_status") (status_word status)),
          ap (λ o. publish (codes "siprec_start_status") (start_outcome o)) e,
          ran c handle words srs_uri (status_word status) read at_uri safe done
              (status_word-StartWord status),
        )

    checked :
        (c : ℕ) (handle : Bytes) (words : List Bytes) (srs_uri : Option Bytes)
        → split text ≡ some ((c ∷ handle) ∷ words)
        → UriWord words srs_uri
        → Outcomes text (start_checked R world net host globals call (c ∷ handle) srs_uri s.reg)
    checked c handle words none read at_uri = run_start c handle words none read at_uri (inl refl)
    checked c handle words (some uri) read at_uri = elim (Option-cases (uri_check (some uri))) [
      | inl safe ↦ rw safe (run_start c handle words (some uri) read at_uri (inr safe))
      | inr (why, unsafe) ↦ rw unsafe (_, refl, bad_uri c handle uri words why read at_uri unsafe)
    ]

    -- Without a name nothing starts, whatever the URI.
    unnamed :
        (srs_uri : Option Bytes)
        → Unnamed (split text)
        → Outcomes text (start_checked R world net host globals call [] srs_uri s.reg)
    unfolding start_recording_session
    unnamed none none_there = elim (Bool-cases globals.src_enabled) [
      | inl on ↦ rw on (_, refl, no_handle (inr none_there))
      | inr off ↦ rw off (_, refl, no_handle (inr none_there))
    ]
    unnamed (some uri) none_there = elim (Option-cases (uri_check (some uri))) [
      | inl safe ↦ elim (Bool-cases globals.src_enabled) [
        | inl on ↦ rw (safe, on) (_, refl, no_handle (inr none_there))
        | inr off ↦ rw (safe, off) (_, refl, no_handle (inr none_there))
      ]
      | inr (why, unsafe) ↦ rw unsafe (_, refl, no_handle (inr none_there))
    ]

    started_words :
        (o : Option (List Bytes))
        → split text ≡ o
        → Outcomes text (start_words split R world net host globals call o s.reg)
    started_words none read = (_, refl, no_handle (inr (rw read unsplit)))
    started_words (some []) read = unnamed none (rw read no_word)
    started_words (some ([] ∷ words)) read =
        unnamed (second_word ([] ∷ words)) (rw read (empty_word words))
    started_words (some ((c ∷ handle) ∷ words)) read =
        checked c handle words (second_word ((c ∷ handle) ∷ words)) read
          (second_word-UriWord (c ∷ handle) words)

  -- In a reachable state, with a memory pool that is not in use, the siprec application comes to an
  -- end without a fault; it clears its variable, sets it to one outcome, and sets the application's
  -- response to the same. Without a handle as the first word of its argument, or with a URI as the
  -- second that the check refuses, that is "failed" and nothing has changed. Otherwise the start
  -- has run under the handle, on no URI or on that one, and the outcome is "success" where it
  -- succeeded, "exists" where a recording is in use and "failed" elsewhere.
  pub siprec_app-StartOutcome :
      (text : Bytes)
      → ((r : ℕ) → call.pool ≡ some r → s.reg.heap r ≡ none)
      → (out : Registry × List VarWrite) × (siprec_app split R world net host globals call text
            s.reg
          ≡ some out)
        × StartOutcome text out
  unfolding siprec_app start_app
  siprec_app-StartOutcome [] vacant = (_, refl, no_handle (inl refl))
  siprec_app-StartOutcome (c ∷ text) vacant =
      started_words (c ∷ text) vacant (split (c ∷ text)) refl
