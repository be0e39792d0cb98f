-- ===== src/App/Load.antt =====
-- What `mod_siprec_load` leaves of the configuration of mod_siprec.c.
use mod_siprec.App.Initial.{no_servers-Holds}
use mod_siprec.Config.Chains.{load_recording_servers-chain, usable}
use mod_siprec.Config.Pools.{Servers, finished}
use mod_siprec.G711.{Codebook, alaw_ref, g711_init, l16_to_alaw, l16_to_ulaw, ulaw_ref}
use mod_siprec.G711.Tables.{g711_init-tables}
use mod_siprec.Start.Snapshot.{snapshot, snapshot-same}
use mod_siprec.Base.{
  Bool, Bytes, List, Option, [], ap, codes, false, lookup, none, refl, some, true, ℕ, ◌<◌, ◌∙◌, ◌∷◌,
  ◌≡◌,
}
use mod_siprec.App.{Module, applications, load, no_recordings, no_servers}
use mod_siprec.Config.{Element, Readers, load_recording_servers}
use mod_siprec.Config.Pools.Loading.{Holds, load_pooled_servers-Holds, with_pool}

-- Nothing is registered or allocated any more.
abbrev pub Undone : Module → Type 0
Undone m =
    (m.servers.hash ≡ none)
    × ((p : ℕ) → m.servers.memory p ≡ none)
    × (m.recordings ≡ none)
    × (m.applications ≡ [])

-- What a load gives, by whether the settings and the file can be parsed.
abbrev pub LoadOutcome :
    Readers → (ℕ → Bool) → Bool → Option (List Element) → Module → Bool → Type 0
LoadOutcome readers granted true (some elements) m ok =
    (ok ≡ true)
    × Holds m.servers (load_recording_servers readers (with_pool granted 0 elements) [])
    × ((name : Bytes)
        → snapshot name m.servers ≡ finished (usable readers name (with_pool granted 0 elements)))
    × (m.recordings ≡ some no_recordings)
    × (m.applications
        ≡ codes "siprec" ∷ codes "siprec_pause" ∷ codes "siprec_resume" ∷ codes "siprec_stop" ∷ [])
LoadOutcome readers granted true none m ok = (ok ≡ false) × Undone m
LoadOutcome readers granted false file m ok = (ok ≡ false) × Undone m

failed : Codebook → Module
failed book = record {
  book = g711_init book;
  servers = record no_servers { hash = none };
  recordings = none;
  applications = [];
}

-- What a start finds in a memory that holds the chains of some elements.
found-usable :
    (readers : Readers) (elements : List Element) {s : Servers} (name : Bytes)
    → Holds s (load_recording_servers readers elements [])
    → snapshot name s ≡ finished (usable readers name elements)
unfolding lookup
found-usable readers elements name h =
    snapshot-same name h ∙ ap finished (load_recording_servers-chain readers name elements [])

-- With the tables as `siprec_g711_init` leaves them.
pub loaded-LoadOutcome :
    (readers : Readers) (granted : ℕ → Bool) (book : Codebook) (settings : Bool)
    (file : Option (List Element))
    → (m : Module) × (ok : Bool) × (load readers granted settings file book ≡ finished (m, ok))
      × (m.book ≡ g711_init book)
      × LoadOutcome readers granted settings file m ok
unfolding load failed
loaded-LoadOutcome readers granted book true (some elements) =
    let (s, run, h) = load_pooled_servers-Holds readers granted elements no_servers-Holds in
    (
      record {
        book = g711_init book;
        servers = s;
        recordings = some no_recordings;
        applications = applications;
      },
      true,
      rw run refl,
      refl,
      (refl, h, λ name. found-usable readers _ name h, refl, refl),
    )
loaded-LoadOutcome readers granted book true none =
    (failed book, false, refl, refl, (refl, (refl, λ p. refl, refl, refl)))
loaded-LoadOutcome readers granted book false file =
    (failed book, false, refl, refl, (refl, (refl, λ p. refl, refl, refl)))

-- `mod_siprec_load`, where the tables of the encoders are not built yet, comes to an end without
-- the use of a destroyed pool, and then the tables give the reference encoders' codes for every
-- 16-bit sample. Where the settings and the file can be parsed it succeeds: the memory holds the
-- chains of the file's elements for which a pool was given, a start finds under every name exactly
-- the servers of that name without a configuration error, no recording is there, and the
-- applications siprec, siprec_pause, siprec_resume and siprec_stop are registered. Otherwise it
-- fails, and no pool, hash or application is left.
pub load-LoadOutcome :
    (readers : Readers) (granted : ℕ → Bool) (book : Codebook) (settings : Bool)
    (file : Option (List Element))
    → book.built ≡ false
    → (m : Module) × (ok : Bool) × (load readers granted settings file book ≡ finished (m, ok))
      × ((pcm : ℕ)
          → pcm < 65536
          → (l16_to_ulaw m.book pcm ≡ ulaw_ref pcm) × (l16_to_alaw m.book pcm ≡ alaw_ref pcm))
      × LoadOutcome readers granted settings file m ok
load-LoadOutcome readers granted book settings file blank =
    let (m, ok, run, tables, outcome) = loaded-LoadOutcome readers granted book settings file in
    (
      m,
      ok,
      run,
      λ pcm lt. let (u, a, again) = g711_init-tables book pcm blank lt in rw tables (u, a),
      outcome,
    )
