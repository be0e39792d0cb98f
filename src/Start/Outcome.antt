-- ===== src/Start/Outcome.antt =====
-- What a start of recording_session.c comes to once its servers are known.
use mod_siprec.Base.{
  ==_refl, Bool, Bool-cases, Bytes, List, Option, Option-cases, [], arith, delete, false,
  if◌then◌else◌, inl, inr, lookup, ltb, none, not, refl, some, true, ℕ, ◌<◌, ◌==◌, ◌||◌, ◌∙◌, ◌∷◌,
  ◌≡◌, ◌≢◌, ◌⊎◌,
}
use mod_siprec.Config.{Server}
use mod_siprec.Leg as Leg
use mod_siprec.Leg.{Network}
use mod_siprec.Media as Media
use mod_siprec.Media.Attach.{Host, attach}
use mod_siprec.Registry.{Recording, Registry, bind, fresh_recording, put_recording, recording_key}
use mod_siprec.Registry.Interleaving.{
  Reach, System, bump, empty_system, go, handles, starts, tears_down,
}
use mod_siprec.Registry.Invariant.{empty-Inv}
use mod_siprec.Registry.Invariant.Steps.{Reach-Inv}
use mod_siprec.Start.Servers.{Globals, separate_of}
use mod_siprec.Start.Asked.{
  Answered, Chosen, Dispatched, Streams, attached, dispatch-Dispatched, separate_of-Streams,
}
use mod_siprec.Start.Metadata.{Call}
use mod_siprec.Start.{
  Dispatch, Status, dispatch, finish_start, forked, leg_up, no_leg, start_bound, start_inserted,
  start_resolved, status_false, status_inuse, status_success,
}
use mod_siprec.Start.Finish.{
  Finished, finish_start-Finished, running, stopped_meanwhile, unanswered, unattached,
}
use mod_siprec.Start.Frame.{finish_start-frame}
use mod_siprec.Start.Inserts.{
  apart-of_live, busy_of, flip_apart, insert-in_use, insert-new, insert-stale, teardown-live,
}

-- Why a start is refused before it has done anything.
pub data Refused (globals : Globals) (call : Call) (handle : Bytes) (srs_uri : Option Bytes)
    : Type 0 where
  no_name : handle ≡ [] → Refused globals call handle srs_uri
  disabled : globals.src_enabled ≡ false → Refused globals call handle srs_uri
  no_media : call.media_ready ≡ false → Refused globals call handle srs_uri
  no_pool : call.pool ≡ none → Refused globals call handle srs_uri
  no_server : Chosen globals handle srs_uri [] → Refused globals call handle srs_uri

-- A start that is not refused: its pool and its servers.
pub record Admitted (globals : Globals) (call : Call) (handle : Bytes) (srs_uri : Option Bytes)
    (r : ℕ) (srv : Server) (chain : List Server) : Type 0 where
  pub named : handle ≢ []
  pub enabled : globals.src_enabled ≡ true
  pub ready : call.media_ready ≡ true
  pub pooled : call.pool ≡ some r
  pub served : Chosen globals handle srs_uri (srv ∷ chain)

abbrev made : Call → Bytes → Recording
made call handle = fresh_recording (recording_key handle call.uuid) call.uuid

pub through_gate :
    (refusal : Option (Registry × Status)) {a : Bool} {out result : Option (Registry × Status)}
    → a ≡ true
    → out ≡ result
    → (if not a then refusal else out) ≡ result
through_gate refusal on e = rw on e

-- A recording that a start replaces is freed.
abbrev pub Replaced : Option ℕ → (ℕ → Option Recording) → Type 0
Replaced none heap = Unit
Replaced (some q) heap = heap q ≡ none

-- It is another one than the new one at `r`.
abbrev Apart : Option ℕ → ℕ → Type 0
Apart none r = Unit
Apart (some q) r = (q == r) ≡ false

still-Replaced :
    (located : Bytes → Bool) (uuid : Bytes) {R : Type 0} (d : Dispatch R) (o : Option ℕ) (r : ℕ)
    (g : Registry) (result : Registry × Status)
    → Apart o r
    → Replaced o g.heap
    → finish_start located r uuid d g ≡ some result
    → Replaced o result.0.heap
still-Replaced located uuid d none r g result ne gone e = tt
still-Replaced located uuid d (some q) r g result ne gone e =
    finish_start-frame located r q ne uuid d g result e ∙ gone

one_pin :
    {located : Bytes → Bool} (s : System) (r : ℕ)
    → Reach located empty_system s
    → s.reg.heap r ≡ none
    → bump s.pins r r ≡ 1
one_pin s r path vacant =
    let (z, _) = rw vacant at ((Reach-Inv empty-Inv path).status r) in rw (==_refl r) (omega arith)

module _ (R : Type 0) {located : Bytes → Bool} (net : Network) (host : Host) (globals : Globals)
    (call : Call) {s : System} (path : Reach located empty_system s) where
  -- How a start ends that no other thread interferes with.
  pub data Begun (handle : Bytes) (srs_uri : Option Bytes) : Registry × Status → Type 0 where
    refused : Refused globals call handle srs_uri → Begun handle srs_uri (s.reg, status_false)
    duplicate :
        (q : ℕ) (old : Recording) (r : ℕ) (srv : Server) (chain : List Server)
        → Admitted globals call handle srs_uri r srv chain
        → lookup (recording_key handle call.uuid) s.reg.table ≡ some q
        → s.reg.heap q ≡ some old
        → (0 < old.use_count) ⊎ (old.leg_gone ≡ false)
        → Begun handle srs_uri (s.reg, status_inuse)
    failed :
        (r : ℕ) (srv : Server) (chain : List Server) {g : Registry}
        → Admitted globals call handle srs_uri r srv chain
        → g.heap r ≡ none
        → Replaced (lookup (recording_key handle call.uuid) s.reg.table) g.heap
        → Begun handle srs_uri (g, status_false)
    recording :
        (r : ℕ) (srv : Server) (chain : List Server) (asked : Bool) (ctx : Leg.Ctx)
        (media : Media.Ctx R) {g : Registry}
        → Admitted globals call handle srs_uri r srv chain
        → Streams globals.separate_streams srv.separate_streams asked
        → Answered net call asked (srv ∷ chain) ctx
        → (attach host asked ctx.negotiated).0 ≡ some media
        → lookup (recording_key handle call.uuid) g.table ≡ some r
        → g.heap r
          ≡ some (record (fresh_recording (recording_key handle call.uuid) call.uuid) {
            use_count = 0;
            leg = some ctx.recording_uuid;
            forked = true;
          })
        → Replaced (lookup (recording_key handle call.uuid) s.reg.table) g.heap
        → Begun handle srs_uri (g, status_success)

  module _ (handle : Bytes) (srs_uri : Option Bytes) (r : ℕ) (srv : Server) (chain : List Server)
      (let_in : Admitted globals call handle srs_uri r srv chain) where
    ended :
        {t : System} (path' : Reach located empty_system t)
        (live : t.reg.heap r ≡ some (made call handle)) (one : t.pins r ≡ 1) (d : Dispatch R)
        → Dispatched net host call
            (separate_of globals.separate_streams srv.separate_streams)
            (srv ∷ chain)
            d
        → (result : Registry × Status)
        → Replaced (lookup (recording_key handle call.uuid) s.reg.table) result.0.heap
        → Finished path' call.uuid r (made call handle) live one d result
        → Begun handle srs_uri result
    ended path' live one no_leg e (g, status_false) gone (unanswered done) =
        failed r srv chain let_in done.freed gone
    ended path' live one (leg_up ctx) e (g, status_false) gone (unattached done) =
        failed r srv chain let_in done.freed gone
    ended path' live one (forked ctx media) e (g, status_false) gone
          (stopped_meanwhile doomed freed retired) =
        failed r srv chain let_in freed gone
    ended path' live one (forked ctx media) (attached up e) (g, status_success) gone
          (running alive at_r there quiet) =
        recording r srv chain (separate_of globals.separate_streams srv.separate_streams) ctx media
          let_in (separate_of-Streams globals.separate_streams srv.separate_streams) up e at_r there
          gone
    ended path' live one no_leg e (g, status_success) gone done = elim done [ ]
    ended path' live one no_leg e (g, status_inuse) gone done = elim done [ ]
    ended path' live one (leg_up ctx) e (g, status_success) gone done = elim done [ ]
    ended path' live one (leg_up ctx) e (g, status_inuse) gone done = elim done [ ]
    ended path' live one (forked ctx media) e (g, status_inuse) gone done = elim done [ ]

    -- With the recording inserted and any stale one torn down.
    bound-Begun :
        {t : System} (path' : Reach located empty_system t)
        → t.reg.heap r ≡ some (made call handle)
        → t.pins r ≡ 1
        → Apart (lookup (recording_key handle call.uuid) s.reg.table) r
        → Replaced (lookup (recording_key handle call.uuid) s.reg.table) t.reg.heap
        → (result : Registry × Status) × (start_bound R located net host globals call r
              (separate_of globals.separate_streams srv.separate_streams)
              (srv ∷ chain)
              t.reg
            ≡ some result)
          × Begun handle srs_uri result
    bound-Begun {t} path' live one apart gone =
        let path2 = go path' (handles (bind call.uuid)) in
        let d =
          dispatch net host call (separate_of globals.separate_streams srv.separate_streams)
            (srv ∷ chain) in
        let dispatched =
          dispatch-Dispatched net host call
            (separate_of globals.separate_streams srv.separate_streams) (srv ∷ chain) in
        let (result, e, done) =
          finish_start-Finished path2 call.uuid r (made call handle) live one d in
        let still =
          still-Replaced located call.uuid d (lookup (recording_key handle call.uuid) s.reg.table) r
            (record (t.reg) { effects = bind call.uuid ∷ t.reg.effects }) result apart gone e in
        (result, e, ended path2 live one d dispatched result still done)

    -- Nothing is under the key.
    new-Begun :
        s.reg.heap r ≡ none
        → lookup (recording_key handle call.uuid) s.reg.table ≡ none
        → (result : Registry × Status) × (start_resolved R located net host globals call r handle
              (srv ∷ chain)
              s.reg
            ≡ some result)
          × Begun handle srs_uri result
    new-Begun vacant missing =
        let e = insert-new r (recording_key handle call.uuid) call.uuid s.reg missing in
        let (result, out, done) =
          bound-Begun (go path (starts r (recording_key handle call.uuid) call.uuid vacant e))
            (rw (==_refl r) refl) (one_pin s r path vacant) (rw missing tt) (rw missing tt) in
        (result, rw e out, done)

    -- A recording is under the key, and it may go.
    stale-Begun :
        (q : ℕ) (old : Recording)
        → s.reg.heap r ≡ none
        → lookup (recording_key handle call.uuid) s.reg.table ≡ some q
        → s.reg.heap q ≡ some old
        → (ltb 0 old.use_count || not old.leg_gone) ≡ false
        → (result : Registry × Status) × (start_resolved R located net host globals call r handle
              (srv ∷ chain)
              s.reg
            ≡ some result)
          × Begun handle srs_uri result
    stale-Begun q old vacant at_q live goes =
        let apart = apart-of_live s.reg.heap q r old vacant live in
        let e =
          insert-stale r (recording_key handle call.uuid) call.uuid s.reg q old at_q live goes in
        let g = put_recording r (made call handle) (delete old.key s.reg.table) s.reg in
        let torn = teardown-live located q g old (rw apart live) in
        let path1 = go path (starts r (recording_key handle call.uuid) call.uuid vacant e) in
        let path2 = go path1 (tears_down q (rw (==_refl q) (omega arith)) torn) in
        let other = flip_apart q r apart in
        let (result, out, done) =
          bound-Begun path2 (rw (other, ==_refl r) refl) (one_pin s r path vacant) (rw at_q apart)
            (rw (at_q, ==_refl q) refl) in
        (result, rw (e, start_inserted, torn) out, done)

    pub live-Begun :
        s.reg.heap r ≡ none
        → (result : Registry × Status) × (start_resolved R located net host globals call r handle
              (srv ∷ chain)
              s.reg
            ≡ some result)
          × Begun handle srs_uri result
    live-Begun vacant = elim (Option-cases (lookup (recording_key handle call.uuid) s.reg.table)) [
      | inl missing ↦ new-Begun vacant missing
      | inr (q, at_q) ↦
          let (old, live, _) =
            (Reach-Inv empty-Inv path).keyed (recording_key handle call.uuid) q at_q in
          elim (Bool-cases (ltb 0 old.use_count || not old.leg_gone)) [
            | inl stays ↦ (
              (s.reg, status_inuse),
              rw
                  (insert-in_use r (recording_key handle call.uuid) call.uuid s.reg q old at_q live
                    stays)
                  refl,
              duplicate q old r srv chain let_in at_q live
                  (busy_of old.use_count old.leg_gone stays),
            )
            | inr goes ↦ stale-Begun q old vacant at_q live goes
          ]
    ]
