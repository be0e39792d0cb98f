-- ===== src/Start/Asked.antt =====
-- What a start of recording_session.c works with: its servers, its streams, and how far its INVITE
-- and its fork got.
use mod_siprec.Base.{
  Bool, Bytes, List, Option, Option-cases, [], codes, false, if◌then◌else◌, inl, inr, length,
  lookup, none, refl, some, take, true, ℕ, ◌∷◌, ◌≡◌, ◌⊎◌,
}
use mod_siprec.Config.{Choice, Server, inherited, mixed, separated, unreadable}
use mod_siprec.Leg as Leg
use mod_siprec.Leg.{Network, send_failover}
use mod_siprec.Leg.Failover.{Walked, send_failover-Walked}
use mod_siprec.Media as Media
use mod_siprec.Media.Attach.{Host, attach}
use mod_siprec.Metadata.Document.{metadata_build}
use mod_siprec.Start.{
  Dispatch, dispatch, forked, leg_up, no_leg, with_fork, with_ids, with_leg, with_metadata,
  with_profile,
}
use mod_siprec.Start.Metadata.{Call, Ids, metadata_ids, options_of}
use mod_siprec.Start.Servers.{Globals, chain_for, copy_server_chain, separate_of}

-- A copy has every field of its server.
pub copy_server_chain_same : (chain : List Server) → copy_server_chain chain ≡ chain
unfolding copy_server_chain
copy_server_chain_same [] = refl
copy_server_chain_same (src ∷ chain) = rw (copy_server_chain_same chain) refl

-- The servers of a start under a name: one for a URI that comes with it, otherwise the chain that
-- the configuration has under the name.
pub data Chosen (globals : Globals) (handle : Bytes) : Option Bytes → List Server → Type 0 where
  own_uri :
      (c : ℕ) (uri : Bytes)
      → Chosen globals handle (some (c ∷ uri)) (
          record {
            name = handle;
            host = none;
            port = some 0;
            transport = none;
            separate_streams = inherited;
            uri = some (c ∷ uri);
          }
          ∷ [])
  configured :
      {srs_uri : Option Bytes} {chain : List Server}
      → (srs_uri ≡ none) ⊎ (srs_uri ≡ some [])
      → lookup handle globals.recording_servers ≡ some chain
      → Chosen globals handle srs_uri chain
  unknown :
      {srs_uri : Option Bytes}
      → (srs_uri ≡ none) ⊎ (srs_uri ≡ some [])
      → lookup handle globals.recording_servers ≡ none
      → Chosen globals handle srs_uri []

-- Whether two streams are asked for, by the default and the choice of a server.
pub data Streams (default : Bool) : Choice → Bool → Type 0 where
  two_asked : Streams default separated true
  one_asked : Streams default mixed false
  by_default : Streams default inherited default
  no_choice : Streams default unreadable default

pub separate_of-Streams :
    (default : Bool) (choice : Choice) → Streams default choice (separate_of default choice)
separate_of-Streams default separated = two_asked
separate_of-Streams default mixed = one_asked
separate_of-Streams default inherited = by_default
separate_of-Streams default unreadable = no_choice

module _ (globals : Globals) (handle : Bytes) where
  configured-Chosen :
      (srs_uri : Option Bytes)
      → (srs_uri ≡ none) ⊎ (srs_uri ≡ some [])
      → chain_for globals handle srs_uri ≡ chain_for globals handle none
      → Chosen globals handle srs_uri (chain_for globals handle srs_uri)
  unfolding chain_for
  configured-Chosen srs_uri no_uri same =
      elim (Option-cases (lookup handle globals.recording_servers)) [
        | inl absent ↦ rw (same, absent) (unknown no_uri absent)
        | inr (chain, there) ↦
            rw (same, there) (configured no_uri (rw (copy_server_chain_same chain) there))
      ]

  pub chain_for-Chosen :
      (srs_uri : Option Bytes) → Chosen globals handle srs_uri (chain_for globals handle srs_uri)
  unfolding chain_for
  chain_for-Chosen none = configured-Chosen none (inl refl) refl
  chain_for-Chosen (some []) = configured-Chosen (some []) (inr refl) refl
  chain_for-Chosen (some (c ∷ uri)) = own_uri c uri

options_of-streams :
    (call : Call) (ids : Ids) (asked : Bool)
    → length (options_of call asked ids).streams ≡ (if asked then 2 else 1)
options_of-streams call ids true = refl
options_of-streams call ids false = refl

module _ (net : Network) (call : Call) (asked : Bool) (chain : List Server) where
  -- The SRS that answers is the first of the chain's first 16 servers whose INVITE, made for the
  -- streams that are asked for, succeeds; the metadata in it has as many streams.
  pub data Answered (ctx : Leg.Ctx) : Type 0 where
    answered :
        (ids : Ids) (body : Bytes) (c : ℕ) (profile : Bytes)
        → metadata_ids call ≡ some ids
        → length (options_of call asked ids).streams ≡ (if asked then 2 else 1)
        → metadata_build call.realloc (options_of call asked ids) ≡ some body
        → call.variable (codes "sofia_profile_name") ≡ some (c ∷ profile)
        → Walked net asked (c ∷ profile) body (take 16 chain) (some ctx)
        → Answered ctx

module _ {R : Type 0} (net : Network) (host : Host) (call : Call) (asked : Bool)
    (chain : List Server) where
  -- How far the INVITE and the fork got.
  pub data Dispatched : Dispatch R → Type 0 where
    no_answer : Dispatched no_leg
    not_attached :
        {ctx : Leg.Ctx}
        → Answered net call asked chain ctx
        → (attach {R = R} host asked ctx.negotiated).0 ≡ none
        → Dispatched (leg_up ctx)
    attached :
        {ctx : Leg.Ctx} {media : Media.Ctx R}
        → Answered net call asked chain ctx
        → (attach host asked ctx.negotiated).0 ≡ some media
        → Dispatched (forked ctx media)

  with_fork-Dispatched :
      (ctx : Leg.Ctx) (o : Option (Media.Ctx R))
      → Answered net call asked chain ctx
      → (attach host asked ctx.negotiated).0 ≡ o
      → Dispatched (with_fork net host call asked chain ctx o)
  with_fork-Dispatched ctx none up e = not_attached up e
  with_fork-Dispatched ctx (some media) up e = attached up e

  module _ (ids : Ids) (at_ids : metadata_ids call ≡ some ids) where
    with_leg-Dispatched :
        (body : Bytes) (c : ℕ) (profile : Bytes) (o : Option Leg.Ctx)
        → metadata_build call.realloc (options_of call asked ids) ≡ some body
        → call.variable (codes "sofia_profile_name") ≡ some (c ∷ profile)
        → Walked net asked (c ∷ profile) body (take 16 chain) o
        → Dispatched (with_leg net host call asked chain o)
    with_leg-Dispatched body c profile none at_body at_profile walked = no_answer
    with_leg-Dispatched body c profile (some ctx) at_body at_profile walked =
        with_fork-Dispatched ctx (attach host asked ctx.negotiated).0
          (answered ids body c profile at_ids (options_of-streams call ids asked) at_body at_profile
            walked)
          refl

    with_profile-Dispatched :
        (body : Bytes) (o : Option Bytes)
        → metadata_build call.realloc (options_of call asked ids) ≡ some body
        → call.variable (codes "sofia_profile_name") ≡ o
        → Dispatched (with_profile net host call asked chain body o)
    with_profile-Dispatched body none at_body at_profile = no_answer
    with_profile-Dispatched body (some []) at_body at_profile = no_answer
    with_profile-Dispatched body (some (c ∷ profile)) at_body at_profile =
        with_leg-Dispatched body c profile (send_failover net asked (c ∷ profile) body chain)
          at_body at_profile (send_failover-Walked net asked (c ∷ profile) body chain)

    with_metadata-Dispatched :
        (o : Option Bytes)
        → metadata_build call.realloc (options_of call asked ids) ≡ o
        → Dispatched (with_metadata net host call asked chain o)
    with_metadata-Dispatched none at_body = no_answer
    with_metadata-Dispatched (some body) at_body =
        with_profile-Dispatched body (call.variable (codes "sofia_profile_name")) at_body refl

  with_ids-Dispatched :
      (o : Option Ids) → metadata_ids call ≡ o → Dispatched (with_ids net host call asked chain o)
  with_ids-Dispatched none at_ids = no_answer
  with_ids-Dispatched (some ids) at_ids =
      with_metadata-Dispatched ids at_ids (metadata_build call.realloc (options_of call asked ids))
        refl

  pub dispatch-Dispatched : Dispatched (dispatch net host call asked chain)
  unfolding dispatch
  dispatch-Dispatched = with_ids-Dispatched (metadata_ids call) refl
