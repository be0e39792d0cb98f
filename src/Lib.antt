-- ===== src/Lib.antt =====
-- A verification library for mod_siprec, the FreeSWITCH module that records calls by SIPREC: it
-- forks a call's audio as RTP to a recording server (SRS) and describes it in an RFC 7865 document.
--
-- Base holds what the parts share: C comparisons, lists with native lengths, C strings as lists of
-- bytes, and hash tables as association lists. The parts of the program are these modules.
-- - Uri: siprec_uri.c, siprec_uri_check of SRS URIs.
-- - Sb: siprec_sb.c, the string buffer sb_t that metadata is written to; realloc is a parameter.
-- - Metadata: siprec_metadata.c. Id is uuid_to_id and session_id, Aor is siprec_metadata_aor,
--   Escape is xml_escape_into, and Document is validate_options and siprec_metadata_build as the
--   list of calls that it makes on the buffer.
-- - Registry: recording_session.c. A recording is a pointer into a heap; a freed one is `none`
--   there, and an operation that touches it faults (its result is `none`). Interleaving has one
--   step for each part that runs under recordings_mutex and for each teardown, so that a run is
--   any interleaving of the threads of starts, stops, pauses and hangups. Stop and Discard are
--   stop_recording_session_for_server with a name, up to the release of the call's handler, and
--   discard_pending_recording, each run whole. Progress is the way of a recording that is out of
--   the table to its end, over all interleavings. Drain is drain_recordings with its batches, the
--   stops and the unload that call it, and release_call_handler, each run whole; Drain/Reference
--   is what a drain comes to, in one pass. Runs are the same operations, run whole, as runs of
--   Interleaving's steps; so are Direction/Runs and Start/Runs.
-- - Sdp: siprec_sdp.c. The walk over the answer is a recursion over the starts of its lines, which
--   are computed from the text beforehand, so no fuel is needed; sscanf and inet_pton are parameters.
-- - G711: siprec_g711.c and siprec_g711.h. A sample is its 16-bit pattern. The decoders of ITU-T
--   G.711, with which the codes are compared, are not part of the program.
-- - Media: siprec_media.c, RTP packets and the media bug's callback. The frames that the bug
--   returns in one tick are a list; channel mix, resampler and sendto are parameters. Attach is
--   siprec_media_attach and siprec_media_detach, with the kernel and FreeSWITCH as a record of
--   answers, and Fork a fork from its attach through the ticks of the call.
-- - Direction: siprec_change_direction of mod_siprec.c, with siprec_invite_set_direction of
--   siprec_invite.c and siprec_media_set_paused of siprec_media.c. The time is a parameter of each call,
--   and may go back; whether a recording has separate streams is an answer of `World`.
-- - Config: the recording servers of mod_siprec.c, from the elements of siprec.conf to the chains
--   that failover walks; strtol, switch_true and switch_false are parameters. Config/Pools is the
--   same configuration in memory, each entry in a pool of its own behind a `next` pointer, with
--   free_recording_servers; Start reads the chains that it holds, and Start/Snapshot is the copy
--   of a chain out of that memory.
-- - Leg: siprec_invite.c, the INVITE to an SRS, the endpoints that its answer gives, and failover;
--   `walk` counts the 16 attempts of the source. switch_ivr_originate is a parameter, with the
--   variables of the answered channel.
-- - Start: start_recording_session of recording_session.c as it composes Config's chains, Registry,
--   Metadata, Leg and Media.Attach. Its Call is the call's channel and what FreeSWITCH gives: the
--   memory pool, UUIDs, the time and realloc. Asked is an independent account of its servers,
--   its streams, its INVITE and its fork.
-- - App: the applications of mod_siprec.c, mod_siprec_load and mod_siprec_shutdown. The writes of
--   channel variables are a list. Session is the life of the module: its load, any sequence of
--   applications and hangups one after the other, and its shutdown. Starts read the chains that
--   the load left in memory (Session/Stored); the settings src-enabled and separate-streams are a
--   parameter, which stays the same while the module is loaded.
-- - Tests: runs at concrete inputs, and the theorems at such inputs.
--
-- Bounds: the buffer's ceiling is 64 MB, and its doubling runs on fuel that reaches it from any
-- size (Sb.double_fuel). Counters wrap at their width: sequence numbers at 2 ^ 16, timestamps at
-- 2 ^ 32, packet counters at 2 ^ 64. The loop over `mask` of the G.711 encoders is a recursion on
-- the exponent, and the table's loop one on the number of rounds. A drain is on fuel for its passes;
-- one more than the entries of the table is enough, since each full batch takes 16 of them out. The
-- walks over a failover chain are on fuel of the pools asked for so far, which are more than a
-- chain has.
--
-- Not modelled: logging; the pools of recordings other than as their life; the originate timeout and
-- the constant headers of the INVITE; the table of settings, which FreeSWITCH reads; the addresses
-- that the RTP sockets send to; the splitting of an application's argument, which is a parameter;
-- the bodies of FreeSWITCH functions, which are parameters or effects.
pub mod Base
pub mod Uri
pub mod Sb
pub mod Metadata
pub mod Registry
pub mod Sdp
pub mod G711
pub mod Media
pub mod Direction
pub mod Config
pub mod Leg
pub mod Start
pub mod App
pub mod Tests
