-- ===== src/Media/Callback.antt =====
-- The media bug's callback of siprec_media.c, by the event that the core reports.
use mod_siprec.Base.{Bool, List, [], true, ℕ}
use mod_siprec.G711.{Codebook}
use mod_siprec.Media.{Audio, Ctx, Datagram, Frame, media_bug_close, read_ping}

-- `switch_abc_type_t`. A READ_PING comes with what the callback finds: the frames of the bug, the
-- packet time of the read codec, and `leg_gone`.
pub data AbcType : Type 0 where
  init : AbcType
  close : AbcType
  ping : List Frame → ℕ → Bool → AbcType
  another : AbcType

module _ {R : Type 0} (audio : Audio R) (book : Codebook) (net : Datagram → Bool) where
  -- The result says whether the core keeps the bug.
  abbrev pub media_bug_callback : AbcType → Ctx R → Ctx R × List Datagram × Bool
  media_bug_callback init ctx = (ctx, [], true)
  media_bug_callback close ctx = (media_bug_close ctx, [], true)
  media_bug_callback (ping frames microseconds leg_gone) ctx =
      read_ping audio book net frames microseconds leg_gone ctx
  media_bug_callback another ctx = (ctx, [], true)
