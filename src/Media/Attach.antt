-- ===== src/Media/Attach.antt =====
-- `siprec_media_attach`, `siprec_media_detach` and `random_u32` of siprec_media.c, with what they
-- do to sockets.
pub mod Sockets
pub mod Ready
use mod_siprec.Base.{
  Bool, Bytes, List, Option, [], false, if◌then◌else◌, ltb, none, not, some, suc, take, true, zero,
  ℕ, ◌%◌, ◌&&◌, ◌*◌, ◌++◌, ◌+◌, ◌==◌, ◌^◌, ◌||◌, ◌∷◌,
}
use mod_siprec.Media.{Ctx, Stream}
use mod_siprec.Sdp.{AddrKind, Negotiated, addr_ipv6, addr_kind, addr_none}

-- A socket that the kernel gave, and one that is given back.
pub data SocketOp : Type 0 where
  opened : ℕ → SocketOp
  closed : ℕ → SocketOp

-- The kernel and FreeSWITCH during one attach: `inet_pton` for each family, the n-th call of
-- `socket` for IPv6 or IPv4, the n-th read of /dev/urandom and of the microsecond clock, the leg's
-- codec and channels, and whether the bug can be added.
pub record Host : Type 0 where
  pub inet : Bytes → Bool
  pub inet6 : Bytes → Bool
  pub socket : ℕ → Bool → Option ℕ
  pub urandom : ℕ → Option (ℕ × ℕ × ℕ × ℕ)
  pub clock : ℕ → ℕ
  pub codec : Option ℕ
  pub channels : ℕ
  pub bug_add : Bool → Bool

abbrev pub word_of : ℕ → Option (ℕ × ℕ × ℕ × ℕ) → ℕ
word_of now none = now % 2 ^ 32
word_of now (some (a, b, c, d)) = a % 256 * 16777216 + b % 256 * 65536 + c % 256 * 256 + d % 256

-- The n-th draw of `random_u32`.
unfoldable pub random_u32 : Host → ℕ → ℕ
random_u32 host n = word_of (host.clock n) (host.urandom n)

abbrev pub fallback_pt : Option ℕ → ℕ
fallback_pt none = 0
fallback_pt (some pt) = if pt == 8 then 8 else 0

-- A stream before anything is filled in.
abbrev pub blank_stream : Stream
blank_stream = record {
  fd = none;
  pt = 0;
  ssrc = 0;
  timestamp = 0;
  sequence = 0;
  marker_pending = false;
  packets_sent = 0;
  send_errors = 0;
}

-- Stream `i` on its socket.
abbrev pub ready_stream : Host → ℕ → ℕ → Negotiated → Stream
ready_stream host i fd n = record blank_stream {
  fd = some fd;
  pt = if n.pt == 0 || n.pt == 8 then n.pt else fallback_pt host.codec;
  ssrc = random_u32 host (i * 3);
  sequence = random_u32 host (i * 3 + 1) % 2 ^ 16;
  timestamp = random_u32 host (i * 3 + 2);
  marker_pending = true;
}

-- `close` on each socket of a list.
abbrev pub close_all : List ℕ → List SocketOp
close_all [] = []
close_all (fd ∷ fds) = closed fd ∷ close_all fds

abbrev pub is_ipv6 : AddrKind → Bool
is_ipv6 addr_ipv6 = true
is_ipv6 _ = false

abbrev pub socket_for : Host → ℕ → AddrKind → Option ℕ
socket_for host i addr_none = none
socket_for host i kind = host.socket i (is_ipv6 kind)

-- Where stream `i` has no socket, those of the streams before it are closed; otherwise the loop
-- goes on with it.
abbrev pub open_next :
    Host
    → ℕ
    → Negotiated
    → Option ℕ
    → List ℕ
    → (List ℕ → Option (List Stream) × List SocketOp)
    → Option (List Stream) × List SocketOp
open_next host i n none fds go_on = (none, close_all fds)
open_next host i n (some fd) fds go_on =
    let (rest, ops) = go_on (fds ++ (fd ∷ [])) in
    (
      elim rest [ none ↦ none | some streams ↦ some (ready_stream host i fd n ∷ streams) ],
      opened fd ∷ ops,
    )

-- The loop over the streams, from `i` on, with the sockets of those before it.
unfoldable pub open_streams :
    Host → ℕ → List Negotiated → List ℕ → Option (List Stream) × List SocketOp
unfolding random_u32 addr_kind
open_streams host i [] fds = (some [], [])
open_streams host i (n ∷ ns) fds =
    open_next host i n (socket_for host i (addr_kind host.inet host.inet6 (some n.remote_ip))) fds
      (open_streams host (i + 1) ns)

-- The SRS took both offered streams, in order.
abbrev pub took_both : List Negotiated → Bool
took_both (a ∷ b ∷ _) = a.mline == 0 && b.mline == 1
took_both _ = false

abbrev pub fds_of : List Stream → List ℕ
fds_of [] = []
fds_of (s ∷ streams) = elim s.fd [ none ↦ fds_of streams | some fd ↦ fd ∷ fds_of streams ]

abbrev pub stream_at : ℕ → List Stream → Stream
stream_at i [] = blank_stream
stream_at zero (s ∷ streams) = s
stream_at (suc i) (s ∷ streams) = stream_at i streams

abbrev pub close_stream : Bool → Option ℕ → List SocketOp
close_stream true (some fd) = closed fd ∷ []
close_stream _ _ = []

module _ {R : Type 0} where
  abbrev pub attached_ctx : Bool → ℕ → List Stream → Ctx R
  attached_ctx separate count streams = record {
    bug = true;
    detaching = false;
    leg_ended = false;
    stream0 = stream_at 0 streams;
    stream1 = stream_at 1 streams;
    stream_count = count;
    resampler = none;
    separate = separate;
    paused_at = 0;
  }

  abbrev pub add_bug :
      Host → Bool → ℕ → Option (List Stream) × List SocketOp → Option (Ctx R) × List SocketOp
  add_bug host separate count (none, ops) = (none, ops)
  add_bug host separate count (some streams, ops) =
      if host.bug_add separate
      then (some (attached_ctx separate count streams), ops)
      else (none, ops ++ close_all (fds_of streams))

  -- What `siprec_media_attach` makes of the negotiated streams, for a recording that asks for
  -- separate streams or not: `media_ctx`, none for a failure, and what it did to sockets.
  unfoldable pub attach : Host → Bool → List Negotiated → Option (Ctx R) × List SocketOp
  unfolding open_streams
  attach host asked [] = (none, [])
  attach host asked (n ∷ ns) =
      let separate = asked && (took_both (n ∷ ns) && not (ltb 1 host.channels)) in
      let count = if separate then 2 else 1 in
      add_bug host separate count (open_streams host 0 (take count (n ∷ ns)) [])

  -- `siprec_media_detach`: its status, whether it removes the bug, and the sockets it closes;
  -- `media_ctx` is NULL afterwards.
  unfoldable pub detach : Option (Ctx R) → Bool × Bool × List SocketOp
  detach none = (false, false, [])
  detach (some ctx) = (
    true,
    ctx.bug,
    close_stream (ltb 0 ctx.stream_count) ctx.stream0.fd
        ++ close_stream (ltb 1 ctx.stream_count) ctx.stream1.fd,
  )
