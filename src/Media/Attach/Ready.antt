-- ===== src/Media/Attach/Ready.antt =====
-- What a fork is once `siprec_media_attach` of siprec_media.c has succeeded, and that no socket is
-- lost where it has not.
use mod_siprec.Base.{
  &&_iff, All, Bool, Bool-cases, List, Option, Option-cases, [], ap, append-nil, append_assoc,
  arith, false, if_elim, if◌then◌else◌, inl, inr, length, ltb, none, not, refl, some, suc, sym,
  true, ℕ, ◌&&◌, ◌*◌, ◌++◌, ◌+◌, ◌<◌, ◌==◌, ◌^◌, ◌||◌, ◌∙◌, ◌∷◌, ◌≡◌, ◌⊎◌,
}
use mod_siprec.Media.{Ctx, Stream}
use mod_siprec.Media.Sending.{InWidth}
use mod_siprec.Media.Attach.{
  Host, SocketOp, add_bug, attach, close_all, detach, fallback_pt, fds_of, open_next, open_streams,
  opened, random_u32, ready_stream, socket_for, took_both,
}
use mod_siprec.Media.Attach.Sockets.{close_all-closed, open_after, open_after-append}
use mod_siprec.Sdp.{Negotiated, addr_kind}

-- A stream that can send: a socket, fields within the widths of the RTP header, one of the two
-- payload types that the encoder knows, and a talkspurt to open.
pub record IsReady (s : Stream) : Type 0 where
  pub socket : (fd : ℕ) × (s.fd ≡ some fd)
  pub in_width : InWidth s
  pub encodable : (s.pt ≡ 0) ⊎ (s.pt ≡ 8)
  pub marked : s.marker_pending ≡ true

random_u32-lt : (host : Host) (n : ℕ) → random_u32 host n < 2 ^ 32
unfolding random_u32
random_u32-lt host n = elim (Option-cases (host.urandom n)) [
  | inl unread ↦ rw unread (omega arith)
  | inr ((a, b, c, d), got) ↦ rw got (omega arith)
]

fallback_pt-G711 : (codec : Option ℕ) → (fallback_pt codec ≡ 0) ⊎ (fallback_pt codec ≡ 8)
fallback_pt-G711 none = inl refl
fallback_pt-G711 (some pt) = ground arith

stream_pt-G711 :
    (codec : Option ℕ) (pt : ℕ)
    → ((if pt == 0 || pt == 8 then pt else fallback_pt codec) ≡ 0)
      ⊎ ((if pt == 0 || pt == 8 then pt else fallback_pt codec) ≡ 8)
stream_pt-G711 codec pt =
    if_elim (λ q. (q ≡ 0) ⊎ (q ≡ 8)) (pt == 0 || pt == 8) (λ usable. ground arith)
      (λ _. fallback_pt-G711 codec)

small_pt : (pt : ℕ) → (pt ≡ 0) ⊎ (pt ≡ 8) → pt < 128
small_pt pt (inl e) = omega arith
small_pt pt (inr e) = omega arith

ready_stream-IsReady :
    (host : Host) (i fd : ℕ) (n : Negotiated) → IsReady (ready_stream host i fd n)
ready_stream-IsReady host i fd n = record {
  socket = (fd, refl);
  in_width = record {
    pt_fits = small_pt _ (stream_pt-G711 host.codec n.pt);
    sequence_fits = omega arith;
    timestamp_fits = random_u32-lt host (i * 3 + 2);
    ssrc_fits = random_u32-lt host (i * 3);
  };
  encodable = stream_pt-G711 host.codec n.pt;
  marked = refl;
}

-- What the loop over the streams `ns` comes to, where the sockets `fds` are open before it.
data Opens (ns : List Negotiated) (fds : List ℕ)
    : Option (List Stream) × List SocketOp → Type 0 where
  gave_up : {ops : List SocketOp} → open_after ops fds ≡ [] → Opens ns fds (none, ops)
  got_all :
      {streams : List Stream} {ops : List SocketOp}
      → open_after ops fds ≡ fds ++ fds_of streams
      → All IsReady streams
      → length streams ≡ length ns
      → Opens ns fds (some streams, ops)

open_next-Opens :
    (host : Host) (i : ℕ) (n : Negotiated) (o : Option ℕ) (fds : List ℕ)
    (go_on : List ℕ → Option (List Stream) × List SocketOp) (ns : List Negotiated)
    → ((more : List ℕ) → Opens ns more (go_on more))
    → Opens (n ∷ ns) fds (open_next host i n o fds go_on)
open_next-Opens host i n none fds go_on ns rest = gave_up (close_all-closed fds)
open_next-Opens host i n (some fd) fds go_on ns rest =
    extended (go_on (fds ++ (fd ∷ []))) (rest (fds ++ (fd ∷ [])))
  where
    extended :
        (result : Option (List Stream) × List SocketOp)
        → Opens ns (fds ++ (fd ∷ [])) result
        → Opens (n ∷ ns) fds (
          elim result.0 [ none ↦ none | some streams ↦ some (ready_stream host i fd n ∷ streams) ],
          opened fd ∷ result.1,
        )
    extended (none, ops) (gave_up e) = gave_up e
    extended (some streams, ops) (got_all e ready same) =
        got_all (e ∙ append_assoc fds (fd ∷ []) (fds_of streams))
          (ready_stream-IsReady host i fd n, ready) (ap suc same)

open_streams-Opens :
    (host : Host) (i : ℕ) (ns : List Negotiated) (fds : List ℕ)
    → Opens ns fds (open_streams host i ns fds)
unfolding open_streams
open_streams-Opens host i [] fds = got_all (sym (append-nil fds)) tt refl
open_streams-Opens host i (n ∷ ns) fds =
    open_next-Opens host i n (socket_for host i (addr_kind host.inet host.inet6 (some n.remote_ip)))
      fds (open_streams host (i + 1) ns) ns (open_streams-Opens host (i + 1) ns)

all_closed :
    (ops : List SocketOp) (fds : List ℕ)
    → open_after ops [] ≡ fds
    → open_after (ops ++ close_all fds) [] ≡ []
all_closed ops fds e =
    open_after-append ops (close_all fds) []
    ∙ (ap (open_after (close_all fds)) e ∙ close_all-closed fds)

fds_of-cons :
    (s : Stream) (streams : List Stream) {fd : ℕ}
    → s.fd ≡ some fd
    → fds_of (s ∷ streams) ≡ fd ∷ fds_of streams
fds_of-cons s streams has = rw has refl

module _ {R : Type 0} where
  -- A fork that is attached, with one ready stream, or with two where separate streams were asked
  -- for and the SRS took both.
  pub data IsAttached (asked : Bool) (negotiated : List Negotiated) (ctx : Ctx R) : Type 0 where
    mixed :
        ctx.separate ≡ false
        → ctx.stream_count ≡ 1
        → IsReady ctx.stream0
        → ctx.bug ≡ true
        → IsAttached asked negotiated ctx
    separate :
        ctx.separate ≡ true
        → ctx.stream_count ≡ 2
        → IsReady ctx.stream0
        → IsReady ctx.stream1
        → ctx.bug ≡ true
        → asked ≡ true
        → took_both negotiated ≡ true
        → IsAttached asked negotiated ctx

  -- The outcome of an attach, and the sockets that are open after it and after a detach.
  pub data Attached (asked : Bool) (negotiated : List Negotiated)
      : Option (Ctx R) × List SocketOp → Type 0 where
    failed : {ops : List SocketOp} → open_after ops [] ≡ [] → Attached asked negotiated (none, ops)
    succeeded :
        {ctx : Ctx R} {ops : List SocketOp}
        → IsAttached asked negotiated ctx
        → open_after (ops ++ (detach (some ctx)).2) [] ≡ []
        → Attached asked negotiated (some ctx, ops)

  one_stream :
      (host : Host) (asked : Bool) (negotiated : List Negotiated) (n : Negotiated)
      (result : Option (List Stream) × List SocketOp)
      → Opens (n ∷ []) [] result
      → Attached asked negotiated (add_bug host false 1 result)
  unfolding detach
  one_stream host asked negotiated n (none, ops) (gave_up e) = failed e
  one_stream host asked negotiated n (some [], ops) (got_all e ready same) = absurd (omega arith)
  one_stream host asked negotiated n (some (s ∷ t ∷ rest), ops) (got_all e ready same) =
      absurd (omega arith)
  one_stream host asked negotiated n (some (s ∷ []), ops) (got_all e (ready, _) same) =
      let (fd, has) = ready.socket in
      if_elim (Attached asked negotiated) (host.bug_add false)
        (λ _.
          succeeded (mixed refl refl ready refl)
            (rw has (all_closed ops (fd ∷ []) (e ∙ fds_of-cons s [] has))))
        (λ _. failed (all_closed ops (fds_of (s ∷ [])) e))

  two_streams :
      (host : Host) (asked : Bool) (negotiated : List Negotiated) (n m : Negotiated)
      → asked ≡ true
      → took_both negotiated ≡ true
      → (result : Option (List Stream) × List SocketOp) → Opens (n ∷ m ∷ []) [] result
      → Attached asked negotiated (add_bug host true 2 result)
  unfolding detach
  two_streams host asked negotiated n m want took (none, ops) (gave_up e) = failed e
  two_streams host asked negotiated n m want took (some [], ops) (got_all e ready same) =
      absurd (omega arith)
  two_streams host asked negotiated n m want took (some (s ∷ []), ops) (got_all e ready same) =
      absurd (omega arith)
  two_streams host asked negotiated n m want took (some (s ∷ t ∷ u ∷ rest), ops)
        (got_all e ready same) =
      absurd (omega arith)
  two_streams host asked negotiated n m want took (some (s ∷ t ∷ []), ops) (got_all e ready same) =
      let (ready_s, (ready_t, _)) = ready in
      let (fd, has) = ready_s.socket in
      let (fd', has') = ready_t.socket in
      if_elim (Attached asked negotiated) (host.bug_add true)
        (λ _. succeeded (separate refl refl ready_s ready_t refl want took) (
          rw (has, has')
            (all_closed ops (fd ∷ fd' ∷ [])
              (e ∙ (fds_of-cons s (t ∷ []) has ∙ ap (◌∷◌ fd) (fds_of-cons t [] has'))))))
        (λ _. failed (all_closed ops (fds_of (s ∷ t ∷ [])) e))

  -- An attach fails without leaving a socket open, or gives a fork with the bug on it: one ready
  -- stream, or two where separate streams were asked for and the SRS took both in order. A ready
  -- stream has a socket and a payload type that the encoder knows, its fields fit the RTP header,
  -- and its first packet is marked. A detach afterwards closes every socket.
  pub attach-Attached :
      (host : Host) (asked : Bool) (negotiated : List Negotiated)
      → Attached asked negotiated (attach host asked negotiated)
  unfolding attach
  attach-Attached host asked [] = failed refl
  attach-Attached host asked (n ∷ []) =
      let alone : (asked && (false && not (ltb 1 host.channels))) ≡ false = ground arith in
      rw alone (
        one_stream host asked (n ∷ []) n (open_streams host 0 (n ∷ []) [])
          (open_streams-Opens host 0 (n ∷ []) []))
  attach-Attached host asked (n ∷ m ∷ ns) =
      let both = took_both (n ∷ m ∷ ns) in
      let mono = not (ltb 1 host.channels) in
      elim (Bool-cases (asked && (both && mono))) [
        | inl yes_both ↦
            let (want, rest) = (&&_iff asked (both && mono)).0 yes_both in
            rw yes_both (
              two_streams host asked (n ∷ m ∷ ns) n m want ((&&_iff both mono).0 rest).0
                (open_streams host 0 (n ∷ m ∷ []) []) (open_streams-Opens host 0 (n ∷ m ∷ []) []))
        | inr not_both ↦ rw not_both (
            one_stream host asked (n ∷ m ∷ ns) n (open_streams host 0 (n ∷ []) [])
              (open_streams-Opens host 0 (n ∷ []) []))
      ]
