-- ===== src/Media/Sending.antt =====
-- What one send of a stream of siprec_media.c hands to its socket.
use mod_siprec.Base.{
  Bool, List, Option, [], ap, arith, drop, if_elim, if◌then◌else◌, length, ltb, map, none, refl,
  some, suc, sym, zero, ℕ, ◌%◌, ◌++◌, ◌+◌, ◌<◌, ◌==◌, ◌^◌, ◌∙◌, ◌∷◌, ◌≡◌, ◌≤◌,
}
use mod_siprec.G711.{Codebook, l16_to_alaw, l16_to_ulaw, packed}
use mod_siprec.Media.{Datagram, Stream, counted, encode, every, rtp_pack, send_stream}
use mod_siprec.Media.Rtp.{Packet, parse, rtp_pack-parse}

-- Datagrams of the stream `s`, numbered from `q` on: the next number is `q'`.
abbrev pub Numbered : Stream → ℕ → List Datagram → ℕ → Type 0
Numbered s q [] q' = q ≡ q'
Numbered s q ((fd, bytes) ∷ out) q' =
    ((p : Packet) × (fd ≡ s.fd)
      × (parse bytes ≡ some p)
      × (p.sequence ≡ q)
      × (p.ssrc ≡ s.ssrc)
      × (p.pt ≡ s.pt)
      × (length p.payload ≤ 1500))
    × Numbered s ((q + 1) % 2 ^ 16) out q'

-- Every field of a stream fits the width that the header gives it.
pub record InWidth (s : Stream) : Type 0 where
  pub pt_fits : s.pt < 128
  pub sequence_fits : s.sequence < 2 ^ 16
  pub timestamp_fits : s.timestamp < 2 ^ 32
  pub ssrc_fits : s.ssrc < 2 ^ 32

-- The same stream, later.
pub record SameStream (s s' : Stream) : Type 0 where
  pub same_fd : s'.fd ≡ s.fd
  pub same_pt : s'.pt ≡ s.pt
  pub same_ssrc : s'.ssrc ≡ s.ssrc

pub Numbered-append :
    (s s' : Stream) (q q1 q2 : ℕ) (out more : List Datagram)
    → SameStream s s'
    → Numbered s q out q1
    → Numbered s' q1 more q2
    → Numbered s q (out ++ more) q2
Numbered-append s s' q q1 q2 [] [] same e h = e ∙ h
Numbered-append s s' q q1 q2 [] ((fd, bytes) ∷ more) same e ((p, f, b, n, r, t, l), rest) = (
  (p, f ∙ same.same_fd, b, n ∙ sym e, r ∙ same.same_ssrc, t ∙ same.same_pt, l),
  Numbered-append s s' ((q + 1) % 2 ^ 16) ((q + 1) % 2 ^ 16) q2 [] more same refl
      (rw (← e) at rest),
)
Numbered-append s s' q q1 q2 ((fd, bytes) ∷ out) more same (head, rest) h =
    (head, Numbered-append s s' ((q + 1) % 2 ^ 16) q1 q2 out more same rest h)

length-map : (f : ℕ → ℕ) (xs : List ℕ) → length (map f xs) ≡ length xs
length-map f [] = refl
length-map f (x ∷ xs) = ap suc (length-map f xs)

length-every-le : (stride n : ℕ) (pcm : List ℕ) → length (every stride n pcm) ≤ n
unfolding every
length-every-le stride zero pcm = omega arith
length-every-le stride (suc n) [] = omega arith
length-every-le stride (suc n) (x ∷ pcm) =
    omega (arith, length-every-le stride n (drop stride (x ∷ pcm)))

-- One send of a stream: what it hands to the socket, and the stream after it.
pub record Sent (s : Stream) (result : Stream × List Datagram) : Type 0 where
  pub numbered : Numbered s s.sequence result.1 result.0.sequence
  pub in_width : InWidth result.0
  pub same : SameStream s result.0

payload-small :
    (book : Codebook) (pt stride n : ℕ) (pcm : List ℕ)
    → length (encode book pt (every stride (if ltb 1500 n then 1500 else n) pcm)) ≤ 1500
unfolding encode
payload-small book pt stride n pcm =
    let count = if ltb 1500 n then 1500 else n in
    let bound = length-every-le stride count pcm in
    let same =
      length-map (if pt == 8 then l16_to_alaw book else l16_to_ulaw book)
        (every stride count pcm) in
    let top : count ≤ 1500 = ground arith in omega arith

module _ (book : Codebook) (net : Datagram → Bool) where
  counted-same : (o : Option (List ℕ)) (s : Stream) → SameStream s (counted net o s)
  counted-same none s = record { same_fd = refl; same_pt = refl; same_ssrc = refl }
  counted-same (some packet) s =
      if_elim (SameStream s) (net (s.fd, packet))
        (λ _. record { same_fd = refl; same_pt = refl; same_ssrc = refl })
        (λ _. record { same_fd = refl; same_pt = refl; same_ssrc = refl })

  pub send_stream-Sent :
      (pcm : List ℕ) (stride n : ℕ) (s : Stream)
      → InWidth s
      → Sent s (send_stream book net pcm stride n s)
  unfolding send_stream encode
  send_stream-Sent pcm stride n s w =
      let count = if ltb 1500 n then 1500 else n in
      let payload = encode book s.pt (every stride count pcm) in
      let small : length payload ≤ 1500 = payload-small book s.pt stride n pcm in
      let (packet, packed, _, read) =
        (rtp_pack-parse s.pt s.marker_pending s.ssrc s.sequence s.timestamp payload w.pt_fits
            w.sequence_fits w.timestamp_fits w.ssrc_fits).0
          small in
      let after =
        counted-same (rtp_pack s.pt s.marker_pending s.ssrc s.sequence s.timestamp payload) s in
      record {
        numbered = rw packed ((_, refl, read, refl, refl, refl, small), refl);
        in_width = record {
          pt_fits = rw after.same_pt w.pt_fits;
          sequence_fits = omega arith;
          timestamp_fits = omega arith;
          ssrc_fits = rw after.same_ssrc w.ssrc_fits;
        };
        same = record {
          same_fd = after.same_fd;
          same_pt = after.same_pt;
          same_ssrc = after.same_ssrc;
        };
      }
