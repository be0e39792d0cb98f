-- ===== src/Sdp/Streams.antt =====
-- What siprec_sdp.c's parser guarantees of the streams it reports, whatever the answer says.
use mod_siprec.Base.{
  &&_iff, All, All-append, Bytes, List, Option, [], arith, codes, drop, if_elim, if◌then◌else◌, inl,
  inr, leb, length, length-append, length-take-le, ltb, none, refl, some, starts_with, take, true,
  ℕ, ◌&&◌, ◌+◌, ◌-◌, ◌==◌, ◌||◌, ◌∷◌, ◌≡◌, ◌≤◌, ◌⊎◌,
}
use mod_siprec.Sdp.{
  Negotiated, Scan, Sscanf, audio_stream, change_ip, connection_line, line_at, line_starts,
  media_line, parse_line, parse_lines, parse_remote_streams, pt_unset, start_scan,
}
use mod_siprec.Sdp.Endpoints.{
  Ascending, Ascending-last, IsEndpoint, change_ip-Ascending, change_ip-endpoints, later_section,
  length-change_ip,
}

record ScanInv (out_max : ℕ) (st : Scan) : Type 0 where
  session_fits : length st.session_ip ≤ 63
  bounded : length st.out ≤ out_max
  endpoints : All (IsEndpoint st.sections) st.out
  ascending : Ascending st.out

connection-Inv :
    (out_max : ℕ) (ip : Bytes) (st : Scan)
    → length ip ≤ 63
    → ScanInv out_max st
    → ScanInv out_max (connection_line ip st)
connection-Inv out_max ip st fits inv =
    if_elim (ScanInv out_max) (st.sections == 0)
      (λ _. record {
        session_fits = fits;
        bounded = inv.bounded;
        endpoints = inv.endpoints;
        ascending = inv.ascending;
      })
      (λ _. targeted st.cur_idx)
  where
    targeted :
        (cur : Option ℕ)
        → ScanInv out_max
            (elim cur [ none ↦ st | some i ↦ record st { out = change_ip ip i st.out } ])
    targeted none = inv
    targeted (some i) = record {
      session_fits = inv.session_fits;
      bounded = rw (length-change_ip ip i st.out) inv.bounded;
      endpoints = change_ip-endpoints st.sections ip i st.out fits inv.endpoints;
      ascending = change_ip-Ascending ip i st.out inv.ascending;
    }

media-Inv : (out_max : ℕ) (st : Scan) → ScanInv out_max st → ScanInv out_max (media_line st)
media-Inv out_max st inv = record {
  session_fits = inv.session_fits;
  bounded = inv.bounded;
  endpoints = later_section st.sections st.out inv.endpoints;
  ascending = inv.ascending;
}

new-IsEndpoint :
    (st : Scan) (got port pt : ℕ)
    → length st.session_ip ≤ 63
    → ((leb 1 got && ltb 0 port) && leb port 65535) ≡ true
    → IsEndpoint (st.sections + 1) (record {
      remote_ip = st.session_ip;
      remote_port = port;
      pt = if got == 2 && leb pt 127 then pt else pt_unset;
      mline = st.sections + 1 - 1;
    })
new-IsEndpoint st got port pt fits test = record {
  ip_fits = fits;
  port_low = ground arith;
  port_high = ground arith;
  type_known =
      if_elim (λ q. (q ≤ 127) ⊎ (q ≡ 255)) (got == 2 && leb pt 127) (λ h. inl (ground arith))
        (λ _. inr refl);
  section = omega arith;
}

audio-Inv :
    (out_max got port pt : ℕ) (st : Scan)
    → ScanInv out_max st
    → ScanInv out_max (audio_stream (got, port, pt) out_max (media_line st))
audio-Inv out_max got port pt st inv =
    let room = ltb (length st.out) out_max in
    let ok = (leb 1 got && ltb 0 port) && leb port 65535 in
    if_elim (ScanInv out_max) (ok && room)
      (λ test.
        let s : Negotiated = record {
          remote_ip = st.session_ip;
          remote_port = port;
          pt = if got == 2 && leb pt 127 then pt else pt_unset;
          mline = st.sections + 1 - 1;
        } in
        let (port_ok, has_room) = (&&_iff ok room).0 test in
        record {
          session_fits = inv.session_fits;
          bounded = rw (length-append st.out (s ∷ [])) (roomy st.out has_room);
          endpoints =
              All-append (IsEndpoint (st.sections + 1)) st.out (s ∷ [])
                (later_section st.sections st.out inv.endpoints)
                (new-IsEndpoint st got port pt inv.session_fits port_ok, tt);
          ascending = Ascending-last st.sections st.out s inv.endpoints inv.ascending (omega arith);
        })
      (λ _. media-Inv out_max st inv)
  where
    roomy : (out : List Negotiated) → ltb (length out) out_max ≡ true → length out + 1 ≤ out_max
    roomy out h = ground arith

parse_line-Inv :
    (sscanf : Sscanf) (out_max : ℕ) (p : Bytes) (st : Scan)
    → ScanInv out_max st
    → ScanInv out_max (parse_line sscanf out_max p st)
unfolding parse_line
parse_line-Inv sscanf out_max p st inv =
    let line = line_at p in
    if_elim (ScanInv out_max)
      (ltb 9 (length line)
        && (starts_with (codes "c=IN IP4 ") line || starts_with (codes "c=IN IP6 ") line))
      (λ _. connection-Inv out_max (take 63 (drop 9 line)) st (length-take-le 63 (drop 9 line)) inv)
      (λ _.
        if_elim (ScanInv out_max) (starts_with (codes "m=") line)
          (λ _.
            if_elim (ScanInv out_max) (ltb 8 (length line) && starts_with (codes "m=audio ") line)
              (λ _. let (got, port, pt) = sscanf (drop 8 p) in audio-Inv out_max got port pt st inv)
              (λ _. media-Inv out_max st inv))
          (λ _. inv))

parse_lines-Inv :
    (sscanf : Sscanf) (out_max : ℕ) (ps : List Bytes) (st : Scan)
    → ScanInv out_max st
    → ScanInv out_max (parse_lines sscanf out_max ps st)
unfolding parse_lines
parse_lines-Inv sscanf out_max [] st inv = inv
parse_lines-Inv sscanf out_max (p ∷ ps) st inv =
    parse_lines-Inv sscanf out_max ps (parse_line sscanf out_max p st)
      (parse_line-Inv sscanf out_max p st inv)

-- What a caller may rely on.
pub record IsAnswer (out_max : ℕ) (out : List Negotiated) : Type 0 where
  pub in_bounds : length out ≤ out_max
  pub sound : (sections : ℕ) × All (IsEndpoint sections) out
  pub in_order : Ascending out

-- Whatever the answer's text is and whatever numbers `sscanf` reads from it, the parser reports at
-- most `out_max` streams; each has an address of at most 63 bytes, a port from 1 to 65535 and a
-- payload type of 7 bits or SIPREC_PT_UNSET; and their m= line indices strictly increase.
pub parse_remote_streams-IsAnswer :
    (sscanf : Sscanf) (out_max : ℕ) (sdp : Option Bytes)
    → IsAnswer out_max (parse_remote_streams sscanf out_max sdp)
unfolding parse_remote_streams
parse_remote_streams-IsAnswer sscanf out_max none = record {
  in_bounds = omega arith;
  sound = (0, tt);
  in_order = tt;
}
parse_remote_streams-IsAnswer sscanf out_max (some sdp) =
    let st = parse_lines sscanf out_max (line_starts sdp) start_scan in
    let inv = parse_lines-Inv sscanf out_max (line_starts sdp) start_scan (record {
      session_fits = omega arith;
      bounded = omega arith;
      endpoints = tt;
      ascending = tt;
    }) in
    if_elim (IsAnswer out_max) (out_max == 0)
      (λ _. record { in_bounds = omega arith; sound = (0, tt); in_order = tt })
      (λ _. record {
        in_bounds = inv.bounded;
        sound = (st.sections, inv.endpoints);
        in_order = inv.ascending;
      })
