-- ===== src/Sdp.antt =====
-- siprec_sdp.c: the endpoints in an SDP answer, the offer of a second stream, and the family of an
-- address. `sscanf` and `inet_pton` are parameters.
pub mod Endpoints
pub mod Streams
use mod_siprec.Base.{
  Bool, Bytes, List, Option, [], codes, drop, equal, if◌then◌else◌, leb, length, ltb, none, some,
  starts_with, suc, take, zero, ℕ, ◌&&◌, ◌++◌, ◌+◌, ◌-◌, ◌==◌, ◌||◌, ◌∷◌,
}

-- `siprec_negotiated_t`
pub record Negotiated : Type 0 where
  pub remote_ip : Bytes
  pub remote_port : ℕ
  pub pt : ℕ
  pub mline : ℕ

-- SIPREC_PT_UNSET
abbrev pub pt_unset : ℕ
pt_unset = 255

-- The variables of the parser's loop: `sections` is `m_index + 1`, and `cur_idx` is none for -1.
pub record Scan : Type 0 where
  pub session_ip : Bytes
  pub out : List Negotiated
  pub sections : ℕ
  pub cur_idx : Option ℕ

abbrev pub is_break : ℕ → Bool
is_break c = c == 13 || c == 10

-- The line at `p`, which ends before the first CR or LF.
abbrev pub line_at : Bytes → Bytes
line_at [] = []
line_at (c ∷ s) = let rest = line_at s in if is_break c then [] else c ∷ rest

abbrev pub begin_line : Bytes → List Bytes → List Bytes
begin_line [] later = []
begin_line (c ∷ s) later = (c ∷ s) ∷ later

-- The values of `p` after the end of the line that `p` is in.
abbrev pub line_starts_after : Bytes → List Bytes
line_starts_after [] = []
line_starts_after (c ∷ []) = []
line_starts_after (c ∷ d ∷ s) =
    let later = line_starts_after (d ∷ s) in
    let skipped = line_starts_after s in
    if c == 13 && d == 10
    then begin_line s skipped
    else if is_break c
    then (d ∷ s) ∷ later
    else later

-- All values that `p` takes at the head of the loop.
abbrev pub line_starts : Bytes → List Bytes
line_starts sdp = begin_line sdp (line_starts_after sdp)

abbrev pub change_ip : Bytes → ℕ → List Negotiated → List Negotiated
change_ip ip i [] = []
change_ip ip zero (s ∷ out) = record s { remote_ip = ip } ∷ out
change_ip ip (suc i) (s ∷ out) = s ∷ change_ip ip i out

-- A `c=` line with its address, cut to the 63 bytes of `char[64]`.
abbrev pub connection_line : Bytes → Scan → Scan
connection_line ip st =
    if st.sections == 0
    then record st { session_ip = ip }
    else elim st.cur_idx [ none ↦ st | some i ↦ record st { out = change_ip ip i st.out } ]

-- What `sscanf(p, "%u %*s %u", ...)` returns, with the two numbers; a negative return is 0.
abbrev pub Sscanf : Type 0
Sscanf = Bytes → ℕ × ℕ × ℕ

-- An `m=` line opens a section.
abbrev pub media_line : Scan → Scan
media_line st = record st { sections = st.sections + 1; cur_idx = none }

abbrev pub audio_stream : ℕ × ℕ × ℕ → ℕ → Scan → Scan
audio_stream (got, port, pt) out_max st =
    if ((leb 1 got && ltb 0 port) && leb port 65535) && ltb (length st.out) out_max
    then record st {
      out =
          st.out
          ++ (record {
            remote_ip = st.session_ip;
            remote_port = port;
            pt = if got == 2 && leb pt 127 then pt else pt_unset;
            mline = st.sections - 1;
          }
              ∷ []);
      cur_idx = some (length st.out);
    }
    else st

-- One round of the loop, at `p`; `sscanf` reads on past the end of the line.
unfoldable pub parse_line : Sscanf → ℕ → Bytes → Scan → Scan
unfolding starts_with
parse_line sscanf out_max p st =
    let line = line_at p in
    if ltb 9 (length line)
      && (starts_with (codes "c=IN IP4 ") line || starts_with (codes "c=IN IP6 ") line)
    then connection_line (take 63 (drop 9 line)) st
    else if starts_with (codes "m=") line
    then (if ltb 8 (length line) && starts_with (codes "m=audio ") line
        then audio_stream (sscanf (drop 8 p)) out_max (media_line st)
        else media_line st)
    else st

unfoldable pub parse_lines : Sscanf → ℕ → List Bytes → Scan → Scan
unfolding parse_line
parse_lines sscanf out_max [] st = st
parse_lines sscanf out_max (p ∷ ps) st =
    parse_lines sscanf out_max ps (parse_line sscanf out_max p st)

abbrev pub start_scan : Scan
start_scan = record { session_ip = []; out = []; sections = 0; cur_idx = none }

-- `siprec_sdp_parse_remote_streams`, for an array of `out_max`.
unfoldable pub parse_remote_streams : Sscanf → ℕ → Option Bytes → List Negotiated
unfolding parse_lines
parse_remote_streams sscanf out_max none = []
parse_remote_streams sscanf out_max (some sdp) =
    if out_max == 0 then [] else (parse_lines sscanf out_max (line_starts sdp) start_scan).out

-- The text of `siprec_sdp_separate_append`, none for an error; its length is what it returns.
unfoldable pub separate_append : Bytes → Option Bytes
unfolding equal
separate_append direction =
    if equal direction (codes "sendonly") || equal direction (codes "inactive")
    then some (
        codes "a=label:1\r\na="
        ++ direction
        ++ codes
            "\r\nm=audio 9 RTP/AVP 0 8\r\na=rtpmap:0 PCMU/8000\r\na=rtpmap:8 PCMA/8000\r\na=label:2")
    else none

pub data AddrKind : Type 0 where
  addr_none addr_ipv4 addr_ipv6 : AddrKind

-- `siprec_sdp_addr_kind`, for what `inet_pton` says of each family.
unfoldable pub addr_kind : (Bytes → Bool) → (Bytes → Bool) → Option Bytes → AddrKind
addr_kind inet inet6 none = addr_none
addr_kind inet inet6 (some []) = addr_none
addr_kind inet inet6 (some (c ∷ ip)) =
    if inet (c ∷ ip) then addr_ipv4 else if inet6 (c ∷ ip) then addr_ipv6 else addr_none
