-- ===== src/Sdp/Endpoints.antt =====
-- The streams that siprec_sdp.c's parser has so far, as its steps change them.
use mod_siprec.Base.{
  All, All-append, Bytes, List, [], ap, arith, length, refl, suc, zero, ℕ, ◌++◌, ◌+◌, ◌<◌, ◌∷◌, ◌≡◌,
  ◌≤◌, ◌⊎◌,
}
use mod_siprec.Sdp.{Negotiated, change_ip}

-- A stream of one of the first `sections` m= lines, fit for its fixed-size fields.
pub record IsEndpoint (sections : ℕ) (s : Negotiated) : Type 0 where
  pub ip_fits : length s.remote_ip ≤ 63
  pub port_low : 0 < s.remote_port
  pub port_high : s.remote_port ≤ 65535
  pub type_known : (s.pt ≤ 127) ⊎ (s.pt ≡ 255)
  pub section : s.mline < sections

-- The m= lines of the streams go up.
abbrev pub Ascending : List Negotiated → Type 0
Ascending [] = Unit
Ascending (s ∷ out) = All (λ t. s.mline < t.mline) out × Ascending out

pub later_section :
    (n : ℕ) (out : List Negotiated) → All (IsEndpoint n) out → All (IsEndpoint (n + 1)) out
later_section n [] h = tt
later_section n (s ∷ out) (e, h) = (
  record {
    ip_fits = e.ip_fits;
    port_low = e.port_low;
    port_high = e.port_high;
    type_known = e.type_known;
    section = omega (arith, e.section);
  },
  later_section n out h,
)

pub length-change_ip :
    (ip : Bytes) (i : ℕ) (out : List Negotiated) → length (change_ip ip i out) ≡ length out
length-change_ip ip i [] = refl
length-change_ip ip zero (s ∷ out) = refl
length-change_ip ip (suc i) (s ∷ out) = ap suc (length-change_ip ip i out)

pub change_ip-endpoints :
    (n : ℕ) (ip : Bytes) (i : ℕ) (out : List Negotiated)
    → length ip ≤ 63
    → All (IsEndpoint n) out
    → All (IsEndpoint n) (change_ip ip i out)
change_ip-endpoints n ip i [] fits h = tt
change_ip-endpoints n ip zero (s ∷ out) fits (e, h) = (
  record {
    ip_fits = fits;
    port_low = e.port_low;
    port_high = e.port_high;
    type_known = e.type_known;
    section = e.section;
  },
  h,
)
change_ip-endpoints n ip (suc i) (s ∷ out) fits (e, h) = (e, change_ip-endpoints n ip i out fits h)

-- A change of addresses keeps what is said of the m= lines alone.
change_ip-above :
    (m : ℕ) (ip : Bytes) (i : ℕ) (out : List Negotiated)
    → All (λ t. m < t.mline) out
    → All (λ t. m < t.mline) (change_ip ip i out)
change_ip-above m ip i [] h = tt
change_ip-above m ip zero (s ∷ out) h = h
change_ip-above m ip (suc i) (s ∷ out) (e, h) = (e, change_ip-above m ip i out h)

pub change_ip-Ascending :
    (ip : Bytes) (i : ℕ) (out : List Negotiated) → Ascending out → Ascending (change_ip ip i out)
change_ip-Ascending ip i [] h = tt
change_ip-Ascending ip zero (s ∷ out) h = h
change_ip-Ascending ip (suc i) (s ∷ out) (above, h) =
    (change_ip-above s.mline ip i out above, change_ip-Ascending ip i out h)

pub Ascending-last :
    (n : ℕ) (out : List Negotiated) (s : Negotiated)
    → All (IsEndpoint n) out
    → Ascending out
    → s.mline ≡ n
    → Ascending (out ++ (s ∷ []))
Ascending-last n [] s es h at_end = (tt, tt)
Ascending-last n (t ∷ out) s (e, es) (above, h) at_end = (
  All-append (λ u. t.mline < u.mline) out (s ∷ []) above (omega (arith, e.section), tt),
  Ascending-last n out s es h at_end,
)
