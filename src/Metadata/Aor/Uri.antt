-- ===== src/Metadata/Aor/Uri.antt =====
-- The address handed to the metadata document is always a URI, and URIs are left alone.
use mod_siprec.Base.{
  Bool, Bool-cases, Bytes, Option, [], all, ap, arith, codes, contains, false, inl, inr, length,
  lower, map, none, refl, some, starts_with_nocase, true, ℕ, ◌++◌, ◌+◌, ◌∷◌, ◌≡◌, ◌≢◌, ◌≤◌,
}
use mod_siprec.Sb.{max_cap, sb_appendf}
use mod_siprec.Sb.Append.{sb_appendf-Outcome}
use mod_siprec.Sb.Concat.{Taken, take-Writes, take-granted, whole}
use mod_siprec.Metadata.Aor.{aor_text, has_scheme, host_or_invalid, metadata_aor}

pub data Scheme : Bytes → Type 0 where
  sip : Scheme (codes "sip:")
  sips : Scheme (codes "sips:")
  tel : Scheme (codes "tel:")

-- The text begins with a scheme, in any case.
abbrev pub IsUri : Bytes → Type 0
IsUri s = (p : Bytes) × (rest : Bytes) × Scheme (map lower p) × (s ≡ p ++ rest)

abbrev Begins : Bytes → Bytes → Type 0
Begins word s = (p : Bytes) × (rest : Bytes) × (map lower p ≡ word) × (s ≡ p ++ rest)

starts_with_nocase-Begins : (word s : Bytes) → starts_with_nocase word s ≡ true → Begins word s
unfolding starts_with_nocase
starts_with_nocase-Begins [] s h = ([], s, refl, refl)
starts_with_nocase-Begins (c ∷ word) [] h = absurd (cc)
starts_with_nocase-Begins (c ∷ word) (d ∷ s) h =
    let (p, rest, same, e) = starts_with_nocase-Begins word s (ground arith) in
    let first : lower d ≡ c = ground arith in (d ∷ p, rest, rw (first, same) refl, ap (◌∷◌ d) e)

Begins-starts_with_nocase : (p rest : Bytes) → starts_with_nocase (map lower p) (p ++ rest) ≡ true
unfolding starts_with_nocase
Begins-starts_with_nocase [] rest = refl
Begins-starts_with_nocase (d ∷ p) rest = ground (arith, Begins-starts_with_nocase p rest)

Begins-IsUri : (word s : Bytes) → Scheme word → Begins word s → IsUri s
Begins-IsUri word s scheme (p, rest, same, e) = (p, rest, rw same scheme, e)

has_scheme-IsUri : (s : Bytes) → has_scheme s ≡ true → IsUri s
unfolding has_scheme
has_scheme-IsUri s h = elim (Bool-cases (starts_with_nocase (codes "sip:") s)) [
  | inl e ↦ Begins-IsUri _ s sip (starts_with_nocase-Begins _ s e)
  | inr no_sip ↦ elim (Bool-cases (starts_with_nocase (codes "sips:") s)) [
    | inl e ↦ Begins-IsUri _ s sips (starts_with_nocase-Begins _ s e)
    | inr no_sips ↦ Begins-IsUri _ s tel (starts_with_nocase-Begins _ s (rw (no_sip, no_sips) at h))
  ]
]

accepted : (s word : Bytes) → Scheme word → starts_with_nocase word s ≡ true → has_scheme s ≡ true
unfolding has_scheme
accepted s word sip e = rw e refl
accepted s word sips e = ground arith
accepted s word tel e = ground arith

IsUri-has_scheme : (s : Bytes) → IsUri s → has_scheme s ≡ true
IsUri-has_scheme s (p, rest, scheme, e) =
    accepted s (map lower p) scheme (rw e (Begins-starts_with_nocase p rest))

-- The host that an address without one is placed at.
pub data HostPart : Option Bytes → Bytes → Type 0 where
  given : (c : ℕ) (host : Bytes) → HostPart (some (c ∷ host)) (c ∷ host)
  missing : HostPart none (codes "invalid")
  empty : HostPart (some []) (codes "invalid")

-- What an address becomes.
pub data Normal (addr : Bytes) (host : Option Bytes) : Bytes → Type 0 where
  kept : IsUri addr → Normal addr host addr
  prefixed : ¬ IsUri addr → contains addr b'@' ≡ true → Normal addr host (codes "sip:" ++ addr)
  placed :
      {h : Bytes}
      → ¬ IsUri addr
      → contains addr b'@' ≡ false
      → HostPart host h
      → Normal addr host (codes "sip:" ++ (addr ++ (b'@' ∷ h)))

host_or_invalid-HostPart : (host : Option Bytes) → HostPart host (host_or_invalid host)
host_or_invalid-HostPart none = missing
host_or_invalid-HostPart (some []) = empty
host_or_invalid-HostPart (some (c ∷ host)) = given c host

not-IsUri : (s : Bytes) → has_scheme s ≡ false → ¬ IsUri s
not-IsUri s other uri = let yes = IsUri-has_scheme s uri in absurd (cc)

aor_text-Normal : (addr : Bytes) (host : Option Bytes) → Normal addr host (aor_text addr host)
unfolding aor_text
aor_text-Normal addr host = elim (Bool-cases (has_scheme addr)) [
  | inl uri ↦ rw uri (kept (has_scheme-IsUri addr uri))
  | inr other ↦ elim (Bool-cases (contains addr b'@')) [
    | inl at ↦ rw (other, at) (prefixed (not-IsUri addr other) at)
    | inr none_there ↦
        rw (other, none_there)
          (placed (not-IsUri addr other) none_there (host_or_invalid-HostPart host))
  ]
]

aor_text-has_scheme : (addr : Bytes) (host : Option Bytes) → has_scheme (aor_text addr host) ≡ true
unfolding aor_text
aor_text-has_scheme addr host = elim (Bool-cases (has_scheme addr)) [
  | inl uri ↦ rw uri uri
  | inr other ↦ rw other (unfold has_scheme starts_with_nocase in ground arith)
]

aor_text_fixed :
    (addr : Bytes) (host : Option Bytes) → has_scheme addr ≡ true → aor_text addr host ≡ addr
unfolding aor_text
aor_text_fixed addr host uri = rw uri

module _ (realloc : ℕ → ℕ → Bool) where
  -- Of an address that is set, the function gives the text that its format prints, or NULL for
  -- want of memory or because it passes the ceiling.
  metadata_aor-Taken :
      (c : ℕ) (s : Bytes) (host : Option Bytes)
      → Taken realloc (aor_text (c ∷ s) host) (metadata_aor realloc (some (c ∷ s)) host)
  unfolding metadata_aor
  metadata_aor-Taken c s host =
      take-Writes realloc {f = sb_appendf realloc (aor_text (c ∷ s) host)} _
        (sb_appendf-Outcome realloc (aor_text (c ∷ s) host))

  Taken-eq : {t aor : Bytes} → Taken realloc t (some aor) → aor ≡ t
  Taken-eq whole = refl

  -- An address is only produced of one that is set. It is left as it is if it begins with `sip:`,
  -- `sips:` or `tel:` in any case; otherwise it gets `sip:` in front, and an `@` and the host behind
  -- it if it has no `@`, where `invalid` stands for a host that is not set. What is produced begins
  -- with one of the three schemes.
  pub metadata_aor-Normal :
      (addr host : Option Bytes) (aor : Bytes)
      → metadata_aor realloc addr host ≡ some aor
      → (raw : Bytes) × (addr ≡ some raw) × (raw ≢ []) × Normal raw host aor × IsUri aor
  metadata_aor-Normal none host aor e = unfold metadata_aor in absurd (cc)
  metadata_aor-Normal (some []) host aor e = unfold metadata_aor in absurd (cc)
  metadata_aor-Normal (some (c ∷ s)) host aor e =
      let same = Taken-eq (rw e at (metadata_aor-Taken c s host)) in
      (
        c ∷ s,
        refl,
        λ none_there. cc,
        rw same (aor_text-Normal (c ∷ s) host),
        rw same (has_scheme-IsUri _ (aor_text-has_scheme (c ∷ s) host)),
      )

  -- Every address produced passes the test for a scheme.
  pub metadata_aor-has_scheme :
      (addr host : Option Bytes) (aor : Bytes)
      → metadata_aor realloc addr host ≡ some aor
      → has_scheme aor ≡ true
  metadata_aor-has_scheme none host aor e = unfold metadata_aor in absurd (cc)
  metadata_aor-has_scheme (some []) host aor e = unfold metadata_aor in absurd (cc)
  metadata_aor-has_scheme (some (c ∷ s)) host aor e =
      rw (Taken-eq (rw e at (metadata_aor-Taken c s host))) (aor_text-has_scheme (c ∷ s) host)

  metadata_aor_set :
      (aor : Bytes) (host : Option Bytes)
      → ((k size : ℕ) → realloc k size ≡ true)
      → has_scheme aor ≡ true
      → length aor + 1 ≤ max_cap
      → metadata_aor realloc (some aor) host ≡ some aor
  unfolding metadata_aor
  metadata_aor_set [] host all uri le = unfold has_scheme starts_with_nocase in absurd (cc)
  metadata_aor_set (c ∷ s) host all uri le = rw (aor_text_fixed (c ∷ s) host uri) (
      take-granted realloc {f = sb_appendf realloc (c ∷ s)} (c ∷ s) all (λ e. cc) le
        (sb_appendf-Outcome realloc (c ∷ s)))

  -- Normalizing an address that was produced before, with any host, changes nothing, if the
  -- allocator grants every call and the address fits under the buffer's ceiling.
  pub metadata_aor_idem :
      (addr host host' : Option Bytes) (aor : Bytes)
      → ((k size : ℕ) → realloc k size ≡ true)
      → length aor + 1 ≤ max_cap
      → metadata_aor realloc addr host ≡ some aor
      → metadata_aor realloc (some aor) host' ≡ some aor
  metadata_aor_idem addr host host' aor all le e =
      metadata_aor_set aor host' all (metadata_aor-has_scheme addr host aor e) le
