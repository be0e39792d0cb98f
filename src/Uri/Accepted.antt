-- ===== src/Uri/Accepted.antt =====
-- What an accepted URI is, without reference to the order of the checks in siprec_uri.c.
use mod_siprec.Base.{
  All, All-of_all, Bool-cases, Bytes, [], all, arith, codes, contains, false, has_infix,
  has_infix_found, has_infix_of, inl, inr, length, lower, none, refl, some, starts_with_nocase,
  true, ℕ, ◌++◌, ◌<◌, ◌↔◌, ◌∷◌, ◌≡◌, ◌≢◌, ◌≤◌, ◌⊎◌,
}
use mod_siprec.Uri.{check_rest, check_uri, uri_char_ok, uri_check}

abbrev pub IsAlphanumeric : ℕ → Type 0
IsAlphanumeric c = ((b'a' ≤ c) × (c ≤ b'z')) ⊎ ((b'A' ≤ c) × (c ≤ b'Z')) ⊎ ((b'0' ≤ c) × (c ≤ b'9'))

-- RFC 3261 characters that cannot end or split a target of the dial string.
abbrev pub punctuation : Bytes
punctuation = codes "-._~%!*+;=:@$"

abbrev pub IsUriChar : ℕ → Type 0
IsUriChar c = IsAlphanumeric c ⊎ (contains punctuation c ≡ true)

-- The URI begins with a scheme, of either case, and goes on behind it.
abbrev pub HasScheme : Bytes → Type 0
HasScheme uri =
    ((starts_with_nocase (codes "sip:") uri ≡ true) × (4 < length uri))
    ⊎ ((starts_with_nocase (codes "sips:") uri ≡ true) × (5 < length uri))

pub record IsAcceptable (uri : Bytes) : Type 0 where
  pub bounded : length uri ≤ 255
  pub scheme : HasScheme uri
  pub chars : All IsUriChar uri
  pub unseparated : (pre post : Bytes) → uri ≢ pre ++ (codes ":_:" ++ post)

uri_char_ok-IsUriChar : (c : ℕ) → uri_char_ok c ≡ true → IsUriChar c
unfolding uri_char_ok
uri_char_ok-IsUriChar c h = ground arith

uri_char_ok_of : (c : ℕ) → IsUriChar c → uri_char_ok c ≡ true
unfolding uri_char_ok contains
uri_char_ok_of c h = ground arith

all_of_All : (uri : Bytes) → All IsUriChar uri → all uri_char_ok uri ≡ true
all_of_All [] h = refl
all_of_All (c ∷ cs) h = ground (arith, uri_char_ok_of c h.0, all_of_All cs h.1)

unseparated_of :
    (uri : Bytes)
    → has_infix (codes ":_:") uri ≡ false
    → (pre post : Bytes) → uri ≢ pre ++ (codes ":_:" ++ post)
unseparated_of uri h pre post e = cc (h, has_infix_of (codes ":_:") pre post, e)

-- A prefix is no longer than the text.
starts_with_nocase-length : (p s : Bytes) → starts_with_nocase p s ≡ true → length p ≤ length s
unfolding starts_with_nocase
starts_with_nocase-length [] s h = omega arith
starts_with_nocase-length (c ∷ p) [] h = cc
starts_with_nocase-length (c ∷ p) (d ∷ s) h =
    omega (arith, starts_with_nocase-length p s (ground arith))

check_rest-none :
    (n : ℕ) (uri : Bytes)
    → check_rest n uri ≡ none
    → (length uri ≢ n)
      × All IsUriChar uri
      × ((pre post : Bytes) → uri ≢ pre ++ (codes ":_:" ++ post))
unfolding check_rest
check_rest-none n uri h = (
  ground arith,
  All-of_all IsUriChar uri_char_ok uri_char_ok-IsUriChar uri (ground arith),
  unseparated_of uri (ground arith),
)

none-check_rest :
    (n : ℕ) (uri : Bytes)
    → length uri ≢ n
    → All IsUriChar uri
    → ((pre post : Bytes) → uri ≢ pre ++ (codes ":_:" ++ post))
    → check_rest n uri ≡ none
unfolding check_rest
none-check_rest n uri h k sep = elim (Bool-cases (has_infix (codes ":_:") uri)) [
  | inl found ↦
      let (pre, post, e) = has_infix_found (codes ":_:") uri found in absurd (sep pre post e)
  | inr clear ↦ ground (arith, all_of_All uri k)
]

sips-not-sip :
    (uri : Bytes)
    → starts_with_nocase (codes "sips:") uri ≡ true
    → starts_with_nocase (codes "sip:") uri ≡ false
unfolding starts_with_nocase lower
sips-not-sip (a ∷ b ∷ c ∷ d ∷ cs) h = ground arith
sips-not-sip [] h = cc
sips-not-sip (a ∷ []) h = ground arith
sips-not-sip (a ∷ b ∷ []) h = ground arith
sips-not-sip (a ∷ b ∷ c ∷ []) h = ground arith

module _ (uri : Bytes) where
  scheme_of :
      (n : ℕ)
      → (length uri ≤ 255)
      → check_rest n uri ≡ none
      → HasScheme uri ⊎ (length uri ≡ n)
      → IsAcceptable uri
  scheme_of n le h (inl s) =
      let (_, chars, sep) = check_rest-none n uri h in
      record { bounded = le; scheme = s; chars = chars; unseparated = sep }
  scheme_of n le h (inr e) = absurd ((check_rest-none n uri h).0 e)

  check_uri-none : check_uri uri ≡ none → IsAcceptable uri
  unfolding check_uri
  check_uri-none h = elim (Bool-cases (starts_with_nocase (codes "sip:") uri)) [
    | inl s ↦
        scheme_of 4 (ground arith) (ground arith)
          (ground (arith, starts_with_nocase-length (codes "sip:") uri s))
    | inr not_s ↦ elim (Bool-cases (starts_with_nocase (codes "sips:") uri)) [
      | inl s ↦
          scheme_of 5 (ground arith) (ground arith)
            (ground (arith, starts_with_nocase-length (codes "sips:") uri s))
      | inr neither ↦ absurd (ground arith)
    ]
  ]

  accept :
      length uri ≤ 255
      → HasScheme uri
      → (length uri ≢ 4 → check_rest 4 uri ≡ none)
      → (length uri ≢ 5 → check_rest 5 uri ≡ none)
      → check_uri uri ≡ none
  unfolding check_uri
  accept le (inl (s, lt)) four five = ground (arith, s, four (omega arith))
  accept le (inr (s, lt)) four five = ground (arith, s, sips-not-sip uri s, five (omega arith))

  none-check_uri : IsAcceptable uri → check_uri uri ≡ none
  none-check_uri h =
      accept h.bounded h.scheme (λ ne. none-check_rest 4 uri ne h.chars h.unseparated)
        (λ ne. none-check_rest 5 uri ne h.chars h.unseparated)

-- The check accepts a URI exactly if it has at most 255 bytes, begins with `sip:` or `sips:` in
-- any case and goes on behind it, holds allowlisted characters only, and has no `:_:` anywhere.
pub uri_check-accepts_iff : (uri : Bytes) → (uri_check (some uri) ≡ none) ↔ IsAcceptable uri
unfolding uri_check
uri_check-accepts_iff [] = (λ h. cc, λ h. absurd (ground (arith, h.scheme)))
uri_check-accepts_iff (c ∷ cs) = (check_uri-none (c ∷ cs), none-check_uri (c ∷ cs))

-- The characters that the originate dial-string grammar treats specially, and white space.
abbrev pub metachars : Bytes
metachars = codes ",|{}[]<>()'\"\\^? \t\r\n"

IsUriChar-metachars : (c : ℕ) → IsUriChar c → contains metachars c ≡ false
unfolding contains
IsUriChar-metachars c h = ground arith

All-metachars : (uri : Bytes) → All IsUriChar uri → All (λ c. contains metachars c ≡ false) uri
All-metachars [] h = tt
All-metachars (c ∷ cs) h = (IsUriChar-metachars c h.0, All-metachars cs h.1)

-- No byte of an accepted URI is one that the dial-string grammar treats specially (separators of
-- targets, variable blocks, quotes, escapes) or white space.
pub uri_check-metachars :
    (uri : Bytes) → uri_check (some uri) ≡ none → All (λ c. contains metachars c ≡ false) uri
uri_check-metachars uri h = All-metachars uri ((uri_check-accepts_iff uri).0 h).chars
