-- ===== src/Security/Ssrf/Resolve.antt =====
-- What a URL that `validate_url_ssrf_safe` of src/acip/core/security/ssrf.py lets through resolves to.
use agentic_cyber_investigat.Prelude.{
  ℕ, ap, ◌∙◌, ◌≡◌, ◌≢◌, ◌<◌, ◌⊎◌, length, length-append, refl, true, none, some, List, [], ◌∷◌,
  ◌++◌, any, All, All-append, String, arith, Bool-cases, Option-cases, inl, inr,
}
use agentic_cyber_investigat.Prelude.Result.{Result-cases, Returned}
use agentic_cyber_investigat.Security.Ssrf.{IpAddress, is_ip_forbidden}
use agentic_cyber_investigat.Security.Ssrf.Urls.{
  SplitResult, Net, same_ip, admit, port_of, parse_url, resolve_host, validate_url_ssrf_safe,
}

positive : (raw : List String) → raw ≢ [] → 0 < length raw
positive [] h = absurd (h refl)
positive (r ∷ raw) h = omega arith

module _ {W : Type 0} (net : Net W) where
  abbrev pub LetThrough : IpAddress → Type 0
  LetThrough ip = is_ip_forbidden net.flags ip ≡ none

  -- A successful lookup has an answer.
  abbrev pub Answers : Type 0
  Answers = (hostname : String) (port : ℕ) (w : W) → (net.getaddrinfo hostname port w).0 ≢ some []

  -- Addresses that may be reached, one at least.
  abbrev pub Usable : List IpAddress → Type 0
  Usable ips = All LetThrough ips × (0 < length ips)

  any-nonempty :
      (ip : IpAddress) (ips : List IpAddress) → any (same_ip ip) ips ≡ true → 0 < length ips
  any-nonempty ip [] h = cc
  any-nonempty ip (i ∷ ips) h = omega arith

  admit-Usable :
      (raw : List String) (ips : List IpAddress)
      → All LetThrough ips
      → (0 < length ips) ⊎ (0 < length raw)
      → Returned Usable (admit net ips raw)
  unfolding admit
  admit-Usable [] ips h some_left = (h, ground arith)
  admit-Usable (r ∷ raw) ips h some_left = elim (Option-cases (net.ip_address r)) [
    | inl e ↦ rw (e, admit) tt
    | inr (ip, e) ↦ elim (Option-cases (is_ip_forbidden net.flags ip)) [
      | inr (reason, f) ↦ rw (e, f, admit) tt
      | inl f ↦ elim (Bool-cases (any (same_ip ip) ips)) [
        | inl known ↦
            rw (e, f, known, admit) (admit-Usable raw ips h (inl (any-nonempty ip ips known)))
        | inr new ↦
            rw (e, f, new, admit)
              (admit-Usable raw (ips ++ ip ∷ []) (All-append LetThrough ips (ip ∷ []) h (f, tt))
                (inl (omega (arith, length-append ips (ip ∷ [])))))
      ]
    ]
  ]

  resolve_host-Usable :
      Answers
      → (parsed : SplitResult) (hostname : String) (w : W)
      → Returned Usable (resolve_host net parsed hostname true w).0
  unfolding resolve_host
  resolve_host-Usable answers parsed hostname w = elim (Option-cases (net.ip_address hostname)) [
    | inr (ip, e) ↦ elim (Option-cases (is_ip_forbidden net.flags ip)) [
      | inr (reason, f) ↦ rw (e, f, resolve_host) tt
      | inl f ↦ rw (e, f, resolve_host) ((f, tt), omega arith)
    ]
    | inl e ↦ elim (Result-cases (port_of net parsed)) [
      | inl (fault, f) ↦ rw (e, f, resolve_host) tt
      | inr (port, f) ↦ elim (Option-cases (net.getaddrinfo hostname port w).0) [
        | inl g ↦ rw (e, f, g, resolve_host) tt
        | inr (raw, g) ↦
            rw (e, f, g, resolve_host)
              (admit-Usable raw [] tt (
                inr
                  (positive raw (λ none_found. answers hostname port w (g ∙ ap some none_found)))))
      ]
    ]
  ]

  -- What a URL is resolved to may be reached, and is not nothing.
  pub validate-Usable :
      Answers
      → (url : String) (w : W)
      → Returned (λ found. Usable found.1) (validate_url_ssrf_safe net url true w).0
  unfolding validate_url_ssrf_safe
  validate-Usable answers url w = elim (Result-cases (parse_url net url)) [
    | inl (fault, e) ↦ rw (e, validate_url_ssrf_safe) tt
    | inr ((parsed, hostname), e) ↦
        let usable = resolve_host-Usable answers parsed hostname w in
        elim (Result-cases (resolve_host net parsed hostname true w).0) [
          | inl (fault, f) ↦ rw (e, f, validate_url_ssrf_safe) tt
          | inr (ips, f) ↦ rw (e, f, validate_url_ssrf_safe) (rw f at usable)
        ]
  ]
