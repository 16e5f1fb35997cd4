-- ===== src/Security/Ssrf/Urls.antt =====
-- `validate_url_ssrf_safe` of src/acip/core/security/ssrf.py: the check of a URL and the resolution of its
-- host. The parts of urllib and the resolver are parameters; `W` is the state of the world, so the resolver
-- may answer the same question differently the next time.
use Prim.Native.String.{count}
use text.Mathlib.Text.{◌==◌ as str_eq}
use agentic_cyber_investigat.Prelude.{
  ℕ, String, Bool, true, false, not, ◌||◌, Option, none, some, List, [], ◌∷◌, ◌++◌, any,
  if◌then◌else◌, ltb, ◌==◌,
}
use agentic_cyber_investigat.Prelude.Result.{Result, ok, err, ◌>>=◌, ◌>>◌, raise_if}
use agentic_cyber_investigat.Prelude.Text.{is_empty, strip, drop_right, ends_with}
use agentic_cyber_investigat.Security.Ssrf.{
  IpAddress, ipv4, ipv6, AddressFlags, Reason, is_ip_forbidden,
}

-- What `urlsplit` gives; the port is `none` if reading it raises.
pub record SplitResult : Type 0 where
  pub scheme : String
  pub netloc : String
  pub path : String
  pub query : String
  pub fragment : String
  pub hostname : Option String
  pub port : Option (Option ℕ)

pub data FetchFault : Type 0 where
  empty_url url_too_long malformed_url missing_hostname invalid_port unresolved : FetchFault
  disallowed_scheme blocked_hostname invalid_resolved : String → FetchFault
  blocked_ip resolved_to_forbidden : IpAddress → Reason → FetchFault
  no_location too_many_redirects malformed_location too_large request_failed : FetchFault
  error_status : ℕ → FetchFault

-- A response as it is streamed; `broken` says that the transfer fails behind the chunks.
pub record Response : Type 0 where
  pub status_code : ℕ
  pub location : Option String
  pub content_type : Option String
  pub chunks : List (List ℕ)
  pub broken : Bool

-- What the module uses of the libraries. A `none` is an exception; `get` is given the address that the
-- transport is pinned to.
pub record Net (W : Type 0) : Type 0 where
  pub flags : AddressFlags
  pub lower : String → String
  pub urlsplit : String → Option SplitResult
  pub urlunsplit : SplitResult → String
  pub urljoin : String → String → Option String
  pub ip_address : String → Option IpAddress
  pub getaddrinfo : String → ℕ → W → Option (List String) × W
  pub get : Option IpAddress → String → W → Option Response × W
  pub sha256 : List ℕ → ℕ

unfoldable pub is_blocked_hostname : String → Bool
unfolding ends_with
is_blocked_hostname hostname =
    str_eq hostname "localhost"
    || (str_eq hostname "metadata.google.internal"
        || (str_eq hostname "metadata.internal"
            || (str_eq hostname "instance-data"
                || (ends_with ".localhost" hostname
                    || (ends_with ".internal" hostname || ends_with ".local" hostname)))))

abbrev pub same_ip : IpAddress → IpAddress → Bool
same_ip (ipv4 m) (ipv4 n) = m == n
same_ip (ipv6 m) (ipv6 n) = m == n
same_ip _ _ = false

module _ {W : Type 0} (net : Net W) where
  -- The host of a URL that the checks of the text let through, with the parts.
  pub parse_url : String → Result FetchFault (SplitResult × String)
  unfolding strip drop_right is_blocked_hostname
  parse_url url = do
    let candidate = strip url
    raise_if (is_empty candidate) empty_url
    raise_if (ltb 4096 (count candidate)) url_too_long
    parsed ← elim (net.urlsplit candidate) [ none ↦ err malformed_url | some parts ↦ ok parts ]
    let scheme = net.lower parsed.scheme
    raise_if (not (str_eq scheme "http" || str_eq scheme "https")) (disallowed_scheme parsed.scheme)
    let given = elim parsed.hostname as (λ _. String) [ none ↦ "" | some h ↦ h ]
    let hostname = drop_right (λ c. c == b'.') (net.lower given)
    raise_if (is_empty hostname) missing_hostname
    raise_if (is_blocked_hostname hostname) (blocked_hostname hostname)
    ok (parsed, hostname)

  -- The loop over the answers of the resolver.
  unfoldable pub admit : List IpAddress → List String → Result FetchFault (List IpAddress)
  admit resolved_ips [] = ok resolved_ips
  admit resolved_ips (ip_raw ∷ more) = elim (net.ip_address ip_raw) [
    | none ↦ err (invalid_resolved ip_raw)
    | some ip ↦ elim (is_ip_forbidden net.flags ip) [
      | some reason ↦ err (resolved_to_forbidden ip reason)
      | none ↦
          admit (if any (same_ip ip) resolved_ips then resolved_ips else resolved_ips ++ ip ∷ [])
            more
    ]
  ]

  -- `parsed.port or (443 if scheme == "https" else 80)`
  abbrev pub port_of : SplitResult → Result FetchFault ℕ
  port_of parsed =
      let default : ℕ = if str_eq (net.lower parsed.scheme) "https" then 443 else 80 in
      elim parsed.port [
        | none ↦ err invalid_port
        | some none ↦ ok default
        | some (some port) ↦ ok (if port == 0 then default else port)
      ]

  -- The addresses of a host.
  unfoldable pub resolve_host :
      SplitResult → String → Bool → W → Result FetchFault (List IpAddress) × W
  unfolding admit
  resolve_host parsed hostname resolve_dns w = elim (net.ip_address hostname) [
    | some literal_ip ↦ elim (is_ip_forbidden net.flags literal_ip) [
      | some reason ↦ (err (blocked_ip literal_ip reason), w)
      | none ↦ (ok (literal_ip ∷ []), w)
    ]
    | none ↦ elim resolve_dns [
      | false ↦ (ok [], w)
      | true ↦ elim (port_of parsed) [
        | err e ↦ (err e, w)
        | ok port ↦
            let answer = net.getaddrinfo hostname port w in
            (elim answer.0 [ none ↦ err unresolved | some raw ↦ admit [] raw ], answer.1)
      ]
    ]
  ]

  abbrev pub reconstructed : SplitResult → String
  reconstructed parsed = net.urlunsplit (record parsed {
    scheme = net.lower parsed.scheme;
    path = if is_empty parsed.path then "/" else parsed.path;
  })

  unfoldable pub validate_url_ssrf_safe :
      String → Bool → W → Result FetchFault (String × List IpAddress) × W
  unfolding parse_url resolve_host
  validate_url_ssrf_safe url resolve_dns w = elim (parse_url url) [
    | err e ↦ (err e, w)
    | ok (parsed, hostname) ↦
        let found = resolve_host parsed hostname resolve_dns w in
        (elim found.0 [ err e ↦ err e | ok ips ↦ ok (reconstructed parsed, ips) ], found.1)
  ]
