-- ===== src/Security/Ssrf/Examples.antt =====
-- A server that redirects, and a resolver that answers with an inner address the second time.
use text.Mathlib.Text.{◌==◌ as str_eq}
use agentic_cyber_investigat.Prelude.{
  ℕ, zero, suc, ◌+◌, ◌≤◌, ◌≡◌, ◌≢◌, ◌*◌, refl, String, false, Option, none, some, List, [], ◌∷◌,
  length, All, if◌then◌else◌,
}
use agentic_cyber_investigat.Prelude.Result.{err, Returned}
use agentic_cyber_investigat.Security.Ssrf.{
  IpAddress, ipv4, ipv6, quad, AddressFlags, is_ip_forbidden, cloud_metadata, forbidden_range,
}
use agentic_cyber_investigat.Security.Ssrf.Urls.{blocked_hostname, resolved_to_forbidden, Net}
use agentic_cyber_investigat.Security.Ssrf.Fetch.{Fetcher, read_body, fetch_url}
use agentic_cyber_investigat.Security.Ssrf.Fetch.Hops.{IsPinned, IsBounded, fetch_url-IsSafe}

abbrev silent : AddressFlags
silent = record {
  is_loopback = λ ip. false;
  is_private = λ ip. false;
  is_link_local = λ ip. false;
  is_multicast = λ ip. false;
  is_reserved = λ ip. false;
  is_unspecified = λ ip. false;
}

abbrev outer : IpAddress
outer = ipv4 (quad 93 184 216 34)

abbrev inner : IpAddress
inner = ipv4 (quad 10 0 0 7)

abbrev address : String → Option IpAddress
address s = if str_eq s "outer" then some outer else if str_eq s "inner" then some inner else none

-- The number of lookups is the state of the world.
abbrev lookup : ℕ → Option (List String)
lookup zero = some ("outer" ∷ [])
lookup (suc n) = some ("inner" ∷ [])

abbrev net : (ℕ → Option (List String)) → Net ℕ
net lookup = record {
  flags = silent;
  lower = λ s. s;
  urlsplit = λ s. some (record {
    scheme = "http";
    netloc = s;
    path = "";
    query = "";
    fragment = "";
    hostname = some s;
    port = some none;
  });
  urlunsplit = λ parts. parts.netloc;
  urljoin = λ base location. some location;
  ip_address = address;
  getaddrinfo = λ hostname port n. (lookup n, suc n);
  get = λ ip url n. (
    some (record {
      status_code = if str_eq url "moved.test" then 302 else 200;
      location = some "there.test";
      content_type = none;
      chunks = (1 ∷ 2 ∷ []) ∷ [] ∷ (3 ∷ []) ∷ [];
      broken = false;
    }),
    n,
  );
  sha256 = length;
}

abbrev fetcher : Fetcher
fetcher = record { max_bytes = 3; max_redirects = 1 }

is_ip_forbidden_runs :
    (is_ip_forbidden silent outer ≡ none)
    × (is_ip_forbidden silent (ipv4 (quad 169 254 169 254)) ≡ some cloud_metadata)
    × (is_ip_forbidden silent (ipv6 (0xffff * 0x100000000 + quad 127 0 0 1))
        ≡ some (forbidden_range (record { address = quad 127 0 0 0; prefix = 8 })))
unfolding is_ip_forbidden
is_ip_forbidden_runs = (refl, refl, refl)

-- The redirect is not followed to the inner address.
fetch_url_runs :
    ((fetch_url (net lookup) fetcher "moved.test" 0).result
      ≡ err (
          resolved_to_forbidden inner
            (forbidden_range (record { address = quad 10 0 0 0; prefix = 8 }))))
    × (Returned
        (λ r. r.content ≡ 1 ∷ 2 ∷ 3 ∷ [])
        (fetch_url (net lookup) fetcher "there.test" 0).result)
    × ((fetch_url (net lookup) fetcher "x.internal" 0).result ≡ err (blocked_hostname "x.internal"))
unfolding fetch_url is_ip_forbidden read_body
fetch_url_runs = (refl, refl, refl)

lookup-Answers : (hostname : String) (port n : ℕ) → lookup n ≢ some []
lookup-Answers hostname port zero e = cc
lookup-Answers hostname port (suc n) e = cc

fetch_url-IsSafe_example :
    All IsPinned (fetch_url (net lookup) fetcher "moved.test" 0).connections
    × (length (fetch_url (net lookup) fetcher "moved.test" 0).connections
        ≤ fetcher.max_redirects + 1)
    × Returned
        (IsBounded (net lookup) fetcher)
        (fetch_url (net lookup) fetcher "moved.test" 0).result
fetch_url-IsSafe_example = fetch_url-IsSafe (net lookup) fetcher lookup-Answers "moved.test" 0
