-- ===== src/Security/Ssrf/Fetch.antt =====
-- src/acip/core/security/ssrf.py: `SafeHTTPFetcher`, which follows redirects by hand. `connections` are
-- those that the transport is asked for, in their order, pinned to an address or not. Of the headers
-- the location and the content type are kept; time limits are inside `get`.
pub mod Hops
use agentic_cyber_investigat.Prelude.{
  ℕ, zero, suc, ◌+◌, String, Bool, true, false, ◌||◌, Option, none, some, List, [], ◌∷◌, ◌++◌,
  length, if◌then◌else◌, ltb, leb, ◌==◌,
}
use agentic_cyber_investigat.Prelude.Result.{Result, ok, err, ◌>>=◌, ◌>>◌, raise_if}
use agentic_cyber_investigat.Prelude.Text.{is_empty}
use agentic_cyber_investigat.Security.Ssrf.{IpAddress}
use agentic_cyber_investigat.Security.Ssrf.Urls.{
  FetchFault, no_location, too_many_redirects, malformed_location, too_large, request_failed,
  error_status, Response, Net, validate_url_ssrf_safe,
}

pub record Fetcher : Type 0 where
  pub max_bytes : ℕ
  pub max_redirects : ℕ

pub record SafeFetchResult : Type 0 where
  pub url : String
  pub status_code : ℕ
  pub content : List ℕ
  pub content_type : String
  pub sha256 : ℕ

pub record Connection : Type 0 where
  pub pinned_ip : Option IpAddress
  pub url : String

pub record Fetched (W : Type 0) : Type 0 where
  pub result : Result FetchFault SafeFetchResult
  pub connections : List Connection
  pub world : W

abbrev pub is_redirect : ℕ → Bool
is_redirect status =
    status == 301 || (status == 302 || (status == 303 || (status == 307 || status == 308)))

-- The loop over the chunks of a body; `content` are those that were read.
unfoldable pub read_body : ℕ → ℕ → List ℕ → List (List ℕ) → Bool → Result FetchFault (List ℕ)
read_body max_bytes total_bytes content [] true = err request_failed
read_body max_bytes total_bytes content [] false = ok content
read_body max_bytes total_bytes content ([] ∷ chunks) broken =
    read_body max_bytes total_bytes content chunks broken
read_body max_bytes total_bytes content ((b ∷ chunk) ∷ chunks) broken =
    let total = total_bytes + length (b ∷ chunk) in
    let rest = read_body max_bytes total (content ++ b ∷ chunk) chunks broken in
    if ltb max_bytes total then err too_large else rest

-- `pinned_ip`
abbrev pub pinned_of : List IpAddress → Option IpAddress
pinned_of [] = none
pinned_of (ip ∷ ips) = some ip

-- A response either leads on to a URL or is the result.
pub data Hop : Type 0 where
  redirected : String → Hop
  fetched : SafeFetchResult → Hop

abbrev pub location_of : Option String → Result FetchFault String
location_of none = err no_location
location_of (some location) = if is_empty location then err no_location else ok location

module _ {W : Type 0} (net : Net W) (f : Fetcher) where
  abbrev pub next_url : ℕ → String → Response → Result FetchFault Hop
  next_url redirect_count current_url resp = do
    location ← location_of resp.location
    raise_if (leb f.max_redirects redirect_count) too_many_redirects
    elim (net.urljoin current_url location) [
      | none ↦ err malformed_location
      | some next ↦ ok (redirected next)
    ]

  abbrev pub body_of : String → Response → Result FetchFault Hop
  unfolding read_body
  body_of validated_url resp = do
    raise_if (leb 400 resp.status_code) (error_status resp.status_code)
    content ← read_body f.max_bytes 0 [] resp.chunks resp.broken
    ok (
        fetched (record {
          url = validated_url;
          status_code = resp.status_code;
          content = content;
          content_type = elim resp.content_type [ none ↦ "application/octet-stream" | some t ↦ t ];
          sha256 = net.sha256 content;
        }))

  -- What is done with a response.
  pub answer_of : ℕ → String → String → Response → Result FetchFault Hop
  unfolding body_of
  answer_of redirect_count current_url validated_url resp =
      if is_redirect resp.status_code
      then next_url redirect_count current_url resp
      else body_of validated_url resp

  -- The rounds that are left, from `redirect_count` on.
  pub hops : ℕ → ℕ → String → W → Fetched W
  unfolding answer_of
  hops zero redirect_count current_url w = record {
    result = err too_many_redirects;
    connections = [];
    world = w;
  }
  hops (suc rounds) redirect_count current_url w =
      let checked = validate_url_ssrf_safe net current_url true w in
      elim checked.0 [
        | err e ↦ record { result = err e; connections = []; world = checked.1 }
        | ok (validated_url, resolved_ips) ↦
            let pinned_ip = pinned_of resolved_ips in
            let connection : Connection = record { pinned_ip = pinned_ip; url = validated_url } in
            let reply = net.get pinned_ip validated_url checked.1 in
            elim reply.0 [
              | none ↦ record {
                result = err request_failed;
                connections = connection ∷ [];
                world = reply.1;
              }
              | some resp ↦ elim (answer_of redirect_count current_url validated_url resp) [
                | err e ↦ record { result = err e; connections = connection ∷ []; world = reply.1 }
                | ok (fetched result) ↦ record {
                  result = ok result;
                  connections = connection ∷ [];
                  world = reply.1;
                }
                | ok (redirected next) ↦
                    let later = hops rounds (suc redirect_count) next reply.1 in
                    record later { connections = connection ∷ later.connections }
              ]
            ]
      ]

  unfoldable pub fetch_url : String → W → Fetched W
  unfolding hops validate_url_ssrf_safe
  fetch_url target_url w = hops (suc f.max_redirects) 0 target_url w
