-- ===== src/Security/Ssrf/Fetch/Hops.antt =====
-- Where the fetcher of src/acip/core/security/ssrf.py connects to, and what it returns.
use agentic_cyber_investigat.Prelude.{
  ℕ, zero, suc, ◌+◌, ◌≡◌, ◌≤◌, ◌<◌, refl, String, Bool, true, false, some, List, [], ◌∷◌, ◌++◌,
  length, length-append, All, ltb, leb, arith, Bool-cases, Option-cases, inl, inr,
}
use agentic_cyber_investigat.Prelude.Result.{Result, ok, err, Result-cases, Returned}
use agentic_cyber_investigat.Security.Ssrf.{IpAddress}
use agentic_cyber_investigat.Security.Ssrf.Urls.{
  FetchFault, request_failed, Response, Net, validate_url_ssrf_safe,
}
use agentic_cyber_investigat.Security.Ssrf.Ranges.{IsPublic, is_ip_forbidden-IsPublic}
use agentic_cyber_investigat.Security.Ssrf.Resolve.{Answers, Usable, validate-Usable}
use agentic_cyber_investigat.Security.Ssrf.Fetch.{
  Fetcher, SafeFetchResult, Connection, Fetched, is_redirect, read_body, pinned_of, Hop, redirected,
  fetched, location_of, next_url, answer_of, hops, fetch_url,
}

-- A connection is pinned to an address outside of the inner ranges.
abbrev pub IsPinned : Connection → Type 0
IsPinned c = (ip : IpAddress) × (c.pinned_ip ≡ some ip) × IsPublic ip

read_body-Bounded :
    (max_bytes total : ℕ) (content : List ℕ) (chunks : List (List ℕ)) (broken : Bool)
    → total ≡ length content
    → total ≤ max_bytes
    → Returned (λ body. length body ≤ max_bytes) (read_body max_bytes total content chunks broken)
unfolding read_body
read_body-Bounded max_bytes total content [] true e h = tt
read_body-Bounded max_bytes total content [] false e h = omega arith
read_body-Bounded max_bytes total content ([] ∷ chunks) broken e h =
    read_body-Bounded max_bytes total content chunks broken e h
read_body-Bounded max_bytes total content ((b ∷ chunk) ∷ chunks) broken e h =
    elim (Bool-cases (ltb max_bytes (total + length (b ∷ chunk)))) [
      | inl over ↦ rw over tt
      | inr within ↦ rw within (
          read_body-Bounded max_bytes (total + length (b ∷ chunk)) (content ++ b ∷ chunk) chunks
            broken (omega (arith, length-append content (b ∷ chunk))) (ground arith))
    ]

pinned_of-IsPinned :
    {W : Type 0} (net : Net W) (ips : List IpAddress)
    → Usable net ips
    → (ip : IpAddress) × (pinned_of ips ≡ some ip) × IsPublic ip
pinned_of-IsPinned net [] h = absurd (let few = h.1 in omega arith)
pinned_of-IsPinned net (ip ∷ ips) h = (ip, refl, is_ip_forbidden-IsPublic net.flags ip h.0.0)

module _ {W : Type 0} (net : Net W) (f : Fetcher) where
  -- A result that was read within the limit, of a status that is no error and no redirect.
  abbrev pub IsBounded : SafeFetchResult → Type 0
  IsBounded r =
      (length r.content ≤ f.max_bytes) × (r.status_code < 400) × (is_redirect r.status_code ≡ false)

  abbrev Fits : Hop → Type 0
  Fits (redirected next) = Unit
  Fits (fetched result) = IsBounded result

  next_url-Fits :
      (n : ℕ) (current : String) (resp : Response) → Returned Fits (next_url net f n current resp)
  next_url-Fits n current resp = elim (Result-cases (location_of resp.location)) [
    | inl (fault, e) ↦ rw e tt
    | inr (location, e) ↦ elim (Bool-cases (leb f.max_redirects n)) [
      | inl many ↦ rw (e, many) tt
      | inr few ↦ elim (Option-cases (net.urljoin current location)) [
        | inl g ↦ simp (e, few, g) tt
        | inr (next, g) ↦ simp (e, few, g) tt
      ]
    ]
  ]

  answer_of-Fits :
      (n : ℕ) (current validated : String) (resp : Response)
      → Returned Fits (answer_of net f n current validated resp)
  unfolding answer_of
  answer_of-Fits n current validated resp = elim (Bool-cases (is_redirect resp.status_code)) [
    | inl redirect ↦ rw redirect (next_url-Fits n current resp)
    | inr other ↦ elim (Bool-cases (leb 400 resp.status_code)) [
      | inl bad ↦ rw (other, bad) tt
      | inr good ↦
          let bounded =
            read_body-Bounded f.max_bytes 0 [] resp.chunks resp.broken refl (omega arith) in
          elim (Result-cases (read_body f.max_bytes 0 [] resp.chunks resp.broken)) [
            | inl (fault, e) ↦ rw (other, good, e) tt
            | inr (content, e) ↦ rw (other, good, e) (rw e at bounded, ground arith, other)
          ]
    ]
  ]

  -- Of a run of the fetcher with this many rounds left.
  record IsSafe (rounds : ℕ) (r : Fetched W) : Type 0 where
    pinned : All IsPinned r.connections
    few : length r.connections ≤ rounds
    bounded : Returned IsBounded r.result

  one :
      (c : Connection) (r : Result FetchFault SafeFetchResult) (rounds : ℕ) (w : W)
      → IsPinned c
      → Returned IsBounded r
      → IsSafe (suc rounds) (record { result = r; connections = c ∷ []; world = w })
  one c r rounds w p b = record { pinned = (p, tt); few = omega arith; bounded = b }

  hops-IsSafe :
      Answers net
      → (rounds n : ℕ) (url : String) (w : W) → IsSafe rounds (hops net f rounds n url w)
  unfolding hops
  hops-IsSafe answers zero n url w = record { pinned = tt; few = omega arith; bounded = tt }
  hops-IsSafe answers (suc rounds) n url w =
      let checked = validate_url_ssrf_safe net url true w in
      let usable = validate-Usable net answers url w in
      elim (Result-cases checked.0) [
        | inl (fault, e) ↦ rw (e, hops) (record { pinned = tt; few = omega arith; bounded = tt })
        | inr ((validated, ips), e) ↦
            let pinned : IsPinned (record { pinned_ip = pinned_of ips; url = validated }) =
              pinned_of-IsPinned net ips (rw e at usable) in
            elim (Option-cases (net.get (pinned_of ips) validated checked.1).0) [
              | inl g ↦ rw (e, g, hops) (one _ (err request_failed) rounds _ pinned tt)
              | inr (resp, g) ↦
                  let fits = answer_of-Fits n url validated resp in
                  elim (Result-cases (answer_of net f n url validated resp)) [
                    | inl (fault, a) ↦ rw (e, g, a, hops) (one _ (err fault) rounds _ pinned tt)
                    | inr (fetched result, a) ↦
                        rw (e, g, a, hops) (one _ (ok result) rounds _ pinned (rw a at fits))
                    | inr (redirected next, a) ↦
                        let later =
                          hops-IsSafe answers rounds (suc n) next
                            (net.get (pinned_of ips) validated checked.1).1 in
                        rw (e, g, a, hops)
                          (record {
                            pinned = (pinned, later.pinned);
                            few = (let le = later.few in omega arith);
                            bounded = later.bounded;
                          })
                  ]
            ]
      ]

  -- However the servers redirect and whatever the resolver answers from one lookup to the next, a fetch
  -- makes at most `max_redirects` + 1 connections, each is pinned to one address outside of the inner
  -- ranges, and what it returns has at most `max_bytes` bytes, and a status that is no error and no
  -- redirect. A successful lookup of the resolver has an answer.
  pub fetch_url-IsSafe :
      Answers net
      → (url : String) (w : W)
      → All IsPinned (fetch_url net f url w).connections
        × (length (fetch_url net f url w).connections ≤ f.max_redirects + 1)
        × Returned IsBounded (fetch_url net f url w).result
  unfolding fetch_url
  fetch_url-IsSafe answers url w =
      let safe = hops-IsSafe answers (suc f.max_redirects) 0 url w in
      (safe.pinned, (let few = safe.few in omega arith), safe.bounded)
