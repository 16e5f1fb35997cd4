-- ===== src/Security/Ssrf/Ranges.antt =====
-- The ranges of addresses that `is_ip_forbidden` of src/acip/core/security/ssrf.py keeps out, by their
-- first and last address.
use Prim.Native.Nat.{◌^◌}
use agentic_cyber_investigat.Prelude.{
  ℕ, zero, suc, ◌+◌, ◌-◌, ◌*◌, ◌/◌, ◌%◌, ◌<◌, ◌≡◌, ◌⊎◌, inl, inr, false, none, List, [], ◌∷◌, All,
  if◌then◌else◌, ◌==◌, arith, Bool-cases, ltb, map,
}
use agentic_cyber_investigat.Security.Ssrf.{
  IpAddress, ipv4, ipv6, Network, in_network, quad, groups, forbidden_ipv4_networks,
  forbidden_ipv6_networks, AddressFlags, range_of, listed_range, reason_of, is_ip_forbidden,
}

abbrev pub Outside : ℕ → List (ℕ × ℕ) → Type 0
Outside n = All (λ (r : ℕ × ℕ). (n < r.0) ⊎ (r.1 < n))

-- Private networks, the machine itself, the link, carriers, tests, groups and what is reserved.
abbrev pub inner_ipv4 : List (ℕ × ℕ)
inner_ipv4 =
    (quad 0 0 0 0, quad 0 255 255 255)
    ∷ (quad 10 0 0 0, quad 10 255 255 255)
    ∷ (quad 100 64 0 0, quad 100 127 255 255)
    ∷ (quad 127 0 0 0, quad 127 255 255 255)
    ∷ (quad 169 254 0 0, quad 169 254 255 255)
    ∷ (quad 172 16 0 0, quad 172 31 255 255)
    ∷ (quad 192 0 0 0, quad 192 0 0 255)
    ∷ (quad 192 0 2 0, quad 192 0 2 255)
    ∷ (quad 192 168 0 0, quad 192 168 255 255)
    ∷ (quad 198 18 0 0, quad 198 19 255 255)
    ∷ (quad 198 51 100 0, quad 198 51 100 255)
    ∷ (quad 203 0 113 0, quad 203 0 113 255)
    ∷ (quad 224 0 0 0, quad 239 255 255 255)
    ∷ (quad 240 0 0 0, quad 255 255 255 255)
    ∷ (quad 255 255 255 255, quad 255 255 255 255)
    ∷ []

-- The range of IPv6 addresses from one pair of leading groups to before another.
abbrev span : ℕ → ℕ → ℕ → ℕ → ℕ × ℕ
span a b c d = (groups a b 0, groups c d 0 - 1)

abbrev pub inner_ipv6 : List (ℕ × ℕ)
inner_ipv6 =
    (groups 0 0 0, groups 0 0 0)
    ∷ (groups 0 0 1, groups 0 0 1)
    ∷ (groups 0x100 0 0, groups 0x100 0 (2 ^ 64 - 1))
    ∷ span 0x2001 0xdb8 0x2001 0xdb9
    ∷ span 0xfc00 0 0xfe00 0
    ∷ span 0xfe80 0 0xfec0 0
    ∷ span 0xff00 0 0x10000 0
    ∷ (groups 0xfd00 0xec2 0x254, groups 0xfd00 0xec2 0x254)
    ∷ []

-- Of an address: it lies in none of the inner ranges, an IPv4 address inside IPv6 read as IPv4.
abbrev pub IsPublic : IpAddress → Type 0
IsPublic (ipv4 n) = Outside n inner_ipv4
IsPublic (ipv6 n) =
    if n / 2 ^ 32 == 0xffff then Outside (n % 2 ^ 32) inner_ipv4 else Outside n inner_ipv6

range_of-none :
    (width ip : ℕ) (ns : List Network)
    → range_of width ip ns ≡ none
    → All (λ n. in_network width ip n ≡ false) ns
unfolding range_of
range_of-none width ip [] h = tt
range_of-none width ip (n ∷ ns) h = elim (Bool-cases (in_network width ip n)) [
  | inl e ↦ absurd (ground arith)
  | inr e ↦ (e, range_of-none width ip ns (ground arith))
]

outside : (n p k : ℕ) → 0 < k → (n / k == p) ≡ false → (n < p * k) ⊎ (p * k + k - 1 < n)
outside n p k pos apart = elim (Bool-cases (ltb n (p * k))) [
  | inl below ↦ inl (ground arith)
  | inr above ↦ elim (Bool-cases (ltb n (p * k + k))) [
    | inr beyond ↦ inr (ground arith)
    | inl within ↦ absurd (grind arith)
  ]
]

pow_pos : (k : ℕ) → 0 < 2 ^ k
pow_pos zero = omega arith
pow_pos (suc k) = omega (arith, pow_pos k)

-- The first and last address of a network.
abbrev bounds : ℕ → Network → ℕ × ℕ
bounds width net =
    let size = 2 ^ (width - net.prefix) in
    let first = net.address / size * size in (first, first + size - 1)

Outside-all :
    (width n : ℕ) (nets : List Network)
    → All (λ net. in_network width n net ≡ false) nets
    → Outside n (map (bounds width) nets)
Outside-all width n [] h = tt
Outside-all width n (net ∷ nets) h =
    let size = 2 ^ (width - net.prefix) in
    (
      outside n (net.address / size) size (pow_pos (width - net.prefix)) h.0,
      Outside-all width n nets h.1,
    )

Outside-ipv4 : (n : ℕ) → listed_range (ipv4 n) ≡ none → Outside n inner_ipv4
unfolding listed_range
Outside-ipv4 n h =
    Outside-all 32 n forbidden_ipv4_networks (range_of-none 32 n forbidden_ipv4_networks h)

Outside-ipv6 : (n : ℕ) → listed_range (ipv6 n) ≡ none → Outside n inner_ipv6
unfolding listed_range
Outside-ipv6 n h =
    Outside-all 128 n forbidden_ipv6_networks (range_of-none 128 n forbidden_ipv6_networks h)

reason_of-none :
    (flags : AddressFlags) (ip : IpAddress) → reason_of flags ip ≡ none → listed_range ip ≡ none
unfolding reason_of
reason_of-none flags ip h = ground arith

-- An address that is not forbidden lies in none of the inner ranges, whatever the attributes say.
pub is_ip_forbidden-IsPublic :
    (flags : AddressFlags) (ip : IpAddress) → is_ip_forbidden flags ip ≡ none → IsPublic ip
unfolding is_ip_forbidden
is_ip_forbidden-IsPublic flags (ipv4 n) h = Outside-ipv4 n (reason_of-none flags (ipv4 n) h)
is_ip_forbidden-IsPublic flags (ipv6 n) h = elim (Bool-cases (n / 2 ^ 32 == 0xffff)) [
  | inl mapped ↦
      rw mapped
        (Outside-ipv4 (n % 2 ^ 32) (reason_of-none flags (ipv4 (n % 2 ^ 32)) (rw mapped at h)))
  | inr plain ↦ rw plain (Outside-ipv6 n (reason_of-none flags (ipv6 n) (rw plain at h)))
]
