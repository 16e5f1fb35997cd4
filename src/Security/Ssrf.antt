-- ===== src/Security/Ssrf.antt =====
-- src/acip/core/security/ssrf.py: which addresses may not be reached. An address is its number, and a scope
-- id of IPv6 is dropped. The attributes of ipaddress are parameters.
pub mod Ranges
pub mod Resolve
pub mod Urls
pub mod Fetch
mod Examples
use Prim.Native.Nat.{◌^◌}
use Prim.Native.String.{count}
use text.Mathlib.Text.{◌==◌ as str_eq}
use agentic_cyber_investigat.Prelude.{
  ℕ, ◌+◌, ◌-◌, ◌*◌, ◌/◌, ◌%◌, String, Bool, true, false, not, ◌&&◌, ◌||◌, Option, none, some,
  is_some, List, [], ◌∷◌, ◌++◌, any, if◌then◌else◌, ltb, ◌==◌,
}
use agentic_cyber_investigat.Prelude.Result.{Result, ok, err, ◌>>=◌, ◌>>◌, raise_if}
use agentic_cyber_investigat.Prelude.Text.{is_empty, strip, drop_right, ends_with}

pub data IpAddress : Type 0 where
  ipv4 ipv6 : ℕ → IpAddress

-- A network by its first address and the length of its prefix.
pub record Network : Type 0 where
  pub address : ℕ
  pub prefix : ℕ

-- `ip in net`, for addresses of `width` bits.
abbrev pub in_network : ℕ → ℕ → Network → Bool
in_network width ip net = ip / 2 ^ (width - net.prefix) == net.address / 2 ^ (width - net.prefix)

-- The address that is written a.b.c.d.
abbrev pub quad : ℕ → ℕ → ℕ → ℕ → ℕ
quad a b c d = ((a * 256 + b) * 256 + c) * 256 + d

-- The address whose groups of sixteen bits begin with these two and end with the third.
abbrev pub groups : ℕ → ℕ → ℕ → ℕ
groups a b z = a * 2 ^ 112 + b * 2 ^ 96 + z

abbrev network : ℕ → ℕ → Network
network address prefix = record { address = address; prefix = prefix }

abbrev pub forbidden_ipv4_networks : List Network
forbidden_ipv4_networks =
    network (quad 0 0 0 0) 8
    ∷ network (quad 10 0 0 0) 8
    ∷ network (quad 100 64 0 0) 10
    ∷ network (quad 127 0 0 0) 8
    ∷ network (quad 169 254 0 0) 16
    ∷ network (quad 172 16 0 0) 12
    ∷ network (quad 192 0 0 0) 24
    ∷ network (quad 192 0 2 0) 24
    ∷ network (quad 192 168 0 0) 16
    ∷ network (quad 198 18 0 0) 15
    ∷ network (quad 198 51 100 0) 24
    ∷ network (quad 203 0 113 0) 24
    ∷ network (quad 224 0 0 0) 4
    ∷ network (quad 240 0 0 0) 4
    ∷ network (quad 255 255 255 255) 32
    ∷ []

abbrev pub forbidden_ipv6_networks : List Network
forbidden_ipv6_networks =
    network (groups 0 0 0) 128
    ∷ network (groups 0 0 1) 128
    ∷ network (groups 0x100 0 0) 64
    ∷ network (groups 0x2001 0xdb8 0) 32
    ∷ network (groups 0xfc00 0 0) 7
    ∷ network (groups 0xfe80 0 0) 10
    ∷ network (groups 0xff00 0 0) 8
    ∷ network (groups 0xfd00 0xec2 0x254) 128
    ∷ []

abbrev pub is_cloud_metadata : IpAddress → Bool
is_cloud_metadata (ipv4 n) =
    n == quad 169 254 169 254 || (n == quad 100 100 100 200 || n == quad 169 254 170 2)
is_cloud_metadata (ipv6 n) = n == groups 0xfd00 0xec2 0x254

-- The attributes of an address object.
pub record AddressFlags : Type 0 where
  pub is_loopback : IpAddress → Bool
  pub is_private : IpAddress → Bool
  pub is_link_local : IpAddress → Bool
  pub is_multicast : IpAddress → Bool
  pub is_reserved : IpAddress → Bool
  pub is_unspecified : IpAddress → Bool

pub data Reason : Type 0 where
  cloud_metadata loopback private link_local multicast reserved unspecified : Reason
  forbidden_range : Network → Reason

-- The loop over the networks.
pub range_of : ℕ → ℕ → List Network → Option Reason
range_of width ip [] = none
range_of width ip (n ∷ ns) =
    let later = range_of width ip ns in
    if in_network width ip n then some (forbidden_range n) else later

abbrev pub listed_range : IpAddress → Option Reason
unfolding range_of
listed_range (ipv4 n) = range_of 32 n forbidden_ipv4_networks
listed_range (ipv6 n) = range_of 128 n forbidden_ipv6_networks

-- `ip.ipv4_mapped`, where there is one.
abbrev pub unwrap : IpAddress → IpAddress
unwrap (ipv4 n) = ipv4 n
unwrap (ipv6 n) = if n / 2 ^ 32 == 0xffff then ipv4 (n % 2 ^ 32) else ipv6 n

-- The reason of a forbidden address.
pub reason_of : AddressFlags → IpAddress → Option Reason
reason_of flags ip =
    if is_cloud_metadata ip
    then some cloud_metadata
    else if flags.is_loopback ip
    then some loopback
    else if flags.is_private ip
    then some private
    else if flags.is_link_local ip
    then some link_local
    else if flags.is_multicast ip
    then some multicast
    else if flags.is_reserved ip
    then some reserved
    else if flags.is_unspecified ip
    then some unspecified
    else listed_range ip

unfoldable pub is_ip_forbidden : AddressFlags → IpAddress → Option Reason
unfolding reason_of listed_range
is_ip_forbidden flags ip = reason_of flags (unwrap ip)
