-- ===== src/Context.antt =====
-- context.rs: the access control list as the relays ask it, and the cache of the names that the DNS
-- relay saw for an address. relay/dns_resolver/mod.rs: the loops over the addresses of a host.
pub mod Lookups
use shadowsocks_rust.Common.{List, [], ◌∷◌, Bool, true, false, Option, none, some, if◌then◌else◌, ℕ}
use shadowsocks_rust.Common.Outcome.{Outcome, ok, err, panic}
use shadowsocks_rust.Io.{IoError, other, outbound_blocked}
use shadowsocks_rust.Socks5.Address.{
  Ipv4Addr, Ipv6Addr, SocketAddr, v4, v6, Address, socket_address, domain_name_address,
}
use shadowsocks_rust.Acl.{Matchers, AccessControl}
use shadowsocks_rust.Acl as Acl

-- `IpAddr`.
pub data IpAddr : Type 0 where
  ipv4 : Ipv4Addr → IpAddr
  ipv6 : Ipv6Addr → IpAddr

abbrev pub ip_of : SocketAddr → IpAddr
ip_of (v4 a) = ipv4 a.ip
ip_of (v6 a) = ipv6 a.ip

-- `ServerAddr` of config.rs.
pub data ServerAddr : Type 0 where
  socket_addr : SocketAddr → ServerAddr
  domain_name : List ℕ → ℕ → ServerAddr

-- A result with what was done on the way.
abbrev pub Stepped : Type 0 → Type 0 → Type 0
Stepped W A = Outcome IoError A × W

abbrev pub blocked_error : IoError
blocked_error = record { kind = other; message = outbound_blocked }

module _ {W A : Type 0} where
  -- `lookup_then!` from the addresses on: the first one whose body succeeds. The last error is kept, and
  -- no address at all is a panic.
  unfoldable pub lookup_then :
      (SocketAddr → W → Stepped W A)
      → List SocketAddr
      → Option IoError
      → W
      → Stepped W (SocketAddr × A)
  lookup_then body [] none w = (panic, w)
  lookup_then body [] (some e) w = (err e, w)
  lookup_then body (addr ∷ addrs) last w =
      let (r, w') = body addr w in
      elim r [
        | ok x ↦ (ok (addr, x), w')
        | err e ↦ lookup_then body addrs (some e) w'
        | panic ↦ (panic, w')
      ]

  -- `lookup_outbound_then!`: an address that is blocked is passed over.
  unfoldable pub lookup_outbound_then :
      (SocketAddr → Bool)
      → (SocketAddr → W → Stepped W A)
      → List SocketAddr
      → Option IoError
      → W
      → Stepped W (SocketAddr × A)
  lookup_outbound_then blocked body [] none w = (panic, w)
  lookup_outbound_then blocked body [] (some e) w = (err e, w)
  lookup_outbound_then blocked body (addr ∷ addrs) last w = elim (blocked addr) [
    | true ↦ lookup_outbound_then blocked body addrs (some blocked_error) w
    | false ↦
        let (r, w') = body addr w in
        elim r [
          | ok x ↦ (ok (addr, x), w')
          | err e ↦ lookup_outbound_then blocked body addrs (some e) w'
          | panic ↦ (panic, w')
        ]
  ]

  -- `?` on the answer of the resolver.
  unfoldable pub resolved :
      Outcome IoError (List SocketAddr) → (List SocketAddr → W → Stepped W A) → W → Stepped W A
  resolved (ok addrs) f w = f addrs w
  resolved (err e) f w = (err e, w)
  resolved panic f w = (panic, w)

-- `resolve_bind_addr`: the first address of a host; an index past the end is a panic.
unfoldable pub resolve_bind_addr :
    (List ℕ → ℕ → Outcome IoError (List SocketAddr)) → ServerAddr → Outcome IoError SocketAddr
resolve_bind_addr resolve (socket_addr a) = ok a
resolve_bind_addr resolve (domain_name dname port) = elim (resolve dname port) [
  | ok addrs ↦ elim addrs [ [] ↦ panic | a ∷ _ ↦ ok a ]
  | err e ↦ err e
  | panic ↦ panic
]

module _ (M : Matchers) where
  unfoldable pub check_client_blocked : Option (AccessControl M) → SocketAddr → Bool
  check_client_blocked none addr = false
  check_client_blocked (some a) addr = Acl.check_client_blocked M a addr

  unfoldable pub check_outbound_blocked : Option (AccessControl M) → Address → Bool
  check_outbound_blocked none addr = false
  check_outbound_blocked (some a) addr = Acl.check_outbound_blocked M a addr

  unfoldable pub check_resolved_outbound_blocked : Option (AccessControl M) → SocketAddr → Bool
  check_resolved_outbound_blocked none addr = false
  check_resolved_outbound_blocked (some a) addr = Acl.check_resolved_outbound_blocked M a addr

  -- The name that the cache has for the target's address, if the target is an address.
  unfoldable pub reverse_name : (IpAddr → Option (List ℕ)) → Address → Option (List ℕ)
  reverse_name cache (socket_address saddr) = cache (ip_of saddr)
  reverse_name cache (domain_name_address _ _) = none

  -- `check_target_bypassed`: everything is proxied without a list; an address whose name was looked up
  -- through the DNS relay is bypassed if that name is, and is checked as an address otherwise.
  unfoldable pub check_target_bypassed :
      Bool
      → (List ℕ → ℕ → Option (List SocketAddr))
      → (IpAddr → Option (List ℕ))
      → Option (AccessControl M)
      → Address
      → Bool
  unfolding reverse_name
  check_target_bypassed android dns cache none target = false
  check_target_bypassed android dns cache (some a) target = elim (reverse_name cache target) [
    | some qname ↦
        if Acl.check_target_bypassed M android dns a (domain_name_address qname 0)
        then true
        else Acl.check_target_bypassed M android dns a target
    | none ↦ Acl.check_target_bypassed M android dns a target
  ]
