-- ===== src/Acl.antt =====
-- acl/mod.rs: the rules of one list, the access control list, and its checks.
pub mod Loading
pub mod Verdicts
pub mod Tests
use Prim.Native.String.{String}
use shadowsocks_rust.Common.{
  ℕ, ◌≡◌, List, [], ◌∷◌, Bool, true, false, not, ◌&&◌, ◌||◌, Option, none, some, ◌==◌,
  if◌then◌else◌, ◌⊎◌, inl, inr,
}
use shadowsocks_rust.Socks5.Address.{
  Ipv4Addr, Ipv6Addr, SocketAddr, v4, v6, Address, socket_address, domain_name_address, port,
}

abbrev pub any {ℓ} : {A : Type ℓ} → (A → Bool) → List A → Bool
any p [] = false
any p (x ∷ xs) = p x || any p xs

-- What the code takes from the crates ipnet, iprange and regex, and from the standard library's parser
-- of IP addresses, with their documented behaviour.
pub record Matchers : Type 1 where
  pub Net4 : Type 0
  pub Net6 : Type 0
  pub Range4 : Type 0
  pub Range6 : Type 0
  pub Regex : Type 0
  pub parse_net : String → Option (Net4 ⊎ Net6)
  pub parse_ip : String → Option (Ipv4Addr ⊎ Ipv6Addr)
  pub net4_of : Ipv4Addr → Net4
  pub net6_of : Ipv6Addr → Net6
  pub in_net4 : Net4 → Ipv4Addr → Bool
  pub in_net6 : Net6 → Ipv6Addr → Bool
  pub new4 : Range4
  pub new6 : Range6
  pub add4 : Range4 → Net4 → Range4
  pub add6 : Range6 → Net6 → Range6
  pub simplify4 : Range4 → Range4
  pub simplify6 : Range6 → Range6
  pub contains4 : Range4 → Ipv4Addr → Bool
  pub contains6 : Range6 → Ipv6Addr → Bool
  pub regex_set : List String → Option Regex
  pub is_match : Regex → List ℕ → Bool
  pub matches : String → List ℕ → Bool
  pub contains-new4 : (a : Ipv4Addr) → contains4 new4 a ≡ false
  pub contains-new6 : (a : Ipv6Addr) → contains6 new6 a ≡ false
  pub contains-add4 :
      (r : Range4) (n : Net4) (a : Ipv4Addr)
      → contains4 (add4 r n) a ≡ (contains4 r a || in_net4 n a)
  pub contains-add6 :
      (r : Range6) (n : Net6) (a : Ipv6Addr)
      → contains6 (add6 r n) a ≡ (contains6 r a || in_net6 n a)
  pub contains-simplify4 : (r : Range4) (a : Ipv4Addr) → contains4 (simplify4 r) a ≡ contains4 r a
  pub contains-simplify6 : (r : Range6) (a : Ipv6Addr) → contains6 (simplify6 r) a ≡ contains6 r a
  pub is_match-regex_set :
      (rules : List String) (r : Regex) (host : List ℕ)
      → regex_set rules ≡ some r
      → is_match r host ≡ any (λ rule. matches rule host) rules

pub data Mode : Type 0 where
  black_list white_list : Mode

module _ (M : Matchers) where
  open M use {Range4, Range6, Regex, contains4, contains6, is_match, simplify4, simplify6}

  pub record Rules : Type 0 where
    pub ipv4 : Range4
    pub ipv6 : Range6
    pub rule : Regex

  -- `Rules::new`.
  unfoldable pub new_rules : Range4 → Range6 → Regex → Rules
  new_rules ipv4 ipv6 rule = record { ipv4 = simplify4 ipv4; ipv6 = simplify6 ipv6; rule = rule }

  unfoldable pub check_ip_matched : Rules → SocketAddr → Bool
  check_ip_matched rules (v4 addr) = contains4 rules.ipv4 addr.ip
  check_ip_matched rules (v6 addr) = contains6 rules.ipv6 addr.ip

  unfoldable pub check_host_matched : Rules → List ℕ → Bool
  check_host_matched rules host = is_match rules.rule host

  unfoldable pub check_address_matched : Rules → Address → Bool
  check_address_matched rules (socket_address saddr) = check_ip_matched rules saddr
  check_address_matched rules (domain_name_address domain _) = check_host_matched rules domain

  pub record AccessControl : Type 0 where
    pub outbound_block : Rules
    pub black : Rules
    pub white : Rules
    pub mode : Mode

  -- The loop over the resolved addresses; `none` if it ends without a verdict.
  resolved_verdict : AccessControl → List SocketAddr → Option Bool
  resolved_verdict acl [] = none
  resolved_verdict acl (addr ∷ vaddr) =
      let rest = resolved_verdict acl vaddr in
      if check_ip_matched acl.black addr
      then some true
      else if check_ip_matched acl.white addr
      then some false
      else rest

  unfoldable pub default_verdict : Mode → Bool
  default_verdict black_list = false
  default_verdict white_list = true

  host_verdict : (List ℕ → ℕ → Option (List SocketAddr)) → AccessControl → Address → Option Bool
  unfolding resolved_verdict
  host_verdict dns_resolve acl (socket_address _) = none
  host_verdict dns_resolve acl (domain_name_address host p) = elim (dns_resolve host p) [
    | none ↦ none
    | some vaddr ↦ resolved_verdict acl vaddr
  ]

  -- `android` is the target's `cfg!`; `dns_resolve` is the answer of the resolver, if it has one.
  unfoldable pub check_target_bypassed :
      Bool → (List ℕ → ℕ → Option (List SocketAddr)) → AccessControl → Address → Bool
  unfolding host_verdict default_verdict
  check_target_bypassed android dns_resolve acl addr =
      if android && port addr == 53
      then false
      else if check_address_matched acl.black addr
      then true
      else if check_address_matched acl.white addr
      then false
      else elim (if not android then host_verdict dns_resolve acl addr else none) [
        | some verdict ↦ verdict
        | none ↦ default_verdict acl.mode
      ]

  client_blocked : Mode → AccessControl → SocketAddr → Bool
  client_blocked black_list acl addr = check_ip_matched acl.black addr
  client_blocked white_list acl addr = not (check_ip_matched acl.white addr)

  unfoldable pub check_client_blocked : AccessControl → SocketAddr → Bool
  unfolding client_blocked
  check_client_blocked acl addr = client_blocked acl.mode acl addr

  unfoldable pub check_outbound_blocked : AccessControl → Address → Bool
  check_outbound_blocked acl outbound = check_address_matched acl.outbound_block outbound

  unfoldable pub check_resolved_outbound_blocked : AccessControl → SocketAddr → Bool
  check_resolved_outbound_blocked acl outbound = check_ip_matched acl.outbound_block outbound
