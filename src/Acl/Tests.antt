-- ===== src/Acl/Tests.antt =====
-- The access control list at concrete lines, with matchers that know a network by its first octet.
use Prim.Native.String.{String}
use text.Mathlib.Text.{◌==◌ as str_eq}
use mathlib.Core.List.{map}
use shadowsocks_rust.Common.{
  ℕ, ◌≡◌, refl, List, [], ◌∷◌, Bool, true, false, ◌||◌, none, some, ◌==◌, if◌then◌else◌, inl, arith,
}
use shadowsocks_rust.Common.Outcome.{ok}
use shadowsocks_rust.Socks5.Address.{
  Ipv4Addr, Ipv6Addr, Address, socket_address, domain_name_address, v4,
}
use shadowsocks_rust.Acl.{
  Matchers, AccessControl, any, black_list, white_list, check_address_matched,
  check_target_bypassed, check_ip_matched, host_verdict, default_verdict, new_rules,
}
use shadowsocks_rust.Acl.Loading.{
  bypass, proxy, classify, load_from_file, load_lines, load_line, add_rule, new_loader,
}
use shadowsocks_rust.Acl.Loading.Contents.{listed4, listed_host}
use shadowsocks_rust.Acl.Loading.Modes.{LastMode, loaded-LastMode}
use shadowsocks_rust.Acl.Loading.Loaded.{listed, list_of, loaded_listed}
use shadowsocks_rust.Acl.Verdicts.{Verdict, loaded-Verdict}

pub add-any :
    (p : Ipv4Addr → Bool) (n : Ipv4Addr) (r : List Ipv4Addr) → any p (n ∷ r) ≡ (any p r || p n)
add-any p n r = ground arith

pub add-any6 :
    (p : Ipv6Addr → Bool) (n : Ipv6Addr) (r : List Ipv6Addr) → any p (n ∷ r) ≡ (any p r || p n)
add-any6 p n r = ground arith

abbrev pub ip_10 : Ipv4Addr
ip_10 = record { o1 = 10; o2 = 0; o3 = 0; o4 = 1 }

pub same_net : Ipv4Addr → Ipv4Addr → Bool
same_net n a = n.o1 == a.o1

pub same_net6 : Ipv6Addr → Ipv6Addr → Bool
same_net6 n a = n.s1 == a.s1

abbrev pub matches_any : String → List ℕ → Bool
matches_any rule host = true

pub matches-compiled :
    (rules : List String) (r : List String) (host : List ℕ)
    → some rules ≡ some r
    → any (λ rule. matches_any rule host) r ≡ any (λ rule. matches_any rule host) rules
matches-compiled rules r host h = cc

abbrev pub toy : Matchers
toy = record {
  Net4 = Ipv4Addr;
  Net6 = Ipv6Addr;
  Range4 = List Ipv4Addr;
  Range6 = List Ipv6Addr;
  Regex = List String;
  parse_net = λ s. if str_eq s "10.0.0.0/8" then some (inl ip_10) else none;
  parse_ip = λ s. none;
  net4_of = λ a. a;
  net6_of = λ a. a;
  in_net4 = same_net;
  in_net6 = same_net6;
  new4 = [];
  new6 = [];
  add4 = λ r n. n ∷ r;
  add6 = λ r n. n ∷ r;
  simplify4 = λ r. r;
  simplify6 = λ r. r;
  contains4 = λ r a. any (λ n. same_net n a) r;
  contains6 = λ r a. any (λ n. same_net6 n a) r;
  regex_set = λ rules. some rules;
  is_match = λ r host. any (λ rule. matches_any rule host) r;
  matches = matches_any;
  contains-new4 = λ a. refl;
  contains-new6 = λ a. refl;
  contains-add4 = λ r n a. add-any (λ m. same_net m a) n r;
  contains-add6 = λ r n a. add-any6 (λ m. same_net6 m a) n r;
  contains-simplify4 = λ r a. refl;
  contains-simplify6 = λ r a. refl;
  is_match-regex_set = matches-compiled;
}

abbrev texts : List String
texts = "# hosts" ∷ "[bypass_all]" ∷ "[proxy_list]" ∷ "10.0.0.0/8" ∷ "example" ∷ []

abbrev dns_address : Address
dns_address = socket_address (v4 (record { ip = ip_10; port = 53 }))

abbrev loaded : AccessControl toy
loaded = record {
  outbound_block = record { ipv4 = []; ipv6 = []; rule = [] };
  black = record { ipv4 = []; ipv6 = []; rule = [] };
  white = record { ipv4 = ip_10 ∷ []; ipv6 = []; rule = "example" ∷ [] };
  mode = white_list;
}

load-loaded : load_from_file toy (map ok texts) ≡ ok loaded
unfolding load_from_file load_lines load_line add_rule new_loader new_rules classify
load-loaded = refl

loaded_listed_example :
    check_address_matched toy (list_of toy proxy loaded) dns_address
    ≡ listed toy proxy texts dns_address
loaded_listed_example = loaded_listed toy texts loaded proxy dns_address load-loaded

loaded-LastMode_example : LastMode black_list texts white_list
loaded-LastMode_example = loaded-LastMode toy texts loaded load-loaded

-- An address outside the network of the proxy list.
abbrev elsewhere : Address
elsewhere = socket_address (v4 (record { ip = record ip_10 { o1 = 11 }; port = 53 }))

loaded-Verdict_example :
    Verdict toy texts false
      (λ host p. none)
      elsewhere
      (check_target_bypassed toy false (λ host p. none) loaded elsewhere)
loaded-Verdict_example =
    loaded-Verdict toy texts loaded load-loaded false (λ host p. none) elsewhere

elsewhere_bypassed : check_target_bypassed toy false (λ host p. none) loaded elsewhere ≡ true
unfolding check_target_bypassed check_address_matched check_ip_matched host_verdict default_verdict
    same_net
elsewhere_bypassed = refl

-- Before the first section a pattern goes to the proxy list, and a network to the bypass list.
headerless_pattern : listed toy proxy ("example" ∷ []) (domain_name_address (0x61 ∷ []) 80) ≡ true
unfolding listed_host classify
headerless_pattern = refl

headerless_network : listed toy bypass ("10.0.0.0/8" ∷ []) dns_address ≡ true
unfolding listed4 classify same_net
headerless_network = refl
