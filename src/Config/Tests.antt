-- ===== src/Config/Tests.antt =====
-- A configuration of two servers, whose IP addresses are written as their bytes.
use shadowsocks_rust.Common.{ℕ, ◌≡◌, refl, List, [], ◌∷◌, true, Option, none, some}
use shadowsocks_rust.Common.Outcome.{ok}
use shadowsocks_rust.Socks5.Address.{Ipv4Addr, Ipv6Addr, v4}
use shadowsocks_rust.Acl.Tests.{toy}
use shadowsocks_rust.Context.{socket_addr, domain_name}
use shadowsocks_rust.Crypto.CipherType.{plain}
use shadowsocks_rust.Crypto.Sizes.{
  key_size, iv_size, key_rounds, classic_bytes_to_key, bytes_to_key,
}
use shadowsocks_rust.Crypto.Tests.{backends, sixteen}
use shadowsocks_rust.Replay.{server}
use shadowsocks_rust.Config.{
  Environment, Config, ServerConfig, tcp_and_udp, new, manager_domain_name,
}
use shadowsocks_rust.Config.Loading.{load_from_ssconfig}
use shadowsocks_rust.Config.Printing.{to_ssconfig}
use shadowsocks_rust.Config.Restored.{restored}
use shadowsocks_rust.Config.RoundTrip.{load-to_ssconfig}

abbrev bytes_v4 : List ℕ → Option Ipv4Addr
bytes_v4 (a ∷ b ∷ c ∷ d ∷ []) = some (record { o1 = a; o2 = b; o3 = c; o4 = d })
bytes_v4 _ = none

abbrev bytes_v6 : List ℕ → Option Ipv6Addr
bytes_v6 (a ∷ b ∷ c ∷ d ∷ e ∷ f ∷ g ∷ h ∷ []) =
    some (record { s1 = a; s2 = b; s3 = c; s4 = d; s5 = e; s6 = f; s7 = g; s8 = h })
bytes_v6 _ = none

abbrev env : Environment
env = record {
  backends = backends;
  md5 = sixteen;
  matchers = toy;
  parse_v4 = bytes_v4;
  parse_v6 = bytes_v6;
  show_v4 = λ a. a.o1 ∷ a.o2 ∷ a.o3 ∷ a.o4 ∷ [];
  show_v6 = λ a. a.s1 ∷ a.s2 ∷ a.s3 ∷ a.s4 ∷ a.s5 ∷ a.s6 ∷ a.s7 ∷ a.s8 ∷ [];
  parse_v4-show_v4 = λ a. refl;
  parse_v4-show_v6 = λ a. refl;
  parse_v6-show_v6 = λ a. refl;
}

abbrev key : List ℕ
key = 1 ∷ []

abbrev near : ServerConfig
near = record {
  addr = socket_addr (v4 (record { ip = record { o1 = 10; o2 = 0; o3 = 0; o4 = 1 }; port = 8388 }));
  password = key;
  method = plain;
  timeout = some 5;
  enc_key = [];
  plugin = none;
  plugin_addr = some (domain_name (7 ∷ []) 1);
}

abbrev far : ServerConfig
far = record near { addr = domain_name (7 ∷ 8 ∷ []) 443; timeout = none }

abbrev config : Config env
config = record (new env server) {
  servers = near ∷ far ∷ [];
  local = some (domain_name (7 ∷ []) 80);
  mode = tcp_and_udp;
  no_delay = true;
  manager_address = some (manager_domain_name (9 ∷ []) 6001);
  timeout = some 60;
}

load-to_ssconfig_example :
    load_from_ssconfig env (to_ssconfig env config) server ≡ ok (restored env config)
unfolding new bytes_to_key classic_bytes_to_key key_size iv_size key_rounds
load-to_ssconfig_example =
    load-to_ssconfig env config (refl, refl) ((tt, refl), (((refl, refl), refl), tt)) (refl, refl)
