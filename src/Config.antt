-- ===== src/Config.antt =====
-- config.rs: the configuration, on Linux. Host names and passwords are their bytes, durations their
-- seconds.
pub mod Addresses
pub mod Loading
pub mod Printing
pub mod Restored
pub mod RoundTrip
mod Tests
use Prim.Native.String.{String}
use text.Mathlib.Text.{◌==◌ as str_eq}
use shadowsocks_rust.Common.{
  ℕ, ◌≡◌, List, [], ◌∷◌, Bool, true, false, Option, none, some, if◌then◌else◌,
}
use shadowsocks_rust.Common.Outcome.{Outcome, ok, err, panic, ◌>>=◌}
use shadowsocks_rust.Socks5.Address.{Ipv4Addr, Ipv6Addr, SocketAddr, Address}
use shadowsocks_rust.Acl.{Matchers, AccessControl}
use shadowsocks_rust.Context.{ServerAddr}
use shadowsocks_rust.Crypto.CipherType.{CipherType}
use shadowsocks_rust.Crypto.Sizes.{Backends, bytes_to_key}
use shadowsocks_rust.Replay.{
  ConfigType, socks5_local, http_local, tunnel_local, redir_local, server, manager, is_local,
}

pub data Mode : Type 0 where
  tcp_only tcp_and_udp udp_only : Mode

unfoldable pub enable_udp : Mode → Bool
enable_udp udp_only = true
enable_udp tcp_and_udp = true
enable_udp tcp_only = false

unfoldable pub enable_tcp : Mode → Bool
enable_tcp tcp_only = true
enable_tcp tcp_and_udp = true
enable_tcp udp_only = false

-- `Display` of `Mode`.
abbrev pub show_mode : Mode → String
show_mode tcp_only = "tcp_only"
show_mode tcp_and_udp = "tcp_and_udp"
show_mode udp_only = "udp_only"

-- `Mode::from_str`.
unfoldable pub parse_mode : String → Option Mode
parse_mode s =
    if str_eq s "tcp_only"
    then some tcp_only
    else if str_eq s "tcp_and_udp"
    then some tcp_and_udp
    else if str_eq s "udp_only"
    then some udp_only
    else none

-- `RedirType`, of which Linux has these.
pub data RedirType : Type 0 where
  not_supported netfilter tproxy : RedirType

abbrev pub tcp_default : RedirType
tcp_default = netfilter

abbrev pub udp_default : RedirType
udp_default = tproxy

abbrev pub show_redir_type : RedirType → String
show_redir_type not_supported = "not_supported"
show_redir_type netfilter = "netfilter"
show_redir_type tproxy = "tproxy"

-- `RedirType::from_str`: a type that is not supported has no name to be read.
unfoldable pub parse_redir_type : String → Option RedirType
parse_redir_type s =
    if str_eq s "netfilter" then some netfilter else if str_eq s "tproxy" then some tproxy else none

unfoldable pub is_server : ConfigType → Bool
is_server server = true
is_server _ = false

unfoldable pub is_manager : ConfigType → Bool
is_manager manager = true
is_manager _ = false

-- `PluginConfig` of plugin/mod.rs.
pub record PluginConfig : Type 0 where
  pub plugin : String
  pub plugin_opt : Option String

pub record ServerConfig : Type 0 where
  pub addr : ServerAddr
  pub password : List ℕ
  pub method : CipherType
  pub timeout : Option ℕ
  pub enc_key : List ℕ
  pub plugin : Option PluginConfig
  pub plugin_addr : Option ServerAddr

pub data ManagerAddr : Type 0 where
  manager_socket_addr : SocketAddr → ManagerAddr
  manager_domain_name : List ℕ → ℕ → ManagerAddr
  unix_socket_addr : List ℕ → ManagerAddr

pub data ErrorKind : Type 0 where
  missing_field malformed invalid json_parsing_error io_error : ErrorKind

-- The texts of the errors.
pub data Description : Type 0 where
  missing_local_port unsupported_method servers_together malformed_mode : Description
  missing_local missing_servers missing_manager : Description

-- The detail is the text that it quotes.
pub record Error : Type 0 where
  pub kind : ErrorKind
  pub desc : Description
  pub detail : Option String

-- What the configuration is given: the ciphers' libraries and MD5, the matchers of the access control
-- list, and the texts of IP addresses, as the standard library reads and writes them.
pub record Environment : Type 1 where
  pub backends : Backends
  pub md5 : List ℕ → List ℕ
  pub matchers : Matchers
  pub parse_v4 : List ℕ → Option Ipv4Addr
  pub parse_v6 : List ℕ → Option Ipv6Addr
  pub show_v4 : Ipv4Addr → List ℕ
  pub show_v6 : Ipv6Addr → List ℕ
  pub parse_v4-show_v4 : (a : Ipv4Addr) → parse_v4 (show_v4 a) ≡ some a
  pub parse_v4-show_v6 : (a : Ipv6Addr) → parse_v4 (show_v6 a) ≡ none
  pub parse_v6-show_v6 : (a : Ipv6Addr) → parse_v6 (show_v6 a) ≡ some a

-- `external_addr`: the plugin's address, if there is one.
unfoldable pub external_addr : ServerConfig → ServerAddr
external_addr s = elim s.plugin_addr [ some a ↦ a | none ↦ s.addr ]

module _ (E : Environment) where
  open E use {backends, md5, matchers}

  pub record Config : Type 0 where
    pub servers : List ServerConfig
    pub local : Option ServerAddr
    pub forward : Option Address
    pub dns : Option String
    pub mode : Mode
    pub no_delay : Bool
    pub manager_address : Option ManagerAddr
    pub manager_method : Option CipherType
    pub config_type : ConfigType
    pub udp_timeout : Option ℕ
    pub nofile : Option ℕ
    pub timeout : Option ℕ
    pub acl : Option (AccessControl matchers)
    pub tcp_redir : RedirType
    pub udp_redir : RedirType
    pub stat_path : Option String
    pub protect_path : Option String
    pub local_dns_path : Option String
    pub dns_relay_addr : Option SocketAddr
    pub local_dns_addr : Option SocketAddr
    pub remote_dns_addr : Option SocketAddr

  -- `Config::new`.
  unfoldable pub new : ConfigType → Config
  new ty = record {
    servers = [];
    local = none;
    forward = none;
    dns = none;
    mode = tcp_only;
    no_delay = false;
    manager_address = none;
    manager_method = none;
    config_type = ty;
    udp_timeout = none;
    nofile = none;
    timeout = none;
    acl = none;
    tcp_redir = tcp_default;
    udp_redir = udp_default;
    stat_path = none;
    protect_path = none;
    local_dns_path = none;
    dns_relay_addr = none;
    local_dns_addr = none;
    remote_dns_addr = none;
  }

  abbrev pub lift_panic {ℓ} : {A : Type ℓ} → Outcome (Unit {0}) A → Outcome Error A
  lift_panic (ok a) = ok a
  lift_panic (err _) = panic
  lift_panic panic = panic

  -- `ServerConfig::new`, which makes the key.
  unfoldable pub new_server_config :
      ServerAddr → List ℕ → CipherType → Option ℕ → Option PluginConfig → Outcome Error ServerConfig
  new_server_config addr pwd method timeout plugin = do
    enc_key ← lift_panic (bytes_to_key backends md5 method pwd)
    ok (record {
      addr = addr;
      password = pwd;
      method = method;
      timeout = timeout;
      enc_key = enc_key;
      plugin = plugin;
      plugin_addr = none;
    })

  unfoldable pub has_plugin : List ServerConfig → Bool
  has_plugin [] = false
  has_plugin (s ∷ ss) = elim s.plugin [ some _ ↦ true | none ↦ has_plugin ss ]

  unfoldable pub has_server_plugins : Config → Bool
  unfolding has_plugin
  has_server_plugins c = has_plugin c.servers

  abbrev pub missing : Description → Error
  missing desc = record { kind = missing_field; desc = desc; detail = none }

  abbrev pub present {ℓ} : {A : Type ℓ} → Description → Option A → Outcome Error (Unit {0})
  present desc (some _) = ok tt
  present desc none = err (missing desc)

  abbrev pub some_server : List ServerConfig → Outcome Error (Unit {0})
  some_server [] = err (missing missing_servers)
  some_server (_ ∷ _) = ok tt

  -- What each type of program needs.
  unfoldable pub check_integrity : Config → Outcome Error (Unit {0})
  unfolding is_server is_manager
  check_integrity c =
      if is_local c.config_type
      then present missing_local c.local
      else if is_server c.config_type
      then some_server c.servers
      else if is_manager c.config_type
      then present missing_manager c.manager_address
      else ok tt
