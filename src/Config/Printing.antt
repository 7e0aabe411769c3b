-- ===== src/Config/Printing.antt =====
-- `Display` of `Config` in config.rs, as far as the fields that are then written as JSON.
use Prim.Native.String.{String}
use shadowsocks_rust.Common.{ℕ, List, [], ◌∷◌, Bool, true, false, Option, none, some}
use shadowsocks_rust.Socks5.Address.{SocketAddr, v4, v6}
use shadowsocks_rust.Context.{ServerAddr, socket_addr, domain_name}
use shadowsocks_rust.Crypto.CipherType.{to_string}
use shadowsocks_rust.Config.{
  Environment, Config, ServerConfig, PluginConfig, ManagerAddr, manager_socket_addr,
  manager_domain_name, unix_socket_addr, show_mode,
}
use shadowsocks_rust.Config.Loading.{SsConfig, SsServerExtConfig, or_else}

-- `SSConfig::default`.
abbrev pub default : SsConfig
default = record {
  server = none;
  server_port = none;
  local_address = none;
  local_port = none;
  manager_address = none;
  manager_port = none;
  password = none;
  method = none;
  plugin = none;
  plugin_opts = none;
  timeout = none;
  udp_timeout = none;
  servers = none;
  dns = none;
  mode = none;
  no_delay = none;
  nofile = none;
}

abbrev pub socket_port : SocketAddr → ℕ
socket_port (v4 a) = a.port
socket_port (v6 a) = a.port

abbrev pub plugin_name : Option PluginConfig → Option String
plugin_name none = none
plugin_name (some p) = some p.plugin

abbrev pub plugin_options : Option PluginConfig → Option String
plugin_options none = none
plugin_options (some p) = p.plugin_opt

module _ (E : Environment) where
  open E use {show_v4, show_v6}

  abbrev pub show_ip : SocketAddr → List ℕ
  show_ip (v4 a) = show_v4 a.ip
  show_ip (v6 a) = show_v6 a.ip

  abbrev pub host : ServerAddr → List ℕ
  host (socket_addr sa) = show_ip sa
  host (domain_name dm _) = dm

  abbrev pub addr_port : ServerAddr → ℕ
  addr_port (socket_addr sa) = socket_port sa
  addr_port (domain_name _ port) = port

  unfoldable pub print_local : Option ServerAddr → SsConfig → SsConfig
  print_local none jconf = jconf
  print_local (some client) jconf = record jconf {
    local_address = some (host client);
    local_port = some (addr_port client);
  }

  abbrev pub ext_server : ServerConfig → SsServerExtConfig
  ext_server svr = record {
    address = host svr.addr;
    port = addr_port svr.addr;
    password = svr.password;
    method = to_string svr.method;
    plugin = plugin_name svr.plugin;
    plugin_opts = plugin_options svr.plugin;
    timeout = svr.timeout;
  }

  abbrev pub ext_servers : List ServerConfig → List SsServerExtConfig
  ext_servers [] = []
  ext_servers (s ∷ ss) = ext_server s ∷ ext_servers ss

  -- One server is written in the standard format.
  unfoldable pub print_servers : List ServerConfig → Option ℕ → SsConfig → SsConfig
  print_servers [] timeout jconf = jconf
  print_servers (svr ∷ []) timeout jconf = record jconf {
    server = some (host svr.addr);
    server_port = some (addr_port svr.addr);
    method = some (to_string svr.method);
    password = some svr.password;
    plugin = plugin_name svr.plugin;
    plugin_opts = plugin_options svr.plugin;
    timeout = or_else svr.timeout timeout;
  }
  print_servers (s1 ∷ s2 ∷ ss) timeout jconf = record jconf {
    servers = some (ext_servers (s1 ∷ s2 ∷ ss));
    timeout = timeout;
  }

  abbrev pub manager_host : ManagerAddr → List ℕ
  manager_host (manager_socket_addr saddr) = show_ip saddr
  manager_host (manager_domain_name dname _) = dname
  manager_host (unix_socket_addr path) = path

  abbrev pub manager_port : ManagerAddr → Option ℕ
  manager_port (manager_socket_addr saddr) = some (socket_port saddr)
  manager_port (manager_domain_name _ port) = some port
  manager_port (unix_socket_addr _) = none

  unfoldable pub print_manager : Option ManagerAddr → SsConfig → SsConfig
  print_manager none jconf = jconf
  print_manager (some ma) jconf = record jconf {
    manager_address = some (manager_host ma);
    manager_port = manager_port ma;
  }

  abbrev pub print_no_delay : Bool → Option Bool
  print_no_delay true = some true
  print_no_delay false = none

  -- The fields of the printed file.
  unfoldable pub to_ssconfig : Config E → SsConfig
  unfolding print_local print_servers print_manager
  to_ssconfig c =
      let j1 = print_local c.local default in
      let j2 = print_servers c.servers c.timeout j1 in
      let j3 = print_manager c.manager_address j2 in
      record j3 {
        mode = some (show_mode c.mode);
        no_delay = print_no_delay c.no_delay;
        dns = c.dns;
        udp_timeout = c.udp_timeout;
        nofile = c.nofile;
      }
