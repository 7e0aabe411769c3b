-- ===== src/Config/Loading.antt =====
-- `load_from_ssconfig` of config.rs: the configuration that a file's fields make.
use Prim.Native.String.{String}
use shadowsocks_rust.Common.{ℕ, List, [], ◌∷◌, ◌++◌, Bool, Option, none, some, if◌then◌else◌}
use shadowsocks_rust.Common.Outcome.{Outcome, ok, err, panic, ◌>>=◌}
use shadowsocks_rust.Socks5.Address.{SocketAddr, v4, v6}
use shadowsocks_rust.Context.{ServerAddr, socket_addr, domain_name, IpAddr, ipv4, ipv6}
use shadowsocks_rust.Crypto.CipherType.{CipherType, from_str}
use shadowsocks_rust.Replay.{ConfigType}
use shadowsocks_rust.Config.{
  Environment, Config, ServerConfig, PluginConfig, ManagerAddr, manager_socket_addr,
  manager_domain_name, unix_socket_addr, Error, missing_local_port, unsupported_method,
  servers_together, malformed_mode, malformed, invalid, Mode, parse_mode, is_server, new,
  new_server_config, missing,
}

-- `SSServerExtConfig`.
pub record SsServerExtConfig : Type 0 where
  pub address : List ℕ
  pub port : ℕ
  pub password : List ℕ
  pub method : String
  pub plugin : Option String
  pub plugin_opts : Option String
  pub timeout : Option ℕ

-- `SSConfig`, the fields of the file.
pub record SsConfig : Type 0 where
  pub server : Option (List ℕ)
  pub server_port : Option ℕ
  pub local_address : Option (List ℕ)
  pub local_port : Option ℕ
  pub manager_address : Option (List ℕ)
  pub manager_port : Option ℕ
  pub password : Option (List ℕ)
  pub method : Option String
  pub plugin : Option String
  pub plugin_opts : Option String
  pub timeout : Option ℕ
  pub udp_timeout : Option ℕ
  pub servers : Option (List SsServerExtConfig)
  pub dns : Option String
  pub mode : Option String
  pub no_delay : Option Bool
  pub nofile : Option ℕ

abbrev pub or_else {ℓ} : {A : Type ℓ} → Option A → Option A → Option A
or_else (some a) other = some a
or_else none other = other

abbrev pub method_error : String → Error
method_error m = record { kind = invalid; desc = unsupported_method; detail = some m }

-- `parse::<CipherType>`.
unfoldable pub parse_method : String → Outcome Error CipherType
parse_method m = elim (from_str m) [ ok t ↦ ok t | err _ ↦ err (method_error m) | panic ↦ panic ]

abbrev pub plugin_of : Option String → Option String → Option PluginConfig
plugin_of none opts = none
plugin_of (some p) opts = some (record { plugin = p; plugin_opt = opts })

abbrev pub socket_of : IpAddr → ℕ → SocketAddr
socket_of (ipv4 ip) port = v4 (record { ip = ip; port = port })
socket_of (ipv6 ip) port = v6 (record { ip = ip; port = port; flowinfo = 0; scope_id = 0 })

module _ (E : Environment) where
  open E use {parse_v4, parse_v6}

  -- `parse::<IpAddr>`, or `parse::<Ipv4Addr>` and then `parse::<Ipv6Addr>`.
  unfoldable pub parse_ip : List ℕ → Option IpAddr
  parse_ip s = elim (parse_v4 s) [
    | some a ↦ some (ipv4 a)
    | none ↦ elim (parse_v6 s) [ some a ↦ some (ipv6 a) | none ↦ none ]
  ]

  -- A text that is no IP address is a host name.
  unfoldable pub server_addr : List ℕ → ℕ → ServerAddr
  server_addr address port = elim (parse_ip address) [
    | some ip ↦ socket_addr (socket_of ip port)
    | none ↦ domain_name address port
  ]

  -- A server's outbound address has no port.
  unfoldable pub load_local :
      Option (List ℕ) → Option ℕ → ConfigType → Outcome Error (Option ServerAddr)
  load_local none port ty = ok none
  load_local (some la) none ty = err (missing E missing_local_port)
  load_local (some la) (some p) ty = ok (some (server_addr la (if is_server ty then 0 else p)))

  unfoldable pub load_server :
      List ℕ
      → ℕ
      → List ℕ
      → String
      → Option String
      → Option String
      → Option ℕ
      → Outcome Error ServerConfig
  unfolding parse_method
  load_server address port pwd m plugin opts timeout = do
    method ← parse_method m
    new_server_config E (server_addr address port) pwd method timeout (plugin_of plugin opts)

  -- The standard server: its four fields together, or none of them.
  unfoldable pub load_standard : SsConfig → Outcome Error (List ServerConfig)
  unfolding load_server
  load_standard config = elim config.server [
    | some address ↦ elim config.server_port [
      | some port ↦ elim config.password [
        | some pwd ↦ elim config.method [
          | some m ↦ (do
            s ← load_server address port pwd m config.plugin config.plugin_opts config.timeout
            ok (s ∷ []))
          | none ↦ err (record { kind = malformed; desc = servers_together; detail = none })
        ]
        | none ↦ err (record { kind = malformed; desc = servers_together; detail = none })
      ]
      | none ↦ err (record { kind = malformed; desc = servers_together; detail = none })
    ]
    | none ↦ elim config.server_port [
      | some port ↦ err (record { kind = malformed; desc = servers_together; detail = none })
      | none ↦ elim config.password [
        | some pwd ↦ err (record { kind = malformed; desc = servers_together; detail = none })
        | none ↦ elim config.method [
          | some m ↦ err (record { kind = malformed; desc = servers_together; detail = none })
          | none ↦ ok []
        ]
      ]
    ]
  ]

  unfoldable pub load_ext : Option ℕ → List SsServerExtConfig → Outcome Error (List ServerConfig)
  unfolding load_server
  load_ext timeout [] = ok []
  load_ext timeout (svr ∷ svrs) = do
    s ←
        load_server svr.address svr.port svr.password svr.method svr.plugin svr.plugin_opts
          (or_else svr.timeout timeout)
    ss ← load_ext timeout svrs
    ok (s ∷ ss)

  abbrev pub ext_of : Option (List SsServerExtConfig) → List SsServerExtConfig
  ext_of none = []
  ext_of (some svrs) = svrs

  -- Without a port the address is a path.
  unfoldable pub load_manager : Option (List ℕ) → Option ℕ → Option ManagerAddr
  load_manager none port = none
  load_manager (some ma) none = some (unix_socket_addr ma)
  load_manager (some ma) (some port) = elim (parse_ip ma) [
    | some ip ↦ some (manager_socket_addr (socket_of ip port))
    | none ↦ some (manager_domain_name ma port)
  ]

  unfoldable pub load_mode : Option String → Mode → Outcome Error Mode
  load_mode none mode = ok mode
  load_mode (some m) mode = elim (parse_mode m) [
    | some xm ↦ ok xm
    | none ↦ err (record { kind = malformed; desc = malformed_mode; detail = none })
  ]

  abbrev pub load_no_delay : Option Bool → Bool → Bool
  load_no_delay none b = b
  load_no_delay (some b) _ = b

  unfoldable pub load_from_ssconfig : SsConfig → ConfigType → Outcome Error (Config E)
  unfolding load_standard load_ext load_manager load_mode load_local
  load_from_ssconfig config config_type = do
    let nconfig = new E config_type
    local ← load_local config.local_address config.local_port config_type
    standard ← load_standard config
    ext ← load_ext config.timeout (ext_of config.servers)
    let manager_address = load_manager config.manager_address config.manager_port
    mode ← load_mode config.mode nconfig.mode
    ok (record nconfig {
      local = local;
      servers = standard ++ ext;
      manager_address = manager_address;
      dns = config.dns;
      mode = mode;
      no_delay = load_no_delay config.no_delay nconfig.no_delay;
      udp_timeout = config.udp_timeout;
      nofile = config.nofile;
      timeout = config.timeout;
    })
