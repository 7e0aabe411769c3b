-- ===== src/Config/Restored.antt =====
-- What a configuration that was printed is read back as.
use shadowsocks_rust.Common.{
  ℕ, ◌≡◌, refl, ap, List, [], ◌∷◌, ◌++◌, All, Bool, true, false, Option, none, some, if◌then◌else◌,
}
use shadowsocks_rust.Common.Outcome.{ok}
use shadowsocks_rust.Socks5.Address.{SocketAddr, v4, v6}
use shadowsocks_rust.Context.{ServerAddr, socket_addr, domain_name}
use shadowsocks_rust.Crypto.CipherType.{CipherType, to_string}
use shadowsocks_rust.Crypto.Names.{from_str-to_string}
use shadowsocks_rust.Crypto.Sizes.{bytes_to_key}
use shadowsocks_rust.Replay.{ConfigType}
use shadowsocks_rust.Config.{
  Environment, Config, ServerConfig, PluginConfig, ManagerAddr, manager_socket_addr,
  manager_domain_name, unix_socket_addr, Mode, tcp_only, tcp_and_udp, udp_only, show_mode,
  parse_mode, is_server, new, new_server_config,
}
use shadowsocks_rust.Config.Loading.{
  SsConfig, or_else, parse_method, plugin_of, parse_ip, server_addr, load_local, load_server,
  load_standard, load_ext, ext_of, load_manager, load_mode, load_no_delay, load_from_ssconfig,
}
use shadowsocks_rust.Config.Printing.{
  host, addr_port, socket_port, plugin_name, plugin_options, ext_servers, print_no_delay,
  manager_host, manager_port,
}

module _ (E : Environment) where
  open E use {
    backends, md5, parse_v4, parse_v6, parse_v4-show_v4, parse_v4-show_v6, parse_v6-show_v6,
  }

  -- A host name that is not the text of an IP address.
  abbrev pub IsName : List ℕ → Type 0
  IsName name = (parse_v4 name ≡ none) × (parse_v6 name ≡ none)

  abbrev pub IsNamed : ServerAddr → Type 0
  IsNamed (socket_addr _) = Unit {0}
  IsNamed (domain_name name _) = IsName name

  -- The address with another port; an IPv6 address loses its flow label and scope.
  abbrev pub socket_with : ℕ → SocketAddr → SocketAddr
  socket_with port (v4 a) = v4 (record { ip = a.ip; port = port })
  socket_with port (v6 a) = v6 (record { ip = a.ip; port = port; flowinfo = 0; scope_id = 0 })

  abbrev pub with_port : ℕ → ServerAddr → ServerAddr
  with_port port (socket_addr a) = socket_addr (socket_with port a)
  with_port port (domain_name name _) = domain_name name port

  server_addr-host :
      (a : ServerAddr) (port : ℕ) → IsNamed a → server_addr E (host E a) port ≡ with_port port a
  unfolding server_addr parse_ip
  server_addr-host (socket_addr (v4 a)) port h = rw (server_addr, parse_ip, parse_v4-show_v4 a.ip)
  server_addr-host (socket_addr (v6 a)) port h =
      rw (server_addr, parse_ip, parse_v4-show_v6 a.ip, parse_v6-show_v6 a.ip)
  server_addr-host (domain_name name p) port (h4, h6) = rw (server_addr, parse_ip, h4, h6)

  plugin_of-parts : (p : Option PluginConfig) → plugin_of (plugin_name p) (plugin_options p) ≡ p
  plugin_of-parts none = refl
  plugin_of-parts (some p) = refl

  -- A server whose key was made from its password.
  abbrev pub IsMade : ServerConfig → Type 0
  IsMade s = IsNamed s.addr × (bytes_to_key backends md5 s.method s.password ≡ ok s.enc_key)

  -- A server without its plugin's address, and with the timeout that it had in effect.
  abbrev pub restored_server : Option ℕ → ServerConfig → ServerConfig
  restored_server timeout s = record s {
    addr = with_port (addr_port E s.addr) s.addr;
    timeout = or_else s.timeout timeout;
    plugin_addr = none;
  }

  abbrev pub restored_servers : Option ℕ → List ServerConfig → List ServerConfig
  restored_servers timeout [] = []
  restored_servers timeout (s ∷ ss) = restored_server timeout s ∷ restored_servers timeout ss

  parse_method-to_string : (t : CipherType) → parse_method (to_string t) ≡ ok t
  unfolding parse_method
  parse_method-to_string t = rw (parse_method, from_str-to_string t)

  pub load_server_lem :
      (s : ServerConfig) (timeout : Option ℕ)
      → IsMade s
      → load_server E
          (host E s.addr)
          (addr_port E s.addr)
          s.password
          (to_string s.method)
          (plugin_name s.plugin)
          (plugin_options s.plugin)
          (or_else s.timeout timeout)
        ≡ ok (restored_server timeout s)
  unfolding load_server new_server_config
  load_server_lem s timeout (named, key) = rw (
    parse_method-to_string s.method,
    key,
    server_addr-host s.addr (addr_port E s.addr) named,
    plugin_of-parts s.plugin,
  )

  pub load_ext_lem :
      (ss : List ServerConfig) (timeout : Option ℕ)
      → All IsMade ss
      → load_ext E timeout (ext_servers E ss) ≡ ok (restored_servers timeout ss)
  unfolding load_ext
  load_ext_lem [] timeout h = refl
  load_ext_lem (s ∷ ss) timeout (h, hs) =
      rw (load_server_lem s timeout h, load_ext_lem ss timeout hs)

  pub load_mode-show_mode : (m x : Mode) → load_mode E (some (show_mode m)) x ≡ ok m
  unfolding load_mode parse_mode
  load_mode-show_mode tcp_only x = refl
  load_mode-show_mode tcp_and_udp x = refl
  load_mode-show_mode udp_only x = refl

  pub load_no_delay_lem : (b : Bool) → load_no_delay E (print_no_delay E b) false ≡ b
  load_no_delay_lem true = refl
  load_no_delay_lem false = refl

  abbrev pub IsManaged : Option ManagerAddr → Type 0
  IsManaged none = Unit {0}
  IsManaged (some (manager_socket_addr _)) = Unit {0}
  IsManaged (some (manager_domain_name name _)) = IsName name
  IsManaged (some (unix_socket_addr _)) = Unit {0}

  abbrev pub restored_manager : Option ManagerAddr → Option ManagerAddr
  restored_manager none = none
  restored_manager (some (manager_socket_addr a)) =
      some (manager_socket_addr (socket_with (socket_port a) a))
  restored_manager (some (manager_domain_name name port)) = some (manager_domain_name name port)
  restored_manager (some (unix_socket_addr path)) = some (unix_socket_addr path)

  pub load_manager_lem :
      (m : ManagerAddr)
      → IsManaged (some m)
      → load_manager E (some (manager_host E m)) (manager_port E m) ≡ restored_manager (some m)
  unfolding load_manager parse_ip
  load_manager_lem (manager_socket_addr (v4 a)) h =
      rw (load_manager, parse_ip, parse_v4-show_v4 a.ip)
  load_manager_lem (manager_socket_addr (v6 a)) h =
      rw (load_manager, parse_ip, parse_v4-show_v6 a.ip, parse_v6-show_v6 a.ip)
  load_manager_lem (manager_domain_name name port) (h4, h6) = rw (load_manager, parse_ip, h4, h6)
  load_manager_lem (unix_socket_addr path) h = refl

  abbrev pub IsLocal : Option ServerAddr → Type 0
  IsLocal none = Unit {0}
  IsLocal (some a) = IsNamed a

  abbrev pub restored_local : ConfigType → Option ServerAddr → Option ServerAddr
  restored_local ty none = none
  restored_local ty (some a) = some (with_port (if is_server ty then 0 else addr_port E a) a)

  pub load_local_lem :
      (ty : ConfigType) (a : ServerAddr)
      → IsNamed a
      → load_local E (some (host E a)) (some (addr_port E a)) ty ≡ ok (restored_local ty (some a))
  unfolding load_local
  load_local_lem ty a h =
      ap (λ x. ok (some x)) (server_addr-host a (if is_server ty then 0 else addr_port E a) h)

  -- The timeout of the file: of one server it is the server's.
  abbrev pub restored_timeout : List ServerConfig → Option ℕ → Option ℕ
  restored_timeout [] timeout = none
  restored_timeout (s ∷ []) timeout = or_else s.timeout timeout
  restored_timeout (s1 ∷ s2 ∷ ss) timeout = timeout

  abbrev pub restored : Config E → Config E
  restored c = record (new E c.config_type) {
    local = restored_local c.config_type c.local;
    servers = restored_servers c.timeout c.servers;
    manager_address = restored_manager c.manager_address;
    dns = c.dns;
    mode = c.mode;
    no_delay = c.no_delay;
    udp_timeout = c.udp_timeout;
    nofile = c.nofile;
    timeout = restored_timeout c.servers c.timeout;
  }

  -- What the fields load to, all together.
  pub load_fields :
      (j : SsConfig) (ty : ConfigType) (local : Option ServerAddr)
      (standard ext : List ServerConfig) (m : Option ManagerAddr) (mode : Mode) (no_delay : Bool)
      → load_local E j.local_address j.local_port ty ≡ ok local
      → load_standard E j ≡ ok standard
      → load_ext E j.timeout (ext_of E j.servers) ≡ ok ext
      → load_manager E j.manager_address j.manager_port ≡ m
      → load_mode E j.mode tcp_only ≡ ok mode
      → load_no_delay E j.no_delay false ≡ no_delay
      → load_from_ssconfig E j ty
        ≡ ok (record (new E ty) {
          local = local;
          servers = standard ++ ext;
          manager_address = m;
          dns = j.dns;
          mode = mode;
          no_delay = no_delay;
          udp_timeout = j.udp_timeout;
          nofile = j.nofile;
          timeout = j.timeout;
        })
  unfolding load_from_ssconfig new
  load_fields j ty local standard ext m mode no_delay hl hs he hm ho hn =
      rw (hl, hs, he, hm, ho, hn) refl
