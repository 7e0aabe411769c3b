-- ===== src/Config/RoundTrip.antt =====
-- A configuration that is printed and read back.
use shadowsocks_rust.Common.{ℕ, ◌≡◌, refl, List, [], ◌∷◌, All, Option, none, some}
use shadowsocks_rust.Common.Outcome.{ok}
use shadowsocks_rust.Context.{ServerAddr}
use shadowsocks_rust.Crypto.CipherType.{to_string}
use shadowsocks_rust.Config.{Environment, Config, ServerConfig, ManagerAddr, tcp_only}
use shadowsocks_rust.Config.Loading.{
  SsConfig, or_else, load_local, load_ext, load_manager, load_standard, load_from_ssconfig,
}
use shadowsocks_rust.Config.Printing.{
  host, addr_port, plugin_name, plugin_options, print_local, print_servers, print_manager,
  to_ssconfig,
}
use shadowsocks_rust.Config.Restored.{
  IsMade, IsLocal, IsManaged, restored, restored_local, restored_server, restored_servers,
  restored_manager, load_fields, load_local_lem, load_server_lem, load_ext_lem, load_manager_lem,
  load_mode-show_mode, load_no_delay_lem,
}

module _ (E : Environment) where
  -- The standard server of a file that has its fields.
  standard_lem :
      (s : ServerConfig) (timeout : Option ℕ) (j : SsConfig)
      → j.server ≡ some (host E s.addr)
      → j.server_port ≡ some (addr_port E s.addr)
      → j.password ≡ some s.password
      → j.method ≡ some (to_string s.method)
      → j.plugin ≡ plugin_name s.plugin
      → j.plugin_opts ≡ plugin_options s.plugin
      → j.timeout ≡ or_else s.timeout timeout
      → IsMade E s
      → load_standard E j ≡ ok (restored_server E timeout s ∷ [])
  unfolding load_standard
  standard_lem s timeout j h1 h2 h3 h4 h5 h6 h7 made =
      simp (h1, h2, h3, h4, h5, h6, h7, load_standard, load_server_lem E s timeout made)

  abbrev printed : Option ServerAddr → List ServerConfig → Option ManagerAddr → Config E → SsConfig
  printed l ss m c = to_ssconfig E (record c { local = l; servers = ss; manager_address = m })

  load_parts :
      (l : Option ServerAddr) (ss : List ServerConfig) (m : Option ManagerAddr) (c : Config E)
      → IsLocal E l
      → All (IsMade E) ss
      → IsManaged E m
      → load_from_ssconfig E
          (to_ssconfig E (record c { local = l; servers = ss; manager_address = m }))
          c.config_type
        ≡ ok (restored E (record c { local = l; servers = ss; manager_address = m }))
  unfolding print_local print_servers print_manager to_ssconfig load_local load_standard load_ext
      load_manager
  load_parts none [] none c hl hs hm =
      load_fields E (printed none [] none c) c.config_type (restored_local E c.config_type none) []
        [] (restored_manager E none) c.mode c.no_delay refl refl refl refl
        (load_mode-show_mode E c.mode tcp_only) (load_no_delay_lem E c.no_delay)
  load_parts none [] (some m) c hl hs hm =
      load_fields E (printed none [] (some m) c) c.config_type (restored_local E c.config_type none)
        [] [] (restored_manager E (some m)) c.mode c.no_delay refl refl refl
        (load_manager_lem E m hm) (load_mode-show_mode E c.mode tcp_only)
        (load_no_delay_lem E c.no_delay)
  load_parts none (s ∷ []) none c hl hs hm =
      load_fields E (printed none (s ∷ []) none c) c.config_type
        (restored_local E c.config_type none) (restored_servers E c.timeout (s ∷ [])) []
        (restored_manager E none) c.mode c.no_delay refl
        (standard_lem s c.timeout (printed none (s ∷ []) none c) refl refl refl refl refl refl refl
          hs.0)
        refl refl (load_mode-show_mode E c.mode tcp_only) (load_no_delay_lem E c.no_delay)
  load_parts none (s ∷ []) (some m) c hl hs hm =
      load_fields E (printed none (s ∷ []) (some m) c) c.config_type
        (restored_local E c.config_type none) (restored_servers E c.timeout (s ∷ [])) []
        (restored_manager E (some m)) c.mode c.no_delay refl
        (standard_lem s c.timeout (printed none (s ∷ []) (some m) c) refl refl refl refl refl refl
          refl hs.0)
        refl (load_manager_lem E m hm) (load_mode-show_mode E c.mode tcp_only)
        (load_no_delay_lem E c.no_delay)
  load_parts none (s1 ∷ s2 ∷ ss) none c hl hs hm =
      load_fields E (printed none (s1 ∷ s2 ∷ ss) none c) c.config_type
        (restored_local E c.config_type none) [] (restored_servers E c.timeout (s1 ∷ s2 ∷ ss))
        (restored_manager E none) c.mode c.no_delay refl refl
        (load_ext_lem E (s1 ∷ s2 ∷ ss) c.timeout hs) refl (load_mode-show_mode E c.mode tcp_only)
        (load_no_delay_lem E c.no_delay)
  load_parts none (s1 ∷ s2 ∷ ss) (some m) c hl hs hm =
      load_fields E (printed none (s1 ∷ s2 ∷ ss) (some m) c) c.config_type
        (restored_local E c.config_type none) [] (restored_servers E c.timeout (s1 ∷ s2 ∷ ss))
        (restored_manager E (some m)) c.mode c.no_delay refl refl
        (load_ext_lem E (s1 ∷ s2 ∷ ss) c.timeout hs) (load_manager_lem E m hm)
        (load_mode-show_mode E c.mode tcp_only) (load_no_delay_lem E c.no_delay)
  load_parts (some a) [] none c hl hs hm =
      load_fields E (printed (some a) [] none c) c.config_type
        (restored_local E c.config_type (some a)) [] [] (restored_manager E none) c.mode c.no_delay
        (load_local_lem E c.config_type a hl) refl refl refl (load_mode-show_mode E c.mode tcp_only)
        (load_no_delay_lem E c.no_delay)
  load_parts (some a) [] (some m) c hl hs hm =
      load_fields E (printed (some a) [] (some m) c) c.config_type
        (restored_local E c.config_type (some a)) [] [] (restored_manager E (some m)) c.mode
        c.no_delay (load_local_lem E c.config_type a hl) refl refl (load_manager_lem E m hm)
        (load_mode-show_mode E c.mode tcp_only) (load_no_delay_lem E c.no_delay)
  load_parts (some a) (s ∷ []) none c hl hs hm =
      load_fields E (printed (some a) (s ∷ []) none c) c.config_type
        (restored_local E c.config_type (some a)) (restored_servers E c.timeout (s ∷ [])) []
        (restored_manager E none) c.mode c.no_delay (load_local_lem E c.config_type a hl)
        (standard_lem s c.timeout (printed (some a) (s ∷ []) none c) refl refl refl refl refl refl
          refl hs.0)
        refl refl (load_mode-show_mode E c.mode tcp_only) (load_no_delay_lem E c.no_delay)
  load_parts (some a) (s ∷ []) (some m) c hl hs hm =
      load_fields E (printed (some a) (s ∷ []) (some m) c) c.config_type
        (restored_local E c.config_type (some a)) (restored_servers E c.timeout (s ∷ [])) []
        (restored_manager E (some m)) c.mode c.no_delay (load_local_lem E c.config_type a hl)
        (standard_lem s c.timeout (printed (some a) (s ∷ []) (some m) c) refl refl refl refl refl
          refl refl hs.0)
        refl (load_manager_lem E m hm) (load_mode-show_mode E c.mode tcp_only)
        (load_no_delay_lem E c.no_delay)
  load_parts (some a) (s1 ∷ s2 ∷ ss) none c hl hs hm =
      load_fields E (printed (some a) (s1 ∷ s2 ∷ ss) none c) c.config_type
        (restored_local E c.config_type (some a)) [] (restored_servers E c.timeout (s1 ∷ s2 ∷ ss))
        (restored_manager E none) c.mode c.no_delay (load_local_lem E c.config_type a hl) refl
        (load_ext_lem E (s1 ∷ s2 ∷ ss) c.timeout hs) refl (load_mode-show_mode E c.mode tcp_only)
        (load_no_delay_lem E c.no_delay)
  load_parts (some a) (s1 ∷ s2 ∷ ss) (some m) c hl hs hm =
      load_fields E (printed (some a) (s1 ∷ s2 ∷ ss) (some m) c) c.config_type
        (restored_local E c.config_type (some a)) [] (restored_servers E c.timeout (s1 ∷ s2 ∷ ss))
        (restored_manager E (some m)) c.mode c.no_delay (load_local_lem E c.config_type a hl) refl
        (load_ext_lem E (s1 ∷ s2 ∷ ss) c.timeout hs) (load_manager_lem E m hm)
        (load_mode-show_mode E c.mode tcp_only) (load_no_delay_lem E c.no_delay)

  -- Take a configuration whose host names are not the text of an IP address and whose servers'
  -- keys were made from their passwords. What is printed of it loads without an error, to the
  -- same servers, local address, manager's address, mode, and options. IPv6 addresses lose
  -- their flow label and scope, the local address of a server its port, and servers their
  -- plugin's address; each server gets the timeout that it had in effect, its own or else the
  -- file's. The file's timeout is kept with two servers or more, is the one server's timeout in
  -- effect with one, and is lost with none; all else is lost.
  pub load-to_ssconfig :
      (c : Config E)
      → IsLocal E c.local
      → All (IsMade E) c.servers
      → IsManaged E c.manager_address
      → load_from_ssconfig E (to_ssconfig E c) c.config_type ≡ ok (restored E c)
  load-to_ssconfig c hl hs hm = load_parts c.local c.servers c.manager_address c hl hs hm
