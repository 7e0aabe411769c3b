-- ===== src/Manager/Commands.antt =====
-- What the commands of the manager do to its servers.
use Prim.Native.String.{String}
use shadowsocks_rust.Common.{
  ℕ, ◌≡◌, ◌≢◌, refl, sym, ap, ◌∙◌, subst, List, [], ◌∷◌, Option-cases, ◌⊎◌, Option, none, some, inl,
  inr, ==_iff,
}
use shadowsocks_rust.Common.Outcome.{Outcome, ok, err, panic, returned, ok_injective}
use shadowsocks_rust.Io.{IoError}
use shadowsocks_rust.Socks5.Address.{SocketAddr}
use shadowsocks_rust.Crypto.CipherType.{CipherType}
use shadowsocks_rust.Crypto.Sizes.{bytes_to_key}
use shadowsocks_rust.Replay.{server}
use shadowsocks_rust.Flow.{new_server_flow, new_multi, get}
use shadowsocks_rust.Config.{Mode, PluginConfig, parse_mode}
use shadowsocks_rust.Manager.{
  Environment, Config, AddRequest, ServerConfig, addr_port, any_address, ManagerService, Response,
  ok_line, new_config, lookup, remove, insert, lift_panic, new_server_config, start_server,
  start_server_with_config, chosen_method, chosen_plugin, set_mode, chosen_no_delay, add_server,
  handle_add,
}
use shadowsocks_rust.Manager.Entries.{
  Kept, remove-Kept, insert-Kept, lookup-insert_same, lookup-insert_other, lookup-remove_other,
}

module _ (E : Environment) where
  open E use {backends, md5, parse_add, parse_remove, parse_stat}

  lift_panic_ok : {A : Type 0} (m : Outcome (Unit {0}) A) (a : A) → lift_panic E m ≡ ok a → m ≡ ok a
  lift_panic_ok (ok b) a e = cc
  lift_panic_ok (err b) a e = cc
  lift_panic_ok panic a e = cc

  -- The configuration of a server that is added: all but its own part is the context's.
  abbrev pub added_config : AddRequest → Config E → ServerConfig → Config E
  added_config p context svr = record {
    servers = svr ∷ [];
    local = context.local;
    mode = context.mode;
    no_delay = chosen_no_delay E p.no_delay context;
    manager_method = none;
    config_type = server;
    udp_timeout = context.udp_timeout;
    timeout = context.timeout;
    acl = context.acl;
  }

  -- The server's own part, as the request asks for it.
  pub record Requested (p : AddRequest) (context : Config E) (svr : ServerConfig) : Type 0 where
    pub addr : svr.addr ≡ any_address E p.server_port
    pub password : svr.password ≡ p.password
    pub method : chosen_method E p.method context.manager_method ≡ ok svr.method
    pub enc_key : bytes_to_key backends md5 svr.method p.password ≡ ok svr.enc_key
    pub plugin : svr.plugin ≡ chosen_plugin E p

  new_server_config_lem :
      (addr : SocketAddr) (pwd : List ℕ) (method : CipherType) (timeout : Option ℕ)
      (plugin : Option PluginConfig) (svr : ServerConfig)
      → new_server_config E addr pwd method timeout plugin ≡ ok svr
      → (key : List ℕ) × (bytes_to_key backends md5 method pwd ≡ ok key)
        × (record {
          addr = addr;
          password = pwd;
          method = method;
          timeout = timeout;
          enc_key = key;
          plugin = plugin;
        }
            ≡ svr)
  unfolding new_server_config
  new_server_config_lem addr pwd method timeout plugin svr e =
      let (key, h, f) = returned (lift_panic E (bytes_to_key backends md5 method pwd)) _ svr e in
      (key, lift_panic_ok _ key h, ok_injective _ svr f)

  start_server-added_config :
      (p : AddRequest) (context : Config E) (svr : ServerConfig)
      → start_server E (added_config p context svr)
        ≡ ok (record { config = added_config p context svr; flow_stat = new_server_flow })
  unfolding start_server new_multi get
  start_server-added_config p context svr =
      rw ((==_iff (addr_port svr.addr) (addr_port svr.addr)).1 refl) refl

  set_mode_cases :
      (m : Option String) (c : Config E)
      → ((k : Mode) × (set_mode E m c ≡ ok (record c { mode = k })))
        ⊎ ((e : IoError) × (set_mode E m c ≡ err e))
  unfolding set_mode
  set_mode_cases none c = inl (c.mode, refl)
  set_mode_cases (some m) c = elim (Option-cases (parse_mode m)) [
    | inl h ↦ rw (h, set_mode) (inr (_, refl))
    | inr (k, h) ↦ rw (h, set_mode) (inl (k, refl))
  ]

  -- What an added server is, and that nothing else changes.
  pub record Added (p : AddRequest) (before after : ManagerService E) : Type 0 where
    pub svr : ServerConfig
    pub requested : Requested p before.context svr
    pub running :
        lookup E p.server_port after.servers
        ≡ some (record { config = added_config p before.context svr; flow_stat = new_server_flow })
    pub others :
        (port : ℕ)
        → port ≢ p.server_port
        → lookup E port after.servers ≡ lookup E port before.servers
    pub context : after.context ≡ before.context
    pub kept : Kept E before.servers → Kept E after.servers

  -- The service after the server is put into the map.
  abbrev pub with_added : AddRequest → ManagerService E → ServerConfig → ManagerService E
  with_added p service svr = record service {
    servers =
        insert E p.server_port
          (record { config = added_config p service.context svr; flow_stat = new_server_flow })
          (remove E p.server_port service.servers);
  }

  with_added-Added :
      (p : AddRequest) (service : ManagerService E) (svr : ServerConfig)
      → Requested p service.context svr
      → Added p service (with_added p service svr)
  with_added-Added p service svr req = record {
    svr = svr;
    requested = req;
    running = lookup-insert_same E p.server_port _ _;
    others = λ port ne.
        lookup-insert_other E p.server_port port _ _ ne
        ∙ lookup-remove_other E p.server_port port service.servers ne;
    context = refl;
    kept = λ k.
        insert-Kept E p.server_port _ _ (svr, refl, ap addr_port req.addr)
          (remove-Kept E p.server_port service.servers k);
  }

  pub add_server_cases :
      (p : AddRequest) (svr : ServerConfig) (service : ManagerService E)
      → (add_server E p svr service ≡ ok (some ok_line, with_added p service svr))
        ⊎ ((e : IoError) × (add_server E p svr service ≡ err e))
  unfolding add_server start_server_with_config new_config
  add_server_cases p svr service =
      elim (set_mode_cases p.mode
        (record (new_config E server) { servers = svr ∷ []; local = service.context.local })) [
          | inl (k, h) ↦ inl (rw (h, start_server-added_config p service.context svr) refl)
          | inr (e, h) ↦ inr (e, rw (h) refl)
        ]

  new_server_config-Requested :
      (p : AddRequest) (context : Config E) (method : CipherType) (svr : ServerConfig)
      → chosen_method E p.method context.manager_method ≡ ok method
      → new_server_config E (any_address E p.server_port) p.password method none (chosen_plugin E p)
        ≡ ok svr
      → Requested p context svr
  new_server_config-Requested p context method svr hm hs =
      let (key, hk, same) =
        new_server_config_lem (any_address E p.server_port) p.password method none
          (chosen_plugin E p) svr hs in
      subst (Requested p context) same
        (record { addr = refl; password = refl; method = hm; enc_key = hk; plugin = refl })

  -- If `add` succeeds, it answers `ok`; the server of the requested port then runs with the
  -- requested password, plugin, method (or the manager's, or the default one) and the key made
  -- of them, with a fresh statistic, and with the manager's own mode, whatever mode the request
  -- names, and its timeouts and access control list; the servers of all other ports and the
  -- context are the same, and the map stays well kept.
  pub handle_add-Added :
      (p : AddRequest) (service service' : ManagerService E) (r : Option Response)
      → handle_add E p service ≡ ok (r, service')
      → (r ≡ some ok_line) × Added p service service'
  unfolding handle_add
  handle_add-Added p service service' r e =
      let (method, hm, e1) =
        returned (chosen_method E p.method service.context.manager_method) _ _ e in
      let (svr, hs, e2) =
        returned
          (new_server_config E (any_address E p.server_port) p.password method none
            (chosen_plugin E p))
          _ _ e1 in
      elim (add_server_cases p svr service) [
        | inl h ↦
            let same = ok_injective _ _ (sym h ∙ e2) in
            (
              sym (ap (λ x. x.0) same),
              subst (Added p service) (ap (λ x. x.1) same) (
                  with_added-Added p service svr
                    (new_server_config-Requested p service.context method svr hm hs)),
            )
        | inr (_, h) ↦ cc
      ]
