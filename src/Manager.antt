-- ===== src/Manager.antt =====
-- relay/manager.rs: the servers that the manager runs, and the commands that change them. The parts of
-- `Config` and `ServerConfig` of config.rs that it uses.
pub mod Entries
pub mod Commands
pub mod Actions
pub mod Methods
pub mod Panics
mod Tests
use Prim.Native.String.{String}
use text.Mathlib.Text.{◌==◌ as str_eq}
use shadowsocks_rust.Common.{
  ℕ, ◌==◌, List, [], ◌∷◌, Bool, true, false, Option, none, some, if◌then◌else◌,
}
use shadowsocks_rust.Common.Outcome.{Outcome, ok, err, panic, ◌>>=◌}
use shadowsocks_rust.Io.{
  IoError, other, invalid_data, unrecognized_method, unrecognized_mode, unrecognized_command,
  malformed_json,
}
use shadowsocks_rust.Config.{Mode, tcp_only, parse_mode, PluginConfig}
use shadowsocks_rust.Socks5.Address.{SocketAddr, v4}
use shadowsocks_rust.Crypto.CipherType.{CipherType, from_str, chacha20_ietf_poly1305}
use shadowsocks_rust.Crypto.Sizes.{Backends, bytes_to_key, expect}
use shadowsocks_rust.Replay.{ConfigType, server}
use shadowsocks_rust.Flow.{
  ServerFlowStatistic, MultiServerFlowStatistic, new_multi, get, trans_stat,
}

-- `protocol::ServerConfig`; a password is its bytes.
pub record AddRequest : Type 0 where
  pub server_port : ℕ
  pub password : List ℕ
  pub method : Option String
  pub no_delay : Option Bool
  pub plugin : Option String
  pub plugin_opt : Option String
  pub mode : Option String

-- `ServerConfig` of config.rs, whose address is a socket address here.
pub record ServerConfig : Type 0 where
  pub addr : SocketAddr
  pub password : List ℕ
  pub method : CipherType
  pub timeout : Option ℕ
  pub enc_key : List ℕ
  pub plugin : Option PluginConfig

abbrev pub addr_port : SocketAddr → ℕ
addr_port (v4 a) = a.port
addr_port (SocketAddr.v6 a) = a.port

-- A response, kept as what its text is made from; the order of the entries is the map's.
pub data Response : Type 0 where
  ok_line : Response
  listed : List (ℕ × CipherType × List ℕ) → Response
  stat : List (ℕ × ℕ) → Response
  failure : IoError → Response

-- What the manager is given: the ciphers' libraries, MD5, serde_json, whose parsers answer `none` for a
-- text that is no such value, and the types of the local address and of the access control list.
pub record Environment : Type 1 where
  pub backends : Backends
  pub md5 : List ℕ → List ℕ
  pub parse_add : String → Option AddRequest
  pub parse_remove : String → Option ℕ
  pub parse_stat : String → Option (List (String × ℕ))
  pub Client : Type 0
  pub Acl : Type 0

module _ (E : Environment) where
  open E use {backends, md5, parse_add, parse_remove, parse_stat, Client, Acl}

  -- The fields of `Config` that the manager reads or writes.
  pub record Config : Type 0 where
    pub servers : List ServerConfig
    pub local : Option Client
    pub mode : Mode
    pub no_delay : Bool
    pub manager_method : Option CipherType
    pub config_type : ConfigType
    pub udp_timeout : Option ℕ
    pub timeout : Option ℕ
    pub acl : Option Acl

  unfoldable pub new_config : ConfigType → Config
  new_config ty = record {
    servers = [];
    local = none;
    mode = tcp_only;
    no_delay = false;
    manager_method = none;
    config_type = ty;
    udp_timeout = none;
    timeout = none;
    acl = none;
  }

  -- `ServerInstance`; its channel ends the server's task when it is dropped.
  pub record ServerInstance : Type 0 where
    pub config : Config
    pub flow_stat : ServerFlowStatistic

  -- `servers`, in the order in which the map is iterated, and the configuration of the context.
  pub record ManagerService : Type 0 where
    pub servers : List (ℕ × ServerInstance)
    pub context : Config

  unfoldable pub lookup : ℕ → List (ℕ × ServerInstance) → Option ServerInstance
  lookup port [] = none
  lookup port ((p, inst) ∷ rest) =
      let later = lookup port rest in if p == port then some inst else later

  unfoldable pub remove : ℕ → List (ℕ × ServerInstance) → List (ℕ × ServerInstance)
  remove port [] = []
  remove port ((p, inst) ∷ rest) =
      let later = remove port rest in if p == port then later else (p, inst) ∷ later

  unfoldable pub insert : ℕ → ServerInstance → List (ℕ × ServerInstance) → List (ℕ × ServerInstance)
  insert port inst entries = (port, inst) ∷ remove port entries

  abbrev pub lift_panic {ℓ} : {A : Type ℓ} → Outcome (Unit {0}) A → Outcome IoError A
  lift_panic (ok a) = ok a
  lift_panic (err _) = panic
  lift_panic panic = panic

  -- `ServerConfig::new`, which makes the key.
  unfoldable pub new_server_config :
      SocketAddr
      → List ℕ
      → CipherType
      → Option ℕ
      → Option PluginConfig
      → Outcome IoError ServerConfig
  new_server_config addr pwd method timeout plugin = do
    enc_key ← lift_panic (bytes_to_key backends md5 method pwd)
    ok (record {
      addr = addr;
      password = pwd;
      method = method;
      timeout = timeout;
      enc_key = enc_key;
      plugin = plugin;
    })

  abbrev pub ports : List ServerConfig → List ℕ
  ports [] = []
  ports (s ∷ ss) = addr_port s.addr ∷ ports ss

  abbrev pub first : List ServerConfig → Option ServerConfig
  first [] = none
  first (s ∷ ss) = some s

  -- `ServerInstance::start_server`: the task itself is not modelled.
  unfoldable pub start_server : Config → Outcome IoError ServerInstance
  start_server config = do
    s ← lift_panic (expect (first config.servers))
    flow ← lift_panic (expect (get (new_multi (ports config.servers)) (addr_port s.addr)))
    ok (record { config = config; flow_stat = flow })

  unfoldable pub start_server_with_config :
      ℕ → Config → ManagerService → Outcome IoError ManagerService
  start_server_with_config server_port config service = do
    inst ← start_server config
    ok (record service { servers = insert server_port inst service.servers })

  unfoldable pub chosen_method : Option String → Option CipherType → Outcome IoError CipherType
  chosen_method none none = ok chacha20_ietf_poly1305
  chosen_method none (some m) = ok m
  chosen_method (some method) default = elim (from_str method) [
    | ok m ↦ ok m
    | err _ ↦ err (record { kind = other; message = unrecognized_method method })
    | panic ↦ panic
  ]

  abbrev pub chosen_plugin : AddRequest → Option PluginConfig
  chosen_plugin p = elim p.plugin [
    | some pp ↦ some (record { plugin = pp; plugin_opt = p.plugin_opt })
    | none ↦ none
  ]

  -- The mode of the request, on the way.
  unfoldable pub set_mode : Option String → Config → Outcome IoError Config
  set_mode none config = ok config
  set_mode (some mode) config = elim (parse_mode mode) [
    | some m ↦ ok (record config { mode = m })
    | none ↦ err (record { kind = other; message = unrecognized_mode mode })
  ]

  abbrev pub chosen_no_delay : Option Bool → Config → Bool
  chosen_no_delay (some b) context = b
  chosen_no_delay none context = context.no_delay

  abbrev pub any_address : ℕ → SocketAddr
  any_address port = v4 (record { ip = record { o1 = 0; o2 = 0; o3 = 0; o4 = 0 }; port = port })

  -- `handle_add` from the configuration on.
  unfoldable pub add_server :
      AddRequest
      → ServerConfig
      → ManagerService
      → Outcome IoError (Option Response × ManagerService)
  add_server p svr_cfg service = do
    let context = service.context
    let config = record (new_config server) { servers = svr_cfg ∷ []; local = context.local }
    config1 ← set_mode p.mode config
    let config2 = record config1 {
      no_delay = chosen_no_delay p.no_delay context;
      udp_timeout = context.udp_timeout;
      timeout = context.timeout;
    }
    let config3 = record config2 { mode = context.mode }
    let config4 = record config3 { acl = context.acl }
    let closed = record service { servers = remove p.server_port service.servers }
    started ← start_server_with_config p.server_port config4 closed
    ok (some ok_line, started)

  unfoldable pub handle_add :
      AddRequest → ManagerService → Outcome IoError (Option Response × ManagerService)
  handle_add p service = do
    method ← chosen_method p.method service.context.manager_method
    svr_cfg ← new_server_config (any_address p.server_port) p.password method none (chosen_plugin p)
    add_server p svr_cfg service

  unfoldable pub handle_remove :
      ℕ → ManagerService → Outcome IoError (Option Response × ManagerService)
  handle_remove server_port service =
      ok (some ok_line, record service { servers = remove server_port service.servers })

  -- The entries of the map, each with the first server of its configuration.
  unfoldable pub list_entries :
      List (ℕ × ServerInstance) → Outcome IoError (List (ℕ × CipherType × List ℕ))
  list_entries [] = ok []
  list_entries ((port, inst) ∷ rest) = do
    s ← lift_panic (expect (first inst.config.servers))
    later ← list_entries rest
    ok ((addr_port s.addr, s.method, s.password) ∷ later)

  unfoldable pub handle_list : ManagerService → Outcome IoError (Option Response × ManagerService)
  handle_list service = do
    entries ← list_entries service.servers
    ok (some (listed entries), service)

  unfoldable pub ping_entries : List (ℕ × ServerInstance) → List (ℕ × ℕ)
  ping_entries [] = []
  ping_entries ((port, inst) ∷ rest) = (port, trans_stat inst.flow_stat) ∷ ping_entries rest

  unfoldable pub handle_ping : ManagerService → Outcome IoError (Option Response × ManagerService)
  handle_ping service = ok (some (stat (ping_entries service.servers)), service)

  -- `stat` is ignored.
  unfoldable pub handle_stat :
      List (String × ℕ) → ManagerService → Outcome IoError (Option Response × ManagerService)
  handle_stat pmap service = ok (none, service)

  abbrev pub json_error : IoError
  json_error = record { kind = invalid_data; message = malformed_json }

  unfoldable pub parsed {ℓ} : {A : Type ℓ} → Option A → Outcome IoError A
  parsed none = err json_error
  parsed (some a) = ok a

  unfoldable pub dispatch_command :
      String → String → ManagerService → Outcome IoError (Option Response × ManagerService)
  dispatch_command action param service =
      if str_eq action "add"
      then (do p ← parsed (parse_add param); handle_add p service)
      else if str_eq action "remove"
      then (do p ← parsed (parse_remove param); handle_remove p service)
      else if str_eq action "list"
      then handle_list service
      else if str_eq action "ping"
      then handle_ping service
      else if str_eq action "stat"
      then (do p ← parsed (parse_stat param); handle_stat p service)
      else err (record { kind = invalid_data; message = unrecognized_command action })

  -- The end of `handle_packet`: an error is answered with its text. A panic ends the manager.
  unfoldable pub handle_action :
      String → String → ManagerService → Outcome (Unit {0}) (Option Response × ManagerService)
  handle_action action param service = elim (dispatch_command action param service) [
    | ok answer ↦ ok answer
    | err e ↦ ok (some (failure e), service)
    | panic ↦ panic
  ]
