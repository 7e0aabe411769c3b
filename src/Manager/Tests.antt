-- ===== src/Manager/Tests.antt =====
-- The manager with a JSON parser that knows one request.
use Prim.Native.String.{String}
use shadowsocks_rust.Common.{ℕ, ◌≡◌, ◌↔◌, refl, List, [], ◌∷◌, true, none, some}
use shadowsocks_rust.Common.Outcome.{ok, panic}
use shadowsocks_rust.Crypto.CipherType.{chacha20_ietf_poly1305}
use shadowsocks_rust.Crypto.Sizes.{
  key_size, iv_size, key_rounds, classic_bytes_to_key, bytes_to_key,
}
use shadowsocks_rust.Crypto.Tests.{backends, backends-IsSupported, sixteen}
use shadowsocks_rust.Config.{tcp_and_udp, parse_mode}
use shadowsocks_rust.Replay.{manager}
use shadowsocks_rust.Flow.{new_multi, get, new_server_flow}
use shadowsocks_rust.Manager.{
  Environment, AddRequest, ServerConfig, Config, ManagerService, ok_line, any_address, new_config,
  lookup, remove, insert, new_server_config, start_server, start_server_with_config, chosen_method,
  set_mode, add_server, handle_add, dispatch_command, handle_action, parsed,
}
use shadowsocks_rust.Manager.Entries.{Kept}
use shadowsocks_rust.Manager.Commands.{Added, added_config, handle_add-Added}
use shadowsocks_rust.Manager.Panics.{AsksRc4, handle_action_panics}
use shadowsocks_rust.Manager.Actions.{Keeps, handle_action-Keeps}

-- A request for a mode that is not the manager's.
abbrev request : AddRequest
request = record {
  server_port = 8388;
  password = 1 ∷ [];
  method = none;
  no_delay = none;
  plugin = none;
  plugin_opt = none;
  mode = some "tcp_only";
}

abbrev env : Environment
env = record {
  backends = backends;
  md5 = sixteen;
  parse_add = λ s. some request;
  parse_remove = λ s. some 8388;
  parse_stat = λ s. none;
  Client = Unit {0};
  Acl = Unit {0};
}

abbrev context : Config env
context = record {
  servers = [];
  local = none;
  mode = tcp_and_udp;
  no_delay = true;
  manager_method = none;
  config_type = manager;
  udp_timeout = none;
  timeout = none;
  acl = none;
}

abbrev idle : ManagerService env
idle = record { servers = []; context = context }

abbrev key_of_1 : List ℕ
key_of_1 =
    1 ∷ 2 ∷ 3 ∷ 4 ∷ 5 ∷ 6 ∷ 7 ∷ 8 ∷ 9 ∷ 10 ∷ 11 ∷ 12 ∷ 13 ∷ 14 ∷ 15 ∷ 16 ∷ 17 ∷ 2 ∷ 3 ∷ 4 ∷ 5 ∷ 6
    ∷ 7 ∷ 8 ∷ 9 ∷ 10 ∷ 11 ∷ 12 ∷ 13 ∷ 14 ∷ 15 ∷ 16 ∷ []

abbrev added_server : ServerConfig
added_server = record {
  addr = any_address env 8388;
  password = 1 ∷ [];
  method = chacha20_ietf_poly1305;
  timeout = none;
  enc_key = key_of_1;
  plugin = none;
}

abbrev busy : ManagerService env
busy = record {
  servers =
      (
        8388,
        record {
          config = added_config env request context added_server;
          flow_stat = new_server_flow;
        },
      )
      ∷ [];
  context = context;
}

add_idle : handle_add env request idle ≡ ok (some ok_line, busy)
unfolding handle_add add_server chosen_method new_server_config set_mode parse_mode new_config
    remove insert start_server start_server_with_config new_multi get key_size iv_size key_rounds
    classic_bytes_to_key bytes_to_key
add_idle = refl

handle_add-Added_example : (some ok_line ≡ some ok_line) × Added env request idle busy
handle_add-Added_example = handle_add-Added env request idle busy (some ok_line) add_idle

action_idle : handle_action env "add" "{}" idle ≡ ok (some ok_line, busy)
unfolding handle_action dispatch_command parsed handle_add add_server chosen_method
    new_server_config set_mode parse_mode new_config remove insert start_server
    start_server_with_config new_multi get key_size iv_size key_rounds classic_bytes_to_key
    bytes_to_key
action_idle = refl

handle_action-Keeps_example : Keeps env idle busy
handle_action-Keeps_example =
    handle_action-Keeps env "add" "{}" idle busy (some ok_line) action_idle

busy-Kept : Kept env busy.servers
unfolding lookup
busy-Kept = (((added_server, refl, refl), tt), (refl, tt))

abbrev rc4_request : AddRequest
rc4_request = record request { method = some "rc4" }

-- The same parser, with the request for RC4.
abbrev rc4_env : Environment
rc4_env = record env { parse_add = λ s. some rc4_request }

abbrev add : String
add = "add"

handle_action_panics_example :
    (handle_action rc4_env add "{}" (record { servers = []; context = new_config rc4_env manager })
      ≡ panic)
    ↔ ((add ≡ add)
        × ((p : AddRequest) × (some rc4_request ≡ some p)
            × AsksRc4 rc4_env p (new_config rc4_env manager)))
handle_action_panics_example =
    handle_action_panics rc4_env backends-IsSupported add "{}"
      (record { servers = []; context = new_config rc4_env manager }) (tt, tt)
