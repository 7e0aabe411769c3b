-- ===== src/TcpRelay/Socks5Local/Tests.antt =====
-- A client, a local server, a server at 10.0.0.1 and a target, on a network where all is reached but
-- the port 81.
use shadowsocks_rust.Common.{
  ℕ, ◌==◌, ◌≡◌, refl, List, [], ◌∷◌, ◌++◌, arith, true, false, none, some, if◌then◌else◌,
}
use shadowsocks_rust.Common.Outcome.{ok, err, ◌>>=◌}
use shadowsocks_rust.Io.{IoError, connection_refused, kind_only, connect_failed}
use shadowsocks_rust.Socks5.Address.{SocketAddr, v4, Address, socket_address, write_to_buf}
use shadowsocks_rust.Socks5.Address.Reading.{carried}
use shadowsocks_rust.Socks5.Reply.{Reply}
use shadowsocks_rust.Acl.{AccessControl, black_list}
use shadowsocks_rust.Acl.Tests.{toy, ip_10}
use shadowsocks_rust.Context.{
  socket_addr, check_target_bypassed, check_client_blocked, check_outbound_blocked,
}
use shadowsocks_rust.Crypto.CipherType.{plain}
use shadowsocks_rust.Config.{ServerConfig, tcp_and_udp, enable_tcp, external_addr}
use shadowsocks_rust.Replay.{socks5_local}
use shadowsocks_rust.TcpRelay.ProxyStream.{
  direct, proxied, Network, Client, bypasses, connect, connect_proxied, connect_proxy_server,
  connect_proxy_server_internal, connected, dial, dialled_addr, greeted, proxied_wrapped,
  proxy_server_handshake, retry,
}
use shadowsocks_rust.TcpRelay.ProxyStream.Attempts.{OnlyServer, proxied_connect-OnlyServer}
use shadowsocks_rust.TcpRelay.Session.{Session, Socket}
use shadowsocks_rust.TcpRelay.Client as Client
use shadowsocks_rust.TcpRelay.Client.{refusal}
use shadowsocks_rust.TcpRelay.Socks5Local.{UdpConfig, handle_socks5_client}
use shadowsocks_rust.TcpRelay.Socks5Local.Exchange.{fresh}
use shadowsocks_rust.TcpRelay.Socks5Local.Trip.{socks5_connect_established}
use shadowsocks_rust.TcpRelay.Socks5Local.Refusals.{
  RepliedTo, refusal_bytes, socks5_connect_refused,
}
use shadowsocks_rust.TcpRelay.Server.{local_bind, connect_remote, accept}
use shadowsocks_rust.TcpRelay.Server.Allowed.{NoneBlocked, server_accept-NoneBlocked}
use shadowsocks_rust.TcpRelay.Server.Reaching.{server_reaches_target}

abbrev at : ℕ → SocketAddr
at port = v4 (record { ip = record { o1 = 10; o2 = 0; o3 = 0; o4 = 1 }; port = port })

abbrev refused : IoError
refused = record { kind = connection_refused; message = kind_only }

abbrev port_of : SocketAddr → ℕ
port_of (v4 a) = a.port
port_of _ = 0

abbrev net : Network
net = record {
  accepts = λ dialled addr. if port_of addr == 81 then err refused else ok tt;
  resolve = λ host port. ok (at port ∷ []);
  local_addr = λ stream. ok (at 9);
  write_all = λ addr bytes. ok tt;
}

abbrev server_at : ℕ → ServerConfig
server_at port = record {
  addr = socket_addr (at port);
  password = [];
  method = plain;
  timeout = none;
  enc_key = [];
  plugin = none;
  plugin_addr = none;
}

abbrev client_of : ℕ → Client toy
client_of port = record {
  android = false;
  dns = λ host p. none;
  cache = λ ip. none;
  acl = none;
  config_type = socks5_local;
  svr_cfg = server_at port;
}

abbrev sock : Socket
sock = record { peer_addr = ok (at 7); write_all = λ before bytes. ok tt }

abbrev udp : UdpConfig
udp = record { enable_udp = false; client_addr = at 1080 }

abbrev target : Address
target = socket_address (at 80)

reached :
    connect toy net (client_of 8388) (carried target) [] ≡ (ok (proxied (at 8388)), at 8388 ∷ [])
unfolding connect check_target_bypassed carried connect_proxied connect_proxy_server dialled_addr
    external_addr retry connect_proxy_server_internal connected dial greeted proxied_wrapped
    proxy_server_handshake write_to_buf
reached = refl

unreached :
    connect toy net (client_of 81) (carried target) []
    ≡ (err (record { inner = refused; bypassed = false }), at 81 ∷ at 81 ∷ at 81 ∷ [])
unfolding connect check_target_bypassed carried connect_proxied connect_proxy_server dialled_addr
    external_addr retry connect_proxy_server_internal connected dial greeted proxied_wrapped
    proxy_server_handshake write_to_buf
unreached = refl

not_bypassed : bypasses toy (client_of 81) target ≡ false
unfolding check_target_bypassed
not_bypassed = refl

both_enabled : enable_tcp tcp_and_udp ≡ true
unfolding enable_tcp
both_enabled = refl

dialled_81 : dialled_addr socks5_local (server_at 81) ≡ some (socket_addr (at 81))
unfolding dialled_addr external_addr
dialled_81 = refl

proxied_connect-OnlyServer_example :
    OnlyServer net (socket_addr (at 81)) ((connect toy net (client_of 81) target []).1)
proxied_connect-OnlyServer_example =
    proxied_connect-OnlyServer toy net (client_of 81) target (socket_addr (at 81)) not_bypassed
      dialled_81

socks5_connect_established_example :
    (sent answer : List ℕ) × (Client.connect sock target (fresh (answer ++ (6 ∷ [])))
      ≡ (ok tt, record (fresh (6 ∷ [])) { output = sent }))
    × (handle_socks5_client sock toy net (client_of 8388) tcp_and_udp udp (fresh (sent ++ (5 ∷ [])))
        ≡ (
          ok tt,
          record (fresh (5 ∷ [])) {
            output = answer;
            dialled = at 8388 ∷ [];
            relayed = some (proxied (at 8388));
          },
        ))
socks5_connect_established_example =
    socks5_connect_established sock sock (λ b x. refl) (λ b x. refl) toy net (client_of 8388)
      tcp_and_udp udp (at 7) target (5 ∷ []) (6 ∷ []) refl
      (omega arith, omega arith, omega arith, omega arith, omega arith) tt (proxied (at 8388))
      (at 8388 ∷ []) (at 9) both_enabled reached refl
      (omega arith, omega arith, omega arith, omega arith, omega arith)

socks5_connect_refused_example :
    (reply : Reply) × (code : ℕ) × RepliedTo connection_refused reply code
    × (sent : List ℕ) × (Client.connect sock target (fresh (refusal_bytes code ++ (6 ∷ [])))
        ≡ (err (refusal reply), record (fresh (6 ∷ [])) { output = sent }))
    × (handle_socks5_client sock toy net (client_of 81) tcp_and_udp udp (fresh (sent ++ (5 ∷ [])))
        ≡ (
          err (record { kind = connection_refused; message = connect_failed kind_only }),
          record (fresh (5 ∷ [])) {
            output = refusal_bytes code;
            dialled = at 81 ∷ at 81 ∷ at 81 ∷ [];
            failures = if bypasses toy (client_of 81) (carried target) then 1 else 0;
          },
        ))
socks5_connect_refused_example =
    socks5_connect_refused sock sock (λ b x. refl) (λ b x. refl) toy net (client_of 81) tcp_and_udp
      udp (at 7) target (5 ∷ []) (6 ∷ []) refl
      (omega arith, omega arith, omega arith, omega arith, omega arith) tt
      (record { inner = refused; bypassed = false }) (at 81 ∷ at 81 ∷ at 81 ∷ []) both_enabled
      unreached

-- A list that blocks the network of the target, and 11.0.0.1 is outside it.
abbrev blocking : AccessControl toy
blocking = record {
  outbound_block = record { ipv4 = ip_10 ∷ []; ipv6 = []; rule = [] };
  black = record { ipv4 = []; ipv6 = []; rule = [] };
  white = record { ipv4 = []; ipv6 = []; rule = [] };
  mode = black_list;
}

abbrev asks_outside : Session
asks_outside = fresh (1 ∷ 11 ∷ 0 ∷ 0 ∷ 1 ∷ 0 ∷ 80 ∷ [])

server_accept-NoneBlocked_example :
    NoneBlocked toy net
      (some blocking)
      ((accept toy net (some blocking) none (at 7) asks_outside).dialled)
server_accept-NoneBlocked_example =
    server_accept-NoneBlocked toy net (some blocking) none (at 7) asks_outside tt

nobody_blocked : check_client_blocked toy none (at 7) ≡ false
unfolding check_client_blocked
nobody_blocked = refl

nothing_blocked : check_outbound_blocked toy none (carried target) ≡ false
unfolding check_outbound_blocked
nothing_blocked = refl

unbound : local_bind net none ≡ ok none
unfolding local_bind
unbound = refl

target_reached : connect_remote toy net none (carried target) [] ≡ (ok (at 80), at 80 ∷ [])
unfolding connect_remote carried connected dial
target_reached = refl

server_reaches_target_example :
    (sent : List ℕ) × (proxy_server_handshake net target (at 8388)
      ≡ (net.write_all (at 8388) sent >>= λ _. ok (proxied (at 8388))))
    × (accept toy net none none (at 7) (fresh (sent ++ (5 ∷ [])))
        ≡ record (fresh (5 ∷ [])) { dialled = at 80 ∷ []; relayed = some (direct (at 80)) })
server_reaches_target_example =
    server_reaches_target toy net none net (at 8388) none (at 7) target (5 ∷ []) none (at 80)
      (at 80 ∷ []) (omega arith, omega arith, omega arith, omega arith, omega arith) tt
      nobody_blocked nothing_blocked unbound target_reached
