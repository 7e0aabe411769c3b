-- ===== src/TcpRelay/ProxyStream.antt =====
-- relay/tcprelay/proxy_stream.rs: the connection to a target, direct or through a server, as the
-- access control list says.
pub mod Attempts
use shadowsocks_rust.Common.{
  ℕ, zero, suc, List, [], ◌∷◌, ◌++◌, Bool, true, false, Option, none, some, if◌then◌else◌,
}
use shadowsocks_rust.Common.Outcome.{Outcome, ok, err, panic, ◌>>=◌}
use shadowsocks_rust.Io.{IoError}
use shadowsocks_rust.Socks5.Address.{
  SocketAddr, Address, socket_address, domain_name_address, write_to_buf,
}
use shadowsocks_rust.Acl.{Matchers, AccessControl}
use shadowsocks_rust.Context.{
  ServerAddr, socket_addr, domain_name, IpAddr, Stepped, lookup_then, resolved,
  check_target_bypassed,
}
use shadowsocks_rust.Config.{ServerConfig, external_addr}
use shadowsocks_rust.Replay.{
  ConfigType, socks5_local, http_local, tunnel_local, redir_local, server, manager,
}

-- A connection is known by the address that it goes to.
pub data ProxyStream : Type 0 where
  direct proxied : SocketAddr → ProxyStream

pub record ProxyStreamError : Type 0 where
  pub inner : IoError
  pub bypassed : Bool

-- `ProxyStreamError::is_proxied`, as it is written.
abbrev pub is_proxied : ProxyStreamError → Bool
is_proxied e = e.bypassed

-- The addresses that were dialled, the first one first.
abbrev pub Dialled : Type 0
Dialled = List SocketAddr

-- The network: whether an address can be connected to, given those dialled before, with a timeout as
-- an error; what the resolver answers; the own address of a connection; and tokio's `write_all` of
-- the first bytes to the encrypted stream that is made of a connection.
pub record Network : Type 0 where
  pub accepts : Dialled → SocketAddr → Outcome IoError (Unit {0})
  pub resolve : List ℕ → ℕ → Outcome IoError (List SocketAddr)
  pub local_addr : ProxyStream → Outcome IoError SocketAddr
  pub write_all : SocketAddr → List ℕ → Outcome IoError (Unit {0})

-- `tcp_stream_connect`.
unfoldable pub dial : Network → SocketAddr → Dialled → Stepped Dialled (Unit {0})
dial net addr dialled = (net.accepts dialled addr, dialled ++ (addr ∷ []))

-- The address that was connected to.
unfoldable pub connected : SocketAddr → Stepped Dialled (Unit {0}) → Stepped Dialled SocketAddr
connected addr (ok _, dialled) = (ok addr, dialled)
connected addr (err e, dialled) = (err e, dialled)
connected addr (panic, dialled) = (panic, dialled)

unfoldable pub connected_one : Stepped Dialled (SocketAddr × Unit {0}) → Stepped Dialled SocketAddr
connected_one (ok (addr, _), dialled) = (ok addr, dialled)
connected_one (err e, dialled) = (err e, dialled)
connected_one (panic, dialled) = (panic, dialled)

-- To a host: the first of its addresses that can be connected to.
unfoldable pub connect_host : Network → List ℕ → ℕ → Dialled → Stepped Dialled SocketAddr
unfolding dial connected_one
connect_host net host port dialled = connected_one (
    resolved (net.resolve host port)
      (λ addrs d. lookup_then (λ addr d'. dial net addr d') addrs none d) dialled)

-- `connect_direct`.
unfoldable pub connect_direct : Network → Address → Dialled → Stepped Dialled SocketAddr
unfolding connected connect_host
connect_direct net (socket_address saddr) dialled = connected saddr (dial net saddr dialled)
connect_direct net (domain_name_address domain port) dialled = connect_host net domain port dialled

unfoldable pub connect_proxy_server_internal :
    Network → ServerAddr → Dialled → Stepped Dialled SocketAddr
unfolding connected connect_host
connect_proxy_server_internal net (socket_addr addr) dialled =
    connected addr (dial net addr dialled)
connect_proxy_server_internal net (domain_name domain port) dialled =
    connect_host net domain port dialled

abbrev pub retry_times : ℕ
retry_times = 3

-- The loop of the retries, of which so many are left.
unfoldable pub retry :
    Network → ℕ → Option IoError → ServerAddr → Dialled → Stepped Dialled SocketAddr
unfolding connect_proxy_server_internal
retry net zero none svr_addr dialled = (panic, dialled)
retry net zero (some last_err) svr_addr dialled = (err last_err, dialled)
retry net (suc n) last_err svr_addr dialled =
    let (r, dialled') = connect_proxy_server_internal net svr_addr dialled in
    elim r [
      | ok s ↦ (ok s, dialled')
      | err e ↦ retry net n (some e) svr_addr dialled'
      | panic ↦ (panic, dialled')
    ]

-- Where the server is dialled; a manager is not expected here.
unfoldable pub dialled_addr : ConfigType → ServerConfig → Option ServerAddr
dialled_addr server svr_cfg = some svr_cfg.addr
dialled_addr manager svr_cfg = none
dialled_addr socks5_local svr_cfg = some (external_addr svr_cfg)
dialled_addr tunnel_local svr_cfg = some (external_addr svr_cfg)
dialled_addr http_local svr_cfg = some (external_addr svr_cfg)
dialled_addr redir_local svr_cfg = some (external_addr svr_cfg)

unfoldable pub connect_proxy_server :
    Network → ConfigType → ServerConfig → Dialled → Stepped Dialled SocketAddr
unfolding retry
connect_proxy_server net ty svr_cfg dialled = elim (dialled_addr ty svr_cfg) [
  | some svr_addr ↦ retry net retry_times none svr_addr dialled
  | none ↦ (panic, dialled)
]

-- `proxy_server_handshake`: the target's address is the first thing that is written.
unfoldable pub proxy_server_handshake : Network → Address → SocketAddr → Outcome IoError ProxyStream
proxy_server_handshake net relay_addr remote = do
  addr_buf ← write_to_buf relay_addr []
  _ ← net.write_all remote addr_buf
  ok (proxied remote)

unfoldable pub greeted :
    Network → Address → Stepped Dialled SocketAddr → Stepped Dialled ProxyStream
unfolding proxy_server_handshake
greeted net addr (ok remote, dialled) = (proxy_server_handshake net addr remote, dialled)
greeted net addr (err e, dialled) = (err e, dialled)
greeted net addr (panic, dialled) = (panic, dialled)

unfoldable pub connect_proxied :
    Network → ConfigType → ServerConfig → Address → Dialled → Stepped Dialled ProxyStream
unfolding connect_proxy_server greeted
connect_proxied net ty svr_cfg addr dialled =
    greeted net addr (connect_proxy_server net ty svr_cfg dialled)

-- What `ProxyStream::connect` returns, with the addresses dialled.
abbrev pub Connects : Type 0
Connects = Outcome ProxyStreamError ProxyStream × Dialled

unfoldable pub direct_wrapped : Stepped Dialled SocketAddr → Connects
direct_wrapped (ok addr, dialled) = (ok (direct addr), dialled)
direct_wrapped (err e, dialled) = (err (record { inner = e; bypassed = true }), dialled)
direct_wrapped (panic, dialled) = (panic, dialled)

unfoldable pub proxied_wrapped : Stepped Dialled ProxyStream → Connects
proxied_wrapped (ok s, dialled) = (ok s, dialled)
proxied_wrapped (err e, dialled) = (err (record { inner = e; bypassed = false }), dialled)
proxied_wrapped (panic, dialled) = (panic, dialled)

-- What the client's programs ask the context for.
pub record Client (M : Matchers) : Type 0 where
  pub android : Bool
  pub dns : List ℕ → ℕ → Option (List SocketAddr)
  pub cache : IpAddr → Option (List ℕ)
  pub acl : Option (AccessControl M)
  pub config_type : ConfigType
  pub svr_cfg : ServerConfig

module _ (M : Matchers) where
  abbrev pub bypasses : Client M → Address → Bool
  bypasses cl addr = check_target_bypassed M cl.android cl.dns cl.cache cl.acl addr

  -- `ProxyStream::connect`.
  unfoldable pub connect : Network → Client M → Address → Dialled → Connects
  unfolding direct_wrapped proxied_wrapped connect_direct connect_proxied
  connect net cl addr dialled =
      if bypasses cl addr
      then direct_wrapped (connect_direct net addr dialled)
      else proxied_wrapped (connect_proxied net cl.config_type cl.svr_cfg addr dialled)
