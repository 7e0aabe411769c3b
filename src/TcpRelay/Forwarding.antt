-- ===== src/TcpRelay/Forwarding.antt =====
-- relay/tcprelay/{tunnel_local,redir_local}.rs: a client whose target is configured or asked of the
-- system. Socket options, whose failure is only logged, are left out.
use shadowsocks_rust.Common.{Option, none, some}
use shadowsocks_rust.Common.Outcome.{Outcome, ok, err, panic}
use shadowsocks_rust.Socks5.Address.{SocketAddr, Address, socket_address}
use shadowsocks_rust.Acl.{Matchers}
use shadowsocks_rust.Context.{Stepped}
use shadowsocks_rust.TcpRelay.ProxyStream.{
  ProxyStream, ProxyStreamError, Dialled, Network, Client, connect_proxied, connect,
}
use shadowsocks_rust.TcpRelay.Session.{Socket, Handler, ◌>>=◌, lift, join}

-- A connection that is made, with the addresses that it dials.
abbrev pub dialling : (Dialled → Stepped Dialled ProxyStream) → Handler ProxyStream
dialling make = λ s. let (r, dialled) = make s.dialled in (r, record s { dialled = dialled })

-- `From<ProxyStreamError> for Error`.
abbrev pub into_inner : Outcome ProxyStreamError ProxyStream × Dialled → Stepped Dialled ProxyStream
into_inner (ok s, dialled) = (ok s, dialled)
into_inner (err perr, dialled) = (err perr.inner, dialled)
into_inner (panic, dialled) = (panic, dialled)

module _ (M : Matchers) (net : Network) (cl : Client M) where
  -- A tunnel is always made through the server.
  unfoldable pub establish_client_tcp_tunnel : Address → Handler (Unit {0})
  establish_client_tcp_tunnel addr = do
    svr_s ← dialling (λ d. connect_proxied net cl.config_type cl.svr_cfg addr d)
    join svr_s

  unfoldable pub handle_tunnel_client : Socket → Option Address → Handler (Unit {0})
  unfolding establish_client_tcp_tunnel
  handle_tunnel_client sock forward = do
    _ ← lift sock.peer_addr
    target_addr ← lift (elim forward [ some a ↦ ok a | none ↦ panic ])
    establish_client_tcp_tunnel target_addr

  unfoldable pub establish_client_tcp_redir : Address → Handler (Unit {0})
  establish_client_tcp_redir addr = do
    svr_s ← dialling (λ d. into_inner (connect M net cl addr d))
    join svr_s

  unfoldable pub handle_redir_client : Socket → SocketAddr → Handler (Unit {0})
  unfolding establish_client_tcp_redir
  handle_redir_client sock daddr = do
    _ ← lift sock.peer_addr
    establish_client_tcp_redir (socket_address daddr)
