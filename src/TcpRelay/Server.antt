-- ===== src/TcpRelay/Server.antt =====
-- relay/tcprelay/server.rs: what the server does with a client, whose input is what its encrypted
-- stream decrypts to; an error of that stream counts as its end. A connection is bound to the local
-- address, if there is one, whose part in it is left to the network. Socket options are left out.
pub mod Allowed
pub mod Reaching
use shadowsocks_rust.Common.{ℕ, List, [], ◌∷◌, Bool, true, false, Option, none, some, if◌then◌else◌}
use shadowsocks_rust.Common.Outcome.{Outcome, ok, err, panic, ◌>>=◌}
use shadowsocks_rust.Io.{IoError}
use shadowsocks_rust.Socks5.Address.{
  SocketAddr, Address, socket_address, domain_name_address, read_from,
}
use shadowsocks_rust.Socks5.Error.{Error, io_from_error}
use shadowsocks_rust.Acl.{Matchers, AccessControl}
use shadowsocks_rust.Context.{
  ServerAddr, Stepped, lookup_outbound_then, resolved, resolve_bind_addr, check_client_blocked,
  check_outbound_blocked, check_resolved_outbound_blocked,
}
use shadowsocks_rust.TcpRelay.ProxyStream.{Dialled, Network, dial, connected, connected_one, direct}
use shadowsocks_rust.TcpRelay.Session.{Session, Handler, next, lift, join}

-- The address to bind to.
unfoldable pub local_bind : Network → Option ServerAddr → Outcome IoError (Option SocketAddr)
unfolding resolve_bind_addr
local_bind net none = ok none
local_bind net (some addr) = do ba ← resolve_bind_addr net.resolve addr; ok (some ba)

module _ (M : Matchers) (net : Network) (acl : Option (AccessControl M)) where
  -- The match on the address of the target.
  unfoldable pub connect_remote : Address → Dialled → Stepped Dialled SocketAddr
  unfolding dial connected connected_one
  connect_remote (socket_address saddr) dialled = connected saddr (dial net saddr dialled)
  connect_remote (domain_name_address dname port) dialled = connected_one (
      resolved (net.resolve dname port)
        (λ addrs d.
          lookup_outbound_then (check_resolved_outbound_blocked M acl) (λ addr d'. dial net addr d')
            addrs none d)
        dialled)

  -- Behind the binding, joined to what was connected to.
  unfoldable pub establish : Address → Handler (Unit {0})
  unfolding connect_remote
  establish remote_addr = λ s.
      let (r, dialled) = connect_remote remote_addr s.dialled in
      next (r, record s { dialled = dialled }) (λ saddr. join (direct saddr))

  -- Behind `Address::read_from`, on its result.
  unfoldable pub handle_address :
      Option ServerAddr → Outcome Error (Address × List ℕ) → Handler (Unit {0})
  unfolding establish local_bind
  handle_address local (ok (remote_addr, rest)) = λ s.
      let s' = record s { input = rest } in
      if check_outbound_blocked M acl remote_addr
      then (ok tt, s')
      else next (local_bind net local, s') (λ _. establish remote_addr)
  handle_address local (err e) = lift (err (io_from_error e))
  handle_address local panic = lift panic

  unfoldable pub handle_client : Option ServerAddr → Handler (Unit {0})
  unfolding handle_address
  handle_client local = λ s. handle_address local (read_from s.input) s

  -- A client that was accepted; one that is blocked is dropped, and errors are ignored.
  unfoldable pub accept : Option ServerAddr → SocketAddr → Session → Session
  unfolding handle_client
  accept local peer_addr s =
      if check_client_blocked M acl peer_addr then s else (handle_client local s).1
