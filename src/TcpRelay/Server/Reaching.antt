-- ===== src/TcpRelay/Server/Reaching.antt =====
-- The target of a client that comes through proxy_stream.rs.
use shadowsocks_rust.Common.{ℕ, ◌≡◌, refl, ap, List, [], ◌++◌, Option, some, false}
use shadowsocks_rust.Common.Outcome.{ok, ◌>>=◌}
use shadowsocks_rust.Socks5.Address.{SocketAddr, Address}
use shadowsocks_rust.Socks5.Address.Written.{IsValid, Fits, bytes_of, write_to_buf-bytes_of}
use shadowsocks_rust.Socks5.Address.Reading.{carried, read_from-bytes_of}
use shadowsocks_rust.Acl.{Matchers, AccessControl}
use shadowsocks_rust.Context.{ServerAddr, check_client_blocked, check_outbound_blocked}
use shadowsocks_rust.TcpRelay.ProxyStream.{
  direct, proxied, Dialled, Network, proxy_server_handshake,
}
use shadowsocks_rust.TcpRelay.Session.{Session}
use shadowsocks_rust.TcpRelay.Socks5Local.Exchange.{fresh}
use shadowsocks_rust.TcpRelay.Server.{
  local_bind, connect_remote, establish, handle_address, handle_client, accept,
}

handshake_lem :
    (cnet : Network) (addr : Address) (remote : SocketAddr)
    → Fits addr
    → proxy_server_handshake cnet addr remote
      ≡ (cnet.write_all remote (bytes_of addr) >>= λ _. ok (proxied remote))
unfolding proxy_server_handshake
handshake_lem cnet addr remote fits = rw (write_to_buf-bytes_of addr [] fits) refl

module _ (M : Matchers) (net : Network) (acl : Option (AccessControl M)) where
  address_lem :
      (local : Option ServerAddr) (addr : Address) (payload : List ℕ) (s : Session)
      (bind : Option SocketAddr) (saddr : SocketAddr) (dialled : Dialled)
      → check_outbound_blocked M acl addr ≡ false
      → local_bind net local ≡ ok bind
      → connect_remote M net acl addr s.dialled ≡ (ok saddr, dialled)
      → handle_address M net acl local (ok (addr, payload)) s
        ≡ (ok tt, record s { input = payload; dialled = dialled; relayed = some (direct saddr) })
  unfolding handle_address establish
  address_lem local addr payload s bind saddr dialled allowed bound reached =
      rw (allowed, bound, reached) refl

  -- Take a target with a valid address that fits, and a server that neither blocks its client
  -- nor the target, finds an address to bind to, and connects to an address of the target, an
  -- IPv6 target taken without its flow label and scope. There are bytes that proxy_stream.rs
  -- sends for that target, and nothing else, on a connection to the server; the server, given
  -- those bytes and a payload behind them, is joined to that address, with exactly the payload
  -- left to relay.
  pub server_reaches_target :
      (cnet : Network) (remote : SocketAddr) (local : Option ServerAddr) (peer_addr : SocketAddr)
      (addr : Address) (payload : List ℕ) (bind : Option SocketAddr) (saddr : SocketAddr)
      (dialled : Dialled)
      → IsValid addr
      → Fits addr
      → check_client_blocked M acl peer_addr ≡ false
      → check_outbound_blocked M acl (carried addr) ≡ false
      → local_bind net local ≡ ok bind
      → connect_remote M net acl (carried addr) [] ≡ (ok saddr, dialled)
      → (sent : List ℕ) × (proxy_server_handshake cnet addr remote
          ≡ (cnet.write_all remote sent >>= λ _. ok (proxied remote)))
        × (accept M net acl local peer_addr (fresh (sent ++ payload))
            ≡ record (fresh payload) { dialled = dialled; relayed = some (direct saddr) })
  unfolding accept handle_client
  server_reaches_target cnet remote local peer_addr addr payload bind saddr dialled valid fits
        client allowed bound reached =
      (
        bytes_of addr,
        handshake_lem cnet addr remote fits,
        rw (client, read_from-bytes_of addr payload valid)
            (ap (λ r. r.1)
              (address_lem local (carried addr) payload (fresh (bytes_of addr ++ payload)) bind
                saddr dialled allowed bound reached)),
      )
