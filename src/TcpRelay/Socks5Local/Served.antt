-- ===== src/TcpRelay/Socks5Local/Served.antt =====
-- How a SOCKS5 client's CONNECT is answered.
use shadowsocks_rust.Common.{
  ℕ, ◌≡◌, refl, sym, ap, ◌∙◌, subst, List, [], ◌∷◌, ◌++◌, arith, Bool, true, false, some,
  if◌then◌else◌,
}
use shadowsocks_rust.Common.Outcome.{Outcome, ok, err}
use shadowsocks_rust.Io.{IoError}
use shadowsocks_rust.Socks5.Consts.{socks5_auth_method_none}
use shadowsocks_rust.Socks5.Address.{SocketAddr, Address, socket_address}
use shadowsocks_rust.Socks5.Reply.{succeeded}
use shadowsocks_rust.Socks5.Command.{tcp_connect}
use shadowsocks_rust.Socks5.HandshakeReq as HandshakeReq
use shadowsocks_rust.Socks5.HandshakeReq.{HandshakeRequest, handshake_request_round_trip}
use shadowsocks_rust.Socks5.HandshakeResp as HandshakeResp
use shadowsocks_rust.Socks5.HandshakeResp.{HandshakeResponse, handshake_response_round_trip}
use shadowsocks_rust.Socks5.TcpResponse as TcpResponse
use shadowsocks_rust.Socks5.TcpResponse.{TcpResponseHeader, tcp_response_round_trip}
use shadowsocks_rust.Acl.{Matchers}
use shadowsocks_rust.Config.{Mode, enable_tcp}
use shadowsocks_rust.TcpRelay.ProxyStream.{
  ProxyStream, ProxyStreamError, Dialled, Network, Client, connect,
}
use shadowsocks_rust.TcpRelay.Session.{Session, Socket, next, lift, join}
use shadowsocks_rust.TcpRelay.Socks5Local.{
  UdpConfig, respond, connected, connect_error, handle_command, handle_socks5_connect,
  failure_reply, dummy_address,
}
use shadowsocks_rust.TcpRelay.Socks5Local.Exchange.{fresh, IsWilling, hello, chosen, respond_lem}

pub chosen_read :
    (x : List ℕ)
    → HandshakeResp.read_from (chosen ++ x)
      ≡ ok (record { chosen_method = socks5_auth_method_none }, x)
chosen_read x =
    let h : HandshakeResponse = record { chosen_method = socks5_auth_method_none } in
    let (sent, written, _, back) = handshake_response_round_trip h [] x in
    subst (λ c. HandshakeResp.read_from (c ++ x) ≡ ok (h, x)) (sym written) back

pub hello_read :
    (x : List ℕ)
    → HandshakeReq.read_from (hello ++ x)
      ≡ ok (record { methods = socks5_auth_method_none ∷ [] }, x)
hello_read x =
    let h : HandshakeRequest = record { methods = socks5_auth_method_none ∷ [] } in
    let (sent, written, _, back) = handshake_request_round_trip h [] x (omega arith) in
    subst (λ c. HandshakeReq.read_from (c ++ x) ≡ ok (h, x)) (sym written) back

module _ (sock : Socket) (will : IsWilling sock) (M : Matchers) (net : Network) (cl : Client M)
    (mode : Mode) (udp_conf : UdpConfig) (addr : Address) where
  -- The session that `connected` begins with.
  abbrev pub asked : List ℕ → Dialled → Session
  asked rest dialled = record (fresh rest) { output = chosen; dialled = dialled }

  pub command_lem :
      (rest : List ℕ) (r : Outcome ProxyStreamError ProxyStream) (dialled : Dialled)
      → enable_tcp mode ≡ true
      → connect M net cl addr [] ≡ (r, dialled)
      → handle_command sock M net cl mode udp_conf tcp_connect addr
          (record (fresh rest) { output = chosen })
        ≡ connect_error sock M (connected sock net r (asked rest dialled))
  unfolding handle_command handle_socks5_connect
  command_lem rest r dialled et ec = rw (et, ec) refl

  pub established_lem :
      (rest resp : List ℕ) (stream : ProxyStream) (dialled : Dialled) (local : SocketAddr)
      → net.local_addr stream ≡ ok local
      → TcpResponse.write_to (record { reply = succeeded; address = socket_address local }) []
        ≡ ok resp
      → connected sock net (ok stream) (asked rest dialled)
        ≡ (ok tt, record (asked rest dialled) { output = chosen ++ resp; relayed = some stream })
  unfolding connected
  established_lem rest resp stream dialled local el ew =
      ap
        (λ o.
          next (lift o (asked rest dialled))
            (λ l. λ s. next (respond sock succeeded (socket_address l) s) (λ _. join stream)))
        el
      ∙ rw (respond_lem sock will succeeded (socket_address local) resp (asked rest dialled) ew)
          refl

  pub refused_if :
      (rest resp : List ℕ) (e : IoError) (b : Bool) (dialled : Dialled)
      → TcpResponse.write_to
          (record { reply = failure_reply e.kind; address = socket_address dummy_address })
          []
        ≡ ok resp
      → connected sock net (err (record { inner = e; bypassed = b })) (asked rest dialled) ≡ (
        err e,
        record (asked rest dialled) { output = chosen ++ resp; failures = if b then 1 else 0 },
      )
  unfolding connected
  refused_if rest resp e true dialled ew =
      rw
        (respond_lem sock will (failure_reply e.kind) (socket_address dummy_address) resp
          (record (asked rest dialled) { failures = 1 }) ew)
        refl
  refused_if rest resp e false dialled ew =
      rw
        (respond_lem sock will (failure_reply e.kind) (socket_address dummy_address) resp
          (asked rest dialled) ew)
        refl
