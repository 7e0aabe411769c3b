-- ===== src/TcpRelay/Socks5Local/Exchange.antt =====
-- A SOCKS5 client of relay/tcprelay/client.rs with the local server.
use shadowsocks_rust.Common.{ℕ, ◌≡◌, refl, ap, ◌∙◌, List, [], ◌∷◌, ◌++◌, none}
use shadowsocks_rust.Common.Outcome.{ok}
use shadowsocks_rust.Socks5.Consts.{socks5_auth_method_none}
use shadowsocks_rust.Socks5.Address.{SocketAddr, Address}
use shadowsocks_rust.Socks5.Reply.{Reply}
use shadowsocks_rust.Socks5.Command.{Command, tcp_connect}
use shadowsocks_rust.Socks5.HandshakeReq as HandshakeReq
use shadowsocks_rust.Socks5.HandshakeReq.{HandshakeRequest}
use shadowsocks_rust.Socks5.HandshakeResp as HandshakeResp
use shadowsocks_rust.Socks5.TcpRequest as TcpRequest
use shadowsocks_rust.Socks5.TcpResponse as TcpResponse
use shadowsocks_rust.Socks5.TcpResponse.{TcpResponseHeader}
use shadowsocks_rust.Acl.{Matchers}
use shadowsocks_rust.Config.{Mode}
use shadowsocks_rust.TcpRelay.ProxyStream.{Network, Client}
use shadowsocks_rust.TcpRelay.Session.{Session, Socket, ◌>>=◌, next, lift, taken, read, send}
use shadowsocks_rust.TcpRelay.Client as Client
use shadowsocks_rust.TcpRelay.Client.{shake, request, checked}
use shadowsocks_rust.TcpRelay.Socks5Local.{
  UdpConfig, respond, respond_method, handle_command, handle_header, handle_methods,
  handle_socks5_client,
}

abbrev pub fresh : List ℕ → Session
fresh s = record { input = s; output = []; dialled = []; relayed = none; failures = 0 }

-- A socket that takes whatever is written.
abbrev pub IsWilling : Socket → Type 0
IsWilling sock = (before bytes : List ℕ) → sock.write_all before bytes ≡ ok tt

abbrev pub hello : List ℕ
hello = HandshakeReq.write_to (record { methods = socks5_auth_method_none ∷ [] }) []

abbrev pub chosen : List ℕ
chosen = HandshakeResp.write_to (record { chosen_method = socks5_auth_method_none }) []

module _ (sock : Socket) (will : IsWilling sock) where
  pub send_lem :
      (bytes : List ℕ) (s : Session)
      → send sock bytes s ≡ (ok tt, record s { output = s.output ++ bytes })
  unfolding send
  send_lem bytes s = rw (will s.output bytes)

  shake_lem :
      (m rest : List ℕ)
      → HandshakeResp.read_from (m ++ rest)
        ≡ ok (record { chosen_method = socks5_auth_method_none }, rest)
      → shake sock (fresh (m ++ rest)) ≡ (ok tt, record (fresh rest) { output = hello })
  unfolding shake
  shake_lem m rest e = rw (send_lem hello (fresh (m ++ rest)), e) refl

  request_lem :
      (command : Command) (addr : Address) (req resp rest : List ℕ) (hp : TcpResponseHeader)
      (before : List ℕ)
      → TcpRequest.write_to (record { command = command; address = addr }) [] ≡ ok req
      → TcpResponse.read_from (resp ++ rest) ≡ ok (hp, rest)
      → request sock command addr (record (fresh (resp ++ rest)) { output = before })
        ≡ (checked hp, record (fresh rest) { output = before ++ req })
  unfolding request
  request_lem command addr req resp rest hp before ew er =
      rw (ew, send_lem req (record (fresh (resp ++ rest)) { output = before }), er) refl

  pub client_run :
      (addr : Address) (req m resp rest : List ℕ) (hp : TcpResponseHeader)
      → HandshakeResp.read_from (m ++ (resp ++ rest))
        ≡ ok (record { chosen_method = socks5_auth_method_none }, resp ++ rest)
      → TcpRequest.write_to (record { command = tcp_connect; address = addr }) [] ≡ ok req
      → TcpResponse.read_from (resp ++ rest) ≡ ok (hp, rest)
      → Client.connect sock addr (fresh (m ++ (resp ++ rest)))
        ≡ next (checked hp, record (fresh rest) { output = hello ++ req }) (λ _. lift (ok tt))
  unfolding Client.connect
  client_run addr req m resp rest hp em ew er =
      rw (shake_lem m (resp ++ rest) em, request_lem tcp_connect addr req resp rest hp hello ew er)
        refl

  pub respond_lem :
      (reply : Reply) (addr : Address) (bytes : List ℕ) (s : Session)
      → TcpResponse.write_to (record { reply = reply; address = addr }) [] ≡ ok bytes
      → respond sock reply addr s ≡ (ok tt, record s { output = s.output ++ bytes })
  unfolding respond
  respond_lem reply addr bytes s e = rw (e, send_lem bytes s) refl

  methods_run :
      (M : Matchers) (net : Network) (cl : Client M) (mode : Mode) (udp_conf : UdpConfig)
      (client_addr : SocketAddr) (addr : Address) (req rest : List ℕ)
      → TcpRequest.read_from (req ++ rest)
        ≡ ok (record { command = tcp_connect; address = addr }, rest)
      → handle_methods sock M net cl mode udp_conf client_addr
          (socks5_auth_method_none ∷ [])
          (fresh (req ++ rest))
        ≡ handle_command sock M net cl mode udp_conf tcp_connect addr
            (record (fresh rest) { output = chosen })
  unfolding handle_methods handle_header respond_method
  methods_run M net cl mode udp_conf client_addr addr req rest er =
      rw (send_lem chosen (fresh (req ++ rest)), er) refl

  -- Until the command, on the methods and the header that a client sends.
  pub server_run :
      (M : Matchers) (net : Network) (cl : Client M) (mode : Mode) (udp_conf : UdpConfig)
      (client_addr : SocketAddr) (addr : Address) (hs req rest : List ℕ)
      → sock.peer_addr ≡ ok client_addr
      → HandshakeReq.read_from (hs ++ (req ++ rest))
        ≡ ok (record { methods = socks5_auth_method_none ∷ [] }, req ++ rest)
      → TcpRequest.read_from (req ++ rest)
        ≡ ok (record { command = tcp_connect; address = addr }, rest)
      → handle_socks5_client sock M net cl mode udp_conf (fresh (hs ++ (req ++ rest)))
        ≡ handle_command sock M net cl mode udp_conf tcp_connect addr
            (record (fresh rest) { output = chosen })
  unfolding handle_socks5_client
  server_run M net cl mode udp_conf client_addr addr hs req rest ep eh er =
      let s = fresh (hs ++ (req ++ rest)) in
      let rest_of = λ (a : SocketAddr) (h : HandshakeRequest).
        handle_methods sock M net cl mode udp_conf a h.methods in
      ap (λ o. next (lift o s) (λ a. read HandshakeReq.read_from >>= rest_of a)) ep
      ∙ ap (λ p. next (taken s p) (rest_of client_addr)) eh
      ∙ methods_run M net cl mode udp_conf client_addr addr req rest er
