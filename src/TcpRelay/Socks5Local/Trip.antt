-- ===== src/TcpRelay/Socks5Local/Trip.antt =====
-- A SOCKS5 client's CONNECT from the client to the target, and the answer back.
use shadowsocks_rust.Common.{ℕ, ◌≡◌, ap, ◌∙◌, List, [], ◌++◌, append_assoc, arith, true, some}
use shadowsocks_rust.Common.Outcome.{ok}
use shadowsocks_rust.Socks5.Address.{SocketAddr, v4, v6, Address, socket_address}
use shadowsocks_rust.Socks5.Address.Written.{IsValid, Fits}
use shadowsocks_rust.Socks5.Address.Reading.{carried}
use shadowsocks_rust.Socks5.Reply.{succeeded, IsNamed}
use shadowsocks_rust.Socks5.Command.{tcp_connect}
use shadowsocks_rust.Socks5.TcpRequest.{tcp_request_round_trip}
use shadowsocks_rust.Socks5.TcpResponse as TcpResponse
use shadowsocks_rust.Socks5.TcpResponse.{TcpResponseHeader, tcp_response_round_trip}
use shadowsocks_rust.Acl.{Matchers}
use shadowsocks_rust.Config.{Mode, enable_tcp}
use shadowsocks_rust.TcpRelay.ProxyStream.{
  ProxyStream, ProxyStreamError, is_proxied, Dialled, Network, connect,
}
use shadowsocks_rust.TcpRelay.ProxyStream as ProxyStream
use shadowsocks_rust.TcpRelay.Session.{Socket, next, lift}
use shadowsocks_rust.TcpRelay.Client as Client
use shadowsocks_rust.TcpRelay.Client.{checked, refusal}
use shadowsocks_rust.TcpRelay.Socks5Local.{
  UdpConfig, connect_error, handle_command, handle_socks5_client, dummy_address,
}
use shadowsocks_rust.TcpRelay.Socks5Local.Exchange.{
  fresh, IsWilling, hello, chosen, client_run, server_run,
}
use shadowsocks_rust.TcpRelay.Socks5Local.Served.{
  chosen_read, hello_read, command_lem, established_lem,
}

socket_address-Fits : (a : SocketAddr) → Fits (socket_address a)
socket_address-Fits (v4 a) = tt
socket_address-Fits (v6 a) = tt

pub dummy_address-IsValid : IsValid (socket_address dummy_address)
dummy_address-IsValid = (omega arith, omega arith, omega arith, omega arith, omega arith)

module _ (csock ssock : Socket) (cwill : IsWilling csock) (swill : IsWilling ssock) (M : Matchers)
    (net : Network) (cl : ProxyStream.Client M) (mode : Mode) (udp_conf : UdpConfig)
    (client_addr : SocketAddr) (addr : Address) (rest crest : List ℕ)
    (peer : ssock.peer_addr ≡ ok client_addr) (valid : IsValid addr) (fits : Fits addr) where
  -- Up to the command on the server's side, and to the check of the reply on the client's.
  pub exchange :
      (h : TcpResponseHeader)
      → IsNamed h.reply
      → IsValid h.address
      → Fits h.address
      → (req resp : List ℕ) × (TcpResponse.write_to h [] ≡ ok resp)
        × (Client.connect csock addr (fresh ((chosen ++ resp) ++ crest))
            ≡ next
                (
                  checked (record h { address = carried h.address }),
                  record (fresh crest) { output = hello ++ req },
                )
                (λ _. lift (ok tt)))
        × (handle_socks5_client ssock M net cl mode udp_conf (fresh ((hello ++ req) ++ rest))
            ≡ handle_command ssock M net cl mode udp_conf tcp_connect
                (carried addr)
                (record (fresh rest) { output = chosen }))
  exchange h named hvalid hfits =
      let (req, ew, _, er) =
        tcp_request_round_trip (record { command = tcp_connect; address = addr }) [] rest valid
          fits in
      let (resp, rw_, _, rr) = tcp_response_round_trip h [] crest named hvalid hfits in
      (
        req,
        resp,
        rw_,
        ap (λ i. Client.connect csock addr (fresh i)) (append_assoc chosen resp crest)
            ∙ client_run csock cwill addr req chosen resp crest
                (record h { address = carried h.address }) (chosen_read (resp ++ crest)) ew rr,
        ap (λ i. handle_socks5_client ssock M net cl mode udp_conf (fresh i))
              (append_assoc hello req rest)
            ∙ server_run ssock swill M net cl mode udp_conf client_addr (carried addr) hello req
                rest peer (hello_read (req ++ rest)) er,
      )

  -- Take a SOCKS5 client and a local server whose sockets take all that is written, TCP
  -- relaying enabled, and a target with a valid address that fits. If the server's connection
  -- to the target, an IPv6 target taken without its flow label and scope, is made and has a
  -- valid local address, then the client, given what the server answers, sends what the server
  -- is given, and succeeds; and the server, given that, answers so, reads not one byte beyond
  -- the request, joins the client to the connection and reports no failure. Nor does the client
  -- read beyond the answer.
  pub socks5_connect_established :
      (stream : ProxyStream) (dialled : Dialled) (local : SocketAddr)
      → enable_tcp mode ≡ true
      → connect M net cl (carried addr) [] ≡ (ok stream, dialled)
      → net.local_addr stream ≡ ok local
      → IsValid (socket_address local)
      → (sent answer : List ℕ) × (Client.connect csock addr (fresh (answer ++ crest))
          ≡ (ok tt, record (fresh crest) { output = sent }))
        × (handle_socks5_client ssock M net cl mode udp_conf (fresh (sent ++ rest)) ≡ (
          ok tt,
          record (fresh rest) { output = answer; dialled = dialled; relayed = some stream },
        ))
  socks5_connect_established stream dialled local et ec el hvalid =
      let h : TcpResponseHeader = record { reply = succeeded; address = socket_address local } in
      let (req, resp, written, client, server) = exchange h tt hvalid (socket_address-Fits local) in
      (
        hello ++ req,
        chosen ++ resp,
        client,
        server
            ∙ command_lem ssock swill M net cl mode udp_conf (carried addr) rest (ok stream) dialled
                et ec
            ∙ ap (connect_error ssock M) (
                established_lem ssock swill M net cl mode udp_conf (carried addr) rest resp stream
                  dialled local el written),
      )
