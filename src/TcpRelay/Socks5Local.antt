-- ===== src/TcpRelay/Socks5Local.antt =====
-- relay/tcprelay/socks5_local.rs: what the local server does with a SOCKS5 client; and
-- `ignore_until_end` of relay/tcprelay/mod.rs. Socket options, whose failure is only logged, are left
-- out.
pub mod Exchange
pub mod Served
pub mod Trip
pub mod Refusals
mod Ending
mod Tests
use shadowsocks_rust.Common.{
  ℕ, zero, suc, ◌+◌, ◌==◌, List, [], ◌∷◌, ◌++◌, length, take, drop, Bool, true, false, not, Option,
  none, some, if◌then◌else◌,
}
use shadowsocks_rust.Common.Outcome.{Outcome, ok, err, panic}
use shadowsocks_rust.Io.{
  IoError, IoErrorKind, other, connection_refused, connection_aborted, no_authentication,
  connect_failed,
}
use shadowsocks_rust.Socks5.Consts.{socks5_auth_method_none, socks5_auth_method_not_acceptable}
use shadowsocks_rust.Socks5.Address.{SocketAddr, v4, Address, socket_address}
use shadowsocks_rust.Socks5.Error.{Error, io_from_error}
use shadowsocks_rust.Socks5.Reply as Reply
use shadowsocks_rust.Socks5.Reply.{Reply}
use shadowsocks_rust.Socks5.Command.{Command, tcp_connect, tcp_bind, udp_associate}
use shadowsocks_rust.Socks5.HandshakeReq as HandshakeReq
use shadowsocks_rust.Socks5.HandshakeResp as HandshakeResp
use shadowsocks_rust.Socks5.TcpRequest as TcpRequest
use shadowsocks_rust.Socks5.TcpRequest.{TcpRequestHeader}
use shadowsocks_rust.Socks5.TcpResponse as TcpResponse
use shadowsocks_rust.Config.{Mode, enable_tcp}
use shadowsocks_rust.Acl.{Matchers, any}
use shadowsocks_rust.Context.{Stepped}
use shadowsocks_rust.TcpRelay.ProxyStream.{
  ProxyStream, ProxyStreamError, is_proxied, Network, Client, Connects, connect,
}
use shadowsocks_rust.TcpRelay.Session.{
  Session, Socket, Handler, ◌>>=◌, lift, read, send, report_failure, join,
}

pub record UdpConfig : Type 0 where
  pub enable_udp : Bool
  pub client_addr : SocketAddr

abbrev pub buffer_size : ℕ
buffer_size = 8192

-- The loop of `ignore_until_end`, on fuel: the bytes that were read before the end, and what is left.
unfoldable pub ignore_loop : ℕ → ℕ → List ℕ → Option (ℕ × List ℕ)
ignore_loop zero amt s = none
ignore_loop (suc fuel) amt s =
    let n = length (take buffer_size s) in
    let later = ignore_loop fuel (amt + n) (drop buffer_size s) in
    if n == 0 then some (amt, s) else later

abbrev pub ended : Session → Option (ℕ × List ℕ) → Stepped Session ℕ
ended s (some (amt, rest)) = (ok amt, record s { input = rest })
ended s none = (panic, s)

-- `ignore_until_end`, each of whose rounds but the last reads a byte at least.
unfoldable pub ignore_until_end : Handler ℕ
unfolding ignore_loop
ignore_until_end = λ s. ended s (ignore_loop (suc (length s.input)) 0 s.input)

abbrev pub failure_reply : IoErrorKind → Reply
failure_reply connection_refused = Reply.connection_refused
failure_reply connection_aborted = Reply.host_unreachable
failure_reply _ = Reply.network_unreachable

abbrev pub dummy_address : SocketAddr
dummy_address = v4 (record { ip = record { o1 = 0; o2 = 0; o3 = 0; o4 = 0 }; port = 0 })

module _ (sock : Socket) where
  -- `TcpResponseHeader::write_to` on the client's socket.
  unfoldable pub respond : Reply → Address → Handler (Unit {0})
  respond reply addr = do
    bytes ← lift (TcpResponse.write_to (record { reply = reply; address = addr }) [])
    send sock bytes

  unfoldable pub respond_method : ℕ → Handler (Unit {0})
  respond_method method = send sock (HandshakeResp.write_to (record { chosen_method = method }) [])

  -- Behind `ProxyStream::connect`, on its result.
  unfoldable pub connected : Network → Outcome ProxyStreamError ProxyStream → Handler (Unit {0})
  unfolding respond
  connected net (ok svr_s) = do
    local ← lift (net.local_addr svr_s)
    _ ← respond Reply.succeeded (socket_address local)
    join svr_s
  connected net (err perr) = do
    _ ← if is_proxied perr then report_failure else lift (ok tt)
    _ ← respond (failure_reply perr.inner.kind) (socket_address dummy_address)
    lift (err perr.inner)
  connected net panic = lift panic

  module _ (M : Matchers) where
    unfoldable pub handle_socks5_connect : Network → Client M → Address → Handler (Unit {0})
    unfolding connected
    handle_socks5_connect net cl addr = λ s.
        let (r, dialled) = connect M net cl addr s.dialled in
        connected net r (record s { dialled = dialled })

    -- The error of the client's handler, which names what failed.
    abbrev pub connect_error : Stepped Session (Unit {0}) → Stepped Session (Unit {0})
    connect_error (ok u, s) = (ok u, s)
    connect_error (err e, s) = (err (record e { message = connect_failed e.message }), s)
    connect_error (panic, s) = (panic, s)

    unfoldable pub handle_command :
        Network → Client M → Mode → UdpConfig → Command → Address → Handler (Unit {0})
    unfolding respond handle_socks5_connect ignore_until_end
    handle_command net cl mode udp_conf tcp_connect addr = λ s.
        if enable_tcp mode
        then connect_error (handle_socks5_connect net cl addr s)
        else respond Reply.command_not_supported addr s
    handle_command net cl mode udp_conf tcp_bind addr = respond Reply.command_not_supported addr
    handle_command net cl mode udp_conf udp_associate addr = λ s.
        if udp_conf.enable_udp
        then (do
          _ ← respond Reply.succeeded (socket_address udp_conf.client_addr)
          _ ← ignore_until_end
          lift (ok tt))
            s
        else respond Reply.command_not_supported addr s

    -- Behind `TcpRequestHeader::read_from`, on its result.
    unfoldable pub handle_header :
        Network
        → Client M
        → Mode
        → UdpConfig
        → SocketAddr
        → Outcome Error (TcpRequestHeader × List ℕ)
        → Handler (Unit {0})
    unfolding respond handle_command
    handle_header net cl mode udp_conf client_addr (ok (h, rest)) =
        λ s. handle_command net cl mode udp_conf h.command h.address (record s { input = rest })
    handle_header net cl mode udp_conf client_addr (err e) = do
      _ ← respond e.reply (socket_address client_addr)
      lift (err (io_from_error e))
    handle_header net cl mode udp_conf client_addr panic = lift panic

    -- Behind the handshake request, on the methods that the client offers.
    unfoldable pub handle_methods :
        Network → Client M → Mode → UdpConfig → SocketAddr → List ℕ → Handler (Unit {0})
    unfolding respond_method handle_header
    handle_methods net cl mode udp_conf client_addr methods = λ s.
        if not (any (λ m. m == socks5_auth_method_none) methods)
        then (do
          _ ← respond_method socks5_auth_method_not_acceptable
          lift (err (record { kind = other; message = no_authentication })))
            s
        else (do
          _ ← respond_method socks5_auth_method_none
          λ s'. handle_header net cl mode udp_conf client_addr (TcpRequest.read_from s'.input) s')
            s

    unfoldable pub handle_socks5_client : Network → Client M → Mode → UdpConfig → Handler (Unit {0})
    unfolding handle_methods
    handle_socks5_client net cl mode udp_conf = do
      client_addr ← lift sock.peer_addr
      handshake_req ← read HandshakeReq.read_from
      handle_methods net cl mode udp_conf client_addr handshake_req.methods
