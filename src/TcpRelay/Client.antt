-- ===== src/TcpRelay/Client.antt =====
-- relay/tcprelay/client.rs: a client of a SOCKS5 server, from its connection to the server on; and the
-- client of a shadowsocks server. Their streams pass each call on.
use shadowsocks_rust.Common.{◌==◌, [], ◌∷◌}
use shadowsocks_rust.Common.Outcome.{Outcome, ok, err, map_err, require}
use shadowsocks_rust.Io.{IoError, other, refused_with}
use shadowsocks_rust.Socks5.Consts.{socks5_auth_method_none}
use shadowsocks_rust.Socks5.Address.{Address}
use shadowsocks_rust.Socks5.Error.{io_from_error}
use shadowsocks_rust.Socks5.Reply.{Reply, succeeded}
use shadowsocks_rust.Socks5.Command.{Command, tcp_connect, udp_associate}
use shadowsocks_rust.Socks5.HandshakeReq as HandshakeReq
use shadowsocks_rust.Socks5.HandshakeResp as HandshakeResp
use shadowsocks_rust.Socks5.TcpRequest as TcpRequest
use shadowsocks_rust.Socks5.TcpResponse as TcpResponse
use shadowsocks_rust.Socks5.TcpResponse.{TcpResponseHeader}
use shadowsocks_rust.Context.{Stepped}
use shadowsocks_rust.Config.{ServerConfig}
use shadowsocks_rust.Replay.{ConfigType}
use shadowsocks_rust.TcpRelay.ProxyStream.{ProxyStream, Network, Dialled, connect_proxied}
use shadowsocks_rust.TcpRelay.Session.{Socket, Handler, ◌>>=◌, lift, read, send}

abbrev pub refusal : Reply → IoError
refusal r = record { kind = other; message = refused_with r }

-- The match on the reply.
abbrev pub checked : TcpResponseHeader → Outcome IoError Address
checked hp = elim hp.reply [ succeeded ↦ ok hp.address | r ↦ err (refusal r) ]

module _ (sock : Socket) where
  -- The handshake.
  unfoldable pub shake : Handler (Unit {0})
  shake = do
    _ ← send sock (HandshakeReq.write_to (record { methods = socks5_auth_method_none ∷ [] }) [])
    hsp ← read HandshakeResp.read_from
    lift (require (hsp.chosen_method == socks5_auth_method_none))

  -- The request's header and the response to it.
  unfoldable pub request : Command → Address → Handler Address
  request command addr = do
    bytes ← lift (TcpRequest.write_to (record { command = command; address = addr }) [])
    _ ← send sock bytes
    hp ← read (λ s. map_err io_from_error (TcpResponse.read_from s))
    lift (checked hp)

  -- `Socks5Client::connect`.
  unfoldable pub connect : Address → Handler (Unit {0})
  unfolding shake request
  connect addr = do _ ← shake; _ ← request tcp_connect addr; lift (ok tt)

  -- `Socks5Client::udp_associate`.
  unfoldable pub associate : Address → Handler Address
  unfolding shake request
  associate addr = do _ ← shake; request udp_associate addr

-- `ServerClient::connect`.
unfoldable pub connect_server :
    Network → ConfigType → ServerConfig → Address → Dialled → Stepped Dialled ProxyStream
connect_server net ty svr_cfg addr dialled = connect_proxied net ty svr_cfg addr dialled
