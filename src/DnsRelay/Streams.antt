-- ===== src/DnsRelay/Streams.antt =====
-- relay/dnsrelay/mod.rs: a query through the SOCKS5 server.
pub mod Replies
use shadowsocks_rust.Common.{
  ℕ, ◌+◌, ◌/◌, ◌≤◌, ◌<◌, ◌≡◌, refl, leb, List, [], ◌∷◌, ◌++◌, length, true, false, arith,
}
use shadowsocks_rust.Common.Words.{to_u8, u16_of}
use shadowsocks_rust.Common.Outcome.{Outcome, ok, panic, require}
use shadowsocks_rust.Io.{IoError, read_exact, get_u16}
use shadowsocks_rust.Socks5.Address.{SocketAddr, socket_address}
use shadowsocks_rust.Socks5.Command.{tcp_connect}
use shadowsocks_rust.TcpRelay.Session.{Session, Socket, Handler, ◌>>=◌, lift, read, send}
use shadowsocks_rust.TcpRelay.Client.{shake, request}
use shadowsocks_rust.DnsRelay.{Proto, query_message, buffer_len, buffered}

module _ (P : Proto) where
  open P use {Message, Name, RecordType}

  -- The size of the answer, and the answer; one that is longer than its buffer is a panic.
  unfoldable pub read_reply : Handler Message
  read_reply = do
    size_buffer ← read (read_exact 2)
    (size, _) ← lift (get_u16 size_buffer)
    _ ← lift (require (leb size buffer_len))
    res ← read (read_exact size)
    lift (P.from_vec (buffered res))

  -- The query on a stream, its size before it; one that is longer than the buffer is a panic.
  unfoldable pub stream_query : Socket → Name → RecordType → Handler Message
  unfolding read_reply
  stream_query sock qname qtype = do
    req_buffer ← lift (P.to_vec (query_message P qname qtype))
    _ ← lift (require (leb (length req_buffer) buffer_len))
    _ ← send sock (to_u8 (length req_buffer / 256) ∷ to_u8 (length req_buffer) ∷ req_buffer)
    read_reply

  unfoldable pub socks5_lookup : Socket → Name → RecordType → SocketAddr → Handler Message
  unfolding stream_query
  socks5_lookup sock qname qtype ns = do
    _ ← shake sock
    _ ← request sock tcp_connect (socket_address ns)
    stream_query sock qname qtype
