-- ===== src/UdpRelay/Datagrams.antt =====
-- relay/udprelay/{association,client,server}.rs: the packets between a client and its server, the
-- address of the target before the payload, and what each end does with one.
pub mod Requests
pub mod Allowed
mod Tests
use shadowsocks_rust.Common.{
  ℕ, ◌==◌, List, [], ◌∷◌, ◌++◌, length, take, Bool, true, false, Option, none, some, if◌then◌else◌,
}
use shadowsocks_rust.Common.Outcome.{Outcome, ok, err, panic, ◌>>=◌, map_err}
use shadowsocks_rust.Io.{IoError, invalid_data, packet_too_short, decrypt_failed}
use shadowsocks_rust.Socks5.Address.{
  SocketAddr, Address, socket_address, domain_name_address, write_to_buf, read_from,
}
use shadowsocks_rust.Socks5.Error.{io_from_error}
use shadowsocks_rust.Acl.{Matchers, AccessControl}
use shadowsocks_rust.Context.{
  ServerAddr, socket_addr, domain_name, Stepped, lookup_then, lookup_outbound_then, resolved,
  check_outbound_blocked, check_resolved_outbound_blocked,
}
use shadowsocks_rust.Crypto.CipherType.{CipherType}
use shadowsocks_rust.Crypto.Sizes.{Backends}
use shadowsocks_rust.Replay.{BloomFilter, PingPongBloom}
use shadowsocks_rust.UdpRelay.CryptoIo.{
  Suite, UdpError, io_error, encrypt_payload, decrypt_payload, lift_io,
}

abbrev pub maximum_udp_payload_size : ℕ
maximum_udp_payload_size = 65536

abbrev pub short_packet : IoError
short_packet = record { kind = invalid_data; message = packet_too_short }

abbrev pub undecrypted : IoError
undecrypted = record { kind = invalid_data; message = decrypt_failed }

-- The datagrams that a socket was given, the first one first, each with its receiver.
abbrev pub Sent : Type 0
Sent = List (SocketAddr × List ℕ)

-- The network: how many bytes of a datagram the socket takes, given those before it, with a timeout
-- as an error, and what the resolver answers.
pub record Network : Type 0 where
  pub takes : Sent → SocketAddr → List ℕ → Outcome IoError ℕ
  pub resolve : List ℕ → ℕ → Outcome IoError (List SocketAddr)

-- `send_to`.
unfoldable pub send_to : Network → List ℕ → SocketAddr → Sent → Stepped Sent ℕ
send_to net buf addr sent = (net.takes sent addr buf, sent ++ ((addr, buf) ∷ []))

-- ADDRESS + PAYLOAD.
unfoldable pub plain_packet : Address → List ℕ → Outcome IoError (List ℕ)
plain_packet addr payload = do send_buf ← write_to_buf addr []; ok (send_buf ++ payload)

-- The address and the payload of a packet that was decrypted.
unfoldable pub parse_packet : List ℕ → Outcome IoError (Address × List ℕ)
parse_packet decrypt_buf = map_err io_from_error (read_from decrypt_buf)

-- The length that was sent, without the address that it was sent to.
abbrev pub sent_length : Stepped Sent (SocketAddr × ℕ) → Stepped Sent ℕ
sent_length (ok (_, n), sent) = (ok n, sent)
sent_length (err e, sent) = (err e, sent)
sent_length (panic, sent) = (panic, sent)

-- `assert_eq!` on the length.
abbrev pub sent_whole : List ℕ → Stepped Sent ℕ → Stepped Sent (Unit {0})
sent_whole buf (ok n, sent) = (if length buf == n then ok tt else panic, sent)
sent_whole buf (err e, sent) = (err e, sent)
sent_whole buf (panic, sent) = (panic, sent)

-- To the server's address, or to the first of its host's addresses that takes the packet.
unfoldable pub send_to_server : Network → ServerAddr → List ℕ → Sent → Stepped Sent ℕ
send_to_server net (socket_addr addr) buf sent = send_to net buf addr sent
send_to_server net (domain_name dname port) buf sent = sent_length (
    resolved (net.resolve dname port)
      (λ addrs s. lookup_then (λ addr s'. send_to net buf addr s') addrs none s) sent)

-- To an address itself, or to the first of its host's addresses that takes the payload: what
-- `send_packet_bypassed` does.
unfoldable pub send_packet_bypassed : Network → Address → List ℕ → Sent → Stepped Sent ℕ
send_packet_bypassed net (socket_address saddr) payload sent = send_to net payload saddr sent
send_packet_bypassed net (domain_name_address host port) payload sent = sent_length (
    resolved (net.resolve host port)
      (λ addrs s. lookup_then (λ saddr s'. send_to net payload saddr s') addrs none s) sent)

module _ (B : Backends) (F : BloomFilter) (S : Suite B) (M : Matchers) where
  -- The encrypted packet of a target and a payload, or of a sender and a payload: what
  -- `send_packet_proxied`, `ServerClient::send_to` and `relay_r2l` send.
  unfoldable pub encrypted_packet :
      CipherType
      → List ℕ
      → Address
      → List ℕ
      → List (ℕ → List ℕ)
      → PingPongBloom F
      → Outcome UdpError (List ℕ × PingPongBloom F)
  unfolding plain_packet
  encrypted_packet method key addr payload draws context = do
    send_buf ← lift_io (plain_packet addr payload)
    encrypt_payload B F S method key send_buf draws context

  -- `send_packet_proxied`: a packet that is cut is only logged.
  unfoldable pub send_packet_proxied :
      Network
      → ServerAddr
      → CipherType
      → List ℕ
      → Address
      → List ℕ
      → List (ℕ → List ℕ)
      → PingPongBloom F
      → Sent
      → Outcome UdpError (PingPongBloom F × Stepped Sent ℕ)
  send_packet_proxied net server method key target payload draws context sent = do
    (encrypt_buf, context') ← encrypted_packet method key target payload draws context
    ok (context', send_to_server net server encrypt_buf sent)

  -- `ServerClient::send_to`: a packet that is cut is a panic.
  unfoldable pub client_send_to :
      Network
      → ServerAddr
      → CipherType
      → List ℕ
      → Address
      → List ℕ
      → List (ℕ → List ℕ)
      → PingPongBloom F
      → Sent
      → Outcome UdpError (PingPongBloom F × Stepped Sent (Unit {0}))
  client_send_to net server method key addr payload draws context sent = do
    (encrypt_buf, context') ← encrypted_packet method key addr payload draws context
    ok (context', sent_whole encrypt_buf (send_to_server net server encrypt_buf sent))

  -- What follows the decryption of a packet from the server.
  unfoldable pub received : Outcome IoError (Option (List ℕ)) → Outcome IoError (Address × List ℕ)
  unfolding parse_packet
  received (ok none) = err short_packet
  received (ok (some decrypt_buf)) = parse_packet decrypt_buf
  received (err e) = err e
  received panic = panic

  -- `ServerClient::recv_from`, on the datagram that the socket received; bytes past the buffer are
  -- discarded.
  unfoldable pub recv_from :
      CipherType
      → List ℕ
      → List ℕ
      → PingPongBloom F
      → Outcome IoError (Address × List ℕ) × PingPongBloom F
  unfolding received
  recv_from method key datagram context =
      let (opened, context') =
        decrypt_payload B F S method key (take maximum_udp_payload_size datagram) context in
      (received opened, context')

  -- `recv_packet_proxied`: the address is ignored.
  unfoldable pub recv_packet_proxied :
      CipherType → List ℕ → List ℕ → PingPongBloom F → Outcome IoError (List ℕ) × PingPongBloom F
  unfolding recv_from
  recv_packet_proxied method key datagram context =
      let (res, context') = recv_from method key datagram context in
      (do (addr, payload) ← res; ok payload, context')

  -- The end of `relay_l2r`: to the target, unless the list blocks it.
  unfoldable pub forward :
      Network → Option (AccessControl M) → Address → List ℕ → Sent → Stepped Sent (Unit {0})
  forward net acl (socket_address remote_addr) body sent =
      if check_outbound_blocked M acl (socket_address remote_addr)
      then (ok tt, sent)
      else sent_whole body (send_to net body remote_addr sent)
  forward net acl (domain_name_address dname port) body sent =
      if check_outbound_blocked M acl (domain_name_address dname port)
      then (ok tt, sent)
      else sent_whole body (
          sent_length (
            resolved (net.resolve dname port)
              (λ addrs s.
                lookup_outbound_then (check_resolved_outbound_blocked M acl)
                  (λ addr s'. send_to net body addr s') addrs none s)
              sent))

  unfoldable pub forward_parsed :
      Network
      → Option (AccessControl M)
      → Outcome IoError (Address × List ℕ)
      → Sent
      → Stepped Sent (Unit {0})
  unfolding forward
  forward_parsed net acl (ok (addr, body)) sent = forward net acl addr body sent
  forward_parsed net acl (err e) sent = (err e, sent)
  forward_parsed net acl panic sent = (panic, sent)

  -- What `relay_l2r` makes of the decrypted packet: every failure of the cipher is one error.
  unfoldable pub relay_opened :
      Network
      → Option (AccessControl M)
      → Outcome IoError (Option (List ℕ))
      → Sent
      → Stepped Sent (Unit {0})
  unfolding forward_parsed parse_packet
  relay_opened net acl (ok (some decrypted_pkt)) sent =
      forward_parsed net acl (parse_packet decrypted_pkt) sent
  relay_opened net acl (ok none) sent = (err short_packet, sent)
  relay_opened net acl (err e) sent = (err undecrypted, sent)
  relay_opened net acl panic sent = (panic, sent)

  unfoldable pub relay_l2r :
      Network
      → Option (AccessControl M)
      → CipherType
      → List ℕ
      → List ℕ
      → PingPongBloom F
      → Sent
      → Stepped Sent (Unit {0}) × PingPongBloom F
  unfolding relay_opened
  relay_l2r net acl method key pkt context sent =
      let (opened, context') = decrypt_payload B F S method key pkt context in
      (relay_opened net acl opened sent, context')

  -- `relay_r2l`, on a datagram of the remote: the packet that goes back to the client. Bytes past the
  -- buffer are discarded.
  unfoldable pub relay_r2l :
      CipherType
      → List ℕ
      → SocketAddr
      → List ℕ
      → List (ℕ → List ℕ)
      → PingPongBloom F
      → Outcome UdpError (List ℕ × PingPongBloom F)
  unfolding encrypted_packet
  relay_r2l method key remote_addr datagram draws context =
      encrypted_packet method key (socket_address remote_addr)
        (take maximum_udp_payload_size datagram) draws context
