-- ===== src/UdpRelay/Datagrams/Tests.antt =====
-- A packet of two bytes to 10.0.0.1, with nonces of two bytes and a cipher that copies.
use shadowsocks_rust.Common.{ℕ, ◌≡◌, refl, List, [], ◌∷◌, ◌++◌, length, arith, Option, none}
use shadowsocks_rust.Common.Outcome.{ok}
use shadowsocks_rust.Socks5.Address.{SocketAddr, socket_address, v4, write_to_buf}
use shadowsocks_rust.Socks5.Address.Reading.{carried}
use shadowsocks_rust.Acl.{AccessControl}
use shadowsocks_rust.Acl.Tests.{toy}
use shadowsocks_rust.Crypto.CipherType.{category, aes256_cfb}
use shadowsocks_rust.Crypto.Sizes.{iv_size}
use shadowsocks_rust.Replay.{PingPongBloom, check_nonce_and_set, check_and_set, insert_item}
use shadowsocks_rust.Replay.Tests.{sets, small}
use shadowsocks_rust.UdpRelay.CryptoIo.{draw_nonce, encrypt_payload, encrypt_payload_stream}
use shadowsocks_rust.UdpRelay.CryptoIo.Nonces.{IsNew}
use shadowsocks_rust.UdpRelay.CryptoIo.Tests.{
  tiny, suite, filled, filled-IsDraw, small-Inv, small_3,
}
use shadowsocks_rust.UdpRelay.Datagrams.{
  Network, Sent, encrypted_packet, plain_packet, forward, recv_from, relay_l2r, relay_r2l,
}
use shadowsocks_rust.UdpRelay.Datagrams.Requests.{request_relayed, response_received}
use shadowsocks_rust.UdpRelay.Datagrams.Allowed.{OnlyAllowed, relay_l2r-OnlyAllowed}

abbrev remote : SocketAddr
remote = v4 (record { ip = record { o1 = 10; o2 = 0; o3 = 0; o4 = 1 }; port = 53 })

abbrev packet : List ℕ
packet = 3 ∷ 3 ∷ 1 ∷ 10 ∷ 0 ∷ 0 ∷ 1 ∷ 0 ∷ 53 ∷ 8 ∷ 9 ∷ []

abbrev network : Network
network = record {
  takes = λ sent addr buf. ok (length buf);
  resolve = λ host port. ok (remote ∷ []);
}

remote-packet :
    relay_r2l tiny sets suite toy aes256_cfb (1 ∷ []) remote (8 ∷ 9 ∷ []) (filled 3 ∷ []) small
    ≡ ok (packet, small_3)
unfolding relay_r2l encrypted_packet plain_packet write_to_buf encrypt_payload
    encrypt_payload_stream draw_nonce category iv_size check_nonce_and_set check_and_set insert_item
remote-packet = refl

target-packet :
    encrypted_packet tiny sets suite toy aes256_cfb
      (1 ∷ [])
      (socket_address remote)
      (8 ∷ 9 ∷ [])
      (filled 3 ∷ [])
      small
    ≡ ok (packet, small_3)
unfolding encrypted_packet plain_packet write_to_buf encrypt_payload encrypt_payload_stream
    draw_nonce category iv_size check_nonce_and_set check_and_set insert_item
target-packet = refl

request_relayed_example :
    (nonce : List ℕ) × (text : List ℕ) × (packet ≡ nonce ++ text)
    × IsNew sets nonce small small_3
    × ((net : Network) (acl : Option (AccessControl toy)) (sent : Sent) (r r' : PingPongBloom sets)
        → IsNew sets nonce r r'
        → relay_l2r tiny sets suite toy net acl aes256_cfb (1 ∷ []) packet r sent ≡ (
          forward tiny sets suite toy net acl (carried (socket_address remote)) (8 ∷ 9 ∷ []) sent,
          r',
        ))
request_relayed_example =
    request_relayed tiny sets suite toy aes256_cfb (1 ∷ []) (socket_address remote) (8 ∷ 9 ∷ [])
      packet (filled 3 ∷ []) small small_3 (ground arith) tt small-Inv (filled-IsDraw 3, tt)
      target-packet

response_received_example :
    (nonce : List ℕ) × (text : List ℕ) × (packet ≡ nonce ++ text)
    × IsNew sets nonce small small_3
    × ((r r' : PingPongBloom sets)
        → IsNew sets nonce r r'
        → recv_from tiny sets suite toy aes256_cfb (1 ∷ []) packet r
          ≡ (ok (carried (socket_address remote), 8 ∷ 9 ∷ []), r'))
response_received_example =
    response_received tiny sets suite toy aes256_cfb (1 ∷ []) remote (8 ∷ 9 ∷ []) packet
      (filled 3 ∷ []) small small_3 (ground arith) tt small-Inv (filled-IsDraw 3, tt) (omega arith)
      remote-packet (omega arith)

relay_l2r-OnlyAllowed_example :
    OnlyAllowed toy none []
      ((relay_l2r tiny sets suite toy network none aes256_cfb (1 ∷ []) packet small []).0.1)
relay_l2r-OnlyAllowed_example =
    relay_l2r-OnlyAllowed tiny sets suite toy network none aes256_cfb (1 ∷ []) packet small []
