-- ===== src/UdpRelay/Datagrams/Requests.antt =====
-- What one end makes of the packets of the other.
use shadowsocks_rust.Common.{
  ℕ, ◌≤◌, ◌≡◌, sym, ap, ◌∙◌, List, ◌++◌, length, take_all, All, Option, some,
}
use shadowsocks_rust.Common.Outcome.{ok, map_err, ◌>>=◌}
use shadowsocks_rust.Socks5.Address.{SocketAddr, Address, socket_address}
use shadowsocks_rust.Socks5.Address.Written.{IsValid, Fits}
use shadowsocks_rust.Socks5.Address.Reading.{carried, read_from-write_to_buf}
use shadowsocks_rust.Socks5.Error.{io_from_error}
use shadowsocks_rust.Acl.{Matchers, AccessControl}
use shadowsocks_rust.Crypto.CipherType.{CipherType}
use shadowsocks_rust.Crypto.Sizes.{Backends}
use shadowsocks_rust.Replay.{BloomFilter, PingPongBloom}
use shadowsocks_rust.Replay.Invariant.{Inv}
use shadowsocks_rust.UdpRelay.CryptoIo.{Suite, encrypt_payload, decrypt_payload, lift_io}
use shadowsocks_rust.UdpRelay.CryptoIo.Nonces.{IsDraw, IsNew}
use shadowsocks_rust.UdpRelay.CryptoIo.Sealed.{packet_round_trip}
use shadowsocks_rust.UdpRelay.Datagrams.{
  Network, Sent, maximum_udp_payload_size, plain_packet, parse_packet, encrypted_packet, received,
  recv_from, forward, forward_parsed, relay_opened, relay_l2r, relay_r2l,
}

-- The packet before encryption is taken apart into the address and the payload.
plain_trip :
    (addr : Address) (payload : List ℕ)
    → IsValid addr
    → Fits addr
    → (plain : List ℕ) × (plain_packet addr payload ≡ ok plain)
      × (parse_packet plain ≡ ok (carried addr, payload))
unfolding plain_packet parse_packet
plain_trip addr payload hv hf =
    let (buf, written, _, back) = read_from-write_to_buf addr payload hv hf in
    (
      buf ++ payload,
      ap (λ m. m >>= λ b. ok (b ++ payload)) written,
      ap (map_err io_from_error) back,
    )

module _ (B : Backends) (F : BloomFilter) (S : Suite B) (M : Matchers) where
  -- An encrypted packet opens to what was packed.
  opened_packet :
      (t : CipherType) (key : List ℕ) (addr : Address) (payload packet : List ℕ)
      (draws : List (ℕ → List ℕ)) (p p' : PingPongBloom F)
      → IsValid addr
      → Fits addr
      → Inv F p
      → All IsDraw draws
      → encrypted_packet B F S M t key addr payload draws p ≡ ok (packet, p')
      → (plain : List ℕ) × (parse_packet plain ≡ ok (carried addr, payload))
        × ((nonce : List ℕ) × (text : List ℕ) × (packet ≡ nonce ++ text)
            × IsNew F nonce p p'
            × ((r r' : PingPongBloom F)
                → IsNew F nonce r r'
                → decrypt_payload B F S t key packet r ≡ (ok (some plain), r')))
  unfolding encrypted_packet
  opened_packet t key addr payload packet draws p p' hv hf v all_draws e =
      let (plain, packed, back) = plain_trip addr payload hv hf in
      let sealed : encrypt_payload B F S t key plain draws p ≡ ok (packet, p') =
        sym (ap (λ m. lift_io m >>= λ b. encrypt_payload B F S t key b draws p) packed) ∙ e in
      (plain, back, packet_round_trip B F S t key plain packet draws p p' v all_draws sealed)

  -- Take the packet that a client makes for a target and a payload, with an address that is
  -- valid and fits, draws of the size asked for, and filters in a state that checks leave. It
  -- starts with a nonce that was new to the client, and a server with the same key to whom the
  -- nonce is new does with the packet what it does with the target and the payload themselves:
  -- it sends the payload on to the target, an IPv6 target without its flow label and scope,
  -- unless the access control list blocks that. It records the nonce.
  pub request_relayed :
      (t : CipherType) (key : List ℕ) (target : Address) (payload packet : List ℕ)
      (draws : List (ℕ → List ℕ)) (p p' : PingPongBloom F)
      → IsValid target
      → Fits target
      → Inv F p
      → All IsDraw draws
      → encrypted_packet B F S M t key target payload draws p ≡ ok (packet, p')
      → (nonce : List ℕ) × (text : List ℕ) × (packet ≡ nonce ++ text)
        × IsNew F nonce p p'
        × ((net : Network) (acl : Option (AccessControl M)) (sent : Sent) (r r' : PingPongBloom F)
            → IsNew F nonce r r'
            → relay_l2r B F S M net acl t key packet r sent
              ≡ (forward B F S M net acl (carried target) payload sent, r'))
  unfolding relay_l2r relay_opened forward_parsed
  request_relayed t key target payload packet draws p p' hv hf v all_draws e =
      let (plain, back, (nonce, text, parts, fresh, opens)) =
        opened_packet t key target payload packet draws p p' hv hf v all_draws e in
      (
        nonce,
        text,
        parts,
        fresh,
        λ net acl sent r r' new.
            ap (λ (o, q). (relay_opened B F S M net acl o sent, q)) (opens r r' new)
            ∙ ap (λ m. (forward_parsed B F S M net acl m sent, r')) back,
      )

  -- Take the packet that a server makes of a datagram from a remote address that is valid and
  -- fits, datagram and packet no longer than a receive buffer, with draws of the size asked for
  -- and filters in a state that checks leave. It starts with a nonce that was new to the
  -- server, and a client with the same key to whom the nonce is new gets the remote's address
  -- from it, without an IPv6 flow label and scope, and exactly the datagram.
  pub response_received :
      (t : CipherType) (key : List ℕ) (remote : SocketAddr) (datagram packet : List ℕ)
      (draws : List (ℕ → List ℕ)) (p p' : PingPongBloom F)
      → IsValid (socket_address remote)
      → Fits (socket_address remote)
      → Inv F p
      → All IsDraw draws
      → length datagram ≤ maximum_udp_payload_size
      → relay_r2l B F S M t key remote datagram draws p ≡ ok (packet, p')
      → length packet ≤ maximum_udp_payload_size
      → (nonce : List ℕ) × (text : List ℕ) × (packet ≡ nonce ++ text)
        × IsNew F nonce p p'
        × ((r r' : PingPongBloom F)
            → IsNew F nonce r r'
            → recv_from B F S M t key packet r
              ≡ (ok (carried (socket_address remote), datagram), r'))
  unfolding relay_r2l recv_from received
  response_received t key remote datagram packet draws p p' hv hf v all_draws short e small =
      let whole = take_all maximum_udp_payload_size datagram short in
      let e' =
        ap (λ d. encrypted_packet B F S M t key (socket_address remote) d draws p) (sym whole)
        ∙ e in
      let (plain, back, (nonce, text, parts, fresh, opens)) =
        opened_packet t key (socket_address remote) datagram packet draws p p' hv hf v all_draws
          e' in
      (
        nonce,
        text,
        parts,
        fresh,
        λ r r' new.
            ap (λ d. (let (o, q) = decrypt_payload B F S t key d r in (received B F S M o, q)))
              (take_all maximum_udp_payload_size packet small)
            ∙ ap (λ (o, q). (received B F S M o, q)) (opens r r' new)
            ∙ ap (λ m. (m, r')) back,
      )
