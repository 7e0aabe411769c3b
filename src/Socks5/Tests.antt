-- ===== src/Socks5/Tests.antt =====
-- Runs of relay/socks5.rs on concrete bytes, and its theorems at concrete inputs.
use shadowsocks_rust.Common.{
  ℕ, ◌+◌, ◌-◌, ◌%◌, ◌≡◌, refl, List, [], ◌∷◌, ◌++◌, length, arith, suc, zero, true,
}
use shadowsocks_rust.Common.Outcome.{ok, err}
use shadowsocks_rust.Io.{read_exact, get_u8, get_u16, unsupported_socks_version}
use shadowsocks_rust.Io.Utf8.{is_utf8}
use shadowsocks_rust.Socks5.Command.{tcp_connect}
use shadowsocks_rust.Socks5.Reply.{connection_refused, host_unreachable}
use shadowsocks_rust.Socks5.Address.{
  Address, socket_address, domain_name_address, v4, read_from, write_to_buf, serialized_len,
}
use shadowsocks_rust.Socks5.Address.Written.{IsValid}
use shadowsocks_rust.Socks5.Address.Reading.{carried, read_from-write_to_buf}
use shadowsocks_rust.Socks5.Address.Decoding.{Decoded, read_from-Decoded}
use shadowsocks_rust.Socks5.TcpRequest
use shadowsocks_rust.Socks5.TcpRequest.{
  TcpRequestHeader, tcp_request_round_trip, tcp_request-Answer,
}
use shadowsocks_rust.Socks5.TcpResponse.{TcpResponseHeader}
use shadowsocks_rust.Socks5.HandshakeReq
use shadowsocks_rust.Socks5.HandshakeReq.{
  HandshakeRequest, handshake_request_round_trip, handshake_request_wraps, handshake_request-Answer,
}
use shadowsocks_rust.Socks5.UdpAssociate.{UdpAssociateHeader}

-- "a.io" and port 443; 8.8.8.8 and port 53.
abbrev host : List ℕ
host = 0x61 ∷ 0x2e ∷ 0x69 ∷ 0x6f ∷ []

abbrev web : Address
web = domain_name_address host 443

abbrev dns : Address
dns = socket_address (v4 (record { ip = record { o1 = 8; o2 = 8; o3 = 8; o4 = 8 }; port = 53 }))

abbrev web_bytes : List ℕ
web_bytes = 0x03 ∷ 0x04 ∷ 0x61 ∷ 0x2e ∷ 0x69 ∷ 0x6f ∷ 0x01 ∷ 0xbb ∷ []

host_utf8 : is_utf8 host ≡ true
unfolding is_utf8
host_utf8 = refl

web-IsValid : IsValid web
web-IsValid = (omega arith, host_utf8, omega arith)

read_from-web : read_from (web_bytes ++ (7 ∷ [])) ≡ ok (web, 7 ∷ [])
unfolding read_from read_exact get_u8 get_u16 is_utf8
read_from-web = refl

write_to_buf-dns : write_to_buf dns [] ≡ ok (1 ∷ 8 ∷ 8 ∷ 8 ∷ 8 ∷ 0 ∷ 53 ∷ [])
unfolding write_to_buf
write_to_buf-dns = refl

tcp_request_v4 :
    TcpRequest.read_from (0x04 ∷ 0x01 ∷ 0x00 ∷ web_bytes)
    ≡ err (record { reply = connection_refused; message = unsupported_socks_version 0x04 })
unfolding TcpRequest.read_from read_exact get_u8
tcp_request_v4 = refl

read_from-write_to_buf_example :
    (buf : List ℕ) × (write_to_buf web [] ≡ ok buf)
    × (length buf ≡ serialized_len web)
    × (read_from (buf ++ (7 ∷ [])) ≡ ok (carried web, 7 ∷ []))
read_from-write_to_buf_example = read_from-write_to_buf web (7 ∷ []) web-IsValid (omega arith)

read_from-Decoded_example : Decoded web_bytes (read_from web_bytes)
read_from-Decoded_example = read_from-Decoded web_bytes (omega arith)

abbrev connect_web : TcpRequestHeader
connect_web = record { command = tcp_connect; address = web }

abbrev bad_command : List ℕ
bad_command = 0x05 ∷ 0x09 ∷ 0x00 ∷ web_bytes

tcp_request-Answer_example : TcpRequest.Answer bad_command (TcpRequest.read_from bad_command)
tcp_request-Answer_example = tcp_request-Answer bad_command (omega arith)

abbrev unreachable : TcpResponseHeader
unreachable = record { reply = host_unreachable; address = dns }

abbrev two_methods : HandshakeRequest
two_methods = record { methods = 0x00 ∷ 0x02 ∷ [] }

abbrev zeros : ℕ → List ℕ
zeros zero = []
zeros (suc n) = 0 ∷ zeros n

abbrev many_methods : HandshakeRequest
many_methods = record { methods = zeros 256 }

handshake_request_wraps_example :
    (g : HandshakeRequest) × (left : List ℕ) × (HandshakeReq.read_from
        (HandshakeReq.write_to many_methods [] ++ [])
      ≡ ok (g, left))
    × (length g.methods ≡ 256 % 256)
    × (length left ≡ 256 + 0 - 256 % 256)
handshake_request_wraps_example = handshake_request_wraps many_methods [] (omega arith)

abbrev datagram : UdpAssociateHeader
datagram = record { frag = 0; address = dns }
