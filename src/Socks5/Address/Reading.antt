-- ===== src/Socks5/Address/Reading.antt =====
-- `Address::read_from` against the layout of an address.
use shadowsocks_rust.Common.{
  ℕ, ◌+◌, ◌≡◌, List, [], ◌++◌, true, length, length-append, take-length-append, drop-length-append,
}
use shadowsocks_rust.Common.Words.{IsU16, u16_of-bytes}
use shadowsocks_rust.Common.Outcome.{ok}
use shadowsocks_rust.Io.{read_exact, get_u8, get_u16}
use shadowsocks_rust.Io.Exact.{read_exact_of_length}
use shadowsocks_rust.Io.Utf8.{is_utf8}
use shadowsocks_rust.Socks5.Address.{
  Address, socket_address, domain_name_address, SocketAddrV4, SocketAddrV6, v4, v6, read_from,
  domain_of_buf, serialized_len, write_to_buf,
}
use shadowsocks_rust.Socks5.Address.Written.{
  write_to_buf-bytes_of, length-bytes_of, bytes_of, IsValid, Fits, word,
}

-- What the layout carries of an address: an IPv6 address loses its flow label and scope.
unfoldable pub carried : Address → Address
carried (socket_address (v6 a)) = socket_address (v6 (record a { flowinfo = 0; scope_id = 0 }))
carried a = a

read_v4 :
    (a : SocketAddrV4) (rest : List ℕ)
    → IsValid (socket_address (v4 a))
    → read_from (bytes_of (socket_address (v4 a)) ++ rest) ≡ ok (socket_address (v4 a), rest)
unfolding read_from read_exact get_u8 get_u16 bytes_of
read_v4 a rest (_, _, _, _, hp) = rw (u16_of-bytes a.port hp)

read_v6 :
    (a : SocketAddrV6) (rest : List ℕ)
    → IsValid (socket_address (v6 a))
    → read_from (bytes_of (socket_address (v6 a)) ++ rest)
      ≡ ok (carried (socket_address (v6 a)), rest)
unfolding read_from read_exact get_u8 get_u16 bytes_of carried
read_v6 a rest (h1, h2, h3, h4, h5, h6, h7, h8, hp) = rw (
  u16_of-bytes a.ip.s1 h1,
  u16_of-bytes a.ip.s2 h2,
  u16_of-bytes a.ip.s3 h3,
  u16_of-bytes a.ip.s4 h4,
  u16_of-bytes a.ip.s5 h5,
  u16_of-bytes a.ip.s6 h6,
  u16_of-bytes a.ip.s7 h7,
  u16_of-bytes a.ip.s8 h8,
  u16_of-bytes a.port hp,
)

domain_of_buf_written :
    (name : List ℕ) (port : ℕ) (rest : List ℕ)
    → is_utf8 name ≡ true
    → IsU16 port
    → domain_of_buf (length name) (name ++ word port []) rest
      ≡ ok (domain_name_address name port, rest)
unfolding domain_of_buf get_u16
domain_of_buf_written name port rest hu hp = rw (
  take-length-append name (word port []),
  drop-length-append name (word port []),
  hu,
  u16_of-bytes port hp,
)

read_domain :
    (name : List ℕ) (port : ℕ) (rest : List ℕ)
    → IsValid (domain_name_address name port)
    → read_from (bytes_of (domain_name_address name port) ++ rest)
      ≡ ok (domain_name_address name port, rest)
unfolding read_from read_exact get_u8 bytes_of
read_domain name port rest (_, hu, hp) =
    rw
      (
        read_exact_of_length (length name + 2) (name ++ word port []) rest
            (length-append name (word port [])),
        read_from,
      )
      (domain_of_buf_written name port rest hu hp)

pub read_from-bytes_of :
    (a : Address) (rest : List ℕ)
    → IsValid a
    → read_from (bytes_of a ++ rest) ≡ ok (carried a, rest)
unfolding carried
read_from-bytes_of (socket_address (v4 a)) rest h = read_v4 a rest h
read_from-bytes_of (socket_address (v6 a)) rest h = read_v6 a rest h
read_from-bytes_of (domain_name_address name port) rest h = read_domain name port rest h

-- An address whose fields have the right width and whose host name is UTF-8 of at most 255
-- bytes is read back from what the writer put into an empty buffer, whatever bytes follow,
-- which are left; an IPv6 address loses its flow label and scope; the bytes written are as many
-- as `serialized_len` says.
pub read_from-write_to_buf :
    (a : Address) (rest : List ℕ)
    → IsValid a
    → Fits a
    → (buf : List ℕ) × (write_to_buf a [] ≡ ok buf)
      × (length buf ≡ serialized_len a)
      × (read_from (buf ++ rest) ≡ ok (carried a, rest))
read_from-write_to_buf a rest hv hf =
    (bytes_of a, write_to_buf-bytes_of a [] hf, length-bytes_of a, read_from-bytes_of a rest hv)
