-- ===== src/Socks5/Address.antt =====
-- The addresses of relay/socks5.rs: reading, writing, measuring. A host name is the list of its bytes.
pub mod Written
pub mod Reading
pub mod Decoding
use shadowsocks_rust.Common.{
  ℕ, ◌+◌, ◌*◌, List, [], ◌∷◌, ◌++◌, ◌≡◌, Bool, true, false, leb, length, take, drop, ◌==◌,
  if◌then◌else◌,
}
use shadowsocks_rust.Common.Words.{IsU8, IsU16, to_u8, high_byte, low_byte}
use shadowsocks_rust.Common.Outcome.{Outcome, ok, err, require, map_err, ◌>>=◌, ◌>>◌}
use shadowsocks_rust.Io.{
  IoError, read_exact, get_u8, get_u16, invalid_address_encoding, unsupported_address_type,
}
use shadowsocks_rust.Io.Utf8.{is_utf8}
use shadowsocks_rust.Socks5.Consts.{
  socks5_addr_type_ipv4, socks5_addr_type_ipv6, socks5_addr_type_domain_name,
}
use shadowsocks_rust.Socks5.Reply.{general_failure, address_type_not_supported}
use shadowsocks_rust.Socks5.Error.{Error, error_from_io}

-- The four octets of an `Ipv4Addr` and the eight segments of an `Ipv6Addr`.
pub record Ipv4Addr : Type 0 where
  pub o1 : ℕ
  pub o2 : ℕ
  pub o3 : ℕ
  pub o4 : ℕ

pub record Ipv6Addr : Type 0 where
  pub s1 : ℕ
  pub s2 : ℕ
  pub s3 : ℕ
  pub s4 : ℕ
  pub s5 : ℕ
  pub s6 : ℕ
  pub s7 : ℕ
  pub s8 : ℕ

pub record SocketAddrV4 : Type 0 where
  pub ip : Ipv4Addr
  pub port : ℕ

pub record SocketAddrV6 : Type 0 where
  pub ip : Ipv6Addr
  pub port : ℕ
  pub flowinfo : ℕ
  pub scope_id : ℕ

pub data SocketAddr : Type 0 where
  v4 : SocketAddrV4 → SocketAddr
  v6 : SocketAddrV6 → SocketAddr

pub data Address : Type 0 where
  socket_address : SocketAddr → Address
  domain_name_address : List ℕ → ℕ → Address

-- What the parsers return: the value and the rest of the stream.
abbrev pub Parsed : Type 0 → Type 0
Parsed A = Outcome Error (A × List ℕ)

abbrev pub read_bytes : ℕ → List ℕ → Parsed (List ℕ)
read_bytes n s = map_err error_from_io (read_exact n s)

read_ipv4_address : List ℕ → Parsed Address
read_ipv4_address s = do
  (buf, rest) ← read_bytes 6 s
  (a, c1) ← get_u8 buf
  (b, c2) ← get_u8 c1
  (c, c3) ← get_u8 c2
  (d, c4) ← get_u8 c3
  (port, c5) ← get_u16 c4
  ok (
    socket_address (v4 (record { ip = record { o1 = a; o2 = b; o3 = c; o4 = d }; port = port })),
    rest,
  )

read_ipv6_address : List ℕ → Parsed Address
read_ipv6_address s = do
  (buf, rest) ← read_bytes 18 s
  (a, c1) ← get_u16 buf
  (b, c2) ← get_u16 c1
  (c, c3) ← get_u16 c2
  (d, c4) ← get_u16 c3
  (e, c5) ← get_u16 c4
  (f, c6) ← get_u16 c5
  (g, c7) ← get_u16 c6
  (h, c8) ← get_u16 c7
  (port, c9) ← get_u16 c8
  let ip : Ipv6Addr = record { s1 = a; s2 = b; s3 = c; s4 = d; s5 = e; s6 = f; s7 = g; s8 = h }
  ok (socket_address (v6 (record { ip = ip; port = port; flowinfo = 0; scope_id = 0 })), rest)

-- `String::from_utf8` on the host's bytes, then the port.
domain_of_buf : ℕ → List ℕ → List ℕ → Parsed Address
domain_of_buf length buf rest =
    if is_utf8 (take length buf)
    then (do
      (port, c) ← get_u16 (drop length buf)
      ok (domain_name_address (take length buf) port, rest))
    else err (record { reply = general_failure; message = invalid_address_encoding })

read_domain_name_address : List ℕ → Parsed Address
unfolding domain_of_buf
read_domain_name_address s = do
  (length_buf, s1) ← read_bytes 1 s
  (length, c) ← get_u8 length_buf
  (buf, rest) ← read_bytes (length + 2) s1
  domain_of_buf length buf rest

read_body : ℕ → List ℕ → Parsed Address
unfolding read_ipv4_address read_ipv6_address read_domain_name_address
read_body addr_type s =
    if addr_type == socks5_addr_type_ipv4
    then read_ipv4_address s
    else if addr_type == socks5_addr_type_ipv6
    then read_ipv6_address s
    else if addr_type == socks5_addr_type_domain_name
    then read_domain_name_address s
    else err (record {
      reply = address_type_not_supported;
      message = unsupported_address_type addr_type;
    })

-- `Address::read_from`.
unfoldable pub read_from : List ℕ → Parsed Address
unfolding read_body
read_from s = do
  (addr_type_buf, s1) ← read_bytes 1 s
  (addr_type, c) ← get_u8 addr_type_buf
  read_body addr_type s1

-- `BufMut::put_u8`, `put_slice` and `put_u16`: the buffer grows at its end.
abbrev pub put_slice : List ℕ → List ℕ → List ℕ
put_slice buf bytes = buf ++ bytes

abbrev pub put_u8 : List ℕ → ℕ → List ℕ
put_u8 buf n = buf ++ (n ∷ [])

abbrev pub put_u16 : List ℕ → ℕ → List ℕ
put_u16 buf n = buf ++ (high_byte n ∷ low_byte n ∷ [])

write_ipv4_address : SocketAddrV4 → List ℕ → List ℕ
write_ipv4_address addr buf =
    let b1 = put_u8 buf socks5_addr_type_ipv4 in
    let b2 = put_slice b1 (addr.ip.o1 ∷ addr.ip.o2 ∷ addr.ip.o3 ∷ addr.ip.o4 ∷ []) in
    put_u16 b2 addr.port

segments : Ipv6Addr → List ℕ
segments ip = ip.s1 ∷ ip.s2 ∷ ip.s3 ∷ ip.s4 ∷ ip.s5 ∷ ip.s6 ∷ ip.s7 ∷ ip.s8 ∷ []

put_segments : List ℕ → List ℕ → List ℕ
put_segments buf [] = buf
put_segments buf (seg ∷ segs) = put_segments (put_u16 buf seg) segs

write_ipv6_address : SocketAddrV6 → List ℕ → List ℕ
unfolding segments put_segments
write_ipv6_address addr buf =
    let b1 = put_u8 buf socks5_addr_type_ipv6 in
    let b2 = put_segments b1 (segments addr.ip) in put_u16 b2 addr.port

-- The `assert!` on the length is a panic.
write_domain_name_address : List ℕ → ℕ → List ℕ → Outcome IoError (List ℕ)
write_domain_name_address dnaddr port buf = do
  require (leb (length dnaddr) 255)
  let b1 = put_u8 buf socks5_addr_type_domain_name
  let b2 = put_u8 b1 (to_u8 (length dnaddr))
  let b3 = put_slice b2 dnaddr
  ok (put_u16 b3 port)

write_socket_address : SocketAddr → List ℕ → List ℕ
unfolding write_ipv4_address write_ipv6_address
write_socket_address (v4 addr) buf = write_ipv4_address addr buf
write_socket_address (v6 addr) buf = write_ipv6_address addr buf

-- `write_address`, which is `Address::write_to_buf`.
unfoldable pub write_to_buf : Address → List ℕ → Outcome IoError (List ℕ)
unfolding write_socket_address write_domain_name_address
write_to_buf (socket_address addr) buf = ok (write_socket_address addr buf)
write_to_buf (domain_name_address dnaddr port) buf = write_domain_name_address dnaddr port buf

-- `Address::write_to`, into a writer that takes all bytes.
unfoldable pub write_to : Address → List ℕ → Outcome IoError (List ℕ)
write_to a writer = do buf ← write_to_buf a []; ok (put_slice writer buf)

-- `get_addr_len`, which is `Address::serialized_len`.
unfoldable pub serialized_len : Address → ℕ
serialized_len (socket_address (v4 _)) = 1 + 4 + 2
serialized_len (socket_address (v6 _)) = 1 + 8 * 2 + 2
serialized_len (domain_name_address dmname _) = 1 + 1 + length dmname + 2

unfoldable pub port : Address → ℕ
port (socket_address (v4 addr)) = addr.port
port (socket_address (v6 addr)) = addr.port
port (domain_name_address _ p) = p
