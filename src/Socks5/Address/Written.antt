-- ===== src/Socks5/Address/Written.antt =====
-- What `write_to_buf` appends for an address, byte by byte.
use shadowsocks_rust.Common.{
  ℕ, ◌≤◌, ◌<◌, ◌≡◌, refl, List, [], ◌∷◌, ◌++◌, append_assoc, true, le→leb, length, length-append,
  All, arith,
}
use shadowsocks_rust.Common.Words.{to_u8_small, IsU8, IsU16, high_byte, low_byte}
use shadowsocks_rust.Common.Outcome.{ok, panic}
use shadowsocks_rust.Io.Utf8.{is_utf8}
use shadowsocks_rust.Socks5.Address.{
  Address, socket_address, domain_name_address, v4, v6, write_to_buf, serialized_len,
}

abbrev pub word : ℕ → List ℕ → List ℕ
word n bs = high_byte n ∷ low_byte n ∷ bs

-- The layout of RFC 1928: ATYP, the address, the port; a host name is led by its length.
unfoldable pub bytes_of : Address → List ℕ
bytes_of (socket_address (v4 a)) = 0x01 ∷ a.ip.o1 ∷ a.ip.o2 ∷ a.ip.o3 ∷ a.ip.o4 ∷ word a.port []
bytes_of (socket_address (v6 a)) =
    0x04
    ∷ word a.ip.s1 (
        word a.ip.s2 (
          word a.ip.s3 (
            word a.ip.s4
              (word a.ip.s5 (word a.ip.s6 (word a.ip.s7 (word a.ip.s8 (word a.port []))))))))
bytes_of (domain_name_address name port) = 0x03 ∷ length name ∷ (name ++ word port [])

-- The values that the fields can hold: octets, 16-bit words, a host name in UTF-8.
abbrev pub IsValid : Address → Type 0
IsValid (socket_address (v4 a)) =
    IsU8 a.ip.o1 × IsU8 a.ip.o2 × IsU8 a.ip.o3 × IsU8 a.ip.o4 × IsU16 a.port
IsValid (socket_address (v6 a)) =
    IsU16 a.ip.s1
    × IsU16 a.ip.s2
    × IsU16 a.ip.s3
    × IsU16 a.ip.s4
    × IsU16 a.ip.s5
    × IsU16 a.ip.s6
    × IsU16 a.ip.s7
    × IsU16 a.ip.s8
    × IsU16 a.port
IsValid (domain_name_address name port) = All IsU8 name × (is_utf8 name ≡ true) × IsU16 port

-- A host name is short enough for its length byte.
abbrev pub Fits : Address → Type 0
Fits (domain_name_address name port) = length name ≤ 255
Fits _ = Unit

-- `write_to_buf` appends the layout to the buffer.
pub write_to_buf-bytes_of :
    (a : Address) (buf : List ℕ) → Fits a → write_to_buf a buf ≡ ok (buf ++ bytes_of a)
unfolding write_to_buf bytes_of
write_to_buf-bytes_of (socket_address (v4 a)) buf h = simp append_assoc
write_to_buf-bytes_of (socket_address (v6 a)) buf h = simp append_assoc
write_to_buf-bytes_of (domain_name_address name port) buf h =
    rw (le→leb (length name) 255 h, to_u8_small (length name) h) (simp append_assoc)

-- A host name of more than 255 bytes fails the `assert!`.
pub write_to_buf_panics :
    (name buf : List ℕ) (port : ℕ)
    → 255 < length name
    → write_to_buf (domain_name_address name port) buf ≡ panic
unfolding write_to_buf
write_to_buf_panics name buf port h = ground arith

pub length-bytes_of : (a : Address) → length (bytes_of a) ≡ serialized_len a
unfolding bytes_of serialized_len
length-bytes_of (socket_address (v4 a)) = refl
length-bytes_of (socket_address (v6 a)) = refl
length-bytes_of (domain_name_address name port) = omega (arith, length-append name (word port []))
