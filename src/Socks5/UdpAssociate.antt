-- ===== src/Socks5/UdpAssociate.antt =====
-- `UdpAssociateHeader` of relay/socks5.rs.
use shadowsocks_rust.Common.{ℕ, ◌+◌, ◌≡◌, List, [], ◌∷◌, ◌++◌, length, arith}
use shadowsocks_rust.Common.Outcome.{Outcome, ok, ◌>>=◌}
use shadowsocks_rust.Io.{IoError, read_exact, get_u8}
use shadowsocks_rust.Socks5.Address
use shadowsocks_rust.Socks5.Address.{Address, Parsed, read_bytes, put_slice}
use shadowsocks_rust.Socks5.Address.Written.{
  bytes_of, IsValid, Fits, write_to_buf-bytes_of, length-bytes_of,
}
use shadowsocks_rust.Socks5.Address.Reading.{carried, read_from-bytes_of}

pub record UdpAssociateHeader : Type 0 where
  pub frag : ℕ
  pub address : Address

-- Two reserved bytes are read and ignored.
unfoldable pub read_from : List ℕ → Parsed UdpAssociateHeader
read_from s = do
  (buf, s1) ← read_bytes 3 s
  (rsv1, c1) ← get_u8 buf
  (rsv2, c2) ← get_u8 c1
  (frag, c3) ← get_u8 c2
  (address, rest) ← Address.read_from s1
  ok (record { frag = frag; address = address }, rest)

unfoldable pub write_to_buf : UdpAssociateHeader → List ℕ → Outcome IoError (List ℕ)
write_to_buf h buf = Address.write_to_buf h.address (put_slice buf (0x00 ∷ 0x00 ∷ h.frag ∷ []))

unfoldable pub write_to : UdpAssociateHeader → List ℕ → Outcome IoError (List ℕ)
write_to h writer = do buf ← write_to_buf h []; ok (put_slice writer buf)

unfoldable pub serialized_len : UdpAssociateHeader → ℕ
serialized_len h = 3 + Address.serialized_len h.address

-- A UDP header with a valid address that fits is appended to the writer and is read back from
-- the bytes appended, up to the flow label and scope of an IPv6 address, and leaves the payload
-- that follows; the number of bytes is `serialized_len`.
pub udp_associate_round_trip :
    (h : UdpAssociateHeader) (writer payload : List ℕ)
    → IsValid h.address
    → Fits h.address
    → (sent : List ℕ) × (write_to h writer ≡ ok (writer ++ sent))
      × (length sent ≡ serialized_len h)
      × (read_from (sent ++ payload) ≡ ok (record h { address = carried h.address }, payload))
unfolding write_to write_to_buf serialized_len read_from read_exact get_u8
udp_associate_round_trip h writer payload hv hf = (
  0x00 ∷ 0x00 ∷ h.frag ∷ bytes_of h.address,
  rw (write_to_buf-bytes_of h.address (0x00 ∷ 0x00 ∷ h.frag ∷ []) hf, write_to),
  omega (arith, length-bytes_of h.address),
  rw (read_from-bytes_of h.address payload hv, read_from),
)
