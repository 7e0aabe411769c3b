-- ===== src/Socks5/TcpResponse.antt =====
-- `TcpResponseHeader` of relay/socks5.rs.
use shadowsocks_rust.Common.{
  ℕ, ◌+◌, ◌<◌, ◌≡◌, ◌≢◌, inl, inr, List, [], ◌∷◌, ◌++◌, not, length, All, arith, Bool-cases, ◌==◌,
  if◌then◌else◌,
}
use shadowsocks_rust.Common.Words.{IsU8}
use shadowsocks_rust.Common.Outcome.{Outcome, ok, err, ◌>>=◌}
use shadowsocks_rust.Io.{IoError, read_exact, get_u8, eof_error, unsupported_socks_version}
use shadowsocks_rust.Socks5.Consts.{socks5_version}
use shadowsocks_rust.Socks5.Reply
use shadowsocks_rust.Socks5.Reply.{Reply, connection_refused, command_not_supported}
use shadowsocks_rust.Socks5.Error.{Error, error_from_io}
use shadowsocks_rust.Socks5.Address
use shadowsocks_rust.Socks5.Address.{Address, Parsed, read_bytes, put_slice}
use shadowsocks_rust.Socks5.Address.Written.{
  bytes_of, IsValid, Fits, write_to_buf-bytes_of, length-bytes_of,
}
use shadowsocks_rust.Socks5.Address.Reading.{carried, read_from-bytes_of}
use shadowsocks_rust.Socks5.Address.Decoding.{read_from-Decoded}

pub record TcpResponseHeader : Type 0 where
  pub reply : Reply
  pub address : Address

-- Behind the three bytes read first: the version, the reply code, a reserved byte.
check_header : ℕ → ℕ → List ℕ → Parsed TcpResponseHeader
check_header ver reply_code s =
    if not (ver == socks5_version)
    then err (record { reply = connection_refused; message = unsupported_socks_version ver })
    else (do
      (address, rest) ← Address.read_from s
      ok (record { reply = Reply.from_u8 reply_code; address = address }, rest))

unfoldable pub read_from : List ℕ → Parsed TcpResponseHeader
unfolding check_header
read_from s = do
  (buf, s1) ← read_bytes 3 s
  (ver, c1) ← get_u8 buf
  (reply_code, c2) ← get_u8 c1
  check_header ver reply_code s1

unfoldable pub write_to_buf : TcpResponseHeader → List ℕ → Outcome IoError (List ℕ)
write_to_buf h buf =
    Address.write_to_buf h.address
      (put_slice buf (socks5_version ∷ Reply.as_u8 h.reply ∷ 0x00 ∷ []))

unfoldable pub write_to : TcpResponseHeader → List ℕ → Outcome IoError (List ℕ)
write_to h writer = do buf ← write_to_buf h []; ok (put_slice writer buf)

unfoldable pub serialized_len : TcpResponseHeader → ℕ
serialized_len h = Address.serialized_len h.address + 3

abbrev layout : TcpResponseHeader → List ℕ
layout h = socks5_version ∷ Reply.as_u8 h.reply ∷ 0x00 ∷ bytes_of h.address

-- A TCP response header with a valid address that fits and a reply that is not `other_reply`
-- with a code below nine is appended to the writer and is read back from the bytes appended,
-- whatever follows them, up to the flow label and scope of an IPv6 address; their number is
-- `serialized_len`.
pub tcp_response_round_trip :
    (h : TcpResponseHeader) (writer rest : List ℕ)
    → Reply.IsNamed h.reply
    → IsValid h.address
    → Fits h.address
    → (sent : List ℕ) × (write_to h writer ≡ ok (writer ++ sent))
      × (length sent ≡ serialized_len h)
      × (read_from (sent ++ rest) ≡ ok (record h { address = carried h.address }, rest))
unfolding write_to write_to_buf serialized_len read_from read_exact get_u8
tcp_response_round_trip h writer rest hr hv hf = (
  layout h,
  rw (
    write_to_buf-bytes_of h.address (socks5_version ∷ Reply.as_u8 h.reply ∷ 0x00 ∷ []) hf,
    write_to,
  ),
  omega (arith, length-bytes_of h.address),
  rw (read_from-bytes_of h.address rest hv, read_from, Reply.from_u8-as_u8 h.reply hr),
)

-- How a stream of bytes is answered: too short, a wrong version, the address's own error, or the
-- response, whose reply has the code that was sent and whose address is exactly what follows.
pub data Answer : List ℕ → Parsed TcpResponseHeader → Type 0 where
  short : {s : List ℕ} → length s < 3 → Answer s (err (error_from_io eof_error))
  wrong_version :
      {ver code rsv : ℕ} {s : List ℕ}
      → ver ≢ socks5_version
      → Answer
          (ver ∷ code ∷ rsv ∷ s)
          (err (record { reply = connection_refused; message = unsupported_socks_version ver }))
  wrong_address :
      {ver code rsv : ℕ} {s : List ℕ} {e : Error}
      → ver ≡ socks5_version
      → Address.read_from s ≡ err e
      → Answer (ver ∷ code ∷ rsv ∷ s) (err e)
  header :
      {ver code rsv : ℕ} {s rest : List ℕ} {h : TcpResponseHeader}
      → ver ≡ socks5_version
      → Reply.as_u8 h.reply ≡ code
      → s ≡ bytes_of h.address ++ rest
      → IsValid h.address
      → Answer (ver ∷ code ∷ rsv ∷ s) (ok (h, rest))

check_header-Answer :
    (ver code rsv : ℕ) (s : List ℕ)
    → All IsU8 s
    → Answer (ver ∷ code ∷ rsv ∷ s) (check_header ver code s)
unfolding check_header
check_header-Answer ver code rsv s hs = elim (Bool-cases (ver == socks5_version)) [
  | inr e ↦ rw e (wrong_version (ground arith))
  | inl e ↦ elim (read_from-Decoded s hs) [
    | inl (x, g) ↦ rw (e, check_header, g) (wrong_address (ground arith) g)
    | inr (a, rest, g, split, valid, _, _) ↦
        rw (e, check_header, g) (header (ground arith) (Reply.as_u8-from_u8 code) split valid)
  ]
]

-- Every stream of bytes gets one of four answers from the reader of a TCP response: end of file
-- below three bytes; connection refused on a wrong version, whatever follows; the error of the
-- address; or a header whose reply has the code sent, known or not, and whose address is valid
-- and is the front of what follows, the reserved byte being ignored.
pub tcp_response-Answer : (s : List ℕ) → All IsU8 s → Answer s (read_from s)
unfolding read_from read_exact get_u8
tcp_response-Answer (ver ∷ code ∷ rsv ∷ s) (_, (_, (_, hs))) = check_header-Answer ver code rsv s hs
tcp_response-Answer _ h = short (omega arith)
