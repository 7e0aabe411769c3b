-- ===== src/Socks5/TcpRequest.antt =====
-- `TcpRequestHeader` of relay/socks5.rs.
use shadowsocks_rust.Common.{
  ℕ, ◌+◌, ◌<◌, ◌≡◌, ap, ◌≢◌, inl, inr, List, [], ◌∷◌, ◌++◌, not, length, All, arith, Bool-cases,
  Option-cases, ◌==◌, if◌then◌else◌, none, some,
}
use shadowsocks_rust.Common.Words.{IsU8}
use shadowsocks_rust.Common.Outcome.{Outcome, ok, err, ◌>>=◌}
use shadowsocks_rust.Io.{
  IoError, read_exact, get_u8, eof_error, unsupported_socks_version, unsupported_command,
}
use shadowsocks_rust.Socks5.Consts.{socks5_version}
use shadowsocks_rust.Socks5.Command
use shadowsocks_rust.Socks5.Command.{Command}
use shadowsocks_rust.Socks5.Reply.{connection_refused, command_not_supported}
use shadowsocks_rust.Socks5.Error.{Error, error_from_io}
use shadowsocks_rust.Socks5.Address
use shadowsocks_rust.Socks5.Address.{Address, Parsed, read_bytes, put_slice}
use shadowsocks_rust.Socks5.Address.Written.{
  bytes_of, IsValid, Fits, write_to_buf-bytes_of, length-bytes_of,
}
use shadowsocks_rust.Socks5.Address.Reading.{carried, read_from-bytes_of}
use shadowsocks_rust.Socks5.Address.Decoding.{read_from-Decoded}

pub record TcpRequestHeader : Type 0 where
  pub command : Command
  pub address : Address

-- Behind the three bytes read first: the version, the command, a reserved byte.
check_header : ℕ → ℕ → List ℕ → Parsed TcpRequestHeader
check_header ver cmd s =
    if not (ver == socks5_version)
    then err (record { reply = connection_refused; message = unsupported_socks_version ver })
    else elim (Command.from_u8 cmd) [
      | none ↦ err (record { reply = command_not_supported; message = unsupported_command cmd })
      | some c ↦ do
        (address, rest) ← Address.read_from s
        ok (record { command = c; address = address }, rest)
    ]

unfoldable pub read_from : List ℕ → Parsed TcpRequestHeader
unfolding check_header
read_from s = do
  (buf, s1) ← read_bytes 3 s
  (ver, c1) ← get_u8 buf
  (cmd, c2) ← get_u8 c1
  check_header ver cmd s1

unfoldable pub write_to_buf : TcpRequestHeader → List ℕ → Outcome IoError (List ℕ)
write_to_buf h buf =
    Address.write_to_buf h.address
      (put_slice buf (socks5_version ∷ Command.as_u8 h.command ∷ 0x00 ∷ []))

unfoldable pub write_to : TcpRequestHeader → List ℕ → Outcome IoError (List ℕ)
write_to h writer = do buf ← write_to_buf h []; ok (put_slice writer buf)

unfoldable pub serialized_len : TcpRequestHeader → ℕ
serialized_len h = Address.serialized_len h.address + 3

abbrev layout : TcpRequestHeader → List ℕ
layout h = socks5_version ∷ Command.as_u8 h.command ∷ 0x00 ∷ bytes_of h.address

-- A TCP request header with a valid address that fits is appended to the writer and is read
-- back from the bytes appended, whatever follows them, up to the flow label and scope of an
-- IPv6 address; their number is `serialized_len`.
pub tcp_request_round_trip :
    (h : TcpRequestHeader) (writer rest : List ℕ)
    → IsValid h.address
    → Fits h.address
    → (sent : List ℕ) × (write_to h writer ≡ ok (writer ++ sent))
      × (length sent ≡ serialized_len h)
      × (read_from (sent ++ rest) ≡ ok (record h { address = carried h.address }, rest))
unfolding write_to write_to_buf serialized_len read_from read_exact get_u8
tcp_request_round_trip h writer rest hv hf = (
  layout h,
  rw (
    write_to_buf-bytes_of h.address (socks5_version ∷ Command.as_u8 h.command ∷ 0x00 ∷ []) hf,
    write_to,
  ),
  omega (arith, length-bytes_of h.address),
  rw (Command.from_u8-as_u8 h.command, read_from, read_from-bytes_of h.address rest hv),
)

-- How a stream of bytes is answered: too short; a wrong version, before the command is looked at; an
-- unknown command, before the address is; the address's own error; or the header, whose reserved byte
-- is ignored and whose address is exactly what follows.
pub data Answer : List ℕ → Parsed TcpRequestHeader → Type 0 where
  short : {s : List ℕ} → length s < 3 → Answer s (err (error_from_io eof_error))
  wrong_version :
      {ver cmd rsv : ℕ} {s : List ℕ}
      → ver ≢ socks5_version
      → Answer
          (ver ∷ cmd ∷ rsv ∷ s)
          (err (record { reply = connection_refused; message = unsupported_socks_version ver }))
  wrong_command :
      {ver cmd rsv : ℕ} {s : List ℕ}
      → ver ≡ socks5_version
      → ((c : Command) → Command.as_u8 c ≢ cmd)
      → Answer
          (ver ∷ cmd ∷ rsv ∷ s)
          (err (record { reply = command_not_supported; message = unsupported_command cmd }))
  wrong_address :
      {ver cmd rsv : ℕ} {s : List ℕ} {e : Error}
      → ver ≡ socks5_version
      → Address.read_from s ≡ err e
      → Answer (ver ∷ cmd ∷ rsv ∷ s) (err e)
  header :
      {ver cmd rsv : ℕ} {s rest : List ℕ} {h : TcpRequestHeader}
      → ver ≡ socks5_version
      → Command.as_u8 h.command ≡ cmd
      → s ≡ bytes_of h.address ++ rest
      → IsValid h.address
      → Answer (ver ∷ cmd ∷ rsv ∷ s) (ok (h, rest))

no_command : (cmd : ℕ) → Command.from_u8 cmd ≡ none → (c : Command) → Command.as_u8 c ≢ cmd
no_command cmd h c e = cc (h, ap Command.from_u8 e, Command.from_u8-as_u8 c)

check_header-Answer :
    (ver cmd rsv : ℕ) (s : List ℕ)
    → All IsU8 s
    → Answer (ver ∷ cmd ∷ rsv ∷ s) (check_header ver cmd s)
unfolding check_header
check_header-Answer ver cmd rsv s hs = elim (Bool-cases (ver == socks5_version)) [
  | inr e ↦ rw e (wrong_version (ground arith))
  | inl e ↦ elim (Option-cases (Command.from_u8 cmd)) [
    | inl f ↦ rw (e, f, check_header) (wrong_command (ground arith) (no_command cmd f))
    | inr (c, f) ↦ elim (read_from-Decoded s hs) [
      | inl (x, g) ↦ rw (e, f, check_header, g) (wrong_address (ground arith) g)
      | inr (a, rest, g, split, valid, _, _) ↦
          rw (e, f, check_header, g)
            (header (ground arith) (Command.as_u8-from_u8 cmd f) split valid)
    ]
  ]
]

-- Every stream of bytes gets one of five answers from the reader of a TCP request: end of file
-- below three bytes; connection refused on a wrong version, whatever follows; command not
-- supported on a code that no command has; the error of the address; or a header whose command
-- has the code sent and whose address is valid and is the front of what follows, the reserved
-- byte being ignored.
pub tcp_request-Answer : (s : List ℕ) → All IsU8 s → Answer s (read_from s)
unfolding read_from read_exact get_u8
tcp_request-Answer (ver ∷ cmd ∷ rsv ∷ s) (_, (_, (_, hs))) = check_header-Answer ver cmd rsv s hs
tcp_request-Answer _ h = short (omega arith)
