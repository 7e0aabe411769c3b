-- ===== src/Io.antt =====
-- The byte streams and buffers that the program reads and writes: tokio's `read_exact`, the cursor
-- of `bytes::Buf`, `String::from_utf8`, and `io::Error`. A stream is the bytes that are still to come
-- before its end.
pub mod Exact
pub mod Utf8
use Prim.Native.String.{String}
use shadowsocks_rust.Common.{ℕ, zero, suc, List, [], ◌∷◌}
use shadowsocks_rust.Common.Words.{u16_of}
use shadowsocks_rust.Socks5.Reply.{Reply}
use shadowsocks_rust.Common.Outcome.{Outcome, ok, err, panic, ◌>>=◌}

pub data IoErrorKind : Type 0 where
  unexpected_eof invalid_data invalid_input other : IoErrorKind
  connection_refused connection_aborted timed_out : IoErrorKind

-- The texts of the errors, each kept as its format and arguments.
pub data Message : Type 0 where
  early_eof : Message
  kind_only : Message
  invalid_address_encoding : Message
  unsupported_address_type : ℕ → Message
  unsupported_socks_version : ℕ → Message
  unsupported_command : ℕ → Message
  repeated_iv repeated_salt repeated_iv_or_salt : Message
  cipher_failure : Message
  regex_error : String → Message
  unrecognized_method unrecognized_mode unrecognized_command : String → Message
  malformed_json : Message
  packet_too_short decrypt_failed outbound_blocked : Message
  no_authentication : Message
  connect_failed : Message → Message
  refused_with : Reply → Message

pub record IoError : Type 0 where
  pub kind : IoErrorKind
  pub message : Message

abbrev pub eof_error : IoError
eof_error = record { kind = unexpected_eof; message = early_eof }

-- `ErrorKind::UnexpectedEof.into()`.
abbrev pub eof_kind_error : IoError
eof_kind_error = record { kind = unexpected_eof; message = kind_only }

-- `read_exact` into a buffer of `n` bytes.
unfoldable pub read_exact : ℕ → List ℕ → Outcome IoError (List ℕ × List ℕ)
read_exact zero s = ok ([], s)
read_exact (suc n) [] = err eof_error
read_exact (suc n) (b ∷ s) = do (bs, rest) ← read_exact n s; ok (b ∷ bs, rest)

-- `Buf::get_u8` and `Buf::get_u16` panic at the end of the buffer.
unfoldable pub get_u8 {ℓ} : {E : Type ℓ} → List ℕ → Outcome E (ℕ × List ℕ)
get_u8 [] = panic
get_u8 (b ∷ c) = ok (b, c)

unfoldable pub get_u16 {ℓ} : {E : Type ℓ} → List ℕ → Outcome E (ℕ × List ℕ)
get_u16 [] = panic
get_u16 (a ∷ []) = panic
get_u16 (a ∷ b ∷ c) = ok (u16_of a b, c)
