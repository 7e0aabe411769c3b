-- ===== src/Socks5/Error.antt =====
-- The protocol error of relay/socks5.rs, a reply code and a message, and its conversions.
use shadowsocks_rust.Io.{IoError, other, Message}
use shadowsocks_rust.Socks5.Reply.{Reply, general_failure}

pub record Error : Type 0 where
  pub reply : Reply
  pub message : Message

-- `From<io::Error> for Error`.
abbrev pub error_from_io : IoError → Error
error_from_io e = record { reply = general_failure; message = e.message }

-- `From<Error> for io::Error`.
unfoldable pub io_from_error : Error → IoError
io_from_error e = record { kind = other; message = e.message }
