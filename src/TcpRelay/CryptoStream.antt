-- ===== src/TcpRelay/CryptoStream.antt =====
-- relay/tcprelay/crypto_io.rs: `CryptoStream`, the encrypted stream over a connection. It draws a
-- nonce when it is made, takes the peer's nonce off the connection before it reads, and then
-- works by the category of its cipher.
pub mod Shaking
pub mod Pipe
pub mod Tests
use shadowsocks_rust.Common.{
  ℕ, zero, suc, ◌-◌, List, [], ◌∷◌, ◌++◌, length, leb, Bool, true, false, Option, none, some,
}
use shadowsocks_rust.Common.Outcome.{Outcome, ok, err, panic, ◌>>=◌}
use shadowsocks_rust.Io.{IoError, other, repeated_iv_or_salt, eof_kind_error}
use shadowsocks_rust.Crypto.CipherType.{CipherType, CipherCategory, stream, aead, category}
use shadowsocks_rust.Crypto.Sizes.{Backends, iv_size, salt_size}
use shadowsocks_rust.Replay.{BloomFilter, PingPongBloom, check_nonce_and_set}
use shadowsocks_rust.UdpRelay.CryptoIo.{Suite, UdpError, lift, draw_nonce}
use shadowsocks_rust.TcpRelay.Polling.{
  Polled, pending, failed, done, panicked, exhausted, ReadEvent, Sink, poll_read,
}
use shadowsocks_rust.TcpRelay.AeadReader as AeadReader
use shadowsocks_rust.TcpRelay.AeadWriter as AeadWriter
use shadowsocks_rust.TcpRelay.StreamReader as StreamReader
use shadowsocks_rust.TcpRelay.StreamWriter as StreamWriter

-- The nonce as far as it was read, its size, and the key.
pub data ReadStatus : Type 0 where
  wait_iv : ℕ → List ℕ → List ℕ → ReadStatus
  established : ReadStatus

abbrev pub repeated_error : IoError
repeated_error = record { kind = other; message = repeated_iv_or_salt }

-- The loop that reads the nonce; each round that goes on read a byte at least.
unfoldable pub fill_iv :
    ℕ → ℕ → List ℕ → List ReadEvent → Polled (Unit {0}) × List ℕ × List ReadEvent
fill_iv zero size buf s = (exhausted, buf, s)
fill_iv (suc fuel) size buf s = elim (leb size (length buf)) [
  | true ↦ (done tt, buf, s)
  | false ↦
      let (p, s') = poll_read (size - length buf) s in
      elim p [
        | pending ↦ (pending, buf, s')
        | failed e ↦ (failed e, buf, s')
        | done bs ↦ elim bs [
          | [] ↦ (failed eof_kind_error, buf, s')
          | b ∷ bs' ↦ fill_iv fuel size (buf ++ (b ∷ bs')) s'
        ]
        | panicked ↦ (panicked, buf, s')
        | exhausted ↦ (exhausted, buf, s')
      ]
]

module _ (B : Backends) (F : BloomFilter) (S : Suite B) (t : CipherType) where
  open S use {aead_cipher, stream_cipher}

  pub data DecryptedReader : Type 0 where
    aead_reader : AeadReader.DecryptedReader (aead_cipher t) → DecryptedReader
    stream_reader : StreamReader.DecryptedReader (stream_cipher t) → DecryptedReader

  pub data EncryptedWriter : Type 0 where
    aead_writer : AeadWriter.EncryptedWriter (aead_cipher t) → EncryptedWriter
    stream_writer : StreamWriter.EncryptedWriter (stream_cipher t) → EncryptedWriter

  pub record CryptoStream : Type 0 where
    pub dec : Option DecryptedReader
    pub enc : EncryptedWriter
    pub read_status : ReadStatus

  abbrev pub nonce_size : CipherCategory → Outcome (Unit {0}) ℕ
  nonce_size stream = iv_size B t
  nonce_size aead = salt_size B t

  abbrev pub new_reader : CipherCategory → List ℕ → List ℕ → DecryptedReader
  new_reader stream key iv = stream_reader (StreamReader.new (stream_cipher t) key iv)
  new_reader aead key iv = aead_reader (AeadReader.new (aead_cipher t) key iv)

  abbrev pub new_writer : CipherCategory → List ℕ → List ℕ → EncryptedWriter
  new_writer stream key iv = stream_writer (StreamWriter.new (stream_cipher t) key iv)
  new_writer aead key iv = aead_writer (AeadWriter.new (aead_cipher t) key iv)

  -- `new`, with the random draws that it may use; the nonces seen are the context's.
  unfoldable pub new :
      List ℕ
      → List (ℕ → List ℕ)
      → PingPongBloom F
      → Outcome UdpError (CryptoStream × PingPongBloom F)
  new key draws context = do
    prev_len ← lift (nonce_size (category t))
    (iv, context') ← draw_nonce B F S (nonce_size (category t)) draws context
    ok (
      record {
        dec = none;
        enc = new_writer (category t) key iv;
        read_status = wait_iv prev_len [] key;
      },
      context',
    )

  -- A result with the stream, what its connection still gives, and the nonces seen.
  abbrev pub Reads : Type 0 → Type 0
  Reads A = Polled A × CryptoStream × List ReadEvent × PingPongBloom F

  -- The whole nonce is there.
  unfoldable pub checked_iv :
      ℕ
      → List ℕ
      → List ℕ
      → CryptoStream
      → List ReadEvent
      → PingPongBloom F
      → Outcome (Unit {0}) (Bool × PingPongBloom F)
      → Reads (Unit {0})
  checked_iv size iv key c s context (ok (true, context')) =
      (failed repeated_error, record c { read_status = wait_iv size iv key }, s, context')
  checked_iv size iv key c s context (ok (false, context')) = (
    done tt,
    record c { dec = some (new_reader (category t) key iv); read_status = established },
    s,
    context',
  )
  checked_iv size iv key c s context (err _) = (panicked, c, s, context)
  checked_iv size iv key c s context panic = (panicked, c, s, context)

  unfoldable pub got_iv :
      ℕ
      → List ℕ
      → CryptoStream
      → PingPongBloom F
      → Polled (Unit {0}) × List ℕ × List ReadEvent
      → Reads (Unit {0})
  unfolding checked_iv
  got_iv size key c context (done _, iv, s) =
      checked_iv size iv key c s context (check_nonce_and_set F iv context)
  got_iv size key c context (pending, buf, s) =
      (pending, record c { read_status = wait_iv size buf key }, s, context)
  got_iv size key c context (failed e, buf, s) =
      (failed e, record c { read_status = wait_iv size buf key }, s, context)
  got_iv size key c context (panicked, buf, s) = (panicked, c, s, context)
  got_iv size key c context (exhausted, buf, s) = (exhausted, c, s, context)

  unfoldable pub handshake :
      ReadStatus → CryptoStream → List ReadEvent → PingPongBloom F → Reads (Unit {0})
  unfolding got_iv
  handshake (wait_iv size buf key) c s context =
      got_iv size key c context (fill_iv (suc size) size buf s)
  handshake established c s context = (done tt, c, s, context)

  unfoldable pub poll_read_handshake :
      CryptoStream → List ReadEvent → PingPongBloom F → Reads (Unit {0})
  unfolding handshake
  poll_read_handshake c s context = handshake c.read_status c s context

  -- The call of the reader, by its kind; `unwrap` panics if there is none.
  unfoldable pub read_decrypted :
      ℕ → Option DecryptedReader → CryptoStream → List ReadEvent → PingPongBloom F → Reads (List ℕ)
  read_decrypted dst_len none c s context = (panicked, c, s, context)
  read_decrypted dst_len (some (aead_reader r)) c s context =
      let (p, r', s') = AeadReader.poll_read_decrypted (aead_cipher t) dst_len r s in
      (p, record c { dec = some (aead_reader r') }, s', context)
  read_decrypted dst_len (some (stream_reader r)) c s context =
      let (p, r', s') = StreamReader.poll_read_decrypted (stream_cipher t) dst_len r s in
      (p, record c { dec = some (stream_reader r') }, s', context)

  unfoldable pub after_handshake : ℕ → Reads (Unit {0}) → Reads (List ℕ)
  unfolding read_decrypted
  after_handshake dst_len (done _, c, s, context) = read_decrypted dst_len c.dec c s context
  after_handshake dst_len (pending, c, s, context) = (pending, c, s, context)
  after_handshake dst_len (failed e, c, s, context) = (failed e, c, s, context)
  after_handshake dst_len (panicked, c, s, context) = (panicked, c, s, context)
  after_handshake dst_len (exhausted, c, s, context) = (exhausted, c, s, context)

  unfoldable pub priv_poll_read :
      ℕ → CryptoStream → List ReadEvent → PingPongBloom F → Reads (List ℕ)
  unfolding poll_read_handshake after_handshake
  priv_poll_read dst_len c s context = after_handshake dst_len (poll_read_handshake c s context)

  unfoldable pub write_encrypted :
      List ℕ → EncryptedWriter → CryptoStream → Sink → Polled ℕ × CryptoStream × Sink
  write_encrypted payload (aead_writer w) c k =
      let (p, w', k') = AeadWriter.poll_write_encrypted (aead_cipher t) payload w k in
      (p, record c { enc = aead_writer w' }, k')
  write_encrypted payload (stream_writer w) c k =
      let (p, w', k') = StreamWriter.poll_write_encrypted (stream_cipher t) payload w k in
      (p, record c { enc = stream_writer w' }, k')

  unfoldable pub priv_poll_write : List ℕ → CryptoStream → Sink → Polled ℕ × CryptoStream × Sink
  unfolding write_encrypted
  priv_poll_write payload c k = write_encrypted payload c.enc c k
