-- ===== src/TcpRelay/CryptoStream/Pipe.antt =====
-- The encrypted stream as a pipe of plain bytes: what a stream owes its reader.
pub mod Trip
use shadowsocks_rust.Common.{
  ℕ, suc, ◌+◌, ◌≤◌, ◌<◌, ◌≡◌, refl, sym, ap, ◌∙◌, subst, List, [], ◌∷◌, ◌++◌, append_assoc, length,
  length-append, arith, Option, none, some, false,
}
use shadowsocks_rust.Common.Outcome.{ok}
use shadowsocks_rust.Crypto.CipherType.{CipherType, CipherCategory, stream, aead, category}
use shadowsocks_rust.Crypto.Keystream.{Keystream}
use shadowsocks_rust.Crypto.Sizes.{Backends}
use shadowsocks_rust.Replay.{BloomFilter, PingPongBloom, check_nonce_and_set}
use shadowsocks_rust.UdpRelay.CryptoIo.{Suite}
use shadowsocks_rust.UdpRelay.CryptoIo.Nonces.{IsNew}
use shadowsocks_rust.TcpRelay.Polling.{Polled, pending, failed, done, ReadEvent, bytes, IsClean}
use shadowsocks_rust.TcpRelay.AeadReader as AeadReader
use shadowsocks_rust.TcpRelay.AeadReader.Delivery as Aead
use shadowsocks_rust.TcpRelay.StreamReader as StreamReader
use shadowsocks_rust.TcpRelay.StreamReader.Delivery as Stream
use shadowsocks_rust.TcpRelay.CryptoStream.{
  ReadStatus, wait_iv, established, fill_iv, DecryptedReader, aead_reader, stream_reader,
  CryptoStream, new_reader, Reads, checked_iv, got_iv, handshake, poll_read_handshake,
  read_decrypted, after_handshake, priv_poll_read,
}
use shadowsocks_rust.TcpRelay.CryptoStream.Shaking.{
  Fills, waiting, filled, cut, fill_iv-Fills, same_cut,
}

module _ (B : Backends) (F : BloomFilter) (S : Suite B) (t : CipherType)
    (K : category t ≡ stream → Keystream (S.stream_cipher t)) where
  open S use {aead_cipher, stream_cipher}

  abbrev pub ReaderOwes : DecryptedReader B F S t → List ReadEvent → List ℕ → Type 0
  ReaderOwes (aead_reader r) s out = Aead.Owes (aead_cipher t) r s out
  ReaderOwes (stream_reader r) s out =
      (h : category t ≡ stream) × Stream.Owes (stream_cipher t) (K h) r s out

  -- The nonce that is awaited is new, and behind it comes what a reader of its key and nonce hands out.
  pub data Owes (c : CryptoStream B F S t) (s : List ReadEvent) (p : PingPongBloom F) (out : List ℕ)
      : Type 0 where
    awaited :
        (buf key iv rest : List ℕ) (p' : PingPongBloom F)
        → c.read_status ≡ wait_iv (length iv) buf key
        → length buf ≤ length iv
        → IsClean s
        → buf ++ bytes s ≡ iv ++ rest
        → IsNew F iv p p'
        → ((s' : List ReadEvent)
            → IsClean s'
            → bytes s' ≡ rest
            → ReaderOwes (new_reader B F S t (category t) key iv) s' out)
        → Owes c s p out
    running :
        (d : DecryptedReader B F S t)
        → c.read_status ≡ established
        → c.dec ≡ some d
        → ReaderOwes d s out
        → Owes c s p out

  pub data Delivers (dst_len : ℕ) (out : List ℕ) : Reads B F S t (List ℕ) → Type 0 where
    withholds :
        {c : CryptoStream B F S t} {s : List ReadEvent} {p : PingPongBloom F}
        → Owes c s p out
        → Delivers dst_len out (pending, c, s, p)
    gives :
        {c : CryptoStream B F S t} {s : List ReadEvent} {p : PingPongBloom F} (bs out' : List ℕ)
        → out ≡ bs ++ out'
        → length bs ≤ dst_len
        → (0 < dst_len → bs ≡ [] → out ≡ [])
        → Owes c s p out'
        → Delivers dst_len out (done bs, c, s, p)

  aead-Delivers :
      (dst_len : ℕ) (out : List ℕ) (c : CryptoStream B F S t) (p : PingPongBloom F)
      (res : AeadReader.Polls (aead_cipher t) (List ℕ))
      → c.read_status ≡ established
      → Aead.Delivers (aead_cipher t) dst_len out res
      → Delivers dst_len out (res.0, record c { dec = some (aead_reader res.1) }, res.2, p)
  aead-Delivers dst_len out c p res st (Aead.waits {r'} {s'} o) =
      withholds (running (aead_reader r') st refl o)
  aead-Delivers dst_len out c p res st (Aead.gives {r'} {s'} bs out' e few enough o) =
      gives bs out' e few enough (running (aead_reader r') st refl o)

  stream-Delivers :
      (h : category t ≡ stream) (dst_len : ℕ) (out : List ℕ) (c : CryptoStream B F S t)
      (p : PingPongBloom F) (res : StreamReader.Polls (stream_cipher t) (List ℕ))
      → c.read_status ≡ established
      → Stream.Delivers (stream_cipher t) (K h) dst_len out res
      → Delivers dst_len out (res.0, record c { dec = some (stream_reader res.1) }, res.2, p)
  stream-Delivers h dst_len out c p res st (Stream.withholds {r'} {s'} o) =
      withholds (running (stream_reader r') st refl (h, o))
  stream-Delivers h dst_len out c p res st (Stream.gives {r'} {s'} bs out' e few enough o) =
      gives bs out' e few enough (running (stream_reader r') st refl (h, o))

  read_decrypted-Delivers :
      (dst_len : ℕ) (out : List ℕ) (d : DecryptedReader B F S t) (c : CryptoStream B F S t)
      (s : List ReadEvent) (p : PingPongBloom F)
      → c.read_status ≡ established
      → ReaderOwes d s out
      → Delivers dst_len out (read_decrypted B F S t dst_len (some d) c s p)
  unfolding read_decrypted
  read_decrypted-Delivers dst_len out (aead_reader r) c s p st o =
      aead-Delivers dst_len out c p _ st
        (Aead.poll_read_decrypted-Delivers (aead_cipher t) dst_len r s out o)
  read_decrypted-Delivers dst_len out (stream_reader r) c s p st (h, o) =
      stream-Delivers h dst_len out c p _ st
        (Stream.stream_poll-Delivers (stream_cipher t) (K h) dst_len r s out o)

  -- The nonce is new: the reader is made, and reads.
  opened-Delivers :
      (dst_len : ℕ) (out key iv : List ℕ) (size : ℕ) (c : CryptoStream B F S t) (s : List ReadEvent)
      (p p' : PingPongBloom F)
      → ReaderOwes (new_reader B F S t (category t) key iv) s out
      → Delivers dst_len out
          (after_handshake B F S t dst_len (checked_iv B F S t size iv key c s p (ok (false, p'))))
  unfolding after_handshake checked_iv
  opened-Delivers dst_len out key iv size c s p p' o =
      read_decrypted-Delivers dst_len out (new_reader B F S t (category t) key iv) _ s p' refl o

  -- The handshake: the nonce is there and is new, or more of it is awaited.
  got_iv-Delivers :
      (dst_len : ℕ) (out key iv rest : List ℕ) (c : CryptoStream B F S t) (p p' : PingPongBloom F)
      (res : Polled (Unit {0}) × List ℕ × List ReadEvent)
      → IsNew F iv p p'
      → ((s' : List ReadEvent)
          → IsClean s'
          → bytes s' ≡ rest
          → ReaderOwes (new_reader B F S t (category t) key iv) s' out)
      → Fills (length iv) (iv ++ rest) res
      → Delivers dst_len out
          (after_handshake B F S t dst_len (got_iv B F S t (length iv) key c p res))
  unfolding after_handshake got_iv
  got_iv-Delivers dst_len out key iv rest c p p' res fresh owed (waiting {buf} {s} e lt cl) =
      withholds (awaited buf key iv rest p' refl (omega arith) cl e fresh owed)
  got_iv-Delivers dst_len out key iv rest c p p' res fresh owed (filled {buf} {s} e len cl) =
      let (front, back) = same_cut buf iv (bytes s) rest e len in
      subst
        (λ v. Delivers dst_len out (
          after_handshake B F S t dst_len
            (checked_iv B F S t (length iv) v key c s p (check_nonce_and_set F v p))))
        (sym front)
        (subst
          (λ m.
            Delivers dst_len out
              (after_handshake B F S t dst_len (checked_iv B F S t (length iv) iv key c s p m)))
          (sym fresh) (opened-Delivers dst_len out key iv (length iv) c s p p' (owed s cl back)))
  got_iv-Delivers dst_len out key iv rest c p p' res fresh owed (cut {buf} {s} e lt) =
      absurd (omega (arith, ap length e, length-append iv rest))

  -- Take a stream that owes its reader the plain bytes `out`: it waits for the rest of a nonce
  -- that is new to the filters, with the bytes behind it on a connection that neither fails nor
  -- gives an empty chunk, or it is established. A poll hands out a front of `out`, at most
  -- `dst_len` bytes, and none only if `dst_len` is zero or `out` is empty, or it waits; it
  -- never fails or panics, and the stream then owes exactly the rest.
  pub crypto_stream_poll-Delivers :
      (dst_len : ℕ) (c : CryptoStream B F S t) (s : List ReadEvent) (p : PingPongBloom F)
      (out : List ℕ)
      → Owes c s p out
      → Delivers dst_len out (priv_poll_read B F S t dst_len c s p)
  unfolding priv_poll_read poll_read_handshake handshake after_handshake
  crypto_stream_poll-Delivers dst_len c s p out (running d st dec o) =
      subst
        (λ st'.
          Delivers dst_len out (after_handshake B F S t dst_len (handshake B F S t st' c s p)))
        (sym st)
        (subst (λ d'. Delivers dst_len out (read_decrypted B F S t dst_len d' c s p)) (sym dec)
          (read_decrypted-Delivers dst_len out d c s p st o))
  crypto_stream_poll-Delivers dst_len c s p out (awaited buf key iv rest p' st le cl e fresh owed) =
      subst
        (λ st'.
          Delivers dst_len out (after_handshake B F S t dst_len (handshake B F S t st' c s p)))
        (sym st)
        (got_iv-Delivers dst_len out key iv rest c p p'
          (fill_iv (suc (length iv)) (length iv) buf s) fresh owed
          (subst (λ x. Fills (length iv) x (fill_iv (suc (length iv)) (length iv) buf s)) e
            (fill_iv-Fills (suc (length iv)) (length iv) buf s cl le (omega arith))))
