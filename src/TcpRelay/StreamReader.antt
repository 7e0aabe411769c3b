-- ===== src/TcpRelay/StreamReader.antt =====
-- `DecryptedReader` of relay/tcprelay/stream.rs.
pub mod Delivery
use shadowsocks_rust.Common.{
  ℕ, zero, suc, ◌+◌, ◌-◌, List, [], ◌∷◌, length, take, drop, min, leb, Bool, true, false,
}
use shadowsocks_rust.Common.Outcome.{Outcome, ok, err, panic}
use shadowsocks_rust.Io.{IoError}
use shadowsocks_rust.Crypto.{StreamCipher}
use shadowsocks_rust.TcpRelay.Polling.{
  Polled, pending, failed, done, panicked, exhausted, ReadEvent, poll_read, bytes,
}

-- `BUFFER_SIZE` of relay/tcprelay/mod.rs.
abbrev pub buffer_size : ℕ
buffer_size = 8192

module _ (S : StreamCipher) where
  open S use {Cipher, new_decrypt, update, finalize}

  pub record DecryptedReader : Type 0 where
    pub buffer : List ℕ
    pub cipher : Cipher
    pub pos : ℕ
    pub got_final : Bool

  unfoldable pub new : List ℕ → List ℕ → DecryptedReader
  new key iv = record { buffer = []; cipher = new_decrypt key iv; pos = 0; got_final = false }

  abbrev pub Polls : Type 0 → Type 0
  Polls A = Polled A × DecryptedReader × List ReadEvent

  -- The pointers are reset before the cipher is called; a failed call leaves its cipher as it was.
  unfoldable pub finalized :
      Outcome IoError (List ℕ) → DecryptedReader → List ReadEvent → Polls (Unit {0})
  finalized (ok last) r s = (done tt, record r { buffer = last; pos = 0; got_final = true }, s)
  finalized (err e) r s = (failed e, record r { buffer = []; pos = 0 }, s)
  finalized panic r s = (panicked, record r { buffer = []; pos = 0 }, s)

  unfoldable pub updated :
      Outcome IoError (List ℕ × Cipher) → DecryptedReader → List ReadEvent → Polls (Unit {0})
  updated (ok (text, c)) r s = (done tt, record r { buffer = text; cipher = c; pos = 0 }, s)
  updated (err e) r s = (failed e, record r { buffer = []; pos = 0 }, s)
  updated panic r s = (panicked, record r { buffer = []; pos = 0 }, s)

  -- What the loop does with the bytes that a read found.
  unfoldable pub decrypt_incoming : List ℕ → DecryptedReader → List ReadEvent → Polls (Unit {0})
  unfolding finalized updated
  decrypt_incoming [] r s = finalized (finalize r.cipher) r s
  decrypt_incoming (b ∷ bs) r s = updated (update r.cipher (b ∷ bs)) r s

  unfoldable pub refill : DecryptedReader → List ReadEvent → Polls (Unit {0})
  unfolding decrypt_incoming
  refill r s =
      let (p, s') = poll_read buffer_size s in
      elim p [
        | pending ↦ (pending, r, s')
        | failed e ↦ (failed e, r, s')
        | done bs ↦ decrypt_incoming bs r s'
        | panicked ↦ (panicked, r, s')
        | exhausted ↦ (exhausted, r, s')
      ]

  unfoldable pub copy_out : ℕ → DecryptedReader → List ReadEvent → Polls (List ℕ)
  copy_out dst_len r s =
      let n = min dst_len (length r.buffer - r.pos) in
      (done (take n (drop r.pos r.buffer)), record r { pos = r.pos + n }, s)

  unfoldable pub read_loop : ℕ → ℕ → DecryptedReader → List ReadEvent → Polls (List ℕ)
  unfolding refill copy_out
  read_loop zero dst_len r s = (exhausted, r, s)
  read_loop (suc fuel) dst_len r s = elim (leb (length r.buffer) r.pos) [
    | false ↦ copy_out dst_len r s
    | true ↦ elim r.got_final [
      | true ↦ (done [], r, s)
      | false ↦
          let (p, r', s') = refill r s in
          elim p [
            | done _ ↦ read_loop fuel dst_len r' s'
            | pending ↦ (pending, r', s')
            | failed e ↦ (failed e, r', s')
            | panicked ↦ (panicked, r', s')
            | exhausted ↦ (exhausted, r', s')
          ]
    ]
  ]

  -- A round that goes on takes a byte from the source, or reaches its end.
  abbrev pub rounds : List ReadEvent → ℕ
  rounds s = length (bytes s) + 3

  -- `poll_read_decrypted` into a buffer of `dst_len` bytes: the bytes copied into it.
  unfoldable pub poll_read_decrypted : ℕ → DecryptedReader → List ReadEvent → Polls (List ℕ)
  unfolding read_loop
  poll_read_decrypted dst_len r s = read_loop (rounds s) dst_len r s
