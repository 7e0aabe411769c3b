-- ===== src/TcpRelay/AeadReader.antt =====
-- `DecryptedReader` of relay/tcprelay/aead.rs.
pub mod Exact
pub mod Framing
pub mod Delivery
use shadowsocks_rust.Common.{
  ℕ, zero, suc, ◌+◌, ◌-◌, ◌*◌, List, [], ◌∷◌, ◌++◌, length, take, drop, min, leb, Bool, true, false,
  not, ◌&&◌, Option, none, some, if◌then◌else◌,
}
use shadowsocks_rust.Common.Words.{u16_of}
use shadowsocks_rust.Io.{IoError, other, cipher_failure, eof_kind_error}
use shadowsocks_rust.Crypto.{AeadCipher, decrypt_error}
use shadowsocks_rust.TcpRelay.Polling.{
  Polled, pending, failed, done, panicked, exhausted, ReadEvent, poll_read, bytes,
}

pub data DecryptReadStep : Type 0 where
  reading_length : DecryptReadStep
  reading_data : ℕ → DecryptReadStep

abbrev pub is_nil : List ℕ → Bool
is_nil [] = true
is_nil (_ ∷ _) = false

module _ (C : AeadCipher) where
  open C use {Decryptor, new_dec, tag_size, decrypt}

  pub record DecryptedReader : Type 0 where
    pub buffer : List ℕ
    pub plain : List ℕ
    pub cipher : Decryptor
    pub pos : ℕ
    pub steps : DecryptReadStep
    pub got_final : Bool

  unfoldable pub new : List ℕ → List ℕ → DecryptedReader
  new key nonce = record {
    buffer = [];
    plain = [];
    cipher = new_dec key nonce;
    pos = 0;
    steps = reading_length;
    got_final = false;
  }

  -- A call's result with the reader and the source behind it.
  abbrev pub Polls : Type 0 → Type 0
  Polls A = Polled A × DecryptedReader × List ReadEvent

  -- Nothing was read: the end of the stream, if it is allowed here and not seen before.
  unfoldable pub at_end : Bool → DecryptedReader → List ReadEvent → Polls (Unit {0})
  at_end allow_eof r s =
      if is_nil r.buffer && (allow_eof && not r.got_final)
      then (done tt, record r { got_final = true }, s)
      else (failed eof_kind_error, r, s)

  -- The loop until the buffer holds `size` bytes; each round reads a byte at least.
  unfoldable pub poll_read_exact :
      ℕ → ℕ → Bool → DecryptedReader → List ReadEvent → Polls (Unit {0})
  unfolding at_end
  poll_read_exact zero size allow_eof r s = (exhausted, r, s)
  poll_read_exact (suc fuel) size allow_eof r s = elim (leb size (length r.buffer)) [
    | true ↦ (done tt, r, s)
    | false ↦
        let (p, s') = poll_read (size - length r.buffer) s in
        elim p [
          | pending ↦ (pending, r, s')
          | failed e ↦ (failed e, r, s')
          | done bs ↦ elim bs [
            | [] ↦ at_end allow_eof r s'
            | b ∷ bs' ↦
                poll_read_exact fuel size allow_eof (record r { buffer = r.buffer ++ (b ∷ bs') }) s'
          ]
          | panicked ↦ (panicked, r, s')
          | exhausted ↦ (exhausted, r, s')
        ]
  ]

  -- `BigEndian::read_u16` of the length buffer.
  unfoldable pub read_length : List ℕ → Option ℕ
  read_length (a ∷ b ∷ []) = some (u16_of a b)
  read_length _ = none

  unfoldable pub decoded_length :
      Option ℕ → Decryptor → DecryptedReader → List ReadEvent → Polls (Unit {0})
  decoded_length none d r s = (panicked, record r { cipher = d }, s)
  decoded_length (some len) d r s = (
    done tt,
    record r { cipher = d; buffer = []; plain = []; pos = 0; steps = reading_data len },
    s,
  )

  unfoldable pub decode_length : DecryptedReader → List ReadEvent → Polls (Unit {0})
  unfolding read_length decoded_length
  decode_length r s =
      let (x, d) = decrypt r.cipher r.buffer in
      elim x [
        | none ↦ (failed decrypt_error, record r { cipher = d }, s)
        | some len_buf ↦ decoded_length (read_length len_buf) d r s
      ]

  unfoldable pub after_length : Polls (Unit {0}) → Polls (Unit {0})
  unfolding decode_length
  after_length (done _, r, s) = if r.got_final then (done tt, r, s) else decode_length r s
  after_length (p, r, s) = (p, r, s)

  unfoldable pub poll_read_decrypted_length : DecryptedReader → List ReadEvent → Polls (Unit {0})
  unfolding after_length
  poll_read_decrypted_length r s =
      after_length (poll_read_exact (suc (2 + tag_size)) (2 + tag_size) true r s)

  unfoldable pub decode_data : DecryptedReader → List ReadEvent → Polls (Unit {0})
  decode_data r s =
      let (x, d) = decrypt r.cipher r.buffer in
      elim x [
        | none ↦ (failed decrypt_error, record r { cipher = d }, s)
        | some output ↦ (
          done tt,
          record r {
            cipher = d;
            plain = r.plain ++ output;
            buffer = [];
            pos = 0;
            steps = reading_length;
          },
          s,
        )
      ]

  unfoldable pub after_data : Polls (Unit {0}) → Polls (Unit {0})
  unfolding decode_data
  after_data (done _, r, s) = decode_data r s
  after_data (p, r, s) = (p, r, s)

  unfoldable pub poll_read_decrypted_data : ℕ → DecryptedReader → List ReadEvent → Polls (Unit {0})
  unfolding after_data
  poll_read_decrypted_data size r s =
      after_data (poll_read_exact (suc (size + tag_size)) (size + tag_size) false r s)

  -- One refill of the loop in `poll_read_decrypted`.
  unfoldable pub refill : DecryptReadStep → DecryptedReader → List ReadEvent → Polls (Unit {0})
  refill reading_length r s = poll_read_decrypted_length r s
  refill (reading_data len) r s = poll_read_decrypted_data len r s

  unfoldable pub copy_out : ℕ → DecryptedReader → List ReadEvent → Polls (List ℕ)
  copy_out dst_len r s =
      let n = min dst_len (length r.plain - r.pos) in
      (done (take n (drop r.pos r.plain)), record r { pos = r.pos + n }, s)

  unfoldable pub read_loop : ℕ → ℕ → DecryptedReader → List ReadEvent → Polls (List ℕ)
  unfolding refill copy_out
  read_loop zero dst_len r s = (exhausted, r, s)
  read_loop (suc fuel) dst_len r s = elim (leb (length r.plain) r.pos) [
    | false ↦ copy_out dst_len r s
    | true ↦ elim r.got_final [
      | true ↦ (done [], r, s)
      | false ↦
          let (p, r', s') = refill r.steps r s in
          elim p [
            | done _ ↦ read_loop fuel dst_len r' s'
            | pending ↦ (pending, r', s')
            | failed e ↦ (failed e, r', s')
            | panicked ↦ (panicked, r', s')
            | exhausted ↦ (exhausted, r', s')
          ]
    ]
  ]

  -- A round takes bytes from the source, or reaches the data step or the end: the fuel is enough.
  abbrev pub rounds : DecryptedReader → List ReadEvent → ℕ
  rounds r s = 2 * (length r.buffer + length (bytes s)) + 3

  -- `poll_read_decrypted` into a buffer of `dst_len` bytes: the bytes copied into it.
  unfoldable pub poll_read_decrypted : ℕ → DecryptedReader → List ReadEvent → Polls (List ℕ)
  unfolding read_loop
  poll_read_decrypted dst_len r s = read_loop (rounds r s) dst_len r s
