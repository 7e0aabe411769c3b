-- ===== src/TcpRelay/AeadWriter.antt =====
-- `EncryptedWriter` of relay/tcprelay/aead.rs.
pub mod Progress
pub mod Packets
use shadowsocks_rust.Common.{
  ℕ, zero, suc, ◌+◌, ◌%◌, ◌==◌, List, [], ◌∷◌, ◌++◌, length, take, drop, ltb, leb, Bool, true,
  false, Option, none, some, if◌then◌else◌,
}
use shadowsocks_rust.Common.Words.{high_byte, low_byte}
use shadowsocks_rust.Io.{eof_kind_error}
use shadowsocks_rust.Crypto.{AeadCipher}
use shadowsocks_rust.TcpRelay.Polling.{
  Polled, pending, failed, done, panicked, exhausted, Sink, poll_write,
}

abbrev pub max_packet_size : ℕ
max_packet_size = 16383

pub data EncryptWriteStep : Type 0 where
  nothing : EncryptWriteStep
  writing : List ℕ → ℕ → EncryptWriteStep

-- `BigEndian::write_u16` of `data.len() as u16`.
abbrev pub length_bytes : List ℕ → List ℕ
length_bytes payload = high_byte (length payload % 65536) ∷ low_byte (length payload % 65536) ∷ []

abbrev pub nonce_bytes : Option (List ℕ) → List ℕ
nonce_bytes none = []
nonce_bytes (some n) = n

module _ (C : AeadCipher) where
  open C use {Encryptor, new_enc, encrypt}

  pub record EncryptedWriter : Type 0 where
    pub cipher : Encryptor
    pub steps : EncryptWriteStep
    pub nonce : Option (List ℕ)

  unfoldable pub new : List ℕ → List ℕ → EncryptedWriter
  new key nonce = record { cipher = new_enc key nonce; steps = nothing; nonce = some nonce }

  abbrev pub Writes : Type 0 → Type 0
  Writes A = Polled A × EncryptedWriter × Sink

  -- The encrypted length and the encrypted data, in the order of the calls of the cipher.
  unfoldable pub packet : Encryptor → List ℕ → List ℕ × Encryptor
  packet e payload =
      let (len_part, e1) = encrypt e (length_bytes payload) in
      let (data_part, e2) = encrypt e1 payload in (len_part ++ data_part, e2)

  -- The arm `Nothing`: the nonce goes before the first packet only.
  unfoldable pub begin : List ℕ → EncryptedWriter → EncryptedWriter
  begin payload w =
      let (bytes, e) = packet w.cipher payload in
      record { cipher = e; steps = writing (nonce_bytes w.nonce ++ bytes) 0; nonce = none }

  -- The loop of the arm `Writing`; each round that goes on wrote a byte at least.
  unfoldable pub write_loop : ℕ → List ℕ → ℕ → EncryptedWriter → Sink → Writes (Unit {0})
  write_loop zero buf pos w k = (exhausted, w, k)
  write_loop (suc fuel) buf pos w k = elim (ltb pos (length buf)) [
    | false ↦ (done tt, record w { steps = nothing }, k)
    | true ↦
        let (p, k') = poll_write (drop pos buf) k in
        elim p [
          | pending ↦ (pending, record w { steps = writing buf pos }, k')
          | failed e ↦ (failed e, record w { steps = writing buf pos }, k')
          | done n ↦ elim (n == 0) [
            | true ↦ (failed eof_kind_error, record w { steps = writing buf pos }, k')
            | false ↦ write_loop fuel buf (pos + n) w k'
          ]
          | panicked ↦ (panicked, w, k')
          | exhausted ↦ (exhausted, w, k')
        ]
  ]

  -- The arm `Writing` of the loop.
  unfoldable pub resume : EncryptWriteStep → EncryptedWriter → Sink → Writes (Unit {0})
  resume nothing w k = (exhausted, w, k)
  resume (writing buf pos) w k = write_loop (suc (length buf)) buf pos w k

  -- The loop: the arm `Nothing` only goes on to the arm `Writing`, which returns.
  unfoldable pub run_steps : EncryptWriteStep → List ℕ → EncryptedWriter → Sink → Writes (Unit {0})
  run_steps nothing payload w k = let w' = begin payload w in resume w'.steps w' k
  run_steps (writing buf pos) payload w k = resume (writing buf pos) w k

  unfoldable pub poll_write_all_encrypted : List ℕ → EncryptedWriter → Sink → Writes (Unit {0})
  poll_write_all_encrypted payload w k =
      if leb (length payload) max_packet_size
      then run_steps w.steps payload w k
      else (panicked, w, k)

  unfoldable pub returning : ℕ → Writes (Unit {0}) → Writes ℕ
  returning n (done _, w, k) = (done n, w, k)
  returning n (pending, w, k) = (pending, w, k)
  returning n (failed e, w, k) = (failed e, w, k)
  returning n (panicked, w, k) = (panicked, w, k)
  returning n (exhausted, w, k) = (exhausted, w, k)

  -- The part of the data that one packet takes.
  abbrev pub clipped : List ℕ → List ℕ
  clipped payload =
      if ltb max_packet_size (length payload) then take max_packet_size payload else payload

  unfoldable pub poll_write_encrypted : List ℕ → EncryptedWriter → Sink → Writes ℕ
  unfolding returning
  poll_write_encrypted payload w k =
      returning (length (clipped payload)) (poll_write_all_encrypted (clipped payload) w k)
