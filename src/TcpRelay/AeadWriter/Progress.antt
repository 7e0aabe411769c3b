-- ===== src/TcpRelay/AeadWriter/Progress.antt =====
-- What the polls of the writer put on the wire, whatever the sink takes at each of them.
use shadowsocks_rust.Common.{
  ℕ, zero, suc, ◌+◌, ◌-◌, ◌≤◌, ◌<◌, ◌==◌, ◌≡◌, sym, ap, ◌∙◌, inl, inr, List, ◌++◌, append_assoc,
  append-nil, length, length-take, length-drop, take, drop, take-append-drop, drop-drop, drop_all,
  arith, ltb, leb, Bool-cases, le→leb, true, false,
}
use shadowsocks_rust.Io.{IoError, eof_kind_error}
use shadowsocks_rust.Crypto.{AeadCipher}
use shadowsocks_rust.TcpRelay.Polling.{
  Polled, pending, failed, done, panicked, exhausted, Sink, poll_write,
}
use shadowsocks_rust.TcpRelay.Polling.Laws.{Takes, holds, breaks, accepted, poll_write-Takes}
use shadowsocks_rust.TcpRelay.AeadWriter.{
  EncryptedWriter, EncryptWriteStep, nothing, writing, Writes, nonce_bytes, packet, begin,
  write_loop, resume, run_steps, poll_write_all_encrypted, returning, clipped, max_packet_size,
  poll_write_encrypted,
}

module _ (C : AeadCipher) where
  -- A poll that owes the sink `rest` of the buffer `buf`.
  pub data Sends {A : Type 0} (a : A) (buf : List ℕ) (w : EncryptedWriter C) (sent : List ℕ)
      : Writes C A → Type 0 where
    holds_back :
        {k' : Sink} (pos : ℕ)
        → pos < length buf
        → k'.out ++ drop pos buf ≡ sent
        → Sends a buf w sent (pending, record w { steps = writing buf pos }, k')
    sends_all :
        {k' : Sink} → k'.out ≡ sent → Sends a buf w sent (done a, record w { steps = nothing }, k')
    breaks_off :
        {k' : Sink} (e : IoError) (pos : ℕ)
        → pos < length buf
        → k'.out ++ drop pos buf ≡ sent
        → Sends a buf w sent (failed e, record w { steps = writing buf pos }, k')

  loop_done :
      (fuel : ℕ) (buf : List ℕ) (pos : ℕ) (w : EncryptedWriter C) (k : Sink)
      → ltb pos (length buf) ≡ false
      → write_loop C (suc fuel) buf pos w k ≡ (done tt, record w { steps = nothing }, k)
  unfolding write_loop
  loop_done fuel buf pos w k h = simp (h, write_loop)

  abbrev next_round : ℕ → List ℕ → ℕ → EncryptedWriter C → Polled ℕ × Sink → Writes C (Unit {0})
  next_round fuel buf pos w res = elim res.0 [
    | pending ↦ (pending, record w { steps = writing buf pos }, res.1)
    | failed e ↦ (failed e, record w { steps = writing buf pos }, res.1)
    | done n ↦ elim (n == 0) [
      | true ↦ (failed eof_kind_error, record w { steps = writing buf pos }, res.1)
      | false ↦ write_loop C fuel buf (pos + n) w res.1
    ]
    | panicked ↦ (panicked, w, res.1)
    | exhausted ↦ (exhausted, w, res.1)
  ]

  loop_goes_on :
      (fuel : ℕ) (buf : List ℕ) (pos : ℕ) (w : EncryptedWriter C) (k : Sink)
      → ltb pos (length buf) ≡ true
      → write_loop C (suc fuel) buf pos w k
        ≡ next_round fuel buf pos w (poll_write (drop pos buf) k)
  unfolding write_loop
  loop_goes_on fuel buf pos w k h = simp (h, write_loop)

  round-Sends :
      (fuel : ℕ) (buf : List ℕ) (pos : ℕ) (w : EncryptedWriter C) (k : Sink) (res : Polled ℕ × Sink)
      → pos < length buf
      → ((n : ℕ) (k' : Sink)
          → 0 < n
          → pos + n ≤ length buf
          → Sends tt buf w (k'.out ++ drop (pos + n) buf) (write_loop C fuel buf (pos + n) w k'))
      → Takes (drop pos buf) k res
      → Sends tt buf w (k.out ++ drop pos buf) (next_round fuel buf pos w res)
  round-Sends fuel buf pos w k res room next (holds {k'} e) =
      holds_back pos room (ap (λ y. y ++ drop pos buf) e)
  round-Sends fuel buf pos w k res room next (breaks {k'} er e) =
      breaks_off er pos room (ap (λ y. y ++ drop pos buf) e)
  round-Sends fuel buf pos w k res room next (accepted {k'} n fits e) = elim (Bool-cases (n == 0)) [
    | inl z ↦ rw (z, next_round) (breaks_off eof_kind_error pos room (kept (ground arith)))
    | inr nz ↦
        rw (nz, next_round)
          (rw⁻¹ (goes_on) (next n k' (ground arith) (omega (arith, length-drop pos buf))))
  ]
    where
      goes_on : k'.out ++ drop (pos + n) buf ≡ k.out ++ drop pos buf
      goes_on =
          ap (λ y. y ++ drop (pos + n) buf) e
          ∙ append_assoc k.out (take n (drop pos buf)) (drop (pos + n) buf)
          ∙ ap (λ y. k.out ++ (take n (drop pos buf) ++ y)) (sym (drop-drop pos n buf))
          ∙ ap (◌++◌ k.out) (take-append-drop n (drop pos buf))

      same : n ≡ 0 → pos ≡ pos + n
      same z = omega arith

      kept : n ≡ 0 → k'.out ++ drop pos buf ≡ k.out ++ drop pos buf
      kept z = ap (λ y. k'.out ++ drop y buf) (same z) ∙ goes_on

  loop-Sends :
      (fuel : ℕ) (buf : List ℕ) (pos : ℕ) (w : EncryptedWriter C) (k : Sink)
      → pos ≤ length buf
      → length buf - pos < fuel
      → Sends tt buf w (k.out ++ drop pos buf) (write_loop C fuel buf pos w k)
  loop-Sends zero buf pos w k le few = absurd (omega arith)
  loop-Sends (suc fuel) buf pos w k le few = elim (Bool-cases (ltb pos (length buf))) [
    | inl lt ↦ rw (loop_goes_on fuel buf pos w k lt) (
        round-Sends fuel buf pos w k _ (ground arith)
          (λ n k' hn fits. loop-Sends fuel buf (pos + n) w k' fits (omega arith))
          (poll_write-Takes (drop pos buf) k))
    | inr ge ↦
        rw (loop_done fuel buf pos w k ge)
          (sends_all (sym (ap (◌++◌ k.out) (drop_all pos buf (ground arith)) ∙ append-nil k.out)))
  ]

  -- The buffer that a poll with these bytes sends from, and the position in it.
  abbrev pub sending : List ℕ → EncryptWriteStep → EncryptedWriter C → List ℕ
  sending bytes nothing w = nonce_bytes w.nonce ++ (packet C w.cipher bytes).0
  sending bytes (writing buf pos) w = buf

  abbrev pub sent_to : EncryptWriteStep → ℕ
  sent_to nothing = 0
  sent_to (writing buf pos) = pos

  abbrev pub underway : List ℕ → EncryptWriteStep → EncryptedWriter C → EncryptedWriter C
  underway bytes nothing w = begin C bytes w
  underway bytes (writing buf pos) w = w

  pub run_steps-Sends :
      (st : EncryptWriteStep) (bytes : List ℕ) (w : EncryptedWriter C) (k : Sink)
      → sent_to st ≤ length (sending bytes st w)
      → Sends tt
          (sending bytes st w)
          (underway bytes st w)
          (k.out ++ drop (sent_to st) (sending bytes st w))
          (run_steps C st bytes w k)
  unfolding run_steps resume begin
  run_steps-Sends nothing bytes w k le = loop-Sends _ _ 0 _ k (omega arith) (omega arith)
  run_steps-Sends (writing buf pos) bytes w k le = loop-Sends _ buf pos w k le (omega arith)

  returning-Sends :
      (n : ℕ) (buf : List ℕ) (w : EncryptedWriter C) (sent : List ℕ) (res : Writes C (Unit {0}))
      → Sends tt buf w sent res
      → Sends n buf w sent (returning C n res)
  unfolding returning
  returning-Sends n buf w sent res (holds_back pos lt e) = holds_back pos lt e
  returning-Sends n buf w sent res (sends_all e) = sends_all e
  returning-Sends n buf w sent res (breaks_off er pos lt e) = breaks_off er pos lt e

  pub clipped_le : (bytes : List ℕ) → leb (length (clipped C bytes)) max_packet_size ≡ true
  clipped_le bytes = elim (Bool-cases (ltb max_packet_size (length bytes))) [
    | inl long ↦ rw (long) (
        le→leb (length (take max_packet_size bytes)) max_packet_size
          (omega (arith, length-take max_packet_size bytes)))
    | inr fits ↦ rw (fits) (ground arith)
  ]

  -- A poll of the writer sends the packet of the bytes, at most 0x3FFF of them, with the nonce
  -- before the first packet, or the rest of the packet that an earlier poll left. It is done,
  -- and returns the length of this poll's clipped bytes, only when the whole packet is out; if
  -- it waits or fails, the bytes out and the bytes kept make up the packet. It never panics and
  -- the loop ends. The writer's position lies in its buffer.
  pub poll_write_encrypted-Sends :
      (bytes : List ℕ) (w : EncryptedWriter C) (k : Sink)
      → sent_to w.steps ≤ length (sending (clipped C bytes) w.steps w)
      → Sends
          (length (clipped C bytes))
          (sending (clipped C bytes) w.steps w)
          (underway (clipped C bytes) w.steps w)
          (k.out ++ drop (sent_to w.steps) (sending (clipped C bytes) w.steps w))
          (poll_write_encrypted C bytes w k)
  unfolding poll_write_encrypted poll_write_all_encrypted
  poll_write_encrypted-Sends bytes w k le =
      returning-Sends _ _ _ _ _
        (rw (clipped_le bytes) (run_steps-Sends w.steps (clipped C bytes) w k le))
