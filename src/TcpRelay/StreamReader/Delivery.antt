-- ===== src/TcpRelay/StreamReader/Delivery.antt =====
-- What the polls of the reader hand out of an encrypted text.
use shadowsocks_rust.Common.{
  ℕ, zero, suc, ◌+◌, ◌-◌, ◌≤◌, ◌<◌, ◌≡◌, refl, sym, ap, ◌∙◌, subst, List, [], ◌∷◌, ◌++◌,
  append_assoc, length, length-append, length-take, length-drop, take, drop, take-append-drop,
  drop-drop, drop_all, min, arith, leb, Bool-cases, true, false, inl, inr,
}
use shadowsocks_rust.Common.Outcome.{ok, ok_injective}
use shadowsocks_rust.Crypto.{StreamCipher}
use shadowsocks_rust.Crypto.Keystream.{Keystream, update_split}
use shadowsocks_rust.TcpRelay.Polling.{
  Polled, pending, failed, done, panicked, exhausted, ReadEvent, bytes, IsClean, poll_read,
}
use shadowsocks_rust.TcpRelay.Polling.Laws.{Reads, waits, ends, gets, poll_read-Reads}
use shadowsocks_rust.TcpRelay.StreamReader.{
  DecryptedReader, new, Polls, finalized, updated, decrypt_incoming, refill, copy_out, read_loop,
  rounds, poll_read_decrypted, buffer_size,
}

module _ (S : StreamCipher) (K : Keystream S) where
  open K use {update_nil, finalize_nil}

  -- The text of the bytes that are still to come: all of them decrypt to it. A reader that saw the end
  -- has none.
  pub data Ahead (r : DecryptedReader S) (s : List ReadEvent) : List ℕ → Type 0 where
    coming :
        (q : List ℕ) (c : S.Cipher)
        → r.got_final ≡ false
        → S.update r.cipher (bytes s) ≡ ok (q, c)
        → Ahead r s q
    finished : r.got_final ≡ true → Ahead r s []

  -- `out` is what the reader still has to hand out.
  pub data Owes (r : DecryptedReader S) (s : List ReadEvent) (out : List ℕ) : Type 0 where
    owes : (q : List ℕ) → IsClean s → Ahead r s q → out ≡ drop r.pos r.buffer ++ q → Owes r s out

  pub data Delivers (dst_len : ℕ) (out : List ℕ) : Polls S (List ℕ) → Type 0 where
    withholds :
        {r' : DecryptedReader S} {s' : List ReadEvent}
        → Owes r' s' out
        → Delivers dst_len out (pending, r', s')
    gives :
        {r' : DecryptedReader S} {s' : List ReadEvent} (bs out' : List ℕ)
        → out ≡ bs ++ out'
        → length bs ≤ dst_len
        → (0 < dst_len → bs ≡ [] → out ≡ [])
        → Owes r' s' out'
        → Delivers dst_len out (done bs, r', s')

  not_nil : (xs : List ℕ) → 0 < length xs → xs ≡ [] → ⊥
  not_nil xs h e = omega (arith, ap length e)

  Ahead-pos :
      (r : DecryptedReader S) (s : List ReadEvent) (q : List ℕ) (pos : ℕ)
      → Ahead r s q
      → Ahead (record r { pos = pos }) s q
  Ahead-pos r s q pos (coming _ c f e) = coming q c f e
  Ahead-pos r s q pos (finished f) = finished f

  copy_out-Delivers :
      (dst_len : ℕ) (r : DecryptedReader S) (s : List ReadEvent) (out : List ℕ)
      → r.pos < length r.buffer
      → Owes r s out
      → Delivers dst_len out (copy_out S dst_len r s)
  unfolding copy_out
  copy_out-Delivers dst_len r s out lt (owes q cl up e) =
      let n : ℕ = min dst_len (length r.buffer - r.pos) in
      let left : List ℕ = drop r.pos r.buffer in
      let taken : length (take n left) ≡ min n (length left) = length-take n left in
      let there : length left ≡ length r.buffer - r.pos = length-drop r.pos r.buffer in
      gives (take n left) (drop (r.pos + n) r.buffer ++ q)
        (rw⁻¹ (drop-drop r.pos n r.buffer) (
          e
          ∙ ap (λ y. y ++ q) (sym (take-append-drop n left))
          ∙ append_assoc (take n left) (drop n left) q))
        (omega arith) (λ pos nil. absurd (not_nil (take n left) (omega arith) nil))
        (owes q cl (Ahead-pos r s q (r.pos + n) up) refl)

  -- The outcomes of a refill of an empty buffer, ahead of the text `q`.
  pub data Refilled (r : DecryptedReader S) (s : List ReadEvent) (q : List ℕ)
      : Polls S (Unit {0}) → Type 0 where
    paused : {s' : List ReadEvent} → Owes r s' q → Refilled r s q (pending, r, s')
    moved :
        {r' : DecryptedReader S} {s' : List ReadEvent}
        → Owes r' s' q
        → length (bytes s') < length (bytes s)
        → Refilled r s q (done tt, r', s')
    closed :
        {r' : DecryptedReader S} {s' : List ReadEvent}
        → Owes r' s' q
        → r'.got_final ≡ true
        → r'.buffer ≡ []
        → Refilled r s q (done tt, r', s')

  -- What a refill does with what its read found.
  abbrev refilled : DecryptedReader S → Polled (List ℕ) × List ReadEvent → Polls S (Unit {0})
  refilled r res = elim res.0 [
    | pending ↦ (pending, r, res.1)
    | failed e ↦ (failed e, r, res.1)
    | done bs ↦ decrypt_incoming S bs r res.1
    | panicked ↦ (panicked, r, res.1)
    | exhausted ↦ (exhausted, r, res.1)
  ]

  used_up :
      (r : DecryptedReader S) (q : List ℕ)
      → leb (length r.buffer) r.pos ≡ true
      → q ≡ drop r.pos r.buffer ++ q
  used_up r q le = sym (ap (λ y. y ++ q) (drop_all r.pos r.buffer (ground arith)))

  nothing_ahead :
      (r : DecryptedReader S) (s : List ReadEvent) (q : List ℕ) (c : S.Cipher)
      → S.update r.cipher (bytes s) ≡ ok (q, c)
      → bytes s ≡ []
      → [] ≡ q
  nothing_ahead r s q c e nil =
      ap (λ v. v.0)
        (ok_injective ([], r.cipher) (q, c)
          (sym (update_nil r.cipher) ∙ ap (S.update r.cipher) (sym nil) ∙ e))

  round-Refilled :
      (r : DecryptedReader S) (s : List ReadEvent) (q : List ℕ) (c : S.Cipher)
      (res : Polled (List ℕ) × List ReadEvent)
      → leb (length r.buffer) r.pos ≡ true
      → r.got_final ≡ false
      → S.update r.cipher (bytes s) ≡ ok (q, c)
      → Reads buffer_size s res
      → Refilled r s q (refilled r res)
  unfolding decrypt_incoming finalized updated
  round-Refilled r s q c res le open_ e (waits {s'} same cl) =
      paused (owes q cl (coming q c open_ (ap (S.update r.cipher) same ∙ e)) (used_up r q le))
  round-Refilled r s q c res le open_ e (ends nil) =
      subst (λ m. Refilled r s q (finalized S m r [])) (sym (finalize_nil r.cipher))
        (subst (λ q'. Refilled r s q' (finalized S (ok []) r [])) (nothing_ahead r s q c e nil)
          (closed (owes [] tt (finished refl) refl) refl refl))
  round-Refilled r s q c res le open_ e (gets {b} {bs} {s'} same few cl) =
      let (a, c1, rest, first, second, joined) =
        update_split S K r.cipher c (b ∷ bs) (bytes s') q (ap (S.update r.cipher) (sym same) ∙ e) in
      subst (λ m. Refilled r s q (updated S m r s')) (sym first)
        (moved (owes rest cl (coming rest c open_ second) joined)
          (omega (arith, ap length same, length-append (b ∷ bs) (bytes s'))))

  refill-Refilled :
      (r : DecryptedReader S) (s : List ReadEvent) (q : List ℕ) (c : S.Cipher)
      → IsClean s
      → leb (length r.buffer) r.pos ≡ true
      → r.got_final ≡ false
      → S.update r.cipher (bytes s) ≡ ok (q, c)
      → Refilled r s q (refill S r s)
  unfolding refill
  refill-Refilled r s q c cl le open_ e =
      round-Refilled r s q c (poll_read buffer_size s) le open_ e
        (poll_read-Reads buffer_size s (omega arith) cl)

  read_loop_final :
      (dst_len fuel : ℕ) (r : DecryptedReader S) (s : List ReadEvent)
      → leb (length r.buffer) r.pos ≡ true
      → r.got_final ≡ true
      → read_loop S (suc fuel) dst_len r s ≡ (done [], r, s)
  unfolding read_loop
  read_loop_final dst_len fuel r s le fin = simp (le, fin, read_loop)

  abbrev next_round : ℕ → ℕ → Polls S (Unit {0}) → Polls S (List ℕ)
  next_round fuel dst_len res = elim res.0 [
    | done _ ↦ read_loop S fuel dst_len res.1 res.2
    | pending ↦ (pending, res.1, res.2)
    | failed e ↦ (failed e, res.1, res.2)
    | panicked ↦ (panicked, res.1, res.2)
    | exhausted ↦ (exhausted, res.1, res.2)
  ]

  read_loop_refills :
      (dst_len fuel : ℕ) (r : DecryptedReader S) (s : List ReadEvent)
      → leb (length r.buffer) r.pos ≡ true
      → r.got_final ≡ false
      → read_loop S (suc fuel) dst_len r s ≡ next_round fuel dst_len (refill S r s)
  unfolding read_loop
  read_loop_refills dst_len fuel r s le open_ = simp (le, open_, read_loop)

  read_loop_copies :
      (dst_len fuel : ℕ) (r : DecryptedReader S) (s : List ReadEvent)
      → leb (length r.buffer) r.pos ≡ false
      → read_loop S (suc fuel) dst_len r s ≡ copy_out S dst_len r s
  unfolding read_loop
  read_loop_copies dst_len fuel r s gt = simp (gt, read_loop)

  at_end-Delivers :
      (fuel dst_len : ℕ) (r : DecryptedReader S) (s : List ReadEvent) (out : List ℕ)
      → leb (length r.buffer) r.pos ≡ true
      → r.got_final ≡ true
      → Owes r s out
      → Delivers dst_len out (read_loop S (suc fuel) dst_len r s)
  at_end-Delivers fuel dst_len r s out le fin (owes q cl (coming _ c open_ e) same) = cc
  at_end-Delivers fuel dst_len r s out le fin (owes q cl (finished f) same) =
      let none_left : out ≡ [] = same ∙ sym (used_up r [] le) in
      rw (read_loop_final dst_len fuel r s le fin)
        (gives [] out refl (omega arith) (λ pos nil. none_left) (owes [] cl (finished f) same))

  round-Delivers :
      (fuel dst_len : ℕ) (r : DecryptedReader S) (s : List ReadEvent) (q : List ℕ)
      (res : Polls S (Unit {0}))
      → length (bytes s) + 1 ≤ fuel
      → ((r' : DecryptedReader S) (s' : List ReadEvent)
          → length (bytes s') + 2 ≤ fuel
          → Owes r' s' q
          → Delivers dst_len q (read_loop S fuel dst_len r' s'))
      → Refilled r s q res
      → Delivers dst_len q (next_round fuel dst_len res)
  round-Delivers fuel dst_len r s q res few next (paused o) = withholds o
  round-Delivers fuel dst_len r s q res few next (moved {r'} {s'} o less) =
      next r' s' (omega arith) o
  round-Delivers zero dst_len r s q res few next (closed o fin nil) = absurd (omega arith)
  round-Delivers (suc fuel) dst_len r s q res few next (closed {r'} {s'} o fin nil) =
      at_end-Delivers fuel dst_len r' s' q (rw (nil) (ground arith)) fin o

  refills-Delivers :
      (fuel dst_len : ℕ) (r : DecryptedReader S) (s : List ReadEvent) (out : List ℕ)
      → leb (length r.buffer) r.pos ≡ true
      → length (bytes s) + 1 ≤ fuel
      → ((r' : DecryptedReader S) (s' : List ReadEvent) (out' : List ℕ)
          → length (bytes s') + 2 ≤ fuel
          → Owes r' s' out'
          → Delivers dst_len out' (read_loop S fuel dst_len r' s'))
      → Owes r s out
      → Delivers dst_len out (read_loop S (suc fuel) dst_len r s)
  refills-Delivers fuel dst_len r s out le few next (owes q cl (finished f) same) =
      at_end-Delivers fuel dst_len r s out le f (owes q cl (finished f) same)
  refills-Delivers fuel dst_len r s out le few next (owes q cl (coming _ c open_ e) same) =
      subst (λ x. Delivers dst_len x (read_loop S (suc fuel) dst_len r s))
        (used_up r q le ∙ sym same)
        (rw (read_loop_refills dst_len fuel r s le open_) (
          round-Delivers fuel dst_len r s q (refill S r s) few (λ r' s' f o. next r' s' q f o)
            (refill-Refilled r s q c cl le open_ e)))

  read_loop-Delivers :
      (fuel dst_len : ℕ) (r : DecryptedReader S) (s : List ReadEvent) (out : List ℕ)
      → length (bytes s) + 2 ≤ fuel
      → Owes r s out
      → Delivers dst_len out (read_loop S fuel dst_len r s)
  read_loop-Delivers zero dst_len r s out few o = absurd (omega arith)
  read_loop-Delivers (suc fuel) dst_len r s out few o =
      elim (Bool-cases (leb (length r.buffer) r.pos)) [
        | inr gt ↦
            rw (read_loop_copies dst_len fuel r s gt)
              (copy_out-Delivers dst_len r s out (ground arith) o)
        | inl le ↦
            refills-Delivers fuel dst_len r s out le (omega arith)
              (λ r' s' out' f o'. read_loop-Delivers fuel dst_len r' s' out' f o') o
      ]

  -- Take a reader that owes `out`, the rest of its buffer and the text of the bytes ahead, on a
  -- source that neither fails nor gives an empty chunk, and a cipher that works byte by byte. A
  -- poll hands out a front of `out`, at most `dst_len` bytes, and none only if `dst_len` is zero
  -- or `out` is empty, or it waits; it never fails or panics, the loop ends, and the reader then
  -- owes exactly the rest.
  pub stream_poll-Delivers :
      (dst_len : ℕ) (r : DecryptedReader S) (s : List ReadEvent) (out : List ℕ)
      → Owes r s out
      → Delivers dst_len out (poll_read_decrypted S dst_len r s)
  unfolding poll_read_decrypted
  stream_poll-Delivers dst_len r s out o =
      read_loop-Delivers (rounds S s) dst_len r s out (omega arith) o

  pub new-Owes :
      (key iv : List ℕ) (s : List ReadEvent) (out : List ℕ) (c : S.Cipher)
      → IsClean s
      → S.update (S.new_decrypt key iv) (bytes s) ≡ ok (out, c)
      → Owes (new S key iv) s out
  unfolding new
  new-Owes key iv s out c cl e = owes out cl (coming out c refl e) refl
