-- ===== src/TcpRelay/AeadReader/Delivery.antt =====
-- What the polls of the reader hand out of a stream of packets.
use shadowsocks_rust.Common.{
  ℕ, zero, suc, ◌+◌, ◌-◌, ◌≤◌, ◌<◌, ◌≡◌, refl, sym, ap, ◌∙◌, inl, inr, subst, List, [], ◌++◌,
  append_assoc, length, length-append, length-take, length-drop, take, drop, take-append-drop,
  drop-drop, drop_all, min, arith, leb, Bool-cases, true, false,
}
use shadowsocks_rust.Crypto.{AeadCipher}
use shadowsocks_rust.TcpRelay.Polling.{
  pending, failed, done, panicked, exhausted, ReadEvent, bytes, IsClean,
}
use shadowsocks_rust.TcpRelay.AeadReader.{
  DecryptedReader, DecryptReadStep, reading_length, reading_data, new, Polls, refill, copy_out,
  read_loop, rounds, poll_read_decrypted,
}
use shadowsocks_rust.TcpRelay.AeadReader.Framing.{
  Framed, Upcoming, State, weight, measure, Refilled, paused, moved, finished, refill-Refilled,
}

module _ (C : AeadCipher) where
  open C use {new_dec, tag_size}

  -- `out` is what the reader still has to hand out: the rest of its plain text, then the packets ahead.
  pub data Owes (r : DecryptedReader C) (s : List ReadEvent) (out : List ℕ) : Type 0 where
    owes :
        (q : List ℕ)
        → State C r s q
        → out ≡ drop r.pos r.plain ++ q
        → (r.got_final ≡ true → q ≡ [])
        → Owes r s out

  pub data Delivers (dst_len : ℕ) (out : List ℕ) : Polls C (List ℕ) → Type 0 where
    waits :
        {r' : DecryptedReader C} {s' : List ReadEvent}
        → Owes r' s' out
        → Delivers dst_len out (pending, r', s')
    gives :
        {r' : DecryptedReader C} {s' : List ReadEvent} (bs out' : List ℕ)
        → out ≡ bs ++ out'
        → length bs ≤ dst_len
        → (0 < dst_len → bs ≡ [] → out ≡ [])
        → Owes r' s' out'
        → Delivers dst_len out (done bs, r', s')

  Upcoming-pos :
      (st : DecryptReadStep) (r : DecryptedReader C) (s : List ReadEvent) (q : List ℕ) (pos : ℕ)
      → Upcoming C st r s q
      → Upcoming C st (record r { pos = pos }) s q
  Upcoming-pos reading_length r s q pos h = h
  Upcoming-pos (reading_data n) r s q pos h = h

  not_nil : (xs : List ℕ) → 0 < length xs → xs ≡ [] → ⊥
  not_nil xs h e = omega (arith, ap length e)

  copy_out-Delivers :
      (dst_len : ℕ) (r : DecryptedReader C) (s : List ReadEvent) (out : List ℕ)
      → r.pos < length r.plain
      → Owes r s out
      → Delivers dst_len out (copy_out C dst_len r s)
  unfolding copy_out
  copy_out-Delivers dst_len r s out lt (owes q (cl, up) e final) =
      let n : ℕ = min dst_len (length r.plain - r.pos) in
      let left : List ℕ = drop r.pos r.plain in
      let taken : length (take n left) ≡ min n (length left) = length-take n left in
      let there : length left ≡ length r.plain - r.pos = length-drop r.pos r.plain in
      gives (take n left) (drop (r.pos + n) r.plain ++ q)
        (rw⁻¹ (drop-drop r.pos n r.plain) (
          e
          ∙ ap (λ y. y ++ q) (sym (take-append-drop n left))
          ∙ append_assoc (take n left) (drop n left) q))
        (omega arith) (λ pos nil. absurd (not_nil (take n left) (omega arith) nil))
        (owes q (cl, Upcoming-pos r.steps r s q (r.pos + n) up) refl final)

  read_loop_final :
      (dst_len fuel : ℕ) (r : DecryptedReader C) (s : List ReadEvent)
      → leb (length r.plain) r.pos ≡ true
      → r.got_final ≡ true
      → read_loop C (suc fuel) dst_len r s ≡ (done [], r, s)
  unfolding read_loop
  read_loop_final dst_len fuel r s le fin = simp (le, fin, read_loop)

  at_end-Delivers :
      (dst_len fuel : ℕ) (r : DecryptedReader C) (s : List ReadEvent)
      → leb (length r.plain) r.pos ≡ true
      → r.got_final ≡ true
      → State C r s []
      → Delivers dst_len [] (read_loop C (suc fuel) dst_len r s)
  at_end-Delivers dst_len fuel r s le fin st =
      let nothing : [] ≡ drop r.pos r.plain ++ [] =
        sym (ap (λ y. y ++ []) (drop_all r.pos r.plain (ground arith))) in
      rw (read_loop_final dst_len fuel r s le fin)
        (gives [] [] refl (omega arith) (λ pos nil. refl) (owes [] st nothing (λ h. refl)))

  nothing_left :
      (r r' : DecryptedReader C) (q : List ℕ)
      → leb (length r.plain) r.pos ≡ true
      → r'.plain ≡ r.plain
      → r'.pos ≡ r.pos
      → q ≡ drop r'.pos r'.plain ++ q
  nothing_left r r' q le pl po =
      let fits : length r'.plain ≤ r'.pos = ground (arith, ap length pl) in
      sym (ap (λ y. y ++ q) (drop_all r'.pos r'.plain fits))

  round-Delivers :
      (fuel dst_len : ℕ) (r : DecryptedReader C) (s : List ReadEvent) (q : List ℕ)
      (res : Polls C (Unit {0}))
      → leb (length r.plain) r.pos ≡ true
      → r.got_final ≡ false
      → measure C r s + 1 ≤ fuel
      → ((r' : DecryptedReader C) (s' : List ReadEvent)
          → measure C r' s' + 2 ≤ fuel
          → Owes r' s' q
          → Delivers dst_len q (read_loop C fuel dst_len r' s'))
      → Refilled C r s q res
      → Delivers dst_len q (elim res.0 [
        | done _ ↦ read_loop C fuel dst_len res.1 res.2
        | pending ↦ (pending, res.1, res.2)
        | failed e ↦ (failed e, res.1, res.2)
        | panicked ↦ (panicked, res.1, res.2)
        | exhausted ↦ (exhausted, res.1, res.2)
      ])
  round-Delivers fuel dst_len r s q res le open_ few next (paused {r'} {s'} pl po fin st) =
      waits (owes q st (nothing_left r r' q le pl po) (λ h. cc))
  round-Delivers fuel dst_len r s q res le open_ few next (moved {r'} {s'} q' e fin st less) =
      next r' s' (omega arith) (owes q' st e (λ h. cc))
  round-Delivers zero dst_len r s q res le open_ few next (finished e fin pl po st) =
      absurd (omega arith)
  round-Delivers (suc fuel) dst_len r s q res le open_ few next
        (finished {r'} {s'} e fin pl po st) =
      let st' : State C r' s' [] = subst (State C r' s') e st in
      let le' : leb (length r'.plain) r'.pos ≡ true = ground (arith, ap length pl) in
      subst (λ x. Delivers dst_len x (read_loop C (suc fuel) dst_len r' s')) (sym e)
        (at_end-Delivers dst_len fuel r' s' le' fin st')

  read_loop_refills :
      (dst_len fuel : ℕ) (r : DecryptedReader C) (s : List ReadEvent)
      → leb (length r.plain) r.pos ≡ true
      → r.got_final ≡ false
      → read_loop C (suc fuel) dst_len r s ≡ (
          let res = refill C r.steps r s in
          elim res.0 [
            | done _ ↦ read_loop C fuel dst_len res.1 res.2
            | pending ↦ (pending, res.1, res.2)
            | failed e ↦ (failed e, res.1, res.2)
            | panicked ↦ (panicked, res.1, res.2)
            | exhausted ↦ (exhausted, res.1, res.2)
          ])
  unfolding read_loop
  read_loop_refills dst_len fuel r s le open_ = simp (le, open_, read_loop)

  read_loop_copies :
      (dst_len fuel : ℕ) (r : DecryptedReader C) (s : List ReadEvent)
      → leb (length r.plain) r.pos ≡ false
      → read_loop C (suc fuel) dst_len r s ≡ copy_out C dst_len r s
  unfolding read_loop
  read_loop_copies dst_len fuel r s gt = simp (gt, read_loop)

  refills-Delivers :
      (fuel dst_len : ℕ) (r : DecryptedReader C) (s : List ReadEvent) (out : List ℕ)
      → leb (length r.plain) r.pos ≡ true
      → measure C r s + 1 ≤ fuel
      → ((r' : DecryptedReader C) (s' : List ReadEvent) (out' : List ℕ)
          → measure C r' s' + 2 ≤ fuel
          → Owes r' s' out'
          → Delivers dst_len out' (read_loop C fuel dst_len r' s'))
      → Owes r s out
      → Delivers dst_len out (read_loop C (suc fuel) dst_len r s)
  refills-Delivers fuel dst_len r s out le few next (owes q (cl, up) e final) =
      let same : q ≡ out = sym (e ∙ ap (λ y. y ++ q) (drop_all r.pos r.plain (ground arith))) in
      subst (λ x. Delivers dst_len x (read_loop C (suc fuel) dst_len r s)) same
        (elim (Bool-cases r.got_final) [
          | inl fin ↦
              subst (λ x. Delivers dst_len x (read_loop C (suc fuel) dst_len r s)) (sym (final fin))
                (at_end-Delivers dst_len fuel r s le fin (subst (State C r s) (final fin) (cl, up)))
          | inr open_ ↦
              subst (Delivers dst_len q) (sym (read_loop_refills dst_len fuel r s le open_)) (
                round-Delivers fuel dst_len r s q _ le open_ few (λ r' s' f o. next r' s' q f o)
                  (refill-Refilled C r s q r.steps refl open_ cl up))
        ])

  read_loop-Delivers :
      (fuel dst_len : ℕ) (r : DecryptedReader C) (s : List ReadEvent) (out : List ℕ)
      → measure C r s + 2 ≤ fuel
      → Owes r s out
      → Delivers dst_len out (read_loop C fuel dst_len r s)
  read_loop-Delivers zero dst_len r s out few o = absurd (omega arith)
  read_loop-Delivers (suc fuel) dst_len r s out few o =
      elim (Bool-cases (leb (length r.plain) r.pos)) [
        | inr gt ↦
            rw (read_loop_copies dst_len fuel r s gt)
              (copy_out-Delivers dst_len r s out (ground arith) o)
        | inl le ↦
            refills-Delivers fuel dst_len r s out le (omega arith)
              (λ r' s' out' f o'. read_loop-Delivers fuel dst_len r' s' out' f o') o
      ]

  weight_le : (st : DecryptReadStep) → weight C st ≤ 1
  weight_le reading_length = omega arith
  weight_le (reading_data n) = omega arith

  -- Take a reader that owes the bytes `out`, the rest of its plain text and the texts of the
  -- packets ahead, on a source that neither fails nor gives an empty chunk. A poll hands out a
  -- front of `out`, at most `dst_len` bytes, and none only if `dst_len` is zero or `out` is
  -- empty, or it waits; it never fails or panics, the loop ends, and the reader then owes
  -- exactly the rest.
  pub poll_read_decrypted-Delivers :
      (dst_len : ℕ) (r : DecryptedReader C) (s : List ReadEvent) (out : List ℕ)
      → Owes r s out
      → Delivers dst_len out (poll_read_decrypted C dst_len r s)
  unfolding poll_read_decrypted
  poll_read_decrypted-Delivers dst_len r s out o =
      read_loop-Delivers (rounds C r s) dst_len r s out
        (omega (arith, weight_le r.steps, length-append r.buffer (bytes s))) o

  pub new-Owes :
      (key salt : List ℕ) (s : List ReadEvent) (out : List ℕ)
      → IsClean s
      → Framed C (new_dec key salt) (bytes s) out
      → Owes (new C key salt) s out
  unfolding new
  new-Owes key salt s out cl f = owes out (cl, (f, omega arith)) refl (λ h. cc)
