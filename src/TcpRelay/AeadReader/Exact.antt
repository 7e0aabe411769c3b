-- ===== src/TcpRelay/AeadReader/Exact.antt =====
-- What `poll_read_exact` leaves in the buffer of the reader.
use shadowsocks_rust.Common.{
  ℕ, zero, suc, ◌+◌, ◌-◌, ◌≤◌, ◌<◌, ◌≡◌, refl, sym, ap, ◌∙◌, ◌⊎◌, List, [], ◌∷◌, ◌++◌, append_assoc,
  append-nil, length, length-append, arith, leb, Bool, true, false, not, ◌&&◌, Bool-cases, inl, inr,
}
use shadowsocks_rust.Io.{eof_kind_error}
use shadowsocks_rust.Crypto.{AeadCipher}
use shadowsocks_rust.TcpRelay.Polling.{
  Polled, pending, failed, done, panicked, exhausted, ReadEvent, bytes, IsClean,
}
use shadowsocks_rust.TcpRelay.Polling.Laws.{Reads, waits, ends, gets, poll_read-Reads}
use shadowsocks_rust.TcpRelay.AeadReader.{DecryptedReader, Polls, poll_read_exact, at_end, is_nil}

module _ (C : AeadCipher) where
  -- The bytes that the reader holds in its buffer and those still to come.
  abbrev pub ahead : DecryptedReader C → List ReadEvent → List ℕ
  ahead r s = r.buffer ++ bytes s

  pub data Fills (size : ℕ) (allow_eof : Bool) (r : DecryptedReader C) (s : List ReadEvent)
      : Polls C (Unit {0}) → Type 0 where
    waiting :
        {buf : List ℕ} {s' : List ReadEvent}
        → buf ++ bytes s' ≡ ahead r s
        → length buf < size
        → IsClean s'
        → Fills size allow_eof r s (pending, record r { buffer = buf }, s')
    filled :
        {buf : List ℕ} {s' : List ReadEvent}
        → buf ++ bytes s' ≡ ahead r s
        → length buf ≡ size
        → IsClean s'
        → Fills size allow_eof r s (done tt, record r { buffer = buf }, s')
    ended :
        {s' : List ReadEvent}
        → allow_eof ≡ true
        → r.got_final ≡ false
        → r.buffer ≡ []
        → ahead r s ≡ []
        → bytes s' ≡ []
        → IsClean s'
        → Fills size allow_eof r s (done tt, record r { got_final = true }, s')
    cut :
        {buf : List ℕ} {s' : List ReadEvent}
        → buf ≡ ahead r s
        → length buf < size
        → (allow_eof ≡ false) ⊎ ((r.got_final ≡ true) ⊎ (0 < length buf))
        → Fills size allow_eof r s (failed eof_kind_error, record r { buffer = buf }, s')

  append-cons_ne_nil : (xs : List ℕ) (b : ℕ) (bs : List ℕ) → xs ++ (b ∷ bs) ≡ [] → ⊥
  append-cons_ne_nil [] b bs e = cc
  append-cons_ne_nil (x ∷ xs) b bs e = cc

  -- A round that got bytes, and the rounds after it.
  Fills-more :
      (size : ℕ) (allow_eof : Bool) (r : DecryptedReader C) (s s' : List ReadEvent) (b : ℕ)
      (bs : List ℕ) (res : Polls C (Unit {0}))
      → ahead (record r { buffer = r.buffer ++ (b ∷ bs) }) s' ≡ ahead r s
      → Fills size allow_eof (record r { buffer = r.buffer ++ (b ∷ bs) }) s' res
      → Fills size allow_eof r s res
  Fills-more size allow_eof r s s' b bs res same (waiting e lt cl) = waiting (e ∙ same) lt cl
  Fills-more size allow_eof r s s' b bs res same (filled e len cl) = filled (e ∙ same) len cl
  Fills-more size allow_eof r s s' b bs res same (ended a g nil e n cl) =
      absurd (append-cons_ne_nil r.buffer b bs nil)
  Fills-more size allow_eof r s s' b bs res same (cut e lt why) = cut (e ∙ same) lt why

  nil_of_is_nil : (xs : List ℕ) → is_nil xs ≡ true → xs ≡ []
  nil_of_is_nil [] h = refl
  nil_of_is_nil (x ∷ xs) h = cc

  pos_of_not_nil : (xs : List ℕ) → is_nil xs ≡ false → 0 < length xs
  pos_of_not_nil [] h = cc
  pos_of_not_nil (x ∷ xs) h = omega arith

  why_cut :
      (allow_eof : Bool) (r : DecryptedReader C)
      → (is_nil r.buffer && (allow_eof && not r.got_final)) ≡ false
      → (allow_eof ≡ false) ⊎ ((r.got_final ≡ true) ⊎ (0 < length r.buffer))
  why_cut allow_eof r h = ground (arith, pos_of_not_nil r.buffer)

  at_end-Fills :
      (size : ℕ) (allow_eof : Bool) (r : DecryptedReader C) (s : List ReadEvent)
      → bytes s ≡ []
      → length r.buffer < size
      → Fills size allow_eof r s (at_end C allow_eof r [])
  unfolding at_end
  at_end-Fills size allow_eof r s hs lt =
      elim (Bool-cases (is_nil r.buffer && (allow_eof && not r.got_final))) [
        | inl e ↦
            let nil : r.buffer ≡ [] = nil_of_is_nil r.buffer (ground arith) in
            rw (e, at_end)
              (ended (ground arith) (ground arith) nil (ap (λ b. b ++ bytes s) nil ∙ hs) refl tt)
        | inr e ↦
            rw (e, at_end)
              (cut (sym (ap (◌++◌ r.buffer) hs ∙ append-nil r.buffer)) lt (why_cut allow_eof r e))
      ]

  -- What a round does with what its read found, given that the rounds after it are right.
  round-Fills :
      (fuel size : ℕ) (allow_eof : Bool) (r : DecryptedReader C) (s : List ReadEvent)
      (res : Polled (List ℕ) × List ReadEvent)
      → length r.buffer < size
      → size - length r.buffer < suc fuel
      → ((r' : DecryptedReader C) (s' : List ReadEvent)
          → IsClean s'
          → length r'.buffer ≤ size
          → size - length r'.buffer < fuel
          → Fills size allow_eof r' s' (poll_read_exact C fuel size allow_eof r' s'))
      → Reads (size - length r.buffer) s res
      → Fills size allow_eof r s (elim res.0 [
        | pending ↦ (pending, r, res.1)
        | failed e ↦ (failed e, r, res.1)
        | done bs ↦ elim bs [
          | [] ↦ at_end C allow_eof r res.1
          | b ∷ bs' ↦
              poll_read_exact C fuel size allow_eof
                (record r { buffer = r.buffer ++ (b ∷ bs') })
                res.1
        ]
        | panicked ↦ (panicked, r, res.1)
        | exhausted ↦ (exhausted, r, res.1)
      ])
  round-Fills fuel size allow_eof r s res room lt next (waits e cl') =
      waiting (ap (◌++◌ r.buffer) e) room cl'
  round-Fills fuel size allow_eof r s res room lt next (ends e) =
      at_end-Fills size allow_eof r s e room
  round-Fills fuel size allow_eof r s res room lt next (gets {b} {bs} {s'} e few cl') =
      let len : length (r.buffer ++ (b ∷ bs)) ≡ length r.buffer + length (b ∷ bs) =
        length-append r.buffer (b ∷ bs) in
      Fills-more size allow_eof r s s' b bs _
        (append_assoc r.buffer (b ∷ bs) (bytes s') ∙ ap (◌++◌ r.buffer) (sym e))
        (next (record r { buffer = r.buffer ++ (b ∷ bs) }) s' cl' (omega arith) (omega arith))

  pub poll_read_exact-Fills :
      (fuel size : ℕ) (allow_eof : Bool) (r : DecryptedReader C) (s : List ReadEvent)
      → IsClean s
      → length r.buffer ≤ size
      → size - length r.buffer < fuel
      → Fills size allow_eof r s (poll_read_exact C fuel size allow_eof r s)
  unfolding poll_read_exact
  poll_read_exact-Fills zero size allow_eof r s cl le lt = absurd (omega arith)
  poll_read_exact-Fills (suc fuel) size allow_eof r s cl le lt =
      elim (Bool-cases (leb size (length r.buffer))) [
        | inl full ↦ rw (full, poll_read_exact) (filled refl (ground arith) cl)
        | inr room ↦
            rw (room, poll_read_exact)
              (round-Fills fuel size allow_eof r s _ (ground arith) lt
                (λ r' s' cl' le' lt'. poll_read_exact-Fills fuel size allow_eof r' s' cl' le' lt')
                (poll_read-Reads (size - length r.buffer) s (ground arith) cl))
      ]
