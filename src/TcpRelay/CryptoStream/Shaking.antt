-- ===== src/TcpRelay/CryptoStream/Shaking.antt =====
-- What the loop that reads the nonce leaves in its buffer.
use shadowsocks_rust.Common.{
  ℕ, zero, suc, ◌-◌, ◌≤◌, ◌<◌, ◌≡◌, refl, sym, ap, ◌∙◌, List, [], ◌∷◌, ◌++◌, append_assoc,
  append-nil, length, length-append, arith, leb, Bool-cases, inl, inr,
}
use shadowsocks_rust.Io.{eof_kind_error}
use shadowsocks_rust.TcpRelay.Polling.{
  Polled, pending, failed, done, panicked, exhausted, ReadEvent, bytes, IsClean,
}
use shadowsocks_rust.TcpRelay.Polling.Laws.{Reads, waits, ends, gets, poll_read-Reads}
use shadowsocks_rust.TcpRelay.CryptoStream.{fill_iv}

-- The outcomes, with `all_of` the bytes that were read and those still to come.
pub data Fills (size : ℕ) (all_of : List ℕ)
    : Polled (Unit {0}) × List ℕ × List ReadEvent → Type 0 where
  waiting :
      {buf : List ℕ} {s : List ReadEvent}
      → buf ++ bytes s ≡ all_of
      → length buf < size
      → IsClean s
      → Fills size all_of (pending, buf, s)
  filled :
      {buf : List ℕ} {s : List ReadEvent}
      → buf ++ bytes s ≡ all_of
      → length buf ≡ size
      → IsClean s
      → Fills size all_of (done tt, buf, s)
  cut :
      {buf : List ℕ} {s : List ReadEvent}
      → buf ≡ all_of
      → length buf < size
      → Fills size all_of (failed eof_kind_error, buf, s)

abbrev next_fill :
    ℕ → ℕ → List ℕ → Polled (List ℕ) × List ReadEvent → Polled (Unit {0}) × List ℕ × List ReadEvent
next_fill fuel size buf res = elim res.0 [
  | pending ↦ (pending, buf, res.1)
  | failed e ↦ (failed e, buf, res.1)
  | done bs ↦ elim bs [
    | [] ↦ (failed eof_kind_error, buf, res.1)
    | b ∷ bs' ↦ fill_iv fuel size (buf ++ (b ∷ bs')) res.1
  ]
  | panicked ↦ (panicked, buf, res.1)
  | exhausted ↦ (exhausted, buf, res.1)
]

round-Fills :
    (fuel size : ℕ) (buf : List ℕ) (s : List ReadEvent) (res : Polled (List ℕ) × List ReadEvent)
    → length buf < size
    → ((b : ℕ) (bs : List ℕ) (s' : List ReadEvent)
        → IsClean s'
        → length (b ∷ bs) ≤ size - length buf
        → Fills size ((buf ++ (b ∷ bs)) ++ bytes s') (fill_iv fuel size (buf ++ (b ∷ bs)) s'))
    → Reads (size - length buf) s res
    → Fills size (buf ++ bytes s) (next_fill fuel size buf res)
round-Fills fuel size buf s res room next (waits e cl) = waiting (ap (◌++◌ buf) e) room cl
round-Fills fuel size buf s res room next (ends e) =
    cut (sym (ap (◌++◌ buf) e ∙ append-nil buf)) room
round-Fills fuel size buf s res room next (gets {b} {bs} {s'} e few cl) =
    rw⁻¹ (append_assoc buf (b ∷ bs) (bytes s') ∙ ap (◌++◌ buf) (sym e)) (next b bs s' cl few)

pub fill_iv-Fills :
    (fuel size : ℕ) (buf : List ℕ) (s : List ReadEvent)
    → IsClean s
    → length buf ≤ size
    → size - length buf < fuel
    → Fills size (buf ++ bytes s) (fill_iv fuel size buf s)
unfolding fill_iv
fill_iv-Fills zero size buf s cl le few = absurd (omega arith)
fill_iv-Fills (suc fuel) size buf s cl le few = elim (Bool-cases (leb size (length buf))) [
  | inl full ↦ rw (full, fill_iv) (filled refl (ground arith) cl)
  | inr room ↦
      rw (room, fill_iv)
        (round-Fills fuel size buf s _ (ground arith)
          (λ b bs s' cl' few'.
            fill_iv-Fills fuel size (buf ++ (b ∷ bs)) s' cl'
              (omega (arith, length-append buf (b ∷ bs)))
              (omega (arith, length-append buf (b ∷ bs))))
          (poll_read-Reads (size - length buf) s (ground arith) cl))
]

-- Two ways to cut a list at the same place.
pub same_cut :
    (xs ys us vs : List ℕ) → xs ++ us ≡ ys ++ vs → length xs ≡ length ys → (xs ≡ ys) × (us ≡ vs)
same_cut [] [] us vs e len = (refl, e)
same_cut [] (y ∷ ys) us vs e len = absurd (omega arith)
same_cut (x ∷ xs) [] us vs e len = absurd (omega arith)
same_cut (x ∷ xs) (y ∷ ys) us vs e len =
    let heads : x ≡ y = cc in
    let tails : xs ++ us ≡ ys ++ vs = cc in
    let (front, back) = same_cut xs ys us vs tails (omega arith) in ((λ i. heads i ∷ front i), back)
