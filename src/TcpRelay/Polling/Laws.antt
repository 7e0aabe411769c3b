-- ===== src/TcpRelay/Polling/Laws.antt =====
-- What a polled read of a clean source finds.
use shadowsocks_rust.Common.{
  ℕ, zero, suc, ◌≤◌, ◌<◌, ◌≡◌, refl, sym, ap, ◌∙◌, List, [], ◌∷◌, ◌++◌, append_assoc, length, take,
  drop, take-append-drop, length-take, arith, min,
}
use shadowsocks_rust.Io.{IoError}
use shadowsocks_rust.TcpRelay.Polling.{
  Polled, pending, failed, done, ReadEvent, not_ready, chunk, broken, put_back, poll_read, bytes,
  IsClean, Sink, WriteEvent, not_writable, accepts, refuses, poll_write, write_event,
}

pub bytes-put_back : (bs : List ℕ) (es : List ReadEvent) → bytes (put_back bs es) ≡ bs ++ bytes es
bytes-put_back [] es = refl
bytes-put_back (b ∷ bs) es = refl

put_back-IsClean : (bs : List ℕ) (es : List ReadEvent) → IsClean es → IsClean (put_back bs es)
put_back-IsClean [] es h = h
put_back-IsClean (b ∷ bs) es h = (omega arith, h)

-- The outcomes of a read into a buffer that is not empty.
pub data Reads (n : ℕ) (s : List ReadEvent) : Polled (List ℕ) × List ReadEvent → Type 0 where
  waits : {s' : List ReadEvent} → bytes s' ≡ bytes s → IsClean s' → Reads n s (pending, s')
  ends : bytes s ≡ [] → Reads n s (done [], [])
  gets :
      {b : ℕ} {bs : List ℕ} {s' : List ReadEvent}
      → bytes s ≡ (b ∷ bs) ++ bytes s'
      → length (b ∷ bs) ≤ n
      → IsClean s'
      → Reads n s (done (b ∷ bs), s')

gets_chunk :
    (n : ℕ) (bs : List ℕ) (es : List ReadEvent)
    → 0 < n
    → 0 < length bs
    → IsClean es
    → Reads n (chunk bs ∷ es) (done (take n bs), put_back (drop n bs) es)
gets_chunk zero bs es hn hb h = absurd (omega arith)
gets_chunk (suc n) [] es hn hb h = absurd (omega arith)
gets_chunk (suc n) (b ∷ bs) es hn hb h =
    gets
      (rw (bytes-put_back (drop n bs) es) (
        ap (λ xs. b ∷ (xs ++ bytes es)) (sym (take-append-drop n bs))
        ∙ ap (◌∷◌ b) (append_assoc (take n bs) (drop n bs) (bytes es))))
      (omega (arith, length-take n bs)) (put_back-IsClean (drop n bs) es h)

pub poll_read-Reads : (n : ℕ) (s : List ReadEvent) → 0 < n → IsClean s → Reads n s (poll_read n s)
unfolding poll_read
poll_read-Reads n [] hn h = ends refl
poll_read-Reads n (not_ready ∷ es) hn h = waits refl h
poll_read-Reads n (broken e ∷ es) hn h = absurd h
poll_read-Reads n (chunk bs ∷ es) hn h = gets_chunk n bs es hn h.0 h.1

-- The outcomes of a write: what was taken is a prefix, appended to what was written before.
pub data Takes (bs : List ℕ) (k : Sink) : Polled ℕ × Sink → Type 0 where
  holds : {k' : Sink} → k'.out ≡ k.out → Takes bs k (pending, k')
  breaks : {k' : Sink} (e : IoError) → k'.out ≡ k.out → Takes bs k (failed e, k')
  accepted :
      {k' : Sink} (n : ℕ) → n ≤ length bs → k'.out ≡ k.out ++ take n bs → Takes bs k (done n, k')

take-min : (n : ℕ) (xs : List ℕ) → take (min n (length xs)) xs ≡ take n xs
take-min zero xs = ap (λ m. take m xs) none_taken
  where
    none_taken : min 0 (length xs) ≡ 0
    none_taken = omega arith
take-min (suc n) [] = ap (λ m. take {A = ℕ} m []) none_taken
  where
    none_taken : min (suc n) 0 ≡ 0
    none_taken = omega arith
take-min (suc n) (x ∷ xs) = ap (λ m. take m (x ∷ xs)) more ∙ ap (◌∷◌ x) (take-min n xs)
  where
    more : min (suc n) (suc (length xs)) ≡ suc (min n (length xs))
    more = omega arith

write_event-Takes :
    (bs out : List ℕ) (es : List WriteEvent)
    → Takes bs (record { out = out; events = es }) (write_event bs out es)
unfolding write_event
write_event-Takes bs out [] = holds refl
write_event-Takes bs out (not_writable ∷ es) = holds refl
write_event-Takes bs out (refuses e ∷ es) = breaks e refl
write_event-Takes bs out (accepts n ∷ es) =
    accepted (min n (length bs)) (omega arith) (ap (◌++◌ out) (sym (take-min n bs)))

pub poll_write-Takes : (bs : List ℕ) (k : Sink) → Takes bs k (poll_write bs k)
unfolding poll_write
poll_write-Takes bs k = write_event-Takes bs k.out k.events
