-- ===== src/TcpRelay/Polling.antt =====
-- tokio's polled reads and writes. A source is the list of what its polls will find, a sink the list of
-- how much its polls will take.
pub mod Laws
pub mod Runs
use shadowsocks_rust.Common.{ℕ, zero, suc, ◌+◌, ◌<◌, List, [], ◌∷◌, ◌++◌, length, take, drop, min}
use shadowsocks_rust.Io.{IoError}

-- `Poll<io::Result<A>>`. `panicked` is a panic; `exhausted` is no Rust value: a loop of the model ran
-- out of fuel.
pub data Polled {ℓ} (A : Type ℓ) : Type ℓ where
  pending : Polled A
  failed : IoError → Polled A
  done : A → Polled A
  panicked exhausted : Polled A

pub data ReadEvent : Type 0 where
  not_ready : ReadEvent
  chunk : List ℕ → ReadEvent
  broken : IoError → ReadEvent

abbrev pub put_back : List ℕ → List ReadEvent → List ReadEvent
put_back [] es = es
put_back (b ∷ bs) es = chunk (b ∷ bs) ∷ es

-- `poll_read` into a buffer of `n` bytes; no byte at the end of the stream.
unfoldable pub poll_read : ℕ → List ReadEvent → Polled (List ℕ) × List ReadEvent
poll_read n [] = (done [], [])
poll_read n (not_ready ∷ es) = (pending, es)
poll_read n (broken e ∷ es) = (failed e, es)
poll_read n (chunk bs ∷ es) = (done (take n bs), put_back (drop n bs) es)

-- The bytes that a source will give.
abbrev pub bytes : List ReadEvent → List ℕ
bytes [] = []
bytes (chunk bs ∷ es) = bs ++ bytes es
bytes (_ ∷ es) = bytes es

-- No failure, and no chunk that is empty, which would be read as the end.
abbrev pub IsClean : List ReadEvent → Type 0
IsClean [] = Unit {0}
IsClean (not_ready ∷ es) = IsClean es
IsClean (broken e ∷ es) = ⊥
IsClean (chunk bs ∷ es) = (0 < length bs) × IsClean es

pub data WriteEvent : Type 0 where
  not_writable : WriteEvent
  accepts : ℕ → WriteEvent
  refuses : IoError → WriteEvent

pub record Sink : Type 0 where
  pub out : List ℕ
  pub events : List WriteEvent

-- `poll_write`: how many bytes were taken.
unfoldable pub write_event : List ℕ → List ℕ → List WriteEvent → Polled ℕ × Sink
write_event bs out [] = (pending, record { out = out; events = [] })
write_event bs out (not_writable ∷ es) = (pending, record { out = out; events = es })
write_event bs out (refuses e ∷ es) = (failed e, record { out = out; events = es })
write_event bs out (accepts n ∷ es) =
    (done (min n (length bs)), record { out = out ++ take n bs; events = es })

unfoldable pub poll_write : List ℕ → Sink → Polled ℕ × Sink
unfolding write_event
poll_write bs s = write_event bs s.out s.events
