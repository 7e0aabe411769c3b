-- ===== src/TcpRelay/Draining.antt =====
-- The loop of relay/tcprelay/stream.rs that writes a buffer out from a position in it.
use shadowsocks_rust.Common.{
  ℕ, zero, suc, ◌+◌, ◌-◌, ◌≤◌, ◌<◌, ◌==◌, ◌≡◌, sym, ap, ◌∙◌, inl, inr, List, ◌++◌, append_assoc,
  append-nil, length, length-drop, take, drop, take-append-drop, drop-drop, drop_all, arith, ltb,
  Bool-cases, true, false,
}
use shadowsocks_rust.Io.{IoError, eof_kind_error}
use shadowsocks_rust.TcpRelay.Polling.{
  Polled, pending, failed, done, panicked, exhausted, Sink, poll_write,
}
use shadowsocks_rust.TcpRelay.Polling.Laws.{Takes, holds, breaks, accepted, poll_write-Takes}

-- The result, with the position and the sink behind it. Each round that goes on wrote a byte at least.
unfoldable pub write_rest : ℕ → List ℕ → ℕ → Sink → Polled (Unit {0}) × ℕ × Sink
write_rest zero buf pos k = (exhausted, pos, k)
write_rest (suc fuel) buf pos k = elim (ltb pos (length buf)) [
  | false ↦ (done tt, pos, k)
  | true ↦
      let (p, k') = poll_write (drop pos buf) k in
      elim p [
        | pending ↦ (pending, pos, k')
        | failed e ↦ (failed e, pos, k')
        | done n ↦ elim (n == 0) [
          | true ↦ (failed eof_kind_error, pos, k')
          | false ↦ write_rest fuel buf (pos + n) k'
        ]
        | panicked ↦ (panicked, pos, k')
        | exhausted ↦ (exhausted, pos, k')
      ]
]

-- A loop that owes the sink what is missing of `sent`.
pub data Drains (buf sent : List ℕ) : Polled (Unit {0}) × ℕ × Sink → Type 0 where
  stuck :
      {k' : Sink} (pos : ℕ)
      → pos < length buf
      → k'.out ++ drop pos buf ≡ sent
      → Drains buf sent (pending, pos, k')
  drained : {k' : Sink} (pos : ℕ) → k'.out ≡ sent → Drains buf sent (done tt, pos, k')
  torn :
      {k' : Sink} (e : IoError) (pos : ℕ)
      → pos < length buf
      → k'.out ++ drop pos buf ≡ sent
      → Drains buf sent (failed e, pos, k')

abbrev next_write : ℕ → List ℕ → ℕ → Polled ℕ × Sink → Polled (Unit {0}) × ℕ × Sink
next_write fuel buf pos res = elim res.0 [
  | pending ↦ (pending, pos, res.1)
  | failed e ↦ (failed e, pos, res.1)
  | done n ↦ elim (n == 0) [
    | true ↦ (failed eof_kind_error, pos, res.1)
    | false ↦ write_rest fuel buf (pos + n) res.1
  ]
  | panicked ↦ (panicked, pos, res.1)
  | exhausted ↦ (exhausted, pos, res.1)
]

all_written :
    (fuel : ℕ) (buf : List ℕ) (pos : ℕ) (k : Sink)
    → ltb pos (length buf) ≡ false
    → write_rest (suc fuel) buf pos k ≡ (done tt, pos, k)
unfolding write_rest
all_written fuel buf pos k h = simp (h, write_rest)

writes_on :
    (fuel : ℕ) (buf : List ℕ) (pos : ℕ) (k : Sink)
    → ltb pos (length buf) ≡ true
    → write_rest (suc fuel) buf pos k ≡ next_write fuel buf pos (poll_write (drop pos buf) k)
unfolding write_rest
writes_on fuel buf pos k h = simp (h, write_rest)

-- What is out and what is left, after `n` more bytes.
advanced :
    (buf out out' : List ℕ) (pos n : ℕ)
    → out' ≡ out ++ take n (drop pos buf)
    → out' ++ drop (pos + n) buf ≡ out ++ drop pos buf
advanced buf out out' pos n e =
    ap (λ y. y ++ drop (pos + n) buf) e
    ∙ append_assoc out (take n (drop pos buf)) (drop (pos + n) buf)
    ∙ ap (λ y. out ++ (take n (drop pos buf) ++ y)) (sym (drop-drop pos n buf))
    ∙ ap (◌++◌ out) (take-append-drop n (drop pos buf))

wrote_none :
    (buf out out' : List ℕ) (pos n : ℕ)
    → n ≡ 0
    → out' ++ drop (pos + n) buf ≡ out ++ drop pos buf
    → out' ++ drop pos buf ≡ out ++ drop pos buf
wrote_none buf out out' pos n z e = ap (λ m. out' ++ drop m buf) same ∙ e
  where
    same : pos ≡ pos + n
    same = omega arith

round-Drains :
    (fuel : ℕ) (buf : List ℕ) (pos : ℕ) (k : Sink) (res : Polled ℕ × Sink)
    → pos < length buf
    → ((n : ℕ) (k' : Sink)
        → 0 < n
        → pos + n ≤ length buf
        → Drains buf (k'.out ++ drop (pos + n) buf) (write_rest fuel buf (pos + n) k'))
    → Takes (drop pos buf) k res
    → Drains buf (k.out ++ drop pos buf) (next_write fuel buf pos res)
round-Drains fuel buf pos k res room next (holds e) = stuck pos room (ap (λ y. y ++ drop pos buf) e)
round-Drains fuel buf pos k res room next (breaks er e) =
    torn er pos room (ap (λ y. y ++ drop pos buf) e)
round-Drains fuel buf pos k res room next (accepted {k'} n fits e) =
    let on = advanced buf k.out k'.out pos n e in
    elim (Bool-cases (n == 0)) [
      | inl z ↦
          rw (z, next_write)
            (torn eof_kind_error pos room (wrote_none buf k.out k'.out pos n (ground arith) on))
      | inr nz ↦
          rw (nz, next_write)
            (rw⁻¹ (on) (next n k' (ground arith) (omega (arith, length-drop pos buf))))
    ]

pub write_rest-Drains :
    (fuel : ℕ) (buf : List ℕ) (pos : ℕ) (k : Sink)
    → pos ≤ length buf
    → length buf - pos < fuel
    → Drains buf (k.out ++ drop pos buf) (write_rest fuel buf pos k)
write_rest-Drains zero buf pos k le few = absurd (omega arith)
write_rest-Drains (suc fuel) buf pos k le few = elim (Bool-cases (ltb pos (length buf))) [
  | inl lt ↦ rw (writes_on fuel buf pos k lt) (
      round-Drains fuel buf pos k _ (ground arith)
        (λ n k' hn fits. write_rest-Drains fuel buf (pos + n) k' fits (omega arith))
        (poll_write-Takes (drop pos buf) k))
  | inr ge ↦
      rw (all_written fuel buf pos k ge)
        (drained pos (sym (ap (◌++◌ k.out) (drop_all pos buf (ground arith)) ∙ append-nil k.out)))
]
