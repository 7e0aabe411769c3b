-- ===== src/TcpRelay/Polling/Runs.antt =====
-- Writes that are polled until they are done, whatever the writer.
use shadowsocks_rust.Common.{ℕ, ◌≡◌, sym, ap, ◌∙◌, subst, List, [], ◌∷◌, ◌++◌}
use shadowsocks_rust.TcpRelay.Polling.{Polled, pending, done, Sink}

module _ {W : Type 0} (poll : List ℕ → W → Sink → Polled ℕ × W × Sink) where
  -- The polls of one write until it is done: the caller passes the same bytes again after each wait.
  pub data Written (x : List ℕ) : W → Sink → W → Sink → Type 0 where
    at_once : {w w' : W} {k k' : Sink} (n : ℕ) → poll x w k ≡ (done n, w', k') → Written x w k w' k'
    retried :
        {w w1 w' : W} {k k1 k' : Sink}
        → poll x w k ≡ (pending, w1, k1)
        → Written x w1 k1 w' k'
        → Written x w k w' k'

  pub data WrittenAll : W → Sink → List (List ℕ) → W → Sink → Type 0 where
    none_left : {w : W} {k : Sink} → WrittenAll w k [] w k
    next :
        {x : List ℕ} {xs : List (List ℕ)} {w w1 w2 : W} {k k1 k2 : Sink}
        → Written x w k w1 k1
        → WrittenAll w1 k1 xs w2 k2
        → WrittenAll w k (x ∷ xs) w2 k2

-- The bytes of a sequence of writes.
abbrev pub joined : List (List ℕ) → List ℕ
joined [] = []
joined (x ∷ xs) = x ++ joined xs

-- A writer inside another one: its polls are the outer ones.
module _ {V W : Type 0} (poll : List ℕ → W → Sink → Polled ℕ × W × Sink)
    (inner : List ℕ → V → Sink → Polled ℕ × V × Sink) (Holds : W → V → Type 0)
    (polls_inner : (x : List ℕ) (w : W) (v : V) (k : Sink)
      → Holds w v
      → (poll x w k ≡ ((inner x v k).0, (poll x w k).1, (inner x v k).2))
        × Holds ((poll x w k).1) ((inner x v k).1)) where
  polled_as :
      (x : List ℕ) (w w' : W) (v : V) (k k' : Sink) (p : Polled ℕ)
      → Holds w v
      → poll x w k ≡ (p, w', k')
      → (v' : V) × (inner x v k ≡ (p, v', k')) × Holds w' v'
  polled_as x w w' v k k' p h e =
      let (same, h') = polls_inner x w v k h in
      let both = sym same ∙ e in
      (
        (inner x v k).1,
        (λ i. ((both i).0, (inner x v k).1, (both i).2)),
        subst (λ y. Holds y ((inner x v k).1)) (ap (λ y. y.1) e) h',
      )

  pub inner_Written :
      {x : List ℕ} {w w' : W} {k k' : Sink} (v : V)
      → Written poll x w k w' k'
      → Holds w v
      → (v' : V) × Written inner x v k v' k' × Holds w' v'
  inner_Written {x} {w} {w'} {k} {k'} v (at_once n e) h =
      let (v', e', h') = polled_as x w w' v k k' (done n) h e in (v', at_once n e', h')
  inner_Written {x} {w} {w'} {k} {k'} v (retried {w1 = w1} {k1 = k1} e more) h =
      let (v1, e1, h1) = polled_as x w w1 v k k1 pending h e in
      let (v', more', h') = inner_Written v1 more h1 in (v', retried e1 more', h')

  pub inner_WrittenAll :
      {xs : List (List ℕ)} {w w' : W} {k k' : Sink} (v : V)
      → WrittenAll poll w k xs w' k'
      → Holds w v
      → (v' : V) × WrittenAll inner v k xs v' k' × Holds w' v'
  inner_WrittenAll v none_left h = (v, none_left, h)
  inner_WrittenAll v (next first rest) h =
      let (v1, first', h1) = inner_Written v first h in
      let (v', rest', h') = inner_WrittenAll v1 rest h1 in (v', next first' rest', h')
