-- ===== src/Io/Exact.antt =====
-- What `read_exact` takes from a stream.
use shadowsocks_rust.Common.{
  ℕ, zero, suc, ◌<◌, ◌≡◌, refl, ap, ◌⊎◌, inl, inr, List, [], ◌∷◌, ◌++◌, arith, length,
}
use shadowsocks_rust.Common.Outcome.{ok, err}
use shadowsocks_rust.Io.{eof_error, read_exact}

-- A front of the right length is split off.
pub read_exact-append :
    (front rest : List ℕ) → read_exact (length front) (front ++ rest) ≡ ok (front, rest)
unfolding read_exact
read_exact-append [] rest = refl
read_exact-append (b ∷ front) rest = rw (read_exact-append front rest)

pub read_exact_of_length :
    (n : ℕ) (front rest : List ℕ)
    → length front ≡ n
    → read_exact n (front ++ rest) ≡ ok (front, rest)
read_exact_of_length n front rest h = rw (← h) (read_exact-append front rest)

-- Either the stream is too short, or it is the bytes read and what follows them.
pub read_exact_cases :
    (n : ℕ) (s : List ℕ)
    → ((length s < n) × (read_exact n s ≡ err eof_error))
      ⊎ ((front : List ℕ) × (rest : List ℕ) × (s ≡ front ++ rest)
          × (length front ≡ n)
          × (read_exact n s ≡ ok (front, rest)))
unfolding read_exact
read_exact_cases zero s = inr ([], s, refl, refl, refl)
read_exact_cases (suc n) [] = inl (omega arith, refl)
read_exact_cases (suc n) (b ∷ s) = elim (read_exact_cases n s) [
  | inl (h, e) ↦ inl (omega arith, rw e)
  | inr (front, rest, p, q, e) ↦ inr (b ∷ front, rest, ap (◌∷◌ b) p, ap suc q, rw e)
]

pub read_exact_short : (n : ℕ) (s : List ℕ) → length s < n → read_exact n s ≡ err eof_error
unfolding read_exact
read_exact_short zero s h = absurd (omega arith)
read_exact_short (suc n) [] h = refl
read_exact_short (suc n) (b ∷ s) h = rw (read_exact_short n s (omega arith))
