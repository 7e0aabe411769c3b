-- ===== src/TcpRelay/Socks5Local/Ending.antt =====
-- `ignore_until_end` comes to an end.
use shadowsocks_rust.Common.{
  ℕ, zero, suc, ◌+◌, ◌≤◌, ◌==◌, ◌≡◌, refl, ap, List, [], ◌∷◌, length, take, drop, length-take,
  length-drop, arith, some, true, Bool-cases, inl, inr,
}
use shadowsocks_rust.Common.Outcome.{ok}
use shadowsocks_rust.TcpRelay.Session.{Session}
use shadowsocks_rust.TcpRelay.Socks5Local.{buffer_size, ignore_loop, ignore_until_end}

empty_of : (s : List ℕ) → (length (take buffer_size s) == 0) ≡ true → s ≡ []
empty_of [] h = refl
empty_of (b ∷ s) h = absurd (ground arith)

ignore_loop_lem :
    (fuel amt : ℕ) (s : List ℕ)
    → length s ≤ fuel
    → ignore_loop (suc fuel) amt s ≡ some (amt + length s, [])
unfolding ignore_loop
ignore_loop_lem zero amt [] h = ground arith
ignore_loop_lem zero amt (b ∷ s) h = absurd (omega arith)
ignore_loop_lem (suc fuel) amt s h = elim (Bool-cases (length (take buffer_size s) == 0)) [
  | inl e ↦ rw (empty_of s e, ignore_loop) (ground arith)
  | inr e ↦
      rw
        (
          e,
          ignore_loop_lem fuel (amt + length (take buffer_size s)) (drop buffer_size s)
              (ground (arith, h, e, length-drop buffer_size s, length-take buffer_size s)),
        )
        (ap (λ n. some (n, []))
          (omega (arith, length-drop buffer_size s, length-take buffer_size s)))
]

-- The rest of the input is read and dropped, and counted.
ignore_until_end_lem :
    (s : Session) → ignore_until_end s ≡ (ok (length s.input), record s { input = [] })
unfolding ignore_until_end
ignore_until_end_lem s =
    rw (ignore_loop_lem (length s.input) 0 s.input (omega arith))
      (ap (λ n. (ok n, record s { input = [] })) (omega arith))
