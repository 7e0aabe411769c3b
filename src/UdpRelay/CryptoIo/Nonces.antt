-- ===== src/UdpRelay/CryptoIo/Nonces.antt =====
-- The nonces that `draw_nonce` gives, and what is new to the filters.
use shadowsocks_rust.Common.{
  ℕ, ◌≡◌, refl, sym, ap, ◌∙◌, subst, List, [], ◌∷◌, ◌++◌, length, All, Bool-cases, true, false, inl,
  inr, ◌⊎◌,
}
use shadowsocks_rust.Common.Outcome.{Outcome, ok, err, panic, returned}
use shadowsocks_rust.Replay.{BloomFilter, PingPongBloom, exists, check_and_set, check_nonce_and_set}
use shadowsocks_rust.Replay.Invariant.{Inv, insert_item_lem}
use shadowsocks_rust.UdpRelay.CryptoIo.{UdpError, out_of_draws, lift, draw_nonce}
use shadowsocks_rust.Crypto.Sizes.{Backends}
use shadowsocks_rust.UdpRelay.CryptoIo.{Suite}

-- A draw of `n` bytes has `n` bytes.
abbrev pub IsDraw : (ℕ → List ℕ) → Type 0
IsDraw draw = (n : ℕ) → length (draw n) ≡ n

module _ (F : BloomFilter) where
  abbrev pub IsNew : List ℕ → PingPongBloom F → PingPongBloom F → Type 0
  IsNew nonce p q = check_nonce_and_set F nonce p ≡ ok (false, q)

  -- Every check is answered; a nonce that was seen changes nothing.
  pub answered :
      (nonce : List ℕ) (p : PingPongBloom F)
      → Inv F p
      → (check_nonce_and_set F nonce p ≡ ok (true, p))
        ⊎ ((q : PingPongBloom F) × IsNew nonce p q × Inv F q)
  unfolding check_nonce_and_set check_and_set
  answered [] p v = inr (p, refl, v)
  answered (b ∷ bs) p v = elim (Bool-cases (exists F p (b ∷ bs))) [
    | inl seen ↦ inl (rw (seen, check_and_set) refl)
    | inr fresh ↦
        let (q, ins, vq, _, _) = insert_item_lem F (b ∷ bs) p v in
        inr (q, rw (fresh, check_and_set, ins) refl, vq)
  ]

module _ (B : Backends) (F : BloomFilter) (S : Suite B) where
  -- A nonce that the loop gives has the size and was new.
  abbrev pub Drawn : ℕ → PingPongBloom F → List ℕ × PingPongBloom F → Type 0
  Drawn n p res = (length res.0 ≡ n) × IsNew F res.0 p res.1 × Inv F res.1

  -- The loop ends with a nonce that is new if one of the draws is.
  pub draw_nonce-Drawn :
      (n : ℕ) (draws : List (ℕ → List ℕ)) (p : PingPongBloom F)
      → Inv F p
      → All IsDraw draws
      → (draw_nonce B F S (ok n) draws p ≡ err out_of_draws)
        ⊎ ((res : List ℕ × PingPongBloom F) × (draw_nonce B F S (ok n) draws p ≡ ok res)
            × Drawn n p res)
  unfolding draw_nonce
  draw_nonce-Drawn n [] p v all_draws = inl refl
  draw_nonce-Drawn n (draw ∷ draws) p v (size, sizes) = elim (answered F (draw n) p v) [
    | inl seen ↦ rw (seen, draw_nonce) (draw_nonce-Drawn n draws p v sizes)
    | inr (q, fresh, vq) ↦ rw (fresh, draw_nonce) (inr ((draw n, q), refl, (size n, fresh, vq)))
  ]

  abbrev pub AnyNew : ℕ → PingPongBloom F → List (ℕ → List ℕ) → Type 0
  AnyNew n p [] = ⊥
  AnyNew n p (draw ∷ draws) = ((q : PingPongBloom F) × IsNew F (draw n) p q) ⊎ AnyNew n p draws

  -- The first draw that is new to the filters is the nonce, and those before it had been seen.
  abbrev pub FirstNew :
      ℕ → List (ℕ → List ℕ) → PingPongBloom F → Outcome UdpError (List ℕ × PingPongBloom F) → Type 0
  FirstNew n draws p res =
      (before : List (ℕ → List ℕ)) × (draw : ℕ → List ℕ) × (after : List (ℕ → List ℕ))
      × (q : PingPongBloom F) × (draws ≡ before ++ (draw ∷ after))
      × All (λ d. check_nonce_and_set F (d n) p ≡ ok (true, p)) before
      × IsNew F (draw n) p q
      × (res ≡ ok (draw n, q))

  first_here :
      (n : ℕ) (draw : ℕ → List ℕ) (draws : List (ℕ → List ℕ)) (p q : PingPongBloom F)
      → IsNew F (draw n) p q
      → FirstNew n (draw ∷ draws) p (draw_nonce B F S (ok n) (draw ∷ draws) p)
  unfolding draw_nonce
  first_here n draw draws p q fresh =
      ([], draw, draws, q, refl, tt, fresh, rw (fresh, draw_nonce) refl)

  first_later :
      (n : ℕ) (draw : ℕ → List ℕ) (draws : List (ℕ → List ℕ)) (p : PingPongBloom F)
      → check_nonce_and_set F (draw n) p ≡ ok (true, p)
      → FirstNew n draws p (draw_nonce B F S (ok n) draws p)
      → FirstNew n (draw ∷ draws) p (draw_nonce B F S (ok n) (draw ∷ draws) p)
  unfolding draw_nonce
  first_later n draw draws p seen (before, d, after, q, split, all_seen, fresh, e) = (
    draw ∷ before,
    d,
    after,
    q,
    ap (◌∷◌ draw) split,
    (seen, all_seen),
    fresh,
    rw (seen, draw_nonce) e,
  )

  -- If one of the draws is new to the filters, which are in a state that checks leave, then the
  -- loop that draws a nonce ends: with the first draw that is new, after which the filters have
  -- it, all draws before it having been seen.
  pub draw_nonce_ends :
      (n : ℕ) (draws : List (ℕ → List ℕ)) (p : PingPongBloom F)
      → Inv F p
      → AnyNew n p draws
      → FirstNew n draws p (draw_nonce B F S (ok n) draws p)
  draw_nonce_ends n [] p v h = absurd h
  draw_nonce_ends n (draw ∷ draws) p v (inl (q, fresh)) = first_here n draw draws p q fresh
  draw_nonce_ends n (draw ∷ draws) p v (inr h) = elim (answered F (draw n) p v) [
    | inl seen ↦ first_later n draw draws p seen (draw_nonce_ends n draws p v h)
    | inr (q, fresh, vq) ↦ first_here n draw draws p q fresh
  ]

  pub lift_ok :
      {A : Type 0} (m : Outcome (Unit {0}) A) (a : A) → lift {E = UdpError} m ≡ ok a → m ≡ ok a
  lift_ok (ok b) a e = cc
  lift_ok (err b) a e = cc
  lift_ok panic a e = cc

  drawn_size :
      (size : Outcome (Unit {0}) ℕ) (draws : List (ℕ → List ℕ)) (p : PingPongBloom F)
      (res : List ℕ × PingPongBloom F)
      → draw_nonce B F S size draws p ≡ ok res
      → (n : ℕ) × (size ≡ ok n)
  unfolding draw_nonce
  drawn_size size [] p res e = cc
  drawn_size size (draw ∷ draws) p res e =
      let (n, h, _) = returned (lift size) _ res e in (n, lift_ok size n h)

  pub draw_nonce-ok :
      (size : Outcome (Unit {0}) ℕ) (draws : List (ℕ → List ℕ)) (p : PingPongBloom F)
      (res : List ℕ × PingPongBloom F)
      → Inv F p
      → All IsDraw draws
      → draw_nonce B F S size draws p ≡ ok res
      → (n : ℕ) × (size ≡ ok n) × Drawn n p res
  draw_nonce-ok size draws p res v all_draws e =
      let (n, h) = drawn_size size draws p res e in
      let e' : draw_nonce B F S (ok n) draws p ≡ ok res =
        ap (λ x. draw_nonce B F S x draws p) (sym h) ∙ e in
      elim (draw_nonce-Drawn n draws p v all_draws) [
        | inl out ↦ cc
        | inr (res', f, d) ↦ (let same : res' ≡ res = cc in (n, h, subst (Drawn n p) same d))
      ]
