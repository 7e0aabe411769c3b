-- ===== src/Replay/Memory.antt =====
-- How long a nonce is remembered.
use shadowsocks_rust.Common.{
  ℕ, zero, suc, ◌+◌, ◌*◌, ◌≤◌, ◌<◌, ◌≡◌, ◌≢◌, refl, subst, List, [], ◌∷◌, Bool, true, false, ◌||◌,
  arith, Bool-cases, inl, inr, ◌⊎◌, length,
}
use shadowsocks_rust.Common.Outcome.{ok}
use shadowsocks_rust.Replay.{
  BloomFilter, PingPongBloom, ConfigType, new, check_and_set, check_nonce_and_set, check_all,
  exists,
}
use shadowsocks_rust.Replay.Invariant.{
  Inv, new-Inv, cur_bloom, kept_bloom, cur_count, Turn, stays, swaps, insert_item_lem,
}

module _ (B : BloomFilter) where
  open B use {check, check-put_self, check-put_mono, check-new}

  -- `x` is found now and after each of `k` further insertions.
  abbrev Holds : List ℕ → PingPongBloom B → ℕ → Type 0
  Holds x p k =
      ((check (cur_bloom B p) x ≡ true) × (k + cur_count B p ≤ 2 * p.item_count))
      ⊎ ((check (kept_bloom B p) x ≡ true) × (k + cur_count B p ≤ p.item_count))

  Turn-Holds :
      (x buf : List ℕ) (p q : PingPongBloom B) (k : ℕ)
      → q.item_count ≡ p.item_count
      → Turn B buf p q
      → Holds x p (suc k)
      → Holds x q k
  Turn-Holds x buf p q k same (stays lt up put kept) (inl (h, b)) =
      inl (rw put (check-put_mono (cur_bloom B p) x buf h), omega arith)
  Turn-Holds x buf p q k same (stays lt up put kept) (inr (h, b)) = inr (rw kept h, omega arith)
  Turn-Holds x buf p q k same (swaps full one put kept) (inl (h, b)) = inr (rw kept h, omega arith)
  Turn-Holds x buf p q k same (swaps full one put kept) (inr (h, b)) = absurd (omega arith)

  Holds-exists :
      (x : List ℕ) (k : ℕ) (p : PingPongBloom B) → Inv B p → Holds x p k → exists B p x ≡ true
  Holds-exists x k p v h = go p.current p.blooms.at0 p.blooms.at1 v.slot (weaken h)
    where
      weaken : Holds x p k → (check (cur_bloom B p) x ≡ true) ⊎ (check (kept_bloom B p) x ≡ true)
      weaken (inl (a, _)) = inl a
      weaken (inr (a, _)) = inr a

      go :
          (c : ℕ) (b0 b1 : B.Bloom)
          → c < 2
          → (check (elim c [ zero ↦ b0 | suc _ ↦ b1 ]) x ≡ true)
            ⊎ (check (elim c [ zero ↦ b1 | suc _ ↦ b0 ]) x ≡ true)
          → (check b0 x || check b1 x) ≡ true
      go zero b0 b1 lt e = ground arith
      go (suc c) b0 b1 lt e = ground arith

  -- One nonce: it is answered, and what is remembered is remembered for one insertion less.
  abbrev Checked : List ℕ → PingPongBloom B → Type 0
  Checked buf p =
      (seen : Bool) × (q : PingPongBloom B) × (check_nonce_and_set B buf p ≡ ok (seen, q))
      × Inv B q
      × (q.item_count ≡ p.item_count)
      × ((x : List ℕ) (k : ℕ) → Holds x p (suc k) → Holds x q k)

  at_most : (x : List ℕ) (p : PingPongBloom B) (j k : ℕ) → j ≤ k → Holds x p k → Holds x p j
  at_most x p j k le (inl (h, b)) = inl (h, omega arith)
  at_most x p j k le (inr (h, b)) = inr (h, omega arith)

  check_and_set_lem : (buf : List ℕ) (p : PingPongBloom B) → Inv B p → Checked buf p
  unfolding check_nonce_and_set check_and_set
  check_and_set_lem [] p v = (false, p, refl, v, refl, λ x k. at_most x p k (suc k) (omega arith))
  check_and_set_lem (b ∷ bs) p v = elim (Bool-cases (exists B p (b ∷ bs))) [
    | inl e ↦ (true, p, rw e, v, refl, λ x k. at_most x p k (suc k) (omega arith))
    | inr e ↦
        let (q, ins, vq, same, turn) = insert_item_lem B (b ∷ bs) p v in
        (
          false,
          q,
          rw (e, check_and_set, ins),
          vq,
          same,
          λ x k. Turn-Holds x (b ∷ bs) p q k same turn,
        )
  ]

  check_all_lem :
      (xs : List (List ℕ)) (p : PingPongBloom B)
      → Inv B p
      → (r : PingPongBloom B) × (check_all B xs p ≡ ok r)
        × Inv B r
        × ((x : List ℕ) (k : ℕ) → Holds x p (length xs + k) → Holds x r k)
  unfolding check_all
  check_all_lem [] p v = (p, refl, v, λ x k h. at_most x p k (0 + k) (omega arith) h)
  check_all_lem (y ∷ xs) p v =
      let (seen, q, e, vq, same, step) = check_and_set_lem y p v in
      let (r, f, vr, rest) = check_all_lem xs q vq in
      (
        r,
        rw (e, check_all) f,
        vr,
        λ x k h. rest x k (
            step x (length xs + k)
              (at_most x p (suc (length xs + k)) (suc (length xs) + k) (omega arith) h)),
      )

  answered-seen :
      (x : List ℕ) (k : ℕ) (r : PingPongBloom B)
      → Inv B r
      → x ≢ []
      → Holds x r k
      → check_nonce_and_set B x r ≡ ok (true, r)
  unfolding check_nonce_and_set check_and_set
  answered-seen [] k r v ne h = absurd (ne refl)
  answered-seen (b ∷ bs) k r v ne h = rw (Holds-exists (b ∷ bs) k r v h)

  Turn-recorded :
      (buf : List ℕ) (p q : PingPongBloom B)
      → 1 ≤ p.item_count
      → q.item_count ≡ p.item_count
      → Turn B buf p q
      → Holds buf q p.item_count
  Turn-recorded buf p q room same (stays lt up put kept) =
      inl (rw put (check-put_self (cur_bloom B p) buf), omega arith)
  Turn-recorded buf p q room same (swaps full one put kept) =
      inl (rw put (check-put_self (B.clear (kept_bloom B p)) buf), omega arith)

  -- A nonce that has just been recorded holds for as many insertions as a filter has room for.
  recorded-Holds :
      (x : List ℕ) (p q : PingPongBloom B)
      → Inv B p
      → x ≢ []
      → check_nonce_and_set B x p ≡ ok (false, q)
      → Inv B q × (q.item_count ≡ p.item_count) × Holds x q p.item_count
  unfolding check_nonce_and_set check_and_set
  recorded-Holds [] p q v ne e = absurd (ne refl)
  recorded-Holds (b ∷ bs) p q v ne e = elim (Bool-cases (exists B p (b ∷ bs))) [
    | inl seen ↦ (let e' = rw (seen, check_and_set) at e in cc)
    | inr fresh ↦
        let (q', ins, vq, same, turn) = insert_item_lem B (b ∷ bs) p v in
        let e' = rw (fresh, check_and_set, ins) at e in
        let same_state : q' ≡ q = cc in
        subst (λ r. Inv B r × (r.item_count ≡ p.item_count) × Holds (b ∷ bs) r p.item_count)
          same_state (vq, same, Turn-recorded (b ∷ bs) p q' v.room same turn)
  ]

  -- A nonce that is not empty and was accepted as new is detected if it comes again after any
  -- sequence of at most as many further nonces as one filter has room for, and the check then
  -- changes nothing; the sequence between runs without a panic. The filters are in a state that
  -- checks can leave them in.
  pub replay_detected :
      (x : List ℕ) (xs : List (List ℕ)) (p q : PingPongBloom B)
      → Inv B p
      → x ≢ []
      → check_nonce_and_set B x p ≡ ok (false, q)
      → length xs ≤ p.item_count
      → (r : PingPongBloom B) × (check_all B xs q ≡ ok r)
        × (check_nonce_and_set B x r ≡ ok (true, r))
  replay_detected x xs p q v ne e few =
      let (vq, same, held) = recorded-Holds x p q v ne e in
      let (r, f, vr, rest) = check_all_lem xs q vq in
      (
        r,
        f,
        answered-seen x 0 r vr ne
            (rest x 0 (at_most x q (length xs + 0) p.item_count (omega arith) held)),
      )

  -- For every type of configuration, every sequence of checks of a fresh pair of filters runs
  -- without a panic and keeps the invariant: the index is 0 or 1, both filters have room, and
  -- neither counts more than it has room for.
  pub check_all_total :
      (ty : ConfigType) (xs : List (List ℕ))
      → (r : PingPongBloom B) × (check_all B xs (new B ty) ≡ ok r) × Inv B r
  check_all_total ty xs =
      let (r, f, vr, _) = check_all_lem xs (new B ty) (new-Inv B ty) in (r, f, vr)

  new-exists : (ty : ConfigType) (x : List ℕ) → exists B (new B ty) x ≡ false
  unfolding new
  new-exists ty x = grind (arith, check-new)

  -- A fresh pair of filters of any type of configuration accepts any first nonce as new.
  pub check_nonce_first :
      (ty : ConfigType) (x : List ℕ)
      → (q : PingPongBloom B) × (check_nonce_and_set B x (new B ty) ≡ ok (false, q))
  unfolding check_nonce_and_set check_and_set
  check_nonce_first ty [] = (new B ty, refl)
  check_nonce_first ty (b ∷ bs) =
      let (q, ins, _, _, _) = insert_item_lem B (b ∷ bs) (new B ty) (new-Inv B ty) in
      (q, rw (new-exists ty (b ∷ bs), check_and_set, ins))
