-- ===== src/Balancer/Choice.antt =====
-- The best server is the first one with the least score, and is always there.
use shadowsocks_rust.Common.{
  ℕ, zero, suc, ◌+◌, ◌≤◌, ◌<◌, ◌==◌, ◌≡◌, ◌≢◌, refl, sym, subst, ◌⊎◌, inl, inr, List, [], ◌∷◌,
  length, get_elem?, arith, ltb, Bool-cases, Option, none, some, All, ==_iff,
}
use shadowsocks_rust.Common.Outcome.{ok}
use shadowsocks_rust.Balancer.{u64_max, best_loop, recalculate_best_server, pick_server}

abbrev pub IsLower : ℕ → List ℕ → Type 0
IsLower b xs = (j x : ℕ) → get_elem? xs j ≡ some x → b ≤ x

-- The first of the least numbers of a list.
pub record IsFirstLeast (xs : List ℕ) (k m : ℕ) : Type 0 where
  pub there : get_elem? xs k ≡ some m
  pub least : IsLower m xs
  pub before : (j x : ℕ) → j < k → get_elem? xs j ≡ some x → m < x

abbrev Found : List ℕ → ℕ → ℕ → ℕ → ℕ → Type 0
Found xs idx best_idx best_score r =
    ((r ≡ best_idx) × IsLower best_score xs)
    ⊎ ((k : ℕ) × (m : ℕ) × (r ≡ idx + k) × (m < best_score) × IsFirstLeast xs k m)

IsLower-cons : (b s : ℕ) (xs : List ℕ) → b ≤ s → IsLower b xs → IsLower b (s ∷ xs)
IsLower-cons b s xs h lower zero x e = (let same : s ≡ x = cc in omega arith)
IsLower-cons b s xs h lower (suc j) x e = lower j x e

first_here : (s : ℕ) (xs : List ℕ) → IsLower s xs → IsFirstLeast (s ∷ xs) 0 s
first_here s xs lower = record {
  there = refl;
  least = IsLower-cons s s xs (omega arith) lower;
  before = λ j x h e. absurd (omega arith);
}

first_later :
    (s k m : ℕ) (xs : List ℕ) → m < s → IsFirstLeast xs k m → IsFirstLeast (s ∷ xs) (suc k) m
first_later s k m xs h f = record {
  there = f.there;
  least = IsLower-cons m s xs (omega arith) f.least;
  before = earlier;
}
  where
    earlier : (j x : ℕ) → j < suc k → get_elem? (s ∷ xs) j ≡ some x → m < x
    earlier zero x lt e = (let same : s ≡ x = cc in omega arith)
    earlier (suc j) x lt e = f.before j x (omega arith) e

best_loop-Found :
    (xs : List ℕ) (idx best_idx best_score : ℕ)
    → Found xs idx best_idx best_score (best_loop xs idx best_idx best_score)
unfolding best_loop
best_loop-Found [] idx best_idx best_score = inl (refl, λ j x e. cc)
best_loop-Found (s ∷ xs) idx best_idx best_score = elim (Bool-cases (ltb s best_score)) [
  | inl lt ↦
      rw (lt, best_loop)
        (elim (best_loop-Found xs (idx + 1) idx s) [
          | inl (e, lower) ↦ inr (0, s, (omega (arith, e)), ground arith, first_here s xs lower)
          | inr (k, m, e, less, f) ↦
              inr (suc k, m, omega (arith, e), ground arith, first_later s k m xs less f)
        ])
  | inr ge ↦
      rw (ge, best_loop)
        (elim (best_loop-Found xs (idx + 1) best_idx best_score) [
          | inl (e, lower) ↦ inl (e, IsLower-cons best_score s xs (ground arith) lower)
          | inr (k, m, e, less, f) ↦
              inr (suc k, m, omega (arith, e), less, first_later s k m xs (ground arith) f)
        ])
]

abbrev pub AllScores : List ℕ → Type 0
AllScores xs = All (λ x. x ≤ u64_max) xs

best_found :
    (s : ℕ) (xs : List ℕ)
    → AllScores (s ∷ xs)
    → (m : ℕ) × IsFirstLeast (s ∷ xs) (best_loop (s ∷ xs) 0 0 u64_max) m
best_found s xs (h, hs) = elim (best_loop-Found (s ∷ xs) 0 0 u64_max) [
  | inl (e, lower) ↦
      (s, subst (λ k. IsFirstLeast (s ∷ xs) k s) (sym e) (first_here s xs (least_here lower)))
  | inr (k, m, e, less, f) ↦ (m, subst (λ j. IsFirstLeast (s ∷ xs) j m) (omega (arith, e)) f)
]
  where
    least_here : IsLower u64_max (s ∷ xs) → IsLower s xs
    least_here lower j x e = (let big : u64_max ≤ x = lower (suc j) x e in omega arith)

-- What `recalculate_best_server` answers and stores.
abbrev pub Chosen : List ℕ → ℕ → Option (ℕ × ℕ) × ℕ → Type 0
Chosen xs current res =
    ((m : ℕ) × IsFirstLeast xs res.1 m)
    × (((res.0 ≡ none) × (res.1 ≡ current)) ⊎ ((res.0 ≡ some (current, res.1)) × (res.1 ≢ current)))

-- With at least one server and scores that are 64-bit numbers, the index that is stored is that
-- of the first server with the least score; the answer is none if that is the index stored
-- before, and otherwise the old and the new index.
pub recalculate_best_server-Chosen :
    (s : ℕ) (xs : List ℕ) (current : ℕ)
    → AllScores (s ∷ xs)
    → Chosen (s ∷ xs) current (recalculate_best_server (s ∷ xs) current)
unfolding recalculate_best_server
recalculate_best_server-Chosen s xs current h =
    let (m, f) = best_found s xs h in
    let best = best_loop (s ∷ xs) 0 0 u64_max in
    elim (Bool-cases (best == current)) [
      | inl same ↦
          let e : best ≡ current = (==_iff best current).0 same in
          rw (same, recalculate_best_server)
            ((m, subst (λ k. IsFirstLeast (s ∷ xs) k m) e f), inl (refl, refl))
      | inr other ↦ rw (other, recalculate_best_server) ((m, f), inr (refl, ground arith))
    ]

there_is :
    {A : Type 0} (xs : List ℕ) (servers : List A) (k m : ℕ)
    → length xs ≡ length servers
    → get_elem? xs k ≡ some m
    → (a : A) × (get_elem? servers k ≡ some a)
there_is [] servers k m e h = cc
there_is (x ∷ xs) [] k m e h = absurd (omega arith)
there_is (x ∷ xs) (a ∷ servers) zero m e h = (a, refl)
there_is (x ∷ xs) (a ∷ servers) (suc k) m e h = there_is xs servers k m (omega arith) h

-- With at least one server, and one 64-bit score for each, the index that the choice stores
-- picks a server; it is never out of bounds.
pub pick_server_best :
    {A : Type 0} (servers : List A) (s : ℕ) (xs : List ℕ) (current : ℕ)
    → AllScores (s ∷ xs)
    → length (s ∷ xs) ≡ length servers
    → (a : A) × (pick_server servers (recalculate_best_server (s ∷ xs) current).1 ≡ ok a)
unfolding pick_server
pick_server_best servers s xs current h e =
    let ((m, f), _) = recalculate_best_server-Chosen s xs current h in
    let (a, g) = there_is (s ∷ xs) servers _ m e f.there in (a, rw (g) refl)
