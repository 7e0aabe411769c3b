-- ===== src/Balancer/Recent.antt =====
-- The queue holds the latest probes, and pushing one is no panic.
use shadowsocks_rust.Common.{
  ℕ, zero, suc, ◌+◌, ◌-◌, ◌/◌, ◌%◌, ◌≤◌, ◌<◌, ◌==◌, ◌≡◌, refl, sym, ap, ◌∙◌, List, [], ◌∷◌, ◌++◌,
  append_assoc, append-nil, length, length-append, length-drop, drop, get_elem?, arith, ltb,
  Bool-cases, some, inl, inr,
}
use shadowsocks_rust.Common.Outcome.{Outcome, ok, ◌>>=◌}
use shadowsocks_rust.Flow.{u64_size}
use shadowsocks_rust.Balancer.{
  Floats, Score, max_latency_queue_size, pop_front, pushed, median, ServerStatisticData, new_data,
  score, with_latencies, sort, latencies, errors, recalculate_score, push_score,
}

get_elem_lt : (xs : List ℕ) (k : ℕ) → k < length xs → (x : ℕ) × (get_elem? xs k ≡ some x)
get_elem_lt [] k h = absurd (omega arith)
get_elem_lt (x ∷ xs) zero h = (x, refl)
get_elem_lt (x ∷ xs) (suc k) h = get_elem_lt xs k (omega arith)

median_ok : (xs : List ℕ) → 0 < length xs → (m : ℕ) × (median xs ≡ ok m)
unfolding median
median_ok xs h =
    let (high, eh) = get_elem_lt xs (length xs / 2) (omega arith) in
    let (low, el) = get_elem_lt xs (length xs / 2 - 1) (omega arith) in
    elim (Bool-cases (length xs % 2 == 0)) [
      | inl even ↦ ((high + low) % u64_size / 2, rw (even, median, eh, el) refl)
      | inr odd ↦ (high, rw (odd, median, eh) refl)
    ]

-- The last elements of a queue, at most 99.
abbrev pub latest : List Score → List Score
latest q = drop (length q - max_latency_queue_size) q

pop_front-drop : (k : ℕ) (q : List Score) → k < length q → pop_front (drop k q) ≡ drop (suc k) q
pop_front-drop zero [] h = refl
pop_front-drop zero (s ∷ q) h = refl
pop_front-drop (suc k) [] h = absurd (omega arith)
pop_front-drop (suc k) (s ∷ q) h = pop_front-drop k q (omega arith)

drop-append :
    (k : ℕ) (q : List Score) (s : Score)
    → k ≤ length q
    → drop k q ++ (s ∷ []) ≡ drop k (q ++ (s ∷ []))
drop-append zero q s h = refl
drop-append (suc k) [] s h = absurd (omega arith)
drop-append (suc k) (x ∷ q) s h = drop-append k q s (omega arith)

pushed-latest : (s : Score) (q : List Score) → pushed s (latest q) ≡ latest (q ++ (s ∷ []))
unfolding pushed
pushed-latest s q =
    let k = length q - max_latency_queue_size in
    let both : latest q ++ (s ∷ []) ≡ drop k (q ++ (s ∷ [])) = drop-append k q s (omega arith) in
    let len : length (q ++ (s ∷ [])) ≡ length q + 1 = length-append q (s ∷ []) in
    let len' : length (drop k (q ++ (s ∷ []))) ≡ length q + 1 - k =
      length-drop k (q ++ (s ∷ [])) ∙ ap (λ n. n - k) len in
    rw (both) (elim (Bool-cases (ltb max_latency_queue_size (length (drop k (q ++ (s ∷ [])))))) [
      | inl full ↦
          let next : suc k ≡ length (q ++ (s ∷ [])) - max_latency_queue_size = ground arith in
          rw (full) (
            pop_front-drop k (q ++ (s ∷ [])) (ground arith) ∙ ap (λ n. drop n (q ++ (s ∷ []))) next)
      | inr room ↦
          let same : k ≡ length (q ++ (s ∷ [])) - max_latency_queue_size = ground arith in
          rw (room) (ap (λ n. drop n (q ++ (s ∷ []))) same)
    ])

module _ (F : Floats) where
  with_latencies_ok :
      (xs : List ℕ) (d : ServerStatisticData F)
      → (d' : ServerStatisticData F) × (with_latencies F xs d ≡ ok d')
        × (d'.latency_queue ≡ d.latency_queue)
  unfolding with_latencies
  with_latencies_ok [] d = (d, refl, refl)
  with_latencies_ok (x ∷ xs) d =
      let (m, e) = median_ok (x ∷ xs) (omega arith) in
      elim (Bool-cases (ltb 1 (length (x ∷ xs)))) [
        | inl many ↦ rw (e, many) (_, refl, refl)
        | inr one ↦ rw (e, one) (_, refl, refl)
      ]

  recalculate_ok :
      (q : List Score) (d : ServerStatisticData F)
      → (n : ℕ) × (d' : ServerStatisticData F) × (recalculate_score F
            (record d { latency_queue = q })
          ≡ ok (n, d'))
        × (d'.latency_queue ≡ q)
  unfolding recalculate_score
  recalculate_ok [] d = (_, _, refl, refl)
  recalculate_ok (s ∷ q) d =
      let (d', e, same) = with_latencies_ok (sort (latencies (s ∷ q))) (record d {
        latency_queue = s ∷ q;
        fail_rate = F.quotient (errors (s ∷ q)) (length (s ∷ q));
      }) in
      (score F d', d', rw (e) refl, same)

  -- The pushes of a list of probes, one after the other.
  abbrev pub push_all :
      List Score → ServerStatisticData F → Outcome (Unit {0}) (ServerStatisticData F)
  push_all [] d = ok d
  push_all (s ∷ ss) d = do (n, d') ← push_score F s d; push_all ss d'

  push_all-latest :
      (ss before : List Score) (d : ServerStatisticData F)
      → d.latency_queue ≡ latest before
      → (d' : ServerStatisticData F) × (push_all ss d ≡ ok d')
        × (d'.latency_queue ≡ latest (before ++ ss))
  unfolding push_score
  push_all-latest [] before d h = (d, refl, h ∙ ap latest (sym (append-nil before)))
  push_all-latest (s ∷ ss) before d h =
      let (n, d', e, q) = recalculate_ok (pushed s d.latency_queue) d in
      let now : d'.latency_queue ≡ latest (before ++ (s ∷ [])) =
        q ∙ ap (pushed s) h ∙ pushed-latest s before in
      let (d'', e', q') = push_all-latest ss (before ++ (s ∷ [])) d' now in
      (d'', rw (e) e', q' ∙ ap latest (append_assoc before (s ∷ []) ss))

  -- Pushing any sequence of probes, latencies or errors, to fresh statistics is never a panic,
  -- so the median is always in bounds, and leaves exactly the last 99 of them, or all if they
  -- are fewer, in the queue, in their order.
  pub push_all-new_data :
      (ss : List Score)
      → (d : ServerStatisticData F) × (push_all ss (new_data F) ≡ ok d)
        × (d.latency_queue ≡ latest ss)
  unfolding new_data
  push_all-new_data ss = push_all-latest ss [] (new_data F) refl
