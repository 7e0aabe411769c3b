-- ===== src/Balancer.antt =====
-- relay/loadbalancing/server.rs: the latencies that are kept of a server, and the choice of the best one.
pub mod Recent
pub mod Choice
mod Tests
use shadowsocks_rust.Common.{
  ℕ, zero, suc, ◌+◌, ◌-◌, ◌/◌, ◌%◌, ◌==◌, List, [], ◌∷◌, ◌++◌, length, get_elem?, ltb, leb, Bool,
  true, false, not, Option, none, some, if◌then◌else◌,
}
use shadowsocks_rust.Common.Outcome.{Outcome, ok, panic, ◌>>=◌}
use shadowsocks_rust.Crypto.Sizes.{expect}
use shadowsocks_rust.Flow.{u64_size}

abbrev pub max_latency_queue_size : ℕ
max_latency_queue_size = 99

abbrev pub max_server_rtt : ℕ
max_server_rtt = 2000

-- `u64::max_value()`.
abbrev pub u64_max : ℕ
u64_max = 18446744073709551615

pub data Score : Type 0 where
  latency : ℕ → Score
  errored : Score

-- The machine's floating point numbers, in the expressions of the code: the quotient of two counts, the
-- corrected standard deviation from the mean, and the weighted score.
pub record Floats : Type 1 where
  pub Float : Type 0
  pub float_zero : Float
  pub float_one : Float
  pub quotient : ℕ → ℕ → Float
  pub deviation : Float → List ℕ → Float
  pub weighted : ℕ → Float → Float → ℕ

-- `sort` of numbers.
abbrev pub sorted_insert : ℕ → List ℕ → List ℕ
sorted_insert x [] = x ∷ []
sorted_insert x (y ∷ ys) =
    let later = sorted_insert x ys in if leb x y then x ∷ (y ∷ ys) else y ∷ later

abbrev pub sort : List ℕ → List ℕ
sort [] = []
sort (x ∷ xs) = sorted_insert x (sort xs)

abbrev pub sum : List ℕ → ℕ
sum [] = 0
sum (x ∷ xs) = (x + sum xs) % u64_size

-- The latencies and the number of errors in the queue.
abbrev pub latencies : List Score → List ℕ
latencies [] = []
latencies (latency lat ∷ q) = lat ∷ latencies q
latencies (errored ∷ q) = latencies q

abbrev pub errors : List Score → ℕ
errors [] = 0
errors (latency lat ∷ q) = errors q
errors (errored ∷ q) = suc (errors q)

abbrev pub pop_front : List Score → List Score
pop_front [] = []
pop_front (_ ∷ q) = q

-- The median of the sorted latencies; an index out of bounds is a panic.
unfoldable pub median : List ℕ → Outcome (Unit {0}) ℕ
median vlat =
    let mid = length vlat / 2 in
    if length vlat % 2 == 0
    then (do
      high ← expect (get_elem? vlat mid)
      low ← expect (get_elem? vlat (mid - 1))
      ok ((high + low) % u64_size / 2))
    else expect (get_elem? vlat mid)

-- `push_back`, then `pop_front` if there are too many.
unfoldable pub pushed : Score → List Score → List Score
pushed s q =
    if ltb max_latency_queue_size (length (q ++ (s ∷ [])))
    then pop_front (q ++ (s ∷ []))
    else q ++ (s ∷ [])

module _ (F : Floats) where
  open F use {Float, float_zero, float_one, quotient, deviation, weighted}

  pub record ServerStatisticData : Type 0 where
    pub rtt : ℕ
    pub fail_rate : Float
    pub latency_queue : List Score
    pub latency_stdev : Float
    pub latency_mean : Float

  unfoldable pub new_data : ServerStatisticData
  new_data = record {
    rtt = max_server_rtt;
    fail_rate = float_one;
    latency_queue = [];
    latency_stdev = float_zero;
    latency_mean = float_zero;
  }

  unfoldable pub score : ServerStatisticData → ℕ
  score d = weighted d.rtt d.fail_rate d.latency_stdev

  -- The part for latencies, sorted.
  unfoldable pub with_latencies :
      List ℕ → ServerStatisticData → Outcome (Unit {0}) ServerStatisticData
  with_latencies [] d = ok d
  with_latencies (x ∷ xs) d = do
    rtt ← median (x ∷ xs)
    let d1 = record d { rtt = rtt }
    let mean = quotient (sum (x ∷ xs)) (length (x ∷ xs))
    ok (
        if ltb 1 (length (x ∷ xs))
        then record d1 { latency_mean = mean; latency_stdev = deviation mean (x ∷ xs) }
        else d1)

  unfoldable pub recalculate_score :
      ServerStatisticData → Outcome (Unit {0}) (ℕ × ServerStatisticData)
  recalculate_score d = elim d.latency_queue [
    | [] ↦ ok (score d, d)
    | s ∷ q ↦ do
      d' ←
          with_latencies (sort (latencies (s ∷ q)))
            (record d { fail_rate = quotient (errors (s ∷ q)) (length (s ∷ q)) })
      ok (score d', d')
  ]

  unfoldable pub push_score :
      Score → ServerStatisticData → Outcome (Unit {0}) (ℕ × ServerStatisticData)
  push_score s d = recalculate_score (record d { latency_queue = pushed s d.latency_queue })

-- The loop over the scores of the servers, from the index `idx` on.
unfoldable pub best_loop : List ℕ → ℕ → ℕ → ℕ → ℕ
best_loop [] idx best_idx best_score = best_idx
best_loop (s ∷ scores) idx best_idx best_score =
    let better = best_loop scores (idx + 1) idx s in
    let as_before = best_loop scores (idx + 1) best_idx best_score in
    if ltb s best_score then better else as_before

-- The answer and the index that is stored.
unfoldable pub recalculate_best_server : List ℕ → ℕ → Option (ℕ × ℕ) × ℕ
recalculate_best_server scores current =
    let best = best_loop scores 0 0 u64_max in
    if not (best == current) then (some (current, best), best) else (none, current)

-- An index out of bounds is a panic.
unfoldable pub pick_server {ℓ} : {A : Type ℓ} → List A → ℕ → Outcome (Unit {0}) A
pick_server servers best_idx = expect (get_elem? servers best_idx)
