-- ===== src/Balancer/Tests.antt =====
-- Three servers, and floating point numbers that are only counts.
use shadowsocks_rust.Common.{ℕ, ◌≡◌, refl, List, [], ◌∷◌, arith, some}
use shadowsocks_rust.Common.Outcome.{ok}
use shadowsocks_rust.Balancer.{
  Floats, Score, latency, errored, ServerStatisticData, new_data, best_loop,
  recalculate_best_server, pick_server,
}
use shadowsocks_rust.Balancer.Choice.{Chosen, recalculate_best_server-Chosen, pick_server_best}
use shadowsocks_rust.Balancer.Recent.{latest, push_all, push_all-new_data}

abbrev counts : Floats
counts = record {
  Float = ℕ;
  float_zero = 0;
  float_one = 1;
  quotient = λ a b. a;
  deviation = λ mean xs. mean;
  weighted = λ rtt fail stdev. rtt;
}

abbrev probes : List Score
probes = latency 30 ∷ errored ∷ latency 20 ∷ []

push_all-new_data_example :
    (d : ServerStatisticData counts) × (push_all counts probes (new_data counts) ≡ ok d)
    × (d.latency_queue ≡ latest probes)
push_all-new_data_example = push_all-new_data counts probes

recalculate_best_server-Chosen_example :
    Chosen (7 ∷ 3 ∷ 3 ∷ []) 0 (recalculate_best_server (7 ∷ 3 ∷ 3 ∷ []) 0)
recalculate_best_server-Chosen_example =
    recalculate_best_server-Chosen 7 (3 ∷ 3 ∷ []) 0 (omega arith, (omega arith, (omega arith, tt)))

second_of_three : recalculate_best_server (7 ∷ 3 ∷ 3 ∷ []) 0 ≡ (some (0, 1), 1)
unfolding recalculate_best_server best_loop
second_of_three = refl

pick_server_best_example :
    (a : ℕ) × (pick_server (10 ∷ 20 ∷ 30 ∷ []) (recalculate_best_server (7 ∷ 3 ∷ 3 ∷ []) 0).1
      ≡ ok a)
pick_server_best_example =
    pick_server_best (10 ∷ 20 ∷ 30 ∷ []) 7 (3 ∷ 3 ∷ []) 0
      (omega arith, (omega arith, (omega arith, tt))) refl
