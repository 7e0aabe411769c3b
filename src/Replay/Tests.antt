-- ===== src/Replay/Tests.antt =====
-- The nonce filter over exact sets, at concrete nonces.
use shadowsocks_rust.Common.{
  ℕ, ◌≡◌, refl, List, [], ◌∷◌, Bool, true, false, ◌||◌, ◌&&◌, arith, ◌==◌,
}
use shadowsocks_rust.Common.Outcome.{ok}
use shadowsocks_rust.Replay.{
  BloomFilter, PingPongBloom, server, new, insert_item, check_and_set, check_nonce_and_set,
  check_all,
}
use shadowsocks_rust.Replay.Invariant.{Inv}
use shadowsocks_rust.Replay.Memory.{replay_detected, check_all_total}

abbrev pub same_bytes : List ℕ → List ℕ → Bool
same_bytes [] [] = true
same_bytes (a ∷ as') (b ∷ bs) = a == b && same_bytes as' bs
same_bytes _ _ = false

same_bytes_refl : (x : List ℕ) → same_bytes x x ≡ true
same_bytes_refl [] = refl
same_bytes_refl (a ∷ x) = ground (arith, same_bytes_refl x)

abbrev pub holds : List (List ℕ) → List ℕ → Bool
holds [] x = false
holds (y ∷ ys) x = same_bytes y x || holds ys x

pub holds_self : (b : List (List ℕ)) (x : List ℕ) → holds (x ∷ b) x ≡ true
holds_self b x = ground (arith, same_bytes_refl x)

pub holds_mono : (b : List (List ℕ)) (x y : List ℕ) → holds b x ≡ true → holds (y ∷ b) x ≡ true
holds_mono b x y h = ground arith

abbrev pub sets : BloomFilter
sets = record {
  Bloom = List (List ℕ);
  new_for_fp_rate = λ n rate. [];
  check = holds;
  put = λ b x. x ∷ b;
  clear = λ b. [];
  check-new = λ n rate x. refl;
  check-put_self = holds_self;
  check-put_mono = holds_mono;
  check-clear = λ b x. refl;
}

-- A filter with room for two items each.
abbrev pub small : PingPongBloom sets
small = record {
  blooms = record { at0 = []; at1 = [] };
  bloom_count = record { at0 = 0; at1 = 0 };
  item_count = 2;
  current = 0;
}

abbrev nonce : ℕ → List ℕ
nonce n = n ∷ 7 ∷ []

abbrev small_1 : PingPongBloom sets
small_1 = record {
  blooms = record { at0 = nonce 1 ∷ []; at1 = [] };
  bloom_count = record { at0 = 1; at1 = 0 };
  item_count = 2;
  current = 0;
}

small-small_1 : check_nonce_and_set sets (nonce 1) small ≡ ok (false, small_1)
unfolding check_nonce_and_set check_and_set insert_item
small-small_1 = refl

-- Five further nonces push the first one out.
abbrev five : List (List ℕ)
five = nonce 2 ∷ nonce 3 ∷ nonce 4 ∷ nonce 5 ∷ nonce 6 ∷ []

forgotten :
    check_all sets five small_1
    ≡ ok (record {
      blooms = record { at0 = nonce 6 ∷ nonce 5 ∷ []; at1 = nonce 4 ∷ nonce 3 ∷ [] };
      bloom_count = record { at0 = 2; at1 = 2 };
      item_count = 2;
      current = 0;
    })
unfolding check_all check_nonce_and_set check_and_set insert_item
forgotten = refl

replay_detected_example :
    (r : PingPongBloom sets) × (check_all sets (nonce 2 ∷ nonce 3 ∷ []) small_1 ≡ ok r)
    × (check_nonce_and_set sets (nonce 1) r ≡ ok (true, r))
replay_detected_example =
    replay_detected sets (nonce 1) (nonce 2 ∷ nonce 3 ∷ []) small small_1 (omega arith) (λ e. cc)
      small-small_1 (omega arith)

check_all_total_example :
    (r : PingPongBloom sets) × (check_all sets five (new sets server) ≡ ok r) × Inv sets r
check_all_total_example = check_all_total sets server five
