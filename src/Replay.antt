-- ===== src/Replay.antt =====
-- context.rs: `PingPongBloom`, the two Bloom filters that remember the nonces seen, and
-- `Context::check_nonce_and_set` over it.
pub mod Invariant
pub mod Memory
pub mod Tests
use shadowsocks_rust.Common.{
  ℕ, zero, suc, ◌+◌, ◌%◌, ◌/◌, ◌≤◌, ◌≡◌, List, [], ◌∷◌, Bool, true, false, ◌||◌, leb, if◌then◌else◌,
}
use shadowsocks_rust.Common.Outcome.{Outcome, ok, panic, ◌>>=◌}

-- The crate bloomfilter: a filter never forgets what was set, and an empty one holds nothing. An error
-- rate of 10 to the minus `n` is kept as `n`.
pub record BloomFilter : Type 1 where
  pub Bloom : Type 0
  pub new_for_fp_rate : ℕ → ℕ → Bloom
  pub check : Bloom → List ℕ → Bool
  pub put : Bloom → List ℕ → Bloom
  pub clear : Bloom → Bloom
  pub check-new : (n rate : ℕ) (x : List ℕ) → check (new_for_fp_rate n rate) x ≡ false
  pub check-put_self : (b : Bloom) (x : List ℕ) → check (put b x) x ≡ true
  pub check-put_mono : (b : Bloom) (x y : List ℕ) → check b x ≡ true → check (put b y) x ≡ true
  pub check-clear : (b : Bloom) (x : List ℕ) → check (clear b) x ≡ false

pub data ConfigType : Type 0 where
  socks5_local http_local tunnel_local redir_local server manager : ConfigType

abbrev pub is_local : ConfigType → Bool
is_local server = false
is_local manager = false
is_local _ = true

abbrev pub bf_num_entries_for_server : ℕ
bf_num_entries_for_server = 1_000_000

abbrev pub bf_num_entries_for_client : ℕ
bf_num_entries_for_client = 10_000

abbrev pub bf_error_rate_for_server : ℕ
bf_error_rate_for_server = 6

abbrev pub bf_error_rate_for_client : ℕ
bf_error_rate_for_client = 15

-- An array of two; an index out of bounds is a panic.
pub record Two {ℓ} (A : Type ℓ) : Type ℓ where
  pub at0 : A
  pub at1 : A

module _ {ℓ} {A : Type ℓ} where
  abbrev pub index : Two A → ℕ → Outcome (Unit {0}) A
  index t zero = ok t.at0
  index t (suc zero) = ok t.at1
  index t (suc (suc _)) = panic

  abbrev pub assign : Two A → ℕ → A → Outcome (Unit {0}) (Two A)
  assign t zero a = ok (record t { at0 = a })
  assign t (suc zero) a = ok (record t { at1 = a })
  assign t (suc (suc _)) a = panic

module _ (B : BloomFilter) where
  open B use {Bloom, new_for_fp_rate, check, put, clear}

  pub record PingPongBloom : Type 0 where
    pub blooms : Two Bloom
    pub bloom_count : Two ℕ
    pub item_count : ℕ
    pub current : ℕ

  new_of_size : ℕ → ℕ → PingPongBloom
  new_of_size item_count fp_p = record {
    blooms = record {
      at0 = new_for_fp_rate item_count fp_p;
      at1 = new_for_fp_rate item_count fp_p;
    };
    bloom_count = record { at0 = 0; at1 = 0 };
    item_count = item_count;
    current = 0;
  }

  unfoldable pub new : ConfigType → PingPongBloom
  unfolding new_of_size
  new ty =
      if is_local ty
      then new_of_size (bf_num_entries_for_client / 2) bf_error_rate_for_client
      else new_of_size (bf_num_entries_for_server / 2) bf_error_rate_for_server

  -- The current filter is full: empty the other one and make it the current one.
  rotate : PingPongBloom → Outcome (Unit {0}) PingPongBloom
  rotate p = do
    let current = (p.current + 1) % 2
    bloom_count ← assign p.bloom_count current 0
    bloom ← index p.blooms current
    blooms ← assign p.blooms current (clear bloom)
    ok (record p { blooms = blooms; bloom_count = bloom_count; current = current })

  rotate_if_full : PingPongBloom → Outcome (Unit {0}) PingPongBloom
  rotate_if_full p = do
    count ← index p.bloom_count p.current
    if leb p.item_count count then rotate p else ok p

  record_item : List ℕ → PingPongBloom → Outcome (Unit {0}) PingPongBloom
  record_item buf p = do
    bloom ← index p.blooms p.current
    blooms ← assign p.blooms p.current (put bloom buf)
    count ← index p.bloom_count p.current
    bloom_count ← assign p.bloom_count p.current (count + 1)
    ok (record p { blooms = blooms; bloom_count = bloom_count })

  abbrev pub exists : PingPongBloom → List ℕ → Bool
  exists p buf = check p.blooms.at0 buf || check p.blooms.at1 buf

  unfoldable pub insert_item : List ℕ → PingPongBloom → Outcome (Unit {0}) PingPongBloom
  unfolding rotate rotate_if_full record_item
  insert_item buf p = do q ← rotate_if_full p; record_item buf q

  unfoldable pub check_and_set : List ℕ → PingPongBloom → Outcome (Unit {0}) (Bool × PingPongBloom)
  check_and_set buf p =
      if exists p buf then ok (true, p) else (do q ← insert_item buf p; ok (false, q))

  -- `Context::check_nonce_and_set`: a plain cipher has no nonce.
  unfoldable pub check_nonce_and_set :
      List ℕ → PingPongBloom → Outcome (Unit {0}) (Bool × PingPongBloom)
  check_nonce_and_set [] p = ok (false, p)
  check_nonce_and_set (b ∷ nonce) p = check_and_set (b ∷ nonce) p

  -- A sequence of nonces, in the order in which the lock is taken.
  unfoldable pub check_all : List (List ℕ) → PingPongBloom → Outcome (Unit {0}) PingPongBloom
  check_all [] p = ok p
  check_all (x ∷ xs) p = do (seen, q) ← check_nonce_and_set x p; check_all xs q
