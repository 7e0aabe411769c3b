-- ===== src/Replay/Invariant.antt =====
-- The bookkeeping of `PingPongBloom`, and that no index is out of bounds.
use shadowsocks_rust.Common.{
  ℕ, zero, suc, ◌+◌, ◌≤◌, ◌<◌, ◌≡◌, refl, List, arith, Bool-cases, leb, inl, inr,
}
use shadowsocks_rust.Common.Outcome.{ok}
use shadowsocks_rust.Replay.{BloomFilter, Two, PingPongBloom, ConfigType, new, insert_item}

module _ (B : BloomFilter) where
  pub record Inv (p : PingPongBloom B) : Type 0 where
    pub slot : p.current < 2
    pub room : 1 ≤ p.item_count
    pub count0 : p.bloom_count.at0 ≤ p.item_count
    pub count1 : p.bloom_count.at1 ≤ p.item_count

  pub new-Inv : (ty : ConfigType) → Inv (new B ty)
  unfolding new
  new-Inv ty = ground arith

  -- The filter that is written, and the one that is kept until the next turn.
  abbrev pub cur_bloom : PingPongBloom B → B.Bloom
  cur_bloom p = elim p.current [ zero ↦ p.blooms.at0 | suc _ ↦ p.blooms.at1 ]

  abbrev pub kept_bloom : PingPongBloom B → B.Bloom
  kept_bloom p = elim p.current [ zero ↦ p.blooms.at1 | suc _ ↦ p.blooms.at0 ]

  abbrev pub cur_count : PingPongBloom B → ℕ
  cur_count p = elim p.current [ zero ↦ p.bloom_count.at0 | suc _ ↦ p.bloom_count.at1 ]

  -- There is room in the current filter, or the filters change places and the new current one, emptied,
  -- takes the item.
  pub data Turn (buf : List ℕ) (p q : PingPongBloom B) : Type 0 where
    stays :
        cur_count p < p.item_count
        → cur_count q ≡ cur_count p + 1
        → cur_bloom q ≡ B.put (cur_bloom p) buf
        → kept_bloom q ≡ kept_bloom p
        → Turn buf p q
    swaps :
        cur_count p ≡ p.item_count
        → cur_count q ≡ 1
        → cur_bloom q ≡ B.put (B.clear (kept_bloom p)) buf
        → kept_bloom q ≡ cur_bloom p
        → Turn buf p q

  abbrev pub Inserted : List ℕ → PingPongBloom B → Type 0
  Inserted buf p =
      (q : PingPongBloom B) × (insert_item B buf p ≡ ok q)
      × Inv q
      × (q.item_count ≡ p.item_count)
      × Turn buf p q

  inserted :
      (buf : List ℕ) (b : Two B.Bloom) (c : Two ℕ) (n cur : ℕ)
      → Inv (record { blooms = b; bloom_count = c; item_count = n; current = cur })
      → Inserted buf (record { blooms = b; bloom_count = c; item_count = n; current = cur })
  unfolding insert_item
  inserted buf b c n zero v = elim (Bool-cases (leb n c.at0)) [
    | inl full ↦ (
      record {
        blooms = record { at0 = b.at0; at1 = B.put (B.clear b.at1) buf };
        bloom_count = record { at0 = c.at0; at1 = 1 };
        item_count = n;
        current = 1;
      },
      rw (full, insert_item),
      ground arith,
      refl,
      swaps (ground arith) refl refl refl,
    )
    | inr room ↦ (
      record {
        blooms = record { at0 = B.put b.at0 buf; at1 = b.at1 };
        bloom_count = record { at0 = c.at0 + 1; at1 = c.at1 };
        item_count = n;
        current = 0;
      },
      rw (room, insert_item),
      ground arith,
      refl,
      stays (ground arith) refl refl refl,
    )
  ]
  inserted buf b c n (suc zero) v = elim (Bool-cases (leb n c.at1)) [
    | inl full ↦ (
      record {
        blooms = record { at0 = B.put (B.clear b.at0) buf; at1 = b.at1 };
        bloom_count = record { at0 = 1; at1 = c.at1 };
        item_count = n;
        current = 0;
      },
      rw (full, insert_item),
      ground arith,
      refl,
      swaps (ground arith) refl refl refl,
    )
    | inr room ↦ (
      record {
        blooms = record { at0 = b.at0; at1 = B.put b.at1 buf };
        bloom_count = record { at0 = c.at0; at1 = c.at1 + 1 };
        item_count = n;
        current = 1;
      },
      rw (room, insert_item),
      ground arith,
      refl,
      stays (ground arith) refl refl refl,
    )
  ]
  inserted buf b c n (suc (suc k)) v = absurd (omega arith)

  pub insert_item_lem : (buf : List ℕ) (p : PingPongBloom B) → Inv p → Inserted buf p
  insert_item_lem buf p v = inserted buf p.blooms p.bloom_count p.item_count p.current v
