-- ===== src/Flow/Totals.antt =====
-- What the total counts, whatever the order in which the relays count.
use shadowsocks_rust.Common.{ℕ, ◌+◌, ◌%◌, ◌≡◌, List, [], ◌∷◌, arith}
use shadowsocks_rust.Flow.{u64_size, incr_tx, incr_rx, ServerFlowStatistic, trans_stat}

pub data Counted : Type 0 where
  tcp_sent tcp_received udp_sent udp_received : ℕ → Counted

abbrev pub count : Counted → ServerFlowStatistic → ServerFlowStatistic
count (tcp_sent n) s = record s { tcp = incr_tx n s.tcp }
count (tcp_received n) s = record s { tcp = incr_rx n s.tcp }
count (udp_sent n) s = record s { udp = incr_tx n s.udp }
count (udp_received n) s = record s { udp = incr_rx n s.udp }

abbrev pub count_all : List Counted → ServerFlowStatistic → ServerFlowStatistic
count_all [] s = s
count_all (e ∷ es) s = count_all es (count e s)

abbrev pub amount : Counted → ℕ
amount (tcp_sent n) = n
amount (tcp_received n) = n
amount (udp_sent n) = n
amount (udp_received n) = n

abbrev pub total : List Counted → ℕ
total [] = 0
total (e ∷ es) = amount e + total es

trans_stat-count :
    (e : Counted) (s : ServerFlowStatistic)
    → trans_stat (count e s) ≡ (trans_stat s + amount e) % u64_size
unfolding trans_stat incr_tx incr_rx
trans_stat-count (tcp_sent n) s = omega arith
trans_stat-count (tcp_received n) s = omega arith
trans_stat-count (udp_sent n) s = omega arith
trans_stat-count (udp_received n) s = omega arith

trans_stat_small : (s : ServerFlowStatistic) → trans_stat s % u64_size ≡ trans_stat s
unfolding trans_stat
trans_stat_small s = omega arith

-- After any sequence of counts, of bytes sent or received over TCP or UDP in any order, the
-- total is the total before and the sum of all amounts, modulo 2 to the 64.
pub trans_stat-count_all :
    (es : List Counted) (s : ServerFlowStatistic)
    → trans_stat (count_all es s) ≡ (trans_stat s + total es) % u64_size
trans_stat-count_all [] s = omega (arith, trans_stat_small s)
trans_stat-count_all (e ∷ es) s =
    omega (arith, trans_stat-count_all es (count e s), trans_stat-count e s)
