-- ===== src/Flow.antt =====
-- relay/flow.rs: the counters of the bytes that the servers relay, as 64-bit numbers.
pub mod Totals
mod Tests
use shadowsocks_rust.Common.{
  ℕ, ◌+◌, ◌%◌, ◌==◌, List, [], ◌∷◌, Bool, Option, none, some, if◌then◌else◌,
}

-- `2 ^ 64`.
abbrev pub u64_size : ℕ
u64_size = 18446744073709551616

pub record FlowStatistic : Type 0 where
  pub tx : ℕ
  pub rx : ℕ

abbrev pub new_flow : FlowStatistic
new_flow = record { tx = 0; rx = 0 }

-- `fetch_add` wraps around.
unfoldable pub incr_tx : ℕ → FlowStatistic → FlowStatistic
incr_tx n f = record f { tx = (f.tx + n) % u64_size }

unfoldable pub incr_rx : ℕ → FlowStatistic → FlowStatistic
incr_rx n f = record f { rx = (f.rx + n) % u64_size }

pub record ServerFlowStatistic : Type 0 where
  pub tcp : FlowStatistic
  pub udp : FlowStatistic

abbrev pub new_server_flow : ServerFlowStatistic
new_server_flow = record { tcp = new_flow; udp = new_flow }

-- The sums wrap around, as they do in a build without overflow checks.
unfoldable pub trans_stat : ServerFlowStatistic → ℕ
trans_stat s = (((s.tcp.tx + s.tcp.rx) % u64_size + s.udp.tx) % u64_size + s.udp.rx) % u64_size

-- `MultiServerFlowStatistic`: the statistics by port.
abbrev pub MultiServerFlowStatistic : Type 0
MultiServerFlowStatistic = List (ℕ × ServerFlowStatistic)

unfoldable pub new_multi : List ℕ → MultiServerFlowStatistic
new_multi [] = []
new_multi (port ∷ ports) = (port, new_server_flow) ∷ new_multi ports

unfoldable pub get : MultiServerFlowStatistic → ℕ → Option ServerFlowStatistic
get [] port = none
get ((p, s) ∷ rest) port = let later = get rest port in if p == port then some s else later
