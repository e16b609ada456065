-- ===== src/Metrics.antt =====
-- The shared counters, src/metrics.rs. `fetch_add` and `fetch_sub` wrap at 64 bits.
use rust_socksd.Prelude.{ℕ, ◌+◌, ◌-◌, ◌%◌, ◌^◌}

pub record ServerMetrics : Type 0 where
  pub active_connections : ℕ
  pub total_connections : ℕ
  pub bytes_tx : ℕ
  pub bytes_rx : ℕ
  pub auth_failures : ℕ

abbrev pub u64_mod : ℕ
u64_mod = 2 ^ 64

abbrev pub fetch_add : ℕ → ℕ → ℕ
fetch_add n k = (n + k) % u64_mod

abbrev pub fetch_sub : ℕ → ℕ → ℕ
fetch_sub n k = (n + u64_mod - k) % u64_mod

-- `ServerMetrics::new`
abbrev pub create : ServerMetrics
create = record {
  active_connections = 0;
  total_connections = 0;
  bytes_tx = 0;
  bytes_rx = 0;
  auth_failures = 0;
}
