-- ===== src/Qos/Data.antt =====
-- The structures of source/build/metric/metric.h.
use lustre_tools.Base.{ℕ, ◌+◌, ◌*◌, ◌≡◌, List, Option, ℤ, pos, Timeval}

-- `struct time_ewma`
pub record TimeEwma : Type 0 where
  pub alpha_inv : ℕ
  pub ea : ℕ
  pub last_time : Timeval

-- `struct qos_rule_t`
pub record QosRule : Type 0 where
  pub ack_ewma_lower : ℕ
  pub ack_ewma_upper : ℕ
  pub send_ewma_lower : ℕ
  pub send_ewma_upper : ℕ
  pub rtt_ratio100_lower : ℕ
  pub rtt_ratio100_upper : ℕ
  pub m100 : ℤ
  pub b100 : ℤ
  pub tau : ℕ
  pub used_times : ℤ
  pub ack_ewma_avg : ℕ
  pub send_ewma_avg : ℕ
  pub rtt_ratio100_avg : ℕ

-- The three fields of `struct qos_data_t` that are arrays over the operation, at one operation.
pub record Bandwidth : Type 0 where
  pub last_req_sec : ℕ
  pub bw_last_sec : ℕ
  pub sum_bytes_this_sec : ℕ

-- `struct qos_data_t`. The arrays over the operation are `read` (index 0) and `write` (index 1), and
-- `rules` is `none` for NULL. The lock serialises the functions below.
pub record QosData : Type 0 where
  pub ack_ewma : TimeEwma
  pub sent_ewma : TimeEwma
  pub rtt_ratio100 : ℤ
  pub smallest_rtt : ℤ
  pub max_rpc_in_flight100 : ℤ
  pub last_mrif_update_time : Timeval
  pub min_gap_between_updating_mrif : ℤ
  pub rule_no : ℤ
  pub read : Bandwidth
  pub write : Bandwidth
  pub min_usec_between_rpcs : ℕ
  pub last_rpc_time : Timeval
  pub rules : Option (List QosRule)

-- A time in microseconds.
abbrev pub micros : Timeval → ℕ
micros t = t.tv_sec * 1000000 + t.tv_usec

-- What the code relies on of libcfs's `cfs_timeval_sub(large, small, NULL)`: it is the difference in
-- microseconds.
pub record IsTimevalSub (timeval_sub : Timeval → Timeval → ℤ) : Type 0 where
  pub elapsed :
      (large small : Timeval) (d : ℕ)
      → micros large ≡ micros small + d
      → timeval_sub large small ≡ pos d
