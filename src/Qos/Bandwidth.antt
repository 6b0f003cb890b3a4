-- ===== src/Qos/Bandwidth.antt =====
-- `calc_bandwidth` of source/build/metric/metric.h: the bytes of the last full second and those of
-- the running one, for reads and for writes.
pub mod History
use lustre_tools.Base.{
  ℕ, ◌+◌, List, [], ◌∷◌, ℤ, pos, to_u64, eqb_ℤ, add_u64, ltb, ◌==◌, if◌then◌else◌, Timeval,
}
use lustre_tools.Qos.Data.{Bandwidth, QosData}

-- The body of `calc_bandwidth` at one operation; a time before the last request's is ignored.
unfoldable pub account : Bandwidth → ℕ → ℤ → Bandwidth
account b now bytes_transferred =
    if now == b.last_req_sec
    then record b { sum_bytes_this_sec = add_u64 b.sum_bytes_this_sec (to_u64 bytes_transferred) }
    else if now == b.last_req_sec + 1
    then record {
      last_req_sec = now;
      bw_last_sec = b.sum_bytes_this_sec;
      sum_bytes_this_sec = to_u64 bytes_transferred;
    }
    else if ltb (b.last_req_sec + 1) now
    then record {
      last_req_sec = now;
      bw_last_sec = 0;
      sum_bytes_this_sec = to_u64 bytes_transferred;
    }
    else b

-- `op` is 0 for a read and 1 for a write.
unfoldable pub calc_bandwidth : QosData → Timeval → ℤ → ℤ → QosData
unfolding account
calc_bandwidth q now op bytes_transferred =
    if eqb_ℤ op (pos 0)
    then record q { read = account q.read now.tv_sec bytes_transferred }
    else if eqb_ℤ op (pos 1)
    then record q { write = account q.write now.tv_sec bytes_transferred }
    else q

-- The calls at one operation, oldest first: the second and the bytes of each.
unfoldable pub account_all : Bandwidth → List (ℕ × ℕ) → Bandwidth
account_all b [] = b
account_all b ((now, bytes) ∷ rest) = account_all (account b now (pos bytes)) rest

-- A sequence of calls, oldest first: the time, the operation and the bytes of each.
unfoldable pub calc_all : QosData → List (Timeval × ℤ × ℕ) → QosData
calc_all q [] = q
calc_all q ((now, op, bytes) ∷ rest) = calc_all (calc_bandwidth q now op (pos bytes)) rest
