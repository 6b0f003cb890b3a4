-- ===== src/Lfz/Budget.antt =====
-- What `throttle_bandwidth` does with the budget of a second.
use lustre_tools.Base.{
  ℕ, ◌+◌, ◌-◌, ◌^◌, ◌≤◌, ◌<◌, ◌≡◌, List, [], ◌∷◌, ℤ, pos, to_u64, Timeval, arith,
}
use lustre_tools.Lfz.{TbfCounter, throttle_bandwidth, throttle_all}

-- The budget and the rate of a counter are 64-bit words.
pub record IsValid (c : TbfCounter) : Type 0 where
  pub rate_word : c.total_tbf_rate < 2 ^ 64
  pub resid_word : c.resid_tbf < 2 ^ 64

-- No call of the throttle ever sleeps, whatever the counter, the time and the bytes are.
pub throttle_bandwidth-never_sleeps :
    (c : TbfCounter) (now : Timeval) (b : ℤ) → (throttle_bandwidth c now b).1 ≡ 0
unfolding throttle_bandwidth
throttle_bandwidth-never_sleeps c now b = ground arith

-- A transfer that is larger than what is left of the second is not held back: the call does not
-- sleep, and the budget wraps round to more than it was.
pub throttle_bandwidth-overdraft :
    (c : TbfCounter) (now : Timeval) (b : ℕ)
    → now.tv_sec ≡ c.last_time.tv_sec
    → c.resid_tbf < b
    → b < 2 ^ 31
    → ((throttle_bandwidth c now (pos b)).1 ≡ 0)
      × ((throttle_bandwidth c now (pos b)).0.resid_tbf ≡ c.resid_tbf + 2 ^ 64 - b)
      × (c.resid_tbf < (throttle_bandwidth c now (pos b)).0.resid_tbf)
unfolding throttle_bandwidth to_u64
throttle_bandwidth-overdraft c now b same over word = ground arith

-- A call keeps the words of the counter in their range, and never changes the rate.
pub throttle_bandwidth-IsValid :
    {c : TbfCounter} (now : Timeval) (b : ℤ)
    → IsValid c
    → IsValid (throttle_bandwidth c now b).0
      × ((throttle_bandwidth c now b).0.total_tbf_rate ≡ c.total_tbf_rate)
unfolding throttle_bandwidth to_u64
throttle_bandwidth-IsValid now b v = ground arith

-- The first transfer of a later second is charged to a full budget, if the rate allows it.
pub throttle_bandwidth-refill :
    (c : TbfCounter) (now : Timeval) (b : ℕ)
    → IsValid c
    → c.last_time.tv_sec < now.tv_sec
    → 0 < b
    → b ≤ c.total_tbf_rate
    → (throttle_bandwidth c now (pos b)).0 ≡ record {
      total_tbf_rate = c.total_tbf_rate;
      resid_tbf = c.total_tbf_rate - b;
      last_time = now;
    }
unfolding throttle_bandwidth to_u64
throttle_bandwidth-refill c now b v later some_bytes fits = ground arith

-- The bytes of a list of transfers.
abbrev pub total_bytes : List (Timeval × ℕ) → ℕ
total_bytes [] = 0
total_bytes ((now, b) ∷ rest) = b + total_bytes rest

-- All transfers fall into one second.
abbrev pub Within : ℕ → List (Timeval × ℕ) → Type 0
Within s [] = Unit
Within s ((now, b) ∷ rest) = (now.tv_sec ≡ s) × Within s rest

throttle_bandwidth-same :
    (c : TbfCounter) (now : Timeval) (b : ℕ)
    → IsValid c
    → now.tv_sec ≡ c.last_time.tv_sec
    → b ≤ c.resid_tbf
    → (throttle_bandwidth c now (pos b)).0 ≡ record c { resid_tbf = c.resid_tbf - b }
unfolding throttle_bandwidth to_u64
throttle_bandwidth-same c now b v same fits = ground arith

-- Transfers within one second that the budget covers together are charged to the byte: what is left
-- is the budget less their sum, and nothing else changes.
pub throttle_all-Within :
    (xs : List (Timeval × ℕ)) (c : TbfCounter)
    → IsValid c
    → Within c.last_time.tv_sec xs
    → total_bytes xs ≤ c.resid_tbf
    → throttle_all c xs ≡ record c { resid_tbf = c.resid_tbf - total_bytes xs }
unfolding throttle_all
throttle_all-Within [] c v w h = ground arith
throttle_all-Within ((now, b) ∷ rest) c v w h = ground (
  arith,
  throttle_bandwidth-same c now b v w.0 (omega arith),
  throttle_all-Within rest (record c { resid_tbf = c.resid_tbf - b }) (omega arith) w.1,
)
