-- ===== src/Qos/Throttle/Gap.antt =====
-- How long `qos_throttle` makes its callers wait, and what gap that leaves between requests.
use lustre_tools.Base.{ℕ, ◌+◌, ◌-◌, ◌*◌, ◌≤◌, ◌<◌, ◌≡◌, ◌≢◌, ℤ, pos, Timeval, arith}
use lustre_tools.Qos.Data.{QosData, IsTimevalSub, micros}
use lustre_tools.Qos.Throttle.{
  Sleep, awake, udelay, usleep_range, msleep, sleep_for, need_sleep, qos_throttle,
}

-- The shortest and the longest sleep that a call asks for, in microseconds.
abbrev pub shortest : Sleep → ℕ
shortest awake = 0
shortest (udelay n) = n
shortest (usleep_range n m) = n
shortest (msleep n) = n * 1000

abbrev pub longest : Sleep → ℕ
longest awake = 0
longest (udelay n) = n
longest (usleep_range n m) = m
longest (msleep n) = n * 1000

sleep_for-bounds :
    (n : ℕ)
    → (n ≤ shortest (sleep_for n) + 999)
      × (longest (sleep_for n) ≤ n)
      × (shortest (sleep_for n) ≤ longest (sleep_for n))
unfolding sleep_for
sleep_for-bounds n = ground arith

sleep_for-exact : (n : ℕ) → n < 1000 → shortest (sleep_for n) ≡ n
unfolding sleep_for
sleep_for-exact n h = ground arith

module _ (timeval_sub : Timeval → Timeval → ℤ) where
  -- A caller that arrives `d` microseconds after the last request sleeps for what is missing to the
  -- minimal gap, short of it by less than a millisecond and never longer; the gap then starts anew
  -- at the time of the call.
  pub qos_throttle-sleep :
      (q : QosData) (now : Timeval) (d : ℕ)
      → IsTimevalSub timeval_sub
      → q.min_usec_between_rpcs ≢ 0
      → micros now ≡ micros q.last_rpc_time + d
      → let (q', s) = qos_throttle timeval_sub q now in
        (q.min_usec_between_rpcs ≤ d + shortest s + 999)
        × (shortest s ≤ longest s)
        × (longest s ≤ q.min_usec_between_rpcs - d)
        × (q' ≡ record q { last_rpc_time = now })
  unfolding qos_throttle
  qos_throttle-sleep q now d sub on e =
      ground (
        arith,
        sleep_for-bounds (need_sleep timeval_sub q now),
        sub.elapsed now q.last_rpc_time d e,
      )

  -- The minimal gap is not kept. A request at time `t`, a caller that comes `d` later and a third one
  -- that comes as soon as the second is let go: the third is let go `d` after the second, although
  -- `d` is below the minimal gap (below a millisecond here, where the sleeps are exact).
  pub qos_throttle-gap_lost :
      (q : QosData) (second third : Timeval) (d : ℕ)
      → IsTimevalSub timeval_sub
      → q.min_usec_between_rpcs < 1000
      → 0 < d
      → d < q.min_usec_between_rpcs
      → micros second ≡ micros q.last_rpc_time + d
      → micros third ≡ micros second + shortest (qos_throttle timeval_sub q second).1
      → let (q', s) = qos_throttle timeval_sub q second in
        let (q'', s') = qos_throttle timeval_sub q' third in
        (d + shortest s ≡ q.min_usec_between_rpcs)
        × (shortest s' ≡ d)
        × (longest s' < q.min_usec_between_rpcs)
  unfolding qos_throttle sleep_for
  qos_throttle-gap_lost q second third d sub small some_time below e e' =
      let m = q.min_usec_between_rpcs in
      let first : timeval_sub second q.last_rpc_time ≡ pos d =
        sub.elapsed second q.last_rpc_time d e in
      let released : micros third ≡ micros second + (m - d) = ground arith in
      let then_at : timeval_sub third second ≡ pos (m - d) =
        sub.elapsed third second (m - d) released in
      ground arith
