-- ===== src/Qos/Throttle.antt =====
-- `qos_throttle` of source/build/metric/metric.h: the gap between two requests. The write path
-- (`osc_io_unplug0` of osc_cache.c) and `osc_build_rpc` (osc_request.c) call it before a request.
pub mod Gap
use lustre_tools.Base.{ℕ, ◌-◌, ◌/◌, ℤ, pos, pos_part, ltb, ltb_ℤ, ◌==◌, if◌then◌else◌, Timeval}
use lustre_tools.Qos.Data.{QosData}

-- The call that puts the caller to sleep; `awake` is the early return.
pub data Sleep : Type 0 where
  awake : Sleep
  udelay : ℕ → Sleep
  usleep_range : ℕ → ℕ → Sleep
  msleep : ℕ → Sleep

-- The last part of `qos_throttle`.
unfoldable pub sleep_for : ℕ → Sleep
sleep_for need_sleep_usec =
    if need_sleep_usec == 0
    then awake
    else if ltb need_sleep_usec 1000
    then udelay need_sleep_usec
    else if ltb need_sleep_usec 20000
    then usleep_range (need_sleep_usec - 1) need_sleep_usec
    else msleep (need_sleep_usec / 1000)

module _ (timeval_sub : Timeval → Timeval → ℤ) where
  -- A negative time since the last request counts as 0.
  abbrev pub usec_since_last_rpc : QosData → Timeval → ℕ
  usec_since_last_rpc q now = pos_part (timeval_sub now q.last_rpc_time)

  abbrev pub need_sleep : QosData → Timeval → ℕ
  need_sleep q now =
      if ltb (usec_since_last_rpc q now) q.min_usec_between_rpcs
      then q.min_usec_between_rpcs - usec_since_last_rpc q now
      else 0

  -- The new data, and how the caller sleeps after it has given up the lock.
  unfoldable pub qos_throttle : QosData → Timeval → QosData × Sleep
  qos_throttle q now =
      if q.min_usec_between_rpcs == 0
      then (q, awake)
      else (record q { last_rpc_time = now }, sleep_for (need_sleep q now))
