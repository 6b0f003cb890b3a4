-- ===== src/Nrs/Tbf/Bucket/Deadline.antt =====
-- The deadline that the timer waits for, against the time at which a token is there.
use native.Mathlib.Nat.{div-mul-le_self, div-add-mod', mod-lt, add-mul, div-le_self}
use lustre_tools.Base.{
  ℕ, ◌+◌, ◌-◌, ◌*◌, ◌/◌, ◌^◌, ◌≤◌, ◌<◌, ◌≡◌, ◌≢◌, ◌∙◌, if◌then◌else◌, arith, ltb,
}
use lustre_tools.Nrs.Tbf.Bucket.{Bucket, grant, throttle, tokens_at, ask, nsec_per_sec, deadline}

-- A bucket that a rule of rate `rate` has filled, within the times of some centuries.
pub record IsLimited (b : Bucket) (rate : ℕ) : Type 0 where
  pub rate_pos : 0 < rate
  pub rate_max : rate < 65535
  pub rate_eq : b.tc_rpc_rate ≡ rate
  pub nsecs_eq : b.tc_nsecs ≡ nsec_per_sec / rate
  pub depth_pos : 0 < b.tc_depth
  pub early : b.tc_check_time < 2 ^ 63
  pub empty : b.tc_ntoken ≡ 0

-- The tokens after `x` nanoseconds.
abbrev after : ℕ → ℕ → ℕ → ℕ
after rate depth x = if ltb depth (x * rate / nsec_per_sec) then depth else x * rate / nsec_per_sec

tokens_after :
    (b : Bucket) (rate x : ℕ)
    → IsLimited b rate
    → x * rate < 2 ^ 64
    → tokens_at b (b.tc_check_time + x) ≡ after rate b.tc_depth x
unfolding tokens_at
tokens_after b rate x l small =
    let passed : b.tc_check_time + x - b.tc_check_time ≡ x = omega arith in
    rw (passed, l.rate_eq, l.empty) (ground arith)

interval_le : (rate : ℕ) → nsec_per_sec / rate * rate ≤ nsec_per_sec
interval_le rate = div-mul-le_self nsec_per_sec rate

interval_next : (rate : ℕ) → 0 < rate → nsec_per_sec < nsec_per_sec / rate * rate + rate
interval_next rate h = omega (arith, div-add-mod' nsec_per_sec rate, mod-lt nsec_per_sec h)

deadline-eq :
    (b : Bucket) (rate : ℕ) → IsLimited b rate → deadline b ≡ b.tc_check_time + nsec_per_sec / rate
deadline-eq b rate l = rw l.nsecs_eq (omega (arith, div-le_self nsec_per_sec rate, l.early))

-- Where the rate does not divide a second, the deadline comes too early: at it there is no token
-- yet, the client is throttled once more, and the new deadline is the old one, which has passed.
pub ask-deadline_early :
    (b : Bucket) (rate : ℕ)
    → IsLimited b rate
    → nsec_per_sec / rate * rate ≢ nsec_per_sec
    → ask b (deadline b) ≡ throttle (deadline b)
unfolding ask
ask-deadline_early b rate l ne =
    let x = nsec_per_sec / rate in
    let le = interval_le rate in
    let tokens : tokens_at b (b.tc_check_time + x) ≡ 0 =
      tokens_after b rate x l (omega arith) ∙ ground arith in
    rw (deadline-eq b rate l) (ground arith)

-- One nanosecond later there is one token, at any rate, and the client gets its request.
pub ask-deadline_next :
    (b : Bucket) (rate : ℕ)
    → IsLimited b rate
    → ask b (deadline b + 1) ≡ grant (record b { tc_ntoken = 0; tc_check_time = deadline b + 1 })
unfolding ask
ask-deadline_next b rate l =
    let x = nsec_per_sec / rate + 1 in
    let grown : x * rate ≡ nsec_per_sec / rate * rate + rate =
      omega (arith, add-mul (nsec_per_sec / rate) 1 rate) in
    let le = interval_le rate in
    let next = interval_next rate l.rate_pos in
    let tokens : tokens_at b (b.tc_check_time + x) ≡ 1 =
      tokens_after b rate x l (omega (arith, l.rate_max))
      ∙ ground (arith, l.rate_max, l.depth_pos) in
    let time : deadline b + 1 ≡ b.tc_check_time + x = omega (arith, deadline-eq b rate l) in
    rw time (ground arith)
