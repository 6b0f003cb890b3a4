-- ===== src/Qos/Tests.antt =====
-- Runs of the control, and instances of the theorems.
use Prim.Native.Nat.{min, max}
use lustre_tools.Base.{
  ℕ, ◌+◌, ◌-◌, ◌*◌, ◌≤◌, ◌<◌, ◌≡◌, ◌⊎◌, refl, true, List, [], ◌∷◌, some, ℤ, pos, sub_ℕ, div_ℤ,
  to_s32, ◌+ℤ◌, ◌*ℤ◌, ◌<ℤ◌, ◌≤ℤ◌, Timeval, arith,
}
use lustre_tools.Qos.Data.{TimeEwma, QosRule, Bandwidth, QosData, micros, IsTimevalSub}
use lustre_tools.Qos.Bandwidth.{calc_all}
use lustre_tools.Qos.Bandwidth.History.{Reports, calc_all-Reports}
use lustre_tools.Qos.Ewma.{time_ewma_add_extlock, qos_get_ewma_usec, long_gap}
use lustre_tools.Qos.Ewma.Average.{time_ewma_add-average}
use lustre_tools.Qos.Throttle.{qos_throttle}
use lustre_tools.Qos.Throttle.Gap.{shortest, longest, qos_throttle-sleep}
use lustre_tools.Qos.Adjust.{
  find_rule, rule_fits, adjust_mrif, qos_adjust, unchanged, new_mrif, clamped_mrif, scaled_mrif,
}
use lustre_tools.Qos.Adjust.Limits.{adjust_mrif-limits}
use lustre_tools.Qos.Adjust.Select.{Selects, find_rule-Selects}
use lustre_tools.Qos.Adjust.Run.{IsValid, Returns, qos_adjust-Returns}

abbrev micros_sub : Timeval → Timeval → ℤ
micros_sub large small = sub_ℕ (micros large) (micros small)

micros_sub-IsTimevalSub : IsTimevalSub micros_sub
micros_sub-IsTimevalSub = record { elapsed = λ large small d e. ground (arith, e) }

-- A time of day, in microseconds after 43200 seconds.
abbrev at : ℕ → Timeval
at n = record { tv_sec = 43200; tv_usec = n }

abbrev next_second : Timeval
next_second = record { tv_sec = 43201; tv_usec = 0 }

abbrev idle : Bandwidth
idle = record { last_req_sec = 0; bw_last_sec = 0; sum_bytes_this_sec = 0 }

abbrev average : ℕ → TimeEwma
average n = record { alpha_inv = 8; ea = 8 * n; last_time = at 0 }

-- Fits any average, and halves the limit.
abbrev halving : QosRule
halving = record {
  ack_ewma_lower = 0;
  ack_ewma_upper = 1000000;
  send_ewma_lower = 0;
  send_ewma_upper = 1000000;
  rtt_ratio100_lower = 0;
  rtt_ratio100_upper = 100000;
  m100 = pos 50;
  b100 = pos 0;
  tau = 20;
  used_times = pos 0;
  ack_ewma_avg = 0;
  send_ewma_avg = 0;
  rtt_ratio100_avg = 0;
}

abbrev never_fits : QosRule
never_fits = record halving { ack_ewma_upper = 0 }

abbrev client : QosData
client = record {
  ack_ewma = average 100;
  sent_ewma = average 100;
  rtt_ratio100 = pos 0;
  smallest_rtt = pos 0;
  max_rpc_in_flight100 = pos 800;
  last_mrif_update_time = at 0;
  min_gap_between_updating_mrif = pos 1000;
  rule_no = pos 2;
  read = idle;
  write = idle;
  min_usec_between_rpcs = 500;
  last_rpc_time = at 0;
  rules = some (never_fits ∷ halving ∷ []);
}

client-IsValid : IsValid client
client-IsValid = record {
  ack = record { weight = refl; bounded = omega arith };
  sent = record { weight = refl; bounded = omega arith };
  rules_fit = refl;
}

abbrev requests : List (Timeval × ℤ × ℕ)
requests = (at 1, pos 0, 10) ∷ (at 2, pos 1, 5) ∷ (at 3, pos 0, 20) ∷ (next_second, pos 0, 7) ∷ []

halved : (adjust_mrif micros_sub client (at 2000) halving).1 ≡ pos 4
unfolding adjust_mrif new_mrif div_ℤ clamped_mrif scaled_mrif to_s32 ◌+ℤ◌ ◌*ℤ◌
halved = refl

calc_all-Reports_example :
    Reports 0 ((43200, 10) ∷ (43200, 20) ∷ (43201, 7) ∷ []) (calc_all client requests).read
    × Reports 0 ((43200, 5) ∷ []) (calc_all client requests).write
calc_all-Reports_example =
    calc_all-Reports client requests (refl, refl) (refl, refl) (omega arith) (omega arith)

time_ewma_add-average_example :
    (te' : TimeEwma) × (old : ℕ) × (avg : ℕ) × (time_ewma_add_extlock micros_sub
        (average 100)
        (at 50)
      ≡ some te')
    × (qos_get_ewma_usec (average 100) ≡ some old)
    × (qos_get_ewma_usec te' ≡ some avg)
    × (((50 ≤ long_gap) × (min old 50 ≤ avg) × (avg ≤ max old 50)) ⊎ ((long_gap < 50) × (avg ≡ 0)))
time_ewma_add-average_example =
    time_ewma_add-average micros_sub (average 100) (at 50) client-IsValid.ack (omega arith)

qos_throttle-sleep_example :
    let (q', s) = qos_throttle micros_sub client (at 200) in
    (500 ≤ 200 + shortest s + 999)
    × (shortest s ≤ longest s)
    × (longest s ≤ 500 - 200)
    × (q' ≡ record client { last_rpc_time = at 200 })
qos_throttle-sleep_example =
    qos_throttle-sleep micros_sub client (at 200) 200 micros_sub-IsTimevalSub (omega arith) refl

find_rule-Selects_example :
    Selects
      (λ r. rule_fits r 5 5 (pos 7))
      (never_fits ∷ halving ∷ [])
      (find_rule (λ r. rule_fits r 5 5 (pos 7)) 2 (never_fits ∷ halving ∷ []))
find_rule-Selects_example =
    find_rule-Selects (λ r. rule_fits r 5 5 (pos 7)) 2 (never_fits ∷ halving ∷ []) refl

adjust_mrif-limits_example :
    let (q', mrif) = adjust_mrif micros_sub client (at 2000) halving in
    (q'.min_usec_between_rpcs ≡ 20)
    × (((mrif ≡ unchanged)
          × (q'.max_rpc_in_flight100 ≡ pos 800)
          × (q'.last_mrif_update_time ≡ at 0))
        ⊎ ((n m : ℕ) × (q'.max_rpc_in_flight100 ≡ pos n)
            × (n ≤ 3000)
            × (mrif ≡ pos m)
            × (1 ≤ m)
            × (m ≤ 30)
            × (q'.last_mrif_update_time ≡ at 2000)
            × (pos 0 <ℤ pos 2000)
            × (pos 1000 ≤ℤ pos 2000)))
adjust_mrif-limits_example = adjust_mrif-limits micros_sub client (at 2000) halving

qos_adjust-Returns_example :
    Returns micros_sub
      (qos_adjust micros_sub true client (at 2000) (at 2001) (at 1900) (at 1500) (pos 0) (pos 4096))
qos_adjust-Returns_example =
    qos_adjust-Returns micros_sub true client (at 2000) (at 2001) (at 1900) (at 1500) (pos 0)
      (pos 4096) 500 0 client-IsValid ((0, refl, omega arith), ((0, refl, omega arith), tt)) refl
      (omega arith) refl
