-- ===== src/Qos/Adjust.antt =====
-- `qos_adjust` of source/build/metric/osc_request.c, which `brw_interpret` calls for each reply, and
-- `client_adjust_max_dirty` (source/build/metric/obd.h).
-- `cfs_timeval_sub`, the clock, the request pool and the machine's memory are arguments.
pub mod Limits
pub mod Select
pub mod Run
use lustre_tools.Base.{
  ◌>>=◌, ◌>>◌, ℕ, zero, suc, ◌+◌, ◌-◌, ◌*◌, ◌/◌, ◌^◌, Bool, true, false, not, ◌&&◌, ◌||◌, List, [],
  ◌∷◌, ◌++◌, Option, none, some, ℤ, pos, negsuc, pos_part, ◌+ℤ◌, ◌-ℤ◌, ◌*ℤ◌, div_ℤ, ltb_ℤ, leb_ℤ,
  eqb_ℤ, to_u64, to_u32, to_s32, to_s64, signed64, signed32, ltb, leb, ◌==◌, if◌then◌else◌, Timeval,
  enodev, success,
}
use lustre_tools.Qos.Data.{TimeEwma, QosRule, QosData}
use lustre_tools.Qos.Ewma.{time_ewma_add_extlock, qos_get_ewma_usec}
use lustre_tools.Qos.Bandwidth.{calc_bandwidth}

-- The test of a rule. The ratio is compared with the bounds as an unsigned word.
unfoldable pub rule_fits : QosRule → ℕ → ℕ → ℤ → Bool
rule_fits r ack_ewma sent_ewma rtt_ratio100 =
    leb r.ack_ewma_lower ack_ewma
    && ltb ack_ewma r.ack_ewma_upper
    && leb r.send_ewma_lower sent_ewma
    && ltb sent_ewma r.send_ewma_upper
    && leb r.rtt_ratio100_lower (to_u32 rtt_ratio100)
    && ltb (to_u32 rtt_ratio100) r.rtt_ratio100_upper

-- What the loop over `rules[0 .. rule_no)` finds: no rule, the first that fits with those before and
-- behind it, or a read past the end of the array.
pub data Found : Type 0 where
  nothing : Found
  first : List QosRule → QosRule → List QosRule → Found
  past_end : Found

abbrev pub behind : QosRule → Found → Found
behind r nothing = nothing
behind r (first before r' after) = first (r ∷ before) r' after
behind r past_end = past_end

unfoldable pub find_rule : (QosRule → Bool) → ℕ → List QosRule → Found
find_rule fits zero rs = nothing
find_rule fits (suc left) [] = past_end
find_rule fits (suc left) (r ∷ rs) =
    let rest = behind r (find_rule fits left rs) in if fits r then first [] r rs else rest

-- The statistics of the rule that is used: running averages in machine words.
unfoldable pub use_rule : QosRule → ℕ → ℕ → ℤ → Option QosRule
use_rule r ack_ewma sent_ewma rtt_ratio100 =
    let used = to_s32 (r.used_times +ℤ pos 1) in
    if eqb_ℤ used (pos 0)
    then none
    else some (record r {
      used_times = used;
      ack_ewma_avg = to_u64 (
          pos r.ack_ewma_avg +ℤ div_ℤ (to_s64 (signed64 ack_ewma -ℤ signed64 r.ack_ewma_avg)) used);
      send_ewma_avg = to_u64 (
          pos r.send_ewma_avg
          +ℤ div_ℤ (to_s64 (signed64 sent_ewma -ℤ signed64 r.send_ewma_avg)) used);
      rtt_ratio100_avg = to_u32 (
          pos r.rtt_ratio100_avg
          +ℤ div_ℤ (to_s32 (rtt_ratio100 -ℤ signed32 r.rtt_ratio100_avg)) used);
    })

abbrev pub mrif_upper_limit : ℕ
mrif_upper_limit = 30

-- The new `max_rpc_in_flight100` under a rule; a negative `m100` is disabled.
unfoldable pub scaled_mrif : ℤ → QosRule → ℤ
scaled_mrif mrif r =
    to_s32
      ((if ltb_ℤ r.m100 (pos 0) then mrif else div_ℤ (to_s32 (mrif *ℤ r.m100)) (pos 100)) +ℤ r.b100)

unfoldable pub clamped_mrif : ℤ → ℤ
clamped_mrif mrif =
    if ltb_ℤ mrif (pos 0)
    then pos 0
    else if ltb_ℤ (pos (mrif_upper_limit * 100)) mrif
    then pos (mrif_upper_limit * 100)
    else mrif

-- The number of requests in flight that it stands for, at least one.
unfoldable pub new_mrif : ℤ → ℤ
new_mrif mrif = if ltb_ℤ (div_ℤ mrif (pos 100)) (pos 1) then pos 1 else div_ℤ mrif (pos 100)

-- -1: no change is needed.
abbrev pub unchanged : ℤ
unchanged = negsuc 0

-- The smallest round trip so far; 0 stands for none.
unfoldable pub smaller_rtt : ℤ → ℤ → ℤ
smaller_rtt smallest rtt = if eqb_ℤ (pos 0) smallest || ltb_ℤ rtt smallest then rtt else smallest

-- The round trip in percent of the smallest one.
unfoldable pub measure_rtt : QosData → ℤ → Option QosData
measure_rtt q rtt =
    let smallest = smaller_rtt q.smallest_rtt rtt in
    if eqb_ℤ smallest (pos 0)
    then none
    else some (record q {
      smallest_rtt = smallest;
      rtt_ratio100 = to_s32 (div_ℤ (to_s64 (rtt *ℤ pos 100)) smallest);
    })

module _ (timeval_sub : Timeval → Timeval → ℤ) where
  -- Enough time since the last update, and more than none.
  abbrev pub may_update : QosData → Timeval → Bool
  may_update q now =
      let since = timeval_sub now q.last_mrif_update_time in
      ltb_ℤ (pos 0) since && leb_ℤ q.min_gap_between_updating_mrif since

  -- The part of the loop's body behind the statistics.
  unfoldable pub adjust_mrif : QosData → Timeval → QosRule → QosData × ℤ
  adjust_mrif q now r =
      let mrif = clamped_mrif (scaled_mrif q.max_rpc_in_flight100 r) in
      if may_update q now
      then (
        record q {
          last_mrif_update_time = now;
          max_rpc_in_flight100 = mrif;
          min_usec_between_rpcs = r.tau;
        },
        new_mrif mrif,
      )
      else (record q { min_usec_between_rpcs = r.tau }, unchanged)

  -- The body of the loop at the rule that is found.
  unfoldable pub apply_found : QosData → Timeval → ℕ → ℕ → Found → Option (QosData × ℤ)
  apply_found q now ack_ewma sent_ewma nothing = some (q, unchanged)
  apply_found q now ack_ewma sent_ewma past_end = none
  apply_found q now ack_ewma sent_ewma (first before r after) =
      use_rule r ack_ewma sent_ewma q.rtt_ratio100 >>= λ r'.
      some (adjust_mrif (record q { rules = some (before ++ r' ∷ after) }) now r')

  -- From the test for rules on; the rules are those of the data.
  unfoldable pub apply_rules :
      Bool → QosData → Timeval → ℕ → ℕ → Option (List QosRule) → Option (QosData × ℤ)
  apply_rules has_import q now ack_ewma sent_ewma none = some (q, unchanged)
  apply_rules has_import q now ack_ewma sent_ewma (some rs) =
      if not has_import
      then some (q, unchanged)
      else apply_found q now ack_ewma sent_ewma
          (find_rule (λ r. rule_fits r ack_ewma sent_ewma q.rtt_ratio100) (pos_part q.rule_no) rs)

  -- The part of `qos_adjust` under the lock: the new data and the new limit. `none` is a division by
  -- zero or a read past the end of the rules. `bw_now` is the clock that `calc_bandwidth` reads later.
  unfoldable pub qos_adjust :
      Bool → QosData → Timeval → Timeval → Timeval → Timeval → ℤ → ℤ → Option (QosData × ℤ)
  qos_adjust has_import q now bw_now new_ack_time new_sent_time op bytes_transferred = do
    ack ← time_ewma_add_extlock timeval_sub q.ack_ewma new_ack_time
    ack_ewma ← qos_get_ewma_usec ack
    sent ← time_ewma_add_extlock timeval_sub q.sent_ewma new_sent_time
    sent_ewma ← qos_get_ewma_usec sent
    q' ← measure_rtt (record q { ack_ewma = ack; sent_ewma = sent }) (timeval_sub now new_sent_time)
    let q'' = calc_bandwidth q' bw_now op bytes_transferred
    apply_rules has_import q'' now ack_ewma sent_ewma q''.rules

-- The fields of `struct client_obd` that the control changes, and the pool of requests.
pub record ClientObd : Type 0 where
  pub cl_max_rpcs_in_flight : ℕ
  pub cl_max_pages_per_rpc : ℕ
  pub cl_dirty_max_pages : ℕ
  pub osc_pool_req_count : ℕ

-- `client_adjust_max_dirty`, with the page's bits and the machine's pages.
unfoldable pub client_adjust_max_dirty : ℕ → ℕ → ClientObd → ClientObd
client_adjust_max_dirty page_shift totalram_pages cli =
    let wanted =
      if cli.cl_dirty_max_pages == 0
      then 32 * 1024 * 1024 / 2 ^ page_shift
      else let dirty_max = cli.cl_max_rpcs_in_flight * cli.cl_max_pages_per_rpc in
        if ltb cli.cl_dirty_max_pages dirty_max then dirty_max else cli.cl_dirty_max_pages in
    record cli {
      cl_dirty_max_pages = if ltb (totalram_pages / 8) wanted then totalram_pages / 8 else wanted;
    }

-- The last part of `qos_adjust`: a new limit is set on the client, and the pool grows towards
-- `osc_reqpool_maxreqcount`. `populate` gives the number of requests that the pool could add.
unfoldable pub set_mrif : Bool → (ℕ → ℕ) → ℕ → ℕ → ℕ → ClientObd → ℕ → ℤ × ClientObd
unfolding client_adjust_max_dirty
set_mrif has_import populate maxreqcount page_shift totalram_pages cli mrif =
    if not has_import
    then (enodev, cli)
    else let adding = mrif - cli.cl_max_rpcs_in_flight in
      let room = maxreqcount - cli.osc_pool_req_count in
      let count =
        if ltb 0 adding && ltb cli.osc_pool_req_count maxreqcount
        then cli.osc_pool_req_count + populate (if ltb room adding then room else adding)
        else cli.osc_pool_req_count in
      (
        success,
        client_adjust_max_dirty page_shift totalram_pages
            (record cli { osc_pool_req_count = count; cl_max_rpcs_in_flight = mrif }),
      )
