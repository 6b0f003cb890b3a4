-- ===== src/Nrs/Tbf/Bucket.antt =====
-- The token bucket of a client in `nrs_tbf_req_get` of source/build/metric/nrs_tbf.c, and
-- `nrs_tbf_cli_reset_value`, which fills it from the rule.
pub mod Rate
pub mod Deadline
use lustre_tools.Base.{
  ℕ, ◌+◌, ◌-◌, ◌*◌, ◌/◌, ◌%◌, ◌^◌, Bool, true, false, List, [], ◌∷◌, Option, none, some, ltb, ◌==◌,
  if◌then◌else◌, add_u64, mul_u64,
}

-- `NSEC_PER_SEC`
abbrev pub nsec_per_sec : ℕ
nsec_per_sec = 1000000000

-- The fields of `struct nrs_tbf_client` that limit its rate.
pub record Bucket : Type 0 where
  pub tc_rpc_rate : ℕ
  pub tc_nsecs : ℕ
  pub tc_ntoken : ℕ
  pub tc_depth : ℕ
  pub tc_check_time : ℕ

-- The fields of `struct nrs_tbf_rule` that the bucket is filled from.
pub record Limit : Type 0 where
  pub tr_rpc_rate : ℕ
  pub tr_nsecs : ℕ
  pub tr_depth : ℕ

-- `tr_nsecs` is computed from the rate, which is not 0 (see `nrs_tbf_parse_cmd`).
abbrev pub limit_of : ℕ → ℕ → Limit
limit_of rate depth = record {
  tr_rpc_rate = rate;
  tr_nsecs = nsec_per_sec / rate;
  tr_depth = depth;
}

-- The part of `nrs_tbf_cli_reset_value` about the bucket; `now` is `ktime_get`.
unfoldable pub reset_value : Limit → ℕ → Bucket
reset_value rule now = record {
  tc_rpc_rate = rule.tr_rpc_rate;
  tc_nsecs = rule.tr_nsecs;
  tc_depth = rule.tr_depth;
  tc_ntoken = rule.tr_depth;
  tc_check_time = now;
}

-- The tokens at time `now`.
unfoldable pub tokens_at : Bucket → ℕ → ℕ
tokens_at b now =
    let passed = now - b.tc_check_time in
    let ntoken = add_u64 (mul_u64 passed b.tc_rpc_rate / nsec_per_sec) b.tc_ntoken in
    if ltb b.tc_depth ntoken then b.tc_depth else ntoken

abbrev pub deadline : Bucket → ℕ
deadline b = add_u64 b.tc_check_time b.tc_nsecs

-- What the root client of the heap gets at time `now`.
pub data Verdict : Type 0 where
  -- The bucket with one token less: a request is handed out.
  grant : Bucket → Verdict
  -- No token: the policy throttles until this time.
  throttle : ℕ → Verdict
  -- `LASSERT(now >= cli->tc_check_time)` fails.
  lassert : Verdict

unfoldable pub ask : Bucket → ℕ → Verdict
ask b now =
    if ltb now b.tc_check_time
    then lassert
    else if ltb 0 (tokens_at b now)
    then grant (record b { tc_ntoken = tokens_at b now - 1; tc_check_time = now })
    else throttle (deadline b)

-- A client that is asked at the times of a list: the requests handed out, and its bucket at the end.
unfoldable pub serve : Bucket → List ℕ → ℕ × Bucket
serve b [] = (0, b)
serve b (now ∷ rest) = elim (ask b now) [
  | grant b' ↦ let (n, b'') = serve b' rest in (n + 1, b'')
  | throttle t ↦ serve b rest
  | lassert ↦ (0, b)
]
