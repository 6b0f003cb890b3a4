-- ===== src/Nrs/Tbf/Compare.antt =====
-- The comparisons of the heap of clients in source/build/metric/nrs_tbf.c: by deadline
-- (`tbf_cli_compare`), and in the window order by request, with the address or with the job of the client
-- (`_sscdt_req_compare_nid`, `_sscdt_req_compare_jobid`). The second and the third read a request at
-- the node of a client; what stands there is an argument. `strcmp` is a parameter.
use lustre_tools.Base.{
  ℕ, ◌*◌, ◌^◌, ◌≤◌, ◌<◌, ◌≡◌, ◌≢◌, ◌⊎◌, ◌↔◌, sym, Bool, true, false, not, List, Option, none, some,
  ℤ, pos, div_ℤ, eqb_ℤ, to_u64, ltb, ◌==◌, if◌then◌else◌, arith,
}
use lustre_tools.Nrs.Tbf.Bucket.{Bucket, deadline}
use lustre_tools.Nrs.Sscdt.{Request, sscdt_req_compare}

unfoldable pub tbf_cli_compare : Bucket → Bucket → Bool
tbf_cli_compare cli1 cli2 =
    if ltb (deadline cli1) (deadline cli2)
    then true
    else if ltb (deadline cli2) (deadline cli1)
    then false
    else if ltb cli1.tc_check_time cli2.tc_check_time
    then true
    else if ltb cli2.tc_check_time cli1.tc_check_time
    then false
    else true

-- `tbf_tw_interval` is a number of type int.
abbrev pub tw_window : ℤ → Request → ℕ
tw_window tbf_tw_interval r = to_u64 (div_ℤ (pos (r.rq_sent * 1000)) tbf_tw_interval)

unfoldable pub sscdt_req_compare_nid : ℤ → Request → Request → Option Bool
sscdt_req_compare_nid tbf_tw_interval req1 req2 =
    if eqb_ℤ tbf_tw_interval (pos 0)
    then none
    else if not (tw_window tbf_tw_interval req1 == tw_window tbf_tw_interval req2)
    then some (ltb req1.rq_sent req2.rq_sent)
    else if req1.nid == req2.nid
    then some (ltb req1.pid req2.pid)
    else some (ltb req1.nid req2.nid)

module _ (strcmp : List ℕ → List ℕ → ℤ) where
  -- The job of each client, and the request; the result counts as true where it is not 0.
  unfoldable pub sscdt_req_compare_jobid : ℤ → List ℕ × Request → List ℕ × Request → Option Bool
  sscdt_req_compare_jobid tbf_tw_interval (jobid1, req1) (jobid2, req2) =
      if eqb_ℤ tbf_tw_interval (pos 0)
      then none
      else if not (tw_window tbf_tw_interval req1 == tw_window tbf_tw_interval req2)
      then some (ltb req1.rq_sent req2.rq_sent)
      else if req1.nid == req2.nid
      then some (not (eqb_ℤ (strcmp jobid1 jobid2) (pos 0)))
      else some (ltb req1.nid req2.nid)

-- What the code relies on of `strcmp`: it is 0 for equal strings only.
pub record IsStrcmp (strcmp : List ℕ → List ℕ → ℤ) : Type 0 where
  pub differs : (s t : List ℕ) → s ≢ t → strcmp s t ≢ pos 0

-- A client is above another exactly where its deadline, and at the same deadline its last check, is not
-- later.
pub tbf_cli_compare-deadline :
    (b c : Bucket)
    → (tbf_cli_compare b c ≡ true) ↔ (
        (deadline b < deadline c)
        ⊎ ((deadline b ≡ deadline c) × (b.tc_check_time ≤ c.tc_check_time)))
unfolding tbf_cli_compare
tbf_cli_compare-deadline b c = ground arith

-- With the same positive interval, the window order of this policy is that of the time window policy,
-- for times whose product with 1000 is a 64-bit word.
pub sscdt_req_compare_nid-sscdt_req_compare :
    (interval : ℕ) (r s : Request)
    → 0 < interval
    → r.rq_sent * 1000 < 2 ^ 64
    → s.rq_sent * 1000 < 2 ^ 64
    → sscdt_req_compare_nid (pos interval) r s ≡ sscdt_req_compare interval r s
unfolding sscdt_req_compare_nid sscdt_req_compare to_u64 div_ℤ
sscdt_req_compare_nid-sscdt_req_compare interval r s k_pos small small' = ground arith

-- The order by job is not one: of two requests of one window and one address with different jobs,
-- each is above the other.
pub sscdt_req_compare_jobid-both :
    (strcmp : List ℕ → List ℕ → ℤ) (interval : ℕ) (job job' : List ℕ) (r s : Request)
    → IsStrcmp strcmp
    → 0 < interval
    → tw_window (pos interval) r ≡ tw_window (pos interval) s
    → r.nid ≡ s.nid
    → job ≢ job'
    → (sscdt_req_compare_jobid strcmp (pos interval) (job, r) (job', s) ≡ some true)
      × (sscdt_req_compare_jobid strcmp (pos interval) (job', s) (job, r) ≡ some true)
unfolding sscdt_req_compare_jobid
sscdt_req_compare_jobid-both strcmp interval job job' r s c k_pos same peer other =
    let there = c.differs job job' other in
    let back = c.differs job' job (λ e. other (sym e)) in
    (ground (arith, there, same, peer), ground (arith, back, same, peer))
