-- ===== src/Service.antt =====
-- The threads of a request service in source/build/metric/service.c: which requests a thread may take
-- (`ptlrpc_server_allow_high` to `ptlrpc_server_request_get`), the end of a request
-- (`ptlrpc_server_finish_active_request`) and the tests for more threads.
-- The queues of the request scheduler are a parameter: what is pending, what is throttled, and the next
-- request of the high priority or of the ordinary queue (`ptlrpc_nrs_req_*_nolock`).
-- The differences of the counters, which are ints, are written as sums.
pub mod Fair
pub mod Reserve
pub mod Timed
mod Tests
use lustre_tools.Base.{
  ℕ, ◌+◌, ◌-◌, Bool, true, false, not, ◌&&◌, ◌||◌, Option, none, some, ltb, leb, ◌==◌,
  if◌then◌else◌,
}

-- The part of `struct ptlrpc_request` that is counted.
pub record PtlrpcRequest : Type 0 where
  pub rq_xid : ℕ
  pub rq_hp : Bool

-- The first argument of each operation after the queues is the priority, of `get` also `force`.
pub record Nrs {ℓ} (Q : Type ℓ) : Type ℓ where
  pub pending : Q → Bool → Bool
  pub throttling : Q → Bool → Bool
  pub get : Q → Bool → Bool → Option PtlrpcRequest × Q

-- `struct ptlrpc_service_part` with the parts of its service. `resend_fail_point` is the test for the
-- metadata portal and its fail point.
pub record ServicePart {ℓ} (Q : Type ℓ) : Type ℓ where
  pub scp_nthrs_running : ℕ
  pub scp_nthrs_starting : ℕ
  pub srv_nthrs_cpt_limit : ℕ
  pub scp_nreqs_active : ℕ
  pub scp_nhreqs_active : ℕ
  pub scp_hreq_count : ℕ
  pub srv_hpreq_ratio : ℕ
  pub has_hp : Bool
  pub has_hpreq_handler : Bool
  pub resend_fail_point : Bool
  pub queues : Q

-- PTLRPC_NTHRS_INIT
abbrev pub nthrs_init : ℕ
nthrs_init = 2

module _ {ℓ} {Q : Type ℓ} (nrs : Nrs Q) where
  -- With the fail point, one thread is left for ordinary requests.
  unfoldable pub running : ServicePart Q → ℕ
  running svcpt =
      if svcpt.resend_fail_point
      then (if svcpt.has_hpreq_handler then nthrs_init + 1 else nthrs_init)
      else svcpt.scp_nthrs_running

  unfoldable pub ptlrpc_server_allow_high : ServicePart Q → Bool → Bool
  ptlrpc_server_allow_high svcpt force =
      if not svcpt.has_hp
      then false
      else if force
      then true
      else if nrs.throttling svcpt.queues true
      then false
      else if leb (running svcpt) (svcpt.scp_nreqs_active + 1)
      then false
      else if svcpt.scp_nhreqs_active == 0
      then true
      else not (nrs.pending svcpt.queues false) || ltb svcpt.scp_hreq_count svcpt.srv_hpreq_ratio

  unfoldable pub ptlrpc_server_high_pending : ServicePart Q → Bool → Bool
  ptlrpc_server_high_pending svcpt force =
      ptlrpc_server_allow_high svcpt force && nrs.pending svcpt.queues true

  unfoldable pub ptlrpc_server_allow_normal : ServicePart Q → Bool → Bool
  ptlrpc_server_allow_normal svcpt force =
      if force
      then true
      else if nrs.throttling svcpt.queues false
      then false
      else if ltb (svcpt.scp_nreqs_active + 2) (running svcpt)
      then true
      else if leb (running svcpt) (svcpt.scp_nreqs_active + 1)
      then false
      else ltb 0 svcpt.scp_nhreqs_active || not svcpt.has_hp

  unfoldable pub ptlrpc_server_normal_pending : ServicePart Q → Bool → Bool
  ptlrpc_server_normal_pending svcpt force =
      ptlrpc_server_allow_normal svcpt force && nrs.pending svcpt.queues false

  unfoldable pub ptlrpc_server_request_pending : ServicePart Q → Bool → Bool
  ptlrpc_server_request_pending svcpt force =
      ptlrpc_server_high_pending svcpt force || ptlrpc_server_normal_pending svcpt force

  -- `got_request`
  unfoldable pub got_request : ServicePart Q → PtlrpcRequest → ServicePart Q
  got_request svcpt req = record svcpt {
    scp_nreqs_active = svcpt.scp_nreqs_active + 1;
    scp_nhreqs_active = if req.rq_hp then svcpt.scp_nhreqs_active + 1 else svcpt.scp_nhreqs_active;
  }

  -- An ordinary request, if one may be taken.
  unfoldable pub get_normal : ServicePart Q → Bool → Option PtlrpcRequest × ServicePart Q
  get_normal svcpt force =
      let (req, queues) = nrs.get svcpt.queues false force in
      if ptlrpc_server_normal_pending svcpt force
      then elim req [
        | none ↦ (none, record svcpt { queues = queues })
        | some r ↦ (some r, got_request (record svcpt { queues = queues; scp_hreq_count = 0 }) r)
      ]
      else (none, svcpt)

  unfoldable pub ptlrpc_server_request_get :
      ServicePart Q → Bool → Option PtlrpcRequest × ServicePart Q
  ptlrpc_server_request_get svcpt force =
      let (req, queues) = nrs.get svcpt.queues true force in
      if ptlrpc_server_high_pending svcpt force
      then elim req [
        | none ↦ get_normal (record svcpt { queues = queues }) force
        | some r ↦ (
          some r,
          got_request (record svcpt { queues = queues; scp_hreq_count = svcpt.scp_hreq_count + 1 })
              r,
        )
      ]
      else get_normal svcpt force

-- The part of `ptlrpc_server_finish_active_request` under the lock; the request is one of those that are
-- counted, so that no counter is 0.
unfoldable pub finish_active_request {ℓ} :
    {Q : Type ℓ} → ServicePart Q → PtlrpcRequest → ServicePart Q
finish_active_request svcpt req = record svcpt {
  scp_nreqs_active = svcpt.scp_nreqs_active - 1;
  scp_nhreqs_active = if req.rq_hp then svcpt.scp_nhreqs_active - 1 else svcpt.scp_nhreqs_active;
}

unfoldable pub ptlrpc_threads_enough {ℓ} : {Q : Type ℓ} → ServicePart Q → Bool
ptlrpc_threads_enough svcpt =
    ltb (svcpt.scp_nreqs_active + 1 + (if svcpt.has_hpreq_handler then 1 else 0))
      svcpt.scp_nthrs_running

unfoldable pub ptlrpc_threads_increasable {ℓ} : {Q : Type ℓ} → ServicePart Q → Bool
ptlrpc_threads_increasable svcpt =
    ltb (svcpt.scp_nthrs_running + svcpt.scp_nthrs_starting) svcpt.srv_nthrs_cpt_limit

unfoldable pub ptlrpc_threads_need_create {ℓ} : {Q : Type ℓ} → ServicePart Q → Bool
ptlrpc_threads_need_create svcpt =
    not (ptlrpc_threads_enough svcpt) && ptlrpc_threads_increasable svcpt
