-- ===== src/Service/Tests.antt =====
-- Runs of the service with two lists for queues, and instances of the theorems about it.
use lustre_tools.Base.{
  none, ℕ, ◌≤◌, ◌≡◌, refl, Bool, true, false, [], ◌∷◌, some, ◌⊎◌, arith, if◌then◌else◌, ◌+◌,
}
use lustre_tools.Service.{
  PtlrpcRequest, Nrs, ServicePart, ptlrpc_server_request_get, running, ptlrpc_server_high_pending,
  ptlrpc_server_allow_high, got_request,
}
use lustre_tools.Service.Fair.{ptlrpc_server_request_get-ratio, ptlrpc_server_request_get-turn}
use lustre_tools.Service.Reserve.{HasKinds, Reserves, here, next, take, Reach-Reserves}

abbrev request : Bool → ℕ → PtlrpcRequest
request hp xid = record { rq_xid = xid; rq_hp = hp }

-- The next request of each queue, by its number; the queues never run dry.
abbrev endless : Nrs (ℕ × ℕ)
endless = record {
  pending = λ q hp. true;
  throttling = λ q hp. false;
  get = λ q hp force.
      if hp
      then (some (request true q.0), (q.0 + 1, q.1))
      else (some (request false q.1), (q.0, q.1 + 1));
}

endless_kind :
    (q : ℕ × ℕ) (hp force : Bool) (r : PtlrpcRequest)
    → (endless.get q hp force).0 ≡ some r
    → r.rq_hp ≡ hp
endless_kind q true force r e = ground (arith, e)
endless_kind q false force r e = ground (arith, e)

endless-HasKinds : HasKinds endless
endless-HasKinds = record { kind = endless_kind }

-- Four threads, and at most two requests of high priority one after the other.
abbrev service : ℕ → ℕ → ℕ → ServicePart (ℕ × ℕ)
service active active_hp hreq_count = record {
  scp_nthrs_running = 4;
  scp_nthrs_starting = 0;
  srv_nthrs_cpt_limit = 8;
  scp_nreqs_active = active;
  scp_nhreqs_active = active_hp;
  scp_hreq_count = hreq_count;
  srv_hpreq_ratio = 2;
  has_hp = true;
  has_hpreq_handler = true;
  resend_fail_point = false;
  queues = (10, 20);
}

abbrev after_one : ServicePart (ℕ × ℕ)
after_one = record (service 1 1 1) { queues = (11, 20) }

one_taken :
    ptlrpc_server_request_get endless (service 0 0 0) false ≡ (some (request true 10), after_one)
unfolding ptlrpc_server_request_get ptlrpc_server_high_pending ptlrpc_server_allow_high running
    got_request
one_taken = refl

abbrev after_two : ServicePart (ℕ × ℕ)
after_two = record (service 2 2 2) { queues = (12, 20) }

two_taken : ptlrpc_server_request_get endless after_one false ≡ (some (request true 11), after_two)
unfolding ptlrpc_server_request_get ptlrpc_server_high_pending ptlrpc_server_allow_high running
    got_request
two_taken = refl

ptlrpc_server_request_get-ratio_example :
    ((true ≡ true)
      × (after_two.scp_hreq_count ≡ after_one.scp_hreq_count + 1)
      × (after_two.scp_hreq_count ≤ after_one.srv_hpreq_ratio))
    ⊎ ((true ≡ false) × (after_two.scp_hreq_count ≡ 0))
ptlrpc_server_request_get-ratio_example =
    ptlrpc_server_request_get-ratio endless after_one after_two (request true 11) endless-HasKinds
      (omega arith) refl two_taken

ptlrpc_server_request_get-turn_example :
    (((endless.get (10, 20) false false).0 ≡ none)
      × ((ptlrpc_server_request_get endless (service 2 1 2) false).0 ≡ none))
    ⊎ ((r : PtlrpcRequest) × ((endless.get (10, 20) false false).0 ≡ some r)
        × ((ptlrpc_server_request_get endless (service 2 1 2) false).0 ≡ some r)
        × (r.rq_hp ≡ false)
        × ((ptlrpc_server_request_get endless (service 2 1 2) false).1.scp_hreq_count ≡ 0))
unfolding running
ptlrpc_server_request_get-turn_example =
    ptlrpc_server_request_get-turn endless (service 2 1 2) endless-HasKinds (omega arith) refl refl
      (omega arith) (omega arith)

Reach-Reserves_example : Reserves endless after_one (request true 10 ∷ [])
unfolding running
Reach-Reserves_example =
    Reach-Reserves endless (service 0 0 0) [] after_one (request true 10 ∷ []) endless-HasKinds
      (next here (take (request true 10) one_taken refl))
      (record {
        active = refl;
        active_hp = refl;
        one_left = λ h. omega (arith, h);
        two_left = λ e h. omega (arith, h);
      })
