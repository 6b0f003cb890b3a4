-- ===== src/Service/Reserve.antt =====
-- The threads that a service keeps free, in any order of its threads' steps.
use lustre_tools.Base.{
  ℕ, ◌+◌, ◌≤◌, ◌<◌, ◌≡◌, sym, Bool, true, false, List, [], ◌∷◌, ◌++◌, some, ◌⊎◌, inl, inr,
  Bool-cases, Option-cases, arith, if◌then◌else◌,
}
use lustre_tools.Service.{
  PtlrpcRequest, Nrs, ServicePart, running, ptlrpc_server_allow_high, ptlrpc_server_high_pending,
  ptlrpc_server_allow_normal, ptlrpc_server_normal_pending, got_request, get_normal,
  ptlrpc_server_request_get, finish_active_request,
}

abbrev pub count_hp : List PtlrpcRequest → ℕ
count_hp [] = 0
count_hp (r ∷ rs) = (if r.rq_hp then 1 else 0) + count_hp rs

abbrev pub count_normal : List PtlrpcRequest → ℕ
count_normal [] = 0
count_normal (r ∷ rs) = (if r.rq_hp then 0 else 1) + count_normal rs

count_hp-append : (us vs : List PtlrpcRequest) → count_hp (us ++ vs) ≡ count_hp us + count_hp vs
count_hp-append [] vs = omega arith
count_hp-append (u ∷ us) vs = ground (arith, count_hp-append us vs)

count_normal-append :
    (us vs : List PtlrpcRequest) → count_normal (us ++ vs) ≡ count_normal us + count_normal vs
count_normal-append [] vs = omega arith
count_normal-append (u ∷ us) vs = ground (arith, count_normal-append us vs)

module _ {ℓ} {Q : Type ℓ} (nrs : Nrs Q) where
  -- The queue of each priority holds requests of that priority.
  pub record HasKinds : Type ℓ where
    pub kind :
        (q : Q) (hp force : Bool) (r : PtlrpcRequest)
        → (nrs.get q hp force).0 ≡ some r
        → r.rq_hp ≡ hp

  -- The requests in work are counted; unless there are none, a thread is left, and another one for a
  -- request of high priority if the service has such requests and an ordinary one is in work.
  pub record Reserves (s : ServicePart Q) (work : List PtlrpcRequest) : Type ℓ where
    pub active : s.scp_nreqs_active ≡ count_hp work + count_normal work
    pub active_hp : s.scp_nhreqs_active ≡ count_hp work
    pub one_left : 0 < s.scp_nreqs_active → s.scp_nreqs_active + 1 ≤ running nrs s
    pub two_left : s.has_hp ≡ true → 0 < count_normal work → count_normal work + 2 ≤ running nrs s

  -- What the threads do: take a request, finish one, add requests to the queues, start more threads.
  pub data Step (s : ServicePart Q) (work : List PtlrpcRequest) (s' : ServicePart Q)
      (work' : List PtlrpcRequest) : Type ℓ where
    take :
        (r : PtlrpcRequest)
        → ptlrpc_server_request_get nrs s false ≡ (some r, s')
        → work' ≡ r ∷ work
        → Step s work s' work'
    finish :
        (us vs : List PtlrpcRequest) (r : PtlrpcRequest)
        → work ≡ us ++ r ∷ vs
        → s' ≡ finish_active_request s r
        → work' ≡ us ++ vs
        → Step s work s' work'
    enqueue : (q : Q) → s' ≡ record s { queues = q } → work' ≡ work → Step s work s' work'
    start :
        (n : ℕ)
        → s' ≡ record s { scp_nthrs_running = s.scp_nthrs_running + n }
        → work' ≡ work
        → Step s work s' work'

  pub data Reach (s : ServicePart Q) (work : List PtlrpcRequest)
      : ServicePart Q → List PtlrpcRequest → Type ℓ where
    here : Reach s work s work
    next :
        {s1 s2 : ServicePart Q} {w1 w2 : List PtlrpcRequest}
        → Reach s work s1 w1
        → Step s1 w1 s2 w2
        → Reach s work s2 w2

  -- A request was taken: how it is counted, and what the limits say.
  Taken : ServicePart Q → PtlrpcRequest → ServicePart Q → Type 0
  Taken s r s' =
      (s'.scp_nreqs_active ≡ s.scp_nreqs_active + 1)
      × (s'.scp_nhreqs_active ≡ (if r.rq_hp then s.scp_nhreqs_active + 1 else s.scp_nhreqs_active))
      × (s'.has_hp ≡ s.has_hp)
      × (running nrs s' ≡ running nrs s)
      × (s.scp_nreqs_active + 2 ≤ running nrs s)
      × (r.rq_hp ≡ false
          → s.has_hp ≡ true
          → (s.scp_nreqs_active + 3 ≤ running nrs s) ⊎ (0 < s.scp_nhreqs_active))

  get_normal-Taken :
      (s s' : ServicePart Q) (r : PtlrpcRequest)
      → get_normal nrs s false ≡ (some r, s')
      → Taken s r s'
  unfolding get_normal Taken ptlrpc_server_normal_pending ptlrpc_server_allow_normal got_request
      running
  get_normal-Taken s s' r e = elim (Bool-cases (ptlrpc_server_normal_pending nrs s false)) [
    | inr none_pending ↦ ground (arith, e, none_pending)
    | inl pending ↦ elim (Option-cases (nrs.get s.queues false false).0) [
      | inl nothing ↦ ground (arith, e, pending, nothing)
      | inr (r', got) ↦ ground (arith, e, pending, got)
    ]
  ]

  request_get-Taken :
      (s s' : ServicePart Q) (r : PtlrpcRequest)
      → HasKinds
      → ptlrpc_server_request_get nrs s false ≡ (some r, s')
      → Taken s r s'
  unfolding ptlrpc_server_request_get Taken ptlrpc_server_high_pending ptlrpc_server_allow_high
      got_request running
  request_get-Taken s s' r kinds e = elim (Bool-cases (ptlrpc_server_high_pending nrs s false)) [
    | inr none_pending ↦ get_normal-Taken s s' r (ground (arith, e, none_pending))
    | inl pending ↦ elim (Option-cases (nrs.get s.queues true false).0) [
      | inl nothing ↦
          get_normal-Taken (record s { queues = (nrs.get s.queues true false).1 }) s' r
            (ground (arith, e, pending, nothing))
      | inr (r', got) ↦
          let hp = kinds.kind s.queues true false r' got in ground (arith, e, pending, got, hp)
    ]
  ]

  take-Reserves :
      (s s' : ServicePart Q) (work : List PtlrpcRequest) (r : PtlrpcRequest)
      → Taken s r s'
      → Reserves s work
      → Reserves s' (r ∷ work)
  unfolding Taken
  take-Reserves s s' work r (active, active_hp, same, run, one, two) v = record {
    active = ground (arith, active, v.active);
    active_hp = ground (arith, active_hp, v.active_hp);
    one_left = λ h. omega (arith, active, run, one);
    two_left = λ h n. ground (arith, two, same, run, h, n, one, v.active, v.active_hp, v.two_left);
  }

  finish-Reserves :
      (s : ServicePart Q) (us vs : List PtlrpcRequest) (r : PtlrpcRequest)
      → Reserves s (us ++ r ∷ vs)
      → Reserves (finish_active_request s r) (us ++ vs)
  unfolding finish_active_request running
  finish-Reserves s us vs r v =
      let hp = count_hp-append us (r ∷ vs) in
      let hp' = count_hp-append us vs in
      let normal = count_normal-append us (r ∷ vs) in
      let normal' = count_normal-append us vs in
      record {
        active = ground (arith, hp, hp', normal, normal', v.active);
        active_hp = ground (arith, hp, hp', v.active_hp);
        one_left = λ h. ground (arith, h, v.one_left);
        two_left = λ h n. ground (arith, normal, normal', v.two_left, h, n);
      }

  Step-Reserves :
      (s : ServicePart Q) (work : List PtlrpcRequest) (s' : ServicePart Q)
      (work' : List PtlrpcRequest)
      → HasKinds
      → Step s work s' work'
      → Reserves s work
      → Reserves s' work'
  unfolding running
  Step-Reserves s work s' work' kinds (take r got e) v =
      rw e (take-Reserves s s' work r (request_get-Taken s s' r kinds got) v)
  Step-Reserves s work s' work' kinds (finish us vs r e e' e'') v =
      let v' : Reserves s (us ++ r ∷ vs) = rw (sym e) v in
      rw (e', e'') (finish-Reserves s us vs r v')
  Step-Reserves s work s' work' kinds (enqueue q e e') v =
      rw (e, e')
        (record {
          active = v.active;
          active_hp = v.active_hp;
          one_left = v.one_left;
          two_left = v.two_left;
        })
  Step-Reserves s work s' work' kinds (start n e e') v =
      rw (e, e')
        (record {
          active = v.active;
          active_hp = v.active_hp;
          one_left = λ h. ground (arith, h, v.one_left);
          two_left = λ h k. ground (arith, h, k, v.two_left);
        })

  -- Whatever the threads take, finish, add and start, in any order, the counters agree with the requests in
  -- work, a thread is left besides those at work, and in a service with requests of high priority two
  -- threads besides those that work on ordinary requests.
  pub Reach-Reserves :
      (s : ServicePart Q) (work : List PtlrpcRequest) (s' : ServicePart Q)
      (work' : List PtlrpcRequest)
      → HasKinds
      → Reach s work s' work'
      → Reserves s work
      → Reserves s' work'
  Reach-Reserves s work s' work' kinds here v = v
  Reach-Reserves s work s2 w2 kinds (next {s1} {w1 = w1} run step) v =
      Step-Reserves s1 w1 s2 w2 kinds step (Reach-Reserves s work s1 w1 kinds run v)
