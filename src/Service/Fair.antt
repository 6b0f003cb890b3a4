-- ===== src/Service/Fair.antt =====
-- Which of the two queues a thread takes its next request from.
use lustre_tools.Base.{
  ℕ, zero, suc, ◌+◌, ◌≤◌, ◌<◌, ◌≡◌, ◌↔◌, refl, ap, ap₂, ◌∙◌, Bool, true, false, List, [], ◌∷◌,
  Option, none, some, ◌⊎◌, inl, inr, Bool-cases, arith, replicate, sym, Option-cases,
}
use lustre_tools.Service.Reserve.{HasKinds}
use lustre_tools.Service.{
  PtlrpcRequest, Nrs, ServicePart, running, ptlrpc_server_allow_high, ptlrpc_server_high_pending,
  ptlrpc_server_allow_normal, ptlrpc_server_normal_pending, ptlrpc_server_request_pending,
  got_request, get_normal, ptlrpc_server_request_get, finish_active_request, ptlrpc_threads_enough,
}

module _ {ℓ} {Q : Type ℓ} (nrs : Nrs Q) where
  -- A queue in which a request is pending gives one of its priority.
  pub record Delivers : Type ℓ where
    pub delivers :
        (q : Q) (hp force : Bool)
        → nrs.pending q hp ≡ true
        → (r : PtlrpcRequest) × ((nrs.get q hp force).0 ≡ some r) × (r.rq_hp ≡ hp)

  get_normal-some :
      (s : ServicePart Q) (force : Bool)
      → Delivers
      → ptlrpc_server_normal_pending nrs s force ≡ true
      → (r : PtlrpcRequest) × (get_normal nrs s force ≡ (
        some r,
        got_request nrs
            (record s { queues = (nrs.get s.queues false force).1; scp_hreq_count = 0 })
            r,
      ))
        × (r.rq_hp ≡ false)
  unfolding get_normal ptlrpc_server_normal_pending
  get_normal-some s force d pending =
      let (r, got, kind) = d.delivers s.queues false force (ground (arith, pending)) in
      (r, ground (arith, pending, got), kind)

  request_get-high :
      (s : ServicePart Q) (force : Bool)
      → Delivers
      → ptlrpc_server_high_pending nrs s force ≡ true
      → (r : PtlrpcRequest) × (ptlrpc_server_request_get nrs s force ≡ (
        some r,
        got_request nrs
            (record s {
              queues = (nrs.get s.queues true force).1;
              scp_hreq_count = s.scp_hreq_count + 1;
            })
            r,
      ))
        × (r.rq_hp ≡ true)
  unfolding ptlrpc_server_request_get ptlrpc_server_high_pending
  request_get-high s force d pending =
      let (r, got, kind) = d.delivers s.queues true force (ground (arith, pending)) in
      (r, ground (arith, pending, got), kind)

  request_get-normal :
      (s : ServicePart Q) (force : Bool)
      → ptlrpc_server_high_pending nrs s force ≡ false
      → ptlrpc_server_request_get nrs s force ≡ get_normal nrs s force
  unfolding ptlrpc_server_request_get
  request_get-normal s force e = ground (arith, e)

  request_get-none :
      (s : ServicePart Q) (force : Bool)
      → ptlrpc_server_high_pending nrs s force ≡ false
      → ptlrpc_server_normal_pending nrs s force ≡ false
      → ptlrpc_server_request_get nrs s force ≡ (none, s)
  unfolding ptlrpc_server_request_get get_normal
  request_get-none s force low idle = ground (arith, low, idle)

  -- A thread that finds a request pending gets one, and it finds one pending where it gets one.
  pub ptlrpc_server_request_get-request_pending :
      (s : ServicePart Q) (force : Bool)
      → Delivers
      → (ptlrpc_server_request_pending nrs s force ≡ true)
        ↔ ((r : PtlrpcRequest) × ((ptlrpc_server_request_get nrs s force).0 ≡ some r))
  unfolding ptlrpc_server_request_pending
  ptlrpc_server_request_get-request_pending s force d =
      elim (Bool-cases (ptlrpc_server_high_pending nrs s force)) [
        | inl high ↦
            let (r, got, _) = request_get-high s force d high in
            (
              (λ e. (r, ap (λ (p : Option PtlrpcRequest × ServicePart Q). p.0) got)),
              λ g. ground (arith, high),
            )
        | inr low ↦ elim (Bool-cases (ptlrpc_server_normal_pending nrs s force)) [
          | inl normal ↦
              let (r, got, _) = get_normal-some s force d normal in
              (
                (λ e. (r, rw (request_get-normal s force low, got) refl)),
                λ g. ground (arith, normal, low),
              )
          | inr idle ↦ (
            (λ e. ground (arith, e, low, idle)),
            λ (r, got). ground (arith, request_get-none s force low idle, got),
          )
        ]
      ]

  -- An ordinary request that is taken sets the count back.
  get_normal-ordinary :
      (s s' : ServicePart Q) (force : Bool) (r : PtlrpcRequest)
      → HasKinds nrs
      → get_normal nrs s force ≡ (some r, s')
      → (r.rq_hp ≡ false) × (s'.scp_hreq_count ≡ 0)
  unfolding get_normal got_request
  get_normal-ordinary s s' force r k e =
      elim (Bool-cases (ptlrpc_server_normal_pending nrs s force)) [
        | inr idle ↦ ground (arith, e, idle)
        | inl normal ↦ elim (Option-cases (nrs.get s.queues false force).0) [
          | inl dry ↦ ground (arith, e, normal, dry)
          | inr (r', got) ↦
              let kind = k.kind s.queues false force r' got in
              (ground (arith, e, normal, got, kind), ground (arith, e, normal, got))
        ]
      ]

  -- While a request of high priority is in work and an ordinary one is pending, the count of requests of
  -- high priority that were taken one after the other does not pass the ratio: if one is taken, the
  -- count is at most the ratio, and if an ordinary one is taken, the count starts anew. A queue may
  -- hand out none although a request is pending there; one that it hands out has its priority.
  pub ptlrpc_server_request_get-ratio :
      (s s' : ServicePart Q) (r : PtlrpcRequest)
      → HasKinds nrs
      → 0 < s.scp_nhreqs_active
      → nrs.pending s.queues false ≡ true
      → ptlrpc_server_request_get nrs s false ≡ (some r, s')
      → ((r.rq_hp ≡ true)
          × (s'.scp_hreq_count ≡ s.scp_hreq_count + 1)
          × (s'.scp_hreq_count ≤ s.srv_hpreq_ratio))
        ⊎ ((r.rq_hp ≡ false) × (s'.scp_hreq_count ≡ 0))
  unfolding ptlrpc_server_request_get ptlrpc_server_high_pending ptlrpc_server_allow_high
      got_request
  ptlrpc_server_request_get-ratio s s' r k busy waiting got =
      elim (Bool-cases (ptlrpc_server_high_pending nrs s false)) [
        | inl high ↦ elim (Option-cases (nrs.get s.queues true false).0) [
          | inl dry ↦ inr (
              get_normal-ordinary (record s { queues = (nrs.get s.queues true false).1 }) s' false r
                k (ground (arith, got, high, dry)))
          | inr (r', hands) ↦
              let kind = k.kind s.queues true false r' hands in
              inl (
                ground (arith, got, high, hands, kind),
                ground (arith, got, high, hands),
                ground (arith, got, high, hands, waiting),
              )
        ]
        | inr low ↦
            inr (get_normal-ordinary s s' false r k (sym (request_get-normal s false low) ∙ got))
      ]

  -- While a request of high priority is in work and an ordinary one is pending that is not throttled, when
  -- the ratio is reached and threads are left, a thread takes what the ordinary queue hands out, and
  -- the count starts anew; it takes none only where that queue hands out none.
  pub ptlrpc_server_request_get-turn :
      (s : ServicePart Q)
      → HasKinds nrs
      → 0 < s.scp_nhreqs_active
      → nrs.pending s.queues false ≡ true
      → nrs.throttling s.queues false ≡ false
      → s.srv_hpreq_ratio ≤ s.scp_hreq_count
      → s.scp_nreqs_active + 2 ≤ running nrs s
      → (((nrs.get s.queues false false).0 ≡ none)
          × ((ptlrpc_server_request_get nrs s false).0 ≡ none))
        ⊎ ((r : PtlrpcRequest) × ((nrs.get s.queues false false).0 ≡ some r)
            × ((ptlrpc_server_request_get nrs s false).0 ≡ some r)
            × (r.rq_hp ≡ false)
            × ((ptlrpc_server_request_get nrs s false).1.scp_hreq_count ≡ 0))
  unfolding ptlrpc_server_high_pending ptlrpc_server_allow_high got_request get_normal
      ptlrpc_server_normal_pending ptlrpc_server_allow_normal
  ptlrpc_server_request_get-turn s k busy waiting unlimited reached room =
      let low : ptlrpc_server_high_pending nrs s false ≡ false = ground (arith, waiting) in
      let normal : ptlrpc_server_normal_pending nrs s false ≡ true =
        ground (arith, waiting, unlimited) in
      let same = request_get-normal s false low in
      elim (Option-cases (nrs.get s.queues false false).0) [
        | inl dry ↦ inl (dry, ground (arith, same, normal, dry))
        | inr (r, hands) ↦ inr (
          r,
          hands,
          ground (arith, same, normal, hands),
          k.kind s.queues false false r hands,
          ground (arith, same, normal, hands),
        )
      ]

  -- One thread takes a request and finishes it before the next one is taken.
  abbrev pub finish_taken : Option PtlrpcRequest → ServicePart Q → ServicePart Q
  finish_taken none s = s
  finish_taken (some r) s = finish_active_request s r

  abbrev pub kinds_of : Option PtlrpcRequest → List Bool → List Bool
  kinds_of none rest = rest
  kinds_of (some r) rest = r.rq_hp ∷ rest

  -- The priorities of the requests that are handled in so many turns.
  abbrev pub handled : ℕ → ServicePart Q → List Bool
  handled zero s = []
  handled (suc n) s =
      let (taken, s') = ptlrpc_server_request_get nrs s false in
      kinds_of taken (handled n (finish_taken taken s'))

  handled-suc :
      (n : ℕ) (s s' : ServicePart Q) (r : PtlrpcRequest)
      → ptlrpc_server_request_get nrs s false ≡ (some r, s')
      → handled (suc n) s ≡ r.rq_hp ∷ handled n (finish_active_request s' r)
  handled-suc n s s' r e = rw e refl

  -- Where each request is finished before the next is taken and both queues never run dry, only requests of
  -- high priority are handled, for ever, whatever the ratio is: the ratio is not looked at while none
  -- of them is in work.
  pub ptlrpc_server_request_get-starves :
      (n : ℕ) (s : ServicePart Q)
      → Delivers
      → ((q : Q) (hp : Bool) → nrs.pending q hp ≡ true)
      → ((q : Q) (hp : Bool) → nrs.throttling q hp ≡ false)
      → s.has_hp ≡ true
      → s.scp_nreqs_active ≡ 0
      → s.scp_nhreqs_active ≡ 0
      → 2 ≤ running nrs s
      → handled n s ≡ replicate n true
  unfolding ptlrpc_server_high_pending ptlrpc_server_allow_high got_request finish_active_request
      running
  ptlrpc_server_request_get-starves zero s d full unlimited has active active_hp room = refl
  ptlrpc_server_request_get-starves (suc n) s d full unlimited has active active_hp room =
      let high : ptlrpc_server_high_pending nrs s false ≡ true =
        ground (arith, full s.queues true, unlimited s.queues true, has, active, active_hp) in
      let (r, step, kind) = request_get-high s false d high in
      let s' : ServicePart Q =
        finish_active_request
          (got_request nrs
            (record s {
              queues = (nrs.get s.queues true false).1;
              scp_hreq_count = s.scp_hreq_count + 1;
            })
            r)
          r in
      let rest =
        ptlrpc_server_request_get-starves n s' d full unlimited has (ground (arith, kind))
          (ground (arith, kind)) room in
      handled-suc n s _ r step ∙ ap₂ (λ x xs. x ∷ xs) kind rest

  -- While there are threads enough, so that no more are started, a thread may take an ordinary request that
  -- is not throttled.
  pub ptlrpc_threads_enough-allow_normal :
      (s : ServicePart Q)
      → s.resend_fail_point ≡ false
      → s.has_hp ≡ s.has_hpreq_handler
      → nrs.throttling s.queues false ≡ false
      → ptlrpc_threads_enough s ≡ true
      → ptlrpc_server_allow_normal nrs s false ≡ true
  unfolding ptlrpc_threads_enough ptlrpc_server_allow_normal running
  ptlrpc_threads_enough-allow_normal s no_fail same unlimited enough = ground arith
