-- ===== src/Nrs/Tbf/Sched/Get.antt =====
-- Requests that are handed out or removed (`nrs_tbf_req_get`, `nrs_tbf_req_del`).
use lustre_tools.Base.{
  update, ℕ, ◌≤◌, ◌≡◌, ◌≢◌, refl, sym, ap, ◌∙◌, Bool, true, false, not, ◌&&◌, List, [], ◌∷◌, ◌++◌,
  Option, none, some, ◌⊎◌, inl, inr, Bool-cases, Option-cases, arith,
}
use lustre_tools.Nrs.Tbf.Bucket.{Bucket, grant, ask, deadline}
use lustre_tools.Nrs.Tbf.Bucket.Rate.{granted, ask-cases}
use lustre_tools.Nrs.Tbf.Compare.{tbf_cli_compare}
use lustre_tools.Nrs.Tbf.Sched.{
  Nrq, ClientHeap, Sched, is_empty, unlink_nrq, is_listed, settle, set_timer, get_of, peek_of,
  nrs_tbf_req_get, nrs_tbf_req_del,
}
use lustre_tools.Nrs.Tbf.Sched.Queues.{
  IsClientHeap, unlink_nrq-between, Sound, settle-Sound, settle-tc_list,
}
use lustre_tools.Nrs.Tbf.Sched.Add.{Sound-same}

compare-le : (b c : Bucket) → tbf_cli_compare b c ≡ true → deadline b ≤ deadline c
unfolding tbf_cli_compare
compare-le b c e = ground (arith, e)

module _ {H : Type 0} (heap : ClientHeap H) (laws : IsClientHeap heap) where
  -- What a call of `nrs_tbf_req_get` does when it hands out a request of a client: the first of its queue,
  -- of a client above all others that have requests; only a call that does not peek takes it out.
  abbrev pub Hands : Sched H → Bool → Option Nrq × Sched H → Type 0
  Hands s peek r =
      (i : ℕ) × (q : Nrq) × (rest : List Nrq) × (r.0 ≡ some q)
      × (s.tc_list i ≡ q ∷ rest)
      × ((j : ℕ) → s.tc_in_heap j ≡ true → tbf_cli_compare (s.client_at i) (s.client_at j) ≡ true)
      × (((peek ≡ true) × (r.1 ≡ s))
          ⊎ ((peek ≡ false)
              × (r.1.tc_list i ≡ rest)
              × ((j : ℕ) → j ≢ i → r.1.tc_list j ≡ s.tc_list j)))

  -- When it hands out none: the policy throttles, or no client has requests, or the policy starts to
  -- throttle, with its timer at the earliest deadline of the clients that have requests.
  abbrev pub Waits : Sched H → Option Nrq × Sched H → Type 0
  Waits s r =
      (r.0 ≡ none)
      × ((j : ℕ) → r.1.tc_list j ≡ s.tc_list j)
      × ((s.nrs_throttling ≡ true)
          ⊎ ((j : ℕ) → s.tc_in_heap j ≡ false)
          ⊎ ((r.1.nrs_throttling ≡ true)
              × (r.1.th_timer ≡ some r.1.th_deadline)
              × ((j : ℕ) → s.tc_in_heap j ≡ true → r.1.th_deadline ≤ deadline (s.client_at j))))

  Got : Sched H → Bool → Option (Option Nrq × Sched H) → Type 0
  Got s peek o =
      (r : Option Nrq × Sched H) × (o ≡ some r) × Sound heap laws r.1 × (Hands s peek r ⊎ Waits s r)

  -- The list of a client in the heap is not empty.
  list-cons :
      (rs : List Nrq) → is_empty rs ≡ false → (q : Nrq) × (rest : List Nrq) × (rs ≡ q ∷ rest)
  list-cons [] e = ground (arith, e)
  list-cons (q ∷ rest) e = (q, rest, refl)

  Above : Sched H → ℕ → Type 0
  Above s cli =
      (j : ℕ) → s.tc_in_heap j ≡ true → tbf_cli_compare (s.client_at cli) (s.client_at j) ≡ true

  peek_of-cons :
      (s : Sched H) (cli : ℕ) (q : Nrq) (rest : List Nrq)
      → s.tc_list cli ≡ q ∷ rest
      → peek_of heap s cli ≡ some (some q, s)
  unfolding peek_of
  peek_of-cons s cli q rest e = ground (arith, e)

  get_of-cons :
      (s : Sched H) (cli now : ℕ) (q : Nrq) (rest : List Nrq) (b : Bucket)
      → s.tc_list cli ≡ q ∷ rest
      → ask (s.client_at cli) now ≡ grant b
      → get_of heap s cli now
        ≡ some (
          some q,
          settle heap
              (record s {
                client_at = update s.client_at cli b;
                tc_list = update s.tc_list cli rest;
              })
              cli,
        )
  unfolding get_of
  get_of-cons s cli now q rest b e gets = rw (gets, get_of) (ground (arith, e))

  peek_of-Got :
      (s : Sched H) (cli : ℕ)
      → Sound heap laws s
      → s.tc_in_heap cli ≡ true
      → Above s cli
      → Got s true (peek_of heap s cli)
  unfolding peek_of Got Above
  peek_of-Got s cli v here above =
      let (q, rest, e) = list-cons (s.tc_list cli) (ground (arith, here, v.queued cli)) in
      (
        (some q, s),
        peek_of-cons s cli q rest e,
        v,
        inl (cli, q, rest, refl, e, above, inl (refl, refl)),
      )

  get_of-Got :
      (s : Sched H) (cli now : ℕ)
      → Sound heap laws s
      → s.tc_in_heap cli ≡ true
      → Above s cli
      → (s.client_at cli).tc_check_time ≤ now
      → Got s false (get_of heap s cli now)
  unfolding get_of set_timer Got Above
  get_of-Got s cli now v here above le = elim (ask-cases (s.client_at cli) now le) [
    | inl (_, waits) ↦
        let time = deadline (s.client_at cli) in
        (
          (none, set_timer heap (record s { nrs_throttling = true }) time),
          rw (waits, get_of) refl,
          Sound-same heap laws s _ refl refl refl refl v,
          inr (
            refl,
            (λ j. refl),
            inr (inr (refl, refl, λ j k. compare-le (s.client_at cli) (s.client_at j) (above j k))),
          ),
        )
    | inr (has, gets) ↦
        let (q, rest, e) = list-cons (s.tc_list cli) (ground (arith, here, v.queued cli)) in
        let s1 : Sched H = record s {
          client_at = update s.client_at cli (granted (s.client_at cli) now);
          tc_list = update s.tc_list cli rest;
        } in
        let lists = settle-tc_list heap laws s1 cli in
        (
          (some q, settle heap s1 cli),
          get_of-cons s cli now q rest _ e gets,
          settle-Sound heap laws s1 s.client_at cli v.heap_ok (λ j ne. ground arith) v.held here
              (λ j ne. ground (arith, v.queued j)),
          inl (
            cli,
            q,
            rest,
            refl,
            e,
            above,
            inr (refl, rw lists (ground arith), λ j ne. rw lists (ground arith)),
          ),
        )
  ]

  pub nrs_tbf_req_get-Hands :
      (s : Sched H) (peek : Bool) (now : ℕ)
      → Sound heap laws s
      → ((i : ℕ) → (s.client_at i).tc_check_time ≤ now)
      → (r : Option Nrq × Sched H) × (nrs_tbf_req_get heap s peek now ≡ some r)
        × Sound heap laws r.1
        × (Hands s peek r ⊎ Waits s r)
  unfolding nrs_tbf_req_get Got Above
  nrs_tbf_req_get-Hands s peek now v le = elim (Bool-cases (not peek && s.nrs_throttling)) [
    | inl throttled ↦ (
      (none, s),
      ground (arith, throttled),
      v,
      inr (refl, (λ j. refl), inl (ground (arith, throttled))),
    )
    | inr goes_on ↦ elim (Option-cases (heap.root s.th_binheap)) [
      | inl empty ↦ (
        (none, s),
        rw (goes_on, empty) refl,
        v,
        inr (
          refl,
          (λ j. refl),
          inr (
              inl
                (λ j. sym (v.held j) ∙ laws.root_none s.client_at s.th_binheap j v.heap_ok empty)),
        ),
      )
      | inr (cli, top) ↦
          let here : s.tc_in_heap cli ≡ true =
            sym (v.held cli) ∙ laws.root_held s.client_at s.th_binheap cli v.heap_ok top in
          let above : Above s cli =
            λ j k. laws.root_above s.client_at s.th_binheap cli j v.heap_ok top (v.held j ∙ k) in
          elim (Bool-cases peek) [
            | inl peeks ↦
                let (r, step, sound, does) = peek_of-Got s cli v here above in
                (r, rw (goes_on, top, here, peeks) step, sound, rw peeks does)
            | inr takes ↦
                let (r, step, sound, does) = get_of-Got s cli now v here above (le cli) in
                (r, rw (goes_on, top, here, takes) step, sound, rw takes does)
          ]
    ]
  ]

  -- A request that stands in a client's queue is taken out of it, wherever it stands.
  abbrev pub Drops : Sched H → ℕ → ℕ → Sched H → Type 0
  Drops s cli nrq s' =
      (us vs : List Nrq) × ((r : Nrq) × (s.tc_list cli ≡ us ++ (r ∷ vs))
        × (s'.tc_list cli ≡ us ++ vs)
        × (r.nrq ≡ nrq))
      × ((j : ℕ) → j ≢ cli → s'.tc_list j ≡ s.tc_list j)

  not_empty : (us vs : List Nrq) (r : Nrq) → is_empty (us ++ (r ∷ vs)) ≡ false
  not_empty [] vs r = refl
  not_empty (u ∷ us) vs r = refl

  -- In a sound state a removal of a queued request returns, leaves a sound state, and takes the request
  -- of that number out of its client's queue.
  pub nrs_tbf_req_del-Drops :
      (s : Sched H) (cli nrq : ℕ)
      → Sound heap laws s
      → is_listed nrq (s.tc_list cli) ≡ true
      → (s' : Sched H) × (nrs_tbf_req_del heap s cli nrq ≡ some s')
        × Sound heap laws s'
        × Drops s cli nrq s'
  unfolding nrs_tbf_req_del
  nrs_tbf_req_del-Drops s cli nrq v on =
      let (us, vs, (r, at, del, named)) = unlink_nrq-between nrq (s.tc_list cli) on in
      let full : is_empty (s.tc_list cli) ≡ false = ap is_empty at ∙ not_empty us vs r in
      let s1 : Sched H = record s {
        tc_list = update s.tc_list cli (unlink_nrq nrq (s.tc_list cli));
      } in
      let lists = settle-tc_list heap laws s1 cli in
      (
        settle heap s1 cli,
        rw on refl,
        settle-Sound heap laws s1 s.client_at cli v.heap_ok (λ j ne. refl) v.held
            (ground (arith, v.queued cli, full)) (λ j ne. ground (arith, v.queued j)),
        (us, vs, (r, at, rw lists (ground (arith, del)), named), λ j ne. rw lists (ground arith)),
      )
