-- ===== src/Nrs/Tbf/Sched/Add.antt =====
-- Requests that are added to the queues (`nrs_tbf_req_add`).
use lustre_tools.Base.{
  update, ℕ, ◌≡◌, ◌≢◌, refl, ◌∙◌, Bool, true, false, not, List, [], ◌∷◌, ◌++◌, some, ◌⊎◌, inl, inr,
  Bool-cases, arith, ℤ, success, eqb_ℤ,
}
use lustre_tools.Nrs.Tbf.Sched.{
  Nrq, ClientHeap, Sched, is_empty, set_timer, append_nrq, hasten, nrs_tbf_req_add,
}
use lustre_tools.Nrs.Tbf.Sched.Queues.{IsClientHeap, Sound}

module _ {H : Type 0} (heap : ClientHeap H) (laws : IsClientHeap heap) where
  -- Neither the timer nor the numbers are part of the agreement.
  pub Sound-same :
      (s s' : Sched H)
      → s'.th_binheap ≡ s.th_binheap
      → s'.client_at ≡ s.client_at
      → s'.tc_in_heap ≡ s.tc_in_heap
      → s'.tc_list ≡ s.tc_list
      → Sound heap laws s
      → Sound heap laws s'
  Sound-same s s' e1 e2 e3 e4 v = record {
    heap_ok = rw (e1, e2) v.heap_ok;
    held = λ i. rw (e1, e3) (v.held i);
    queued = λ i. rw (e3, e4) (v.queued i);
  }

  hasten-Sound :
      (s : Sched H) (cli : ℕ) (cancelled : Bool)
      → Sound heap laws s
      → Sound heap laws (hasten heap s cli cancelled)
  unfolding hasten set_timer
  hasten-Sound s cli cancelled v =
      Sound-same s _ (ground arith) (ground arith) (ground arith) (ground arith) v

  hasten-tc_list :
      (s : Sched H) (cli : ℕ) (cancelled : Bool) → (hasten heap s cli cancelled).tc_list ≡ s.tc_list
  unfolding hasten set_timer
  hasten-tc_list s cli cancelled = ground arith

  append-not_empty : (rs : List Nrq) (r : Nrq) → is_empty (rs ++ (r ∷ [])) ≡ false
  append-not_empty [] r = refl
  append-not_empty (x ∷ rs) r = refl

  append_nrq-Sound :
      (s : Sched H) (cli nrq : ℕ)
      → laws.IsHeap s.client_at s.th_binheap
      → ((i : ℕ) → laws.holds s.th_binheap i ≡ s.tc_in_heap i)
      → s.tc_in_heap cli ≡ true
      → ((j : ℕ) → j ≢ cli → s.tc_in_heap j ≡ not (is_empty (s.tc_list j)))
      → Sound heap laws (append_nrq heap s cli nrq)
  unfolding append_nrq
  append_nrq-Sound s cli nrq ok held here others = record {
    heap_ok = ok;
    held = held;
    queued = λ i.
        let full =
          append-not_empty (s.tc_list cli) (record { nrq = nrq; tr_sequence = s.th_sequence }) in
        ground (arith, full, others i, here);
  }

  append_nrq-push :
      (s : Sched H) (cli nrq : ℕ)
      → ((append_nrq heap s cli nrq).tc_list cli
          ≡ s.tc_list cli ++ (record { nrq = nrq; tr_sequence = s.th_sequence } ∷ []))
        × ((j : ℕ) → j ≢ cli → (append_nrq heap s cli nrq).tc_list j ≡ s.tc_list j)
  unfolding append_nrq
  append_nrq-push s cli nrq = (ground arith, λ j ne. ground arith)

  -- A request was queued, or the heap had no memory and nothing was.
  abbrev pub Queued : Sched H → ℕ → ℕ → ℤ × Sched H → Type 0
  Queued s cli nrq r =
      ((r.0 ≡ success)
        × (r.1.tc_list cli
            ≡ s.tc_list cli ++ (record { nrq = nrq; tr_sequence = s.th_sequence } ∷ []))
        × ((j : ℕ) → j ≢ cli → r.1.tc_list j ≡ s.tc_list j))
      ⊎ ((r.0 ≢ success) × ((j : ℕ) → r.1.tc_list j ≡ s.tc_list j))

  -- In a sound state an addition returns, and leaves a sound state: either with 0 and the request, with the
  -- next number, at the end of its client's queue, or with the error of the heap and the queues as they
  -- were.
  pub nrs_tbf_req_add-Queued :
      (s : Sched H) (cli nrq : ℕ) (cancelled : Bool)
      → Sound heap laws s
      → (r : ℤ × Sched H) × (nrs_tbf_req_add heap s cli nrq cancelled ≡ some r)
        × Sound heap laws r.1
        × Queued s cli nrq r
  unfolding nrs_tbf_req_add
  nrs_tbf_req_add-Queued s cli nrq cancelled v = elim (Bool-cases (is_empty (s.tc_list cli))) [
    | inr more ↦
        let here : s.tc_in_heap cli ≡ true = ground (arith, v.queued cli, more) in
        let pushed = append_nrq-push s cli nrq in
        (
          (success, append_nrq heap s cli nrq),
          ground (arith, more, here),
          append_nrq-Sound s cli nrq v.heap_ok v.held here (λ j ne. v.queued j),
          inl (refl, pushed.0, pushed.1),
        )
    | inl empty ↦
        let away : s.tc_in_heap cli ≡ false = ground (arith, v.queued cli, empty) in
        let out : laws.holds s.th_binheap cli ≡ false = v.held cli ∙ away in
        let h = (heap.insert s.client_at s.th_binheap cli).1 in
        elim (Bool-cases (eqb_ℤ (heap.insert s.client_at s.th_binheap cli).0 success)) [
          | inl done ↦
              let rc : (heap.insert s.client_at s.th_binheap cli).0 ≡ success =
                ground (arith, done) in
              let (ok, held) = laws.insert_ok s.client_at s.th_binheap cli v.heap_ok out rc in
              let s1 : Sched H = record s {
                th_binheap = h;
                tc_in_heap = update s.tc_in_heap cli true;
              } in
              let s2 : Sched H = append_nrq heap s1 cli nrq in
              let pushed = append_nrq-push s1 cli nrq in
              let lists = hasten-tc_list s2 cli cancelled in
              (
                (success, hasten heap s2 cli cancelled),
                ground (arith, empty, away, done, rc),
                hasten-Sound s2 cli cancelled (
                    append_nrq-Sound s1 cli nrq ok (λ i. ground (arith, held i, v.held i))
                      (ground arith) (λ j ne. ground (arith, v.queued j))),
                inl (refl, rw lists pushed.0, λ j ne. rw lists (pushed.1 j ne)),
              )
          | inr failed ↦
              let rc : (heap.insert s.client_at s.th_binheap cli).0 ≢ success =
                λ e. ground (arith, e, failed) in
              let (ok, held) = laws.insert_error s.client_at s.th_binheap cli v.heap_ok rc in
              (
                ((heap.insert s.client_at s.th_binheap cli).0, record s { th_binheap = h }),
                ground (arith, empty, away, failed),
                record { heap_ok = ok; held = λ i. held i ∙ v.held i; queued = v.queued },
                inr (rc, λ j. refl),
              )
        ]
  ]
