-- ===== src/Nrs/Tbf/Sched.antt =====
-- The queues of the clients in source/build/metric/nrs_tbf.c: `nrs_tbf_req_get`, `nrs_tbf_req_add`,
-- `nrs_tbf_req_del` and the timer's `nrs_tbf_timer_cb`. Clients are known by their addresses. The heap
-- of libcfs, whose comparisons read the clients, is a parameter; `none` is a failed LASSERT or an entry
-- read off an empty list.
pub mod Queues
pub mod Add
pub mod Get
mod Tests
pub mod Refine
use lustre_tools.Base.{
  ◌>>=◌, ◌>>◌, lassert, update, ℕ, ◌+◌, Bool, true, false, not, ◌&&◌, ◌||◌, List, [], ◌∷◌, ◌++◌,
  Option, none, some, ℤ, success, eqb_ℤ, ltb, ◌==◌, if◌then◌else◌, add_u64,
}
use lustre_tools.Nrs.Tbf.Bucket.{Bucket, grant, throttle, ask, deadline}
use lustre_tools.Nrs.Tbf.Bucket

-- `struct ptlrpc_nrs_request`: its address and `tr_sequence`.
pub record Nrq : Type 0 where
  pub nrq : ℕ
  pub tr_sequence : ℕ

-- The operations of the heap; the clients are read where it compares.
pub record ClientHeap (H : Type 0) : Type 0 where
  pub root : H → Option ℕ
  pub insert : (ℕ → Bucket) → H → ℕ → ℤ × H
  pub remove : (ℕ → Bucket) → H → ℕ → H
  pub relocate : (ℕ → Bucket) → H → ℕ → H

-- `struct nrs_tbf_head` with `nrs_throttling` of its policy and the time that its timer is set to, and the
-- clients: bucket, `tc_in_heap` and `tc_list`.
pub record Sched (H : Type 0) : Type 0 where
  pub th_binheap : H
  pub th_sequence : ℕ
  pub th_deadline : ℕ
  pub th_timer : Option ℕ
  pub nrs_throttling : Bool
  pub client_at : ℕ → Bucket
  pub tc_in_heap : ℕ → Bool
  pub tc_list : ℕ → List Nrq

abbrev pub is_empty : List Nrq → Bool
is_empty [] = true
is_empty (r ∷ rs) = false

-- `list_del_init`
abbrev pub unlink_nrq : ℕ → List Nrq → List Nrq
unlink_nrq nrq [] = []
unlink_nrq nrq (r ∷ rs) = if r.nrq == nrq then rs else r ∷ unlink_nrq nrq rs

abbrev pub is_listed : ℕ → List Nrq → Bool
is_listed nrq [] = false
is_listed nrq (r ∷ rs) = (r.nrq == nrq) || is_listed nrq rs

module _ {H : Type 0} (heap : ClientHeap H) where
  -- After a request went off the client's list.
  unfoldable pub settle : Sched H → ℕ → Sched H
  settle s cli =
      if is_empty (s.tc_list cli)
      then record s {
        th_binheap = heap.remove s.client_at s.th_binheap cli;
        tc_in_heap = update s.tc_in_heap cli false;
      }
      else record s { th_binheap = heap.relocate s.client_at s.th_binheap cli }

  -- The timer is set, in `nrs_tbf_req_get` for a policy that starts to throttle.
  unfoldable pub set_timer : Sched H → ℕ → Sched H
  set_timer s time = record s { th_deadline = time; th_timer = some time }

  -- The first request of the client with the earliest deadline at time `now`.
  unfoldable pub get_of : Sched H → ℕ → ℕ → Option (Option Nrq × Sched H)
  get_of s cli now = elim (ask (s.client_at cli) now) [
    | Bucket.lassert ↦ none
    | throttle time ↦ some (none, set_timer (record s { nrs_throttling = true }) time)
    | grant b ↦ elim (s.tc_list cli) [
      | [] ↦ none
      | r ∷ rs ↦ some (
        some r,
        settle
            (record s { client_at = update s.client_at cli b; tc_list = update s.tc_list cli rs })
            cli,
      )
    ]
  ]

  unfoldable pub peek_of : Sched H → ℕ → Option (Option Nrq × Sched H)
  peek_of s cli = elim (s.tc_list cli) [ [] ↦ none | r ∷ rs ↦ some (some r, s) ]

  unfoldable pub nrs_tbf_req_get : Sched H → Bool → ℕ → Option (Option Nrq × Sched H)
  nrs_tbf_req_get s peek now =
      if not peek && s.nrs_throttling then some (none, s) else elim (heap.root s.th_binheap) [
        | none ↦ some (none, s)
        | some cli ↦
            lassert (s.tc_in_heap cli) >>= λ _. if peek then peek_of s cli else get_of s cli now
      ]

  -- The request goes to the end of the client's list, with the next number.
  unfoldable pub append_nrq : Sched H → ℕ → ℕ → Sched H
  append_nrq s cli nrq =
      let r : Nrq = record { nrq = nrq; tr_sequence = s.th_sequence } in
      record s {
        th_sequence = add_u64 s.th_sequence 1;
        tc_list = update s.tc_list cli (s.tc_list cli ++ (r ∷ []));
      }

  -- An earlier deadline moves the timer, if it could be cancelled.
  unfoldable pub hasten : Sched H → ℕ → Bool → Sched H
  hasten s cli cancelled =
      let time = deadline (s.client_at cli) in
      if s.nrs_throttling && (ltb time s.th_deadline && cancelled) then set_timer s time else s

  unfoldable pub nrs_tbf_req_add : Sched H → ℕ → ℕ → Bool → Option (ℤ × Sched H)
  nrs_tbf_req_add s cli nrq cancelled =
      if is_empty (s.tc_list cli)
      then (lassert (not (s.tc_in_heap cli)) >>= λ _.
          let (rc, h) = heap.insert s.client_at s.th_binheap cli in
          let s1 : Sched H = record s { th_binheap = h } in
          some (
            rc,
            if eqb_ℤ rc success
                then hasten
                    (append_nrq (record s1 { tc_in_heap = update s1.tc_in_heap cli true }) cli nrq)
                    cli cancelled
                else s1,
          ))
      else (lassert (s.tc_in_heap cli) >>= λ _. some (success, append_nrq s cli nrq))

  unfoldable pub nrs_tbf_req_del : Sched H → ℕ → ℕ → Option (Sched H)
  nrs_tbf_req_del s cli nrq = lassert (is_listed nrq (s.tc_list cli)) >>= λ _.
      some
        (settle (record s { tc_list = update s.tc_list cli (unlink_nrq nrq (s.tc_list cli)) }) cli)

  unfoldable pub nrs_tbf_timer_cb : Sched H → Sched H
  nrs_tbf_timer_cb s = record s { nrs_throttling = false; th_timer = none }
