-- ===== src/Nrs/Tbf/Sched/Queues.antt =====
-- The scheduler's operations against their specification: one queue per client, first in first out, and
-- the heap holds the clients that have requests.
use lustre_tools.Base.{
  ℕ, ◌≡◌, ◌≢◌, refl, ap, ◌∙◌, Bool, true, false, not, List, [], ◌∷◌, ◌++◌, none, some, inl, inr,
  Bool-cases, arith, success, ◌==◌, if◌then◌else◌,
}
use lustre_tools.Nrs.Tbf.Bucket.{Bucket}
use lustre_tools.Nrs.Tbf.Compare.{tbf_cli_compare}
use lustre_tools.Nrs.Tbf.Sched.{Nrq, ClientHeap, Sched, is_empty, unlink_nrq, is_listed, settle}

-- What the scheduler relies on: the heap holds the clients that were inserted and not removed, and its
-- root is above the others, as long as a client that changes is moved.
pub record IsClientHeap {H : Type 0} (heap : ClientHeap H) : Type 1 where
  pub IsHeap : (ℕ → Bucket) → H → Type 0
  pub holds : H → ℕ → Bool
  pub root_none :
      (at : ℕ → Bucket) (h : H) (i : ℕ) → IsHeap at h → heap.root h ≡ none → holds h i ≡ false
  pub root_held :
      (at : ℕ → Bucket) (h : H) (i : ℕ) → IsHeap at h → heap.root h ≡ some i → holds h i ≡ true
  pub root_above :
      (at : ℕ → Bucket) (h : H) (i j : ℕ)
      → IsHeap at h
      → heap.root h ≡ some i
      → holds h j ≡ true
      → tbf_cli_compare (at i) (at j) ≡ true
  pub insert_ok :
      (at : ℕ → Bucket) (h : H) (i : ℕ)
      → IsHeap at h
      → holds h i ≡ false
      → (heap.insert at h i).0 ≡ success
      → IsHeap at (heap.insert at h i).1
        × ((j : ℕ) → holds (heap.insert at h i).1 j ≡ (if j == i then true else holds h j))
  pub insert_error :
      (at : ℕ → Bucket) (h : H) (i : ℕ)
      → IsHeap at h
      → (heap.insert at h i).0 ≢ success
      → IsHeap at (heap.insert at h i).1 × ((j : ℕ) → holds (heap.insert at h i).1 j ≡ holds h j)
  pub remove_ok :
      (at at' : ℕ → Bucket) (h : H) (i : ℕ)
      → IsHeap at h
      → ((j : ℕ) → j ≢ i → at' j ≡ at j)
      → holds h i ≡ true
      → IsHeap at' (heap.remove at' h i)
        × ((j : ℕ) → holds (heap.remove at' h i) j ≡ (if j == i then false else holds h j))
  pub relocate_ok :
      (at at' : ℕ → Bucket) (h : H) (i : ℕ)
      → IsHeap at h
      → ((j : ℕ) → j ≢ i → at' j ≡ at j)
      → holds h i ≡ true
      → IsHeap at' (heap.relocate at' h i) × ((j : ℕ) → holds (heap.relocate at' h i) j ≡ holds h j)

-- A request on the list stands somewhere, and is taken out there.
pub unlink_nrq-between :
    (nrq : ℕ) (rs : List Nrq)
    → is_listed nrq rs ≡ true
    → (us vs : List Nrq) × ((r : Nrq) × (rs ≡ us ++ (r ∷ vs))
        × (unlink_nrq nrq rs ≡ us ++ vs)
        × (r.nrq ≡ nrq))
unlink_nrq-between nrq [] e = ground (arith, e)
unlink_nrq-between nrq (r ∷ rs) e = elim (Bool-cases (r.nrq == nrq)) [
  | inl hit ↦ ([], rs, (r, refl, ground (arith, hit), ground (arith, hit)))
  | inr miss ↦
      let (us, vs, (s, at, del, named)) = unlink_nrq-between nrq rs (ground (arith, e, miss)) in
      (r ∷ us, vs, (s, ap (λ xs. r ∷ xs) at, ground (arith, miss, del), named))
]

module _ {H : Type 0} (heap : ClientHeap H) (laws : IsClientHeap heap) where
  -- The heap is in order and holds the clients that have requests.
  pub record Sound (s : Sched H) : Type 0 where
    pub heap_ok : laws.IsHeap s.client_at s.th_binheap
    pub held : (i : ℕ) → laws.holds s.th_binheap i ≡ s.tc_in_heap i
    pub queued : (i : ℕ) → s.tc_in_heap i ≡ not (is_empty (s.tc_list i))

  pub settle-Sound :
      (s : Sched H) (at : ℕ → Bucket) (cli : ℕ)
      → laws.IsHeap at s.th_binheap
      → ((j : ℕ) → j ≢ cli → s.client_at j ≡ at j)
      → ((i : ℕ) → laws.holds s.th_binheap i ≡ s.tc_in_heap i)
      → s.tc_in_heap cli ≡ true
      → ((j : ℕ) → j ≢ cli → s.tc_in_heap j ≡ not (is_empty (s.tc_list j)))
      → Sound (settle heap s cli)
  unfolding settle
  settle-Sound s at cli ok same held here others =
      let held_cli : laws.holds s.th_binheap cli ≡ true = held cli ∙ here in
      elim (Bool-cases (is_empty (s.tc_list cli))) [
        | inl empty ↦
            let (ok', held') = laws.remove_ok at s.client_at s.th_binheap cli ok same held_cli in
            rw empty (record {
              heap_ok = ok';
              held = λ i. ground (arith, held' i, held i);
              queued = λ i. ground (arith, empty, others i);
            })
        | inr more ↦
            let (ok', held') = laws.relocate_ok at s.client_at s.th_binheap cli ok same held_cli in
            rw more (record {
              heap_ok = ok';
              held = λ i. held' i ∙ held i;
              queued = λ i. ground (arith, more, here, others i);
            })
      ]

  pub settle-tc_list : (s : Sched H) (cli : ℕ) → (settle heap s cli).tc_list ≡ s.tc_list
  unfolding settle
  settle-tc_list s cli = ground arith
