-- ===== src/Nrs/Tbf/Sched/Tests.antt =====
-- A heap that looks for the least client, a run of the scheduler, and instances of its theorems.
use lustre_tools.Base.{
  update, ℕ, ◌≡◌, refl, ap, Bool, true, false, ◌||◌, List, [], ◌∷◌, Option, none, some, inl, inr,
  Bool-cases, Option-cases, arith, success, ◌==◌, if◌then◌else◌,
}
use lustre_tools.Nrs.Tbf.Bucket.{Bucket}
use lustre_tools.Nrs.Tbf.Compare.{tbf_cli_compare}
use lustre_tools.Nrs.Tbf.Sched.{ClientHeap, Sched, append_nrq, hasten, nrs_tbf_req_add}
use lustre_tools.Nrs.Tbf.Sched.Queues.{IsClientHeap, Sound}
use lustre_tools.Nrs.Tbf.Sched.Refine.{add, here, next, offered, Runs, Reach-Runs}

tbf_cli_compare_trans :
    (a b c : Bucket)
    → tbf_cli_compare a b ≡ true
    → tbf_cli_compare b c ≡ true
    → tbf_cli_compare a c ≡ true
unfolding tbf_cli_compare
tbf_cli_compare_trans a b c h k = ground (arith, h, k)

tbf_cli_compare_total : (a b : Bucket) → tbf_cli_compare a b ≡ false → tbf_cli_compare b a ≡ true
unfolding tbf_cli_compare
tbf_cli_compare_total a b h = ground (arith, h)

tbf_cli_compare_refl : (a : Bucket) → tbf_cli_compare a a ≡ true
unfolding tbf_cli_compare
tbf_cli_compare_refl a = ground arith

abbrev member : ℕ → List ℕ → Bool
member i [] = false
member i (x ∷ xs) = (i == x) || member i xs

abbrev without : ℕ → List ℕ → List ℕ
without i [] = []
without i (x ∷ xs) = if x == i then without i xs else x ∷ without i xs

abbrev above_of : (ℕ → Bucket) → ℕ → ℕ → ℕ
above_of at x y = if tbf_cli_compare (at x) (at y) then x else y

abbrev least_of : (ℕ → Bucket) → List ℕ → Option ℕ
least_of at [] = none
least_of at (x ∷ xs) = elim (least_of at xs) [ none ↦ some x | some y ↦ some (above_of at x y) ]

-- The clients as they were at the last operation, and who is in.
abbrev Snapshot : Type 0
Snapshot = (ℕ → Bucket) × List ℕ

abbrev snapshots : ClientHeap Snapshot
snapshots = record {
  root = λ h. least_of h.0 h.1;
  insert = λ at h i. (success, (at, i ∷ h.1));
  remove = λ at h i. (at, without i h.1);
  relocate = λ at h i. (at, h.1);
}

least_of-none : (at : ℕ → Bucket) (xs : List ℕ) → least_of at xs ≡ none → xs ≡ []
least_of-none at [] e = refl
least_of-none at (x ∷ xs) e = elim (Option-cases (least_of at xs)) [
  | inl empty ↦ ground (arith, e, empty)
  | inr (y, top) ↦ ground (arith, e, top)
]

at_eq : (at : ℕ → Bucket) (i j : ℕ) → i ≡ j → tbf_cli_compare (at i) (at j) ≡ true
at_eq at i j e = rw e (tbf_cli_compare_refl (at j))

-- The least client is in, and above all that are in.
least_of-least :
    (at : ℕ → Bucket) (xs : List ℕ) (i : ℕ)
    → least_of at xs ≡ some i
    → (member i xs ≡ true) × ((j : ℕ) → member j xs ≡ true → tbf_cli_compare (at i) (at j) ≡ true)
least_of-least at [] i e = ground (arith, e)
least_of-least at (x ∷ xs) i e = elim (Option-cases (least_of at xs)) [
  | inl empty ↦
      let xs_empty = least_of-none at xs empty in
      let same : i ≡ x = ground (arith, e, empty) in
      (ground (arith, same), λ j k. at_eq at i j (ground (arith, same, xs_empty, k)))
  | inr (y, top) ↦
      let (inside, above) = least_of-least at xs y top in
      elim (Bool-cases (tbf_cli_compare (at x) (at y))) [
        | inl first ↦
            let same : i ≡ x = ground (arith, e, top, first) in
            (
              ground (arith, same),
              λ j k. rw same (elim (Bool-cases (j == x)) [
                | inl hit ↦ at_eq at x j (ground (arith, hit))
                | inr miss ↦
                    tbf_cli_compare_trans (at x) (at y) (at j) first
                      (above j (ground (arith, k, miss)))
              ]),
            )
        | inr second ↦
            let same : i ≡ y = ground (arith, e, top, second) in
            (
              ground (arith, same, inside),
              λ j k. rw same (elim (Bool-cases (j == x)) [
                | inl hit ↦
                    let eq : x ≡ j = ground (arith, hit) in
                    rw eq at (tbf_cli_compare_total (at x) (at y) second)
                | inr miss ↦ above j (ground (arith, k, miss))
              ]),
            )
      ]
]

member-without :
    (i j : ℕ) (xs : List ℕ) → member j (without i xs) ≡ (if j == i then false else member j xs)
member-without i j [] = ground arith
member-without i j (x ∷ xs) = ground (arith, member-without i j xs)

abbrev snapshots_laws : IsClientHeap snapshots
snapshots_laws = record {
  IsHeap = λ at h. h.0 ≡ at;
  holds = λ h i. member i h.1;
  root_none = λ at h i ok e. ap (member i) (least_of-none h.0 h.1 e);
  root_held = λ at h i ok e. (least_of-least h.0 h.1 i e).0;
  root_above = λ at h i j ok e k. rw ok at ((least_of-least h.0 h.1 i e).1 j k);
  insert_ok = λ at h i ok out e. (refl, λ j. ground arith);
  insert_error = λ at h i ok ne. absurd (ne refl);
  remove_ok = λ at at' h i ok same held. (refl, λ j. member-without i j h.1);
  relocate_ok = λ at at' h i ok same held. (refl, λ j. refl);
}

-- Clients of two requests per second with a token each, checked at time 0.
abbrev two_per_second : ℕ → Bucket
two_per_second i = record {
  tc_rpc_rate = 2;
  tc_nsecs = 500000000;
  tc_ntoken = 1;
  tc_depth = 3;
  tc_check_time = 0;
}

abbrev empty_sched : Sched Snapshot
empty_sched = record {
  th_binheap = (two_per_second, []);
  th_sequence = 1;
  th_deadline = 0;
  th_timer = none;
  nrs_throttling = false;
  client_at = two_per_second;
  tc_in_heap = λ i. false;
  tc_list = λ i. [];
}

empty_sched-Sound : Sound snapshots snapshots_laws empty_sched
empty_sched-Sound = record { heap_ok = refl; held = λ i. refl; queued = λ i. refl }

-- The request of client 7 is in.
abbrev one_queued : Sched Snapshot
one_queued = record empty_sched {
  th_binheap = (two_per_second, 7 ∷ []);
  th_sequence = 2;
  tc_in_heap = update (λ i. false) 7 true;
  tc_list = update (λ i. []) 7 (record { nrq = 100; tr_sequence = 1 } ∷ []);
}

one_added : nrs_tbf_req_add snapshots empty_sched 7 100 true ≡ some (success, one_queued)
unfolding nrs_tbf_req_add append_nrq hasten
one_added = refl

Reach-Runs_example :
    Sound snapshots snapshots_laws one_queued
    × Runs empty_sched.tc_list (offered 7 100 success ∷ []) one_queued.tc_list
Reach-Runs_example =
    Reach-Runs snapshots snapshots_laws empty_sched one_queued (offered 7 100 success ∷ [])
      (next here (add 7 100 true success one_added refl)) empty_sched-Sound
