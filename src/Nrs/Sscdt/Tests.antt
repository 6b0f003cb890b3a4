-- ===== src/Nrs/Sscdt/Tests.antt =====
-- A heap that is a sorted list, and instances of the theorems about the window policy.
use mathlib.Core.List.{Permᴰ}
use mathlib.Core.List.Permᴰ
use lustre_tools.Base.{
  ℕ, ◌≡◌, refl, Bool, true, false, List, [], ◌∷◌, Option, none, some, length, ◌⊎◌, inl, inr,
  Bool-cases, arith, success, if◌then◌else◌, ◌==◌,
}
use lustre_tools.Nrs.Sscdt.{
  Request, sscdt_req_compare, Binheap, Policy, drain, add_all, nrs_sscdt_req_add, nrs_sscdt_req_get,
}
use lustre_tools.Nrs.Sscdt.Order.{sscdt_req_compare_trans, sscdt_req_compare-tricho}
use lustre_tools.Nrs.Sscdt.Drain.{
  IsBinheap, NoneAbove, Ordered, InOrder, NoneAbove-perm, drain-add_all,
}

abbrev is_above : Request → Request → Bool
is_above r s = elim (sscdt_req_compare 1000 r s) [ some true ↦ true | _ ↦ false ]

-- In front of the first request that it is above.
abbrev insert_sorted : Request → List Request → List Request
insert_sorted r [] = r ∷ []
insert_sorted r (s ∷ rest) = if is_above r s then r ∷ s ∷ rest else s ∷ insert_sorted r rest

abbrev remove_node : List Request → Request → List Request
remove_node [] r = []
remove_node (s ∷ rest) r = if s.rq_nrq == r.rq_nrq then rest else s ∷ remove_node rest r

abbrev head_of : List Request → Option Request
head_of [] = none
head_of (s ∷ rest) = some s

abbrev sorted_list : Binheap (List Request)
sorted_list = record {
  create = some [];
  is_empty = λ h. length h == 0;
  root = head_of;
  insert = λ h r. (success, insert_sorted r h);
  remove = remove_node;
}

insert_sorted-perm : (r : Request) (h : List Request) → Permᴰ (insert_sorted r h) (r ∷ h)
insert_sorted-perm r [] = Permᴰ.refl _
insert_sorted-perm r (s ∷ rest) = elim (Bool-cases (is_above r s)) [
  | inl above ↦ rw above (Permᴰ.refl (r ∷ s ∷ rest))
  | inr below ↦
      rw below (Permᴰ.trans (Permᴰ.cons refl (insert_sorted-perm r rest)) (Permᴰ.swap refl refl))
]

is_above-cases :
    (r s : Request)
    → ((is_above r s ≡ true)
        × (sscdt_req_compare 1000 r s ≡ some true)
        × (sscdt_req_compare 1000 s r ≡ some false))
      ⊎ ((is_above r s ≡ false) × (sscdt_req_compare 1000 r s ≡ some false))
is_above-cases r s = elim (sscdt_req_compare-tricho 1000 r s (omega arith)) [
  | inl (above, back) ↦ inl (rw (is_above, above) refl, above, back)
  | inr (inl (below, back)) ↦ inr (rw (is_above, below) refl, below)
  | inr (inr (below, back, w, n, k)) ↦ inr (rw (is_above, below) refl, below)
]

above_all :
    (r s : Request) (h : List Request)
    → sscdt_req_compare 1000 r s ≡ some true
    → NoneAbove 1000 s h
    → NoneAbove 1000 r h
above_all r s [] above n = tt
above_all r s (t ∷ h) above n =
    let step = sscdt_req_compare_trans 1000 t r s in
    (
      elim (is_above-cases t r) [
        | inr (_, below) ↦ below
        | inl (_, over, _) ↦ absurd (ground (arith, step over above, n.0))
      ],
      above_all r s h above n.1,
    )

insert_sorted-Ordered :
    (r : Request) (h : List Request) → Ordered 1000 h → Ordered 1000 (insert_sorted r h)
insert_sorted-Ordered r [] v = (tt, tt)
insert_sorted-Ordered r (s ∷ rest) v = elim (is_above-cases r s) [
  | inl (yes_above, above, back) ↦ rw yes_above ((back, above_all r s rest above v.0), v)
  | inr (not_above, below) ↦ rw not_above (
    NoneAbove-perm 1000 s (Permᴰ.symm (insert_sorted-perm r rest)) (below, v.0),
    insert_sorted-Ordered r rest v.1,
  )
]

sorted_list-IsBinheap : IsBinheap sorted_list 1000
sorted_list-IsBinheap = record {
  IsHeap = Ordered 1000;
  contents = λ h. h;
  root_none = root_none;
  root_some = root_some;
  insert_ok = λ h r v e. (insert_sorted-perm r h, insert_sorted-Ordered r h v);
}
  where
    root_none : (h : List Request) → Ordered 1000 h → head_of h ≡ none → h ≡ []
    root_none [] v e = refl
    root_none (s ∷ rest) v e = absurd (ground (arith, e))

    root_some :
        (h : List Request) (r : Request)
        → Ordered 1000 h
        → head_of h ≡ some r
        → Permᴰ h (r ∷ remove_node h r)
          × NoneAbove 1000 r (remove_node h r)
          × Ordered 1000 (remove_node h r)
    root_some [] r v e = absurd (ground (arith, e))
    root_some (s ∷ rest) r v e =
        let same : s ≡ r = ground (arith, e) in
        let it : (s.rq_nrq == r.rq_nrq) ≡ true = ground (arith, e) in
        rw (it, ← same) (Permᴰ.refl (s ∷ rest), v.0, v.1)

abbrev request : ℕ → ℕ → ℕ → Request
request rq_nrq rq_sent nid = record {
  rq_nrq = rq_nrq;
  rq_sent = rq_sent;
  nid = nid;
  pid = 5;
  st_sequence = 0;
}

abbrev idle : Policy (List Request)
idle = record { interval = 1000; st_binheap = []; st_sequence = 1 }

-- Two requests in second 7 and one in second 6.
abbrev three : List Request
three = request 1 7 20 ∷ request 2 7 10 ∷ request 3 6 90 ∷ []

served :
    drain sorted_list 3 (add_all sorted_list idle three)
    ≡ request 3 6 90 ∷ request 2 7 10 ∷ request 1 7 20 ∷ []
unfolding drain add_all nrs_sscdt_req_add nrs_sscdt_req_get sscdt_req_compare
served = refl

drain-add_all_example :
    Permᴰ three (drain sorted_list 3 (add_all sorted_list idle three))
    × InOrder 1000 (drain sorted_list 3 (add_all sorted_list idle three))
unfolding sorted_list-IsBinheap
drain-add_all_example =
    drain-add_all sorted_list three idle sorted_list-IsBinheap tt refl (λ h r. refl) (omega arith)
