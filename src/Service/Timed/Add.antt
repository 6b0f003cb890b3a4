-- ===== src/Service/Timed/Add.antt =====
-- ptlrpc_at_add_timed of service.c: a request is put in its place.
use lustre_tools.Base.{
  ℕ, suc, ◌+◌, ◌%◌, ◌^◌, ◌≤◌, ◌<◌, ◌≡◌, ◌≢◌, refl, sym, ap, ◌∙◌, inl, inr, true, false, List, [],
  ◌∷◌, length, ltb, ◌==◌, if◌then◌else◌, Bool-cases, arith,
}
use lustre_tools.Service.Timed.{
  TimedRequest, AtArray, inc32, rev_onto, search_back, add_at, added, ptlrpc_at_add_timed,
}
use lustre_tools.Service.Timed.Lists.{Linked, IsSorted, same_test, other_test}
use lustre_tools.Service.Timed.Visits.{sum_to}
use lustre_tools.Service.Timed.Sweep.{lengths, no_length}
use lustre_tools.Service.Timed.Due.{mod_lt, IsTimed}
use lustre_tools.Service.Timed.Place.{
  search_back-IsSorted, length-rev_onto, length-search_back, turned_back, Placed,
  search_back-Placed, sum_to_bump, one_of_sum,
}

accepted :
    (a : AtArray) (req : TimedRequest)
    → req.rq_no_reply ≡ false
    → req.has_at_support ≡ true
    → req.is_timed ≡ false
    → ptlrpc_at_add_timed false a req
      ≡ added
          (add_at a
            (record req { rq_at_index = req.rq_deadline % a.paa_size; is_timed = true })
            (req.rq_deadline % a.paa_size))
          (record req { rq_at_index = req.rq_deadline % a.paa_size; is_timed = true })
unfolding ptlrpc_at_add_timed
accepted a req reply support free = rw (reply, support, free) refl

-- The list of the request before and after.
module _ (a : AtArray) (req : TimedRequest) (i : ℕ) where
  placed : List TimedRequest
  unfolding search_back
  placed =
      if ltb 0 (a.paa_reqs_count i)
      then search_back req (rev_onto (a.paa_reqs_array i) []) []
      else req ∷ a.paa_reqs_array i

  module _ (h : IsTimed a) (il : i < a.paa_size) (at_i : Linked i req) where
    straight : rev_onto (rev_onto (a.paa_reqs_array i) []) [] ≡ a.paa_reqs_array i
    straight = turned_back (a.paa_reqs_array i) []

    placed_list :
        Placed req (a.paa_reqs_array i) placed
        × IsSorted i placed
        × (length placed ≡ suc (length (a.paa_reqs_array i)))
    unfolding placed
    placed_list = elim (Bool-cases (ltb 0 (a.paa_reqs_count i))) [
      | inl t ↦ rw t (
        search_back-Placed req (rev_onto (a.paa_reqs_array i) []) [] (a.paa_reqs_array i)
            (sym straight),
        search_back-IsSorted i req (rev_onto (a.paa_reqs_array i) []) [] at_i
            (rw straight (h.each_sorted i il)) tt,
        omega (
          arith,
          length-search_back req (rev_onto (a.paa_reqs_array i) []) [],
          length-rev_onto (a.paa_reqs_array i) [],
        ),
      )
      | inr t ↦
          let nil : a.paa_reqs_array i ≡ [] =
            no_length (a.paa_reqs_array i) (ground (arith, h.each_count i il)) in
          rw (t, nil)
            (record { front = []; back = []; was = refl; now = refl }, (at_i, tt, tt), refl)
    ]

    add_at_here : (add_at a req i).paa_reqs_array i ≡ placed
    unfolding add_at placed
    add_at_here = rw (same_test i) refl

    add_at_else : (j : ℕ) → i ≢ j → (add_at a req i).paa_reqs_array j ≡ a.paa_reqs_array j
    unfolding add_at
    add_at_else j k = rw (other_test i j k) refl

    count_here : (add_at a req i).paa_reqs_count i ≡ inc32 (a.paa_reqs_count i)
    unfolding add_at
    count_here = rw (same_test i) refl

    count_else : (j : ℕ) → i ≢ j → (add_at a req i).paa_reqs_count j ≡ a.paa_reqs_count j
    unfolding add_at
    count_else j k = rw (other_test i j k) refl

    length_here : length ((add_at a req i).paa_reqs_array i) ≡ suc (length (a.paa_reqs_array i))
    length_here = let (_, _, n) = placed_list in ap length add_at_here ∙ n

    lengths_sum : sum_to (lengths (add_at a req i)) a.paa_size ≡ suc (sum_to (lengths a) a.paa_size)
    lengths_sum =
        sum_to_bump (lengths a) (lengths (add_at a req i)) i a.paa_size il length_here
          (λ j k. ap length (add_at_else j k))

    count_small : a.paa_reqs_count i ≤ a.paa_count
    count_small = omega (arith, h.whole, h.each_count i il, one_of_sum (lengths a) i a.paa_size il)

    in_place_after : (j : ℕ) → j < a.paa_size → IsSorted j ((add_at a req i).paa_reqs_array j)
    in_place_after j k = elim (Bool-cases (j == i)) [
      | inl t ↦
          let same : j ≡ i = ground arith in
          let (_, sorted, _) = placed_list in rw (same, add_at_here) sorted
      | inr t ↦ rw (add_at_else j (ground arith)) (h.each_sorted j k)
    ]

    add_at-IsTimed : a.paa_count + 1 < 2 ^ 32 → IsTimed (add_at a req i)
    unfolding add_at
    add_at-IsTimed room = record {
      some_lists = h.some_lists;
      each_sorted = in_place_after;
      each_count = λ j k. elim (Bool-cases (j == i)) [
        | inl t ↦
            let same : j ≡ i = ground arith in
            rw same (count_here ∙ omega (arith, h.each_count i il, length_here, count_small))
        | inr t ↦
            count_else j (ground arith)
            ∙ h.each_count j k
            ∙ ap length (sym (add_at_else j (ground arith)))
      ];
      whole = omega (arith, h.whole, lengths_sum);
      in_word = omega arith;
    }

-- While adaptive timeouts are on and the number of requests fits its word, a request that is on no list,
-- gets a reply and supports early replies is added to the lists in order: it stands in the list of
-- its deadline, in its place among those that wait there; the other lists stay, and the lists are in
-- order again.
pub ptlrpc_at_add_timed-IsTimed :
    (a : AtArray) (req : TimedRequest)
    → IsTimed a
    → a.paa_count + 1 < 2 ^ 32
    → req.rq_no_reply ≡ false
    → req.has_at_support ≡ true
    → req.is_timed ≡ false
    → (a' : AtArray) × (req' : TimedRequest) × (ptlrpc_at_add_timed false a req ≡ added a' req')
      × IsTimed a'
      × Placed req'
          (a.paa_reqs_array (req.rq_deadline % a.paa_size))
          (a'.paa_reqs_array (req.rq_deadline % a.paa_size))
      × ((j : ℕ) → req.rq_deadline % a.paa_size ≢ j → a'.paa_reqs_array j ≡ a.paa_reqs_array j)
unfolding ptlrpc_at_add_timed
ptlrpc_at_add_timed-IsTimed a req h room reply support free =
    let i : ℕ = req.rq_deadline % a.paa_size in
    let req' : TimedRequest = record req { rq_at_index = i; is_timed = true } in
    let il : i < a.paa_size = mod_lt req.rq_deadline a.paa_size h.some_lists in
    let (here, _, _) = placed_list a req' i h il (refl, refl) in
    (
      add_at a req' i,
      req',
      accepted a req reply support free,
      add_at-IsTimed a req' i h il (refl, refl) room,
      rw (add_at_here a req' i h il (refl, refl)) here,
      add_at_else a req' i h il (refl, refl),
    )
