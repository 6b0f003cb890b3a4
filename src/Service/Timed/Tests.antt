-- ===== src/Service/Timed/Tests.antt =====
-- Runs of the requests that wait for their deadlines.
use lustre_tools.Base.{
  ℕ, zero, suc, ◌<◌, ◌≡◌, ◌≢◌, refl, true, false, none, some, List, [], ◌∷◌, length, ◌==◌,
  if◌then◌else◌, arith,
}
use lustre_tools.Service.Timed.Place.{Placed}
use lustre_tools.Service.Timed.Add.{ptlrpc_at_add_timed-IsTimed}
use lustre_tools.Service.Timed.{added, ptlrpc_at_add_timed, TimedRequest, AtArray, take_due}
use lustre_tools.Service.Timed.Lists.{IsSorted, later}
use lustre_tools.Service.Timed.Nearest.{IsNearest}
use lustre_tools.Service.Timed.Sweep.{all_due, all_nearest}
use lustre_tools.Service.Timed.Due.{IsTimed, from_nearest, take_due-Takes}

abbrev request : ℕ → ℕ → ℕ → ℕ → TimedRequest
request xid deadline index refs = record {
  rq_xid = xid;
  rq_deadline = deadline;
  rq_at_index = index;
  rq_no_reply = false;
  has_at_support = true;
  rq_refcount = refs;
  is_timed = true;
}

-- Three lists: deadlines 9 and 12, 7, and 8, whose request is given up.
abbrev waiting : AtArray
waiting = record {
  paa_size = 3;
  paa_count = 4;
  paa_deadline = some 7;
  paa_reqs_count = λ i. if i == 0 then 2 else 1;
  paa_reqs_array = λ i.
      if i == 0
      then request 1 9 0 1 ∷ request 2 12 0 1 ∷ []
      else if i == 1
      then request 3 7 1 2 ∷ []
      else request 4 8 2 0 ∷ [];
}

each_in_place : (i : ℕ) → i < 3 → IsSorted i (waiting.paa_reqs_array i)
each_in_place zero h = ((refl, refl), (omega arith, tt), ((refl, refl), tt, tt))
each_in_place (suc zero) h = ((refl, refl), tt, tt)
each_in_place (suc (suc zero)) h = ((refl, refl), tt, tt)
each_in_place (suc (suc (suc i))) h = absurd (omega arith)

right_counts : (i : ℕ) → i < 3 → waiting.paa_reqs_count i ≡ length (waiting.paa_reqs_array i)
right_counts zero h = refl
right_counts (suc zero) h = refl
right_counts (suc (suc zero)) h = refl
right_counts (suc (suc (suc i))) h = absurd (omega arith)

waiting-IsTimed : IsTimed waiting
waiting-IsTimed = record {
  some_lists = omega arith;
  each_sorted = each_in_place;
  each_count = right_counts;
  whole = refl;
  in_word = omega arith;
}

take_due-Takes_example :
    (a' : AtArray) × (work : List TimedRequest) × (take_due 9 waiting ≡ some (a', work))
    × IsTimed a'
    × ((i : ℕ) → i < 3 → a'.paa_reqs_array i ≡ later 9 (waiting.paa_reqs_array i))
    × (work ≡ all_due 9 waiting.paa_reqs_array (from_nearest waiting 7) [])
    × IsNearest a'.paa_deadline 3 a'.paa_reqs_array
take_due-Takes_example = take_due-Takes 9 7 waiting waiting-IsTimed refl

-- Up to 9: requests 3 and 1, and the next deadline is 12.
due_now :
    all_due 9 waiting.paa_reqs_array (from_nearest waiting 7) []
    ≡ request 1 9 0 2 ∷ request 3 7 1 3 ∷ []
due_now = refl

next_deadline : all_nearest 9 waiting.paa_reqs_array (from_nearest waiting 7) none ≡ some 12
next_deadline = refl

abbrev new_request : TimedRequest
new_request = record (request 5 10 0 1) { is_timed = false }

-- A request for the time 10 goes behind the one for 7.
ptlrpc_at_add_timed-IsTimed_example :
    (a' : AtArray) × (req' : TimedRequest) × (ptlrpc_at_add_timed false waiting new_request
      ≡ added a' req')
    × IsTimed a'
    × Placed req' (request 3 7 1 2 ∷ []) (a'.paa_reqs_array 1)
    × ((j : ℕ) → 1 ≢ j → a'.paa_reqs_array j ≡ waiting.paa_reqs_array j)
ptlrpc_at_add_timed-IsTimed_example =
    ptlrpc_at_add_timed-IsTimed waiting new_request waiting-IsTimed (omega arith) refl refl refl
