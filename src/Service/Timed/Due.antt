-- ===== src/Service/Timed/Due.antt =====
-- ptlrpc_at_check_timed of service.c: its loop ends, and takes the requests that are due.
use lustre_tools.Base.{
  ℕ, zero, suc, ◌%◌, ◌^◌, ◌≤◌, ◌<◌, ◌≡◌, refl, sym, ap, ◌∙◌, Option, none, some, List, [], length,
  ◌>>=◌, arith,
}
use lustre_tools.Service.Timed.{TimedRequest, AtArray, Scan, scan_loop, take_due}
use lustre_tools.Service.Timed.Lists.{later, IsSorted, later-IsSorted}
use lustre_tools.Service.Timed.Visits.{visits, IsIn, sum_to, visits_within, all_visited, sum_all}
use lustre_tools.Service.Timed.Nearest.{IsNearest, all_nearest-IsNearest, IsNearest-same}
use lustre_tools.Service.Timed.Sweep.{
  lengths, left_lengths, all_due, all_nearest, InOrder, Swept, shorter, sweep_ends,
}

-- The lists of all the requests that wait.
pub record IsTimed (a : AtArray) : Type 0 where
  pub some_lists : 0 < a.paa_size
  pub each_sorted : (i : ℕ) → i < a.paa_size → IsSorted i (a.paa_reqs_array i)
  pub each_count : (i : ℕ) → i < a.paa_size → a.paa_reqs_count i ≡ length (a.paa_reqs_array i)
  pub whole : a.paa_count ≡ sum_to (lengths a) a.paa_size
  pub in_word : a.paa_count < 2 ^ 32

-- The order of the visits from the nearest deadline on.
abbrev pub from_nearest : AtArray → ℕ → List ℕ
from_nearest a first = visits a.paa_size a.paa_size (first % a.paa_size)

pub mod_lt : (x n : ℕ) → 0 < n → x % n < n
mod_lt x n h = omega arith

all-InOrder :
    (a : AtArray) (first : ℕ)
    → IsTimed a
    → first % a.paa_size < a.paa_size
    → InOrder a (from_nearest a first)
all-InOrder a first h k = record {
  sorted = λ i m.
      h.each_sorted i
        (visits_within a.paa_size a.paa_size (first % a.paa_size) i k (omega arith) m);
  counts = λ i m.
      h.each_count i (visits_within a.paa_size a.paa_size (first % a.paa_size) i k (omega arith) m);
  enough = omega (arith, sum_all (lengths a) a.paa_size (first % a.paa_size) k, h.whole);
  small = h.in_word;
}

sum_to_cong : (f g : ℕ → ℕ) (n : ℕ) → ((i : ℕ) → i < n → f i ≡ g i) → sum_to f n ≡ sum_to g n
sum_to_cong f g zero h = refl
sum_to_cong f g (suc n) h =
    rw (sum_to_cong f g n (λ i k. h i (omega arith)), h n (omega arith)) refl

sum_to_le : (f g : ℕ → ℕ) (n : ℕ) → ((i : ℕ) → f i ≤ g i) → sum_to f n ≤ sum_to g n
sum_to_le f g zero h = omega arith
sum_to_le f g (suc n) h = omega (arith, sum_to_le f g n h, h n)

Swept-IsTimed :
    (limit first : ℕ) (a : AtArray) (s' : Scan)
    → IsTimed a
    → first % a.paa_size < a.paa_size
    → Swept limit
        (from_nearest a first)
        (record { at_array = a; work_list = []; deadline = none })
        s'
    → IsTimed (record s'.at_array { paa_deadline = s'.deadline })
Swept-IsTimed limit first a s' h k w = record {
  some_lists = omega (arith, w.size_kept, h.some_lists);
  each_sorted = λ i m.
      rw (w.lists_in i (place i m))
        (later-IsSorted limit i (a.paa_reqs_array i) (h.each_sorted i (inside i m)));
  each_count = λ i m. w.counts_in i (place i m) ∙ ap length (sym (w.lists_in i (place i m)));
  whole = rw w.size_kept (count_left ∙ sym left_sum);
  in_word = omega (
    arith,
    count_left,
    h.in_word,
    h.whole,
    sum_to_le (left_lengths limit a) (lengths a) a.paa_size
        (λ i. shorter limit (a.paa_reqs_array i)),
  );
}
  where
    inside : (i : ℕ) → i < s'.at_array.paa_size → i < a.paa_size
    inside i m = omega (arith, w.size_kept)

    place : (i : ℕ) → i < s'.at_array.paa_size → IsIn i (from_nearest a first)
    place i m = all_visited a.paa_size (first % a.paa_size) i k (inside i m)

    count_left : s'.at_array.paa_count ≡ sum_to (left_lengths limit a) a.paa_size
    count_left = omega (
      arith,
      w.total,
      h.whole,
      sum_all (lengths a) a.paa_size (first % a.paa_size) k,
      sum_all (left_lengths limit a) a.paa_size (first % a.paa_size) k,
    )

    left_sum : sum_to (lengths s'.at_array) a.paa_size ≡ sum_to (left_lengths limit a) a.paa_size
    left_sum =
        sum_to_cong (lengths s'.at_array) (left_lengths limit a) a.paa_size
          (λ i m. ap length (w.lists_in i (all_visited a.paa_size (first % a.paa_size) i k m)))

abbrev at_start : AtArray → Scan
at_start a = record { at_array = a; work_list = []; deadline = none }

take_due_lem :
    (limit first : ℕ) (a : AtArray) (s' : Scan)
    → a.paa_deadline ≡ some first
    → scan_loop limit a.paa_size (first % a.paa_size) a.paa_count (at_start a) ≡ some s'
    → take_due limit a ≡ some (record s'.at_array { paa_deadline = s'.deadline }, s'.work_list)
unfolding take_due
take_due_lem limit first a s' e done =
    ap
      (λ (d : Option ℕ). d >>= λ f.
        scan_loop limit a.paa_size (f % a.paa_size) a.paa_count (at_start a) >>= λ s. result s)
      e
    ∙ ap (λ (r : Option Scan). r >>= λ s. result s) done
  where
    result : Scan → Option (AtArray × List TimedRequest)
    result s = some (record s.at_array { paa_deadline = s.deadline }, s.work_list)

-- From lists in order that have a nearest deadline, the loop ends, and no assertion fails. Every list keeps those that are due later than `limit`, the
-- counts are theirs, and those that were due and alive, with one more reference each, are the work; the
-- deadline that is left is the nearest of all that still wait, and none if no request waits.
pub take_due-Takes :
    (limit first : ℕ) (a : AtArray)
    → IsTimed a
    → a.paa_deadline ≡ some first
    → (a' : AtArray) × (work : List TimedRequest) × (take_due limit a ≡ some (a', work))
      × IsTimed a'
      × ((i : ℕ) → i < a.paa_size → a'.paa_reqs_array i ≡ later limit (a.paa_reqs_array i))
      × (work ≡ all_due limit a.paa_reqs_array (from_nearest a first) [])
      × IsNearest a'.paa_deadline a.paa_size a'.paa_reqs_array
take_due-Takes limit first a h e =
    let is : List ℕ = from_nearest a first in
    let at_first : first % a.paa_size < a.paa_size = mod_lt first a.paa_size h.some_lists in
    let (s', done, swept) =
      sweep_ends limit a.paa_size a.paa_size (first % a.paa_size) a.paa_count (at_start a) refl
        at_first (omega arith) (all-InOrder a first h at_first)
        (h.whole ∙ sym (sum_all (lengths a) a.paa_size (first % a.paa_size) at_first)) in
    let left : (i : ℕ)
        → i < a.paa_size
        → s'.at_array.paa_reqs_array i ≡ later limit (a.paa_reqs_array i) =
      λ i k. swept.lists_in i (all_visited a.paa_size (first % a.paa_size) i at_first k) in
    (
      record s'.at_array { paa_deadline = s'.deadline },
      s'.work_list,
      take_due_lem limit first a s' e done,
      Swept-IsTimed limit first a s' h at_first swept,
      left,
      swept.taken,
      rw swept.nearest (
          IsNearest-same (all_nearest limit a.paa_reqs_array is none) a.paa_size
            (λ i. later limit (a.paa_reqs_array i)) s'.at_array.paa_reqs_array left
            (all_nearest-IsNearest limit a.paa_size a.paa_reqs_array is
              (λ i k. all_visited a.paa_size (first % a.paa_size) i at_first k)
              (λ i m.
                visits_within a.paa_size a.paa_size (first % a.paa_size) i at_first (omega arith) m)
              (λ i k. later-IsSorted limit i (a.paa_reqs_array i) (h.each_sorted i k)))),
    )
