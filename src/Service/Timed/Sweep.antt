-- ===== src/Service/Timed/Sweep.antt =====
-- The loop of ptlrpc_at_check_timed in service.c over the lists.
use lustre_tools.Base.{
  ℕ, zero, suc, ◌+◌, ◌^◌, ◌≤◌, ◌<◌, ◌≡◌, ◌≢◌, refl, sym, ap, ◌∙◌, inl, inr, Option, some, List, [],
  ◌∷◌, length, arith, ◌>>=◌,
}
use lustre_tools.Service.Timed.{TimedRequest, AtArray, Scan, sub32, scan_loop}
use lustre_tools.Service.Timed.Lists.{
  later, due_onto, head_deadline, IsSorted, Scanned, scan_list-Scanned,
}
use lustre_tools.Service.Timed.Visits.{
  next_index, visits, IsIn, sum_at, sum_at_cong, visits-AllDistinct, next_within,
}

abbrev pub lengths : AtArray → ℕ → ℕ
lengths a i = length (a.paa_reqs_array i)

abbrev pub left_lengths : ℕ → AtArray → ℕ → ℕ
left_lengths limit a i = length (later limit (a.paa_reqs_array i))

-- The lists in their order: what is taken from them, and the earliest of what is left.
abbrev pub all_due : ℕ → (ℕ → List TimedRequest) → List ℕ → List TimedRequest → List TimedRequest
all_due limit f [] acc = acc
all_due limit f (i ∷ is) acc = all_due limit f is (due_onto limit (f i) acc)

abbrev pub all_nearest : ℕ → (ℕ → List TimedRequest) → List ℕ → Option ℕ → Option ℕ
all_nearest limit f [] d = d
all_nearest limit f (i ∷ is) d = all_nearest limit f is (head_deadline d (later limit (f i)))

-- The lists of a scan are in order, with their lengths.
pub record InOrder (a : AtArray) (is : List ℕ) : Type 0 where
  pub sorted : (i : ℕ) → IsIn i is → IsSorted i (a.paa_reqs_array i)
  pub counts : (i : ℕ) → IsIn i is → a.paa_reqs_count i ≡ length (a.paa_reqs_array i)
  pub enough : sum_at (lengths a) is ≤ a.paa_count
  pub small : a.paa_count < 2 ^ 32

-- What the loop over the lists of `is` does.
pub record Swept (limit : ℕ) (is : List ℕ) (s s' : Scan) : Type 0 where
  pub lists_in :
      (i : ℕ) → IsIn i is → s'.at_array.paa_reqs_array i ≡ later limit (s.at_array.paa_reqs_array i)
  pub counts_in :
      (i : ℕ)
      → IsIn i is
      → s'.at_array.paa_reqs_count i ≡ length (later limit (s.at_array.paa_reqs_array i))
  pub lists_out :
      (i : ℕ) → (IsIn i is → ⊥) → s'.at_array.paa_reqs_array i ≡ s.at_array.paa_reqs_array i
  pub counts_out :
      (i : ℕ) → (IsIn i is → ⊥) → s'.at_array.paa_reqs_count i ≡ s.at_array.paa_reqs_count i
  pub size_kept : s'.at_array.paa_size ≡ s.at_array.paa_size
  pub total :
      s'.at_array.paa_count + sum_at (lengths s.at_array) is
      ≡ s.at_array.paa_count + sum_at (left_lengths limit s.at_array) is
  pub taken : s'.work_list ≡ all_due limit s.at_array.paa_reqs_array is s.work_list
  pub nearest : s'.deadline ≡ all_nearest limit s.at_array.paa_reqs_array is s.deadline

pub no_length : (rqs : List TimedRequest) → length rqs ≡ 0 → rqs ≡ []
no_length [] e = refl
no_length (r ∷ rqs) e = absurd (omega arith)

pub shorter : (limit : ℕ) (rqs : List TimedRequest) → length (later limit rqs) ≤ length rqs
shorter limit [] = omega arith
shorter limit (r ∷ rqs) = ground (arith, shorter limit rqs)

fewer_lists : (a : AtArray) (i : ℕ) (is : List ℕ) → InOrder a (i ∷ is) → InOrder a is
fewer_lists a i is h = record {
  sorted = λ j m. h.sorted j (inr m);
  counts = λ j m. h.counts j (inr m);
  enough = omega (arith, h.enough);
  small = h.small;
}

-- Lists without a request need no scan.
empty-Swept :
    (limit : ℕ) (is : List ℕ) (s : Scan)
    → InOrder s.at_array is
    → sum_at (lengths s.at_array) is ≡ 0
    → Swept limit is s s
empty-Swept limit [] s h e = record {
  lists_in = λ i m. elim m [ ];
  counts_in = λ i m. elim m [ ];
  lists_out = λ i m. refl;
  counts_out = λ i m. refl;
  size_kept = refl;
  total = refl;
  taken = refl;
  nearest = refl;
}
empty-Swept limit (i ∷ is) s h e =
    let nil : s.at_array.paa_reqs_array i ≡ [] =
      no_length (s.at_array.paa_reqs_array i) (omega arith) in
    let ih : Swept limit is s s =
      empty-Swept limit is s (fewer_lists s.at_array i is h) (omega arith) in
    record {
      lists_in = λ j m. elim m [ inl x ↦ rw (x, nil) refl | inr m' ↦ ih.lists_in j m' ];
      counts_in = λ j m. elim m [
        | inl x ↦ rw (x, nil) (h.counts i (inl refl) ∙ ap length nil)
        | inr m' ↦ ih.counts_in j m'
      ];
      lists_out = λ j m. refl;
      counts_out = λ j m. refl;
      size_kept = refl;
      total = omega (arith, ih.total, ap (λ (r : List TimedRequest). length (later limit r)) nil);
      taken = rw nil ih.taken;
      nearest = rw nil ih.nearest;
    }

all_due_cong :
    (limit : ℕ) (f g : ℕ → List TimedRequest) (is : List ℕ) (acc : List TimedRequest)
    → ((i : ℕ) → IsIn i is → f i ≡ g i)
    → all_due limit f is acc ≡ all_due limit g is acc
all_due_cong limit f g [] acc h = refl
all_due_cong limit f g (i ∷ is) acc h =
    rw (h i (inl refl)) (all_due_cong limit f g is (due_onto limit (g i) acc) (λ j m. h j (inr m)))

all_nearest_cong :
    (limit : ℕ) (f g : ℕ → List TimedRequest) (is : List ℕ) (d : Option ℕ)
    → ((i : ℕ) → IsIn i is → f i ≡ g i)
    → all_nearest limit f is d ≡ all_nearest limit g is d
all_nearest_cong limit f g [] d h = refl
all_nearest_cong limit f g (i ∷ is) d h =
    rw (h i (inl refl))
      (all_nearest_cong limit f g is (head_deadline d (later limit (g i))) (λ j m. h j (inr m)))

module _ (limit i : ℕ) (is : List ℕ) (s s1 : Scan) (h : InOrder s.at_array (i ∷ is))
    (new : IsIn i is → ⊥) (sc : Scanned limit i (s.at_array.paa_reqs_array i) s s1) where
  apart : (j : ℕ) → IsIn j is → i ≢ j
  apart j m e = new (rw e m)

  pub same_lists : (j : ℕ) → IsIn j is → s1.at_array.paa_reqs_array j ≡ s.at_array.paa_reqs_array j
  same_lists j m = sc.list_else j (apart j m)

  pub same_sum : sum_at (lengths s1.at_array) is ≡ sum_at (lengths s.at_array) is
  same_sum =
      sum_at_cong (lengths s1.at_array) (lengths s.at_array) is (λ j m. ap length (same_lists j m))

  same_left : sum_at (left_lengths limit s1.at_array) is ≡ sum_at (left_lengths limit s.at_array) is
  same_left =
      sum_at_cong (left_lengths limit s1.at_array) (left_lengths limit s.at_array) is
        (λ j m. ap (λ (r : List TimedRequest). length (later limit r)) (same_lists j m))

  pub rest-InOrder : InOrder s1.at_array is
  rest-InOrder = record {
    sorted = λ j m. rw (same_lists j m) (h.sorted j (inr m));
    counts =
        λ j m. sc.count_else j (apart j m) ∙ h.counts j (inr m) ∙ ap length (sym (same_lists j m));
    enough = omega (arith, same_sum, sc.total, h.enough);
    small = omega (arith, sc.total, h.small, shorter limit (s.at_array.paa_reqs_array i));
  }

  pub scan-Swept : (s' : Scan) → Swept limit is s1 s' → Swept limit (i ∷ is) s s'
  scan-Swept s' ih = record {
    lists_in = λ j m. elim m [
      | inl x ↦ rw x (ih.lists_out i new ∙ sc.list_here)
      | inr m' ↦ ih.lists_in j m' ∙ ap (later limit) (same_lists j m')
    ];
    counts_in = λ j m. elim m [
      | inl x ↦ rw x (ih.counts_out i new ∙ sc.count_here)
      | inr m' ↦
          ih.counts_in j m'
          ∙ ap (λ (r : List TimedRequest). length (later limit r)) (same_lists j m')
    ];
    lists_out = λ j m. ih.lists_out j (λ k. m (inr k)) ∙ sc.list_else j (λ e. m (inl (sym e)));
    counts_out = λ j m. ih.counts_out j (λ k. m (inr k)) ∙ sc.count_else j (λ e. m (inl (sym e)));
    size_kept = ih.size_kept ∙ sc.size_kept;
    total = omega (arith, ih.total, sc.total, same_sum, same_left);
    taken =
        ih.taken
        ∙ all_due_cong limit s1.at_array.paa_reqs_array s.at_array.paa_reqs_array is s1.work_list
            same_lists
        ∙ ap (all_due limit s.at_array.paa_reqs_array is) sc.taken;
    nearest =
        ih.nearest
        ∙ all_nearest_cong limit s1.at_array.paa_reqs_array s.at_array.paa_reqs_array is s1.deadline
            same_lists
        ∙ ap (all_nearest limit s.at_array.paa_reqs_array is) sc.nearest;
  }

-- The loop ends, in no more turns than there are lists to visit.
pub sweep_ends :
    (limit size n i count : ℕ) (s : Scan)
    → s.at_array.paa_size ≡ size
    → i < size
    → n ≤ size
    → InOrder s.at_array (visits size n i)
    → count ≡ sum_at (lengths s.at_array) (visits size n i)
    → (s' : Scan) × (scan_loop limit n i count s ≡ some s') × Swept limit (visits size n i) s s'
unfolding scan_loop
sweep_ends limit size zero i zero s z il nl h e = (s, refl, empty-Swept limit [] s h refl)
sweep_ends limit size zero i (suc count) s z il nl h e = absurd (omega arith)
sweep_ends limit size (suc n) i zero s z il nl h e =
    (s, refl, empty-Swept limit (visits size (suc n) i) s h (sym e))
sweep_ends limit size (suc n) i (suc count) s z il nl h e =
    let rest : List ℕ = visits size n (next_index size i) in
    let here : s.at_array.paa_reqs_count i ≡ lengths s.at_array i = h.counts i (inl refl) in
    let (s1, scanned, sc) =
      scan_list-Scanned limit i (s.at_array.paa_reqs_array i) s (h.sorted i (inl refl)) refl here
        (omega (arith, h.enough)) h.small in
    let (new, _) = visits-AllDistinct size (suc n) i il nl in
    let count_left : sub32 (suc count) (s.at_array.paa_reqs_count i)
        ≡ sum_at (lengths s1.at_array) rest =
      omega (arith, e, here, h.enough, h.small, same_sum limit i rest s s1 h new sc) in
    let (s', done, swept) =
      sweep_ends limit size n (next_index size i) (sub32 (suc count) (s.at_array.paa_reqs_count i))
        s1 (sc.size_kept ∙ z) (next_within size i il) (omega arith)
        (rest-InOrder limit i rest s s1 h new sc) count_left in
    (
      s',
      ap
            (λ (r : Option Scan). r >>= λ t.
              scan_loop limit n (next_index s.at_array.paa_size i)
                (sub32 (suc count) (s.at_array.paa_reqs_count i)) t)
            scanned
          ∙ ap
              (λ (t : ℕ).
                scan_loop limit n (next_index t i) (sub32 (suc count) (s.at_array.paa_reqs_count i))
                  s1)
              z
          ∙ done,
      scan-Swept limit i rest s s1 h new sc s' swept,
    )
