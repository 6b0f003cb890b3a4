-- ===== src/Service/Timed/Place.antt =====
-- The search of ptlrpc_at_add_timed in service.c: a request's place in a list, from the end.
use lustre_tools.Base.{
  ℕ, zero, suc, ◌+◌, ◌≤◌, ◌<◌, ◌≡◌, ◌≢◌, refl, inl, inr, List, [], ◌∷◌, length, leb, ◌==◌,
  Bool-cases, arith,
}
use lustre_tools.Service.Timed.{TimedRequest, rev_onto, search_back}
use lustre_tools.Service.Timed.Lists.{AllFrom, AllFrom-mono, Linked, IsSorted}
use lustre_tools.Service.Timed.Visits.{sum_to}

back_in_place : (i : ℕ) (xs zs : List TimedRequest) → IsSorted i (rev_onto xs zs) → IsSorted i zs
back_in_place i [] zs h = h
back_in_place i (x ∷ xs) zs h = let (e, a, s) = back_in_place i xs (x ∷ zs) h in s

-- The first of the front is no later than the back.
abbrev Below : List TimedRequest → List TimedRequest → Type 0
Below [] zs = Unit {0}
Below (x ∷ xs) zs = AllFrom x.rq_deadline zs

new_back :
    (i : ℕ) (xs zs zs' : List TimedRequest)
    → IsSorted i (rev_onto xs zs)
    → IsSorted i zs'
    → Below xs zs'
    → IsSorted i (rev_onto xs zs')
new_back i [] zs zs' h k b = k
new_back i (x ∷ xs) zs zs' h k b =
    let (e, a, s) = back_in_place i xs (x ∷ zs) h in
    new_back i xs (x ∷ zs) (x ∷ zs') h (e, b, k) (below xs h)
  where
    below : (xs : List TimedRequest) → IsSorted i (rev_onto xs (x ∷ zs)) → Below xs (x ∷ zs')
    below [] h = tt
    below (y ∷ ys) h =
        let (e, a, s) = back_in_place i ys (y ∷ x ∷ zs) h in
        let (le, _) = a in (le, AllFrom-mono y.rq_deadline x.rq_deadline zs' le b)

pub search_back-IsSorted :
    (i : ℕ) (req : TimedRequest) (before passed : List TimedRequest)
    → Linked i req
    → IsSorted i (rev_onto before passed)
    → AllFrom req.rq_deadline passed
    → IsSorted i (search_back req before passed)
unfolding search_back
search_back-IsSorted i req [] passed e h a = (e, a, h)
search_back-IsSorted i req (rq ∷ before) passed e h a =
    elim (Bool-cases (leb rq.rq_deadline req.rq_deadline)) [
      | inl t ↦ rw t (
          new_back i (rq ∷ before) passed (req ∷ passed) h
            (e, a, back_in_place i (rq ∷ before) passed h)
            (ground arith, AllFrom-mono rq.rq_deadline req.rq_deadline passed (ground arith) a))
      | inr t ↦ rw t (search_back-IsSorted i req before (rq ∷ passed) e h (ground arith, a))
    ]

pub length-rev_onto : (xs ys : List TimedRequest) → length (rev_onto xs ys) ≡ length xs + length ys
length-rev_onto [] ys = omega arith
length-rev_onto (x ∷ xs) ys = omega (arith, length-rev_onto xs (x ∷ ys))

pub length-search_back :
    (req : TimedRequest) (before passed : List TimedRequest)
    → length (search_back req before passed) ≡ suc (length before + length passed)
unfolding search_back
length-search_back req [] passed = omega arith
length-search_back req (rq ∷ before) passed =
    elim (Bool-cases (leb rq.rq_deadline req.rq_deadline)) [
      | inl t ↦ rw t (omega (arith, length-rev_onto before (rq ∷ req ∷ passed)))
      | inr t ↦ rw t (omega (arith, length-search_back req before (rq ∷ passed)))
    ]

pub turned_back : (xs ys : List TimedRequest) → rev_onto (rev_onto xs ys) [] ≡ rev_onto ys xs
turned_back [] ys = refl
turned_back (x ∷ xs) ys = turned_back xs (x ∷ ys)

-- Where a request stands: the front is read from its place.
pub record Placed (req : TimedRequest) (old new : List TimedRequest) : Type 0 where
  pub front : List TimedRequest
  pub back : List TimedRequest
  pub was : old ≡ rev_onto front back
  pub now : new ≡ rev_onto front (req ∷ back)

pub search_back-Placed :
    (req : TimedRequest) (before passed old : List TimedRequest)
    → old ≡ rev_onto before passed
    → Placed req old (search_back req before passed)
unfolding search_back
search_back-Placed req [] passed old e = record { front = []; back = passed; was = e; now = refl }
search_back-Placed req (rq ∷ before) passed old e =
    elim (Bool-cases (leb rq.rq_deadline req.rq_deadline)) [
      | inl t ↦ rw t (record { front = rq ∷ before; back = passed; was = e; now = refl })
      | inr t ↦ rw t (search_back-Placed req before (rq ∷ passed) old e)
    ]

pub sum_to_bump :
    (f g : ℕ → ℕ) (i n : ℕ)
    → i < n
    → g i ≡ suc (f i)
    → ((j : ℕ) → i ≢ j → g j ≡ f j)
    → sum_to g n ≡ suc (sum_to f n)
sum_to_bump f g i zero h e o = absurd (omega arith)
sum_to_bump f g i (suc n) h e o = elim (Bool-cases (n == i)) [
  | inl t ↦
      let at_i : n ≡ i = ground arith in
      rw at_i (omega (arith, e, same_below f g i i o (omega arith)))
  | inr t ↦ omega (arith, o n (ground arith), sum_to_bump f g i n (ground arith) e o)
]
  where
    same_below :
        (f g : ℕ → ℕ) (i n : ℕ) → ((j : ℕ) → i ≢ j → g j ≡ f j) → n ≤ i → sum_to g n ≡ sum_to f n
    same_below f g i zero o h = refl
    same_below f g i (suc n) o h =
        omega (arith, o n (λ e. absurd (omega arith)), same_below f g i n o (omega arith))

pub one_of_sum : (f : ℕ → ℕ) (i n : ℕ) → i < n → f i ≤ sum_to f n
one_of_sum f i zero h = absurd (omega arith)
one_of_sum f i (suc n) h = elim (Bool-cases (n == i)) [
  | inl t ↦ let at_i : n ≡ i = ground arith in rw at_i (omega arith)
  | inr t ↦ omega (arith, one_of_sum f i n (ground arith))
]
