-- ===== src/Service/Timed/Visits.antt =====
-- The order in which ptlrpc_at_check_timed of service.c goes through the lists: from one index to the
-- end, and on from the first.
use lustre_tools.Base.{
  ℕ, zero, suc, ◌+◌, ◌-◌, ◌≤◌, ◌<◌, ◌≡◌, refl, sym, ap, ◌⊎◌, inl, inr, List, [], ◌∷◌, leb, ◌==◌,
  if◌then◌else◌, Bool-cases, arith,
}

abbrev pub next_index : ℕ → ℕ → ℕ
next_index size i = if leb size (i + 1) then 0 else i + 1

abbrev pub visits : ℕ → ℕ → ℕ → List ℕ
visits size zero i = []
visits size (suc n) i = i ∷ visits size n (next_index size i)

abbrev pub IsIn : ℕ → List ℕ → Type 0
IsIn i [] = ⊥
IsIn i (j ∷ js) = (i ≡ j) ⊎ IsIn i js

abbrev pub AllDistinct : List ℕ → Type 0
AllDistinct [] = Unit {0}
AllDistinct (j ∷ js) = (IsIn j js → ⊥) × AllDistinct js

abbrev pub sum_at : (ℕ → ℕ) → List ℕ → ℕ
sum_at f [] = 0
sum_at f (j ∷ js) = f j + sum_at f js

abbrev pub sum_to : (ℕ → ℕ) → ℕ → ℕ
sum_to f zero = 0
sum_to f (suc n) = sum_to f n + f n

pub sum_at_cong :
    (f g : ℕ → ℕ) (js : List ℕ) → ((j : ℕ) → IsIn j js → f j ≡ g j) → sum_at f js ≡ sum_at g js
sum_at_cong f g [] h = refl
sum_at_cong f g (j ∷ js) h = rw (h j (inl refl), sum_at_cong f g js (λ k m. h k (inr m))) refl

next_cases :
    (size i : ℕ)
    → i < size
    → ((next_index size i ≡ suc i) × (suc i < size)) ⊎ ((next_index size i ≡ 0) × (suc i ≡ size))
next_cases size i h = elim (Bool-cases (leb size (i + 1))) [
  | inl t ↦ inr (rw t refl, ground arith)
  | inr t ↦ inl (rw t (omega arith), ground arith)
]

pub next_within : (size i : ℕ) → i < size → next_index size i < size
next_within size i h = ground arith

-- The places of the first n visits.
in_visits :
    (size n i j : ℕ)
    → i < size
    → n ≤ size
    → IsIn j (visits size n i)
    → ((i ≤ j) × (j < i + n) × (j < size)) ⊎ (j + size < i + n)
in_visits size zero i j h k m = elim m [ ]
in_visits size (suc n) i j h k (inl e) = inl (omega arith, omega arith, omega arith)
in_visits size (suc n) i j h k (inr m) = elim (next_cases size i h) [
  | inl (e, l) ↦ elim (in_visits size n (suc i) j l (omega arith) (rw (sym e) m)) [
    | inl (a, b, c) ↦ inl (omega arith, omega arith, omega arith)
    | inr a ↦ inr (omega arith)
  ]
  | inr (e, l) ↦ elim (in_visits size n 0 j (omega arith) (omega arith) (rw (sym e) m)) [
    | inl (a, b, c) ↦ inr (omega arith)
    | inr a ↦ absurd (omega arith)
  ]
]

pub visits_within : (size n i j : ℕ) → i < size → n ≤ size → IsIn j (visits size n i) → j < size
visits_within size n i j h k m = elim (in_visits size n i j h k m) [
  | inl (a, b, c) ↦ c
  | inr a ↦ omega arith
]

pub visits-AllDistinct : (size n i : ℕ) → i < size → n ≤ size → AllDistinct (visits size n i)
visits-AllDistinct size zero i h k = tt
visits-AllDistinct size (suc n) i h k = elim (next_cases size i h) [
  | inl (e, l) ↦ rw e (
    (λ m. elim (in_visits size n (suc i) i l (omega arith) m) [
      | inl (a, b, c) ↦ omega arith
      | inr a ↦ omega arith
    ]),
    visits-AllDistinct size n (suc i) l (omega arith),
  )
  | inr (e, l) ↦ rw e (
    (λ m. elim (in_visits size n 0 i (omega arith) (omega arith) m) [
      | inl (a, b, c) ↦ omega arith
      | inr a ↦ omega arith
    ]),
    visits-AllDistinct size n 0 (omega arith) (omega arith),
  )
]

-- Every place is visited in as many turns as there are lists.
visited :
    (size n i j : ℕ)
    → i < size
    → n ≤ size
    → ((i ≤ j) × (j < i + n) × (j < size)) ⊎ (j + size < i + n)
    → IsIn j (visits size n i)
visited size zero i j h k (inl (a, b, c)) = absurd (omega arith)
visited size zero i j h k (inr a) = absurd (omega arith)
visited size (suc n) i j h k p = elim (Bool-cases (j == i)) [
  | inl t ↦ inl (ground arith)
  | inr t ↦ inr (elim (next_cases size i h) [
    | inl (e, l) ↦ rw e (visited size n (suc i) j l (omega arith) (further p (ground arith)))
    | inr (e, l) ↦
        rw e (visited size n 0 j (omega arith) (omega arith) (inl (wrapped p (ground arith) l)))
  ])
]
  where
    further :
        ((i ≤ j) × (j < i + suc n) × (j < size)) ⊎ (j + size < i + suc n)
        → (j ≡ i → ⊥)
        → ((suc i ≤ j) × (j < suc i + n) × (j < size)) ⊎ (j + size < suc i + n)
    further (inl (a, b, c)) d = inl (ground arith, omega arith, c)
    further (inr a) d = inr (omega arith)

    wrapped :
        ((i ≤ j) × (j < i + suc n) × (j < size)) ⊎ (j + size < i + suc n)
        → (j ≡ i → ⊥)
        → suc i ≡ size
        → (0 ≤ j) × (j < 0 + n) × (j < size)
    wrapped (inl (a, b, c)) d l = absurd (ground arith)
    wrapped (inr a) d l = (omega arith, omega arith, omega arith)

pub all_visited : (size i j : ℕ) → i < size → j < size → IsIn j (visits size size i)
all_visited size i j h k = visited size size i j h (omega arith) (elim (Bool-cases (leb i j)) [
  | inl t ↦ inl (ground arith, ground arith, k)
  | inr t ↦ inr (ground arith)
])

same_sum : (f : ℕ → ℕ) {m n : ℕ} → m ≡ n → sum_to f m ≡ sum_to f n
same_sum f e = ap (λ (t : ℕ). sum_to f t) e

-- The sum over the visits; when they go on from the first list, it counts from there again.
sum_visits :
    (f : ℕ → ℕ) (size n i : ℕ)
    → i < size
    → n ≤ size
    → ((i + n ≤ size) × (sum_at f (visits size n i) + sum_to f i ≡ sum_to f (i + n)))
      ⊎ ((size ≤ i + n)
          × (sum_at f (visits size n i) + sum_to f i ≡ sum_to f size + sum_to f (i + n - size)))
sum_visits f size zero i h k = inl (omega arith, omega (arith, same_sum f (right i)))
  where
    right : (i : ℕ) → i ≡ i + 0
    right i = omega arith
sum_visits f size (suc n) i h k = elim (next_cases size i h) [
  | inl (e, l) ↦ rw e (elim (sum_visits f size n (suc i) l (omega arith)) [
    | inl (a, b) ↦ inl (omega arith, omega (arith, b, same_sum f (shift n i)))
    | inr (a, b) ↦ inr (omega arith, omega (arith, b, same_sum f (shift_less size n i)))
  ])
  | inr (e, l) ↦ rw e (elim (sum_visits f size n 0 (omega arith) (omega arith)) [
    | inl (a, b) ↦ inr (omega arith, omega (arith, b, same_sum f l, same_sum f (wrap size n i l)))
    | inr (a, b) ↦ absurd (omega arith)
  ])
]
  where
    shift : (n i : ℕ) → suc i + n ≡ i + suc n
    shift n i = omega arith

    shift_less : (size n i : ℕ) → suc i + n - size ≡ i + suc n - size
    shift_less size n i = omega arith

    wrap : (size n i : ℕ) → suc i ≡ size → 0 + n ≡ i + suc n - size
    wrap size n i l = omega arith

-- In as many turns as there are lists, each is counted once.
pub sum_all : (f : ℕ → ℕ) (size i : ℕ) → i < size → sum_at f (visits size size i) ≡ sum_to f size
sum_all f size i h = elim (sum_visits f size size i h (omega arith)) [
  | inl (a, b) ↦ omega (arith, b, same_sum f (none_before size i a), same_sum f (first size i a))
  | inr (a, b) ↦ omega (arith, b, same_sum f (back size i))
]
  where
    none_before : (size i : ℕ) → i + size ≤ size → i + size ≡ size
    none_before size i a = omega arith

    first : (size i : ℕ) → i + size ≤ size → i ≡ 0
    first size i a = omega arith

    back : (size i : ℕ) → i + size - size ≡ i
    back size i = omega arith
