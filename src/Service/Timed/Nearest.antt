-- ===== src/Service/Timed/Nearest.antt =====
-- ptlrpc_at_check_timed of service.c: the deadline that it leaves is the nearest of all that wait.
use mathlib.Core.Path.{subst}
use lustre_tools.Base.{
  ℕ, ◌≤◌, ◌<◌, ◌≡◌, refl, ◌∙◌, Option, none, some, ◌⊎◌, inl, inr, List, [], ◌∷◌, ltb, Bool-cases,
  arith,
}
use lustre_tools.Service.Timed.{TimedRequest, earlier}
use lustre_tools.Service.Timed.Lists.{AllFrom, AllFrom-mono, IsSorted, later, head_deadline}
use lustre_tools.Service.Timed.Visits.{IsIn}
use lustre_tools.Service.Timed.Sweep.{all_nearest}

-- The list begins with a request for this time.
abbrev pub Begins : ℕ → List TimedRequest → Type 0
Begins d [] = ⊥
Begins d (rq ∷ rqs) = rq.rq_deadline ≡ d

-- No request waits; or all are for this time or later, and one is for this time.
abbrev pub IsNearest : Option ℕ → ℕ → (ℕ → List TimedRequest) → Type 0
IsNearest none size f = (i : ℕ) → i < size → f i ≡ []
IsNearest (some d) size f =
    ((i : ℕ) → i < size → AllFrom d (f i)) × ((i : ℕ) × (i < size) × Begins d (f i))

abbrev NoLater : ℕ → Option ℕ → Type 0
NoLater d none = Unit {0}
NoLater d (some e) = d ≤ e

-- The nearest of a first deadline and those of the lists of `is`.
abbrev Finds : (ℕ → List TimedRequest) → List ℕ → Option ℕ → Option ℕ → Type 0
Finds g is d none = (d ≡ none) × ((i : ℕ) → IsIn i is → g i ≡ [])
Finds g is d (some m) =
    NoLater m d
    × ((i : ℕ) → IsIn i is → AllFrom m (g i))
    × ((d ≡ some m) ⊎ ((i : ℕ) × IsIn i is × Begins m (g i)))

-- One more list.
empty_list :
    (g : ℕ → List TimedRequest) (i : ℕ) (is : List ℕ) (d r : Option ℕ)
    → g i ≡ []
    → Finds g is d r
    → Finds g (i ∷ is) d r
empty_list g i is d none e (start, rest) =
    (start, λ j m. elim m [ inl x ↦ rw x e | inr m' ↦ rest j m' ])
empty_list g i is d (some k) e (low, rest, from) = (
  low,
  (λ j m. elim m [ inl x ↦ rw (x, e) tt | inr m' ↦ rest j m' ]),
  elim from [ inl first ↦ inl first | inr (j, m, b) ↦ inr (j, inr m, b) ],
)

-- The first of a list and what came before.
earlier-NoLater : (m e : ℕ) (d : Option ℕ) → NoLater m (earlier d e) → (m ≤ e) × NoLater m d
earlier-NoLater m e none h = (h, tt)
earlier-NoLater m e (some k) h = elim (Bool-cases (ltb e k)) [
  | inl t ↦ let le : NoLater m (some e) = rw t at h in (le, ground arith)
  | inr t ↦ let le : NoLater m (some k) = rw t at h in (ground arith, le)
]

earlier-some : (m e : ℕ) (d : Option ℕ) → earlier d e ≡ some m → (d ≡ some m) ⊎ (e ≡ m)
earlier-some m e none h = inr (ground (arith, h))
earlier-some m e (some k) h = elim (Bool-cases (ltb e k)) [
  | inl t ↦ inr (ground (arith, h, t))
  | inr t ↦ inl (ground (arith, h, t))
]

earlier-none : (e : ℕ) (d : Option ℕ) → earlier d e ≡ none → ⊥
earlier-none e none h = ground (arith, h)
earlier-none e (some k) h = elim (Bool-cases (ltb e k)) [
  | inl t ↦ ground (arith, h, t)
  | inr t ↦ ground (arith, h, t)
]

more_list :
    (g : ℕ → List TimedRequest) (i : ℕ) (is : List ℕ) (d r : Option ℕ) (rq : TimedRequest)
    (rqs : List TimedRequest)
    → g i ≡ rq ∷ rqs
    → IsSorted i (rq ∷ rqs)
    → Finds g is (earlier d rq.rq_deadline) r
    → Finds g (i ∷ is) d r
more_list g i is d none rq rqs e s (start, rest) = absurd (earlier-none rq.rq_deadline d start)
more_list g i is d (some m) rq rqs e (x, a, s) (low, rest, from) =
    let (le, before) = earlier-NoLater m rq.rq_deadline d low in
    (
      before,
      (λ j k. elim k [
        | inl y ↦ rw (y, e) (le, AllFrom-mono m rq.rq_deadline rqs le a)
        | inr k' ↦ rest j k'
      ]),
      elim from [
        | inl first ↦ elim (earlier-some m rq.rq_deadline d first) [
          | inl old ↦ inl old
          | inr here ↦ inr (i, inl refl, rw e here)
        ]
        | inr (j, k, b) ↦ inr (j, inr k, b)
      ],
    )

List-split :
    (xs : List TimedRequest)
    → (xs ≡ []) ⊎ ((x : TimedRequest) × (rest : List TimedRequest) × (xs ≡ x ∷ rest))
List-split [] = inl refl
List-split (x ∷ xs) = inr (x, xs, refl)

one_list :
    (g : ℕ → List TimedRequest) (i : ℕ) (is : List ℕ) (d r : Option ℕ)
    → IsSorted i (g i)
    → Finds g is (head_deadline d (g i)) r
    → Finds g (i ∷ is) d r
one_list g i is d r s h = elim (List-split (g i)) [
  | inl e ↦ empty_list g i is d r e (subst (λ xs. Finds g is (head_deadline d xs) r) e h)
  | inr (rq, rqs, e) ↦
      more_list g i is d r rq rqs e (subst (IsSorted i) e s)
        (subst (λ xs. Finds g is (head_deadline d xs) r) e h)
]

all_nearest-Finds :
    (limit : ℕ) (f : ℕ → List TimedRequest) (is : List ℕ) (d : Option ℕ)
    → ((i : ℕ) → IsIn i is → IsSorted i (later limit (f i)))
    → Finds (λ i. later limit (f i)) is d (all_nearest limit f is d)
all_nearest-Finds limit f [] none h = (refl, λ i m. elim m [ ])
all_nearest-Finds limit f [] (some m) h = (omega arith, (λ i k. elim k [ ]), inl refl)
all_nearest-Finds limit f (i ∷ is) d h =
    one_list (λ j. later limit (f j)) i is d (all_nearest limit f (i ∷ is) d) (h i (inl refl))
      (all_nearest-Finds limit f is (head_deadline d (later limit (f i))) (λ j m. h j (inr m)))

-- With no first deadline, over lists among which is every one.
IsNearest-of :
    (f : ℕ → List TimedRequest) (size : ℕ) (is : List ℕ) (r : Option ℕ)
    → ((i : ℕ) → i < size → IsIn i is)
    → ((i : ℕ) → IsIn i is → i < size)
    → Finds f is none r
    → IsNearest r size f
IsNearest-of f size is none all within (start, rest) = λ i k. rest i (all i k)
IsNearest-of f size is (some m) all within (low, rest, from) = (
  (λ i k. rest i (all i k)),
  elim from [ inl first ↦ absurd (ground (arith, first)) | inr (i, k, b) ↦ (i, within i k, b) ],
)

pub all_nearest-IsNearest :
    (limit size : ℕ) (f : ℕ → List TimedRequest) (is : List ℕ)
    → ((i : ℕ) → i < size → IsIn i is)
    → ((i : ℕ) → IsIn i is → i < size)
    → ((i : ℕ) → i < size → IsSorted i (later limit (f i)))
    → IsNearest (all_nearest limit f is none) size (λ i. later limit (f i))
all_nearest-IsNearest limit size f is all within sorted =
    IsNearest-of (λ i. later limit (f i)) size is (all_nearest limit f is none) all within
      (all_nearest-Finds limit f is none (λ i m. sorted i (within i m)))

pub IsNearest-same :
    (r : Option ℕ) (size : ℕ) (f g : ℕ → List TimedRequest)
    → ((i : ℕ) → i < size → g i ≡ f i)
    → IsNearest r size f
    → IsNearest r size g
IsNearest-same none size f g e h = λ i k. e i k ∙ h i k
IsNearest-same (some m) size f g e (from, (i, k, b)) =
    ((λ j l. rw (e j l) (from j l)), (i, k, rw (e i k) b))
