-- ===== src/Nrs/Sscdt/Drain.antt =====
-- The order in which the policy hands out its requests.
use mathlib.Core.List.{Permᴰ}
use mathlib.Core.List.Permᴰ
use lustre_tools.Base.{
  some_inj, sym, true, ◌<◌, ℕ, zero, suc, ◌≤◌, ◌≡◌, refl, ap, ◌∙◌, false, List, [], ◌∷◌, ◌++◌,
  Option, none, some, length, inl, inr, Option-cases, arith, success,
}
use mathlib.Core.Path.{subst}
use lustre_tools.Nrs.Sscdt.Order.{Precedes, sscdt_req_compare-Precedes}
use lustre_tools.Nrs.Sscdt.{
  Request, sscdt_req_compare, Binheap, Policy, nrs_sscdt_req_get, nrs_sscdt_req_add, drain, add_all,
}

-- No request of the list is above `r`.
abbrev pub NoneAbove : ℕ → Request → List Request → Type 0
NoneAbove interval r [] = Unit
NoneAbove interval r (s ∷ rest) =
    (sscdt_req_compare interval s r ≡ some false) × NoneAbove interval r rest

-- No request is above one that comes before it.
abbrev pub Ordered : ℕ → List Request → Type 0
Ordered interval [] = Unit
Ordered interval (r ∷ rest) = NoneAbove interval r rest × Ordered interval rest

-- What the policy relies on of a heap whose comparison is `sscdt_req_compare` with a fixed interval:
-- the heap holds requests; the root is one of them that no other is above; the removal of the root
-- takes it out, and an insertion that succeeds puts the request in.
pub record IsBinheap {H : Type 0} (heap : Binheap H) (interval : ℕ) : Type 1 where
  pub IsHeap : H → Type 0
  pub contents : H → List Request
  pub root_none : (h : H) → IsHeap h → heap.root h ≡ none → contents h ≡ []
  pub root_some :
      (h : H) (r : Request)
      → IsHeap h
      → heap.root h ≡ some r
      → Permᴰ (contents h) (r ∷ contents (heap.remove h r))
        × NoneAbove interval r (contents (heap.remove h r))
        × IsHeap (heap.remove h r)
  pub insert_ok :
      (h : H) (r : Request)
      → IsHeap h
      → (heap.insert h r).0 ≡ success
      → Permᴰ (contents (heap.insert h r).1) (r ∷ contents h) × IsHeap (heap.insert h r).1

-- Of two requests the later one does not precede the other, by window, address and process.
abbrev pub NonePrecede : ℕ → Request → List Request → Type 0
NonePrecede interval r [] = Unit
NonePrecede interval r (s ∷ rest) = (¬ (Precedes interval s r)) × NonePrecede interval r rest

abbrev pub InOrder : ℕ → List Request → Type 0
InOrder interval [] = Unit
InOrder interval (r ∷ rest) = NonePrecede interval r rest × InOrder interval rest

not_before :
    (interval : ℕ) (r s : Request)
    → 0 < interval
    → sscdt_req_compare interval s r ≡ some false
    → ¬ (Precedes interval s r)
not_before interval r s k_pos e p =
    let (b, answer, means) = sscdt_req_compare-Precedes interval s r k_pos in
    let top : b ≡ true = means.1 p in ground (arith, some_inj (sym e ∙ answer), top)

NoneAbove-NonePrecede :
    (interval : ℕ) (r : Request) (rs : List Request)
    → 0 < interval
    → NoneAbove interval r rs
    → NonePrecede interval r rs
NoneAbove-NonePrecede interval r [] k h = tt
NoneAbove-NonePrecede interval r (s ∷ rs) k h =
    (not_before interval r s k h.0, NoneAbove-NonePrecede interval r rs k h.1)

Ordered-InOrder :
    (interval : ℕ) (rs : List Request) → 0 < interval → Ordered interval rs → InOrder interval rs
Ordered-InOrder interval [] k h = tt
Ordered-InOrder interval (r ∷ rs) k h =
    (NoneAbove-NonePrecede interval r rs k h.0, Ordered-InOrder interval rs k h.1)

pub NoneAbove-perm :
    (interval : ℕ) (r : Request) {xs ys : List Request}
    → Permᴰ xs ys
    → NoneAbove interval r xs
    → NoneAbove interval r ys
NoneAbove-perm interval r Permᴰ.nil h = h
NoneAbove-perm interval r (Permᴰ.cons e d) h = (
  subst (λ s. sscdt_req_compare interval s r ≡ some false) e h.0,
  NoneAbove-perm interval r d h.1,
)
NoneAbove-perm interval r (Permᴰ.swap e f) h = (
  subst (λ s. sscdt_req_compare interval s r ≡ some false) f h.1.0,
  (subst (λ s. sscdt_req_compare interval s r ≡ some false) e h.0, h.1.1),
)
NoneAbove-perm interval r (Permᴰ.trans d d') h =
    NoneAbove-perm interval r d' (NoneAbove-perm interval r d h)

length-perm : {xs ys : List Request} → Permᴰ xs ys → length xs ≡ length ys
length-perm Permᴰ.nil = refl
length-perm (Permᴰ.cons e d) = ap suc (length-perm d)
length-perm (Permᴰ.swap e f) = refl
length-perm (Permᴰ.trans d d') = length-perm d ∙ length-perm d'

module _ {H : Type 0} (heap : Binheap H) where
  drain-empty : (fuel : ℕ) (p : Policy H) → heap.root p.st_binheap ≡ none → drain heap fuel p ≡ []
  unfolding drain nrs_sscdt_req_get
  drain-empty zero p empty = refl
  drain-empty (suc fuel) p empty = rw (drain, nrs_sscdt_req_get, empty) refl

  get-next :
      (p : Policy H) (r : Request)
      → heap.root p.st_binheap ≡ some r
      → nrs_sscdt_req_get heap p false
        ≡ (some r, record p { st_binheap = heap.remove p.st_binheap r })
  unfolding nrs_sscdt_req_get
  get-next p r top = rw (nrs_sscdt_req_get, top) refl

  drain-next :
      (fuel : ℕ) (p : Policy H) (r : Request)
      → heap.root p.st_binheap ≡ some r
      → drain heap (suc fuel) p
        ≡ r ∷ drain heap fuel (record p { st_binheap = heap.remove p.st_binheap r })
  unfolding drain
  drain-next fuel p r top =
      rw (drain, get-next p r top)
        (ap (λ (x : Option Request × Policy H). r ∷ drain heap fuel x.1) (get-next p r top))

  -- Taking the requests one after the other, with as many steps as there are requests, gives each
  -- of them once, in an order in which none is above one before it: by window, address and process.
  pub drain-Ordered :
      (fuel : ℕ) (p : Policy H) (laws : IsBinheap heap p.interval)
      → laws.IsHeap p.st_binheap
      → length (laws.contents p.st_binheap) ≤ fuel
      → Permᴰ (laws.contents p.st_binheap) (drain heap fuel p)
        × Ordered p.interval (drain heap fuel p)
  unfolding drain
  drain-Ordered zero p laws h le = elim (Option-cases (heap.root p.st_binheap)) [
    | inl empty ↦ (rw (laws.root_none p.st_binheap h empty) Permᴰ.nil, tt)
    | inr (r, top) ↦ absurd (omega (arith, length-perm (laws.root_some p.st_binheap r h top).0))
  ]
  drain-Ordered (suc fuel) p laws h le = elim (Option-cases (heap.root p.st_binheap)) [
    | inl empty ↦
        rw (drain-empty (suc fuel) p empty, laws.root_none p.st_binheap h empty) (Permᴰ.nil, tt)
    | inr (r, top) ↦
        let (perm, above, rest_heap) = laws.root_some p.st_binheap r h top in
        let (rest_perm, rest_ordered) =
          drain-Ordered fuel (record p { st_binheap = heap.remove p.st_binheap r }) laws rest_heap
            (omega (arith, length-perm perm)) in
        rw (drain-next fuel p r top) (
          Permᴰ.trans perm (Permᴰ.cons refl rest_perm),
          (NoneAbove-perm p.interval r rest_perm above, rest_ordered),
        )
  ]

  -- The policy after the additions: the heap holds the requests, and only the heap and the sequence
  -- number have changed.
  abbrev Added : (p : Policy H) → IsBinheap heap p.interval → List Request → Type 0
  Added p laws rs =
      (h : H) × (n : ℕ) × (add_all heap p rs ≡ record p { st_binheap = h; st_sequence = n })
      × laws.IsHeap h
      × Permᴰ (laws.contents h) (rs ++ laws.contents p.st_binheap)

  add_all-Added :
      (rs : List Request) (p : Policy H) (laws : IsBinheap heap p.interval)
      → laws.IsHeap p.st_binheap
      → ((h : H) (r : Request) → (heap.insert h r).0 ≡ success)
      → Added p laws rs
  unfolding add_all nrs_sscdt_req_add
  add_all-Added [] p laws v room = (p.st_binheap, p.st_sequence, refl, v, Permᴰ.refl _)
  add_all-Added (r ∷ rs) p laws v room =
      let (perm, v') = laws.insert_ok p.st_binheap r v (room p.st_binheap r) in
      let (h, n, all, ok, rest) = add_all-Added rs (nrs_sscdt_req_add heap p r).1 laws v' room in
      (
        h,
        n,
        all,
        ok,
        Permᴰ.trans rest (
            Permᴰ.trans (Permᴰ.append_left rs perm)
              (Permᴰ.middle r rs (laws.contents p.st_binheap))),
      )

  -- A service that has added the requests `rs` to an empty policy, where every insertion succeeds and
  -- the interval is not 0, hands out each of them once, and none that is handed out later precedes an
  -- earlier one: has an earlier window, or in the same window a smaller address, or at the same
  -- address a smaller process.
  pub drain-add_all :
      (rs : List Request) (p : Policy H) (laws : IsBinheap heap p.interval)
      → laws.IsHeap p.st_binheap
      → laws.contents p.st_binheap ≡ []
      → ((h : H) (r : Request) → (heap.insert h r).0 ≡ success)
      → 0 < p.interval
      → Permᴰ rs (drain heap (length rs) (add_all heap p rs))
        × InOrder p.interval (drain heap (length rs) (add_all heap p rs))
  drain-add_all rs p laws v empty room some_time =
      let (h, n, all, ok, perm) = add_all-Added rs p laws v room in
      let held : Permᴰ (laws.contents h) rs =
        Permᴰ.trans (subst (λ xs. Permᴰ (laws.contents h) (rs ++ xs)) empty perm)
          (Permᴰ.append-nil rs) in
      let (taken, ordered) =
        drain-Ordered (length rs) (record p { st_binheap = h; st_sequence = n }) laws ok
          (omega (arith, length-perm held)) in
      rw all (Permᴰ.trans (Permᴰ.symm held) taken, Ordered-InOrder p.interval _ some_time ordered)
