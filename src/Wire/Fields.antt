-- ===== src/Wire/Fields.antt =====
-- What a routine does that swabs members which do not overlap.
use lustre_tools.Base.{
  ℕ, zero, suc, ◌+◌, ◌-◌, ◌≤◌, ◌<◌, ◌≡◌, refl, sym, ap, ◌∙◌, ◌⊎◌, inl, inr, List, [], ◌∷◌, ltb,
  Bool-cases, arith,
}
use lustre_tools.Wire.{Memory, load_le, load_be, inside, swab_at, Field, swabs}

-- Two ranges of bytes without a byte in common.
abbrev pub Apart : Field → Field → Type 0
Apart f g = (f.0 + f.1 ≤ g.0) ⊎ (g.0 + g.1 ≤ f.0)

abbrev pub AllApart : Field → List Field → Type 0
AllApart f [] = Unit {0}
AllApart f (g ∷ gs) = Apart f g × AllApart f gs

abbrev pub Disjoint : List Field → Type 0
Disjoint [] = Unit {0}
Disjoint (f ∷ fs) = AllApart f fs × Disjoint fs

abbrev pub IsOneOf : Field → List Field → Type 0
IsOneOf f [] = ⊥
IsOneOf f (g ∷ gs) = (f ≡ g) ⊎ IsOneOf f gs

pub swab_at-inside :
    (p w i : ℕ) (mem : Memory) → i < w → swab_at p w mem (p + i) ≡ mem (p + (w - 1 - i))
unfolding swab_at
swab_at-inside p w i mem h = ground (arith, ap mem (mirror p w i h))
  where
    mirror : (p w i : ℕ) → i < w → p + p + w - 1 - (p + i) ≡ p + (w - 1 - i)
    mirror p w i h = omega arith

pub swab_at-outside : (p w a : ℕ) (mem : Memory) → (a < p) ⊎ (p + w ≤ a) → swab_at p w mem a ≡ mem a
unfolding swab_at
swab_at-outside p w a mem h = ground arith

pub load_le_cong :
    (f g : Memory) (p w : ℕ)
    → ((i : ℕ) → i < w → f (p + i) ≡ g (p + i))
    → load_le f p w ≡ load_le g p w
unfolding load_le
load_le_cong f g p zero h = refl
load_le_cong f g p (suc w) h =
    omega
      (arith, elem_zero, load_le_cong f g (p + 1) w (λ i k. grind (arith, h (suc i) (omega arith))))
  where
    elem_zero : f p ≡ g p
    elem_zero = grind (arith, h 0 (omega arith))

load_reversed :
    (f g : Memory) (q p w : ℕ)
    → ((i : ℕ) → i < w → f (q + i) ≡ g (p + (w - 1 - i)))
    → load_le f q w ≡ load_be g p w
unfolding load_le load_be
load_reversed f g q p zero h = refl
load_reversed f g q p (suc w) h = omega (
  arith,
  elem_zero,
  load_reversed f g (q + 1) p w (λ i k. grind (arith, h (suc i) (omega arith))),
)
  where
    elem_zero : f q ≡ g (p + w)
    elem_zero = grind (arith, h 0 (omega arith))

-- A word that no statement overlaps keeps its bytes.
pub swabs-elsewhere :
    (f : Field) (fs : List Field) (b i : ℕ) (mem : Memory)
    → AllApart f fs
    → i < f.1
    → swabs fs b mem (b + f.0 + i) ≡ mem (b + f.0 + i)
unfolding swabs
swabs-elsewhere f [] b i mem h k = refl
swabs-elsewhere f (g ∷ gs) b i mem (h, hs) k =
    swabs-elsewhere f gs b i (swab_at (b + g.0) g.1 mem) hs k
    ∙ swab_at-outside (b + g.0) g.1 (b + f.0 + i) mem (side h)
  where
    side : Apart f g → (b + f.0 + i < b + g.0) ⊎ (b + g.0 + g.1 ≤ b + f.0 + i)
    side (inl t) = inl (omega arith)
    side (inr t) = inr (omega arith)

no_overlap : (g f : Field) (fs : List Field) → AllApart g fs → IsOneOf f fs → Apart f g
no_overlap g f [] h t = elim t [ ]
no_overlap g f (x ∷ xs) (h, hs) (inl t) = rw t (swap h)
  where
    swap : Apart g x → Apart x g
    swap (inl k) = inr k
    swap (inr k) = inl k
no_overlap g f (x ∷ xs) (h, hs) (inr t) = no_overlap g f xs hs t

-- The bytes of a member that some statement names end up reversed.
pub swabs-bytes :
    (f : Field) (fs : List Field) (b i : ℕ) (mem : Memory)
    → Disjoint fs
    → IsOneOf f fs
    → i < f.1
    → swabs fs b mem (b + f.0 + i) ≡ mem (b + f.0 + (f.1 - 1 - i))
unfolding swabs
swabs-bytes f [] b i mem d t k = elim t [ ]
swabs-bytes f (g ∷ gs) b i mem (d, ds) (inl e) k = rw e (first (rw (sym e) k))
  where
    first :
        i < g.1
        → swabs gs b (swab_at (b + g.0) g.1 mem) (b + g.0 + i) ≡ mem (b + g.0 + (g.1 - 1 - i))
    first k' =
        swabs-elsewhere g gs b i (swab_at (b + g.0) g.1 mem) d k'
        ∙ swab_at-inside (b + g.0) g.1 i mem k'
swabs-bytes f (g ∷ gs) b i mem (d, ds) (inr t) k =
    swabs-bytes f gs b i (swab_at (b + g.0) g.1 mem) ds t k
    ∙ swab_at-outside (b + g.0) g.1 (b + f.0 + (f.1 - 1 - i)) mem (side (no_overlap g f gs d t))
  where
    side :
        Apart f g → (b + f.0 + (f.1 - 1 - i) < b + g.0) ⊎ (b + g.0 + g.1 ≤ b + f.0 + (f.1 - 1 - i))
    side (inl t) = inl (omega arith)
    side (inr t) = inr (omega arith)

-- A member that some statement names is then read as the number that the big-endian sender wrote.
pub swabs-read :
    (f : Field) (fs : List Field) (b : ℕ) (mem : Memory)
    → Disjoint fs
    → IsOneOf f fs
    → load_le (swabs fs b mem) (b + f.0) f.1 ≡ load_be mem (b + f.0) f.1
swabs-read f fs b mem d t =
    load_reversed (swabs fs b mem) mem (b + f.0) (b + f.0) f.1
      (λ i k. swabs-bytes f fs b i mem d t k)

-- Bytes before the structure stay.
pub swabs-below : (fs : List Field) (b a : ℕ) (mem : Memory) → a < b → swabs fs b mem a ≡ mem a
unfolding swabs
swabs-below [] b a mem h = refl
swabs-below (g ∷ gs) b a mem h =
    swabs-below gs b a (swab_at (b + g.0) g.1 mem) h
    ∙ swab_at-outside (b + g.0) g.1 a mem (inl (omega arith))

-- The byte at `x` of a structure stands in a member that some statement names, or in none.
covered :
    (x : ℕ) (fs : List Field)
    → AllApart (x, 1) fs ⊎ ((f : Field) × IsOneOf f fs × (f.0 ≤ x) × (x < f.0 + f.1))
covered x [] = inl tt
covered x (g ∷ gs) = elim (Bool-cases (inside g.0 g.1 x)) [
  | inl t ↦ inr (g, inl refl, ground arith, ground arith)
  | inr t ↦ elim (covered x gs) [
    | inl h ↦ inl (
      elim (Bool-cases (ltb x g.0)) [ inl u ↦ inl (ground arith) | inr u ↦ inr (ground arith) ],
      h,
    )
    | inr (f, m, lo, hi) ↦ inr (f, inr m, lo, hi)
  ]
]

-- Two runs of a routine whose statements name disjoint members give back every byte.
pub swabs-twice :
    (fs : List Field) (b a : ℕ) (mem : Memory) → Disjoint fs → swabs fs b (swabs fs b mem) a ≡ mem a
swabs-twice fs b a mem d = elim (Bool-cases (ltb a b)) [
  | inl t ↦
      swabs-below fs b a (swabs fs b mem) (ground arith) ∙ swabs-below fs b a mem (ground arith)
  | inr t ↦
      let at_b : b + (a - b) ≡ a = ground arith in
      rw (sym at_b) (byte_twice (a - b) (covered (a - b) fs))
]
  where
    inner :
        (x : ℕ) (f : Field)
        → IsOneOf f fs
        → f.0 ≤ x
        → x < f.0 + f.1
        → swabs fs b (swabs fs b mem) (b + f.0 + (x - f.0)) ≡ mem (b + f.0 + (x - f.0))
    inner x f m lo hi =
        swabs-bytes f fs b (x - f.0) (swabs fs b mem) d m (omega arith)
        ∙ swabs-bytes f fs b (f.1 - 1 - (x - f.0)) mem d m (omega arith)
        ∙ ap mem (omega arith)

    byte_twice :
        (x : ℕ)
        → AllApart (x, 1) fs ⊎ ((f : Field) × IsOneOf f fs × (f.0 ≤ x) × (x < f.0 + f.1))
        → swabs fs b (swabs fs b mem) (b + x) ≡ mem (b + x)
    byte_twice x (inl h) = grind (
      arith,
      swabs-elsewhere (x, 1) fs b 0 (swabs fs b mem) h (omega arith),
      swabs-elsewhere (x, 1) fs b 0 mem h (omega arith),
    )
    byte_twice x (inr (f, m, lo, hi)) =
        let at_x : b + f.0 + (x - f.0) ≡ b + x = omega arith in rw (sym at_x) (inner x f m lo hi)
