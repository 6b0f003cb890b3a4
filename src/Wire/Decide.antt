-- ===== src/Wire/Decide.antt =====
-- Whether members of a structure overlap, and whether a routine names one, by computation.
use lustre_tools.Base.{
  ◌+◌, ◌≡◌, ap₂, inl, inr, Bool, true, false, List, [], ◌∷◌, ◌&&◌, ◌||◌, ◌==◌, leb, Bool-cases,
  arith,
}
use lustre_tools.Wire.{Field}
use lustre_tools.Wire.Fields.{Apart, AllApart, Disjoint, IsOneOf}

-- Membership and disjointness, decided.
abbrev pub same : Field → Field → Bool
same (o, w) (o', w') = (o == o') && (w == w')

abbrev pub one_of : Field → List Field → Bool
one_of f [] = false
one_of f (g ∷ gs) = same f g || one_of f gs

abbrev pub apart_b : Field → Field → Bool
apart_b f g = leb (f.0 + f.1) g.0 || leb (g.0 + g.1) f.0

abbrev pub all_apart : Field → List Field → Bool
all_apart f [] = true
all_apart f (g ∷ gs) = apart_b f g && all_apart f gs

abbrev pub disjoint : List Field → Bool
disjoint [] = true
disjoint (f ∷ fs) = all_apart f fs && disjoint fs

same_eq : (f g : Field) → same f g ≡ true → f ≡ g
same_eq (o, w) (o', w') h = ap₂ (λ x y. (x, y)) (ground arith) (ground arith)

pub one_of-IsOneOf : (f : Field) (fs : List Field) → one_of f fs ≡ true → IsOneOf f fs
one_of-IsOneOf f [] h = absurd (ground arith)
one_of-IsOneOf f (g ∷ gs) h = elim (Bool-cases (same f g)) [
  | inl t ↦ inl (same_eq f g t)
  | inr t ↦ inr (one_of-IsOneOf f gs (ground arith))
]

apart_b-Apart : (f g : Field) → apart_b f g ≡ true → Apart f g
apart_b-Apart f g h = elim (Bool-cases (leb (f.0 + f.1) g.0)) [
  | inl t ↦ inl (ground arith)
  | inr t ↦ inr (ground arith)
]

pub all_apart-AllApart : (f : Field) (fs : List Field) → all_apart f fs ≡ true → AllApart f fs
all_apart-AllApart f [] h = tt
all_apart-AllApart f (g ∷ gs) h =
    (apart_b-Apart f g (ground arith), all_apart-AllApart f gs (ground arith))

pub disjoint-Disjoint : (fs : List Field) → disjoint fs ≡ true → Disjoint fs
disjoint-Disjoint [] h = tt
disjoint-Disjoint (f ∷ fs) h =
    (all_apart-AllApart f fs (ground arith), disjoint-Disjoint fs (ground arith))

-- Each of the first members is apart from all of the second.
abbrev pub apart_all : List Field → List Field → Bool
apart_all [] fs = true
apart_all (g ∷ gs) fs = all_apart g fs && apart_all gs fs

pub apart_all-AllApart :
    (f : Field) (gs fs : List Field) → apart_all gs fs ≡ true → one_of f gs ≡ true → AllApart f fs
apart_all-AllApart f [] fs h m = absurd (ground arith)
apart_all-AllApart f (g ∷ gs) fs h m = elim (Bool-cases (same f g)) [
  | inl t ↦ rw (same_eq f g t) (all_apart-AllApart g fs (ground arith))
  | inr t ↦ apart_all-AllApart f gs fs (ground arith) (ground arith)
]
