-- ===== src/Nrs/Tbf/Jobid/Tests.antt =====
-- A tokenizer, and instances of the theorems about the lists of jobs.
use lustre_tools.Base.{
  ℕ, ◌<◌, ◌≡◌, ◌↔◌, refl, Bool, true, false, List, [], ◌∷◌, ◌++◌, Option, none, some, arith,
  success, ◌==◌, if◌then◌else◌, length, inl, inr, Bool-cases,
}
use lustre_tools.Nrs.Tbf.Jobid.{Gettok, space, nrs_tbf_jobid_list_match, nrs_tbf_jobid_list_parse}
use lustre_tools.Nrs.Tbf.Jobid.Parse.{
  has_white, IsWord, IsGettok, text_of, StandsIn, nrs_tbf_jobid_list_parse-text_of,
}

abbrev cut : ℕ → List ℕ → List ℕ × Option (List ℕ)
cut d [] = ([], none)
cut d (c ∷ cs) = let (w, rest) = cut d cs in if c == d then ([], some cs) else (c ∷ w, rest)

-- A text that begins with the delimiter, or is empty, has no token.
abbrev gettok : Gettok
gettok d [] = none
gettok d (c ∷ cs) = if c == d then none else some (cut d (c ∷ cs))

cut-word : (w : List ℕ) → has_white w ≡ false → cut space w ≡ (w, none)
cut-word [] h = refl
cut-word (c ∷ w) h = ground (arith, h, cut-word w (ground (arith, h)))

cut-front :
    (w rest : List ℕ) → has_white w ≡ false → cut space (w ++ (space ∷ rest)) ≡ (w, some rest)
cut-front [] rest h = refl
cut-front (c ∷ w) rest h = ground (arith, h, cut-front w rest (ground (arith, h)))

cut-shorter : (src w rest : List ℕ) → cut space src ≡ (w, some rest) → length rest < length src
cut-shorter [] w rest e = ground (arith, e)
cut-shorter (c ∷ cs) w rest e = elim (Bool-cases (c == space)) [
  | inl hit ↦ ground (arith, e, hit)
  | inr miss ↦
      let ih = cut-shorter cs (cut space cs).0 rest (ground (arith, e, miss)) in omega (arith, ih)
]

gettok-word : (w : List ℕ) → IsWord w → gettok space w ≡ some (w, none)
gettok-word [] (full, h) = absurd (full refl)
gettok-word (c ∷ w) (full, h) = ground (arith, h, cut-word (c ∷ w) h)

gettok-front :
    (w rest : List ℕ) → IsWord w → gettok space (w ++ (space ∷ rest)) ≡ some (w, some rest)
gettok-front [] rest (full, h) = absurd (full refl)
gettok-front (c ∷ w) rest (full, h) = ground (arith, h, cut-front (c ∷ w) rest h)

gettok-shorter :
    (src w rest : List ℕ) → gettok space src ≡ some (w, some rest) → length rest < length src
gettok-shorter [] w rest e = ground (arith, e)
gettok-shorter (c ∷ cs) w rest e = cut-shorter (c ∷ cs) w rest (ground (arith, e))

gettok_laws : IsGettok gettok
gettok_laws = record {
  last_word = gettok-word;
  front_word = gettok-front;
  shorter = gettok-shorter;
}

-- "dd.0" and "cp.7"
abbrev dd_0 : List ℕ
dd_0 = 100 ∷ 100 ∷ 46 ∷ 48 ∷ []

abbrev cp_7 : List ℕ
cp_7 = 99 ∷ 112 ∷ 46 ∷ 55 ∷ []

abbrev much_memory : ℕ → Bool × Bool
much_memory i = (true, true)

-- There is no memory for the name of the second job.
abbrev little_memory : ℕ → Bool × Bool
little_memory i = (true, i == 0)

nrs_tbf_jobid_list_parse-text_of_example :
    (jobs : List (List ℕ)) × (nrs_tbf_jobid_list_parse gettok much_memory (text_of dd_0 (cp_7 ∷ []))
      ≡ some (success, jobs))
    × (jobs ≡ dd_0 ∷ cp_7 ∷ [])
    × ((nrs_tbf_jobid_list_match jobs cp_7 ≡ true) ↔ StandsIn cp_7 (dd_0 ∷ cp_7 ∷ []))
nrs_tbf_jobid_list_parse-text_of_example =
    nrs_tbf_jobid_list_parse-text_of gettok much_memory dd_0 (cp_7 ∷ []) cp_7 gettok_laws
      (((λ e. ground (arith, e)), refl), (((λ e. ground (arith, e)), refl), tt)) (λ i. refl)
