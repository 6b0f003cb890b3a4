-- ===== src/Nrs/Tbf/Jobid/Parse.antt =====
-- The parser of a rule's jobs returns, and reads back a list of jobs.
use lustre_tools.Base.{
  ℕ, zero, suc, ◌+◌, ◌≤◌, ◌<◌, ◌≡◌, ◌≢◌, ◌↔◌, refl, sym, ap, Bool, true, false, ◌&&◌, ◌||◌, List,
  [], ◌∷◌, ◌++◌, Option, none, some, ◌⊎◌, inl, inr, Bool-cases, Option-cases, arith, ℤ, success,
  einval, enomem, ◌==◌, length, length-append, leb,
}
use lustre_tools.Nrs.Tbf.Rules.{same_name}
use lustre_tools.Nrs.Tbf.Table.Sound.{same_name_refl, same_name-eq}
use lustre_tools.Nrs.Tbf.Jobid.{
  Gettok, space, nrs_tbf_jobid_list_add, nrs_tbf_jobid_list_match, nrs_tbf_jobid_list_free,
  parse_jobs, nrs_tbf_jobid_list_parse,
}

-- A word is not empty and has no white space in it.
abbrev pub is_white : ℕ → Bool
is_white c = (c == space) || (leb 9 c && leb c 13)

abbrev pub has_white : List ℕ → Bool
has_white [] = false
has_white (c ∷ cs) = is_white c || has_white cs

abbrev pub IsWord : List ℕ → Type 0
IsWord w = (w ≢ []) × (has_white w ≡ false)

-- What the parser relies on: a word at the front of a text is the token, and the text goes on behind the
-- delimiter; what is left is always shorter.
pub record IsGettok (cfs_gettok : Gettok) : Type 0 where
  pub last_word : (w : List ℕ) → IsWord w → cfs_gettok space w ≡ some (w, none)
  pub front_word :
      (w rest : List ℕ) → IsWord w → cfs_gettok space (w ++ (space ∷ rest)) ≡ some (w, some rest)
  pub shorter :
      (src w rest : List ℕ) → cfs_gettok space src ≡ some (w, some rest) → length rest < length src

-- The jobs of a list, parted by a space; there is at least one.
abbrev pub text_of : List ℕ → List (List ℕ) → List ℕ
text_of w [] = w
text_of w (v ∷ vs) = w ++ (space ∷ text_of v vs)

abbrev pub AllWords : List (List ℕ) → Type 0
AllWords [] = Unit {0}
AllWords (w ∷ ws) = IsWord w × AllWords ws

-- 0 with any list, or an error with the list freed.
abbrev pub Reads : ℤ × List (List ℕ) → Type 0
Reads r = (r.0 ≡ success) ⊎ (((r.0 ≡ einval) ⊎ (r.0 ≡ enomem)) × (r.1 ≡ []))

add-cases :
    (a : Bool × Bool) (id : List ℕ) (jobs : List (List ℕ))
    → (nrs_tbf_jobid_list_add a id jobs ≡ (success, jobs ++ (id ∷ [])))
      ⊎ (nrs_tbf_jobid_list_add a id jobs ≡ (enomem, jobs))
unfolding nrs_tbf_jobid_list_add
add-cases (true, true) id jobs = inl refl
add-cases (true, false) id jobs = inr refl
add-cases (false, name) id jobs = inr refl

abbrev left_of : Option (List ℕ) → ℕ
left_of none = 0
left_of (some src) = length src + 1

append_one :
    (jobs : List (List ℕ)) (w : List ℕ) (ws : List (List ℕ))
    → (jobs ++ (w ∷ [])) ++ ws ≡ jobs ++ (w ∷ ws)
append_one [] w ws = refl
append_one (j ∷ jobs) w ws = ap (λ xs. j ∷ xs) (append_one jobs w ws)

module _ (cfs_gettok : Gettok) (allocated : ℕ → Bool × Bool) (laws : IsGettok cfs_gettok) where
  rest_fits :
      (fuel : ℕ) (src : List ℕ) (t : List ℕ × Option (List ℕ))
      → cfs_gettok space src ≡ some t
      → length src + 1 ≤ suc fuel
      → left_of t.1 ≤ fuel
  rest_fits fuel src (w, none) got le = omega arith
  rest_fits fuel src (w, some rest) got le = omega (arith, laws.shorter src w rest got, le)

  parse_jobs-Reads :
      (fuel : ℕ) (src : Option (List ℕ)) (jobs : List (List ℕ))
      → left_of src ≤ fuel
      → (r : ℤ × List (List ℕ)) × (parse_jobs cfs_gettok allocated fuel src jobs ≡ some r) × Reads r
  unfolding parse_jobs nrs_tbf_jobid_list_free
  parse_jobs-Reads zero none jobs le = ((success, jobs), refl, inl refl)
  parse_jobs-Reads (suc fuel) none jobs le = ((success, jobs), refl, inl refl)
  parse_jobs-Reads zero (some src) jobs le = absurd (omega (arith, le))
  parse_jobs-Reads (suc fuel) (some src) jobs le = elim (Option-cases (cfs_gettok space src)) [
    | inl nothing ↦ ((einval, []), rw (nothing, parse_jobs) refl, inr (inl refl, refl))
    | inr (t, got) ↦ elim (add-cases (allocated (length jobs)) t.0 jobs) [
      | inr no_memory ↦ ((enomem, []), ground (arith, got, no_memory), inr (inr refl, refl))
      | inl added ↦
          let (r, step, reads) =
            parse_jobs-Reads fuel t.1 (jobs ++ (t.0 ∷ [])) (rest_fits fuel src t got le) in
          (r, ground (arith, got, added, step), reads)
    ]
  ]

  -- For every text and however the allocations go, the parser returns: with 0, or with EINVAL or ENOMEM and
  -- no job.
  pub nrs_tbf_jobid_list_parse-Reads :
      (str : List ℕ)
      → (r : ℤ × List (List ℕ)) × (nrs_tbf_jobid_list_parse cfs_gettok allocated str ≡ some r)
        × Reads r
  unfolding nrs_tbf_jobid_list_parse
  nrs_tbf_jobid_list_parse-Reads str = parse_jobs-Reads (length str + 1) (some str) [] (omega arith)

  none_left :
      (fuel : ℕ) (jobs : List (List ℕ))
      → parse_jobs cfs_gettok allocated fuel none jobs ≡ some (success, jobs)
  unfolding parse_jobs
  none_left zero jobs = refl
  none_left (suc fuel) jobs = refl

  parse_jobs-text_of :
      (ws : List (List ℕ)) (w : List ℕ) (jobs : List (List ℕ)) (fuel : ℕ)
      → AllWords (w ∷ ws)
      → ((i : ℕ) → allocated i ≡ (true, true))
      → length (text_of w ws) + 1 ≤ fuel
      → parse_jobs cfs_gettok allocated fuel (some (text_of w ws)) jobs
        ≡ some (success, jobs ++ (w ∷ ws))
  unfolding parse_jobs nrs_tbf_jobid_list_add
  parse_jobs-text_of ws w jobs zero words memory le = absurd (omega (arith, le))
  parse_jobs-text_of [] w jobs (suc fuel) words memory le =
      ground
        (arith, laws.last_word w words.0, memory (length jobs), none_left fuel (jobs ++ (w ∷ [])))
  parse_jobs-text_of (v ∷ vs) w jobs (suc fuel) words memory le =
      let got = laws.front_word w (text_of v vs) words.0 in
      let rest =
        parse_jobs-text_of vs v (jobs ++ (w ∷ [])) fuel words.1 memory
          (omega (arith, length-append w (space ∷ text_of v vs), le)) in
      ground (arith, got, memory (length jobs), rest, append_one jobs w (v ∷ vs))

-- A job stands in a list.
abbrev pub StandsIn : List ℕ → List (List ℕ) → Type 0
StandsIn id [] = true ≡ false
StandsIn id (job ∷ jobs) = (id ≡ job) ⊎ StandsIn id jobs

list_match-StandsIn :
    (jobs : List (List ℕ)) (id : List ℕ)
    → (nrs_tbf_jobid_list_match jobs id ≡ true) ↔ StandsIn id jobs
unfolding nrs_tbf_jobid_list_match
list_match-StandsIn [] id = ((λ e. sym e), (λ e. sym e))
list_match-StandsIn (job ∷ jobs) id =
    let (to, from) = list_match-StandsIn jobs id in
    (
      λ e. elim (Bool-cases (same_name id job)) [
        | inl hit ↦ inl (same_name-eq id job hit)
        | inr miss ↦ inr (to (ground (arith, e, miss)))
      ],
      λ h. elim h [
        | inl same ↦
            let hit : same_name id job ≡ true = rw same (same_name_refl job) in ground (arith, hit)
        | inr later ↦ ground (arith, from later)
      ],
    )

-- With enough memory, the text of a list of jobs, none of which is empty or has white space in it, is read back
-- as that list, and a job then matches exactly if it is one of them.
pub nrs_tbf_jobid_list_parse-text_of :
    (cfs_gettok : Gettok) (allocated : ℕ → Bool × Bool) (w : List ℕ) (ws : List (List ℕ))
    (id : List ℕ)
    → IsGettok cfs_gettok
    → AllWords (w ∷ ws)
    → ((i : ℕ) → allocated i ≡ (true, true))
    → (jobs : List (List ℕ)) × (nrs_tbf_jobid_list_parse cfs_gettok allocated (text_of w ws)
        ≡ some (success, jobs))
      × (jobs ≡ w ∷ ws)
      × ((nrs_tbf_jobid_list_match jobs id ≡ true) ↔ StandsIn id (w ∷ ws))
unfolding nrs_tbf_jobid_list_parse
nrs_tbf_jobid_list_parse-text_of cfs_gettok allocated w ws id laws words memory = (
  w ∷ ws,
  parse_jobs-text_of cfs_gettok allocated laws ws w [] (length (text_of w ws) + 1) words memory
      (omega arith),
  refl,
  list_match-StandsIn (w ∷ ws) id,
)
