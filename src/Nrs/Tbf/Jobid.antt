-- ===== src/Nrs/Tbf/Jobid.antt =====
-- The lists of jobs of a rule in source/build/metric/nrs_tbf.c: `nrs_tbf_jobid_list_add`, `_match`, `_parse`,
-- `_free`, and `nrs_tbf_jobid_parse`. `cfs_gettok` of libcfs and the allocator are parameters; a text
-- is the list of its bytes.
pub mod Parse
mod Tests
use lustre_tools.Base.{
  ℕ, zero, suc, ◌+◌, Bool, true, false, not, ◌&&◌, ◌||◌, List, [], ◌∷◌, ◌++◌, Option, none, some, ℤ,
  success, einval, enomem, eqb_ℤ, ◌==◌, if◌then◌else◌, length,
}
use lustre_tools.Nrs.Tbf.Rules.{same_name}

-- A token of a text at a delimiter, with what is left of the text.
abbrev pub Gettok : Type 0
Gettok = ℕ → List ℕ → Option (List ℕ × Option (List ℕ))

-- ' '
abbrev pub space : ℕ
space = 32

-- Whether the two allocations for a job succeed.
unfoldable pub nrs_tbf_jobid_list_add : Bool × Bool → List ℕ → List (List ℕ) → ℤ × List (List ℕ)
nrs_tbf_jobid_list_add (job, name) id jobs =
    if not job
    then (enomem, jobs)
    else if not name
    then (enomem, jobs)
    else (success, jobs ++ (id ∷ []))

unfoldable pub nrs_tbf_jobid_list_match : List (List ℕ) → List ℕ → Bool
nrs_tbf_jobid_list_match [] id = false
nrs_tbf_jobid_list_match (job ∷ jobs) id = same_name id job || nrs_tbf_jobid_list_match jobs id

unfoldable pub nrs_tbf_jobid_list_free : List (List ℕ) → List (List ℕ)
nrs_tbf_jobid_list_free jobs = []

-- On an error the list is freed.
abbrev pub on_error : ℤ → List (List ℕ) → ℤ × List (List ℕ)
on_error rc jobs = (rc, nrs_tbf_jobid_list_free jobs)

module _ (cfs_gettok : Gettok) (allocated : ℕ → Bool × Bool) where
  -- The loop, on fuel; `none` if that is used up. The allocations for the i-th job are the i-th ones.
  unfoldable pub parse_jobs : ℕ → Option (List ℕ) → List (List ℕ) → Option (ℤ × List (List ℕ))
  parse_jobs fuel none jobs = some (success, jobs)
  parse_jobs zero (some src) jobs = none
  parse_jobs (suc fuel) (some src) jobs = elim (cfs_gettok space src) [
    | none ↦ some (on_error einval jobs)
    | some (res, rest) ↦
        let (rc, jobs') = nrs_tbf_jobid_list_add (allocated (length jobs)) res jobs in
        let result = parse_jobs fuel rest jobs' in
        if eqb_ℤ rc success then result else some (on_error rc jobs')
  ]

  unfoldable pub nrs_tbf_jobid_list_parse : List ℕ → Option (ℤ × List (List ℕ))
  nrs_tbf_jobid_list_parse str = parse_jobs (length str + 1) (some str) []

  -- `tc_jobids_str` and `tc_jobids` of the command; `copied` is the allocation of the text's copy.
  unfoldable pub nrs_tbf_jobid_parse : Bool → List ℕ → Option (ℤ × Option (List ℕ) × List (List ℕ))
  nrs_tbf_jobid_parse copied id =
      if not copied then some (enomem, none, []) else elim (nrs_tbf_jobid_list_parse id) [
        | none ↦ none
        | some (rc, jobs) ↦ some (
            if eqb_ℤ rc success
            then (rc, some id, jobs)
            else (rc, none, nrs_tbf_jobid_list_free jobs))
      ]
