-- ===== src/Nrs/Tbf/Rules/Keep.antt =====
-- The invariant of the table of rules, and the steps that its commands share.
use lustre_tools.Base.{
  ℕ, ◌+◌, ◌≤◌, ◌<◌, ◌≡◌, refl, Bool, true, false, List, [], ◌∷◌, Option, none, some, arith,
  Bool-cases, inl, inr, ◌⊎◌,
}
use lustre_tools.Nrs.Tbf.Rules.{
  Rule, Head, default_rule, listed, set_ref, nrs_tbf_rule_put, nrs_tbf_rule_get, first_rule,
  nrs_tbf_rule_find, same_name,
}
use lustre_tools.Nrs.Tbf.Rules.Refs.{Holds, one, rule_put-Holds, rule_get-Holds}

-- The counts are right with the references `extra` that are held in between; a rule is in the list
-- at most once, and then it is not stopping; a pointer that was not given yet is no rule's; the
-- policy has a default rule, which is in the list
-- under its name.
pub record Sound (extra : ℕ → ℕ) (h : Head) : Type 0 where
  pub refs : Holds extra h
  pub once : (j : ℕ) → listed j h.th_list ≤ 1
  pub running : (j : ℕ) → 0 < listed j h.th_list → (h.rule_at j).stopping ≡ false
  pub fresh : (j : ℕ) → h.next_rule ≤ j → (h.rule_at j).tr_ref ≡ 0
  pub default_id : ℕ
  pub has_default : h.th_rule ≡ some default_id
  pub default_name : (h.rule_at default_id).tr_name ≡ default_rule
  pub default_listed : 0 < listed default_id h.th_list

-- No reference is held.
abbrev pub none_held : ℕ → ℕ
none_held j = 0

abbrev pub plus_one : (ℕ → ℕ) → ℕ → ℕ → ℕ
plus_one extra id j = extra j + one id j

pub rule_put-Sound :
    (h : Head) (id : ℕ) (extra : ℕ → ℕ)
    → Sound (plus_one extra id) h
    → (n : ℕ) × (nrs_tbf_rule_put h id ≡ some (set_ref h id n)) × Sound extra (set_ref h id n)
rule_put-Sound h id extra v =
    let (n, step, refs) = rule_put-Holds h id extra v.refs in
    (
      n,
      step,
      record {
        refs = refs;
        once = v.once;
        running = λ j l. ground (arith, v.running j l);
        fresh = λ j le. ground (arith, v.fresh j le, v.refs.counted j, refs.counted j);
        default_id = v.default_id;
        has_default = v.has_default;
        default_name = ground (arith, v.default_name);
        default_listed = v.default_listed;
      },
    )

pub rule_get-Sound :
    (h : Head) (id : ℕ) (extra : ℕ → ℕ)
    → Sound extra h
    → 0 < listed id h.th_list
    → (n : ℕ) × (nrs_tbf_rule_get h id ≡ some (set_ref h id n))
      × Sound (plus_one extra id) (set_ref h id n)
rule_get-Sound h id extra v l =
    let (n, step, refs) = rule_get-Holds h id extra v.refs (omega (arith, v.refs.counted id)) in
    (
      n,
      step,
      record {
        refs = refs;
        once = v.once;
        running = λ j l. ground (arith, v.running j l);
        fresh = λ j le. ground (arith, v.fresh j le, v.fresh id, v.refs.counted id);
        default_id = v.default_id;
        has_default = v.has_default;
        default_name = ground (arith, v.default_name);
        default_listed = v.default_listed;
      },
    )

-- The first rule of a list that passes a test.
abbrev pub Hits : (ℕ → Rule) → (Rule → Bool) → List ℕ → Option ℕ → Type 0
Hits rule_at test rs none = Unit
Hits rule_at test rs (some id) = (0 < listed id rs) × (test (rule_at id) ≡ true)

behind-Hits :
    (rule_at : ℕ → Rule) (test : Rule → Bool) (r : ℕ) (rs : List ℕ) (found : Option ℕ)
    → Hits rule_at test rs found
    → Hits rule_at test (r ∷ rs) found
behind-Hits rule_at test r rs none h = tt
behind-Hits rule_at test r rs (some id) h = (omega (arith, h.0), h.1)

-- In a list of running rules, the search ends with a rule that passes the test, or with none.
pub first_rule-Hits :
    (rule_at : ℕ → Rule) (test : Rule → Bool) (rs : List ℕ)
    → ((j : ℕ) → 0 < listed j rs → (0 < (rule_at j).tr_ref) × ((rule_at j).stopping ≡ false))
    → (found : Option ℕ) × (first_rule rule_at test rs ≡ some found) × Hits rule_at test rs found
unfolding first_rule
first_rule-Hits rule_at test [] ok = (none, refl, tt)
first_rule-Hits rule_at test (r ∷ rs) ok =
    let (found, step, hits) = first_rule-Hits rule_at test rs (λ j l. ok j (omega (arith, l))) in
    let (alive, runs) = ok r (ground arith) in
    elim (Bool-cases (test (rule_at r))) [
      | inl hit ↦ (some r, ground (arith, alive, runs, hit), (ground arith, hit))
      | inr miss ↦
          (found, ground (arith, alive, runs, miss, step), behind-Hits rule_at test r rs found hits)
    ]

pub listed_ok :
    (h : Head) (extra : ℕ → ℕ)
    → Sound extra h
    → (j : ℕ) → 0 < listed j h.th_list
    → (0 < (h.rule_at j).tr_ref) × ((h.rule_at j).stopping ≡ false)
listed_ok h extra v j l = (omega (arith, v.refs.counted j), v.running j l)

-- What a lookup gives: nothing, or a rule of that name with a reference to it.
abbrev pub FindResult : (ℕ → ℕ) → Head → List ℕ → Type 0
FindResult extra h name =
    (nrs_tbf_rule_find h name ≡ some (h, none))
    ⊎ ((id n : ℕ) × (nrs_tbf_rule_find h name ≡ some (set_ref h id n, some id))
        × (0 < listed id h.th_list)
        × (same_name (h.rule_at id).tr_name name ≡ true)
        × Sound (plus_one extra id) (set_ref h id n))

pub rule_find-Sound :
    (h : Head) (name : List ℕ) (extra : ℕ → ℕ) → Sound extra h → FindResult extra h name
unfolding nrs_tbf_rule_find
rule_find-Sound h name extra v =
    let test : Rule → Bool = λ (r : Rule). same_name r.tr_name name in
    let (found, step, hits) = first_rule-Hits h.rule_at test h.th_list (listed_ok h extra v) in
    go found step hits
  where
    go :
        (found : Option ℕ)
        → first_rule h.rule_at (λ (r : Rule). same_name r.tr_name name) h.th_list ≡ some found
        → Hits h.rule_at (λ (r : Rule). same_name r.tr_name name) h.th_list found
        → FindResult extra h name
    go none step hits = inl (rw step)
    go (some id) step hits =
        let (n, got, sound) = rule_get-Sound h id extra v hits.0 in
        inr (id, n, rw (step, got), hits.0, hits.1, sound)
