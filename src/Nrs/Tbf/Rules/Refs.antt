-- ===== src/Nrs/Tbf/Rules/Refs.antt =====
-- The reference counts of the rules.
use lustre_tools.Base.{ℕ, suc, ◌+◌, ◌-◌, ◌<◌, ◌≡◌, some, ◌==◌, if◌then◌else◌, arith}
use lustre_tools.Nrs.Tbf.Rules.{Head, listed, users, set_ref, nrs_tbf_rule_put, nrs_tbf_rule_get}

abbrev pub one : ℕ → ℕ → ℕ
one id j = if id == j then 1 else 0

-- The count of every rule is its places in the list, its clients, and the references `extra` that a
-- function holds in between.
pub record Holds (extra : ℕ → ℕ) (h : Head) : Type 0 where
  pub counted : (j : ℕ) → (h.rule_at j).tr_ref ≡ listed j h.th_list + users j h.clients + extra j

-- Nothing but the count of one rule differs.
abbrev pub SameButRef : Head → Head → ℕ → Type 0
SameButRef h h' id = (n : ℕ) × (h' ≡ set_ref h id n)

-- A function that holds a reference can give it up: the rule is alive, and if it is freed no list
-- has it.
pub rule_put-Holds :
    (h : Head) (id : ℕ) (extra : ℕ → ℕ)
    → Holds (λ j. extra j + one id j) h
    → (n : ℕ) × (nrs_tbf_rule_put h id ≡ some (set_ref h id n)) × Holds extra (set_ref h id n)
unfolding nrs_tbf_rule_put
rule_put-Holds h id extra v =
    let count : (h.rule_at id).tr_ref ≡ suc (listed id h.th_list + users id h.clients + extra id) =
      ground (arith, v.counted id) in
    (
      listed id h.th_list + users id h.clients + extra id,
      rw (nrs_tbf_rule_put, count) (ground arith),
      record { counted = λ j. ground (arith, v.counted j) },
    )

pub rule_get-Holds :
    (h : Head) (id : ℕ) (extra : ℕ → ℕ)
    → Holds extra h
    → 0 < (h.rule_at id).tr_ref
    → (n : ℕ) × (nrs_tbf_rule_get h id ≡ some (set_ref h id n))
      × Holds (λ j. extra j + one id j) (set_ref h id n)
unfolding nrs_tbf_rule_get
rule_get-Holds h id extra v alive =
    let n = (h.rule_at id).tr_ref - 1 in
    let count : (h.rule_at id).tr_ref ≡ suc n = omega arith in
    (suc (suc n), rw count (ground arith), record { counted = λ j. ground (arith, v.counted j) })
