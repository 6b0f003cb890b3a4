-- ===== src/Qos/Adjust/Select.antt =====
-- The rule that the loop of `qos_adjust` selects.
use lustre_tools.Base.{
  ℕ, zero, suc, ◌≡◌, refl, ap, Bool, true, false, List, [], ◌∷◌, ◌++◌, inl, inr, length, Bool-cases,
  arith,
}
use lustre_tools.Qos.Data.{QosRule}
use lustre_tools.Qos.Adjust.{Found, nothing, first, past_end, behind, find_rule}

-- No rule of the list fits.
abbrev pub NoneFits : (QosRule → Bool) → List QosRule → Type 0
NoneFits fits [] = Unit
NoneFits fits (r ∷ rs) = (fits r ≡ false) × NoneFits fits rs

-- The first rule that fits, if one does.
abbrev pub Selects : (QosRule → Bool) → List QosRule → Found → Type 0
Selects fits rs nothing = NoneFits fits rs
Selects fits rs (first before r after) =
    (rs ≡ before ++ r ∷ after) × (fits r ≡ true) × NoneFits fits before
Selects fits rs past_end = ⊥

behind-Selects :
    (fits : QosRule → Bool) (r : QosRule) (rs : List QosRule) (found : Found)
    → fits r ≡ false
    → Selects fits rs found
    → Selects fits (r ∷ rs) (behind r found)
behind-Selects fits r rs nothing miss h = (miss, h)
behind-Selects fits r rs (first before r' after) miss h = (ap (λ t. r ∷ t) h.0, h.1, (miss, h.2))
behind-Selects fits r rs past_end miss h = h

-- Over an array of as many rules as the loop counts, the loop reads no rule past the end, selects the
-- first rule that fits, and no rule exactly where none fits.
pub find_rule-Selects :
    (fits : QosRule → Bool) (n : ℕ) (rs : List QosRule)
    → n ≡ length rs
    → Selects fits rs (find_rule fits n rs)
unfolding find_rule
find_rule-Selects fits zero [] e = tt
find_rule-Selects fits zero (r ∷ rs) e = absurd (omega arith)
find_rule-Selects fits (suc n) [] e = absurd (omega arith)
find_rule-Selects fits (suc n) (r ∷ rs) e = elim (Bool-cases (fits r)) [
  | inl hit ↦ rw hit (refl, hit, tt)
  | inr miss ↦ rw miss (
      behind-Selects fits r rs (find_rule fits n rs) miss
        (find_rule-Selects fits n rs (omega arith)))
]
