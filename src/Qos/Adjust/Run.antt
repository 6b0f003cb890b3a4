-- ===== src/Qos/Adjust/Run.antt =====
-- `qos_adjust` as a whole, and the states it starts from.
use lustre_tools.Base.{
  ◌>>=◌, ℕ, suc, ◌+◌, ◌^◌, ◌<◌, ◌≡◌, refl, ap, sym, ◌∙◌, Bool, true, false, List, [], ◌∷◌, ◌++◌,
  Option, none, some, ℤ, pos, pos_part, ◌+ℤ◌, ◌*ℤ◌, div_ℤ, to_s32, to_s64, eqb_ℤ, inl, inr, length,
  Timeval, arith, Bool-cases, Option-cases,
}
use mathlib.Core.Path.{subst}
use lustre_tools.Qos.Data.{QosRule, QosData}
use lustre_tools.Qos.Ewma.{time_ewma_add_extlock, qos_get_ewma_usec}
use lustre_tools.Qos.Ewma.Average
use lustre_tools.Qos.Ewma.Average.{time_ewma_add-IsValid, get_ewma-valid}
use lustre_tools.Qos.Bandwidth.{calc_bandwidth}
use lustre_tools.Qos.Adjust.{
  apply_found, rule_fits, Found, nothing, first, past_end, use_rule, adjust_mrif, apply_rules,
  measure_rtt, smaller_rtt, qos_adjust, unchanged, may_update,
}
use lustre_tools.Qos.Adjust.Select.{Selects, find_rule-Selects}

-- A rule can be used once more.
abbrev pub IsUsable : QosRule → Type 0
IsUsable r = (n : ℕ) × (r.used_times ≡ pos n) × (n + 1 < 2 ^ 31)

abbrev pub AllUsable : List QosRule → Type 0
AllUsable [] = Unit
AllUsable (r ∷ rs) = IsUsable r × AllUsable rs

-- The array of rules has `rule_no` entries.
abbrev pub RulesFit : ℤ → Option (List QosRule) → Type 0
RulesFit n none = Unit
RulesFit n (some rs) = n ≡ pos (length rs)

abbrev pub RulesUsable : Option (List QosRule) → Type 0
RulesUsable none = Unit
RulesUsable (some rs) = AllUsable rs

pub record IsValid (q : QosData) : Type 0 where
  pub ack : Average.IsValid q.ack_ewma
  pub sent : Average.IsValid q.sent_ewma
  pub rules_fit : RulesFit q.rule_no q.rules

use_rule-some :
    (r : QosRule) (a s : ℕ) (t : ℤ) → IsUsable r → (r' : QosRule) × (use_rule r a s t ≡ some r')
unfolding use_rule to_s32 ◌+ℤ◌
use_rule-some r a s t (n, e, small) = elim (Option-cases (use_rule r a s t)) [
  | inl fault ↦ absurd (ground arith)
  | inr (r', e') ↦ (r', e')
]

IsUsable-at :
    (before : List QosRule) (r : QosRule) (after : List QosRule)
    → AllUsable (before ++ r ∷ after)
    → IsUsable r
IsUsable-at [] r after h = h.0
IsUsable-at (b ∷ before) r after h = IsUsable-at before r after h.1

length-replaced :
    (before : List QosRule) (r r' : QosRule) (after : List QosRule)
    → length (before ++ r' ∷ after) ≡ length (before ++ r ∷ after)
length-replaced [] r r' after = refl
length-replaced (b ∷ before) r r' after = ap suc (length-replaced before r r' after)

calc_bandwidth-IsValid :
    (q : QosData) (now : Timeval) (op b : ℤ)
    → IsValid q
    → RulesUsable q.rules
    → IsValid (calc_bandwidth q now op b) × RulesUsable (calc_bandwidth q now op b).rules
unfolding calc_bandwidth
calc_bandwidth-IsValid q now op b v u = elim (Bool-cases (eqb_ℤ op (pos 0))) [
  | inl e ↦ rw e (record { ack = v.ack; sent = v.sent; rules_fit = v.rules_fit }, u)
  | inr ne ↦ elim (Bool-cases (eqb_ℤ op (pos 1))) [
    | inl e ↦ rw (ne, e) (record { ack = v.ack; sent = v.sent; rules_fit = v.rules_fit }, u)
    | inr ne' ↦ rw (ne, ne') (v, u)
  ]
]

smaller_rtt-nonzero :
    (smallest rtt : ℕ) → 0 < rtt → eqb_ℤ (smaller_rtt (pos smallest) (pos rtt)) (pos 0) ≡ false
unfolding smaller_rtt
smaller_rtt-nonzero smallest rtt h = ground arith

measured : QosData → ℤ → QosData
measured q rtt = record q {
  smallest_rtt = smaller_rtt q.smallest_rtt rtt;
  rtt_ratio100 = to_s32 (div_ℤ (to_s64 (rtt *ℤ pos 100)) (smaller_rtt q.smallest_rtt rtt));
}

measure_rtt-some :
    (q : QosData) (rtt smallest : ℕ)
    → 0 < rtt
    → q.smallest_rtt ≡ pos smallest
    → measure_rtt q (pos rtt) ≡ some (measured q (pos rtt))
unfolding measure_rtt measured
measure_rtt-some q rtt smallest rtt_pos e =
    let test : eqb_ℤ (smaller_rtt q.smallest_rtt (pos rtt)) (pos 0) ≡ false =
      subst (λ x. eqb_ℤ (smaller_rtt x (pos rtt)) (pos 0) ≡ false) (sym e)
        (smaller_rtt-nonzero smallest rtt rtt_pos) in
    rw test

measure_rtt-zero : (q : QosData) → q.smallest_rtt ≡ pos 0 → measure_rtt q (pos 0) ≡ none
unfolding measure_rtt smaller_rtt
measure_rtt-zero q e = ground arith

>>=-none {ℓ κ} :
    {A : Type ℓ} {B : Type κ} (m : Option A) (f : A → Option B)
    → ((a : A) → f a ≡ none)
    → (m >>= f) ≡ none
>>=-none none f h = refl
>>=-none (some a) f h = h a

module _ (timeval_sub : Timeval → Timeval → ℤ) where
  adjust_mrif-IsValid :
      (q : QosData) (now : Timeval) (r : QosRule)
      → IsValid q
      → IsValid (adjust_mrif timeval_sub q now r).0
  unfolding adjust_mrif
  adjust_mrif-IsValid q now r v = elim (Bool-cases (may_update timeval_sub q now)) [
    | inl due ↦ rw due (record { ack = v.ack; sent = v.sent; rules_fit = v.rules_fit })
    | inr early ↦ rw early (record { ack = v.ack; sent = v.sent; rules_fit = v.rules_fit })
  ]

  -- What a call that returns leaves.
  abbrev pub Returns : Option (QosData × ℤ) → Type 0
  Returns o = (q' : QosData) × (mrif : ℤ) × (o ≡ some (q', mrif)) × IsValid q'

  found-Returns :
      (q : QosData) (now : Timeval) (a s : ℕ) (rs : List QosRule) (found : Found)
      → IsValid q
      → q.rule_no ≡ pos (length rs)
      → AllUsable rs
      → Selects (λ r. rule_fits r a s q.rtt_ratio100) rs found
      → Returns (apply_found timeval_sub q now a s found)
  unfolding apply_found
  found-Returns q now a s rs nothing v e u h = (q, unchanged, refl, v)
  found-Returns q now a s rs past_end v e u h = absurd h
  found-Returns q now a s rs (first before r after) v e u h =
      let (r', used) =
        use_rule-some r a s q.rtt_ratio100 (IsUsable-at before r after (rw h.0 at u)) in
      let q1 : QosData = record q { rules = some (before ++ r' ∷ after) } in
      let v1 : IsValid q1 = record {
        ack = v.ack;
        sent = v.sent;
        rules_fit =
            e ∙ ap (λ t. pos (length t)) h.0 ∙ ap pos (sym (length-replaced before r r' after));
      } in
      (
        (adjust_mrif timeval_sub q1 now r').0,
        (adjust_mrif timeval_sub q1 now r').1,
        rw used,
        adjust_mrif-IsValid q1 now r' v1,
      )

  apply_rules-Returns :
      (has_import : Bool) (q : QosData) (now : Timeval) (a s : ℕ) (o : Option (List QosRule))
      → IsValid q
      → RulesFit q.rule_no o
      → RulesUsable o
      → Returns (apply_rules timeval_sub has_import q now a s o)
  unfolding apply_rules
  apply_rules-Returns has_import q now a s none v e u = (q, unchanged, refl, v)
  apply_rules-Returns false q now a s (some rs) v e u = (q, unchanged, refl, v)
  apply_rules-Returns true q now a s (some rs) v e u = found-Returns q now a s rs _ v e u (
      find_rule-Selects (λ r. rule_fits r a s q.rtt_ratio100) (pos_part q.rule_no) rs
        (ground (arith, e)))

  -- From sound data whose smallest round trip is not negative, with rules that can all be used once
  -- more, a reply whose round trip took any time at all makes `qos_adjust` return: no division by zero,
  -- no read past the end of the rules. The data is sound again.
  pub qos_adjust-Returns :
      (has_import : Bool) (q : QosData) (now bw_now new_ack_time new_sent_time : Timeval) (op b : ℤ)
      (rtt smallest : ℕ)
      → IsValid q
      → RulesUsable q.rules
      → timeval_sub now new_sent_time ≡ pos rtt
      → 0 < rtt
      → q.smallest_rtt ≡ pos smallest
      → Returns (qos_adjust timeval_sub has_import q now bw_now new_ack_time new_sent_time op b)
  unfolding qos_adjust measured
  qos_adjust-Returns has_import q now bw_now ack_time sent_time op b rtt smallest v u took rtt_pos
        e =
      let (ack, ack_step, ack_ok, _) =
        time_ewma_add-IsValid timeval_sub q.ack_ewma ack_time v.ack in
      let (sent, sent_step, sent_ok, _) =
        time_ewma_add-IsValid timeval_sub q.sent_ewma sent_time v.sent in
      let q0 : QosData = record q { ack_ewma = ack; sent_ewma = sent } in
      let q1 = measured q0 (pos rtt) in
      let v1 : IsValid q1 = record { ack = ack_ok; sent = sent_ok; rules_fit = v.rules_fit } in
      let (v2, u2) = calc_bandwidth-IsValid q1 bw_now op b v1 u in
      rw
        (
          ack_step,
          get_ewma-valid ack ack_ok.weight,
          sent_step,
          get_ewma-valid sent sent_ok.weight,
          took,
          measure_rtt-some q0 rtt smallest rtt_pos e,
        )
        (apply_rules-Returns has_import (calc_bandwidth q1 bw_now op b) now _ _
          (calc_bandwidth q1 bw_now op b).rules v2 v2.rules_fit u2)

  -- A first reply that is processed in the very microsecond in which its request was sent crashes: the
  -- round trip of 0 becomes the smallest one, and the ratio divides by it.
  pub qos_adjust-zero_rtt :
      (has_import : Bool) (q : QosData) (now bw_now new_ack_time new_sent_time : Timeval) (op b : ℤ)
      → timeval_sub now new_sent_time ≡ pos 0
      → q.smallest_rtt ≡ pos 0
      → qos_adjust timeval_sub has_import q now bw_now new_ack_time new_sent_time op b ≡ none
  unfolding qos_adjust
  qos_adjust-zero_rtt has_import q now bw_now ack_time sent_time op b e first_reply = rw e (
      >>=-none (time_ewma_add_extlock timeval_sub q.ack_ewma ack_time) _ λ ack.
        >>=-none (qos_get_ewma_usec ack) _ λ ack_ewma.
          >>=-none (time_ewma_add_extlock timeval_sub q.sent_ewma sent_time) _ λ sent.
            >>=-none (qos_get_ewma_usec sent) _ λ sent_ewma.
              rw (measure_rtt-zero (record q { ack_ewma = ack; sent_ewma = sent }) first_reply))
