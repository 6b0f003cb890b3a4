-- ===== src/Qos/Proc/Restart.antt =====
-- A write of the rules, against what `qos_adjust` needs.
use lustre_tools.Base.{
  ℕ, ◌≡◌, refl, Bool, true, List, some, ℤ, pos, arith, Bool-cases, eqb_ℤ, inl, inr, einval, enomem,
  ap, sym, ◌∙◌, mul_u64, to_u64, Option-cases, pos_part, drop, ◌⊎◌, if◌then◌else◌,
}
use mathlib.Core.Path.{subst}
use mathlib.Core.Bool.{◌||◌}
use lustre_tools.Qos.Data.{TimeEwma, QosData}
use lustre_tools.Qos.Rules.{
  Scanner, parse_qos_rules, load_rules, fill_rules, is_zero_input, rule_size,
}
use lustre_tools.Qos.Rules.Outcome.{IsPlatform, Outcome, parse_qos_rules-Outcome}
use lustre_tools.Qos.Adjust.Run.{IsValid, RulesFit}
use lustre_tools.Qos.Proc.{osc_qos_rules_seq_write}

module _ (scan : Scanner) (alloc : ℕ → Bool) where
  fit_of :
      (q : QosData) (r : ℤ × QosData)
      → RulesFit q.rule_no q.rules
      → Outcome scan alloc q r
      → RulesFit r.1.rule_no r.1.rules
  fit_of q r f (inl (_, e, z)) = subst (RulesFit r.1.rule_no) (sym e) tt
  fit_of q r f (inr (inl (_, rs, e, z, _))) = subst (RulesFit r.1.rule_no) (sym e) z
  fit_of q r f (inr (inr (inl (_, e, z)))) = subst (RulesFit r.1.rule_no) (sym e) tt
  fit_of q r f (inr (inr (inr (inl (_, e))))) =
      subst (λ (x : QosData). RulesFit x.rule_no x.rules) (sym e) f
  fit_of q r f (inr (inr (inr (inr (_, e, z))))) = subst (RulesFit r.1.rule_no) (sym e) tt

  abbrev SameAverages : QosData → QosData → Type 0
  SameAverages q q' = (q'.ack_ewma ≡ q.ack_ewma) × (q'.sent_ewma ≡ q.sent_ewma)

  load_rules-averages :
      (p : List ℕ) (n r : ℤ) (q : QosData) → SameAverages q (load_rules scan alloc p n r q).1
  unfolding load_rules
  load_rules-averages p n r q = elim (Bool-cases (alloc (mul_u64 (to_u64 n) rule_size))) [
    | inr refused ↦ rw refused (refl, refl)
    | inl got ↦ elim (Option-cases (fill_rules scan (pos_part n) p)) [
      | inl stop ↦ rw (got, stop) (refl, refl)
      | inr (rs, lines) ↦ rw (got, lines) (refl, refl)
    ]
  ]

  parse-averages :
      (buf : List ℕ) (q : QosData) → SameAverages q (parse_qos_rules scan alloc buf q).1
  unfolding parse_qos_rules
  parse-averages buf q = elim (Bool-cases (is_zero_input buf)) [
    | inl off ↦ rw off (refl, refl)
    | inr on ↦ elim (Option-cases (scan.header buf)) [
      | inl bad ↦ rw (on, bad) (refl, refl)
      | inr ((n, r, k), head) ↦ elim (Bool-cases (eqb_ℤ n (pos 0) || eqb_ℤ r (pos 0))) [
        | inl off ↦ rw (on, head, off) (refl, refl)
        | inr go ↦ rw (on, head, go) (load_rules-averages (drop k buf) n r q)
      ]
    ]
  ]

  -- Whatever is written, and however the call ends, the data stays sound for `qos_adjust`: the array
  -- has as many rules as `rule_no` says, and the averages have their weight. Once the text has been
  -- copied, the call has also started the measurements again, and it returns `count` or the code of
  -- the parser.
  pub osc_qos_rules_seq_write-IsValid :
      (text : List ℕ) (count : ℕ) (q : QosData)
      → IsPlatform scan alloc
      → IsValid q
      → let (rc, q') = osc_qos_rules_seq_write scan alloc true (some text) count q in
        IsValid q'
        × (q'.smallest_rtt ≡ pos 0)
        × (q'.ack_ewma.ea ≡ 0)
        × (q'.sent_ewma.ea ≡ 0)
        × ((rc ≡ pos count) ⊎ (rc ≡ einval) ⊎ (rc ≡ enomem))
  unfolding osc_qos_rules_seq_write
  osc_qos_rules_seq_write-IsValid text count q pl v =
      let out = parse_qos_rules-Outcome scan alloc text q pl in
      let same = parse-averages text q in
      let q' = (parse_qos_rules scan alloc text q).1 in
      (
        record {
          ack = record {
            weight = ap (λ (t : TimeEwma). t.alpha_inv) same.0 ∙ v.ack.weight;
            bounded = omega arith;
          };
          sent = record {
            weight = ap (λ (t : TimeEwma). t.alpha_inv) same.1 ∙ v.sent.weight;
            bounded = omega arith;
          };
          rules_fit = fit_of q (parse_qos_rules scan alloc text q) v.rules_fit out;
        },
        refl,
        refl,
        refl,
        code_of count q (parse_qos_rules scan alloc text q) out,
      )
    where
      code_of :
          (count : ℕ) (q : QosData) (r : ℤ × QosData)
          → Outcome scan alloc q r
          → let code = if eqb_ℤ r.0 (pos 0) then pos count else r.0 in
            (code ≡ pos count) ⊎ (code ≡ einval) ⊎ (code ≡ enomem)
      code_of count q r (inl (e, _, _)) = inl (rw e)
      code_of count q r (inr (inl (e, _, _, _, _))) = inl (rw e)
      code_of count q r (inr (inr (inl (e, _, _)))) = inr (inl (rw e))
      code_of count q r (inr (inr (inr (inl (e, _))))) = inr (inl (rw e))
      code_of count q r (inr (inr (inr (inr (e, _, _))))) = inr (inr (rw e))
