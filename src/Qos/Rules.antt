-- ===== src/Qos/Rules.antt =====
-- `parse_qos_rules` of source/build/metric/qos_rules.c, and the text that
-- `osc_qos_rules_seq_show` (source/build/metric/lproc_osc.c) prints of the rules.
-- `sscanf`, `snprintf` and the allocator are parameters.
pub mod Outcome
pub mod Rate
pub mod Reload
mod Tests
use lustre_tools.Base.{
  ℕ, zero, suc, ◌+◌, ◌*◌, ◌%◌, ◌^◌, Bool, true, false, ◌&&◌, ◌||◌, List, [], ◌∷◌, ◌++◌, Option,
  none, some, ℤ, pos, pos_part, to_u64, mul_u64, eqb_ℤ, div_ℤ, leb, ◌==◌, if◌then◌else◌, length,
  drop, success, einval, enomem,
}
use lustre_tools.Qos.Data.{QosRule, QosData}

-- The nine fields that a line of rules gives.
pub record RuleLine : Type 0 where
  pub ack_ewma_lower : ℕ
  pub ack_ewma_upper : ℕ
  pub send_ewma_lower : ℕ
  pub send_ewma_upper : ℕ
  pub rtt_ratio100_lower : ℕ
  pub rtt_ratio100_upper : ℕ
  pub m100 : ℤ
  pub b100 : ℤ
  pub tau : ℕ

-- The two calls of `sscanf`: the values and the number of bytes read (`%n`) where every conversion
-- succeeds, and `none` otherwise.
pub record Scanner : Type 0 where
  pub header : List ℕ → Option (ℤ × ℤ × ℕ)
  pub rule : List ℕ → Option (RuleLine × ℕ)

-- The rule that `memset` and `sscanf` leave.
abbrev pub of_line : RuleLine → QosRule
of_line l = record {
  ack_ewma_lower = l.ack_ewma_lower;
  ack_ewma_upper = l.ack_ewma_upper;
  send_ewma_lower = l.send_ewma_lower;
  send_ewma_upper = l.send_ewma_upper;
  rtt_ratio100_lower = l.rtt_ratio100_lower;
  rtt_ratio100_upper = l.rtt_ratio100_upper;
  m100 = l.m100;
  b100 = l.b100;
  tau = l.tau;
  used_times = pos 0;
  ack_ewma_avg = 0;
  send_ewma_avg = 0;
  rtt_ratio100_avg = 0;
}

-- `sizeof(struct qos_rule_t)` on a 64-bit machine.
abbrev pub rule_size : ℕ
rule_size = 80

-- The bytes up to the end of the string; "0" and "0\n", or any other two bytes after a 0.
unfoldable pub is_zero_input : List ℕ → Bool
is_zero_input [] = false
is_zero_input (c ∷ p) = leb (length (c ∷ p)) 2 && c == b'0'

-- Consumes all up to a line's end.
unfoldable pub skip_line : List ℕ → List ℕ
skip_line [] = []
skip_line (c ∷ p) = if c == 10 then p else skip_line p

abbrev pub no_rules : QosData → QosData
no_rules q = record q { rule_no = pos 0; rules = none }

module _ (scan : Scanner) where
  -- The loop over the lines, with the number of rules left; `none` is a parsing error.
  unfoldable pub fill_rules : ℕ → List ℕ → Option (List QosRule)
  fill_rules zero p = some []
  fill_rules (suc left) p = elim (scan.rule p) [
    | none ↦ none
    | some (l, n) ↦ elim (fill_rules left (skip_line (drop n p))) [
      | none ↦ none
      | some rs ↦ some (of_line l ∷ rs)
    ]
  ]

  module _ (alloc : ℕ → Bool) where
    -- From the header's values on; the old rules are freed first.
    unfoldable pub load_rules : List ℕ → ℤ → ℤ → QosData → ℤ × QosData
    load_rules p new_rule_no rules_per_sec q =
        let q' : QosData = record q {
          rule_no = new_rule_no;
          min_gap_between_updating_mrif = div_ℤ (pos 1000000) rules_per_sec;
          rules = none;
        } in
        if alloc (mul_u64 (to_u64 new_rule_no) rule_size)
        then elim (fill_rules (pos_part new_rule_no) p) [
          | none ↦ (einval, no_rules q')
          | some rs ↦ (success, record q' { rules = some rs })
        ]
        else (enomem, q')

    unfoldable pub parse_qos_rules : List ℕ → QosData → ℤ × QosData
    parse_qos_rules buf q =
        if is_zero_input buf then (success, no_rules q) else elim (scan.header buf) [
          | none ↦ (einval, q)
          | some (new_rule_no, rules_per_sec, n) ↦
              if eqb_ℤ new_rule_no (pos 0) || eqb_ℤ rules_per_sec (pos 0)
              then (success, no_rules q)
              else load_rules (drop n buf) new_rule_no rules_per_sec q
        ]

-- The two formats of `snprintf` that print the rules.
pub record Printer : Type 0 where
  pub header : ℤ → ℤ → List ℕ
  pub rule : QosRule → List ℕ

module _ (print : Printer) where
  unfoldable pub print_rules : List QosRule → List ℕ
  print_rules [] = []
  print_rules (r ∷ rs) = print.rule r ++ print_rules rs

  -- The new data and the text. The data changes: where nothing is printed, `rule_no` becomes 0.
  unfoldable pub osc_qos_rules_seq_show : QosData → QosData × List ℕ
  osc_qos_rules_seq_show q = elim q.rules [
    | none ↦ (record q { rule_no = pos 0 }, b'0' ∷ 10 ∷ [])
    | some rs ↦
        if eqb_ℤ q.rule_no (pos 0) || eqb_ℤ q.min_gap_between_updating_mrif (pos 0)
        then (record q { rule_no = pos 0 }, b'0' ∷ 10 ∷ [])
        else (
          q,
          print.header q.rule_no (div_ℤ (pos 1000000) q.min_gap_between_updating_mrif)
              ++ print_rules rs,
        )
  ]
