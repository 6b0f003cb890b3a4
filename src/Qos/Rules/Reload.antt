-- ===== src/Qos/Rules/Reload.antt =====
-- `osc_qos_rules_seq_show` followed by `parse_qos_rules`.
use native.Mathlib.Nat.{div-le_self}
use lustre_tools.Base.{
  ℕ, suc, ◌*◌, ◌/◌, ◌^◌, ◌≤◌, ◌<◌, ◌≡◌, refl, ap, ◌∙◌, true, false, eqb_ℤ, ◌||◌, List, [], ◌∷◌,
  ◌++◌, map, some, ℤ, pos, to_u64, div_ℤ, length, drop, success, arith, mul_u64, Bool, drop-append,
  length-append,
}
use lustre_tools.Qos.Data.{QosRule, QosData}
use lustre_tools.Qos.Rules.{
  RuleLine, Scanner, Printer, of_line, is_zero_input, skip_line, fill_rules, load_rules,
  parse_qos_rules, print_rules, osc_qos_rules_seq_show, rule_size,
}
use lustre_tools.Qos.Rules.Rate.{gap_again, quotient_pos}

-- The fields of a rule that its line carries; the statistics behind them are not read back.
abbrev pub line_of : QosRule → RuleLine
line_of r = record {
  ack_ewma_lower = r.ack_ewma_lower;
  ack_ewma_upper = r.ack_ewma_upper;
  send_ewma_lower = r.send_ewma_lower;
  send_ewma_upper = r.send_ewma_upper;
  rtt_ratio100_lower = r.rtt_ratio100_lower;
  rtt_ratio100_upper = r.rtt_ratio100_upper;
  m100 = r.m100;
  b100 = r.b100;
  tau = r.tau;
}

-- What `sscanf` reads of a text that `snprintf` wrote with the same conversions.
pub record ReadsBack (scan : Scanner) (print : Printer) : Type 0 where
  pub header_size : (n r : ℤ) → 3 ≤ length (print.header n r)
  pub header_back :
      (n r : ℤ) (rule : QosRule) (rest : List ℕ)
      → scan.header (print.header n r ++ (print.rule rule ++ rest))
        ≡ some (n, r, length (print.header n r))
  -- The number of bytes that are read ends on the line, whose other fields are skipped.
  pub rule_bytes : QosRule → ℕ
  pub rule_back :
      (rule : QosRule) (rest : List ℕ)
      → scan.rule (print.rule rule ++ rest) ≡ some (line_of rule, rule_bytes rule)
  pub rule_skip :
      (rule : QosRule) (rest : List ℕ)
      → skip_line (drop (rule_bytes rule) (print.rule rule ++ rest)) ≡ rest

-- The rules as they are loaded: the statistics start again.
abbrev pub reloaded : QosRule → QosRule
reloaded r = of_line (line_of r)

both_nonzero : (n x : ℕ) → 0 < n → 0 < x → (eqb_ℤ (pos n) (pos 0) || eqb_ℤ (pos x) (pos 0)) ≡ false
both_nonzero n x h k = ground arith

module _ (scan : Scanner) (print : Printer) (back : ReadsBack scan print) where
  fill_rules-print_rules :
      (rs : List QosRule)
      → fill_rules scan (length rs) (print_rules print rs) ≡ some (map reloaded rs)
  unfolding fill_rules print_rules
  fill_rules-print_rules [] = refl
  fill_rules-print_rules (r ∷ rs) = rw (
    back.rule_back r (print_rules print rs),
    back.rule_skip r (print_rules print rs),
    fill_rules-print_rules rs,
  )

  not_zero_input : (n r : ℤ) (rest : List ℕ) → is_zero_input (print.header n r ++ rest) ≡ false
  unfolding is_zero_input
  not_zero_input n r rest = go (print.header n r) (back.header_size n r)
    where
      go : (head : List ℕ) → 3 ≤ length head → is_zero_input (head ++ rest) ≡ false
      go [] h = absurd (omega arith)
      go (c ∷ p) h = ground (arith, length-append p rest)

  shown :
      (q : QosData) (r : QosRule) (rs : List QosRule) (n gap : ℕ)
      → q.rules ≡ some (r ∷ rs)
      → q.rule_no ≡ pos (suc n)
      → 0 < gap
      → q.min_gap_between_updating_mrif ≡ pos gap
      → (osc_qos_rules_seq_show print q).1
        ≡ print.header (pos (suc n)) (pos (1000000 / gap)) ++ (print.rule r ++ print_rules print rs)
  unfolding osc_qos_rules_seq_show div_ℤ print_rules
  shown q r rs n gap some_rules count gap_pos e =
      rw (some_rules, count, e, both_nonzero (suc n) gap (omega arith) gap_pos)

  loaded :
      (alloc : ℕ → Bool) (q : QosData) (rs : List QosRule) (rate : ℕ)
      → length rs < 2 ^ 31
      → alloc (length rs * rule_size) ≡ true
      → load_rules scan alloc (print_rules print rs) (pos (length rs)) (pos rate) q ≡ (
        success,
        record q {
          rule_no = pos (length rs);
          min_gap_between_updating_mrif = pos (1000000 / rate);
          rules = some (map reloaded rs);
        },
      )
  unfolding load_rules div_ℤ to_u64
  loaded alloc q rs rate small memory =
      let size : mul_u64 (to_u64 (pos (length rs))) rule_size ≡ length rs * rule_size =
        omega arith in
      let got : alloc (mul_u64 (to_u64 (pos (length rs))) rule_size) ≡ true =
        ap alloc size ∙ memory in
      rw (got, fill_rules-print_rules rs)

  parsed :
      (alloc : ℕ → Bool) (q : QosData) (r : QosRule) (rs : List QosRule) (rate : ℕ)
      → 0 < rate
      → parse_qos_rules scan alloc
          (print.header (pos (suc (length rs))) (pos rate)
            ++ (print.rule r ++ print_rules print rs))
          q
        ≡ load_rules scan alloc (print_rules print (r ∷ rs)) (pos (suc (length rs))) (pos rate) q
  unfolding parse_qos_rules print_rules
  parsed alloc q r rs rate rate_pos =
      let head = print.header (pos (suc (length rs))) (pos rate) in
      let body = print.rule r ++ print_rules print rs in
      rw (
        not_zero_input (pos (suc (length rs))) (pos rate) body,
        back.header_back (pos (suc (length rs))) (pos rate) r (print_rules print rs),
        both_nonzero (suc (length rs)) rate (omega arith) rate_pos,
        drop-append head body,
      )

  -- Writing back what a reader of the file saw restores the rules with their number and their gap,
  -- with the statistics cleared, into any data `q'`: if the gap is the quotient that some rate from 1
  -- to 1000000 gives, the rules are counted by `rule_no`, and the memory is there.
  pub parse_qos_rules-seq_show :
      (alloc : ℕ → Bool) (q q' : QosData) (r : QosRule) (rs : List QosRule) (rate : ℕ)
      → q.rules ≡ some (r ∷ rs)
      → q.rule_no ≡ pos (suc (length rs))
      → suc (length rs) < 2 ^ 31
      → 0 < rate
      → rate ≤ 1000000
      → q.min_gap_between_updating_mrif ≡ pos (1000000 / rate)
      → alloc (suc (length rs) * rule_size) ≡ true
      → parse_qos_rules scan alloc (osc_qos_rules_seq_show print q).1 q' ≡ (
        success,
        record q' {
          rule_no = q.rule_no;
          min_gap_between_updating_mrif = q.min_gap_between_updating_mrif;
          rules = some (map reloaded (r ∷ rs));
        },
      )
  parse_qos_rules-seq_show alloc q q' r rs rate some_rules count small rate_pos rate_max gap
        memory =
      let m = 1000000 / rate in
      let m_pos : 0 < m = quotient_pos 1000000 rate rate_pos rate_max in
      let again : 0 < 1000000 / m = quotient_pos 1000000 m m_pos (div-le_self 1000000 rate) in
      rw (shown q r rs (length rs) m some_rules count m_pos gap) (
        parsed alloc q' r rs (1000000 / m) again
        ∙ rw (
          loaded alloc q' (r ∷ rs) (1000000 / m) small memory,
          gap_again 1000000 rate rate_pos rate_max,
          count,
          gap,
        ))
