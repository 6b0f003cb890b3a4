-- ===== src/Qos/Rules/Tests.antt =====
-- A scanner and a printer of the rules, and instances of the theorems about the parser.
use lustre_tools.Base.{
  ℕ, zero, suc, ◌+◌, ◌-◌, ◌*◌, ◌/◌, ◌%◌, ◌≡◌, refl, Bool, List, [], ◌∷◌, some, none, ℤ, pos, negsuc,
  ltb, ◌==◌, if◌then◌else◌, length, map, arith, success,
}
use lustre_tools.Qos.Data.{TimeEwma, QosRule, Bandwidth, QosData}
use lustre_tools.Qos.Rules.{
  RuleLine, Scanner, Printer, parse_qos_rules, osc_qos_rules_seq_show, skip_line,
}
use lustre_tools.Qos.Rules.Outcome.{IsPlatform, Outcome, parse_qos_rules-Outcome}
use lustre_tools.Qos.Rules.Reload.{ReadsBack, reloaded, parse_qos_rules-seq_show}
use lustre_tools.Qos.Adjust.Run.{IsValid}

-- A number of either sign as one code, from 100 on.
abbrev encode : ℤ → ℕ
encode (pos n) = 100 + 2 * n
encode (negsuc n) = 101 + 2 * n

abbrev decode : ℕ → ℤ
decode k = if k % 2 == 0 then pos ((k - 100) / 2) else negsuc ((k - 101) / 2)

decode-encode : (x : ℤ) → decode (encode x) ≡ x
decode-encode (pos n) = ground arith
decode-encode (negsuc n) = ground arith

abbrev nth : List ℕ → ℕ → ℕ
nth [] k = 0
nth (c ∷ p) zero = c
nth (c ∷ p) (suc k) = nth p k

abbrev line_at : List ℕ → RuleLine
line_at p = record {
  ack_ewma_lower = nth p 0 - 100;
  ack_ewma_upper = nth p 1 - 100;
  send_ewma_lower = nth p 2 - 100;
  send_ewma_upper = nth p 3 - 100;
  rtt_ratio100_lower = nth p 4 - 100;
  rtt_ratio100_upper = nth p 5 - 100;
  m100 = decode (nth p 6);
  b100 = decode (nth p 7);
  tau = nth p 8 - 100;
}

abbrev scanner : Scanner
scanner = record {
  header = λ p. if ltb (length p) 4 then none else some (decode (nth p 0), decode (nth p 2), 4);
  rule = λ p. if ltb (length p) 9 then none else some (line_at p, 9);
}

abbrev printer : Printer
printer = record {
  header = λ n r. encode n ∷ 44 ∷ encode r ∷ 10 ∷ [];
  rule = λ (r : QosRule).
      (r.ack_ewma_lower + 100)
      ∷ (r.ack_ewma_upper + 100)
      ∷ (r.send_ewma_lower + 100)
      ∷ (r.send_ewma_upper + 100)
      ∷ (r.rtt_ratio100_lower + 100)
      ∷ (r.rtt_ratio100_upper + 100)
      ∷ encode r.m100
      ∷ encode r.b100
      ∷ (r.tau + 100)
      ∷ 10
      ∷ [];
}

scanner-ReadsBack : ReadsBack scanner printer
unfolding skip_line
scanner-ReadsBack = record {
  header_size = λ n r. omega arith;
  header_back = λ n r rule rest. ground (arith, decode-encode n, decode-encode r);
  rule_bytes = λ rule. 9;
  rule_back = λ rule rest. ground (arith, decode-encode rule.m100, decode-encode rule.b100);
  rule_skip = λ rule rest. refl;
}

-- Reads one digit for each of the header's numbers.
abbrev digits : Scanner
digits = record {
  header = λ p. if ltb (length p) 2 then none else some (pos (nth p 0 % 10), pos (nth p 1 % 10), 2);
  rule = λ p. if ltb (length p) 1 then none else some (line_at p, 1);
}

abbrev small_blocks : ℕ → Bool
small_blocks size = ltb size 100000

digits-IsPlatform : IsPlatform digits small_blocks
digits-IsPlatform = record {
  header_int = λ p n r k e. ground (arith, e);
  alloc_limit = λ size e. ground (arith, e);
}

abbrev no_average : TimeEwma
no_average = record { alpha_inv = 8; ea = 0; last_time = record { tv_sec = 0; tv_usec = 0 } }

abbrev idle : Bandwidth
idle = record { last_req_sec = 0; bw_last_sec = 0; sum_bytes_this_sec = 0 }

abbrev rule : QosRule
rule = record {
  ack_ewma_lower = 0;
  ack_ewma_upper = 90;
  send_ewma_lower = 0;
  send_ewma_upper = 80;
  rtt_ratio100_lower = 100;
  rtt_ratio100_upper = 200;
  m100 = pos 50;
  b100 = negsuc 6;
  tau = 20;
  used_times = pos 3;
  ack_ewma_avg = 11;
  send_ewma_avg = 12;
  rtt_ratio100_avg = 130;
}

abbrev client : QosData
client = record {
  ack_ewma = no_average;
  sent_ewma = no_average;
  rtt_ratio100 = pos 0;
  smallest_rtt = pos 0;
  max_rpc_in_flight100 = pos 800;
  last_mrif_update_time = record { tv_sec = 0; tv_usec = 0 };
  min_gap_between_updating_mrif = pos 1000;
  rule_no = pos 1;
  read = idle;
  write = idle;
  min_usec_between_rpcs = 500;
  last_rpc_time = record { tv_sec = 0; tv_usec = 0 };
  rules = some (rule ∷ []);
}

client-IsValid : IsValid client
client-IsValid = record {
  ack = record { weight = refl; bounded = omega arith };
  sent = record { weight = refl; bounded = omega arith };
  rules_fit = refl;
}

-- Two rules at four updates a second, of which the text holds one.
abbrev text : List ℕ
text = 52 ∷ 52 ∷ 7 ∷ 10 ∷ []

parse_qos_rules-Outcome_example :
    Outcome digits small_blocks client (parse_qos_rules digits small_blocks text client)
parse_qos_rules-Outcome_example =
    parse_qos_rules-Outcome digits small_blocks text client digits-IsPlatform

parse_qos_rules-seq_show_example :
    parse_qos_rules scanner small_blocks (osc_qos_rules_seq_show printer client).1 client ≡ (
      success,
      record client {
        rule_no = pos 1;
        min_gap_between_updating_mrif = pos 1000;
        rules = some (map reloaded (rule ∷ []));
      },
    )
parse_qos_rules-seq_show_example =
    parse_qos_rules-seq_show scanner printer scanner-ReadsBack small_blocks client client rule []
      1000 refl refl (omega arith) (omega arith) (omega arith) refl refl
