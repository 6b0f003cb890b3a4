-- ===== src/Nrs/Tbf/Tests.antt =====
-- Runs of the token bucket policy, and instances of the theorems.
use lustre_tools.Base.{
  ℕ, ◌+◌, ◌-◌, ◌≤◌, ◌≡◌, refl, Bool, true, false, sub_ℕ, negsuc, ◌&&◌, ◌||◌, ltb, ◌*◌, ◌+◌, ◌-◌,
  List, [], ◌∷◌, some, ◌==◌, if◌then◌else◌, pos, arith,
}
use lustre_tools.Nrs.Tbf.Bucket.{Bucket, serve, ask, tokens_at, reset_value, limit_of}
use lustre_tools.Nrs.Tbf.Bucket.Rate.{serve-window, earned}
use lustre_tools.Nrs.Tbf.Bucket.Deadline.{IsLimited}
use lustre_tools.Nrs.Tbf.Rules.{Rule, Client, Head, default_rule}
use lustre_tools.Nrs.Tbf.Rules.Keep.{Sound, none_held}
use lustre_tools.Nrs.Tbf.Table.{RuleCmd, nrs_tbf_rule_start, refresh_client}
use lustre_tools.Nrs.Tbf.Table.Sound.{KeepsTable, Returns, nrs_tbf_rule_start-Sound}
use lustre_tools.Nrs.Tbf.Table.Refresh.{Settles, refresh_client-Sound}
use lustre_tools.Nrs.Tbf.Command.{
  Kernel, TbfPolicy, nrs_tbf_parse_cmd, strsep, nrs_tbf_id_parse, parse_rate, parse_ids,
  parse_named, parsed, start_rule,
}
use lustre_tools.Nrs.Tbf.Command.Accepts.{Accepts, nrs_tbf_parse_cmd-Accepts}
use lustre_tools.Nrs.Tbf.Command.Obeys.{Obeys, carry_out, NameFits, nrs_tbf_command-Obeys}
use lustre_tools.Base.{ℤ, suc}
use lustre_tools.Nrs.Sscdt.{Request}
use lustre_tools.Nrs.Tbf.Compare.{IsStrcmp}

-- Three requests a second, one token at most, none left.
abbrev empty_bucket : Bucket
empty_bucket = record {
  tc_rpc_rate = 3;
  tc_nsecs = 333333333;
  tc_ntoken = 0;
  tc_depth = 1;
  tc_check_time = 100;
}

empty_bucket-IsLimited : IsLimited empty_bucket 3
empty_bucket-IsLimited = omega arith

filled : reset_value (limit_of 3 1) 100 ≡ record empty_bucket { tc_ntoken = 1 }
unfolding reset_value
filled = refl

two_served : (serve (record empty_bucket { tc_ntoken = 1 }) (100 ∷ 200 ∷ 333333434 ∷ [])).0 ≡ 2
unfolding serve ask tokens_at
two_served = refl

serve-window_example :
    (serve empty_bucket (200 ∷ 333333434 ∷ 400000000 ∷ [])).0 ≤ 1 + earned 3 (1000000000 - 150)
serve-window_example =
    serve-window (200 ∷ 333333434 ∷ 400000000 ∷ []) empty_bucket 150 1000000000 (omega arith)
      (omega arith)

abbrev rule_of : List ℕ → Bool → ℕ → Rule
rule_of name is_default ref = record {
  tr_name = name;
  tr_rpc_rate = 10;
  tr_nsecs = 100000000;
  tr_depth = 3;
  stopping = false;
  is_default = is_default;
  tr_ref = ref;
  tr_generation = 0;
}

abbrev user : Client
user = record {
  tc_key = 7;
  tc_ref = 1;
  tc_rule = some 1;
  tc_rule_generation = 0;
  tc_rule_sequence = 1;
  bucket = empty_bucket;
}

-- The default rule 0, and the rule 1 with the name "ab" that the one client follows.
abbrev two_rules : Head
two_rules = record {
  th_list = 1 ∷ 0 ∷ [];
  th_rule = some 0;
  th_rule_sequence = 2;
  rule_at = λ j.
      if j == 0
      then rule_of default_rule true 1
      else if j == 1
      then rule_of (97 ∷ 98 ∷ []) false 2
      else rule_of [] false 0;
  next_rule = 2;
  clients = user ∷ [];
}

two_rules-Sound : Sound none_held two_rules
two_rules-Sound = record {
  refs = record { counted = λ j. ground arith };
  once = λ j. ground arith;
  running = λ j l. ground arith;
  fresh = λ j le. ground arith;
  default_id = 0;
  has_default = refl;
  default_name = refl;
  default_listed = omega arith;
}

abbrev command : List ℕ → RuleCmd
command name = record { tc_name = name; tc_rpc_rate = 20; as_default = false }

-- Another thread counts a change of the rules.
abbrev counts_change : Head → Head
counts_change h = record h { th_rule_sequence = h.th_rule_sequence + 1 }

counts_change-KeepsTable : KeepsTable counts_change
counts_change-KeepsTable = record {
  keeps = λ h id v off runs. (
    record {
      refs = record { counted = v.refs.counted };
      once = v.once;
      running = v.running;
      fresh = v.fresh;
      default_id = v.default_id;
      has_default = v.has_default;
      default_name = v.default_name;
      default_listed = v.default_listed;
    },
    off,
    runs,
  );
}

nrs_tbf_rule_start-Sound_example :
    Returns (nrs_tbf_rule_start counts_change true (pos 0) 3 two_rules (command (99 ∷ [])))
nrs_tbf_rule_start-Sound_example =
    nrs_tbf_rule_start-Sound counts_change true (pos 0) 3 two_rules (command (99 ∷ []))
      counts_change-KeepsTable two_rules-Sound (omega arith) (omega arith) refl

-- No rule but the default one takes the client, which moves to it.
refresh_client-Sound_example :
    Settles 0 (refresh_client (λ (r : Rule) (c : Client). r.is_default) two_rules 0 user 500)
refresh_client-Sound_example =
    refresh_client-Sound (λ (r : Rule) (c : Client). r.is_default) two_rules 0 500 1 user
      two_rules-Sound refl refl

abbrev is_digit : ℕ → Bool
is_digit c = ltb 47 c && ltb c 58

-- The number at the start of a text.
abbrev number_at : ℕ → List ℕ → ℕ
number_at n [] = n
number_at n (c ∷ s) = let rest = number_at (10 * n + (c - 48)) s in if is_digit c then rest else n

-- Every text in braces is a list of jobs.
abbrev kernel : Kernel
kernel = record {
  isalnum = λ c. is_digit c || ltb 96 c && ltb c 123;
  isdigit = is_digit;
  strtoull = number_at 0;
  jobid_parse = λ s. true;
  nid_parse = λ s. false;
}

-- "start ab {j} 20"
abbrev start_text : List ℕ
start_text = 115 ∷ 116 ∷ 97 ∷ 114 ∷ 116 ∷ 32 ∷ 97 ∷ 98 ∷ 32 ∷ 123 ∷ 106 ∷ 125 ∷ 32 ∷ 50 ∷ 48 ∷ []

start_parsed :
    nrs_tbf_parse_cmd kernel (pos 10000) (pos 1000) true start_text
    ≡ parsed (record {
      tc_cmd = start_rule;
      tc_name = 97 ∷ 98 ∷ [];
      tc_rpc_rate = 20;
      tc_valid_types = record { jobid = true; nid = false };
      tc_tw_interval = 0;
    })
unfolding nrs_tbf_parse_cmd strsep parse_named parse_ids nrs_tbf_id_parse parse_rate
start_parsed = refl

nrs_tbf_parse_cmd-Accepts_example :
    Accepts kernel (nrs_tbf_parse_cmd kernel (pos 10000) (pos 1000) true start_text)
nrs_tbf_parse_cmd-Accepts_example =
    nrs_tbf_parse_cmd-Accepts kernel 10000 1000 (omega arith) (omega arith) (omega arith)
      (omega arith) true start_text

abbrev by_job : TbfPolicy
by_job = record {
  head = two_rules;
  th_type_flag = record { jobid = true; nid = false };
  tw_interval = pos 1000;
  by_window = false;
}

start_fits : NameFits (nrs_tbf_parse_cmd kernel (pos 10000) (pos 1000) true start_text)
start_fits = rw start_parsed (omega arith)

nrs_tbf_command-Obeys_example : Obeys (
    carry_out counts_change true
      (pos 0)
      3
      by_job
      (nrs_tbf_parse_cmd kernel (pos 10000) (pos 1000) true start_text))
nrs_tbf_command-Obeys_example =
    nrs_tbf_command-Obeys kernel counts_change 10000 1000 true (pos 0) 3 by_job start_text
      counts_change-KeepsTable (omega arith) (omega arith) (omega arith) (omega arith)
      two_rules-Sound start_fits

abbrev sent : ℕ → ℕ → Request
sent rq_nrq rq_sent = record {
  rq_nrq = rq_nrq;
  rq_sent = rq_sent;
  nid = 4;
  pid = rq_nrq;
  st_sequence = 0;
}

-- The difference of the strings' first bytes that differ.
abbrev strcmp : List ℕ → List ℕ → ℤ
strcmp [] [] = pos 0
strcmp [] (c ∷ s) = negsuc c
strcmp (c ∷ s) [] = pos (suc c)
strcmp (c ∷ s) (d ∷ t) = let rest = strcmp s t in if c == d then rest else sub_ℕ c d

strcmp-eq : (s t : List ℕ) → strcmp s t ≡ pos 0 → s ≡ t
strcmp-eq [] [] e = refl
strcmp-eq [] (c ∷ s) e = absurd (ground (arith, e))
strcmp-eq (c ∷ s) [] e = absurd (ground (arith, e))
strcmp-eq (c ∷ s) (d ∷ t) e = ground (arith, e, strcmp-eq s t)

strcmp-IsStrcmp : IsStrcmp strcmp
strcmp-IsStrcmp = record { differs = λ s t ne e. ne (strcmp-eq s t e) }
