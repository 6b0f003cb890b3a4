-- ===== src/Nrs/Tbf/Table.antt =====
-- The commands on the table of rules (`nrs_tbf_rule_start`, `_change`, `_stop`) and the lookup of a
-- request's client (`nrs_tbf_res_get`), in source/build/metric/nrs_tbf.c.
pub mod Sound
pub mod Refresh
use lustre_tools.Base.{
  ◌>>=◌, ◌>>◌, update, ℕ, suc, ◌+◌, ◌-◌, ◌/◌, ◌%◌, ◌^◌, Bool, true, false, not, ◌||◌, List, [], ◌∷◌,
  ◌++◌, Option, none, some, ℤ, pos, negsuc, ◌==◌, if◌then◌else◌, leb, length, get_elem?, set, eperm,
  enoent, eexist, enomem, success, eqb_ℤ,
}
use lustre_tools.Nrs.Tbf.Bucket.{Bucket, nsec_per_sec}
use lustre_tools.Nrs.Tbf.Rules.{
  Rule, Client, Head, default_rule, same_name, nrs_tbf_rule_put, nrs_tbf_rule_get,
  nrs_tbf_rule_find, nrs_tbf_rule_match, nrs_tbf_cli_reset, nrs_tbf_cli_reset_value,
  nrs_tbf_cli_rule_put, set_client, set_ref,
}

-- What a command says of a rule: the fields of `struct nrs_tbf_cmd` that the functions below read.
pub record RuleCmd : Type 0 where
  pub tc_name : List ℕ
  pub tc_rpc_rate : ℕ
  pub as_default : Bool

-- `MAX_TBF_NAME`, with the byte that ends the name.
abbrev pub max_tbf_name : ℕ
max_tbf_name = 16

abbrev pub remove_rule : ℕ → List ℕ → List ℕ
remove_rule id [] = []
remove_rule id (r ∷ rs) = if r == id then rs else r ∷ remove_rule id rs

abbrev pub new_rule : ℕ → RuleCmd → Rule
new_rule tbf_depth start = record {
  tr_name = start.tc_name;
  tr_rpc_rate = start.tc_rpc_rate;
  tr_nsecs = nsec_per_sec / start.tc_rpc_rate;
  tr_depth = tbf_depth;
  stopping = false;
  is_default = start.as_default;
  tr_ref = 1;
  tr_generation = 0;
}

abbrev pub with_rule : Head → ℕ → Head
with_rule h id = record h {
  th_list = id ∷ h.th_list;
  th_rule_sequence = (h.th_rule_sequence + 1) % 2 ^ 32;
}

-- The rule goes to the front of the list; a default rule becomes the policy's.
unfoldable pub add_rule : Head → ℕ → Bool → Option (ℤ × Head)
add_rule h id as_default =
    if as_default
    then elim h.th_rule [
      | some old ↦ none
      | none ↦ some (success, record (with_rule h id) { th_rule = some id })
    ]
    else some (success, with_rule h id)

-- `alloc` says whether the rule's memory could be had, and `init_rc` is what `o_rule_init` returns.
-- A name that does not fit its field is written past the field's end. `others` is what other threads do
-- to the table from the first lookup to the second, while the locks are given up.
unfoldable pub nrs_tbf_rule_start :
    (Head → Head) → Bool → ℤ → ℕ → Head → RuleCmd → Option (ℤ × Head)
unfolding add_rule
nrs_tbf_rule_start others alloc init_rc tbf_depth h start = do
  (h1, found) ← nrs_tbf_rule_find h start.tc_name
  elim found [
    | some id ↦ nrs_tbf_rule_put h1 id >>= λ h2. some (eexist, h2)
    | none ↦
        if not alloc
        then some (enomem, h1)
        else if leb max_tbf_name (length start.tc_name) || start.tc_rpc_rate == 0
        then none
        else if not (eqb_ℤ init_rc (pos 0))
        then some (init_rc, h1)
        else (do
          let id = h1.next_rule
          let h2 : Head = record h1 {
            rule_at = update h1.rule_at id (new_rule tbf_depth start);
            next_rule = suc id;
          }
          (h3, again) ← nrs_tbf_rule_find (others h2) start.tc_name
          elim again [
            | some other ↦ (do
              h4 ← nrs_tbf_rule_put h3 other
              h5 ← nrs_tbf_rule_put h4 id
              some (eexist, h5))
            | none ↦ add_rule h3 id start.as_default
          ])
  ]

abbrev pub change_rate : Head → ℕ → ℕ → Head
change_rate h id rate = record h {
  rule_at = update h.rule_at id (record (h.rule_at id) {
    tr_rpc_rate = rate;
    tr_nsecs = nsec_per_sec / rate;
    tr_generation = ((h.rule_at id).tr_generation + 1) % 2 ^ 64;
  });
}

unfoldable pub nrs_tbf_rule_change : Head → RuleCmd → Option (ℤ × Head)
nrs_tbf_rule_change h change = do
  (h1, found) ← nrs_tbf_rule_find h change.tc_name
  elim found [
    | none ↦ some (enoent, h1)
    | some id ↦
        if change.tc_rpc_rate == 0
        then none
        else nrs_tbf_rule_put (change_rate h1 id change.tc_rpc_rate) id >>= λ h2. some (success, h2)
  ]

abbrev pub unlink_rule : Head → ℕ → Head
unlink_rule h id = record h {
  th_list = remove_rule id h.th_list;
  rule_at = update h.rule_at id (record (h.rule_at id) { stopping = true });
}

unfoldable pub nrs_tbf_rule_stop : Head → RuleCmd → Option (ℤ × Head)
nrs_tbf_rule_stop h stop = if same_name stop.tc_name default_rule then some (eperm, h) else (do
  (h1, found) ← nrs_tbf_rule_find h stop.tc_name
  elim found [
    | none ↦ some (enoent, h1)
    | some id ↦ (do
      h2 ← nrs_tbf_rule_put (unlink_rule h1 id) id
      h3 ← nrs_tbf_rule_put h2 id
      some (success, h3))
  ])

-- The part of `nrs_tbf_res_get` for a client that the hash table has: it follows the newest rule that
-- matches if the rules have changed, and takes over a new rate of its rule.
unfoldable pub refresh_client : (Rule → Client → Bool) → Head → ℕ → Client → ℕ → Option Head
refresh_client o_rule_match h i c now = elim c.tc_rule [
  | none ↦ none
  | some id ↦
      if not (c.tc_rule_sequence == h.th_rule_sequence) || (h.rule_at id).stopping
      then (do
        (h', rule) ← nrs_tbf_rule_match o_rule_match h c
        if rule == id then nrs_tbf_rule_put h' rule else nrs_tbf_cli_reset h' rule i c now)
      else if not (c.tc_rule_generation == (h.rule_at id).tr_generation)
      then some (set_client h i (nrs_tbf_cli_reset_value h id c now))
      else some h
]

-- `nrs_tbf_cli_init` of a new client, whose pointer is the next one.
unfoldable pub nrs_tbf_cli_init : (Rule → Client → Bool) → Head → Client → ℕ → Option Head
nrs_tbf_cli_init o_rule_match h c now = do
  (h', rule) ← nrs_tbf_rule_match o_rule_match h c
  nrs_tbf_cli_reset (record h' { clients = h'.clients ++ c ∷ [] }) rule (length h'.clients) c now
