-- ===== src/Nrs/Tbf/Command.antt =====
-- The commands that are written to the policy's file under /proc: `nrs_tbf_parse_cmd` and
-- `nrs_tbf_id_parse`, and `nrs_tbf_command`, which carries them out (source/build/metric/nrs_tbf.c).
-- The kernel's character classes and `simple_strtoull` are parameters, as are the parsers of the lists
-- of jobs and of addresses. A text is a list of bytes without the 0 that ends it.
pub mod Accepts
pub mod Obeys
use lustre_tools.Base.{
  ℕ, suc, ◌%◌, ◌^◌, Bool, true, false, not, ◌&&◌, ◌||◌, List, [], ◌∷◌, Option, none, some, ℤ, pos,
  leb, ◌==◌, if◌then◌else◌, length, einval, enomem, enoent, success, eqb_ℤ, to_u64, to_u32, to_s32,
}
use lustre_tools.Nrs.Tbf.Rules.{Head, same_name}
use lustre_tools.Nrs.Tbf.Table.{RuleCmd, nrs_tbf_rule_start, nrs_tbf_rule_change, nrs_tbf_rule_stop}

pub record Kernel : Type 0 where
  pub isalnum : ℕ → Bool
  pub isdigit : ℕ → Bool
  pub strtoull : List ℕ → ℕ
  -- Whether `nrs_tbf_jobid_parse` and `nrs_tbf_nid_parse` return 0.
  pub jobid_parse : List ℕ → Bool
  pub nid_parse : List ℕ → Bool

-- The codes of `enum nrs_tbf_cmd_type`.
pub data CmdType : Type 0 where
  start_rule : CmdType
  stop_rule : CmdType
  change_rate : CmdType
  start_sscdt : CmdType
  change_tw_interval : CmdType
  stop_sscdt : CmdType

-- `NRS_TBF_FLAG_JOBID` and `NRS_TBF_FLAG_NID`.
pub record Types : Type 0 where
  pub jobid : Bool
  pub nid : Bool

-- `struct nrs_tbf_cmd`, less its lists.
pub record Cmd : Type 0 where
  pub tc_cmd : CmdType
  pub tc_name : List ℕ
  pub tc_rpc_rate : ℕ
  pub tc_valid_types : Types
  pub tc_tw_interval : ℕ

-- What the parser gives: an error code, a command, or a failed LASSERT.
pub data Parsed : Type 0 where
  error : ℤ → Parsed
  parsed : Cmd → Parsed
  fault : Parsed

-- `strsep`: up to the separator, and what is behind it (`none` for NULL).
unfoldable pub strsep : ℕ → List ℕ → List ℕ × Option (List ℕ)
strsep sep [] = ([], none)
strsep sep (c ∷ s) =
    let (token, rest) = strsep sep s in if c == sep then ([], some s) else (c ∷ token, rest)

abbrev pub no_types : Types
no_types = record { jobid = false; nid = false }

-- Behind the '}' there is a blank, or nothing.
abbrev pub skip_blank : List ℕ → Option (Option (List ℕ))
skip_blank [] = some none
skip_blank (c ∷ s) = if c == 32 then some (some s) else none

-- The text between the braces; `none` where there is no opening brace, or nothing behind it.
abbrev pub braced : List ℕ → Option (List ℕ)
braced [] = none
braced (c ∷ []) = none
braced (c ∷ d ∷ s) = if c == 123 then some (d ∷ s) else none

module _ (k : Kernel) where
  -- The types that the text in braces is valid for, and the text behind it.
  unfoldable pub nrs_tbf_id_parse : List ℕ → Option (Types × Option (List ℕ))
  nrs_tbf_id_parse val = elim (strsep 125 val).1 [
    | none ↦ none
    | some behind ↦ elim (braced (strsep 125 val).0) [
      | none ↦ none
      | some token ↦ elim (skip_blank behind) [
        | none ↦ none
        | some rest ↦
            if k.jobid_parse token || k.nid_parse token
            then some (record { jobid = k.jobid_parse token; nid = k.nid_parse token }, rest)
            else none
      ]
    ]
  ]

  abbrev pub starts_with_digit : List ℕ → Bool
  starts_with_digit [] = false
  starts_with_digit (c ∷ s) = k.isdigit c

  abbrev pub is_name : List ℕ → Bool
  is_name [] = true
  is_name (c ∷ s) = (k.isalnum c || c == 95) && is_name s

  -- `LPROCFS_NRS_RATE_MAX`
  abbrev pub rate_max : ℕ
  rate_max = 65535

  -- `tbf_rate` and `tbf_tw_interval`, the module's parameters, are numbers of type int.
  module _ (tbf_rate tbf_tw_interval : ℤ) where
    abbrev pub rule_cmd : CmdType → List ℕ → Types → ℕ → Parsed
    rule_cmd cmd name types rate = parsed (record {
      tc_cmd = cmd;
      tc_name = name;
      tc_rpc_rate = rate;
      tc_valid_types = types;
      tc_tw_interval = 0;
    })

    abbrev pub is_stop : CmdType → Bool
    is_stop cmd = elim cmd [ stop_rule ↦ true | _ ↦ false ]

    -- The last part of the command, the rate.
    unfoldable pub parse_rate : CmdType → List ℕ → Types → Option (List ℕ) → Parsed
    parse_rate cmd name types (some val) =
        if is_stop cmd || not (starts_with_digit val)
        then error einval
        else if k.strtoull val == 0 || leb rate_max (k.strtoull val)
        then error einval
        else rule_cmd cmd name types (k.strtoull val)
    parse_rate change_rate name types none = error einval
    parse_rate cmd name types none = rule_cmd cmd name types (to_u64 tbf_rate)

    abbrev pub window_cmd : CmdType → CmdType
    window_cmd start_rule = start_sscdt
    window_cmd stop_rule = stop_sscdt
    window_cmd cmd = change_tw_interval

    abbrev pub window : CmdType → ℕ → Parsed
    window cmd interval = parsed (record {
      tc_cmd = window_cmd cmd;
      tc_name = [];
      tc_rpc_rate = 0;
      tc_valid_types = no_types;
      tc_tw_interval = interval;
    })

    -- The commands of the window order; the interval is a 32-bit word.
    unfoldable pub parse_window : CmdType → Option (List ℕ) → Parsed
    parse_window cmd none = window cmd (to_u32 tbf_tw_interval)
    parse_window cmd (some val) =
        if not (starts_with_digit val)
        then error einval
        else if k.strtoull val % 2 ^ 32 == 0
        then window cmd (to_u32 tbf_tw_interval)
        else window cmd (k.strtoull val % 2 ^ 32)

    -- A rule that starts has its list of jobs or addresses before the rate.
    unfoldable pub parse_ids : CmdType → List ℕ → Option (List ℕ) → Parsed
    parse_ids start_rule name none = fault
    parse_ids start_rule name (some val) = elim (nrs_tbf_id_parse val) [
      | none ↦ error einval
      | some (types, rest) ↦ parse_rate start_rule name types rest
    ]
    parse_ids cmd name val = parse_rate cmd name no_types val

    -- "sscdt"
    abbrev pub sscdt : List ℕ
    sscdt = 115 ∷ 115 ∷ 99 ∷ 100 ∷ 116 ∷ []

    abbrev pub ends_early : CmdType → Option (List ℕ) → Bool
    ends_early cmd none = not (is_stop cmd)
    ends_early cmd (some val) = false

    -- From the rule's name on.
    unfoldable pub parse_named : CmdType → List ℕ → Parsed
    parse_named cmd val =
        let (token, rest) = strsep 32 val in
        if ends_early cmd rest
        then error einval
        else if same_name token sscdt
        then parse_window cmd rest
        else if not (is_name token)
        then error einval
        else parse_ids cmd token rest

    -- "start", "stop" and "change"
    abbrev pub cmd_of : List ℕ → Option CmdType
    cmd_of word =
        if same_name word (115 ∷ 116 ∷ 97 ∷ 114 ∷ 116 ∷ [])
        then some start_rule
        else if same_name word (115 ∷ 116 ∷ 111 ∷ 112 ∷ [])
        then some stop_rule
        else if same_name word (99 ∷ 104 ∷ 97 ∷ 110 ∷ 103 ∷ 101 ∷ [])
        then some change_rate
        else none

    -- `alloc` says whether the command's memory could be had.
    unfoldable pub nrs_tbf_parse_cmd : Bool → List ℕ → Parsed
    nrs_tbf_parse_cmd false buffer = error enomem
    nrs_tbf_parse_cmd true buffer = elim (strsep 32 buffer).1 [
      | none ↦ error einval
      | some [] ↦ error einval
      | some (c ∷ val) ↦ elim (cmd_of (strsep 32 buffer).0) [
        | none ↦ error einval
        | some cmd ↦ parse_named cmd (c ∷ val)
      ]
    ]

-- The policy: the table of rules, the types that it classifies clients by, and the module's variables
-- for the interval and the order of the heap.
pub record TbfPolicy : Type 0 where
  pub head : Head
  pub th_type_flag : Types
  pub tw_interval : ℤ
  pub by_window : Bool

abbrev pub rule_part : Cmd → RuleCmd
rule_part cmd = record { tc_name = cmd.tc_name; tc_rpc_rate = cmd.tc_rpc_rate; as_default = false }

-- A command on the table of rules, with its code and the policy.
abbrev pub on_head : TbfPolicy → (ℤ → ℤ) → Option (ℤ × Head) → Option (ℤ × TbfPolicy)
on_head p code none = none
on_head p code (some (rc, h)) = some (code rc, record p { head = h })

abbrev pub same_code : ℤ → ℤ
same_code rc = rc

-- The stop of a rule that does not exist is a success.
abbrev pub forgive : ℤ → ℤ
forgive rc = if eqb_ℤ rc enoent then success else rc

abbrev pub set_interval : TbfPolicy → Cmd → Bool → Option (ℤ × TbfPolicy)
set_interval p cmd by_window =
    some
      (success, record p { tw_interval = to_s32 (pos cmd.tc_tw_interval); by_window = by_window })

-- `others`, `alloc`, `init_rc` and `tbf_depth` as in `nrs_tbf_rule_start`.
unfoldable pub nrs_tbf_command :
    (Head → Head) → Bool → ℤ → ℕ → TbfPolicy → Cmd → CmdType → Option (ℤ × TbfPolicy)
nrs_tbf_command others alloc init_rc tbf_depth p cmd start_rule =
    if (cmd.tc_valid_types.jobid && p.th_type_flag.jobid)
      || (cmd.tc_valid_types.nid && p.th_type_flag.nid)
    then on_head p same_code
        (nrs_tbf_rule_start others alloc init_rc tbf_depth p.head (rule_part cmd))
    else some (einval, p)
nrs_tbf_command others alloc init_rc tbf_depth p cmd change_rate =
    on_head p same_code (nrs_tbf_rule_change p.head (rule_part cmd))
nrs_tbf_command others alloc init_rc tbf_depth p cmd stop_rule =
    on_head p forgive (nrs_tbf_rule_stop p.head (rule_part cmd))
nrs_tbf_command others alloc init_rc tbf_depth p cmd start_sscdt = set_interval p cmd true
nrs_tbf_command others alloc init_rc tbf_depth p cmd change_tw_interval =
    set_interval p cmd p.by_window
nrs_tbf_command others alloc init_rc tbf_depth p cmd stop_sscdt = set_interval p cmd false
