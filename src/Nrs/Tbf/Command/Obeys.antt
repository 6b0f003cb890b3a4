-- ===== src/Nrs/Tbf/Command/Obeys.antt =====
-- `nrs_tbf_command` on what `nrs_tbf_parse_cmd` gives.
use lustre_tools.Base.{
  ℕ, ◌^◌, ◌<◌, ◌≡◌, refl, Bool, ◌&&◌, ◌||◌, List, Option, none, some, ℤ, pos, length, einval,
  success, Bool-cases, inl, inr,
}
use lustre_tools.Nrs.Tbf.Rules.{Head}
use lustre_tools.Nrs.Tbf.Rules.Keep.{Sound, none_held}
use lustre_tools.Nrs.Tbf.Table.Sound.{
  KeepsTable, Returns, nrs_tbf_rule_start-Sound, nrs_tbf_rule_change-Sound, nrs_tbf_rule_stop-Sound,
}
use lustre_tools.Nrs.Tbf.Command.{
  Kernel, CmdType, start_rule, stop_rule, change_rate, start_sscdt, change_tw_interval, stop_sscdt,
  Cmd, Parsed, error, parsed, fault, nrs_tbf_parse_cmd, TbfPolicy, nrs_tbf_command, rule_part,
  on_head, same_code, forgive,
}
use lustre_tools.Nrs.Tbf.Command.Accepts.{IsCommand, Accepts, nrs_tbf_parse_cmd-Accepts}

-- The commands of a text, as the policy carries them out: `none` is a fault of the kernel, and a text
-- that is refused changes nothing.
abbrev pub carry_out : (Head → Head) → Bool → ℤ → ℕ → TbfPolicy → Parsed → Option (ℤ × TbfPolicy)
carry_out others alloc init_rc tbf_depth p (error rc) = some (rc, p)
carry_out others alloc init_rc tbf_depth p (parsed cmd) =
    nrs_tbf_command others alloc init_rc tbf_depth p cmd cmd.tc_cmd
carry_out others alloc init_rc tbf_depth p fault = none

-- The name of a command that starts a rule fits its field.
abbrev pub NameFits : Parsed → Type 0
NameFits (error rc) = Unit
NameFits (parsed cmd) = length cmd.tc_name < 16
NameFits fault = Unit

abbrev pub Obeys : Option (ℤ × TbfPolicy) → Type 0
Obeys o = (rc : ℤ) × (p : TbfPolicy) × (o ≡ some (rc, p)) × Sound none_held p.head

on_head-Obeys :
    (p : TbfPolicy) (code : ℤ → ℤ) (o : Option (ℤ × Head)) → Returns o → Obeys (on_head p code o)
on_head-Obeys p code o (rc, h, e, sound) = (code rc, record p { head = h }, rw e refl, sound)

command-Obeys :
    (k : Kernel) (others : Head → Head) (alloc : Bool) (init_rc : ℤ) (tbf_depth : ℕ) (p : TbfPolicy)
    (cmd : Cmd) (type : CmdType)
    → KeepsTable others
    → Sound none_held p.head
    → IsCommand k cmd type
    → length cmd.tc_name < 16
    → Obeys (nrs_tbf_command others alloc init_rc tbf_depth p cmd type)
unfolding nrs_tbf_command
command-Obeys k others alloc init_rc tbf_depth p cmd start_rule keep v ok fits =
    elim (Bool-cases (
      (cmd.tc_valid_types.jobid && p.th_type_flag.jobid)
      || (cmd.tc_valid_types.nid && p.th_type_flag.nid))) [
        | inr other ↦ (einval, p, rw other refl, v)
        | inl valid ↦
            let (rc, p', e, sound) = on_head-Obeys p same_code _ (
              nrs_tbf_rule_start-Sound others alloc init_rc tbf_depth p.head (rule_part cmd) keep v
                ok.0.1 fits refl) in
            (rc, p', rw valid e, sound)
      ]
command-Obeys k others alloc init_rc tbf_depth p cmd change_rate keep v ok fits =
    on_head-Obeys p same_code _ (nrs_tbf_rule_change-Sound p.head (rule_part cmd) v ok.1)
command-Obeys k others alloc init_rc tbf_depth p cmd stop_rule keep v ok fits =
    on_head-Obeys p forgive _ (nrs_tbf_rule_stop-Sound p.head (rule_part cmd) v)
command-Obeys k others alloc init_rc tbf_depth p cmd start_sscdt keep v ok fits =
    (success, _, refl, v)
command-Obeys k others alloc init_rc tbf_depth p cmd change_tw_interval keep v ok fits =
    (success, _, refl, v)
command-Obeys k others alloc init_rc tbf_depth p cmd stop_sscdt keep v ok fits =
    (success, _, refl, v)

-- Whatever text is written to the policy, parsing it and carrying it out returns and leaves the table
-- of rules sound, if the name in it is shorter than 16 bytes, the module's default rate and default
-- interval are in their ranges, and the other threads keep the table sound while the locks are given up.
pub nrs_tbf_command-Obeys :
    (k : Kernel) (others : Head → Head) (tbf_rate tbf_tw_interval : ℕ) (alloc : Bool) (init_rc : ℤ)
    (tbf_depth : ℕ) (p : TbfPolicy) (buffer : List ℕ)
    → KeepsTable others
    → 0 < tbf_rate
    → tbf_rate < 65535
    → 0 < tbf_tw_interval
    → tbf_tw_interval < 2 ^ 31
    → Sound none_held p.head
    → NameFits (nrs_tbf_parse_cmd k (pos tbf_rate) (pos tbf_tw_interval) alloc buffer)
    → Obeys (
        carry_out others alloc init_rc tbf_depth p
          (nrs_tbf_parse_cmd k (pos tbf_rate) (pos tbf_tw_interval) alloc buffer))
nrs_tbf_command-Obeys k others tbf_rate tbf_tw_interval alloc init_rc tbf_depth p buffer keep rp rl
      ip il v fits =
    go (nrs_tbf_parse_cmd k (pos tbf_rate) (pos tbf_tw_interval) alloc buffer) fits
      (nrs_tbf_parse_cmd-Accepts k tbf_rate tbf_tw_interval rp rl ip il alloc buffer)
  where
    go :
        (r : Parsed)
        → NameFits r
        → Accepts k r
        → Obeys (carry_out others alloc init_rc tbf_depth p r)
    go (error rc) fits a = (rc, p, refl, v)
    go (parsed cmd) fits a =
        command-Obeys k others alloc init_rc tbf_depth p cmd cmd.tc_cmd keep v a fits
    go fault fits a = absurd a
