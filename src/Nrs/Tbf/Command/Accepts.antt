-- ===== src/Nrs/Tbf/Command/Accepts.antt =====
-- The commands that `nrs_tbf_parse_cmd` gives.
use lustre_tools.Base.{
  ℕ, ◌%◌, ◌^◌, ◌<◌, ◌≡◌, refl, Bool, true, false, not, ◌||◌, List, [], ◌∷◌, Option, none, some, pos,
  leb, ◌==◌, einval, enomem, to_u64, to_u32, Bool-cases, Option-cases, inl, inr, ◌⊎◌, arith,
}
use lustre_tools.Nrs.Tbf.Rules.{same_name}
use lustre_tools.Nrs.Tbf.Command.{
  Kernel, CmdType, start_rule, stop_rule, change_rate, start_sscdt, change_tw_interval, stop_sscdt,
  Types, Cmd, Parsed, error, parsed, fault, strsep, nrs_tbf_id_parse, is_name, parse_rate,
  parse_window, parse_ids, parse_named, nrs_tbf_parse_cmd, cmd_of, no_types, ends_early, is_stop,
  sscdt, starts_with_digit, rule_cmd, window,
}

-- The fields that each command needs: a rule has a name of letters, digits and `_` and a rate below
-- 65535 that is not 0, and to start it a list of jobs or of addresses; the window has an interval.
abbrev pub IsRule : Kernel → Cmd → Type 0
IsRule k cmd = (is_name k cmd.tc_name ≡ true) × (0 < cmd.tc_rpc_rate) × (cmd.tc_rpc_rate < 65535)

abbrev pub IsCommand : Kernel → Cmd → CmdType → Type 0
IsCommand k cmd start_rule =
    IsRule k cmd × ((cmd.tc_valid_types.jobid || cmd.tc_valid_types.nid) ≡ true)
IsCommand k cmd change_rate = IsRule k cmd
IsCommand k cmd stop_rule = IsRule k cmd
IsCommand k cmd start_sscdt = 0 < cmd.tc_tw_interval
IsCommand k cmd change_tw_interval = 0 < cmd.tc_tw_interval
IsCommand k cmd stop_sscdt = 0 < cmd.tc_tw_interval

-- An error code, or a command with its fields.
abbrev pub Accepts : Kernel → Parsed → Type 0
Accepts k (error rc) = (rc ≡ einval) ⊎ (rc ≡ enomem)
Accepts k (parsed cmd) = IsCommand k cmd cmd.tc_cmd
Accepts k fault = ⊥

-- The commands that the text's first word can name.
abbrev pub IsWord : CmdType → Type 0
IsWord start_rule = Unit
IsWord stop_rule = Unit
IsWord change_rate = Unit
IsWord cmd = ⊥

module _ (k : Kernel) (tbf_rate tbf_tw_interval : ℕ) (rate_pos : 0 < tbf_rate)
    (rate_low : tbf_rate < 65535) (interval_pos : 0 < tbf_tw_interval)
    (interval_low : tbf_tw_interval < 2 ^ 31) where
  id_parse-types :
      (val : List ℕ) (types : Types) (rest : Option (List ℕ))
      → nrs_tbf_id_parse k val ≡ some (types, rest)
      → (types.jobid || types.nid) ≡ true
  unfolding nrs_tbf_id_parse
  id_parse-types val types rest e = ground arith

  -- The types that a command of a rule needs.
  abbrev TypesFit : CmdType → Types → Type 0
  TypesFit start_rule types = (types.jobid || types.nid) ≡ true
  TypesFit stop_rule types = Unit
  TypesFit change_rate types = Unit
  TypesFit cmd types = ⊥

  rule_cmd-Accepts :
      (cmd : CmdType) (name : List ℕ) (types : Types) (rate : ℕ)
      → is_name k name ≡ true
      → TypesFit cmd types
      → 0 < rate
      → rate < 65535
      → Accepts k (rule_cmd k (pos tbf_rate) (pos tbf_tw_interval) cmd name types rate)
  rule_cmd-Accepts start_rule name types rate named fit low high = ((named, low, high), fit)
  rule_cmd-Accepts stop_rule name types rate named fit low high = (named, low, high)
  rule_cmd-Accepts change_rate name types rate named fit low high = (named, low, high)
  rule_cmd-Accepts start_sscdt name types rate named fit low high = absurd fit
  rule_cmd-Accepts change_tw_interval name types rate named fit low high = absurd fit
  rule_cmd-Accepts stop_sscdt name types rate named fit low high = absurd fit

  default_rate : to_u64 (pos tbf_rate) ≡ tbf_rate
  unfolding to_u64
  default_rate = omega arith

  parse_rate-Accepts :
      (cmd : CmdType) (name : List ℕ) (types : Types) (val : Option (List ℕ))
      → is_name k name ≡ true
      → TypesFit cmd types
      → Accepts k (parse_rate k (pos tbf_rate) (pos tbf_tw_interval) cmd name types val)
  unfolding parse_rate
  parse_rate-Accepts cmd name types (some val) named fit =
      elim (Bool-cases
        (is_stop k (pos tbf_rate) (pos tbf_tw_interval) cmd || not (starts_with_digit k val))) [
          | inl bad ↦ rw bad (inl refl)
          | inr good ↦ elim (Bool-cases (k.strtoull val == 0 || leb 65535 (k.strtoull val))) [
            | inl bad ↦ rw (good, bad) (inl refl)
            | inr rate ↦
                rw (good, rate)
                  (rule_cmd-Accepts cmd name types (k.strtoull val) named fit (ground arith)
                    (ground arith))
          ]
        ]
  parse_rate-Accepts change_rate name types none named fit = inl refl
  parse_rate-Accepts start_rule name types none named fit =
      rw default_rate (rule_cmd-Accepts start_rule name types tbf_rate named fit rate_pos rate_low)
  parse_rate-Accepts stop_rule name types none named fit =
      rw default_rate (rule_cmd-Accepts stop_rule name types tbf_rate named fit rate_pos rate_low)
  parse_rate-Accepts start_sscdt name types none named fit = absurd fit
  parse_rate-Accepts change_tw_interval name types none named fit = absurd fit
  parse_rate-Accepts stop_sscdt name types none named fit = absurd fit

  window-Accepts :
      (cmd : CmdType) (interval : ℕ)
      → 0 < interval
      → Accepts k (window k (pos tbf_rate) (pos tbf_tw_interval) cmd interval)
  window-Accepts start_rule interval some_interval = some_interval
  window-Accepts stop_rule interval some_interval = some_interval
  window-Accepts change_rate interval some_interval = some_interval
  window-Accepts start_sscdt interval some_interval = some_interval
  window-Accepts change_tw_interval interval some_interval = some_interval
  window-Accepts stop_sscdt interval some_interval = some_interval

  default_interval : to_u32 (pos tbf_tw_interval) ≡ tbf_tw_interval
  unfolding to_u32
  default_interval = omega arith

  parse_window-Accepts :
      (cmd : CmdType) (val : Option (List ℕ))
      → Accepts k (parse_window k (pos tbf_rate) (pos tbf_tw_interval) cmd val)
  unfolding parse_window
  parse_window-Accepts cmd none =
      rw default_interval (window-Accepts cmd tbf_tw_interval interval_pos)
  parse_window-Accepts cmd (some val) = elim (Bool-cases (not (starts_with_digit k val))) [
    | inl bad ↦ rw bad (inl refl)
    | inr good ↦ elim (Bool-cases (k.strtoull val % 2 ^ 32 == 0)) [
      | inl none_given ↦
          rw (good, none_given, default_interval) (window-Accepts cmd tbf_tw_interval interval_pos)
      | inr given ↦ rw (good, given) (window-Accepts cmd (k.strtoull val % 2 ^ 32) (ground arith))
    ]
  ]

  parse_ids-Accepts :
      (cmd : CmdType) (name : List ℕ) (val : Option (List ℕ))
      → is_name k name ≡ true
      → IsWord cmd
      → ends_early k (pos tbf_rate) (pos tbf_tw_interval) cmd val ≡ false
      → Accepts k (parse_ids k (pos tbf_rate) (pos tbf_tw_interval) cmd name val)
  unfolding parse_ids
  parse_ids-Accepts start_rule name none named word whole = absurd (ground (arith, whole))
  parse_ids-Accepts start_rule name (some val) named word whole =
      elim (Option-cases (nrs_tbf_id_parse k val)) [
        | inl bad ↦ rw (parse_ids, bad) (inl refl)
        | inr ((types, rest), ids) ↦
            rw (parse_ids, ids)
              (parse_rate-Accepts start_rule name types rest named
                (id_parse-types val types rest ids))
      ]
  parse_ids-Accepts stop_rule name val named word whole =
      parse_rate-Accepts stop_rule name no_types val named tt
  parse_ids-Accepts change_rate name val named word whole =
      parse_rate-Accepts change_rate name no_types val named tt
  parse_ids-Accepts start_sscdt name val named word whole = absurd word
  parse_ids-Accepts change_tw_interval name val named word whole = absurd word
  parse_ids-Accepts stop_sscdt name val named word whole = absurd word

  parse_named-Accepts :
      (cmd : CmdType) (val : List ℕ)
      → IsWord cmd
      → Accepts k (parse_named k (pos tbf_rate) (pos tbf_tw_interval) cmd val)
  unfolding parse_named
  parse_named-Accepts cmd val word =
      let token = (strsep 32 val).0 in
      let rest = (strsep 32 val).1 in
      elim (Bool-cases (ends_early k (pos tbf_rate) (pos tbf_tw_interval) cmd rest)) [
        | inl early ↦ rw early (inl refl)
        | inr whole ↦
            elim (Bool-cases (same_name token (sscdt k (pos tbf_rate) (pos tbf_tw_interval)))) [
              | inl by_window ↦ rw (whole, by_window) (parse_window-Accepts cmd rest)
              | inr rule ↦ elim (Bool-cases (not (is_name k token))) [
                | inl bad ↦ rw (whole, rule, bad) (inl refl)
                | inr good ↦
                    rw (whole, rule, good)
                      (parse_ids-Accepts cmd token rest (ground (arith, good)) word whole)
              ]
            ]
      ]

  cmd_of-IsWord :
      (word : List ℕ) (cmd : CmdType)
      → cmd_of k (pos tbf_rate) (pos tbf_tw_interval) word ≡ some cmd
      → IsWord cmd
  cmd_of-IsWord word start_rule e = tt
  cmd_of-IsWord word stop_rule e = tt
  cmd_of-IsWord word change_rate e = tt
  cmd_of-IsWord word start_sscdt e = absurd (ground (arith, e))
  cmd_of-IsWord word change_tw_interval e = absurd (ground (arith, e))
  cmd_of-IsWord word stop_sscdt e = absurd (ground (arith, e))

  -- Any text gives -EINVAL, -ENOMEM or a command with the fields it needs; no assertion fails. The
  -- module's default rate and default interval have to be in their ranges.
  pub nrs_tbf_parse_cmd-Accepts :
      (alloc : Bool) (buffer : List ℕ)
      → Accepts k (nrs_tbf_parse_cmd k (pos tbf_rate) (pos tbf_tw_interval) alloc buffer)
  unfolding nrs_tbf_parse_cmd
  nrs_tbf_parse_cmd-Accepts false buffer = inr refl
  nrs_tbf_parse_cmd-Accepts true buffer = go (strsep 32 buffer).1 refl
    where
      go :
          (rest : Option (List ℕ))
          → (strsep 32 buffer).1 ≡ rest
          → Accepts k (nrs_tbf_parse_cmd k (pos tbf_rate) (pos tbf_tw_interval) true buffer)
      go none e = rw (nrs_tbf_parse_cmd, e) (inl refl)
      go (some []) e = rw (nrs_tbf_parse_cmd, e) (inl refl)
      go (some (c ∷ val)) e =
          elim (Option-cases (cmd_of k (pos tbf_rate) (pos tbf_tw_interval) (strsep 32 buffer).0)) [
            | inl bad ↦ rw (nrs_tbf_parse_cmd, e, bad) (inl refl)
            | inr (cmd, word) ↦
                rw (nrs_tbf_parse_cmd, e, word)
                  (parse_named-Accepts cmd (c ∷ val) (cmd_of-IsWord (strsep 32 buffer).0 cmd word))
          ]
