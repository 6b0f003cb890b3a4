-- ===== src/Nrs/Tbf/Table/Sound.antt =====
-- The commands on the table of rules (`nrs_tbf_rule_start`, `_change`, `_stop`) against the invariant.
use lustre_tools.Base.{
  update, ℕ, suc, ◌+◌, ◌≤◌, ◌<◌, ◌≡◌, ◌≢◌, refl, sym, ap, ◌∙◌, Bool, true, false, List, [], ◌∷◌,
  Option, some, ◌==◌, leb, if◌then◌else◌, arith, Bool-cases, inl, inr, ◌||◌, length, ℤ, pos, eqb_ℤ,
  success, eexist, enoent, enomem, eperm,
}
use lustre_tools.Nrs.Tbf.Rules.{Head, default_rule, listed, users, set_ref, same_name}
use lustre_tools.Nrs.Tbf.Rules.Keep.{Sound, none_held, plus_one, rule_put-Sound, rule_find-Sound}
use lustre_tools.Nrs.Tbf.Table.{
  RuleCmd, max_tbf_name, remove_rule, new_rule, with_rule, add_rule, nrs_tbf_rule_start,
  change_rate, nrs_tbf_rule_change, unlink_rule, nrs_tbf_rule_stop,
}

pub same_name_refl : (s : List ℕ) → same_name s s ≡ true
same_name_refl [] = refl
same_name_refl (c ∷ s) = ground (arith, same_name_refl s)

pub same_name-eq : (s t : List ℕ) → same_name s t ≡ true → s ≡ t
same_name-eq [] [] e = refl
same_name-eq [] (d ∷ t) e = ground (arith, e)
same_name-eq (c ∷ s) [] e = ground (arith, e)
same_name-eq (c ∷ s) (d ∷ t) e = ground (arith, same_name-eq s t)

listed-remove_rule :
    (id j : ℕ) (rs : List ℕ)
    → listed id rs ≤ 1
    → listed j (remove_rule id rs) ≡ (if id == j then 0 else listed j rs)
listed-remove_rule id j [] h = ground arith
listed-remove_rule id j (r ∷ rs) h = ground (arith, listed-remove_rule id j rs)

-- A command returns, and leaves a sound table.
abbrev pub Returns : Option (ℤ × Head) → Type 0
Returns o = (rc : ℤ) × (h' : Head) × (o ≡ some (rc, h')) × Sound none_held h'

change_rate-Sound :
    (h : Head) (id rate : ℕ) (extra : ℕ → ℕ) → Sound extra h → Sound extra (change_rate h id rate)
change_rate-Sound h id rate extra v = record {
  refs = record { counted = λ j. ground (arith, v.refs.counted j) };
  once = v.once;
  running = λ j l. ground (arith, v.running j l);
  fresh = λ j le. ground (arith, v.fresh j le);
  default_id = v.default_id;
  has_default = v.has_default;
  default_name = ground (arith, v.default_name);
  default_listed = v.default_listed;
}

-- A change of a rule's rate, by any name, returns and leaves the table sound, if the rate is not 0.
pub nrs_tbf_rule_change-Sound :
    (h : Head) (change : RuleCmd)
    → Sound none_held h
    → 0 < change.tc_rpc_rate
    → Returns (nrs_tbf_rule_change h change)
unfolding nrs_tbf_rule_change
nrs_tbf_rule_change-Sound h change v rate_pos =
    elim (rule_find-Sound h change.tc_name none_held v) [
      | inl step ↦ (enoent, h, rw step, v)
      | inr (id, n, step, l, named, held) ↦
          let h1 = change_rate (set_ref h id n) id change.tc_rpc_rate in
          let (m, put, sound) = rule_put-Sound h1 id none_held (change_rate-Sound _ id _ _ held) in
          let rate : (change.tc_rpc_rate == 0) ≡ false = ground arith in
          (success, set_ref h1 id m, rw (step, rate, put), sound)
    ]

-- A rule whose name is not "default" is not the default rule.
other_than_default :
    (h : Head) (id : ℕ) (name : List ℕ) (extra : ℕ → ℕ) (v : Sound extra h)
    → same_name (h.rule_at id).tr_name name ≡ true
    → same_name name default_rule ≡ false
    → id ≢ v.default_id
other_than_default h id name extra v named other e =
    let is_default : name ≡ default_rule =
      sym (same_name-eq (h.rule_at id).tr_name name named)
      ∙ ap (λ i. (h.rule_at i).tr_name) e
      ∙ v.default_name in
    let hit : same_name name default_rule ≡ true =
      ap (λ s. same_name s default_rule) is_default ∙ same_name_refl default_rule in
    ground (arith, hit, other)

-- The list gives up its reference to the function.
unlink_rule-Sound :
    (h : Head) (id : ℕ) (extra : ℕ → ℕ) (v : Sound extra h)
    → 0 < listed id h.th_list
    → id ≢ v.default_id
    → Sound (plus_one extra id) (unlink_rule h id)
unlink_rule-Sound h id extra v l ne = record {
  refs = record {
    counted = λ j. ground (arith, v.refs.counted j, listed-remove_rule id j h.th_list, v.once id);
  };
  once = λ j. ground (arith, v.once j, listed-remove_rule id j h.th_list, v.once id);
  running = λ j k. ground (arith, v.running j, listed-remove_rule id j h.th_list, v.once id);
  fresh = λ j le. ground (arith, v.fresh j le);
  default_id = v.default_id;
  has_default = v.has_default;
  default_name = ground (arith, v.default_name);
  default_listed =
      ground (arith, v.default_listed, listed-remove_rule id v.default_id h.th_list, v.once id);
}

-- A stop of a rule, by any name, returns and leaves the table sound; the default rule stays.
pub nrs_tbf_rule_stop-Sound :
    (h : Head) (stop : RuleCmd) → Sound none_held h → Returns (nrs_tbf_rule_stop h stop)
unfolding nrs_tbf_rule_stop
nrs_tbf_rule_stop-Sound h stop v = elim (Bool-cases (same_name stop.tc_name default_rule)) [
  | inl protected ↦ (eperm, h, rw protected, v)
  | inr other ↦ elim (rule_find-Sound h stop.tc_name none_held v) [
    | inl step ↦ (enoent, h, rw (other, step), v)
    | inr (id, n, step, l, named, held) ↦
        let h1 = unlink_rule (set_ref h id n) id in
        let named' : same_name ((set_ref h id n).rule_at id).tr_name stop.tc_name ≡ true =
          ground (arith, named) in
        let ne = other_than_default (set_ref h id n) id stop.tc_name _ held named' other in
        let sound1 : Sound (plus_one (plus_one none_held id) id) h1 =
          unlink_rule-Sound (set_ref h id n) id _ held l ne in
        let (m, put, sound2) = rule_put-Sound h1 id (plus_one none_held id) sound1 in
        let (k, put', sound3) = rule_put-Sound (set_ref h1 id m) id none_held sound2 in
        (success, set_ref (set_ref h1 id m) id k, rw (other, step, put, put'), sound3)
  ]
]

-- The allocator's next rule, as `nrs_tbf_rule_start` fills it.
abbrev allocated : ℕ → Head → RuleCmd → Head
allocated tbf_depth h start = record h {
  rule_at = update h.rule_at h.next_rule (new_rule tbf_depth start);
  next_rule = suc h.next_rule;
}

allocated-Sound :
    (tbf_depth : ℕ) (h : Head) (start : RuleCmd)
    → Sound none_held h
    → Sound (plus_one none_held h.next_rule) (allocated tbf_depth h start)
allocated-Sound tbf_depth h start v =
    let unused : listed h.next_rule h.th_list + users h.next_rule h.clients ≡ 0 =
      ground (arith, v.fresh h.next_rule, v.refs.counted h.next_rule) in
    record {
      refs = record { counted = λ j. ground (arith, v.refs.counted j, unused) };
      once = v.once;
      running = λ j k. ground (arith, v.running j);
      fresh = λ j le. ground (arith, v.fresh j);
      default_id = v.default_id;
      has_default = v.has_default;
      default_name = ground (arith, v.default_name, v.default_listed, unused);
      default_listed = v.default_listed;
    }

-- The function's reference becomes the list's.
add_rule-Sound :
    (h : Head) (id : ℕ) (as_default : Bool)
    → Sound (plus_one none_held id) h
    → listed id h.th_list ≡ 0
    → (h.rule_at id).stopping ≡ false
    → as_default ≡ false
    → Returns (add_rule h id as_default)
unfolding add_rule
add_rule-Sound h id as_default v apart runs ordinary = (
  success,
  with_rule h id,
  rw ordinary refl,
  record {
    refs = record { counted = λ j. ground (arith, v.refs.counted j) };
    once = λ j. ground (arith, v.once j);
    running = λ j k. ground (arith, v.running j);
    fresh = λ j le. v.fresh j le;
    default_id = v.default_id;
    has_default = v.has_default;
    default_name = v.default_name;
    default_listed = ground (arith, v.default_listed);
  },
)

-- What the other threads do while a thread holds a rule that is not on the list: the table stays sound,
-- and that rule stays off the list and is not stopped.
pub record KeepsTable (others : Head → Head) : Type 0 where
  pub keeps :
      (h : Head) (id : ℕ)
      → Sound (plus_one none_held id) h
      → listed id h.th_list ≡ 0
      → (h.rule_at id).stopping ≡ false
      → Sound (plus_one none_held id) (others h)
        × (listed id (others h).th_list ≡ 0)
        × (((others h).rule_at id).stopping ≡ false)

-- A start of a rule that is not a default rule returns and leaves the table sound, whether it is
-- refused, fails or succeeds, also where another thread has added a rule of that name between its two
-- lookups, if the command has a rate and a name that fits its field and the other threads keep the
-- table sound and do not touch the new rule.
pub nrs_tbf_rule_start-Sound :
    (others : Head → Head) (alloc : Bool) (init_rc : ℤ) (tbf_depth : ℕ) (h : Head) (start : RuleCmd)
    → KeepsTable others
    → Sound none_held h
    → 0 < start.tc_rpc_rate
    → length start.tc_name < 16
    → start.as_default ≡ false
    → Returns (nrs_tbf_rule_start others alloc init_rc tbf_depth h start)
unfolding nrs_tbf_rule_start add_rule
nrs_tbf_rule_start-Sound others alloc init_rc tbf_depth h start k v rate_pos fits ordinary =
    elim (rule_find-Sound h start.tc_name none_held v) [
      | inr (id, n, step, l, named, held) ↦
          let (m, put, sound) = rule_put-Sound (set_ref h id n) id none_held held in
          (eexist, _, rw (step, put), sound)
      | inl step ↦ elim (Bool-cases alloc) [
        | inr refused ↦ (enomem, h, rw (step, refused), v)
        | inl got ↦
            let ok : (leb max_tbf_name (length start.tc_name) || start.tc_rpc_rate == 0) ≡ false =
              ground arith in
            elim (Bool-cases (eqb_ℤ init_rc (pos 0))) [
              | inr failed ↦ (init_rc, h, rw (step, got, ok, failed), v)
              | inl inited ↦
                  let id = h.next_rule in
                  let h2 = allocated tbf_depth h start in
                  let apart : listed id h.th_list ≡ 0 =
                    ground (arith, v.fresh id, v.refs.counted id) in
                  let h3 = others h2 in
                  let (sound2, off, runs) =
                    k.keeps h2 id (allocated-Sound tbf_depth h start v) apart (ground arith) in
                  elim (rule_find-Sound h3 start.tc_name (plus_one none_held id) sound2) [
                    | inl again ↦
                        let (rc, h', added, sound) =
                          add_rule-Sound h3 id start.as_default sound2 off runs ordinary in
                        (rc, h', rw (step, got, ok, inited, again) added, sound)
                    | inr (other, n, again, l, named, held) ↦
                        let (m, put, sound3) =
                          rule_put-Sound (set_ref h3 other n) other (plus_one none_held id) held in
                        let (l', put', sound4) =
                          rule_put-Sound (set_ref (set_ref h3 other n) other m) id none_held
                            sound3 in
                        (eexist, _, rw (step, got, ok, inited, again, put, put'), sound4)
                  ]
            ]
      ]
    ]
