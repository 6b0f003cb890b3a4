-- ===== src/Qos/Rules/Outcome.antt =====
-- What `parse_qos_rules` leaves behind, on every branch.
use lustre_tools.Base.{
  ℕ, zero, suc, ◌^◌, ◌≤◌, ◌<◌, ◌≡◌, ◌≢◌, refl, ◌⊎◌, inl, inr, ◌||◌, Bool, true, false, List, Option,
  none, some, ℤ, pos, pos_part, neg_part, to_u64, eqb_ℤ, length, drop, success, einval, enomem,
  Bool-cases, Option-cases, arith, mul_u64,
}
use lustre_tools.Qos.Data.{QosRule, QosData}
use lustre_tools.Qos.Rules.{
  Scanner, is_zero_input, skip_line, fill_rules, load_rules, parse_qos_rules, rule_size,
}

-- The array of rules has as many entries as `rule_no` says.
abbrev pub HasRules : ℤ → Option (List QosRule) → Type 0
HasRules n none = Unit
HasRules n (some rs) = (n ≡ pos (length rs)) × (0 < length rs)

-- What the code relies on of `sscanf` and of the allocator: `%d` gives an `int`, and no block of half
-- the address space can be had.
pub record IsPlatform (scan : Scanner) (alloc : ℕ → Bool) : Type 0 where
  pub header_int :
      (p : List ℕ) (n r : ℤ) (k : ℕ)
      → scan.header p ≡ some (n, r, k)
      → (pos_part n < 2 ^ 31) × (neg_part n ≤ 2 ^ 31)
  pub alloc_limit : (size : ℕ) → alloc size ≡ true → size < 2 ^ 63

module _ (scan : Scanner) where
  length-fill_rules :
      (left : ℕ) (p : List ℕ) {rs : List QosRule}
      → fill_rules scan left p ≡ some rs
      → length rs ≡ left
  unfolding fill_rules
  length-fill_rules zero p e = ground arith
  length-fill_rules (suc left) p e = elim (Option-cases (scan.rule p)) [
    | inl stop ↦ ground arith
    | inr ((l, n), line) ↦ elim (Option-cases (fill_rules scan left (skip_line (drop n p)))) [
      | inl stop ↦ ground arith
      | inr (rest, lines) ↦
          let ih : length rest ≡ left = length-fill_rules left (skip_line (drop n p)) lines in
          ground arith
    ]
  ]

  -- Any negative number of rules asks for more memory than there is.
  negative_size :
      (n : ℤ)
      → neg_part n ≤ 2 ^ 31
      → pos_part n ≡ 0
      → n ≢ pos 0
      → 2 ^ 63 ≤ mul_u64 (to_u64 n) rule_size
  unfolding to_u64
  negative_size n b z ne = ground arith

  module _ (alloc : ℕ → Bool) where
    Loaded : ℤ → ℤ × QosData → Type 0
    Loaded n (rc, q') =
        ((rc ≡ success)
          × (rs : List QosRule) × (q'.rules ≡ some rs)
          × (q'.rule_no ≡ pos (length rs))
          × (n ≡ pos (length rs)))
        ⊎ ((rc ≡ einval) × (q'.rules ≡ none) × (q'.rule_no ≡ pos 0))
        ⊎ ((rc ≡ enomem) × (q'.rules ≡ none) × (q'.rule_no ≡ n))

    load_rules-Loaded :
        (p : List ℕ) (n r : ℤ) (q : QosData)
        → IsPlatform scan alloc
        → neg_part n ≤ 2 ^ 31
        → n ≢ pos 0
        → Loaded n (load_rules scan alloc p n r q)
    unfolding load_rules Loaded
    load_rules-Loaded p n r q pl down ne =
        elim (Bool-cases (alloc (mul_u64 (to_u64 n) rule_size))) [
          | inr refused ↦ rw refused (inr (inr (refl, refl, refl)))
          | inl got ↦ elim (Option-cases (fill_rules scan (pos_part n) p)) [
            | inl stop ↦ rw (got, stop) (inr (inl (refl, refl, refl)))
            | inr (rs, lines) ↦
                let size = length-fill_rules (pos_part n) p lines in
                let whole : n ≡ pos (length rs) =
                  ground (arith, pl.alloc_limit _ got, negative_size n down, size) in
                rw (got, lines) (inl (refl, rs, refl, whole, whole))
          ]
        ]

    -- What a call may leave: its code and the data after it.
    abbrev pub Outcome : QosData → ℤ × QosData → Type 0
    Outcome q r =
        ((r.0 ≡ success) × (r.1.rules ≡ none) × (r.1.rule_no ≡ pos 0))
        ⊎ ((r.0 ≡ success)
            × (rs : List QosRule) × (r.1.rules ≡ some rs)
            × (r.1.rule_no ≡ pos (length rs))
            × (0 < length rs))
        ⊎ ((r.0 ≡ einval) × (r.1.rules ≡ none) × (r.1.rule_no ≡ pos 0))
        ⊎ ((r.0 ≡ einval) × (r.1 ≡ q))
        ⊎ ((r.0 ≡ enomem) × (r.1.rules ≡ none) × (r.1.rule_no ≢ pos 0))

    load_rules-Outcome :
        (p : List ℕ) (n r : ℤ) (q : QosData)
        → IsPlatform scan alloc
        → neg_part n ≤ 2 ^ 31
        → n ≢ pos 0
        → Outcome q (load_rules scan alloc p n r q)
    unfolding Loaded
    load_rules-Outcome p n r q pl down ne = elim (load_rules-Loaded p n r q pl down ne) [
      | inl (rc, rs, some_rules, count, whole) ↦ inr (inl (rc, rs, some_rules, count, ground arith))
      | inr (inl (rc, gone, zero_no)) ↦ inr (inr (inl (rc, gone, zero_no)))
      | inr (inr (rc, gone, count)) ↦ inr (inr (inr (inr (rc, gone, rw count ne))))
    ]

    -- Every call ends in one of five ways: success with no rules and `rule_no` 0; success with an
    -- array of exactly `rule_no` rules, at least one; -EINVAL with no rules and `rule_no` 0; -EINVAL
    -- with the data untouched, the old rules included; -ENOMEM with no rules, and a `rule_no` that
    -- is not 0.
    pub parse_qos_rules-Outcome :
        (buf : List ℕ) (q : QosData)
        → IsPlatform scan alloc
        → Outcome q (parse_qos_rules scan alloc buf q)
    unfolding parse_qos_rules
    parse_qos_rules-Outcome buf q pl = elim (Bool-cases (is_zero_input buf)) [
      | inl off ↦ rw off (inl (refl, refl, refl))
      | inr on ↦ elim (Option-cases (scan.header buf)) [
        | inl bad ↦ rw (on, bad) (inr (inr (inr (inl (refl, refl)))))
        | inr ((n, r, k), head) ↦ elim (Bool-cases (eqb_ℤ n (pos 0) || eqb_ℤ r (pos 0))) [
          | inl off ↦ rw (on, head, off) (inl (refl, refl, refl))
          | inr go ↦
              rw (on, head, go)
                (load_rules-Outcome (drop k buf) n r q pl (pl.header_int buf n r k head).1
                  (ground arith))
        ]
      ]
    ]

    -- A header that `sscanf` cannot read leaves the old rules in force, whatever they are, although
    -- the call reports an error.
    pub parse_qos_rules-keeps_rules :
        (buf : List ℕ) (q : QosData)
        → is_zero_input buf ≡ false
        → scan.header buf ≡ none
        → parse_qos_rules scan alloc buf q ≡ (einval, q)
    unfolding parse_qos_rules
    parse_qos_rules-keeps_rules buf q on bad = rw (on, bad)
