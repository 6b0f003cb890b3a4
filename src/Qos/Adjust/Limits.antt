-- ===== src/Qos/Adjust/Limits.antt =====
-- The bounds of what a rule can set.
use lustre_tools.Base.{
  ℕ, ◌/◌, ◌≤◌, ◌≡◌, refl, ◌⊎◌, inl, inr, ℤ, pos, ◌≤ℤ◌, ltb_ℤ, div_ℤ, Timeval, arith, Bool-cases,
  ◌<ℤ◌,
}
use lustre_tools.Qos.Data.{QosRule, QosData}
use lustre_tools.Qos.Adjust.{
  scaled_mrif, clamped_mrif, new_mrif, adjust_mrif, unchanged, may_update,
}

clamped_mrif-pos : (x : ℤ) → (n : ℕ) × (clamped_mrif x ≡ pos n) × (n ≤ 3000)
unfolding clamped_mrif
clamped_mrif-pos (pos n) = elim (Bool-cases (ltb_ℤ (pos 3000) (pos n))) [
  | inl over ↦ (3000, ground arith, omega arith)
  | inr within ↦ (n, ground arith, ground arith)
]
clamped_mrif-pos (ℤ.negsuc n) = (0, ground arith, omega arith)

new_mrif-pos : (n : ℕ) → n ≤ 3000 → (m : ℕ) × (new_mrif (pos n) ≡ pos m) × (1 ≤ m) × (m ≤ 30)
unfolding new_mrif div_ℤ
new_mrif-pos n h = elim (Bool-cases (ltb_ℤ (pos (n / 100)) (pos 1))) [
  | inl small ↦ (1, rw small, omega arith, omega arith)
  | inr big ↦ (n / 100, rw big, ground arith, ground arith)
]

module _ (timeval_sub : Timeval → Timeval → ℤ) where
  -- Whatever the rule says, a rule that is used either leaves the limit alone, or sets a new one from
  -- 1 to 30 with `max_rpc_in_flight100` from 0 to 3000. The second only if the minimal gap between
  -- updates has passed, and more than no time, and the gap then starts anew; in both cases the gap
  -- between requests becomes the rule's `tau`.
  pub adjust_mrif-limits :
      (q : QosData) (now : Timeval) (r : QosRule)
      → let (q', mrif) = adjust_mrif timeval_sub q now r in
        (q'.min_usec_between_rpcs ≡ r.tau)
        × (((mrif ≡ unchanged)
              × (q'.max_rpc_in_flight100 ≡ q.max_rpc_in_flight100)
              × (q'.last_mrif_update_time ≡ q.last_mrif_update_time))
            ⊎ ((n m : ℕ) × (q'.max_rpc_in_flight100 ≡ pos n)
                × (n ≤ 3000)
                × (mrif ≡ pos m)
                × (1 ≤ m)
                × (m ≤ 30)
                × (q'.last_mrif_update_time ≡ now)
                × (pos 0 <ℤ timeval_sub now q.last_mrif_update_time)
                × (q.min_gap_between_updating_mrif ≤ℤ timeval_sub now q.last_mrif_update_time)))
  unfolding adjust_mrif
  adjust_mrif-limits q now r = elim (Bool-cases (may_update timeval_sub q now)) [
    | inr early ↦ rw early (refl, inl (refl, refl, refl))
    | inl due ↦
        let (n, clamped, small) = clamped_mrif-pos (scaled_mrif q.max_rpc_in_flight100 r) in
        let (m, rounded, low, high) = new_mrif-pos n small in
        rw due (
          refl,
          inr (
            n,
            m,
            clamped,
            small,
            rw clamped rounded,
            low,
            high,
            refl,
            ground arith,
            ground arith,
          ),
        )
  ]
