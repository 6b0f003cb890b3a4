-- ===== src/Counter/Peak.antt =====
-- The greatest bandwidth that `lprocfs_calc_bandwidth` keeps in `lc_max`.
use lustre_tools.Base.{ℕ, ◌+◌, ◌^◌, ◌<◌, ◌≡◌, refl, ◌∙◌, ℤ, pos, negsuc, ap, ◌+ℤ◌, to_s64, arith}
use lustre_tools.Counter.Totals.{pos_sum}
use lustre_tools.Counter.{Counter, calc_amount, lc_min_init}

abbrev counted : Counter → ℤ
counted c = to_s64 (c.lc_count +ℤ pos 1)

-- A call after a gap.
calc_amount-gap :
    (c : Counter) (sec last : ℕ) (b : ℤ)
    → c.lc_min ≡ pos last
    → last + 1 < sec
    → sec < 2 ^ 63
    → calc_amount sec c b ≡ record c { lc_count = counted c; lc_min = pos sec; lc_sum = b }
unfolding calc_amount
calc_amount-gap c sec last b e late small =
    let next : to_s64 (c.lc_min +ℤ pos 1) ≡ pos (last + 1) =
      ap (λ x. to_s64 (x +ℤ pos 1)) e ∙ pos_sum last 1 (omega arith) in
    ground (arith, next)

wraps : to_s64 (pos lc_min_init +ℤ pos 1) ≡ negsuc lc_min_init
unfolding to_s64 ◌+ℤ◌
wraps = refl

-- Also the first call of a cleared counter counts as one after a gap: `lc_min + 1` wraps round.
pub calc_amount-first :
    (c : Counter) (sec : ℕ) (b : ℤ)
    → c.lc_min ≡ pos lc_min_init
    → sec + 1 < 2 ^ 63
    → calc_amount sec c b ≡ record c { lc_count = counted c; lc_min = pos sec; lc_sum = b }
unfolding calc_amount
calc_amount-first c sec b e small =
    let next : to_s64 (c.lc_min +ℤ pos 1) ≡ negsuc lc_min_init =
      ap (λ x. to_s64 (x +ℤ pos 1)) e ∙ wraps in
    ground (arith, next)

-- A second with a single call, between gaps of at least a second: its bytes are neither in the maximum
-- nor in the sum of squares afterwards, however large they are.
pub calc_amount-lost_peak :
    (c : Counter) (sec sec' last b b' : ℕ)
    → c.lc_min ≡ pos last
    → last + 1 < sec
    → sec + 1 < sec'
    → sec' < 2 ^ 63
    → let c' = calc_amount sec' (calc_amount sec c (pos b)) (pos b') in
      (c'.lc_max ≡ c.lc_max)
      × (c'.lc_sumsquare ≡ c.lc_sumsquare)
      × (c'.lc_sum ≡ pos b')
      × (c'.lc_min ≡ pos sec')
calc_amount-lost_peak c sec sec' last b b' e late later small =
    let one_call = calc_amount-gap c sec last (pos b) e late (omega arith) in
    let c1 : Counter = record c { lc_count = counted c; lc_min = pos sec; lc_sum = pos b } in
    let next_call = calc_amount-gap c1 sec' sec (pos b') refl later small in
    rw (one_call, next_call) (refl, refl, refl, refl)
