-- ===== src/Qos/Rules/Rate.antt =====
-- The rate of the rules is stored as its gap, 1000000 / rate, and printed as 1000000 / gap.
use native.Mathlib.Nat.{le-div_iff_mul-le, div-lt_iff_lt-mul, mul-div-le, mul-le-mul_left, le_trans}
use lustre_tools.Base.{ℕ, ◌+◌, ◌/◌, ◌≤◌, ◌<◌, ◌≡◌, refl, arith}

pub quotient_pos : (n x : ℕ) → 0 < x → x ≤ n → 0 < n / x
quotient_pos n x p h = (le-div_iff_mul-le {k = x} {x = 1} {y = n} p).1 (omega arith)

quotient_below : (n x m y : ℕ) → 0 < x → n / x ≡ m → x ≤ y → 0 < y → n / y < m + 1
quotient_below n x m y p e h q = (div-lt_iff_lt-mul {k = y} {x = n} {y = m + 1} q).1 (
    le_trans ((div-lt_iff_lt-mul {k = x} {x = n} {y = m + 1} p).0 (omega arith))
      (mul-le-mul_left (m + 1) h))

-- Dividing by the quotient of a quotient gives the quotient again.
pub gap_again : (n x : ℕ) → 0 < x → x ≤ n → n / (n / (n / x)) ≡ n / x
gap_again n x p h =
    let m = n / x in
    let m_pos : 0 < m = quotient_pos n x p h in
    let up : x ≤ n / m = (le-div_iff_mul-le {k = m} {x = x} {y = n} m_pos).1 (mul-div-le n x) in
    let above : m ≤ n / (n / m) =
      (le-div_iff_mul-le {k = n / m} {x = m} {y = n} (omega arith)).1 (mul-div-le n m) in
    omega (arith, quotient_below n x m (n / m) p refl up (omega arith), above)
