-- ===== src/Nrs/Sscdt/Order.antt =====
-- The order of the requests.
use native.Mathlib.Nat.{le-div_iff_mul-le, div-mul-le_self}
use lustre_tools.Base.{
  ℕ, ◌/◌, ◌≤◌, ◌<◌, ◌≡◌, ◌⊎◌, ◌↔◌, inl, inr, Bool, true, false, some, ltb, ◌==◌, arith, Bool-cases,
}
use lustre_tools.Nrs.Sscdt.{Request, time_window, sscdt_req_compare}

-- The request has an earlier window; or the same window and a smaller address; or both the same and a
-- smaller process.
abbrev pub Precedes : ℕ → Request → Request → Type 0
Precedes interval r s =
    (time_window interval r < time_window interval s)
    ⊎ ((time_window interval r ≡ time_window interval s)
        × ((r.nid < s.nid) ⊎ ((r.nid ≡ s.nid) × (r.pid < s.pid))))

div_mono : (k a b : ℕ) → 0 < k → a ≤ b → a / k ≤ b / k
div_mono k a b k_pos le =
    ground (arith, le-div_iff_mul-le {k = k} {x = a / k} {y = b} k_pos, div-mul-le_self a k)

time_window_mono :
    (interval : ℕ) (r s : Request)
    → 0 < interval
    → r.rq_sent ≤ s.rq_sent
    → time_window interval r ≤ time_window interval s
time_window_mono interval r s k_pos le = div_mono interval _ _ k_pos (omega arith)

-- With an interval, the comparison answers, and says that the first request is above the second
-- exactly where it precedes it by window, address and process.
pub sscdt_req_compare-Precedes :
    (interval : ℕ) (r s : Request)
    → 0 < interval
    → (b : Bool) × (sscdt_req_compare interval r s ≡ some b) × ((b ≡ true) ↔ Precedes interval r s)
unfolding sscdt_req_compare
sscdt_req_compare-Precedes interval r s k_pos =
    let up = time_window_mono interval r s k_pos in
    let down = time_window_mono interval s r k_pos in
    elim (Bool-cases (time_window interval r == time_window interval s)) [
      | inr apart ↦ (ltb r.rq_sent s.rq_sent, ground arith, ground (arith, up, down))
      | inl same ↦ elim (Bool-cases (r.nid == s.nid)) [
        | inl peer ↦ (ltb r.pid s.pid, ground arith, ground arith)
        | inr other ↦ (ltb r.nid s.nid, ground arith, ground arith)
      ]
    ]

compare-true :
    (interval : ℕ) (r s : Request)
    → sscdt_req_compare interval r s ≡ some true
    → (0 < interval) × Precedes interval r s
unfolding sscdt_req_compare
compare-true interval r s e = elim (Bool-cases (interval == 0)) [
  | inl zero_interval ↦ absurd (ground arith)
  | inr some_interval ↦
      let k_pos : 0 < interval = ground arith in
      let (b, answer, means) = sscdt_req_compare-Precedes interval r s k_pos in
      (k_pos, ground (arith, e, answer, means))
]

true-compare :
    (interval : ℕ) (r s : Request)
    → 0 < interval
    → Precedes interval r s
    → sscdt_req_compare interval r s ≡ some true
true-compare interval r s k_pos p =
    let (b, answer, means) = sscdt_req_compare-Precedes interval r s k_pos in
    ground (arith, answer, means)

-- The comparison is transitive: if the first request is above the second, and the second above the
-- third, the first is above the third.
pub sscdt_req_compare_trans :
    (interval : ℕ) (r s t : Request)
    → sscdt_req_compare interval r s ≡ some true
    → sscdt_req_compare interval s t ≡ some true
    → sscdt_req_compare interval r t ≡ some true
sscdt_req_compare_trans interval r s t e f =
    let (k_pos, p) = compare-true interval r s e in
    let (_, q) = compare-true interval s t f in true-compare interval r t k_pos (ground arith)

-- With an interval, of two requests exactly one is above the other, unless they agree in window,
-- address and process; then neither is.
pub sscdt_req_compare-tricho :
    (interval : ℕ) (r s : Request)
    → 0 < interval
    → ((sscdt_req_compare interval r s ≡ some true) × (sscdt_req_compare interval s r ≡ some false))
      ⊎ ((sscdt_req_compare interval r s ≡ some false)
          × (sscdt_req_compare interval s r ≡ some true))
      ⊎ ((sscdt_req_compare interval r s ≡ some false)
          × (sscdt_req_compare interval s r ≡ some false)
          × (time_window interval r ≡ time_window interval s)
          × (r.nid ≡ s.nid)
          × (r.pid ≡ s.pid))
sscdt_req_compare-tricho interval r s k_pos =
    let (b, answer, means) = sscdt_req_compare-Precedes interval r s k_pos in
    let (c, back, means_back) = sscdt_req_compare-Precedes interval s r k_pos in
    rw (answer, back) (ground (arith, means, means_back))
