-- ===== src/Counter/Histogram.antt =====
-- `struct obd_histogram` and its functions in source/build/metric/lprocfs_status.c. `fls` is a
-- parameter.
use lustre_tools.Base.{
  ℕ, zero, suc, ◌+◌, ◌-◌, ◌^◌, ◌<◌, ◌≡◌, refl, ap, ◌∙◌, List, [], ◌∷◌, ltb, leb, ◌==◌,
  if◌then◌else◌, length, replicate, add_u64, arith,
}

-- `OBD_HIST_MAX`
abbrev pub obd_hist_max : ℕ
obd_hist_max = 32

-- The bucket at an index counts one more; `oh_buckets` are 64-bit words.
unfoldable pub bump : ℕ → List ℕ → List ℕ
bump i [] = []
bump zero (n ∷ oh) = add_u64 n 1 ∷ oh
bump (suc i) (n ∷ oh) = n ∷ bump i oh

abbrev pub bucket_of : ℕ → ℕ
bucket_of value = if leb obd_hist_max value then obd_hist_max - 1 else value

unfoldable pub lprocfs_oh_tally : List ℕ → ℕ → List ℕ
unfolding bump
lprocfs_oh_tally oh value = bump (bucket_of value) oh

unfoldable pub lprocfs_oh_tally_log2 : (ℕ → ℕ) → List ℕ → ℕ → List ℕ
lprocfs_oh_tally_log2 fls oh value =
    let bits = fls (value - 1) in
    if value == 0
    then lprocfs_oh_tally oh 0
    else lprocfs_oh_tally oh (if ltb bits obd_hist_max then bits else obd_hist_max)

unfoldable pub lprocfs_oh_sum : List ℕ → ℕ
lprocfs_oh_sum [] = 0
lprocfs_oh_sum (n ∷ oh) = add_u64 n (lprocfs_oh_sum oh)

unfoldable pub lprocfs_oh_clear : List ℕ → List ℕ
lprocfs_oh_clear oh = replicate obd_hist_max 0

abbrev pub tally_all : List ℕ → List ℕ → List ℕ
tally_all oh [] = oh
tally_all oh (v ∷ values) = tally_all (lprocfs_oh_tally oh v) values

-- The values of a list that count in a bucket.
abbrev pub in_bucket : ℕ → List ℕ → ℕ
in_bucket i [] = 0
in_bucket i (v ∷ values) = (if bucket_of v == i then 1 else 0) + in_bucket i values

bump-sum :
    (i : ℕ) (oh : List ℕ)
    → i < length oh
    → lprocfs_oh_sum (bump i oh) ≡ add_u64 (lprocfs_oh_sum oh) 1
unfolding bump lprocfs_oh_sum
bump-sum i [] h = absurd (omega arith)
bump-sum zero (n ∷ oh) h = omega arith
bump-sum (suc i) (n ∷ oh) h = omega (arith, bump-sum i oh (omega arith))

length-bump : (i : ℕ) (oh : List ℕ) → length (bump i oh) ≡ length oh
unfolding bump
length-bump i [] = refl
length-bump zero (n ∷ oh) = refl
length-bump (suc i) (n ∷ oh) = ap suc (length-bump i oh)

oh_sum-word : (oh : List ℕ) → lprocfs_oh_sum oh < 2 ^ 64
unfolding lprocfs_oh_sum
oh_sum-word [] = omega arith
oh_sum-word (n ∷ oh) = omega arith

-- After any values, the sum of a histogram of 32 buckets has grown by their number (modulo 2^64): each
-- value counts in some bucket, the large ones in the last.
pub lprocfs_oh_sum-tally_all :
    (values oh : List ℕ)
    → length oh ≡ 32
    → lprocfs_oh_sum (tally_all oh values) ≡ add_u64 (lprocfs_oh_sum oh) (length values)
unfolding lprocfs_oh_tally
lprocfs_oh_sum-tally_all [] oh e = omega (arith, oh_sum-word oh)
lprocfs_oh_sum-tally_all (v ∷ values) oh e =
    let i = bucket_of v in
    let low : i < length oh = ground arith in
    let size : length (bump i oh) ≡ 32 = length-bump i oh ∙ e in
    omega (arith, lprocfs_oh_sum-tally_all values (bump i oh) size, bump-sum i oh low)
