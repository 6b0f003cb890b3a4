-- ===== src/Counter.antt =====
-- The statistics counters: `lprocfs_calc_bandwidth`, `lprocfs_counter_add` and `lprocfs_counter_sub`
-- (source/build/metric/lprocfs_counters.c), and `lprocfs_counter_init`, `lprocfs_clear_stats`,
-- `lprocfs_stats_collect` and `lprocfs_read_helper` (source/build/metric/lprocfs_status.c).
-- `none` is a fault: a failed LASSERT or a NULL pointer.
pub mod Totals
pub mod Peak
pub mod Histogram
pub mod Init
mod Tests
use lustre_tools.Base.{
  ℕ, zero, suc, ◌+◌, ◌-◌, ◌*◌, ◌/◌, ◌%◌, ◌^◌, Bool, true, false, not, ◌&&◌, ◌||◌, List, [], ◌∷◌,
  Option, none, some, ℤ, pos, negsuc, ◌+ℤ◌, ◌-ℤ◌, ◌*ℤ◌, div_ℤ, to_s64, ltb_ℤ, eqb_ℤ, ltb,
  if◌then◌else◌, length, get_elem?, set, map,
}

-- The flags of `lc_config` of `struct lprocfs_counter_header` that the functions test.
pub record Header : Type 0 where
  pub avgminmax : Bool
  pub stddev : Bool

-- `struct lprocfs_counter`, in signed 64-bit words.
pub record Counter : Type 0 where
  pub lc_count : ℤ
  pub lc_min : ℤ
  pub lc_max : ℤ
  pub lc_sumsquare : ℤ
  pub lc_sum : ℤ
  pub lc_sum_irq : ℤ

-- `struct lprocfs_stats`: its flag, the headers, and the counters of each processor that has any.
pub record Stats : Type 0 where
  pub irq_safe : Bool
  pub ls_cnt_header : List Header
  pub ls_percpu : List (Option (List Counter))

-- `LC_MIN_INIT`
abbrev pub lc_min_init : ℕ
lc_min_init = 2 ^ 63 - 1

-- A counter as `lprocfs_counter_init` and `lprocfs_clear_stats` leave it.
unfoldable pub cleared : Bool → Counter → Counter
cleared irq_safe c = record {
  lc_count = pos 0;
  lc_min = pos lc_min_init;
  lc_max = pos 0;
  lc_sumsquare = pos 0;
  lc_sum = pos 0;
  lc_sum_irq = if irq_safe then pos 0 else c.lc_sum_irq;
}

-- The time `tv_sec` and the bytes; `lc_min` holds the second of the last call.
unfoldable pub calc_amount : ℕ → Counter → ℤ → Counter
calc_amount tv_sec c amount =
    let c : Counter = record c { lc_count = to_s64 (c.lc_count +ℤ pos 1) } in
    let sum = to_s64 (c.lc_sum +ℤ amount) in
    let next = to_s64 (c.lc_min +ℤ pos 1) in
    if eqb_ℤ (pos tv_sec) c.lc_min
    then record c { lc_sum = sum; lc_max = if ltb_ℤ c.lc_max sum then sum else c.lc_max }
    else if eqb_ℤ (pos tv_sec) next
    then record c {
      lc_max = if ltb_ℤ c.lc_max c.lc_sum then c.lc_sum else c.lc_max;
      lc_sumsquare = to_s64 (c.lc_sumsquare +ℤ c.lc_sum *ℤ c.lc_sum);
      lc_min = pos tv_sec;
      lc_sum = amount;
    }
    else if ltb_ℤ next (pos tv_sec)
    then record c { lc_min = pos tv_sec; lc_sum = amount }
    else c

unfoldable pub add_amount : Bool → Bool → Header → Counter → ℤ → Counter
add_amount irq_safe in_interrupt h c amount =
    let c : Counter = record c { lc_count = to_s64 (c.lc_count +ℤ pos 1) } in
    if h.avgminmax
    then record {
      lc_count = c.lc_count;
      lc_sum_irq =
          if in_interrupt && irq_safe then to_s64 (c.lc_sum_irq +ℤ amount) else c.lc_sum_irq;
      lc_sum = if in_interrupt && irq_safe then c.lc_sum else to_s64 (c.lc_sum +ℤ amount);
      lc_sumsquare =
          if h.stddev then to_s64 (c.lc_sumsquare +ℤ amount *ℤ amount) else c.lc_sumsquare;
      lc_min = if ltb_ℤ amount c.lc_min then amount else c.lc_min;
      lc_max = if ltb_ℤ c.lc_max amount then amount else c.lc_max;
    }
    else c

unfoldable pub sub_amount : Bool → Bool → Header → Counter → ℤ → Counter
sub_amount irq_safe in_interrupt h c amount =
    if not h.avgminmax
    then c
    else if in_interrupt && irq_safe
    then record c { lc_sum_irq = to_s64 (c.lc_sum_irq -ℤ amount) }
    else record c { lc_sum = to_s64 (c.lc_sum -ℤ amount) }

-- The counter of a processor at an index changes.
unfoldable pub on_counter : Stats → ℕ → ℕ → (Header → Counter → Counter) → Option Stats
on_counter s smp_id idx f = elim (get_elem? s.ls_cnt_header idx) [
  | none ↦ none
  | some h ↦ elim (get_elem? s.ls_percpu smp_id) [
    | none ↦ none
    | some none ↦ none
    | some (some area) ↦ elim (get_elem? area idx) [
      | none ↦ none
      | some c ↦
          some (record s { ls_percpu = set s.ls_percpu smp_id (some (set area idx (f h c))) })
    ]
  ]
]

-- `stats` is `none` for NULL, and `smp_id` what `lprocfs_stats_lock` gives, `none` for a negative one.
abbrev pub with_lock :
    Option Stats → Option ℕ → ℕ → (Stats → Header → Counter → Counter) → Option (Option Stats)
with_lock none smp_id idx f = some none
with_lock (some s) none idx f = if ltb idx (length s.ls_cnt_header) then some (some s) else none
with_lock (some s) (some smp_id) idx f = elim (on_counter s smp_id idx (f s)) [
  | none ↦ none
  | some s' ↦ some (some s')
]

unfoldable pub lprocfs_calc_bandwidth : ℕ → Option Stats → Option ℕ → ℕ → ℤ → Option (Option Stats)
lprocfs_calc_bandwidth tv_sec stats smp_id idx amount =
    with_lock stats smp_id idx (λ s h c. calc_amount tv_sec c amount)

unfoldable pub lprocfs_counter_add : Bool → Option Stats → Option ℕ → ℕ → ℤ → Option (Option Stats)
lprocfs_counter_add in_interrupt stats smp_id idx amount =
    with_lock stats smp_id idx (λ (s : Stats) h c. add_amount s.irq_safe in_interrupt h c amount)

unfoldable pub lprocfs_counter_sub : Bool → Option Stats → Option ℕ → ℕ → ℤ → Option (Option Stats)
lprocfs_counter_sub in_interrupt stats smp_id idx amount =
    with_lock stats smp_id idx (λ (s : Stats) h c. sub_amount s.irq_safe in_interrupt h c amount)

abbrev pub clear_area : Bool → Option (List Counter) → Option (List Counter)
clear_area irq_safe none = none
clear_area irq_safe (some area) = some (map (cleared irq_safe) area)

unfoldable pub lprocfs_clear_stats : Stats → Stats
lprocfs_clear_stats s = record s { ls_percpu = map (clear_area s.irq_safe) s.ls_percpu }

-- The counter at an index is cleared in each processor's area.
abbrev pub init_area : Bool → ℕ → Option (List Counter) → Option (List Counter)
init_area irq_safe index none = none
init_area irq_safe index (some area) =
    some
      (elim (get_elem? area index) [ none ↦ area | some c ↦ set area index (cleared irq_safe c) ])

unfoldable pub lprocfs_counter_init : Option Stats → ℕ → Header → Option Stats
lprocfs_counter_init none index conf = none
lprocfs_counter_init (some s) index conf =
    if ltb index (length s.ls_cnt_header)
    then some (record s {
      ls_cnt_header = set s.ls_cnt_header index conf;
      ls_percpu = map (init_area s.irq_safe index) s.ls_percpu;
    })
    else none

-- `enum lprocfs_fields_flags`, of which `config` is the header's.
pub data Field : Type 0 where
  sum : Field
  min : Field
  max : Field
  avg : Field
  sumsquare : Field
  count : Field

-- `lc` is `none` where the counter or its header is NULL.
unfoldable pub lprocfs_read_helper : Option Counter → Bool → Field → ℤ
lprocfs_read_helper none irq_safe field = pos 0
lprocfs_read_helper (some lc) irq_safe sum =
    if irq_safe then to_s64 (lc.lc_sum +ℤ lc.lc_sum_irq) else lc.lc_sum
lprocfs_read_helper (some lc) irq_safe min = lc.lc_min
lprocfs_read_helper (some lc) irq_safe max = lc.lc_max
lprocfs_read_helper (some lc) irq_safe avg = div_ℤ (to_s64 (lc.lc_max -ℤ lc.lc_min)) (pos 2)
lprocfs_read_helper (some lc) irq_safe sumsquare = lc.lc_sumsquare
lprocfs_read_helper (some lc) irq_safe count = lc.lc_count

-- One processor's counter is added to the result.
unfoldable pub collect_one : Counter → Counter → Counter
collect_one cnt c = record cnt {
  lc_count = to_s64 (cnt.lc_count +ℤ c.lc_count);
  lc_sum = to_s64 (cnt.lc_sum +ℤ c.lc_sum);
  lc_min = if ltb_ℤ c.lc_min cnt.lc_min then c.lc_min else cnt.lc_min;
  lc_max = if ltb_ℤ cnt.lc_max c.lc_max then c.lc_max else cnt.lc_max;
  lc_sumsquare = to_s64 (cnt.lc_sumsquare +ℤ c.lc_sumsquare);
}

-- The counters of an index on the processors that have any; `none` is a read out of bounds.
unfoldable pub collect : ℕ → Counter → List (Option (List Counter)) → Option Counter
collect idx cnt [] = some cnt
collect idx cnt (none ∷ rest) = collect idx cnt rest
collect idx cnt (some area ∷ rest) = elim (get_elem? area idx) [
  | none ↦ none
  | some c ↦ collect idx (collect_one cnt c) rest
]

abbrev pub no_counts : Counter
no_counts = record {
  lc_count = pos 0;
  lc_min = pos 0;
  lc_max = pos 0;
  lc_sumsquare = pos 0;
  lc_sum = pos 0;
  lc_sum_irq = pos 0;
}

unfoldable pub lprocfs_stats_collect : Option Stats → ℕ → Option Counter
lprocfs_stats_collect none idx = some (record no_counts { lc_count = pos 1 })
lprocfs_stats_collect (some s) idx =
    collect idx (record no_counts { lc_min = pos lc_min_init }) s.ls_percpu
