-- ===== src/Qos/Ewma.antt =====
-- The moving averages of source/build/metric/metric.h, with `init_time_ewma`
-- (source/build/metric/genops.c) and `time_ewma_add_extlock` (source/build/metric/osc_request.c).
pub mod Average
use lustre_tools.Base.{
  ℕ, ◌+◌, ◌-◌, ◌*◌, ◌/◌, Option, none, some, ℤ, pos, negsuc, pos_part, neg_part, to_u64, add_u64,
  mul_u64, ltb, ltb_ℤ, ◌==◌, if◌then◌else◌, Timeval,
}
use lustre_tools.Qos.Data.{TimeEwma}

unfoldable pub init_time_ewma : TimeEwma
init_time_ewma = record { alpha_inv = 8; ea = 0; last_time = record { tv_sec = 0; tv_usec = 0 } }

-- `none` is a division by zero.
unfoldable pub qos_get_ewma_usec : TimeEwma → Option ℕ
qos_get_ewma_usec ewma = if ewma.alpha_inv == 0 then none else some (ewma.ea / ewma.alpha_inv)

-- Ten minutes, in microseconds.
abbrev pub long_gap : ℕ
long_gap = 10 * 60 * 1000000

-- The absolute value that replaces a negative difference.
abbrev pub magnitude : ℤ → ℕ
magnitude d = pos_part d + neg_part d

-- The new `ea`, from the difference of the times.
unfoldable pub blend : TimeEwma → ℕ → Option ℕ
blend te timediff =
    if ltb long_gap timediff
    then some 0
    else if te.alpha_inv == 0
    then none
    else some (add_u64 (mul_u64 (te.ea / te.alpha_inv) (te.alpha_inv - 1)) timediff)

module _ (timeval_sub : Timeval → Timeval → ℤ) where
  unfoldable pub time_ewma_add_extlock : TimeEwma → Timeval → Option TimeEwma
  unfolding blend
  time_ewma_add_extlock te new_time =
      if te.last_time.tv_sec == 0
      then some (record te { last_time = new_time })
      else elim (blend te (magnitude (timeval_sub new_time te.last_time))) [
        | none ↦ none
        | some ea ↦ some (record te { ea = ea; last_time = new_time })
      ]
