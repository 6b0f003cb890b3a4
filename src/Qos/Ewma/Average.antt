-- ===== src/Qos/Ewma/Average.antt =====
-- `time_ewma_add_extlock` as a weighted average of the gaps.
use Prim.Native.Nat.{min, max}
use native.Mathlib.Decide.{dec_le}
use lustre_tools.Base.{
  ◌⊎◌, ℕ, ◌+◌, ◌*◌, ◌/◌, ◌≤◌, ◌<◌, ◌≡◌, ◌≢◌, refl, some, inl, inr, Bool-cases, ltb, ◌==◌,
  if◌then◌else◌, ℤ, Timeval, arith,
}
use lustre_tools.Qos.Data.{TimeEwma}
use lustre_tools.Qos.Ewma.{
  init_time_ewma, qos_get_ewma_usec, long_gap, magnitude, time_ewma_add_extlock, blend,
}

-- The weight is that of `init_time_ewma`, and the average is at most the longest gap it takes.
pub record IsValid (te : TimeEwma) : Type 0 where
  pub weight : te.alpha_inv ≡ 8
  pub bounded : te.ea ≤ 8 * long_gap

pub init_time_ewma-IsValid : IsValid init_time_ewma
unfolding init_time_ewma
init_time_ewma-IsValid = omega arith

-- The new `ea` of a valid average, with no wrap.
abbrev next_ea : ℕ → ℕ → ℕ
next_ea ea gap = if ltb long_gap gap then 0 else ea / 8 * 7 + gap

next_ea-bounded : (ea gap : ℕ) → ea ≤ 8 * long_gap → next_ea ea gap ≤ 8 * long_gap
next_ea-bounded ea gap h = ground arith

next_ea-between :
    (ea gap : ℕ)
    → gap ≤ long_gap
    → (min (ea / 8) gap ≤ next_ea ea gap / 8) × (next_ea ea gap / 8 ≤ max (ea / 8) gap)
next_ea-between ea gap h = ground arith

next_ea-cases :
    (ea gap : ℕ)
    → ((gap ≤ long_gap)
        × (min (ea / 8) gap ≤ next_ea ea gap / 8)
        × (next_ea ea gap / 8 ≤ max (ea / 8) gap))
      ⊎ ((long_gap < gap) × (next_ea ea gap / 8 ≡ 0))
next_ea-cases ea gap = elim (dec_le gap long_gap) [
  | yes h ↦ inl (h, (next_ea-between ea gap h).0, (next_ea-between ea gap h).1)
  | no h ↦ inr (omega arith, ground arith)
]

blend-next_ea : (te : TimeEwma) (gap : ℕ) → IsValid te → blend te gap ≡ some (next_ea te.ea gap)
unfolding blend
blend-next_ea te gap v = rw v.weight (ground (arith, v.bounded))

pub get_ewma-valid : (te : TimeEwma) → te.alpha_inv ≡ 8 → qos_get_ewma_usec te ≡ some (te.ea / 8)
unfolding qos_get_ewma_usec
get_ewma-valid te e = rw e

module _ (timeval_sub : Timeval → Timeval → ℤ) where
  abbrev gap_of : TimeEwma → Timeval → ℕ
  gap_of te new_time = magnitude (timeval_sub new_time te.last_time)

  -- From a valid average the update never divides by zero, takes over the new time, and gives a
  -- valid average again.
  pub time_ewma_add-IsValid :
      (te : TimeEwma) (new_time : Timeval)
      → IsValid te
      → (te' : TimeEwma) × (time_ewma_add_extlock timeval_sub te new_time ≡ some te')
        × IsValid te'
        × (te'.last_time ≡ new_time)
  unfolding time_ewma_add_extlock
  time_ewma_add-IsValid te new_time v = elim (Bool-cases (te.last_time.tv_sec == 0)) [
    | inl first ↦ (record te { last_time = new_time }, rw first, omega arith, refl)
    | inr later ↦ (
      record te { ea = next_ea te.ea (gap_of te new_time); last_time = new_time },
      rw later (rw (blend-next_ea te (gap_of te new_time) v)),
      record { weight = v.weight; bounded = next_ea-bounded te.ea (gap_of te new_time) v.bounded },
      refl,
    )
  ]

  -- Of a valid average that has had a call before: a gap of at most ten minutes moves the average
  -- that `qos_get_ewma_usec` reads to a value between the old average and the gap, and a longer gap
  -- resets it to 0.
  pub time_ewma_add-average :
      (te : TimeEwma) (new_time : Timeval)
      → IsValid te
      → te.last_time.tv_sec ≢ 0
      → let gap = magnitude (timeval_sub new_time te.last_time) in
        (te' : TimeEwma) × (old : ℕ) × (avg : ℕ) × (time_ewma_add_extlock timeval_sub te new_time
          ≡ some te')
        × (qos_get_ewma_usec te ≡ some old)
        × (qos_get_ewma_usec te' ≡ some avg)
        × (((gap ≤ long_gap) × (min old gap ≤ avg) × (avg ≤ max old gap))
            ⊎ ((long_gap < gap) × (avg ≡ 0)))
  unfolding time_ewma_add_extlock
  time_ewma_add-average te new_time v later =
      let gap = gap_of te new_time in
      let te' : TimeEwma = record te { ea = next_ea te.ea gap; last_time = new_time } in
      (
        te',
        te.ea / 8,
        next_ea te.ea gap / 8,
        ground (arith, blend-next_ea te gap v),
        get_ewma-valid te v.weight,
        get_ewma-valid te' v.weight,
        next_ea-cases te.ea gap,
      )
