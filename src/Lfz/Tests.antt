-- ===== src/Lfz/Tests.antt =====
-- Runs of the throttle and instances of the theorems.
use lustre_tools.Base.{
  ◌-◌, ◌^◌, ◌≡◌, refl, [], ◌∷◌, pos, negsuc, none, some, Timeval, arith, to_u64,
}
use lustre_tools.Lfz.{TbfCounter, total_tbf_rate_init, throttle_bandwidth, throttle_all}
use lustre_tools.Lfz.Budget.{IsValid, throttle_all-Within}

abbrev noon : Timeval
noon = record { tv_sec = 43200; tv_usec = 5 }

abbrev later : Timeval
later = record { tv_sec = 43201; tv_usec = 0 }

-- 1000 bytes a second, of which 400 are left.
abbrev busy : TbfCounter
busy = record { total_tbf_rate = 1000; resid_tbf = 400; last_time = noon }

no_config : (total_tbf_rate_init (λ _. pos 7) none noon).1 ≡ negsuc 0
unfolding total_tbf_rate_init
no_config = refl

configured : (total_tbf_rate_init (λ _. pos 7) (some []) noon).0.resid_tbf ≡ 7
unfolding total_tbf_rate_init to_u64
configured = refl

overdrawn : (throttle_bandwidth busy noon (pos 500)).0.resid_tbf ≡ 2 ^ 64 - 100
unfolding throttle_bandwidth to_u64
overdrawn = refl

busy-IsValid : IsValid busy
busy-IsValid = omega arith

throttle_all-Within_example :
    throttle_all busy ((noon, 100) ∷ (noon, 300) ∷ []) ≡ record busy { resid_tbf = 0 }
throttle_all-Within_example =
    throttle_all-Within ((noon, 100) ∷ (noon, 300) ∷ []) busy busy-IsValid (refl, (refl, tt))
      (omega arith)
