-- ===== src/Counter/Tests.antt =====
-- Runs of the counters, and instances of the theorems.
use lustre_tools.Base.{
  ℕ, ◌≡◌, refl, Bool, true, false, List, [], ◌∷◌, none, some, pos, to_s64, ◌+ℤ◌,
}
use lustre_tools.Counter.{
  Header, Counter, Stats, no_counts, lprocfs_counter_add, lprocfs_stats_collect, collect,
  collect_one, on_counter,
}
use lustre_tools.Base.{replicate}
use lustre_tools.Counter.Histogram.{
  lprocfs_oh_sum, tally_all, lprocfs_oh_clear, lprocfs_oh_tally, bump,
}

abbrev averaged : Header
averaged = record { avgminmax = true; stddev = true }

abbrev amounts : List (Bool × ℕ)
amounts = (false, 5) ∷ (true, 3) ∷ (false, 9) ∷ []

-- The second of the last call was 7.
abbrev at_seven : Counter
at_seven = record {
  lc_count = pos 2;
  lc_min = pos 7;
  lc_max = pos 30;
  lc_sumsquare = pos 900;
  lc_sum = pos 4;
  lc_sum_irq = pos 0;
}

-- Two processors, of which the second has no counters yet.
abbrev stats : Stats
stats = record {
  irq_safe = true;
  ls_cnt_header = averaged ∷ [];
  ls_percpu = some (at_seven ∷ []) ∷ none ∷ [];
}

out_of_range : lprocfs_counter_add false (some stats) (some 0) 1 (pos 5) ≡ none
unfolding lprocfs_counter_add on_counter
out_of_range = refl

no_area : lprocfs_counter_add false (some stats) (some 1) 0 (pos 5) ≡ none
unfolding lprocfs_counter_add on_counter
no_area = refl

no_stats : lprocfs_stats_collect none 3 ≡ some (record no_counts { lc_count = pos 1 })
unfolding lprocfs_stats_collect
no_stats = refl

collected : lprocfs_stats_collect (some stats) 0 ≡ some at_seven
unfolding lprocfs_stats_collect collect collect_one to_s64 ◌+ℤ◌
collected = refl

abbrev buckets : List ℕ
buckets = replicate 32 1

tallied : lprocfs_oh_sum (tally_all (lprocfs_oh_clear buckets) (3 ∷ 90 ∷ 3 ∷ [])) ≡ 3
unfolding lprocfs_oh_sum lprocfs_oh_clear lprocfs_oh_tally bump
tallied = refl
