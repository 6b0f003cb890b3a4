-- ===== src/Counter/Init.antt =====
-- A counter that has just been initialised.
use lustre_tools.Base.{
  ℕ, zero, suc, ◌<◌, ◌≡◌, refl, Bool, List, [], ◌∷◌, Option, none, some, pos, ◌+ℤ◌, to_s64, length,
  get_elem?, get_elem?-set_self, set, map, arith,
}
use lustre_tools.Counter.{
  Header, Counter, Stats, cleared, init_area, lprocfs_counter_init, collect, collect_one,
  lprocfs_stats_collect, no_counts, lc_min_init,
}

-- The areas of the processors that have one hold a counter at the index.
abbrev pub AllWide : ℕ → List (Option (List Counter)) → Type 0
AllWide index [] = Unit
AllWide index (none ∷ rest) = AllWide index rest
AllWide index (some area ∷ rest) = (index < length area) × AllWide index rest

abbrev fresh : Counter
fresh = record no_counts { lc_min = pos lc_min_init }

collect_one-cleared :
    (irq_safe : Bool) (c : Counter) → collect_one fresh (cleared irq_safe c) ≡ fresh
unfolding collect_one cleared to_s64 ◌+ℤ◌
collect_one-cleared irq_safe c = refl

get_elem?-some :
    (area : List Counter) (i : ℕ) → i < length area → (c : Counter) × (get_elem? area i ≡ some c)
get_elem?-some [] i h = absurd (omega arith)
get_elem?-some (c ∷ area) zero h = (c, refl)
get_elem?-some (c ∷ area) (suc i) h = get_elem?-some area i (omega arith)

collect-init_area :
    (irq_safe : Bool) (index : ℕ) (areas : List (Option (List Counter)))
    → AllWide index areas
    → collect index fresh (map (init_area irq_safe index) areas) ≡ some fresh
unfolding collect
collect-init_area irq_safe index [] wide = refl
collect-init_area irq_safe index (none ∷ rest) wide = collect-init_area irq_safe index rest wide
collect-init_area irq_safe index (some area ∷ rest) wide =
    let (c, there) = get_elem?-some area index wide.0 in
    let written : get_elem? (set area index (cleared irq_safe c)) index
        ≡ some (cleared irq_safe c) =
      get_elem?-set_self area index (cleared irq_safe c) wide.0 in
    rw (there, collect, written, collect_one-cleared irq_safe c)
      (collect-init_area irq_safe index rest wide.1)

-- An initialisation at an index of the statistics returns, and what is collected at that index afterwards
-- is a counter with nothing in it, whatever it held on any processor: all 0, and the minimum at its
-- start value.
pub lprocfs_counter_init-lprocfs_stats_collect :
    (s : Stats) (index : ℕ) (conf : Header)
    → index < length s.ls_cnt_header
    → AllWide index s.ls_percpu
    → (s' : Stats) × (lprocfs_counter_init (some s) index conf ≡ some s')
      × (lprocfs_stats_collect (some s') index
          ≡ some (record no_counts { lc_min = pos lc_min_init }))
unfolding lprocfs_counter_init lprocfs_stats_collect
lprocfs_counter_init-lprocfs_stats_collect s index conf within wide = (
  record s {
    ls_cnt_header = set s.ls_cnt_header index conf;
    ls_percpu = map (init_area s.irq_safe index) s.ls_percpu;
  },
  ground (arith, within),
  collect-init_area s.irq_safe index s.ls_percpu wide,
)
