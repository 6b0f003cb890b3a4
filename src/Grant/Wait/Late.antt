-- ===== src/Grant/Wait/Late.antt =====
-- `osc_enter_cache` when its sleep times out, and when nothing is left to wait for.
use lustre_tools.Base.{
  ◌<◌, ◌≡◌, ◌≢◌, refl, Bool, true, false, List, [], ◌∷◌, some, arith, edquot, etimedout,
}
use lustre_tools.Grant.{Cache, Waiter, osc_reserve_grant, osc_enter_cache_try}
use lustre_tools.Grant.Wait.{
  Sleep, listed_waiter, unlist, may_wait, wait_turn, wait_loop, answer_of, answered, returned,
  osc_enter_cache,
}

short_of_grant :
    (c : Cache) (w : Waiter)
    → c.cl_avail_grant < w.ocw_grant
    → osc_enter_cache_try c w.ocw_oap w.ocw_grant false ≡ some (c, false)
unfolding osc_enter_cache_try osc_reserve_grant
short_of_grant c w h = ground arith

-- A waiter whose page was let into the cache at the time when its sleep timed out returns EDQUOT, as if it
-- had been refused: the page stays accounted as dirty, with its flag and its reserved grant.
pub osc_enter_cache-late :
    (sleep : Sleep) (c : Cache) (w : Waiter)
    → c.cl_dirty_max_pages ≢ 0
    → c.cl_avail_grant < w.ocw_grant
    → may_wait c ≡ true
    → let woken = sleep (listed_waiter c w) in
      woken.1 ≡ etimedout
      → (d : Cache) × (osc_enter_cache false (sleep ∷ []) c w ≡ some (d, returned edquot))
        × ((d.page_at w.ocw_oap).from_grant ≡ (woken.0.page_at w.ocw_oap).from_grant)
        × (d.cl_dirty_pages ≡ woken.0.cl_dirty_pages)
        × (d.cl_reserved_grant ≡ woken.0.cl_reserved_grant)
unfolding osc_enter_cache wait_loop wait_turn answered answer_of
osc_enter_cache-late sleep c w on short waits late =
    let r = sleep (listed_waiter c w) in
    let try = short_of_grant c w short in
    (
      record r.0 { cl_cache_waiters = unlist w.ocw r.0.cl_cache_waiters },
      ground (arith, try, waits, late),
      refl,
      refl,
      refl,
    )

-- Without dirty pages and writes in flight nobody waits: a caller that is short of grant returns EDQUOT at
-- once, and nothing changes.
pub osc_enter_cache-idle :
    (forced : Bool) (sleeps : List Sleep) (c : Cache) (w : Waiter)
    → c.cl_avail_grant < w.ocw_grant
    → c.cl_dirty_pages ≡ 0
    → c.cl_w_in_flight ≡ 0
    → osc_enter_cache forced sleeps c w ≡ some (c, returned edquot)
unfolding osc_enter_cache wait_loop answered answer_of
osc_enter_cache-idle forced [] c w short dirty flight = ground (arith, short_of_grant c w short)
osc_enter_cache-idle forced (s ∷ sleeps) c w short dirty flight =
    ground (arith, short_of_grant c w short)
