-- ===== src/Grant/Tests.antt =====
-- Runs of the cache and instances of the theorems about it.
use mathlib.Core.Path.{subst}
use lustre_tools.Base.{
  ◌++◌, eintr, ℕ, ◌+◌, ◌<◌, ◌≡◌, refl, true, false, List, [], ◌∷◌, Option, none, some, inl, inr,
  arith, ℤ, success, edquot, etimedout,
}
use lustre_tools.Grant.{
  BrwPage, Waiter, Cache, osc_reserve_grant, osc_enter_cache_try, osc_wake_cache_waiters, wake_all,
  wake_one, osc_consume_write_grant, mark_transit,
}
use lustre_tools.Grant.Ledger.{Balanced}
use lustre_tools.Grant.Wake.{osc_wake_cache_waiters-AllAnswered, AllAnswered, Answered}
use lustre_tools.Grant.Wait.{Sleep, Entry, osc_enter_cache}
use lustre_tools.Grant.Wait.Outcome.{osc_enter_cache-Settled, Settled, IsSleep, Ended, Tells, CutBy}
use lustre_tools.Grant.Server.{
  RpcLimits, Obdo, osc_shrink_grant_to_target, osc_init_grant, osc_reconnect,
}
use lustre_tools.Grant.Server.Shrink.{osc_shrink_grant_to_target-Shrinks, Shrinks, alone}
use lustre_tools.Grant.Server.Connect.{osc_init_grant-osc_reconnect}

abbrev no_page : ℕ → BrwPage
no_page j = record { from_grant = false; nocache = false }

-- Two dirty pages of at most four, and waiters for 4096 and 8192 bytes.
abbrev sample : ℕ → List Waiter → Cache
sample avail waiters = record {
  cl_avail_grant = avail;
  cl_reserved_grant = 0;
  cl_lost_grant = 0;
  cl_dirty_pages = 2;
  cl_dirty_max_pages = 4;
  cl_dirty_transit = 0;
  cl_w_in_flight = 1;
  cl_chunkbits = 12;
  cl_extent_tax = 1024;
  obd_dirty_pages = 10;
  obd_dirty_transit_pages = 0;
  obd_max_dirty_pages = 100;
  page_at = no_page;
  cl_cache_waiters = waiters;
  ocw_rc = λ w. success;
}

sample-Balanced :
    (avail : ℕ) (ws : List Waiter) → avail < 100000 → Balanced (sample avail ws) 5000 (avail + 5000)
sample-Balanced avail ws small = record {
  total = omega arith;
  all_fit = omega arith;
  within = omega arith;
  all_in_word = omega arith;
  own_part = omega arith;
  max_fits = omega arith;
}

abbrev first_waiter : Waiter
first_waiter = record { ocw = 1; ocw_oap = 11; ocw_grant = 4096 }

abbrev second_waiter : Waiter
second_waiter = record { ocw = 2; ocw_oap = 12; ocw_grant = 8192 }

abbrev two_waiters : Cache
two_waiters = sample 10000 (first_waiter ∷ second_waiter ∷ [])

-- The first waiter gets in, and for the second the grant is short.
abbrev answers_of : Option Cache → Option (ℤ × ℤ × ℕ × ℕ)
answers_of none = none
answers_of (some c) = some (c.ocw_rc 1, c.ocw_rc 2, c.cl_avail_grant, c.cl_dirty_pages)

two_woken : answers_of (osc_wake_cache_waiters two_waiters) ≡ some (success, edquot, 5904, 3)
unfolding osc_wake_cache_waiters wake_all wake_one osc_enter_cache_try osc_reserve_grant
    osc_consume_write_grant mark_transit
two_woken = refl

osc_wake_cache_waiters-AllAnswered_example :
    (d : Cache) × (osc_wake_cache_waiters two_waiters ≡ some d)
    × Balanced d 5000 15000
    × AllAnswered d (first_waiter ∷ second_waiter ∷ [])
    × (d.cl_cache_waiters ≡ [])
osc_wake_cache_waiters-AllAnswered_example =
    osc_wake_cache_waiters-AllAnswered two_waiters 5000 15000
      (sample-Balanced 10000 _ (omega arith))
      (refl, ((λ e. omega (arith, e)), (λ e. omega (arith, e)), tt), (refl, tt, tt))

-- The sleep of a waiter until somebody wakes all waiters.
abbrev woken_by : Cache → Option Cache → Cache × ℤ
woken_by c none = (c, eintr)
woken_by c (some d) = (d, success)

abbrev until_woken : Sleep
until_woken c = woken_by c (osc_wake_cache_waiters c)

abbrev patience : Sleep
patience c = (c, etimedout)

last_answer :
    (d : Cache) (ws : List Waiter) (w : Waiter) → AllAnswered d (ws ++ (w ∷ [])) → Answered d w
last_answer d [] w h = h.0
last_answer d (v ∷ ws) w h = last_answer d ws w h.1

off_list : (d : Cache) (w : Waiter) → d.cl_cache_waiters ≡ [] → Answered d w → Ended w (d, success)
off_list d w empty (inl answer) = inl (refl, rw empty refl, inl answer)
off_list d w empty (inr (refused, outside)) =
    inl (refl, rw empty refl, inr (refused, rw empty (outside, tt, tt)))

until_woken-IsSleep : (all : ℕ) (w : Waiter) → IsSleep all w until_woken
until_woken-IsSleep all w = record {
  ends = λ c out ws b wait e.
      let (d, step, bd, answers, empty) = osc_wake_cache_waiters-AllAnswered c out all b wait in
      rw step
        ((out, bd), off_list d w empty (last_answer d ws w (subst (AllAnswered d) e answers)));
}

patience-IsSleep : (all : ℕ) (w : Waiter) → IsSleep all w patience
patience-IsSleep all w = record { ends = λ c out ws b wait e. ((out, b), inr (inl refl)) }

osc_enter_cache-Settled_example :
    (r : Cache × Entry) × (osc_enter_cache false
        (until_woken ∷ patience ∷ [])
        (sample 1000 [])
        first_waiter
      ≡ some r)
    × Settled (Tells (CutBy (until_woken ∷ patience ∷ [])) first_waiter) 6000 first_waiter r
osc_enter_cache-Settled_example =
    osc_enter_cache-Settled false (until_woken ∷ patience ∷ []) (sample 1000 []) first_waiter 5000
      6000 (until_woken-IsSleep 6000 first_waiter, (patience-IsSleep 6000 first_waiter, tt))
      (sample-Balanced 1000 [] (omega arith)) (refl, tt, tt)

-- Two reservations, of which the second is more than is available.
abbrev reserved_once : Cache
reserved_once = record (sample 10000 []) { cl_avail_grant = 4000; cl_reserved_grant = 6000 }

-- The other clients pass the limit of all dirty pages.
abbrev over_limit : Cache
over_limit = record reserved_once { obd_dirty_pages = 101 }

-- Requests of one page, eight at a time.
abbrev small_rpcs : RpcLimits
small_rpcs = record { cl_max_pages_per_rpc = 1; cl_max_rpcs_in_flight = 8 }

osc_shrink_grant_to_target-Shrinks_example :
    (r : Cache × ℤ × Option Obdo) × (osc_shrink_grant_to_target small_rpcs alone true
        (λ m. success)
        (sample 10000 [])
        0
      ≡ some r)
    × Shrinks small_rpcs (sample 10000 []) 0 5000 15000 r
osc_shrink_grant_to_target-Shrinks_example =
    osc_shrink_grant_to_target-Shrinks small_rpcs true (λ m. success) (sample 10000 []) 0 5000 15000
      (sample-Balanced 10000 [] (omega arith))

-- 10000 bytes and two pages are asked for.
osc_init_grant-osc_reconnect_example :
    ((osc_init_grant false (sample 10000 []) 18192 16).cl_avail_grant ≡ 10000)
    × ((osc_init_grant false (sample 10000 []) 18192 16).cl_dirty_pages ≡ 2)
    × ((osc_init_grant false (sample 10000 []) 18192 16).cl_lost_grant ≡ 0)
unfolding osc_reconnect
osc_init_grant-osc_reconnect_example =
    osc_init_grant-osc_reconnect small_rpcs (sample 10000 []) 16 (omega arith) (omega arith)
      (sample 10000 []) 18192 refl

-- Another thread reserves 8000 bytes.
abbrev reserves_much : Cache → Cache
reserves_much c = record c { cl_avail_grant = 2000; cl_reserved_grant = 8000 }
