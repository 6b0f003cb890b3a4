-- ===== src/Grant/Wait.antt =====
-- `osc_enter_cache` of source/build/metric/osc_cache.c, which may sleep. What the other threads do
-- between the two times that the caller has the lock is a function of the state, which also gives the
-- result of `l_wait_event`; the list has one such function for each sleep.
pub mod Outcome
pub mod Late
use lustre_tools.Base.{
  ◌>>=◌, ◌>>◌, lassert, update, ℕ, Bool, true, false, not, ◌||◌, List, [], ◌∷◌, ◌++◌, Option, none,
  some, ℤ, pos, ltb_ℤ, eqb_ℤ, ltb, ◌==◌, if◌then◌else◌, success, edquot, etimedout, eintr,
  erestartsys,
}
use lustre_tools.Grant.{Cache, Waiter, osc_enter_cache_try}

abbrev pub Sleep : Type 0
Sleep = Cache → Cache × ℤ

-- Whether a waiter is on the list.
abbrev pub waits : ℕ → List Waiter → Bool
waits w [] = false
waits w (v ∷ vs) = (v.ocw == w) || waits w vs

abbrev pub unlist : ℕ → List Waiter → List Waiter
unlist w [] = []
unlist w (v ∷ vs) = if v.ocw == w then unlist w vs else v ∷ unlist w vs

-- The caller is on the list and sleeps, or it has a result.
pub data Entry : Type 0 where
  asleep : Entry
  returned : ℤ → Entry

unfoldable pub listed_waiter : Cache → Waiter → Cache
listed_waiter c w = record c {
  cl_cache_waiters = c.cl_cache_waiters ++ (w ∷ []);
  ocw_rc = update c.ocw_rc w.ocw success;
}

-- One turn of the loop: the result so far, and whether the loop goes on.
unfoldable pub wait_turn : Cache → Waiter → Sleep → Option (Cache × ℤ × Bool)
wait_turn c w sleep =
    let (c2, rc) = sleep (listed_waiter c w) in
    if ltb_ℤ rc (pos 0)
    then some (record c2 { cl_cache_waiters = unlist w.ocw c2.cl_cache_waiters }, rc, false)
    else (lassert (not (waits w.ocw c2.cl_cache_waiters)) >>= λ _.
        if eqb_ℤ (c2.ocw_rc w.ocw) edquot
        then (osc_enter_cache_try c2 w.ocw_oap w.ocw_grant false >>= λ (c3, entered).
            some (c3, (if entered then success else edquot), not entered))
        else some (c2, c2.ocw_rc w.ocw, false))

-- Something will be written back, which wakes the waiters.
abbrev pub may_wait : Cache → Bool
may_wait c = ltb 0 c.cl_dirty_pages || ltb 0 c.cl_w_in_flight

unfoldable pub wait_loop : List Sleep → Cache → Waiter → ℤ → Option (Cache × Entry)
wait_loop [] c w rc = some (if may_wait c then (listed_waiter c w, asleep) else (c, returned rc))
wait_loop (sleep ∷ sleeps) c w rc =
    if may_wait c
    then (wait_turn c w sleep >>= λ (c', rc', goes_on).
        if goes_on then wait_loop sleeps c' w rc' else some (c', returned rc'))
    else some (c, returned rc)

-- The `switch` on the result.
unfoldable pub answer_of : ℤ → ℤ
answer_of rc = if eqb_ℤ rc etimedout then edquot else if eqb_ℤ rc eintr then erestartsys else rc

unfoldable pub answered : Entry → Entry
answered asleep = asleep
answered (returned rc) = returned (answer_of rc)

-- `forced` is the fail point or one of the two `ar_force_sync`.
unfoldable pub osc_enter_cache : Bool → List Sleep → Cache → Waiter → Option (Cache × Entry)
osc_enter_cache forced sleeps c w =
    if forced || (c.cl_dirty_max_pages == 0)
    then some (c, returned edquot)
    else (osc_enter_cache_try c w.ocw_oap w.ocw_grant false >>= λ (c1, entered).
        if entered
        then some (c1, returned success)
        else (wait_loop sleeps c1 w edquot >>= λ (c2, e). some (c2, answered e)))
