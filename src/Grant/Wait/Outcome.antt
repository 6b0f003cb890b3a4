-- ===== src/Grant/Wait/Outcome.antt =====
-- The results of `osc_enter_cache` and the accounts it leaves.
use lustre_tools.Base.{
  ℕ, ◌≡◌, refl, Bool, true, false, List, [], ◌∷◌, ◌++◌, some, ◌⊎◌, inl, inr, Bool-cases, arith, ℤ,
  success, edquot, etimedout, eintr, erestartsys, ◌||◌, ◌==◌,
}
use lustre_tools.Grant.{Cache, Waiter}
use lustre_tools.Grant.Ledger.{Balanced, Balanced-same}
use lustre_tools.Grant.Enter.{Entered-Balanced, osc_enter_cache_try-Enters}
use lustre_tools.Grant.Wake.{AllWait, AllWait-same}
use lustre_tools.Grant.Wait.{
  Sleep, waits, Entry, asleep, returned, listed_waiter, wait_turn, may_wait, wait_loop, answer_of,
  answered, osc_enter_cache, unlist,
}

abbrev pub Outside : Cache → Waiter → Type 0
Outside c w = (c.page_at w.ocw_oap).from_grant ≡ false

abbrev pub Inside : Cache → Waiter → Type 0
Inside c w = (c.page_at w.ocw_oap).from_grant ≡ true

-- The waiter may go on the list: it and those who wait are different, with their pages outside.
abbrev pub Ready : Cache → Waiter → Type 0
Ready c w = AllWait c (c.cl_cache_waiters ++ (w ∷ []))

last-Outside :
    (c : Cache) (ws : List Waiter) (w : Waiter) → AllWait c (ws ++ (w ∷ [])) → Outside c w
last-Outside c [] w h = h.0
last-Outside c (v ∷ ws) w h = last-Outside c ws w h.2

-- How a sleep ends: the waiter was taken off the list and answered, or the sleep timed out or was
-- interrupted, whether or not somebody has let the page in meanwhile.
abbrev pub Ended : Waiter → Cache × ℤ → Type 0
Ended w r =
    ((r.1 ≡ success)
      × (waits w.ocw r.0.cl_cache_waiters ≡ false)
      × (((r.0.ocw_rc w.ocw ≡ success) × Inside r.0 w)
          ⊎ ((r.0.ocw_rc w.ocw ≡ edquot) × Ready r.0 w)))
    ⊎ ((r.1 ≡ etimedout) ⊎ (r.1 ≡ eintr))

-- From a state in which the waiter is the last on the list, the other threads keep the accounts balanced,
-- and the sleep ends.
pub record IsSleep (all : ℕ) (w : Waiter) (sleep : Sleep) : Type 0 where
  pub ends :
      (c : Cache) (out : ℕ) (ws : List Waiter)
      → Balanced c out all
      → AllWait c c.cl_cache_waiters
      → c.cl_cache_waiters ≡ ws ++ (w ∷ [])
      → ((out' : ℕ) × Balanced (sleep c).0 out' all) × Ended w (sleep c)

abbrev pub AllSleep : ℕ → Waiter → List Sleep → Type 0
AllSleep all w [] = Unit {0}
AllSleep all w (s ∷ ss) = IsSleep all w s × AllSleep all w ss

-- One of the sleeps ends with this code in some state.
abbrev pub CutBy : List Sleep → ℤ → Type 0
CutBy [] rc = ⊥
CutBy (s ∷ ss) rc = ((c : Cache) × ((s c).1 ≡ rc)) ⊎ CutBy ss rc

-- What the result of the loop tells of the page, and then the result of the function.
abbrev pub Raw : (ℤ → Type 0) → Waiter → Cache → ℤ → Type 0
Raw Cut w d rc =
    ((rc ≡ success) × Inside d w)
    ⊎ ((rc ≡ edquot) × Outside d w)
    ⊎ ((rc ≡ etimedout) × Cut etimedout)
    ⊎ ((rc ≡ eintr) × Cut eintr)

abbrev pub Tells : (ℤ → Type 0) → Waiter → Cache → ℤ → Type 0
Tells Cut w d rc =
    ((rc ≡ success) × Inside d w)
    ⊎ ((rc ≡ edquot) × Outside d w)
    ⊎ ((rc ≡ edquot) × Cut etimedout)
    ⊎ ((rc ≡ erestartsys) × Cut eintr)

Raw-mono :
    (F G : ℤ → Type 0) (w : Waiter) (d : Cache) (rc : ℤ)
    → ((x : ℤ) → F x → G x)
    → Raw F w d rc
    → Raw G w d rc
Raw-mono F G w d rc f (inl h) = inl h
Raw-mono F G w d rc f (inr (inl h)) = inr (inl h)
Raw-mono F G w d rc f (inr (inr (inl (e, h)))) = inr (inr (inl (e, f etimedout h)))
Raw-mono F G w d rc f (inr (inr (inr (e, h)))) = inr (inr (inr (e, f eintr h)))

record Turned (all : ℕ) (w : Waiter) (sleep : Sleep) (r : Cache × ℤ × Bool) : Type 0 where
  balanced : (out : ℕ) × Balanced r.0 out all
  tells : Raw (CutBy (sleep ∷ [])) w r.0 r.1
  again : r.2 ≡ true → Ready r.0 w × (r.1 ≡ edquot)

wait_turn-Turned :
    (c : Cache) (w : Waiter) (sleep : Sleep) (out all : ℕ)
    → IsSleep all w sleep
    → Balanced c out all
    → Ready c w
    → (r : Cache × ℤ × Bool) × (wait_turn c w sleep ≡ some r) × Turned all w sleep r
unfolding wait_turn listed_waiter
wait_turn-Turned c w sleep out all s b ready =
    let c1 : Cache = listed_waiter c w in
    let c2 : Cache = (sleep c1).0 in
    let b1 : Balanced c1 out all =
      Balanced-same c c1 out all refl refl refl refl refl refl refl b in
    let ((out', b2), ended) =
      s.ends c1 out c.cl_cache_waiters b1
        (AllWait-same c c1 (c.cl_cache_waiters ++ (w ∷ [])) refl ready) refl in
    elim ended [
      | inr error ↦
          let d : Cache = record c2 { cl_cache_waiters = unlist w.ocw c2.cl_cache_waiters } in
          (
            (d, (sleep c1).1, false),
            ground (arith, error),
            record {
              balanced = (out', Balanced-same c2 d out' all refl refl refl refl refl refl refl b2);
              tells = elim error [
                | inl late ↦ inr (inr (inl (late, inl (c1, late))))
                | inr cut ↦ inr (inr (inr (cut, inl (c1, cut))))
              ];
              again = λ e. ground (arith, e);
            },
          )
      | inl (woken, off, inl (granted, flag)) ↦ (
        (c2, c2.ocw_rc w.ocw, false),
        ground (arith, woken, off, granted),
        record {
          balanced = (out', b2);
          tells = inl (granted, flag);
          again = λ e. ground (arith, e);
        },
      )
      | inl (woken, off, inr (refused, free)) ↦
          let outside = last-Outside c2 c2.cl_cache_waiters w free in
          let (r, step, tried) =
            osc_enter_cache_try-Enters c2 w.ocw_oap w.ocw_grant false out' all b2 outside in
          elim tried [
            | inl (came, e) ↦ (
              (r.0, success, false),
              ground (arith, woken, off, refused, step, came),
              record {
                balanced = (out', Entered-Balanced c2 r.0 w.ocw_oap w.ocw_grant out' all e b2);
                tells = inl (refl, e.flagged);
                again = λ e. ground (arith, e);
              },
            )
            | inr (kept, same) ↦ (
              (c2, edquot, true),
              ground (arith, woken, off, refused, step, kept, same),
              record {
                balanced = (out', b2);
                tells = inr (inl (refl, outside));
                again = λ _. (free, refl);
              },
            )
          ]
    ]

-- The accounts are balanced, and the caller sleeps with its page outside, or has a result that tells.
pub record Settled (Says : Cache → ℤ → Type 0) (all : ℕ) (w : Waiter) (r : Cache × Entry)
    : Type 0 where
  pub balanced : (out : ℕ) × Balanced r.0 out all
  pub ends : ((r.1 ≡ asleep) × Outside r.0 w) ⊎ ((rc : ℤ) × (r.1 ≡ returned rc) × Says r.0 rc)

further :
    (sleep : Sleep) (rest : List Sleep) (all : ℕ) (w : Waiter) (r : Cache × Entry)
    → Settled (Raw (CutBy rest) w) all w r
    → Settled (Raw (CutBy (sleep ∷ rest)) w) all w r
further sleep rest all w r h = record {
  balanced = h.balanced;
  ends = elim h.ends [
    | inl sleeps ↦ inl sleeps
    | inr (rc, e, raw) ↦ inr (
      rc,
      e,
      Raw-mono (CutBy rest) (CutBy (sleep ∷ rest)) w r.0 rc
          (λ (x : ℤ) (cut : CutBy rest x). inr cut) raw,
    )
  ];
}

here_cut :
    (sleep : Sleep) (rest : List Sleep) (x : ℤ) → CutBy (sleep ∷ []) x → CutBy (sleep ∷ rest) x
here_cut sleep rest x (inl cut) = inl cut
here_cut sleep rest x (inr none_left) = elim none_left [ ]

wait_loop-Settled :
    (sleeps : List Sleep) (c : Cache) (w : Waiter) (out all : ℕ)
    → AllSleep all w sleeps
    → Balanced c out all
    → Ready c w
    → (r : Cache × Entry) × (wait_loop sleeps c w edquot ≡ some r)
      × Settled (Raw (CutBy sleeps) w) all w r
unfolding wait_loop listed_waiter
wait_loop-Settled [] c w out all s b ready =
    let free = last-Outside c c.cl_cache_waiters w ready in
    elim (Bool-cases (may_wait c)) [
      | inr done ↦ (
        (c, returned edquot),
        ground (arith, done),
        record { balanced = (out, b); ends = inr (edquot, refl, inr (inl (refl, free))) },
      )
      | inl more ↦ (
        (listed_waiter c w, asleep),
        ground (arith, more),
        record {
          balanced = (out, Balanced-same c _ out all refl refl refl refl refl refl refl b);
          ends = inl (refl, free);
        },
      )
    ]
wait_loop-Settled (sleep ∷ rest) c w out all (s1, s) b ready = elim (Bool-cases (may_wait c)) [
  | inr done ↦ (
    (c, returned edquot),
    ground (arith, done),
    record {
      balanced = (out, b);
      ends = inr (edquot, refl, inr (inl (refl, last-Outside c c.cl_cache_waiters w ready)));
    },
  )
  | inl more ↦
      let (r, step, t) = wait_turn-Turned c w sleep out all s1 b ready in
      elim (Bool-cases r.2) [
        | inr stop ↦ (
          (r.0, returned r.1),
          ground (arith, more, step, stop),
          record {
            balanced = t.balanced;
            ends = inr (
              r.1,
              refl,
              Raw-mono (CutBy (sleep ∷ [])) (CutBy (sleep ∷ rest)) w r.0 r.1 (here_cut sleep rest)
                  t.tells,
            );
          },
        )
        | inl on ↦
            let (again, rc) = t.again on in
            let (q, steps, settled) =
              wait_loop-Settled rest r.0 w t.balanced.0 all s t.balanced.1 again in
            (q, ground (arith, more, step, on, rc, steps), further sleep rest all w q settled)
      ]
]

answer_of-Tells :
    (Cut : ℤ → Type 0) (w : Waiter) (d : Cache) (rc : ℤ)
    → Raw Cut w d rc
    → Tells Cut w d (answer_of rc)
unfolding answer_of
answer_of-Tells Cut w d rc (inl (e, flag)) = inl (ground (arith, e), flag)
answer_of-Tells Cut w d rc (inr (inl (e, outside))) = inr (inl (ground (arith, e), outside))
answer_of-Tells Cut w d rc (inr (inr (inl (e, cut)))) = inr (inr (inl (ground (arith, e), cut)))
answer_of-Tells Cut w d rc (inr (inr (inr (e, cut)))) = inr (inr (inr (ground (arith, e), cut)))

answered-Settled :
    (Cut : ℤ → Type 0) (all : ℕ) (w : Waiter) (r : Cache × Entry)
    → Settled (Raw Cut w) all w r
    → Settled (Tells Cut w) all w (r.0, answered r.1)
unfolding answered
answered-Settled Cut all w r h = record {
  balanced = h.balanced;
  ends = elim h.ends [
    | inl (e, outside) ↦ inl (ground (arith, e), outside)
    | inr (rc, e, raw) ↦ inr (answer_of rc, ground (arith, e), answer_of-Tells Cut w r.0 rc raw)
  ];
}

-- A caller in a balanced state, where it and those who wait are different with their pages outside of
-- the cache: if the other threads keep the accounts while it sleeps, and a sleep ends either with an
-- answer as `osc_wake_cache_waiters` gives it or, at any time, by a timeout or an interruption, then no
-- assertion fails, the accounts are balanced in the end, and the caller sleeps with its page outside
-- or has a result: 0 with its page in the cache; EDQUOT with its page outside; EDQUOT after a timeout
-- or ERESTARTSYS after an interruption, where the page may have been let in meanwhile.
pub osc_enter_cache-Settled :
    (forced : Bool) (sleeps : List Sleep) (c : Cache) (w : Waiter) (out all : ℕ)
    → AllSleep all w sleeps
    → Balanced c out all
    → Ready c w
    → (r : Cache × Entry) × (osc_enter_cache forced sleeps c w ≡ some r)
      × Settled (Tells (CutBy sleeps) w) all w r
unfolding osc_enter_cache
osc_enter_cache-Settled forced sleeps c w out all s b ready =
    let free = last-Outside c c.cl_cache_waiters w ready in
    elim (Bool-cases (forced || (c.cl_dirty_max_pages == 0))) [
      | inl sync ↦ (
        (c, returned edquot),
        ground (arith, sync),
        record { balanced = (out, b); ends = inr (edquot, refl, inr (inl (refl, free))) },
      )
      | inr cached ↦
          let (r, step, tried) =
            osc_enter_cache_try-Enters c w.ocw_oap w.ocw_grant false out all b free in
          elim tried [
            | inl (came, e) ↦ (
              (r.0, returned success),
              ground (arith, cached, step, came),
              record {
                balanced = (out, Entered-Balanced c r.0 w.ocw_oap w.ocw_grant out all e b);
                ends = inr (success, refl, inl (refl, e.flagged));
              },
            )
            | inr (kept, same) ↦
                let (q, steps, settled) = wait_loop-Settled sleeps c w out all s b ready in
                (
                  (q.0, answered q.1),
                  ground (arith, cached, step, kept, same, steps),
                  answered-Settled (CutBy sleeps) all w q settled,
                )
          ]
    ]
