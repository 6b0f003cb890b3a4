-- ===== src/Grant/Wake.antt =====
-- What `osc_wake_cache_waiters` does with the list of waiters.
use lustre_tools.Base.{
  ℕ, ◌≡◌, ◌≢◌, refl, sym, true, false, List, [], ◌∷◌, some, ◌⊎◌, inl, inr, Bool-cases, arith,
  success, edquot,
}
use lustre_tools.Grant.{Cache, Waiter, has_room, set_rc, wake_one, wake_all, osc_wake_cache_waiters}
use lustre_tools.Grant.Ledger.{Balanced, Balanced-same}
use lustre_tools.Grant.Enter.{Entered-Balanced, osc_enter_cache_try-Enters}

-- The waiters are different, and so are their pages, none of which is in the cache.
abbrev pub Apart : Waiter → List Waiter → Type 0
Apart w [] = Unit {0}
Apart w (v ∷ vs) = (w.ocw ≢ v.ocw) × (w.ocw_oap ≢ v.ocw_oap) × Apart w vs

abbrev pub AllWait : Cache → List Waiter → Type 0
AllWait c [] = Unit {0}
AllWait c (w ∷ ws) = ((c.page_at w.ocw_oap).from_grant ≡ false) × Apart w ws × AllWait c ws

pub AllWait-same :
    (c d : Cache) (ws : List Waiter) → d.page_at ≡ c.page_at → AllWait c ws → AllWait d ws
AllWait-same c d [] e h = tt
AllWait-same c d (w ∷ ws) e (free, apart, rest) =
    (ground (arith, free, e), apart, AllWait-same c d ws e rest)

-- A waiter's answer tells whether its page is in the cache.
abbrev pub Answered : Cache → Waiter → Type 0
Answered c w =
    ((c.ocw_rc w.ocw ≡ success) × ((c.page_at w.ocw_oap).from_grant ≡ true))
    ⊎ ((c.ocw_rc w.ocw ≡ edquot) × ((c.page_at w.ocw_oap).from_grant ≡ false))

abbrev pub AllAnswered : Cache → List Waiter → Type 0
AllAnswered c [] = Unit {0}
AllAnswered c (w ∷ ws) = Answered c w × AllAnswered c ws

-- Only this waiter and its page change.
record OnlyFor (w : Waiter) (c d : Cache) : Type 0 where
  pages : (j : ℕ) → j ≢ w.ocw_oap → d.page_at j ≡ c.page_at j
  answers : (j : ℕ) → j ≢ w.ocw → d.ocw_rc j ≡ c.ocw_rc j
  waiting : d.cl_cache_waiters ≡ c.cl_cache_waiters

wake_one-Answered :
    (c : Cache) (w : Waiter) (out all : ℕ)
    → Balanced c out all
    → (c.page_at w.ocw_oap).from_grant ≡ false
    → (d : Cache) × (wake_one c w ≡ some d) × Balanced d out all × Answered d w × OnlyFor w c d
unfolding wake_one
wake_one-Answered c w out all b free =
    let c1 : Cache = set_rc c w.ocw edquot in
    let b1 : Balanced c1 out all =
      Balanced-same c c1 out all refl refl refl refl refl refl refl b in
    let alone : OnlyFor w c c1 = record {
      pages = λ j ne. refl;
      answers = λ j ne. ground arith;
      waiting = refl;
    } in
    let refused : Answered c1 w = inr (ground arith, free) in
    elim (Bool-cases (has_room c1)) [
      | inr full ↦ (c1, ground (arith, full), b1, refused, alone)
      | inl room ↦
          let (r, step, tried) =
            osc_enter_cache_try-Enters c1 w.ocw_oap w.ocw_grant false out all b1 free in
          elim tried [
            | inr (kept, same) ↦ (c1, ground (arith, step, room, kept, same), b1, refused, alone)
            | inl (came, e) ↦ (
              set_rc r.0 w.ocw success,
              ground (arith, step, room, came),
              Balanced-same r.0 _ out all refl refl refl refl refl refl refl
                  (Entered-Balanced c1 r.0 w.ocw_oap w.ocw_grant out all e b1),
              inl (ground arith, e.flagged),
              record {
                pages = λ j ne. e.others j ne;
                answers = λ j ne. ground (arith, e.answers);
                waiting = e.waiting;
              },
            )
          ]
    ]

Answered-OnlyFor :
    (c d : Cache) (w v : Waiter)
    → OnlyFor v c d
    → v.ocw ≢ w.ocw
    → v.ocw_oap ≢ w.ocw_oap
    → Answered c w
    → Answered d w
Answered-OnlyFor c d w v only ne ne' h =
    ground (arith, h, only.answers w.ocw (λ e. ne (sym e)), only.pages w.ocw_oap (λ e. ne' (sym e)))

AllWait-OnlyFor :
    (c d : Cache) (v : Waiter) (ws : List Waiter)
    → OnlyFor v c d
    → Apart v ws
    → AllWait c ws
    → AllWait d ws
AllWait-OnlyFor c d v [] only apart h = tt
AllWait-OnlyFor c d v (w ∷ ws) only (_, ne, apart) (free, apart_ws, rest) = (
  ground (arith, free, only.pages w.ocw_oap (λ e. ne (sym e))),
  apart_ws,
  AllWait-OnlyFor c d v ws only apart rest,
)

wake_all-Answered :
    (c : Cache) (ws : List Waiter) (out all : ℕ)
    → Balanced c out all
    → AllWait c ws
    → c.cl_cache_waiters ≡ ws
    → (d : Cache) × (wake_all c ws ≡ some d)
      × Balanced d out all
      × AllAnswered d ws
      × (d.cl_cache_waiters ≡ [])
      × ((v : Waiter) → Apart v ws → Answered c v → Answered d v)
unfolding wake_all
wake_all-Answered c [] out all b h e = (c, refl, b, tt, e, λ v apart answer. answer)
wake_all-Answered c (w ∷ ws) out all b (free, apart, rest) e =
    let c1 : Cache = record c { cl_cache_waiters = ws } in
    let b1 : Balanced c1 out all =
      Balanced-same c c1 out all refl refl refl refl refl refl refl b in
    let (d, step, bd, answer, only) = wake_one-Answered c1 w out all b1 free in
    let (f, steps, bf, answers, empty, keeps) =
      wake_all-Answered d ws out all bd (AllWait-OnlyFor c1 d w ws only apart rest) only.waiting in
    (
      f,
      ground (arith, step, steps),
      bf,
      (keeps w apart answer, answers),
      empty,
      λ v (ne, ne', away) before.
          keeps v away
            (Answered-OnlyFor c1 d v w only (λ eq. ne (sym eq)) (λ eq. ne' (sym eq)) before),
    )

-- In a balanced state, where the waiters and their pages differ and no such page is in the cache, the
-- waking returns: the list is empty, each waiter has the answer 0 with its page in the cache, or EDQUOT
-- with its page outside, and the accounts are balanced as before.
pub osc_wake_cache_waiters-AllAnswered :
    (c : Cache) (out all : ℕ)
    → Balanced c out all
    → AllWait c c.cl_cache_waiters
    → (d : Cache) × (osc_wake_cache_waiters c ≡ some d)
      × Balanced d out all
      × AllAnswered d c.cl_cache_waiters
      × (d.cl_cache_waiters ≡ [])
unfolding osc_wake_cache_waiters
osc_wake_cache_waiters-AllAnswered c out all b h =
    let (d, step, bd, answers, empty, _) =
      wake_all-Answered c c.cl_cache_waiters out all b h refl in
    (d, step, bd, answers, empty)
