-- ===== src/Nrs/Tbf/Sched/Refine.antt =====
-- Any run of the scheduler's operations is a run of the specification, which says for each operation and
-- its result what becomes of the clients' queues: first in, first out per client.
use lustre_tools.Base.{
  some_inj, ℕ, ◌≤◌, ◌≡◌, ◌≢◌, refl, sym, ap, ◌∙◌, Bool, true, false, List, [], ◌∷◌, ◌++◌, Option,
  none, some, ◌⊎◌, inl, inr, ℤ, success,
}
use lustre_tools.Nrs.Tbf.Sched.{
  Nrq, ClientHeap, Sched, is_listed, nrs_tbf_req_get, nrs_tbf_req_add, nrs_tbf_req_del,
  nrs_tbf_timer_cb,
}
use lustre_tools.Nrs.Tbf.Sched.Queues.{IsClientHeap, Sound}
use lustre_tools.Nrs.Tbf.Sched.Add.{Sound-same, nrs_tbf_req_add-Queued}
use lustre_tools.Nrs.Tbf.Sched.Get.{Hands, Waits, nrs_tbf_req_get-Hands, nrs_tbf_req_del-Drops}

-- What a caller sees of an operation: the request that it adds with the result, whether it peeks and the
-- request that it gets, or the request that it removes.
pub data Event : Type 0 where
  offered : ℕ → ℕ → ℤ → Event
  asked : Bool → Option Nrq → Event
  removed : ℕ → ℕ → Event
  fired : Event

abbrev pub Same : (ℕ → List Nrq) → (ℕ → List Nrq) → Type 0
Same q q' = (j : ℕ) → q' j ≡ q j

abbrev pub Others : ℕ → (ℕ → List Nrq) → (ℕ → List Nrq) → Type 0
Others i q q' = (j : ℕ) → j ≢ i → q' j ≡ q j

-- The specification. A request that is added with success stands behind the others of its client; one that
-- is handed out was the first of a client, and is gone unless the caller peeks; the one that is removed
-- is gone from where it stood. All else stays.
abbrev pub Allows : Event → (ℕ → List Nrq) → (ℕ → List Nrq) → Type 0
Allows (offered cli nrq rc) q q' =
    ((rc ≡ success) × ((r : Nrq) × (r.nrq ≡ nrq) × (q' cli ≡ q cli ++ (r ∷ [])) × Others cli q q'))
    ⊎ ((rc ≢ success) × Same q q')
Allows (asked peek (some r)) q q' =
    (i : ℕ) × (rest : List Nrq) × (q i ≡ r ∷ rest)
    × (((peek ≡ true) × Same q q') ⊎ ((peek ≡ false) × (q' i ≡ rest) × Others i q q'))
Allows (asked peek none) q q' = Same q q'
Allows (removed cli nrq) q q' =
    (us vs : List Nrq) × ((r : Nrq) × (r.nrq ≡ nrq)
      × (q cli ≡ us ++ (r ∷ vs))
      × (q' cli ≡ us ++ vs)
      × Others cli q q')
Allows fired q q' = Same q q'

-- The specification's runs, with what was seen, the last one first.
pub data Runs (q : ℕ → List Nrq) : List Event → (ℕ → List Nrq) → Type 0 where
  begin : Runs q [] q
  move :
      {e : Event} {es : List Event} {q1 q2 : ℕ → List Nrq}
      → Runs q es q1
      → Allows e q1 q2
      → Runs q (e ∷ es) q2

module _ {H : Type 0} (heap : ClientHeap H) (laws : IsClientHeap heap) where
  -- A request is handed out at a time that is not before any client's last check, and removed from the
  -- queue that it stands in.
  pub data Step (s : Sched H) (e : Event) (s' : Sched H) : Type 0 where
    add :
        (cli nrq : ℕ) (cancelled : Bool) (rc : ℤ)
        → nrs_tbf_req_add heap s cli nrq cancelled ≡ some (rc, s')
        → e ≡ offered cli nrq rc
        → Step s e s'
    get :
        (peek : Bool) (now : ℕ) (o : Option Nrq)
        → ((i : ℕ) → (s.client_at i).tc_check_time ≤ now)
        → nrs_tbf_req_get heap s peek now ≡ some (o, s')
        → e ≡ asked peek o
        → Step s e s'
    del :
        (cli nrq : ℕ)
        → is_listed nrq (s.tc_list cli) ≡ true
        → nrs_tbf_req_del heap s cli nrq ≡ some s'
        → e ≡ removed cli nrq
        → Step s e s'
    fire : s' ≡ nrs_tbf_timer_cb heap s → e ≡ fired → Step s e s'

  pub data Reach (s : Sched H) : List Event → Sched H → Type 0 where
    here : Reach s [] s
    next :
        {e : Event} {es : List Event} {s1 s2 : Sched H}
        → Reach s es s1
        → Step s1 e s2
        → Reach s (e ∷ es) s2

  -- Sound, and as the specification allows for the event.
  Moved : Event → Sched H → Sched H → Type 0
  Moved e s s' = Sound heap laws s' × Allows e s.tc_list s'.tc_list

  moved : (e e' : Event) (s s1 s' : Sched H) → e ≡ e' → s' ≡ s1 → Moved e' s s1 → Moved e s s'
  moved e e' s s1 s' x y m = rw (x, y) m

  got-Allows :
      (s : Sched H) (peek : Bool) (r : Option Nrq × Sched H)
      → Hands heap laws s peek r ⊎ Waits heap laws s r
      → Allows (asked peek r.0) s.tc_list r.1.tc_list
  got-Allows s peek (o, s1) (inr (e, same, _)) = rw e same
  got-Allows s peek (o, s1) (inl (i, q, rest, e, front, _, inl (peeks, unchanged))) =
      rw e (i, rest, front, inl (peeks, λ j. ap (λ (t : Sched H). t.tc_list j) unchanged))
  got-Allows s peek (o, s1) (inl (i, q, rest, e, front, _, inr (takes, left, others))) =
      rw e (i, rest, front, inr (takes, left, others))

  Step-Moved : (s s' : Sched H) (e : Event) → Step s e s' → Sound heap laws s → Moved e s s'
  unfolding nrs_tbf_timer_cb Moved
  Step-Moved s s' e (add cli nrq cancelled rc done x) v =
      let (r, step, sound, does) = nrs_tbf_req_add-Queued heap laws s cli nrq cancelled v in
      let same : (rc, s') ≡ r = some_inj (sym done ∙ step) in
      moved e (offered cli nrq r.0) s r.1 s'
        (x ∙ ap (λ (p : ℤ × Sched H). offered cli nrq p.0) same)
        (ap (λ (p : ℤ × Sched H). p.1) same)
        (
          sound,
          elim does [
            | inl (ok, pushed, others) ↦
                inl (ok, (record { nrq = nrq; tr_sequence = s.th_sequence }, refl, pushed, others))
            | inr (failed, same_lists) ↦ inr (failed, same_lists)
          ],
        )
  Step-Moved s s' e (get peek now o le done x) v =
      let (r, step, sound, does) = nrs_tbf_req_get-Hands heap laws s peek now v le in
      let same : (o, s') ≡ r = some_inj (sym done ∙ step) in
      moved e (asked peek r.0) s r.1 s' (x ∙ ap (λ (p : Option Nrq × Sched H). asked peek p.0) same)
        (ap (λ (p : Option Nrq × Sched H). p.1) same) (sound, got-Allows s peek r does)
  Step-Moved s s' e (del cli nrq on done x) v =
      let (s1, step, sound, (us, vs, (r, at, left, named), others)) =
        nrs_tbf_req_del-Drops heap laws s cli nrq v on in
      moved e (removed cli nrq) s s1 s' x (some_inj (sym done ∙ step))
        (sound, (us, vs, (r, named, at, left, others)))
  Step-Moved s s' e (fire done x) v =
      moved e fired s (nrs_tbf_timer_cb heap s) s' x done
        (Sound-same heap laws s _ refl refl refl refl v, λ j. refl)

  -- From a sound state, any sequence of the scheduler's operations leads to a sound state, and together
  -- with what the callers saw it is a run of the specification: a request that was added with success
  -- went behind the others of its client, the request that was handed out was the first of a client
  -- and was taken from there unless the caller peeked, the request that was removed is gone, and in
  -- each step all else stayed. A request is handed out at a time that is not before any client's last
  -- check, and removed from the queue that it stands in.
  pub Reach-Runs :
      (s s' : Sched H) (es : List Event)
      → Reach s es s'
      → Sound heap laws s
      → Sound heap laws s' × Runs s.tc_list es s'.tc_list
  unfolding Moved
  Reach-Runs s s' es here v = (v, begin)
  Reach-Runs s s' es (next {e} {es = es'} {s1} run step) v =
      let (sound, runs) = Reach-Runs s s1 es' run v in
      let (sound', moves) = Step-Moved s1 s' e step sound in (sound', move runs moves)
