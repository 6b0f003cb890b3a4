-- ===== src/Service/Timed/Lists.antt =====
-- One list of ptlrpc_at_check_timed in service.c: what is taken from it and what is left.
use lustre_tools.Base.{
  some, ℕ, suc, ◌+◌, ◌^◌, ◌≤◌, ◌<◌, ◌≡◌, ◌≢◌, refl, ◌∙◌, true, false, Option, inl, inr, List, [],
  ◌∷◌, length, ltb, ◌==◌, if◌then◌else◌, Bool-cases, arith,
}
use lustre_tools.Service.Timed.{
  TimedRequest, Scan, sub32, without, unlinked, put_to_work, ptlrpc_at_remove_timed, take_request,
  scan_list, earlier,
}

abbrev pub later : ℕ → List TimedRequest → List TimedRequest
later limit [] = []
later limit (rq ∷ rqs) =
    let rest = later limit rqs in if ltb limit rq.rq_deadline then rq ∷ rest else rest

-- Those that are due and alive, each with one more reference, with the last one first, before `acc`.
abbrev pub due_onto : ℕ → List TimedRequest → List TimedRequest → List TimedRequest
due_onto limit [] acc = acc
due_onto limit (rq ∷ rqs) acc =
    let more = due_onto limit rqs (
      if ltb 0 rq.rq_refcount then record rq { rq_refcount = rq.rq_refcount + 1 } ∷ acc else acc) in
    let skip = due_onto limit rqs acc in if ltb limit rq.rq_deadline then skip else more

abbrev pub head_deadline : Option ℕ → List TimedRequest → Option ℕ
head_deadline d [] = d
head_deadline d (rq ∷ rqs) = earlier d rq.rq_deadline

abbrev pub AllFrom : ℕ → List TimedRequest → Type 0
AllFrom d [] = Unit {0}
AllFrom d (rq ∷ rqs) = (d ≤ rq.rq_deadline) × AllFrom d rqs

-- A request that knows that it is on list i.
abbrev pub Linked : ℕ → TimedRequest → Type 0
Linked i rq = (rq.rq_at_index ≡ i) × (rq.is_timed ≡ true)

-- Sorted by the deadline, and each request knows its list.
abbrev pub IsSorted : ℕ → List TimedRequest → Type 0
IsSorted i [] = Unit {0}
IsSorted i (rq ∷ rqs) = Linked i rq × AllFrom rq.rq_deadline rqs × IsSorted i rqs

pub AllFrom-mono : (d e : ℕ) (rqs : List TimedRequest) → d ≤ e → AllFrom e rqs → AllFrom d rqs
AllFrom-mono d e [] h a = tt
AllFrom-mono d e (rq ∷ rqs) h (a, al) = (omega arith, AllFrom-mono d e rqs h al)

all_later : (limit : ℕ) (rqs : List TimedRequest) → AllFrom (suc limit) rqs → later limit rqs ≡ rqs
all_later limit [] h = refl
all_later limit (rq ∷ rqs) (a, al) =
    let t : ltb limit rq.rq_deadline ≡ true = ground arith in rw (t, all_later limit rqs al) refl

none_due :
    (limit : ℕ) (rqs acc : List TimedRequest)
    → AllFrom (suc limit) rqs
    → due_onto limit rqs acc ≡ acc
none_due limit [] acc h = refl
none_due limit (rq ∷ rqs) acc (a, al) =
    let t : ltb limit rq.rq_deadline ≡ true = ground arith in rw (t, none_due limit rqs acc al) refl

pub later-IsSorted :
    (limit i : ℕ) (rqs : List TimedRequest) → IsSorted i rqs → IsSorted i (later limit rqs)
later-IsSorted limit i [] h = tt
later-IsSorted limit i (rq ∷ rqs) (e, a, s) = elim (Bool-cases (ltb limit rq.rq_deadline)) [
  | inl t ↦
      let from : AllFrom (suc limit) rqs =
        AllFrom-mono (suc limit) rq.rq_deadline rqs (ground arith) a in
      rw (t, all_later limit rqs from) (e, a, s)
  | inr t ↦ rw t (later-IsSorted limit i rqs s)
]

-- What the scan of list `i`, which was `rqs`, does to the state.
pub record Scanned (limit i : ℕ) (rqs : List TimedRequest) (s s' : Scan) : Type 0 where
  pub list_here : s'.at_array.paa_reqs_array i ≡ later limit rqs
  pub list_else : (j : ℕ) → i ≢ j → s'.at_array.paa_reqs_array j ≡ s.at_array.paa_reqs_array j
  pub count_here : s'.at_array.paa_reqs_count i ≡ length (later limit rqs)
  pub count_else : (j : ℕ) → i ≢ j → s'.at_array.paa_reqs_count j ≡ s.at_array.paa_reqs_count j
  pub size_kept : s'.at_array.paa_size ≡ s.at_array.paa_size
  pub total : s'.at_array.paa_count + length rqs ≡ s.at_array.paa_count + length (later limit rqs)
  pub taken : s'.work_list ≡ due_onto limit rqs s.work_list
  pub nearest : s'.deadline ≡ head_deadline s.deadline (later limit rqs)

pub same_test : (k : ℕ) → (k == k) ≡ true
same_test k = ground arith

pub other_test : (k j : ℕ) → k ≢ j → (j == k) ≡ false
other_test k j h = ground arith

-- Taking the first request of list `i`.
abbrev took : Scan → TimedRequest → Scan
took s rq = record s { at_array = unlinked s.at_array rq; work_list = put_to_work rq s.work_list }

took_lem :
    (i : ℕ) (rq : TimedRequest) (s : Scan) → Linked i rq → take_request s rq ≡ some (took s rq)
unfolding take_request ptlrpc_at_remove_timed
took_lem i rq s (_, on) = rw on refl

module _ (i : ℕ) (rq : TimedRequest) (rqs : List TimedRequest) (s : Scan)
    (x : rq.rq_at_index ≡ i) where
  took_here : s.at_array.paa_reqs_array i ≡ rq ∷ rqs → (took s rq).at_array.paa_reqs_array i ≡ rqs
  unfolding unlinked without
  took_here e = rw (x, same_test i, e, same_test rq.rq_xid) refl

  took_else : (j : ℕ) → i ≢ j → (took s rq).at_array.paa_reqs_array j ≡ s.at_array.paa_reqs_array j
  unfolding unlinked
  took_else j k = rw (x, other_test i j k) refl

  count_took : (took s rq).at_array.paa_reqs_count i ≡ sub32 (s.at_array.paa_reqs_count i) 1
  unfolding unlinked
  count_took = rw (x, same_test i) refl

  count_took_else :
      (j : ℕ) → i ≢ j → (took s rq).at_array.paa_reqs_count j ≡ s.at_array.paa_reqs_count j
  unfolding unlinked
  count_took_else j k = rw (x, other_test i j k) refl

scan_stop :
    (limit : ℕ) (rq : TimedRequest) (rqs : List TimedRequest) (s : Scan)
    → ltb limit rq.rq_deadline ≡ true
    → scan_list limit (rq ∷ rqs) s
      ≡ some (record s { deadline = earlier s.deadline rq.rq_deadline })
unfolding scan_list
scan_stop limit rq rqs s u = rw u refl

scan_next :
    (limit i : ℕ) (rq : TimedRequest) (rqs : List TimedRequest) (s : Scan)
    → ltb limit rq.rq_deadline ≡ false
    → Linked i rq
    → scan_list limit (rq ∷ rqs) s ≡ scan_list limit rqs (took s rq)
unfolding scan_list
scan_next limit i rq rqs s u x = rw (u, took_lem i rq s x) refl

pub scan_list-Scanned :
    (limit i : ℕ) (rqs : List TimedRequest) (s : Scan)
    → IsSorted i rqs
    → s.at_array.paa_reqs_array i ≡ rqs
    → s.at_array.paa_reqs_count i ≡ length rqs
    → length rqs ≤ s.at_array.paa_count
    → s.at_array.paa_count < 2 ^ 32
    → (s' : Scan) × (scan_list limit rqs s ≡ some s') × Scanned limit i rqs s s'
unfolding scan_list unlinked put_to_work
scan_list-Scanned limit i [] s h e c t b = (
  s,
  refl,
  record {
    list_here = e;
    list_else = λ j k. refl;
    count_here = c;
    count_else = λ j k. refl;
    size_kept = refl;
    total = refl;
    taken = refl;
    nearest = refl;
  },
)
scan_list-Scanned limit i (rq ∷ rqs) s (x, a, h) e c t b =
    elim (Bool-cases (ltb limit rq.rq_deadline)) [
      | inl u ↦
          let from : AllFrom (suc limit) rqs =
            AllFrom-mono (suc limit) rq.rq_deadline rqs (ground arith) a in
          (
            record s { deadline = earlier s.deadline rq.rq_deadline },
            scan_stop limit rq rqs s u,
            record {
              list_here = rw (u, all_later limit rqs from) e;
              list_else = λ j k. refl;
              count_here = rw (u, all_later limit rqs from) c;
              count_else = λ j k. refl;
              size_kept = refl;
              total = rw (u, all_later limit rqs from) refl;
              taken = rw (u, none_due limit rqs s.work_list from) refl;
              nearest = rw u refl;
            },
          )
      | inr u ↦
          let s1 : Scan = took s rq in
          let (s', done, ih) =
            scan_list-Scanned limit i rqs s1 h (took_here i rq rqs s x.0 e)
              (count_took i rq rqs s x.0 ∙ omega (arith, c, t, b)) (omega (arith, t, b))
              (omega arith) in
          (
            s',
            scan_next limit i rq rqs s u x ∙ done,
            record {
              list_here = rw u ih.list_here;
              list_else = λ j k. ih.list_else j k ∙ took_else i rq rqs s x.0 j k;
              count_here = rw u ih.count_here;
              count_else = λ j k. ih.count_else j k ∙ count_took_else i rq rqs s x.0 j k;
              size_kept = ih.size_kept;
              total = rw u (omega (arith, ih.total, t, b));
              taken = rw u ih.taken;
              nearest = rw u ih.nearest;
            },
          )
    ]
