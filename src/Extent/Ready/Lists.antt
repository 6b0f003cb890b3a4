-- ===== src/Extent/Ready/Lists.antt =====
-- The lists of ready objects against what the objects have to do, and the first error of failed writes.
use lustre_tools.Base.{
  ℕ, ◌≤◌, ◌<◌, ◌≡◌, ◌≢◌, refl, Bool, true, false, ◌&&◌, ◌||◌, List, [], ◌∷◌, ◌++◌, inl, inr,
  Bool-cases, arith, ℤ, pos, eqb_ℤ, ltb_ℤ, ◌==◌, if◌then◌else◌,
}
use lustre_tools.Extent.Ready.{
  Pending, osc_makes_rpc, on, off, on_list, ObjectLists, osc_list_maint, AsyncRc, osc_process_ar,
}

on-append : (o j : ℕ) (xs : List ℕ) → on j (xs ++ (o ∷ [])) ≡ (if j == o then true else on j xs)
on-append o j [] = ground arith
on-append o j (x ∷ xs) = ground (arith, on-append o j xs)

on-off : (o j : ℕ) (xs : List ℕ) → on j (off o xs) ≡ (if j == o then false else on j xs)
on-off o j [] = ground arith
on-off o j (x ∷ xs) = ground (arith, on-off o j xs)

on-on_list :
    (o j : ℕ) (xs : List ℕ) (b : Bool) → on j (on_list o xs b) ≡ (if j == o then b else on j xs)
unfolding on_list
on-on_list o j xs b = elim (Bool-cases (j == o)) [
  | inl here ↦
      let same : j ≡ o = ground (arith, here) in
      ground (arith, on-append o j xs, on-off o j xs, same)
  | inr other ↦ ground (arith, on-append o j xs, on-off o j xs, other)
]

-- Whether an object is ready, in the order of the tests: for a request of high priority or for another.
abbrev pub Wants : Pending → Bool → Bool → Type 0
Wants p hp ready =
    (hp ≡ p.has_hp_exts)
    × (ready ≡ (if p.has_hp_exts then false else (osc_makes_rpc p true || osc_makes_rpc p false)))

-- After the maintenance an object is on the list of high priority exactly if it has such extents, on the
-- ready list exactly if it has none and makes a request, never on both, and on the lists for writing
-- and for reading exactly if it has such pages; the other objects stay on the lists that they are on.
pub osc_list_maint-on :
    (l : ObjectLists) (o : ℕ) (p : Pending)
    → let l' = osc_list_maint l o p in
      Wants p (on o l'.cl_loi_hp_ready_list) (on o l'.cl_loi_ready_list)
      × (on o l'.cl_loi_hp_ready_list && on o l'.cl_loi_ready_list ≡ false)
      × (on o l'.cl_loi_write_list ≡ ltb_ℤ (pos 0) p.oo_nr_writes)
      × (on o l'.cl_loi_read_list ≡ ltb_ℤ (pos 0) p.oo_nr_reads)
      × ((j : ℕ)
          → j ≢ o
          → (on j l'.cl_loi_hp_ready_list ≡ on j l.cl_loi_hp_ready_list)
            × (on j l'.cl_loi_ready_list ≡ on j l.cl_loi_ready_list)
            × (on j l'.cl_loi_write_list ≡ on j l.cl_loi_write_list)
            × (on j l'.cl_loi_read_list ≡ on j l.cl_loi_read_list))
unfolding osc_list_maint
osc_list_maint-on l o p =
    let ready = if p.has_hp_exts then false else (osc_makes_rpc p true || osc_makes_rpc p false) in
    let hp_on = on-on_list o o l.cl_loi_hp_ready_list p.has_hp_exts in
    let ready_on = on-on_list o o l.cl_loi_ready_list ready in
    (
      (ground (arith, hp_on), ground (arith, ready_on)),
      ground (arith, hp_on, ready_on),
      ground (arith, on-on_list o o l.cl_loi_write_list (ltb_ℤ (pos 0) p.oo_nr_writes)),
      ground (arith, on-on_list o o l.cl_loi_read_list (ltb_ℤ (pos 0) p.oo_nr_reads)),
      λ j ne. (
        ground (arith, on-on_list o j l.cl_loi_hp_ready_list p.has_hp_exts),
        ground (arith, on-on_list o j l.cl_loi_ready_list ready),
        ground (arith, on-on_list o j l.cl_loi_write_list (ltb_ℤ (pos 0) p.oo_nr_writes)),
        ground (arith, on-on_list o j l.cl_loi_read_list (ltb_ℤ (pos 0) p.oo_nr_reads)),
      ),
    )

-- Requests that are done one after the other: the next number, the request's number and its code.
abbrev pub process_all : AsyncRc → List (ℕ × ℕ × ℤ) → AsyncRc
process_all ar [] = ar
process_all ar ((next_xid, xid, rc) ∷ rest) = process_all (osc_process_ar ar next_xid xid rc) rest

abbrev pub first_error : ℤ → List (ℕ × ℕ × ℤ) → ℤ
first_error rc [] = rc
first_error rc ((_, _, rc') ∷ rest) = first_error (if eqb_ℤ rc (pos 0) then rc' else rc) rest

-- All of them succeed, and were sent before a number.
abbrev pub AllBefore : ℕ → List (ℕ × ℕ × ℤ) → Type 0
AllBefore n [] = Unit {0}
AllBefore n ((_, xid, rc) ∷ rest) = (rc ≡ pos 0) × (xid < n) × AllBefore n rest

process_all-first_error :
    (ar : AsyncRc) (es : List (ℕ × ℕ × ℤ)) → (process_all ar es).ar_rc ≡ first_error ar.ar_rc es
unfolding osc_process_ar
process_all-first_error ar [] = refl
process_all-first_error ar ((next_xid, xid, rc) ∷ rest) =
    let ih = process_all-first_error (osc_process_ar ar next_xid xid rc) rest in ground (arith, ih)

process_all-before :
    (ar : AsyncRc) (n : ℕ) (es : List (ℕ × ℕ × ℤ))
    → ar.ar_force_sync ≡ true
    → ar.ar_min_xid ≡ n
    → AllBefore n es
    → ((process_all ar es).ar_force_sync ≡ true) × ((process_all ar es).ar_min_xid ≡ n)
unfolding osc_process_ar
process_all-before ar n [] forced min h = (forced, min)
process_all-before ar n ((next_xid, xid, rc) ∷ rest) forced min (ok, before, h) =
    process_all-before (osc_process_ar ar next_xid xid rc) n rest
      (ground (arith, forced, min, ok, before)) (ground (arith, forced, min, ok, before)) h

-- The record keeps the first error of all. After a failed write, writes that succeed but were sent before it
-- was recorded leave the writes forced to be synchronous; one that was sent later ends that.
pub osc_process_ar-forced :
    (ar : AsyncRc) (es : List (ℕ × ℕ × ℤ)) (n m xid xid' : ℕ) (rc : ℤ)
    → rc ≢ pos 0
    → AllBefore n es
    → n ≤ xid'
    → let ar' = process_all ar ((n, xid, rc) ∷ es) in
      (ar'.ar_rc ≡ first_error ar.ar_rc ((n, xid, rc) ∷ es))
      × (ar'.ar_force_sync ≡ true)
      × ((osc_process_ar ar' m xid' (pos 0)).ar_force_sync ≡ false)
      × ((osc_process_ar ar' m xid' (pos 0)).ar_rc ≡ ar'.ar_rc)
unfolding osc_process_ar
osc_process_ar-forced ar es n m xid xid' rc failed before late =
    let ar1 = osc_process_ar ar n xid rc in
    let (forced, min) = process_all-before ar1 n es (ground arith) (ground arith) before in
    (
      process_all-first_error ar ((n, xid, rc) ∷ es),
      forced,
      ground (arith, forced, min, late),
      ground arith,
    )
