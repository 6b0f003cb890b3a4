-- ===== src/Extent/Loops.antt =====
-- The loops of `get_write_extents` end, and what they leave.
use lustre_tools.Base.{
  ℕ, zero, suc, ◌^◌, ◌≤◌, ◌<◌, ◌≡◌, refl, ◌∙◌, Bool, true, false, not, ◌&&◌, ◌||◌, List, [], ◌∷◌,
  Option, some, inl, inr, Bool-cases, arith, leb, ◌==◌, length,
}
use lustre_tools.Extent.{
  Extent, Pack, is_cache, is_ready_state, has_owner, try_to_add_extent_for_io, take_hp, is_linked,
  take_tree, tree_after, take_urgent, unless_full, get_write_extents,
}
use lustre_tools.Extent.Packs.{AllReady, AllCache, Packed, Onward, List-cases, try_to_add-Tried}

chained : (p q r : Pack) → Onward p q → Onward q r → Onward p r
chained p q r h k = record {
  extents = k.extents ∙ h.extents;
  urgent = omega (arith, h.urgent, k.urgent);
  limit = omega (arith, h.limit, k.limit);
}

at_rest : (p : Pack) → Onward p p
at_rest p = record { extents = refl; urgent = omega arith; limit = omega arith }

-- A loop returns with a request that is packed.
Ends : ℕ → Pack → Option (Bool × Pack) → Type 0
Ends current p o = (r : Bool × Pack) × (o ≡ some r) × Packed current r.1 × Onward p r.1

ready_of_cache : (e : Extent) → is_cache e.oe_state ≡ true → is_ready_state e.oe_state ≡ true
ready_of_cache e h = ground (arith, h)

-- What happens later happens to a state that came from this one.
later :
    (current : ℕ) (p q : Pack) (o : Option (Bool × Pack))
    → Onward p q
    → Ends current q o
    → Ends current p o
unfolding Ends
later current p q o h (r, step, packed, onward) = (r, step, packed, chained p q r.1 h onward)

take_tree-Ends :
    (current : ℕ) (es : List ℕ) (p : Pack)
    → Packed current p
    → Ends current p (take_tree current es p)
unfolding take_tree Ends
take_tree-Ends current [] p v = ((true, p), refl, v, at_rest p)
take_tree-Ends current (e ∷ es) p v =
    elim (Bool-cases
      (not (is_cache (p.extent_at e).oe_state) || (is_linked p e && has_owner (p.oe_owner e)))) [
        | inl skip ↦ rw skip (take_tree-Ends current es p v)
        | inr takes ↦
            let ready = ready_of_cache (p.extent_at e) (ground (arith, takes)) in
            let (r, step, tried) = try_to_add-Tried current p e ready v in
            elim (Bool-cases r.0) [
              | inl added ↦
                  let rest =
                    later current p r.1 _ tried.onward
                      (take_tree-Ends current es r.1 tried.packed) in
                  rw (takes, step, added) rest
              | inr full ↦ ((false, r.1), rw (takes, step, full) refl, tried.packed, tried.onward)
            ]
      ]

take_hp-Ends :
    (current : ℕ) (es : List ℕ) (p : Pack)
    → AllCache p.extent_at es
    → Packed current p
    → Ends current p (take_hp current es p)
unfolding take_hp Ends
take_hp-Ends current [] p h v = ((true, p), refl, v, at_rest p)
take_hp-Ends current (e ∷ es) p h v =
    let ready = ready_of_cache (p.extent_at e) h.0 in
    let (r, step, tried) = try_to_add-Tried current p e ready v in
    elim (Bool-cases r.0) [
      | inl added ↦
          let cached : AllCache r.1.extent_at es = rw tried.onward.extents h.1 in
          let small : leb (r.1.extent_at e).oe_nr_pages r.1.max_pages ≡ true =
            rw tried.onward.extents (ground (arith, tried.small added)) in
          let rest =
            later current p r.1 _ tried.onward (take_hp-Ends current es r.1 cached tried.packed) in
          rw (h.0, step, added, small) rest
      | inr full ↦ ((false, r.1), rw (h.0, step, full) refl, tried.packed, tried.onward)
    ]

module _ (current fuel : ℕ) (p : Pack) (e : ℕ) (es : List ℕ) (r : Bool × Pack)
    (cons : p.oo_urgent_exts ≡ e ∷ es) (step : try_to_add_extent_for_io current p e ≡ some r) where
  urgent_full : r.0 ≡ false → take_urgent current (suc fuel) p ≡ some (false, r.1)
  unfolding take_urgent
  urgent_full full = ground (arith, cons, step, full)

  urgent_outside :
      r.0 ≡ true
      → (r.1.extent_at e).oe_intree ≡ false
      → take_urgent current (suc fuel) p ≡ take_urgent current fuel r.1
  unfolding take_urgent
  urgent_outside added outside = ground (arith, cons, step, added, outside)

  urgent_more :
      (t : Bool × Pack)
      → r.0 ≡ true
      → (r.1.extent_at e).oe_intree ≡ true
      → take_tree current (tree_after e r.1.tree) r.1 ≡ some t
      → t.0 ≡ true
      → take_urgent current (suc fuel) p ≡ take_urgent current fuel t.1
  unfolding take_urgent
  urgent_more t added inside walk more = ground (arith, cons, step, added, inside, walk, more)

  urgent_stop :
      (t : Bool × Pack)
      → r.0 ≡ true
      → (r.1.extent_at e).oe_intree ≡ true
      → take_tree current (tree_after e r.1.tree) r.1 ≡ some t
      → t.0 ≡ false
      → take_urgent current (suc fuel) p ≡ some (false, t.1)
  unfolding take_urgent
  urgent_stop t added inside walk full = ground (arith, cons, step, added, inside, walk, full)

-- The fuel is enough: each turn takes an extent off the list.
take_urgent-Ends :
    (current fuel : ℕ) (p : Pack)
    → length p.oo_urgent_exts ≤ fuel
    → Packed current p
    → Ends current p (take_urgent current fuel p)
unfolding take_urgent Ends
take_urgent-Ends current zero p le v = elim (List-cases p.oo_urgent_exts) [
  | inl empty ↦ ((true, p), ground (arith, empty), v, at_rest p)
  | inr (e, es, cons) ↦ ground (arith, le, cons)
]
take_urgent-Ends current (suc fuel) p le v = elim (List-cases p.oo_urgent_exts) [
  | inl empty ↦ ((true, p), ground (arith, empty), v, at_rest p)
  | inr (e, es, cons) ↦
      let ready : AllReady p.extent_at (e ∷ es) = rw cons at v.ready in
      let (r, step, tried) = try_to_add-Tried current p e ready.0 v in
      elim (Bool-cases r.0) [
        | inr full ↦ (
          (false, r.1),
          urgent_full current fuel p e es r cons step full,
          tried.packed,
          tried.onward,
        )
        | inl added ↦
            let less : length r.1.oo_urgent_exts ≤ fuel =
              ground (arith, tried.removed added, cons, le) in
            elim (Bool-cases (r.1.extent_at e).oe_intree) [
              | inr outside ↦
                  let (q, steps, packed, onward) =
                    later current p r.1 _ tried.onward
                      (take_urgent-Ends current fuel r.1 less tried.packed) in
                  (
                    q,
                    urgent_outside current fuel p e es r cons step added outside ∙ steps,
                    packed,
                    onward,
                  )
              | inl inside ↦
                  let (t, walk, packed_t, onward_t) =
                    take_tree-Ends current (tree_after e r.1.tree) r.1 tried.packed in
                  let onward_pt = chained p r.1 t.1 tried.onward onward_t in
                  elim (Bool-cases t.0) [
                    | inl more ↦
                        let (q, steps, packed, onward) = later current p t.1 _ onward_pt (
                          take_urgent-Ends current fuel t.1 (omega (arith, less, onward_t.urgent))
                            packed_t) in
                        (
                          q,
                          urgent_more current fuel p e es r cons step t added inside walk more
                              ∙ steps,
                          packed,
                          onward,
                        )
                    | inr full ↦ (
                      (false, t.1),
                      urgent_stop current fuel p e es r cons step t added inside walk full,
                      packed_t,
                      onward_pt,
                    )
                  ]
            ]
      ]
]

unless_full-Ends :
    (current : ℕ) (f : Pack → Option (Bool × Pack)) (r : Bool × Pack)
    → Packed current r.1
    → Ends current r.1 (f r.1)
    → Ends current r.1 (unless_full f r)
unfolding unless_full Ends
unless_full-Ends current f r v rest =
    elim (Bool-cases (not r.0 || (r.1.page_count == r.1.max_pages))) [
      | inl full ↦ ((false, r.1), rw full refl, v, at_rest r.1)
      | inr more ↦ rw more rest
    ]

-- For an empty request, where the extents of high priority are cached and the urgent ones are cached or
-- locked, and the numbers are below 2^31, no assertion fails and the loops end: the request has as many pages as `page_count` says,
-- which is at most `max_pages`; each of its extents after the first agrees with the first in its
-- type, in who locks and in whether it has grants, and neither of the two is one that must not be
-- merged; and all of them belong to the thread.
pub get_write_extents-Packed :
    (current : ℕ) (p : Pack)
    → p.rpclist ≡ []
    → p.page_count ≡ 0
    → AllCache p.extent_at p.oo_hp_exts
    → AllReady p.extent_at p.oo_urgent_exts
    → p.max_pages < 2 ^ 31
    → ((e : ℕ) → ((p.extent_at e).oe_nr_pages < 2 ^ 31) × ((p.extent_at e).oe_mppr < 2 ^ 31))
    → (r : Bool × Pack) × (get_write_extents current p ≡ some r) × Packed current r.1 × Onward p r.1
unfolding get_write_extents Ends
get_write_extents-Packed current p empty none_yet cached ready limit_fits sizes =
    let v : Packed current p = record {
      counted = rw (empty, none_yet) refl;
      bounded = omega (arith, none_yet);
      alike = rw empty tt;
      owned = rw empty tt;
      ready = ready;
      limit_fits = limit_fits;
      sizes = sizes;
    } in
    let (r1, step1, v1, o1) = take_hp-Ends current p.oo_hp_exts p cached v in
    let (r2, step2, v2, o2) =
      unless_full-Ends current (λ q. take_urgent current (length q.oo_urgent_exts) q) r1 v1
        (take_urgent-Ends current (length r1.1.oo_urgent_exts) r1.1 (omega arith) v1) in
    let (r3, step3, v3, o3) =
      unless_full-Ends current (λ q. take_tree current q.tree q) r2 v2
        (take_tree-Ends current r2.1.tree r2.1 v2) in
    (r3, rw (step1, step2, step3) refl, v3, chained p r1.1 r3.1 o1 (chained r1.1 r2.1 r3.1 o2 o3))
