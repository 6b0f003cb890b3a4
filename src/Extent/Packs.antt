-- ===== src/Extent/Packs.antt =====
-- What `get_write_extents` packs into a request.
use lustre_tools.Base.{
  update, ℕ, ◌+◌, ◌%◌, ◌^◌, ◌≤◌, ◌<◌, ◌≡◌, refl, Bool, true, false, List, [], ◌∷◌, ◌++◌, Option,
  some, ◌⊎◌, inl, inr, Bool-cases, arith, ltb, ◌==◌, length,
}
use lustre_tools.Extent.{
  Extent, Pack, is_cache, is_ready_state, without, is_owner, compatible, move_to_rpc, fits_first,
  raise_max, try_to_add_extent_for_io,
}

abbrev pub pages_of : (ℕ → Extent) → List ℕ → ℕ
pages_of at [] = 0
pages_of at (e ∷ es) = (at e).oe_nr_pages + pages_of at es

-- Two extents may be written together: they agree in their type, in who locks and in whether they have
-- grants, and neither must be kept from merging.
pub record GoesWith (t e : Extent) : Type 0 where
  pub same_type : t.cp_type ≡ e.cp_type
  pub same_lock : t.oe_srvlock ≡ e.oe_srvlock
  pub same_grants : t.has_grants ≡ e.has_grants
  pub merges : t.oe_no_merge ≡ false
  pub other_merges : e.oe_no_merge ≡ false

compatible-GoesWith : (t e : Extent) → compatible t e ≡ true → GoesWith t e
unfolding compatible
compatible-GoesWith t e c = record {
  same_type = ground (arith, c);
  same_lock = ground (arith, c);
  same_grants = ground (arith, c);
  merges = ground (arith, c);
  other_merges = ground (arith, c);
}

abbrev pub AllCompatible : (ℕ → Extent) → ℕ → List ℕ → Type 0
AllCompatible at t [] = Unit {0}
AllCompatible at t (e ∷ es) = GoesWith (at t) (at e) × AllCompatible at t es

-- Each extent may go with the first.
abbrev pub Alike : (ℕ → Extent) → List ℕ → Type 0
Alike at [] = Unit {0}
Alike at (t ∷ es) = AllCompatible at t es

abbrev pub AllOwned : ℕ → (ℕ → Option ℕ) → List ℕ → Type 0
AllOwned current owner [] = Unit {0}
AllOwned current owner (e ∷ es) = (is_owner (owner e) current ≡ true) × AllOwned current owner es

abbrev pub AllReady : (ℕ → Extent) → List ℕ → Type 0
AllReady at [] = Unit {0}
AllReady at (e ∷ es) = (is_ready_state (at e).oe_state ≡ true) × AllReady at es

abbrev pub AllCache : (ℕ → Extent) → List ℕ → Type 0
AllCache at [] = Unit {0}
AllCache at (e ∷ es) = (is_cache (at e).oe_state ≡ true) × AllCache at es

-- The request of a thread: its pages are counted and within the limit, its extents may go together and
-- belong to the thread; the urgent extents that are left are in a state to be written. The numbers fit.
pub record Packed (current : ℕ) (p : Pack) : Type 0 where
  pub counted : pages_of p.extent_at p.rpclist ≡ p.page_count
  pub bounded : p.page_count ≤ p.max_pages
  pub alike : Alike p.extent_at p.rpclist
  pub owned : AllOwned current p.oe_owner p.rpclist
  pub ready : AllReady p.extent_at p.oo_urgent_exts
  pub limit_fits : p.max_pages < 2 ^ 31
  pub sizes : (e : ℕ) → ((p.extent_at e).oe_nr_pages < 2 ^ 31) × ((p.extent_at e).oe_mppr < 2 ^ 31)

-- The extents are those they were, and no urgent one has come.
pub record Onward (p p' : Pack) : Type 0 where
  pub extents : p'.extent_at ≡ p.extent_at
  pub urgent : length p'.oo_urgent_exts ≤ length p.oo_urgent_exts
  pub limit : p.max_pages ≤ p'.max_pages

pages_of-append :
    (at : ℕ → Extent) (es : List ℕ) (e : ℕ)
    → pages_of at (es ++ (e ∷ [])) ≡ pages_of at es + (at e).oe_nr_pages
pages_of-append at [] e = omega arith
pages_of-append at (x ∷ es) e = omega (arith, pages_of-append at es e)

AllCompatible-append :
    (at : ℕ → Extent) (t : ℕ) (es : List ℕ) (e : ℕ)
    → AllCompatible at t es
    → GoesWith (at t) (at e)
    → AllCompatible at t (es ++ (e ∷ []))
AllCompatible-append at t [] e h c = (c, tt)
AllCompatible-append at t (x ∷ es) e h c = (h.0, AllCompatible-append at t es e h.1 c)

AllOwned-append :
    (current : ℕ) (owner : ℕ → Option ℕ) (es : List ℕ) (e : ℕ)
    → AllOwned current owner es
    → AllOwned current (update owner e (some current)) (es ++ (e ∷ []))
AllOwned-append current owner [] e h = (ground arith, tt)
AllOwned-append current owner (x ∷ es) e h =
    (ground (arith, h.0), AllOwned-append current owner es e h.1)

AllReady-without :
    (at : ℕ → Extent) (e : ℕ) (es : List ℕ) → AllReady at es → AllReady at (without e es)
AllReady-without at e [] h = tt
AllReady-without at e (x ∷ es) h = elim (Bool-cases (x == e)) [
  | inl hit ↦ rw hit h.1
  | inr miss ↦ rw miss (h.0, AllReady-without at e es h.1)
]

length-without : (e : ℕ) (es : List ℕ) → length (without e es) ≤ length es
length-without e [] = omega arith
length-without e (x ∷ es) = ground (arith, length-without e es)

pub List-cases : (xs : List ℕ) → (xs ≡ []) ⊎ ((x : ℕ) × (rest : List ℕ) × (xs ≡ x ∷ rest))
List-cases [] = inl refl
List-cases (x ∷ xs) = inr (x, xs, refl)

-- The first extent allows another, or not; the request that is empty allows any.
fits_first-Alike :
    (current : ℕ) (p : Pack) (e : ℕ)
    → Packed current p
    → (b : Bool) × (fits_first current p e ≡ some b)
      × (b ≡ true → Alike p.extent_at (p.rpclist ++ (e ∷ [])))
unfolding fits_first
fits_first-Alike current p e v = elim (List-cases p.rpclist) [
  | inl empty ↦ (true, ground (arith, empty), λ _. rw empty tt)
  | inr (t, rest, cons) ↦
      let owned : AllOwned current p.oe_owner (t ∷ rest) = rw cons at v.owned in
      let alike : Alike p.extent_at (t ∷ rest) = rw cons at v.alike in
      (
        compatible (p.extent_at t) (p.extent_at e),
        ground (arith, cons, owned.0),
        λ c. rw cons (AllCompatible-append p.extent_at t rest e alike (compatible-GoesWith _ _ c)),
      )
]

raise_max-Packed :
    (current : ℕ) (p : Pack) (e : ℕ) → Packed current p → Packed current (raise_max p e)
raise_max-Packed current p e v = record {
  counted = v.counted;
  bounded = ground (arith, v.bounded);
  alike = v.alike;
  owned = v.owned;
  ready = v.ready;
  limit_fits = ground (arith, v.limit_fits, (v.sizes e).1);
  sizes = v.sizes;
}

move_to_rpc-Packed :
    (current : ℕ) (p : Pack) (e : ℕ)
    → Packed current p
    → (p.page_count + (p.extent_at e).oe_nr_pages) % 2 ^ 32 ≤ p.max_pages
    → Alike p.extent_at (p.rpclist ++ (e ∷ []))
    → Packed current (move_to_rpc current p e)
unfolding move_to_rpc
move_to_rpc-Packed current p e v fits alike = record {
  counted = omega (
    arith,
    pages_of-append p.extent_at p.rpclist e,
    v.counted,
    v.bounded,
    v.limit_fits,
    (v.sizes e).0,
  );
  bounded = fits;
  alike = alike;
  owned = AllOwned-append current p.oe_owner p.rpclist e v.owned;
  ready = AllReady-without p.extent_at e p.oo_urgent_exts v.ready;
  limit_fits = v.limit_fits;
  sizes = v.sizes;
}

-- An attempt to add an extent returns, and one that adds it takes it off the urgent ones.
pub record Tried (current : ℕ) (p : Pack) (e : ℕ) (r : Bool × Pack) : Type 0 where
  pub packed : Packed current r.1
  pub onward : Onward p r.1
  pub tree : r.1.tree ≡ p.tree
  pub removed : r.0 ≡ true → r.1.oo_urgent_exts ≡ without e p.oo_urgent_exts
  pub small : r.0 ≡ true → (p.extent_at e).oe_nr_pages ≤ r.1.max_pages

pub try_to_add-Tried :
    (current : ℕ) (p : Pack) (e : ℕ)
    → is_ready_state (p.extent_at e).oe_state ≡ true
    → Packed current p
    → (r : Bool × Pack) × (try_to_add_extent_for_io current p e ≡ some r) × Tried current p e r
unfolding try_to_add_extent_for_io move_to_rpc
try_to_add-Tried current p e ready v =
    let p1 = raise_max p e in
    let v1 = raise_max-Packed current p e v in
    let stays : Tried current p e (false, p1) = record {
      packed = v1;
      onward = record { extents = refl; urgent = omega arith; limit = ground arith };
      tree = refl;
      removed = λ c. ground (arith, c);
      small = λ c. ground (arith, c);
    } in
    elim (Bool-cases (ltb p1.max_pages ((p1.page_count + (p1.extent_at e).oe_nr_pages) % 2 ^ 32))) [
      | inl over ↦ ((false, p1), rw (ready, over) refl, stays)
      | inr room ↦
          let (b, fits, alike) = fits_first-Alike current p1 e v1 in
          elim (Bool-cases b) [
            | inr apart ↦ ((false, p1), rw (ready, room, fits, apart) refl, stays)
            | inl together ↦ (
              (true, move_to_rpc current p1 e),
              rw (ready, room, fits, together) refl,
              record {
                packed = move_to_rpc-Packed current p1 e v1 (ground arith) (alike together);
                onward = record {
                  extents = refl;
                  urgent = length-without e p.oo_urgent_exts;
                  limit = ground arith;
                };
                tree = refl;
                removed = λ _. refl;
                small = λ _. ground (arith, v1.bounded, v1.limit_fits, (v1.sizes e).0);
              },
            )
          ]
    ]
