-- ===== src/Extent.antt =====
-- The choice of the extents for a write request (`get_write_extents`, `try_to_add_extent_for_io`), and when
-- an object is ready for one (`osc_makes_rpc`, `__osc_list_maint`, `osc_process_ar`), in
-- source/build/metric/osc_cache.c. Extents are known by their addresses; the object's tree is the list of
-- its extents in their order. `none` is a failed assertion.
pub mod Packs
pub mod Ready
pub mod Loops
mod Tests
use lustre_tools.Base.{
  ◌>>=◌, ◌>>◌, lassert, update, ℕ, zero, suc, ◌+◌, ◌%◌, ◌^◌, Bool, true, false, not, ◌&&◌, ◌||◌,
  List, [], ◌∷◌, ◌++◌, Option, none, some, ℤ, pos, eqb_ℤ, ltb, leb, ◌==◌, if◌then◌else◌, length,
}

-- The states of an extent that the functions tell apart: OES_CACHE, OES_LOCK_DONE and the others.
pub data OesState : Type 0 where
  oes_cache : OesState
  oes_lock_done : OesState
  oes_other : OesState

-- `struct osc_extent`; `cp_type` is that of its first page, and `has_grants` that `oe_grants` is not 0.
pub record Extent : Type 0 where
  pub oe_state : OesState
  pub oe_nr_pages : ℕ
  pub oe_mppr : ℕ
  pub oe_srvlock : Bool
  pub has_grants : Bool
  pub oe_no_merge : Bool
  pub oe_intree : Bool
  pub cp_type : ℕ

-- The object's lists, the request that is built (`rpclist`, `page_count`, `max_pages`), the owners of the
-- extents, and those that are on the list of another request.
pub record Pack : Type 0 where
  pub extent_at : ℕ → Extent
  pub on_other_list : ℕ → Bool
  pub oe_owner : ℕ → Option ℕ
  pub oo_hp_exts : List ℕ
  pub oo_urgent_exts : List ℕ
  pub tree : List ℕ
  pub rpclist : List ℕ
  pub page_count : ℕ
  pub max_pages : ℕ

abbrev pub is_cache : OesState → Bool
is_cache oes_cache = true
is_cache _ = false

abbrev pub is_ready_state : OesState → Bool
is_ready_state oes_other = false
is_ready_state _ = true

abbrev pub member : ℕ → List ℕ → Bool
member e [] = false
member e (x ∷ xs) = (x == e) || member e xs

abbrev pub without : ℕ → List ℕ → List ℕ
without e [] = []
without e (x ∷ xs) = if x == e then xs else x ∷ without e xs

abbrev pub same_bool : Bool → Bool → Bool
same_bool true b = b
same_bool false b = not b

abbrev pub is_owner : Option ℕ → ℕ → Bool
is_owner none current = false
is_owner (some t) current = t == current

abbrev pub has_owner : Option ℕ → Bool
has_owner none = false
has_owner (some t) = true

-- Whether an extent may go into a request with another one.
unfoldable pub compatible : Extent → Extent → Bool
compatible tmp ext =
    tmp.cp_type == ext.cp_type
    && (same_bool tmp.oe_srvlock ext.oe_srvlock
        && (same_bool tmp.has_grants ext.has_grants && not (tmp.oe_no_merge || ext.oe_no_merge)))

-- `list_move_tail` to the request, whose thread becomes the owner.
unfoldable pub move_to_rpc : ℕ → Pack → ℕ → Pack
move_to_rpc current p e = record p {
  page_count = (p.page_count + (p.extent_at e).oe_nr_pages) % 2 ^ 32;
  oo_hp_exts = without e p.oo_hp_exts;
  oo_urgent_exts = without e p.oo_urgent_exts;
  rpclist = p.rpclist ++ (e ∷ []);
  oe_owner = update p.oe_owner e (some current);
}

-- With the first extent of the request, if there is one.
unfoldable pub fits_first : ℕ → Pack → ℕ → Option Bool
fits_first current p e = elim p.rpclist [
  | [] ↦ some true
  | tmp ∷ rest ↦ lassert (is_owner (p.oe_owner tmp) current) >>= λ _.
      some (compatible (p.extent_at tmp) (p.extent_at e))
]

abbrev pub raise_max : Pack → ℕ → Pack
raise_max p e = record p {
  max_pages =
      if ltb p.max_pages (p.extent_at e).oe_mppr then (p.extent_at e).oe_mppr else p.max_pages;
}

unfoldable pub try_to_add_extent_for_io : ℕ → Pack → ℕ → Option (Bool × Pack)
try_to_add_extent_for_io current p e = lassert (is_ready_state (p.extent_at e).oe_state) >>= λ _.
    let p1 = raise_max p e in
    if ltb p1.max_pages ((p1.page_count + (p1.extent_at e).oe_nr_pages) % 2 ^ 32)
    then some (false, p1)
    else (fits_first current p1 e >>= λ fits.
        some (if fits then (true, move_to_rpc current p1 e) else (false, p1)))

-- The result is whether the request may take more.
unfoldable pub take_hp : ℕ → List ℕ → Pack → Option (Bool × Pack)
take_hp current [] p = some (true, p)
take_hp current (e ∷ es) p = lassert (is_cache (p.extent_at e).oe_state) >>= λ _.
    try_to_add_extent_for_io current p e >>= λ (added, p').
    if added
    then (lassert (leb (p'.extent_at e).oe_nr_pages p'.max_pages) >>= λ _. take_hp current es p')
    else some (false, p')

abbrev pub is_linked : Pack → ℕ → Bool
is_linked p e =
    member e p.oo_hp_exts
    || (member e p.oo_urgent_exts || (member e p.rpclist || p.on_other_list e))

-- The extents of a part of the tree that are cached and not in a request.
unfoldable pub take_tree : ℕ → List ℕ → Pack → Option (Bool × Pack)
take_tree current [] p = some (true, p)
take_tree current (e ∷ es) p =
    let rest = take_tree current es p in
    if not (is_cache (p.extent_at e).oe_state) || (is_linked p e && has_owner (p.oe_owner e))
    then rest
    else (try_to_add_extent_for_io current p e >>= λ (added, p').
        if added then take_tree current es p' else some (false, p'))

-- `next_extent`, again and again.
abbrev pub tree_after : ℕ → List ℕ → List ℕ
tree_after e [] = []
tree_after e (x ∷ xs) = if x == e then xs else tree_after e xs

-- On fuel: each turn takes an extent off the list of the urgent ones.
unfoldable pub take_urgent : ℕ → ℕ → Pack → Option (Bool × Pack)
take_urgent current zero p = elim p.oo_urgent_exts [ [] ↦ some (true, p) | e ∷ es ↦ none ]
take_urgent current (suc fuel) p = elim p.oo_urgent_exts [
  | [] ↦ some (true, p)
  | e ∷ es ↦ try_to_add_extent_for_io current p e >>= λ (added, p1).
      if not added
      then some (false, p1)
      else if not (p1.extent_at e).oe_intree
      then take_urgent current fuel p1
      else (take_tree current (tree_after e p1.tree) p1 >>= λ (more, p2).
          if more then take_urgent current fuel p2 else some (false, p2))
]

-- A step is left out when the request is full.
unfoldable pub unless_full : (Pack → Option (Bool × Pack)) → Bool × Pack → Option (Bool × Pack)
unless_full f (more, p) = if not more || (p.page_count == p.max_pages) then some (false, p) else f p

unfoldable pub get_write_extents : ℕ → Pack → Option (Bool × Pack)
get_write_extents current p = take_hp current p.oo_hp_exts p >>= λ r1.
    unless_full (λ p1. take_urgent current (length p1.oo_urgent_exts) p1) r1 >>= λ r2.
    unless_full (λ p2. take_tree current p2.tree p2) r2
