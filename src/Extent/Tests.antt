-- ===== src/Extent/Tests.antt =====
-- Runs of the choice of extents, and instances of its theorems.
use lustre_tools.Base.{
  ℕ, ◌≡◌, refl, Bool, true, false, List, [], ◌∷◌, Option, none, some, pos, negsuc, arith, ◌==◌,
}
use lustre_tools.Extent.{
  oes_cache, Extent, Pack, get_write_extents, take_hp, take_urgent, take_tree,
  try_to_add_extent_for_io, unless_full, fits_first, move_to_rpc, compatible,
}
use lustre_tools.Extent.Packs.{Packed, Onward}
use lustre_tools.Extent.Loops.{get_write_extents-Packed}
use lustre_tools.Extent.Ready.{Pending, ObjectLists, osc_list_maint, AsyncRc}
use lustre_tools.Extent.Ready.Lists.{process_all}

-- Extents of four pages, of which the third may not be merged.
abbrev extents : ℕ → Extent
extents e = record {
  oe_state = oes_cache;
  oe_nr_pages = 4;
  oe_mppr = 8;
  oe_srvlock = false;
  has_grants = true;
  oe_no_merge = e == 3;
  oe_intree = true;
  cp_type = 1;
}

-- The second is urgent, and at most ten pages fit.
abbrev four_extents : Pack
four_extents = record {
  extent_at = extents;
  on_other_list = λ e. false;
  oe_owner = λ e. none;
  oo_hp_exts = [];
  oo_urgent_exts = 2 ∷ [];
  tree = 1 ∷ 2 ∷ 4 ∷ 5 ∷ [];
  rpclist = [];
  page_count = 0;
  max_pages = 10;
}

abbrev chosen : Option (Bool × Pack) → List ℕ
chosen none = []
chosen (some (more, p)) = p.rpclist

-- The urgent extent, and the next one in the tree.
two_chosen : chosen (get_write_extents 9 four_extents) ≡ 2 ∷ 4 ∷ []
unfolding get_write_extents take_hp take_urgent take_tree try_to_add_extent_for_io unless_full
    fits_first move_to_rpc compatible
two_chosen = refl

get_write_extents-Packed_example :
    (r : Bool × Pack) × (get_write_extents 9 four_extents ≡ some r)
    × Packed 9 r.1
    × Onward four_extents r.1
get_write_extents-Packed_example =
    get_write_extents-Packed 9 four_extents refl refl tt (refl, tt) (omega arith)
      (λ e. (omega arith, omega arith))

-- An object with urgent extents and three pages to write, which is on the list of high priority.
abbrev urgent_writes : Pending
urgent_writes = record {
  oo_nr_writes = pos 3;
  oo_nr_reads = pos 0;
  cl_pending_w_pages = pos 3;
  cl_pending_r_pages = pos 0;
  has_hp_exts = false;
  has_urgent_exts = true;
  has_reading_exts = false;
  has_cache_waiters = false;
  invalid_import = false;
  cl_max_pages_per_rpc = 256;
}

abbrev object_lists : ObjectLists
object_lists = record {
  cl_loi_ready_list = [];
  cl_loi_hp_ready_list = 1 ∷ 2 ∷ [];
  cl_loi_write_list = [];
  cl_loi_read_list = [];
}

abbrev maintained : ObjectLists
maintained = osc_list_maint object_lists 1 urgent_writes

abbrev no_error : AsyncRc
no_error = record { ar_rc = pos 0; ar_force_sync = false; ar_min_xid = 0 }

-- A failure with -5 where 7 is the next number, and then a success of number 6.
abbrev one_failed : AsyncRc
one_failed = process_all no_error ((7, 5, negsuc 4) ∷ (8, 6, pos 0) ∷ [])
