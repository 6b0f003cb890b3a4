-- ===== src/Extent/Ready.antt =====
-- When an object is ready for a request, the lists of such objects, and the record of failed writes, in
-- source/build/metric/osc_cache.c (`osc_makes_rpc` to `osc_process_ar`). `rpcs_in_flight` and
-- `ptlrpc_sample_next_xid` are arguments.
pub mod Lists
use lustre_tools.Base.{
  ◌>>=◌, lassert, ℕ, ◌+◌, Bool, true, false, not, ◌&&◌, ◌||◌, List, [], ◌∷◌, ◌++◌, Option, none,
  some, ℤ, pos, ◌+ℤ◌, to_s32, ltb_ℤ, leb_ℤ, eqb_ℤ, ltb, leb, ◌==◌, if◌then◌else◌,
}

-- What the decisions read of an object and its client: the atomic counters of an object's pages and of the
-- client's, which lists are not empty, and whether the client's import is invalid.
pub record Pending : Type 0 where
  pub oo_nr_writes : ℤ
  pub oo_nr_reads : ℤ
  pub cl_pending_w_pages : ℤ
  pub cl_pending_r_pages : ℤ
  pub has_hp_exts : Bool
  pub has_urgent_exts : Bool
  pub has_reading_exts : Bool
  pub has_cache_waiters : Bool
  pub invalid_import : Bool
  pub cl_max_pages_per_rpc : ℕ

unfoldable pub osc_max_rpc_in_flight : ℕ → ℕ → Bool → Bool
osc_max_rpc_in_flight in_flight cl_max_rpcs_in_flight has_hp_exts =
    leb (cl_max_rpcs_in_flight + (if has_hp_exts then 0 else 1)) in_flight

-- For writing, or for reading.
unfoldable pub osc_makes_rpc : Pending → Bool → Bool
osc_makes_rpc p true =
    if eqb_ℤ p.oo_nr_writes (pos 0)
    then false
    else if p.invalid_import
    then true
    else if p.has_hp_exts
    then true
    else if p.has_urgent_exts
    then true
    else if p.has_cache_waiters
    then true
    else leb_ℤ (pos p.cl_max_pages_per_rpc) p.oo_nr_writes
osc_makes_rpc p false =
    if eqb_ℤ p.oo_nr_reads (pos 0)
    then false
    else if p.invalid_import
    then true
    else p.has_reading_exts

unfoldable pub osc_update_pending : Pending → Bool → ℤ → Option Pending
osc_update_pending p true delta =
    let writes = to_s32 (p.oo_nr_writes +ℤ delta) in
    lassert (leb_ℤ (pos 0) writes) >>= λ _. some (record p {
      oo_nr_writes = writes;
      cl_pending_w_pages = to_s32 (p.cl_pending_w_pages +ℤ delta);
    })
osc_update_pending p false delta =
    let reads = to_s32 (p.oo_nr_reads +ℤ delta) in
    lassert (leb_ℤ (pos 0) reads) >>= λ _.
    some (record p {
      oo_nr_reads = reads;
      cl_pending_r_pages = to_s32 (p.cl_pending_r_pages +ℤ delta);
    })

abbrev pub on : ℕ → List ℕ → Bool
on o [] = false
on o (x ∷ xs) = (x == o) || on o xs

abbrev pub off : ℕ → List ℕ → List ℕ
off o [] = []
off o (x ∷ xs) = if x == o then off o xs else x ∷ off o xs

unfoldable pub on_list : ℕ → List ℕ → Bool → List ℕ
on_list o list should_be_on =
    if not (on o list) && should_be_on
    then list ++ (o ∷ [])
    else if on o list && not should_be_on
    then off o list
    else list

-- The four lists of a client's objects.
pub record ObjectLists : Type 0 where
  pub cl_loi_ready_list : List ℕ
  pub cl_loi_hp_ready_list : List ℕ
  pub cl_loi_write_list : List ℕ
  pub cl_loi_read_list : List ℕ

-- `__osc_list_maint`
unfoldable pub osc_list_maint : ObjectLists → ℕ → Pending → ObjectLists
osc_list_maint l o p = record {
  cl_loi_hp_ready_list = on_list o l.cl_loi_hp_ready_list p.has_hp_exts;
  cl_loi_ready_list =
      on_list o l.cl_loi_ready_list
        (if p.has_hp_exts then false else (osc_makes_rpc p true || osc_makes_rpc p false));
  cl_loi_write_list = on_list o l.cl_loi_write_list (ltb_ℤ (pos 0) p.oo_nr_writes);
  cl_loi_read_list = on_list o l.cl_loi_read_list (ltb_ℤ (pos 0) p.oo_nr_reads);
}

-- `struct osc_async_rc`
pub record AsyncRc : Type 0 where
  pub ar_rc : ℤ
  pub ar_force_sync : Bool
  pub ar_min_xid : ℕ

-- The next number of a request, the number of the one that is done, and its code.
unfoldable pub osc_process_ar : AsyncRc → ℕ → ℕ → ℤ → AsyncRc
osc_process_ar ar next_xid xid rc =
    if not (eqb_ℤ rc (pos 0))
    then record {
      ar_rc = if eqb_ℤ ar.ar_rc (pos 0) then rc else ar.ar_rc;
      ar_force_sync = true;
      ar_min_xid = next_xid;
    }
    else if ar.ar_force_sync && leb ar.ar_min_xid xid
    then record ar { ar_force_sync = false }
    else ar
