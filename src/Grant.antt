-- ===== src/Grant.antt =====
-- The write cache of a client and its grants, in source/build/metric/osc_cache.c (the accounting from
-- `osc_consume_write_grant` to `osc_wake_cache_waiters`) and osc_request.c (the messages to the server).
-- Words of 64 bits are held by their bits; `none` is a failed LASSERT. The time of the next shrink
-- (`cl_next_shrink_grant`) is left out.
pub mod Ledger
mod Tests
pub mod Steps
pub mod Server
pub mod Wait
pub mod Wake
pub mod Enter
use lustre_tools.Base.{
  ◌>>=◌, ◌>>◌, lassert, update, ℕ, ◌+◌, ◌-◌, ◌%◌, ◌^◌, Bool, true, false, not, ◌&&◌, List, [], ◌∷◌,
  Option, some, ℤ, pos, ltb_ℤ, ltb, leb, if◌then◌else◌, add_u64, sub_u64, success, edquot,
}

-- The flags OBD_BRW_FROM_GRANT and OBD_BRW_NOCACHE of a page (`oap_brw_flags` are the flags of the
-- page's `oap_brw_page`).
pub record BrwPage : Type 0 where
  pub from_grant : Bool
  pub nocache : Bool

-- `struct osc_cache_waiter`: its address, its page and the bytes it waits for.
pub record Waiter : Type 0 where
  pub ocw : ℕ
  pub ocw_oap : ℕ
  pub ocw_grant : ℕ

-- The parts of `struct client_obd` about grants, the counters that all clients share, the pages by their
-- addresses, and the result `ocw_rc` of each waiter.
pub record Cache : Type 0 where
  pub cl_avail_grant : ℕ
  pub cl_reserved_grant : ℕ
  pub cl_lost_grant : ℕ
  pub cl_dirty_pages : ℕ
  pub cl_dirty_max_pages : ℕ
  pub cl_dirty_transit : ℕ
  pub cl_w_in_flight : ℕ
  pub cl_chunkbits : ℕ
  pub cl_extent_tax : ℕ
  pub obd_dirty_pages : ℕ
  pub obd_dirty_transit_pages : ℕ
  pub obd_max_dirty_pages : ℕ
  pub page_at : ℕ → BrwPage
  pub cl_cache_waiters : List Waiter
  pub ocw_rc : ℕ → ℤ

-- A page is accounted as dirty.
unfoldable pub osc_consume_write_grant : Cache → ℕ → Option Cache
osc_consume_write_grant c pga = do
  lassert (not (c.page_at pga).from_grant)
  some (record c {
    obd_dirty_pages = add_u64 c.obd_dirty_pages 1;
    cl_dirty_pages = add_u64 c.cl_dirty_pages 1;
    page_at = update c.page_at pga (record (c.page_at pga) { from_grant = true });
  })

-- The page is no longer accounted, neither as dirty nor, if it was, as in transit.
unfoldable pub osc_release_write_grant : Cache → ℕ → Cache
osc_release_write_grant c pga =
    let p = c.page_at pga in
    if not p.from_grant then c else record c {
      page_at = update c.page_at pga (record { from_grant = false; nocache = false });
      obd_dirty_pages = sub_u64 c.obd_dirty_pages 1;
      cl_dirty_pages = sub_u64 c.cl_dirty_pages 1;
      obd_dirty_transit_pages =
          if p.nocache then sub_u64 c.obd_dirty_transit_pages 1 else c.obd_dirty_transit_pages;
      cl_dirty_transit = if p.nocache then sub_u64 c.cl_dirty_transit 1 else c.cl_dirty_transit;
    }

unfoldable pub osc_reserve_grant : Cache → ℕ → Cache × ℤ
osc_reserve_grant c bytes =
    if leb bytes c.cl_avail_grant
    then (
      record c {
        cl_avail_grant = sub_u64 c.cl_avail_grant bytes;
        cl_reserved_grant = add_u64 c.cl_reserved_grant bytes;
      },
      success,
    )
    else (c, edquot)

-- `__osc_unreserve_grant`
unfoldable pub unreserve_grant : Cache → ℕ → ℕ → Cache
unreserve_grant c reserved unused = record c {
  cl_reserved_grant = sub_u64 c.cl_reserved_grant reserved;
  cl_avail_grant = add_u64 c.cl_avail_grant (if ltb reserved unused then reserved else unused);
  cl_lost_grant =
      if ltb reserved unused then add_u64 c.cl_lost_grant (unused - reserved) else c.cl_lost_grant;
}

abbrev pub has_room : Cache → Bool
has_room c =
    ltb c.cl_dirty_pages c.cl_dirty_max_pages
    && leb (add_u64 1 c.obd_dirty_pages) c.obd_max_dirty_pages

-- A page enters, and is in transit if the caller says so.
unfoldable pub mark_transit : Cache → ℕ → Bool → Cache
mark_transit c oap false = c
mark_transit c oap true = record c {
  cl_dirty_transit = add_u64 c.cl_dirty_transit 1;
  obd_dirty_transit_pages = add_u64 c.obd_dirty_transit_pages 1;
  page_at = update c.page_at oap (record (c.page_at oap) { nocache = true });
}

-- The answer is whether the page entered.
unfoldable pub osc_enter_cache_try : Cache → ℕ → ℕ → Bool → Option (Cache × Bool)
osc_enter_cache_try c oap bytes transient =
    let (c1, rc) = osc_reserve_grant c bytes in
    if ltb_ℤ rc (pos 0)
    then some (c1, false)
    else if has_room c1
    then (osc_consume_write_grant c1 oap >>= λ c2. some (mark_transit c2 oap transient, true))
    else some (unreserve_grant c1 bytes bytes, false)

unfoldable pub osc_exit_cache : Cache → ℕ → Cache
osc_exit_cache c oap = osc_release_write_grant c oap

abbrev pub set_rc : Cache → ℕ → ℤ → Cache
set_rc c w rc = record c { ocw_rc = update c.ocw_rc w rc }

-- One turn of `osc_wake_cache_waiters`, for a waiter that is off the list.
unfoldable pub wake_one : Cache → Waiter → Option Cache
wake_one c w =
    let c1 = set_rc c w.ocw edquot in
    if has_room c1
    then (osc_enter_cache_try c1 w.ocw_oap w.ocw_grant false >>= λ (c2, entered).
        some (if entered then set_rc c2 w.ocw success else c2))
    else some c1

unfoldable pub wake_all : Cache → List Waiter → Option Cache
wake_all c [] = some c
wake_all c (w ∷ ws) = wake_one (record c { cl_cache_waiters = ws }) w >>= λ c1. wake_all c1 ws

unfoldable pub osc_wake_cache_waiters : Cache → Option Cache
osc_wake_cache_waiters c = wake_all c c.cl_cache_waiters

unfoldable pub osc_unreserve_grant : Cache → ℕ → ℕ → Option Cache
osc_unreserve_grant c reserved unused =
    let c1 = unreserve_grant c reserved unused in
    if ltb 0 unused then osc_wake_cache_waiters c1 else some c1

-- What one extent needs at most, an unsigned int.
abbrev pub extent_grant : Cache → ℕ
extent_grant c = (2 ^ c.cl_chunkbits + c.cl_extent_tax) % 2 ^ 32

-- Grant is borrowed from what was lost, where the available grant is not enough for an extent.
unfoldable pub borrow_grant : Cache → Cache
borrow_grant c =
    let grant = extent_grant c in
    if ltb c.cl_avail_grant grant && leb grant c.cl_lost_grant
    then record c {
      cl_lost_grant = sub_u64 c.cl_lost_grant grant;
      cl_avail_grant = add_u64 c.cl_avail_grant grant;
    }
    else c

unfoldable pub osc_free_grant : Cache → ℕ → ℕ → Option Cache
osc_free_grant c nr_pages lost_grant = osc_wake_cache_waiters (
    borrow_grant (record c {
      obd_dirty_pages = sub_u64 c.obd_dirty_pages nr_pages;
      cl_dirty_pages = sub_u64 c.cl_dirty_pages nr_pages;
      cl_lost_grant = add_u64 c.cl_lost_grant lost_grant;
    }))
