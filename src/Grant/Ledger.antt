-- ===== src/Grant/Ledger.antt =====
-- The accounting of the cache: every byte of grant is available, reserved, lost or elsewhere (with the
-- extents that hold written pages, or with the server), and the dirty pages of the client stay within its limit. The counter of
-- the dirty pages of all clients is one word, which the other clients change too, under other locks: it
-- counts those of this client, and may be above its limit.
use lustre_tools.Base.{ℕ, ◌+◌, ◌-◌, ◌^◌, ◌≤◌, ◌<◌, ◌≡◌, arith}
use lustre_tools.Grant.{
  Cache, osc_reserve_grant, unreserve_grant, osc_release_write_grant, borrow_grant,
}

-- Of `all` bytes of grant, `out` are elsewhere.
pub record Balanced (c : Cache) (out all : ℕ) : Type 0 where
  pub total : c.cl_avail_grant + c.cl_reserved_grant + c.cl_lost_grant + out ≡ all
  pub all_fit : all < 2 ^ 64
  pub within : c.cl_dirty_pages ≤ c.cl_dirty_max_pages
  pub all_in_word : c.obd_dirty_pages < 2 ^ 64 - 1
  pub own_part : c.cl_dirty_pages ≤ c.obd_dirty_pages
  pub max_fits : c.obd_max_dirty_pages < 2 ^ 64 - 1

-- The fields that the accounting is about are those of another state.
pub Balanced-same :
    (c d : Cache) (out all : ℕ)
    → d.cl_avail_grant ≡ c.cl_avail_grant
    → d.cl_reserved_grant ≡ c.cl_reserved_grant
    → d.cl_lost_grant ≡ c.cl_lost_grant
    → d.cl_dirty_pages ≡ c.cl_dirty_pages
    → d.cl_dirty_max_pages ≡ c.cl_dirty_max_pages
    → d.obd_dirty_pages ≡ c.obd_dirty_pages
    → d.obd_max_dirty_pages ≡ c.obd_max_dirty_pages
    → Balanced c out all
    → Balanced d out all
Balanced-same c d out all e1 e2 e3 e4 e5 e6 e7 b = record {
  total = omega (arith, b.total);
  all_fit = b.all_fit;
  within = omega (arith, b.within);
  all_in_word = omega (arith, b.all_in_word);
  own_part = omega (arith, b.own_part);
  max_fits = omega (arith, b.max_fits);
}

-- Only the bytes of grant change, and their sum stays.
pub regrant-Balanced :
    (c : Cache) (avail reserved lost out out' all : ℕ)
    → avail + reserved + lost + out' ≡ all
    → Balanced c out all
    → Balanced
        (record c { cl_avail_grant = avail; cl_reserved_grant = reserved; cl_lost_grant = lost })
        out'
        all
regrant-Balanced c avail reserved lost out out' all e b = record {
  total = e;
  all_fit = b.all_fit;
  within = b.within;
  all_in_word = b.all_in_word;
  own_part = b.own_part;
  max_fits = b.max_fits;
}

pub osc_reserve_grant-Balanced :
    (c : Cache) (bytes out all : ℕ)
    → Balanced c out all
    → Balanced (osc_reserve_grant c bytes).0 out all
unfolding osc_reserve_grant
osc_reserve_grant-Balanced c bytes out all b = record {
  total = ground (arith, b.total, b.all_fit);
  all_fit = b.all_fit;
  within = ground (arith, b.within);
  all_in_word = ground (arith, b.all_in_word);
  own_part = ground (arith, b.own_part);
  max_fits = ground (arith, b.max_fits);
}

pub unreserve_grant-Balanced :
    (c : Cache) (reserved unused out all : ℕ)
    → reserved ≤ c.cl_reserved_grant
    → unused ≤ reserved + out
    → Balanced c out all
    → Balanced (unreserve_grant c reserved unused) (out + reserved - unused) all
unfolding unreserve_grant
unreserve_grant-Balanced c reserved unused out all h k b =
    regrant-Balanced c _ _ _ out _ all (ground (arith, b.total, b.all_fit)) b

pub osc_release_write_grant-Balanced :
    (c : Cache) (pga out all : ℕ)
    → 0 < c.cl_dirty_pages
    → Balanced c out all
    → Balanced (osc_release_write_grant c pga) out all
unfolding osc_release_write_grant
osc_release_write_grant-Balanced c pga out all h b = record {
  total = ground (arith, b.total);
  all_fit = b.all_fit;
  within = ground (arith, b.within, b.own_part, b.all_in_word, b.max_fits);
  all_in_word = ground (arith, b.own_part, b.all_in_word, b.max_fits);
  own_part = ground (arith, b.own_part, b.all_in_word, b.max_fits);
  max_fits = ground (arith, b.max_fits);
}

pub borrow_grant-Balanced :
    (c : Cache) (out all : ℕ) → Balanced c out all → Balanced (borrow_grant c) out all
unfolding borrow_grant
borrow_grant-Balanced c out all b = record {
  total = ground (arith, b.total, b.all_fit);
  all_fit = b.all_fit;
  within = ground (arith, b.within);
  all_in_word = ground (arith, b.all_in_word);
  own_part = ground (arith, b.own_part);
  max_fits = ground (arith, b.max_fits);
}
