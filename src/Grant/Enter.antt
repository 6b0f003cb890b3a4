-- ===== src/Grant/Enter.antt =====
-- What an attempt to enter the cache does (`osc_enter_cache_try`), and the round trip of a page through it.
use lustre_tools.Base.{
  update, ℕ, ◌+◌, ◌≤◌, ◌<◌, ◌≡◌, ◌≢◌, refl, Bool, true, false, some, ◌⊎◌, inl, inr, Bool-cases,
  arith, leb, add_u64,
}
use lustre_tools.Grant.{
  Cache, osc_reserve_grant, unreserve_grant, osc_consume_write_grant, mark_transit,
  osc_enter_cache_try, has_room,
}
use lustre_tools.Grant.Ledger.{Balanced}

-- The page entered: its bytes are reserved, and it is one more dirty page.
pub record Entered (c : Cache) (oap bytes : ℕ) (d : Cache) : Type 0 where
  pub avail : d.cl_avail_grant + bytes ≡ c.cl_avail_grant
  pub reserved : d.cl_reserved_grant ≡ c.cl_reserved_grant + bytes
  pub lost : d.cl_lost_grant ≡ c.cl_lost_grant
  pub dirty : d.cl_dirty_pages ≡ c.cl_dirty_pages + 1
  pub all_dirty : d.obd_dirty_pages ≡ c.obd_dirty_pages + 1
  pub limits :
      (d.cl_dirty_max_pages ≡ c.cl_dirty_max_pages)
      × (d.obd_max_dirty_pages ≡ c.obd_max_dirty_pages)
  pub room : (c.cl_dirty_pages < c.cl_dirty_max_pages) × (c.obd_dirty_pages < c.obd_max_dirty_pages)
  pub flagged : (d.page_at oap).from_grant ≡ true
  pub others : (j : ℕ) → j ≢ oap → d.page_at j ≡ c.page_at j
  pub waiting : d.cl_cache_waiters ≡ c.cl_cache_waiters
  pub answers : d.ocw_rc ≡ c.ocw_rc

pub Entered-Balanced :
    (c d : Cache) (oap bytes out all : ℕ)
    → Entered c oap bytes d
    → Balanced c out all
    → Balanced d out all
Entered-Balanced c d oap bytes out all e b = record {
  total = omega (arith, b.total, e.avail, e.reserved, e.lost);
  all_fit = b.all_fit;
  within = omega (arith, e.dirty, e.limits.0, e.room.0);
  all_in_word = omega (arith, e.all_dirty, e.room.1, b.max_fits);
  own_part = omega (arith, e.dirty, e.all_dirty, b.own_part);
  max_fits = omega (arith, e.limits.1, b.max_fits);
}

abbrev pub Enters : Cache → ℕ → ℕ → Cache × Bool → Type 0
Enters c oap bytes r = ((r.1 ≡ true) × Entered c oap bytes r.0) ⊎ ((r.1 ≡ false) × (r.0 ≡ c))

-- In a balanced state the reservation is taken back exactly.
unreserve_reserve :
    (c : Cache) (bytes out all : ℕ)
    → Balanced c out all
    → bytes ≤ c.cl_avail_grant
    → unreserve_grant (osc_reserve_grant c bytes).0 bytes bytes ≡ c
unfolding osc_reserve_grant unreserve_grant
unreserve_reserve c bytes out all b h = ground (arith, b.total, b.all_fit)

-- The state with the page in the cache.
abbrev pub inside : Cache → ℕ → ℕ → Bool → Cache
inside c oap bytes transient =
    let c1 : Cache = (osc_reserve_grant c bytes).0 in
    mark_transit
      (record c1 {
        obd_dirty_pages = add_u64 c1.obd_dirty_pages 1;
        cl_dirty_pages = add_u64 c1.cl_dirty_pages 1;
        page_at = update c1.page_at oap (record (c1.page_at oap) { from_grant = true });
      })
      oap transient

enter-inside :
    (c : Cache) (oap bytes : ℕ) (transient : Bool)
    → (c.page_at oap).from_grant ≡ false
    → bytes ≤ c.cl_avail_grant
    → has_room c ≡ true
    → osc_enter_cache_try c oap bytes transient ≡ some (inside c oap bytes transient, true)
unfolding osc_enter_cache_try osc_reserve_grant osc_consume_write_grant
enter-inside c oap bytes transient free enough room = ground arith

inside-Entered :
    (c : Cache) (oap bytes : ℕ) (transient : Bool) (out all : ℕ)
    → Balanced c out all
    → bytes ≤ c.cl_avail_grant
    → has_room c ≡ true
    → Entered c oap bytes (inside c oap bytes transient)
unfolding osc_reserve_grant mark_transit
inside-Entered c oap bytes transient out all b enough room = record {
  avail = ground (arith, b.total, b.all_fit);
  reserved = ground (arith, b.total, b.all_fit);
  lost = ground arith;
  dirty = ground (arith, b.own_part, b.all_in_word, b.max_fits);
  all_dirty = ground (arith, b.all_in_word, b.max_fits);
  limits = (ground arith, ground arith);
  room = (ground arith, ground (arith, b.all_in_word, b.max_fits));
  flagged = ground arith;
  others = λ j ne. ground arith;
  waiting = ground arith;
  answers = ground arith;
}

-- An attempt to enter returns if the page is not in the cache yet: either the page enters, or the state
-- is as it was.
pub osc_enter_cache_try-Enters :
    (c : Cache) (oap bytes : ℕ) (transient : Bool) (out all : ℕ)
    → Balanced c out all
    → (c.page_at oap).from_grant ≡ false
    → (r : Cache × Bool) × (osc_enter_cache_try c oap bytes transient ≡ some r)
      × Enters c oap bytes r
unfolding osc_enter_cache_try osc_reserve_grant
osc_enter_cache_try-Enters c oap bytes transient out all b free =
    elim (Bool-cases (leb bytes c.cl_avail_grant)) [
      | inl enough ↦ elim (Bool-cases (has_room c)) [
        | inl room ↦ (
          (inside c oap bytes transient, true),
          enter-inside c oap bytes transient free (ground arith) room,
          inl (refl, inside-Entered c oap bytes transient out all b (ground arith) room),
        )
        | inr full ↦ (
          (c, false),
          ground (arith, unreserve_reserve c bytes out all b (ground arith)),
          inr (refl, refl),
        )
      ]
      | inr short ↦ ((c, false), ground arith, inr (refl, refl))
    ]
