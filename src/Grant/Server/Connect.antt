-- ===== src/Grant/Server/Connect.antt =====
-- The grant of a client that connects again (`osc_reconnect`, `osc_init_grant`), and an interrupted shrink.
use lustre_tools.Base.{
  ℕ, ◌+◌, ◌*◌, ◌%◌, ◌^◌, ◌<◌, ◌≡◌, refl, true, false, some, arith, ℤ, success, leb, ◌==◌,
  if◌then◌else◌, sub_u64,
}
use lustre_tools.Grant.{Cache}
use lustre_tools.Grant.Server.{
  RpcLimits, Obdo, bytes_of, undirty, osc_announce_cached, osc_shrink_grant_to_target,
  osc_init_grant, osc_reconnect,
}
use lustre_tools.Grant.Server.Shrink.{kept}

-- A client that asks for what it holds (below 4 GiB, and not nothing) and is granted it has the same
-- available grant as before, while its dirty pages stay; what it had lost is forgotten.
pub osc_init_grant-osc_reconnect :
    (l : RpcLimits) (c : Cache) (blocksize : ℕ)
    → c.cl_avail_grant + c.cl_dirty_pages * 4096 < 2 ^ 32
    → 0 < c.cl_avail_grant + c.cl_dirty_pages * 4096
    → (c' : Cache) (asked : ℕ) → osc_reconnect l true c ≡ (c', some asked)
    → ((osc_init_grant false c' asked blocksize).cl_avail_grant ≡ c.cl_avail_grant)
      × ((osc_init_grant false c' asked blocksize).cl_dirty_pages ≡ c.cl_dirty_pages)
      × ((osc_init_grant false c' asked blocksize).cl_lost_grant ≡ 0)
unfolding osc_reconnect osc_init_grant
osc_init_grant-osc_reconnect l c blocksize fits held c' asked e = ground (arith, e)

-- A server that grants less than the bytes of the dirty pages leaves the client that was not evicted with
-- an available grant of almost 2^64 bytes: the test for a negative grant does not hold of an unsigned word.
pub osc_init_grant-wraps :
    (c : Cache) (ocd_grant blocksize : ℕ)
    → c.cl_dirty_pages < 2 ^ 40
    → ocd_grant < c.cl_dirty_pages * 4096
    → (osc_init_grant false c ocd_grant blocksize).cl_avail_grant + c.cl_dirty_pages * 4096
      ≡ 2 ^ 64 + ocd_grant
unfolding osc_init_grant
osc_init_grant-wraps c ocd_grant blocksize fits less = ground arith

-- Another thread works between the announcement and the second taking of the lock.
abbrev pub between : (Cache → Cache) → ℕ → Cache → Cache
between writer i c = if i == 1 then writer c else c

-- If another thread reserves grant after the test of a shrink, so that less than the target is
-- available, then the client ends up with the target all the same, and the message to the server gives
-- back almost 2^64 bytes.
pub osc_shrink_grant_to_target-race :
    (l : RpcLimits) (writer : Cache → Cache) (set_info : Obdo → ℤ) (c : Cache) (target : ℕ)
    → kept l target < c.cl_avail_grant
    → kept l target < 2 ^ 64
    → ((m : Obdo) → set_info m ≡ success)
    → let c1 = writer (record c { cl_lost_grant = 0 }) in
      c1.cl_avail_grant < kept l target
      → (body : Obdo) × (osc_shrink_grant_to_target l (between writer) true set_info c target
          ≡ some (record c1 { cl_avail_grant = kept l target }, success, some body))
        × (body.o_grant + kept l target ≡ 2 ^ 64 + c1.cl_avail_grant)
unfolding osc_shrink_grant_to_target osc_announce_cached
osc_shrink_grant_to_target-race l writer set_info c target above fits sent below =
    let body : Obdo = record {
      o_dirty = bytes_of c.cl_dirty_pages;
      o_undirty = undirty l c % 2 ^ 32;
      o_grant = sub_u64 (writer (record c { cl_lost_grant = 0 })).cl_avail_grant (kept l target);
      o_dropped = c.cl_lost_grant % 2 ^ 32;
      shrink_flag = true;
    } in
    let not_low : leb c.cl_avail_grant (kept l target) ≡ false = ground arith in
    (body, rw (not_low, sent body) refl, ground arith)
