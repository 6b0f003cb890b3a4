-- ===== src/Grant/Server.antt =====
-- The messages about grants between a client and its server, in source/build/metric/osc_request.c
-- (`osc_announce_cached` to `osc_init_grant`, `osc_reconnect`, `osc_import_event`). A page has 4096 bytes.
-- `others i` is what the other threads do the i-th time that a function is without the lock; the
-- allocator's success, the sending of a message and the clock's comparison are arguments.
pub mod Shrink
pub mod Connect
use lustre_tools.Base.{
  ◌>>=◌, ◌>>◌, lassert, ℕ, ◌+◌, ◌-◌, ◌*◌, ◌/◌, ◌%◌, ◌^◌, Bool, true, false, not, ◌&&◌, ◌||◌, Option,
  none, some, ℤ, pos, ltb_ℤ, eqb_ℤ, ltb, leb, ◌==◌, if◌then◌else◌, add_u64, sub_u64, mul_u64,
  signed64, success, enomem,
}
use lustre_tools.Grant.{Cache}

-- The two limits of `struct client_obd` on its requests.
pub record RpcLimits : Type 0 where
  pub cl_max_pages_per_rpc : ℕ
  pub cl_max_rpcs_in_flight : ℕ

-- The fields of `struct obdo` that the functions set.
pub record Obdo : Type 0 where
  pub o_dirty : ℕ
  pub o_undirty : ℕ
  pub o_grant : ℕ
  pub o_dropped : ℕ
  pub shrink_flag : Bool

-- PAGE_CACHE_SHIFT
abbrev pub page_shift : ℕ
page_shift = 12

abbrev pub bytes_of : ℕ → ℕ
bytes_of pages = mul_u64 pages (2 ^ page_shift)

-- The bytes of one request and of all requests in flight, unsigned ints.
abbrev pub rpc_bytes : RpcLimits → ℕ
rpc_bytes l = (l.cl_max_pages_per_rpc * 2 ^ page_shift) % 2 ^ 32

abbrev pub flight_bytes : RpcLimits → ℕ
flight_bytes l = (rpc_bytes l * ((l.cl_max_rpcs_in_flight + 1) % 2 ^ 32)) % 2 ^ 32

-- What the client says that it may still dirty, before it is cut to 32 bits.
unfoldable pub undirty : RpcLimits → Cache → ℕ
undirty l c =
    if ltb c.cl_dirty_max_pages (sub_u64 c.cl_dirty_pages c.cl_dirty_transit)
    then 0
    else if ltb_ℤ (signed64 (add_u64 c.obd_max_dirty_pages 1))
        (signed64 (sub_u64 c.obd_dirty_pages c.obd_dirty_transit_pages))
    then 0
    else if ltb (2 ^ 31 - 1) (sub_u64 c.cl_dirty_max_pages c.cl_dirty_pages)
    then 0
    else if ltb (flight_bytes l) (bytes_of c.cl_dirty_max_pages)
    then bytes_of c.cl_dirty_max_pages
    else flight_bytes l

-- The message is not announced yet: the bits of `o_valid` are not set.
unfoldable pub osc_announce_cached : RpcLimits → Bool → Cache → Option (Cache × Obdo)
osc_announce_cached l has_bits c = do
  lassert (not has_bits)
  some (
    record c { cl_lost_grant = 0 },
    record {
      o_dirty = bytes_of c.cl_dirty_pages;
      o_undirty = undirty l c % 2 ^ 32;
      o_grant = add_u64 c.cl_avail_grant c.cl_reserved_grant;
      o_dropped = c.cl_lost_grant % 2 ^ 32;
      shrink_flag = false;
    },
  )

-- `__osc_update_grant`
unfoldable pub update_grant : Cache → ℕ → Cache
update_grant c grant = record c { cl_avail_grant = add_u64 c.cl_avail_grant grant }

-- The server's answer, with its flag OBD_MD_FLGRANT.
unfoldable pub osc_update_grant : Cache → Bool → ℕ → Cache
osc_update_grant c has_grant grant = if has_grant then update_grant c grant else c

-- `sent` is the grant of the message that is answered; `none` is an answer that cannot be read.
unfoldable pub osc_shrink_grant_interpret : Cache → ℕ → ℤ → Option (Bool × ℕ) → Option (Cache × ℤ)
osc_shrink_grant_interpret c sent rc body =
    if not (eqb_ℤ rc (pos 0)) then some (update_grant c sent, rc) else elim body [
      | none ↦ none
      | some (has_grant, grant) ↦ some (osc_update_grant c has_grant grant, rc)
    ]

unfoldable pub osc_shrink_grant_local : Cache → Obdo → Cache × Obdo
osc_shrink_grant_local c oa =
    let quarter = c.cl_avail_grant / 4 in
    (
      record c { cl_avail_grant = sub_u64 c.cl_avail_grant quarter },
      record oa { o_grant = quarter; shrink_flag = true },
    )

-- The state, the result and the message that was sent.
unfoldable pub osc_shrink_grant_to_target :
    RpcLimits
    → (ℕ → Cache → Cache)
    → Bool
    → (Obdo → ℤ)
    → Cache
    → ℕ
    → Option (Cache × ℤ × Option Obdo)
osc_shrink_grant_to_target l others allocated set_info c target_bytes =
    let target = if ltb target_bytes (rpc_bytes l) then rpc_bytes l else target_bytes in
    if leb c.cl_avail_grant target
    then some (c, success, none)
    else if not allocated
    then some (c, enomem, none)
    else (osc_announce_cached l false (others 0 c) >>= λ (c1, announced).
        let c2 : Cache = others 1 c1 in
        let body : Obdo = record announced {
          o_grant = sub_u64 c2.cl_avail_grant target;
          shrink_flag = true;
        } in
        let c3 : Cache = others 2 (record c2 { cl_avail_grant = target }) in
        let rc = set_info body in
        some ((if eqb_ℤ rc (pos 0) then c3 else update_grant c3 body.o_grant), rc, some body))

-- To the bytes in flight, or if the grant is down to them, to one request.
unfoldable pub shrink_target : RpcLimits → Cache → ℕ
shrink_target l c = if leb c.cl_avail_grant (flight_bytes l) then rpc_bytes l else flight_bytes l

unfoldable pub osc_shrink_grant :
    RpcLimits → (ℕ → Cache → Cache) → Bool → (Obdo → ℤ) → Cache → Option (Cache × ℤ × Option Obdo)
osc_shrink_grant l others allocated set_info c =
    osc_shrink_grant_to_target l others allocated set_info (others 3 c) (shrink_target l c)

-- `due` is the comparison of the clock with `cl_next_shrink_grant`; the second result is that the next
-- shrink is put off (`osc_update_next_shrink`).
unfoldable pub osc_should_shrink_grant : RpcLimits → Bool → Bool → Bool → Cache → Bool × Bool
osc_should_shrink_grant l connected_shrink due import_full c =
    if not connected_shrink
    then (false, false)
    else if due
    then if import_full && ltb (rpc_bytes l) c.cl_avail_grant then (true, false) else (false, true)
    else (false, false)

-- The grant and the size of a block (its bits) that the server gives to a client that connects. The test
-- for a negative grant is on an unsigned word.
unfoldable pub osc_init_grant : Bool → Cache → ℕ → ℕ → Cache
osc_init_grant evicted c ocd_grant ocd_blocksize =
    let avail = if evicted then ocd_grant else sub_u64 ocd_grant (bytes_of c.cl_dirty_pages) in
    record c {
      cl_avail_grant = if ltb avail 0 then ocd_grant else avail;
      cl_chunkbits = if ltb page_shift ocd_blocksize then ocd_blocksize else page_shift;
    }

-- The grant that a client asks for when it connects again, 32 bits.
unfoldable pub osc_reconnect : RpcLimits → Bool → Cache → Cache × Option ℕ
osc_reconnect l connect_grant c =
    let held = add_u64 c.cl_avail_grant (bytes_of c.cl_dirty_pages) in
    if connect_grant
    then (
      record c { cl_lost_grant = 0 },
      some ((if held == 0 then 2 * rpc_bytes l else held) % 2 ^ 32),
    )
    else (c, none)

-- `IMP_EVENT_DISCON`
unfoldable pub on_disconnect : Cache → Cache
on_disconnect c = record c { cl_avail_grant = 0; cl_lost_grant = 0 }
