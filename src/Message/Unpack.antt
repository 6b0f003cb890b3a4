-- ===== src/Message/Unpack.antt =====
-- The checks of a received message in source/build/metric/pack_generic.c: byte order, lengths and
-- the version of its body, with the masks of swabbed buffers of lustre_net.h.
use lustre_tools.Base.{
  false, ℕ, zero, suc, ◌+◌, ◌-◌, ◌*◌, ◌/◌, ◌%◌, ◌^◌, Bool, not, Option, none, some, ltb, ◌==◌,
  if◌then◌else◌, ◌>>=◌, ◌>>◌, lassert, update, ℤ, pos, ltb_ℤ, eqb_ℤ, signed32, success, einval,
  efault,
}
use lustre_tools.Message.{
  Libcfs, LustreMsg, lustre_msg_magic_v2, lustre_msg_magic_v2_swabbed, lustre_msg_hdr_size_v2,
  lustre_msg_buf_v2,
}
use lustre_tools.Wire.{Memory, load_le, inside}
use lustre_tools.Wire.Structs.{lustre_swab_ptlrpc_body}

-- `__swab32s`: the four bytes of a word in the other order.
unfoldable pub swab32 : ℕ → ℕ
swab32 w = w % 256 * 2 ^ 24 + w / 256 % 256 * 2 ^ 16 + w / 2 ^ 16 % 256 * 256 + w / 2 ^ 24 % 256

-- The words of the header that the sender of another byte order wrote.
unfoldable pub swab_header : LustreMsg → LustreMsg
swab_header m = record m {
  lm_magic = swab32 m.lm_magic;
  lm_bufcount = swab32 m.lm_bufcount;
  lm_secflvr = swab32 m.lm_secflvr;
  lm_repsize = swab32 m.lm_repsize;
  lm_cksum = swab32 m.lm_cksum;
  lm_flags = swab32 m.lm_flags;
}

module _ (l : Libcfs) where
  -- The lengths and `required_len`, as the bits of an int, after the first `n` turns.
  unfoldable pub check_lens : Bool → (ℕ → ℕ) × ℕ → ℕ → (ℕ → ℕ) × ℕ
  check_lens swabbed start zero = start
  check_lens swabbed start (suc i) =
      let (lens, required_len) = check_lens swabbed start i in
      let lens' = if swabbed then update lens i (swab32 (lens i)) else lens in
      (lens', (required_len + l.cfs_size_round (lens' i)) % 2 ^ 32)

  -- The message as it is left, and the result; `len` is an int, and so is `required_len`.
  unfoldable pub lustre_unpack_msg_v2 : LustreMsg → ℤ → LustreMsg × ℤ
  lustre_unpack_msg_v2 m len =
      if ltb_ℤ len (signed32 (lustre_msg_hdr_size_v2 l 0))
      then (m, einval)
      else let swabbed = m.lm_magic == lustre_msg_magic_v2_swabbed in
        let m1 = if swabbed then swab_header m else m in
        let required_len = lustre_msg_hdr_size_v2 l m1.lm_bufcount in
        if ltb_ℤ len (signed32 required_len)
        then (m1, einval)
        else let (lens, required_len') =
            check_lens swabbed (m1.lm_buflens, required_len) m1.lm_bufcount in
          let m2 = record m1 { lm_buflens = lens } in
          if ltb_ℤ len (signed32 required_len')
          then (m2, einval)
          else (m2, if swabbed then pos 1 else success)

  -- The magic stands behind two words.
  unfoldable pub lustre_unpack_msg : LustreMsg → ℤ → LustreMsg × ℤ
  lustre_unpack_msg m len = if ltb_ℤ len (pos 12) then (m, einval) else lustre_unpack_msg_v2 m len

-- The two messages of a request, with a bit for each buffer that is already swabbed.
pub record SwabRequest : Type 0 where
  pub rq_reqmsg : LustreMsg
  pub rq_repmsg : LustreMsg
  pub rq_req_swab_mask : ℕ
  pub rq_rep_swab_mask : ℕ

abbrev pub msg_ptlrpc_header_off : ℕ
msg_ptlrpc_header_off = 31

-- `mask & (1 << index)`; an index out of the mask is a failed assertion.
unfoldable pub swabbed_bit : ℕ → ℕ → Option Bool
swabbed_bit mask index = lassert (ltb index 32) >> some ((mask / 2 ^ index % 2) == 1)

-- `mask |= 1 << index`, of a bit that is asserted to be clear.
unfoldable pub set_swabbed_bit : ℕ → ℕ → Option ℕ
set_swabbed_bit mask index =
    lassert (ltb index 32) >> lassert (not ((mask / 2 ^ index % 2) == 1)) >> some (mask + 2 ^ index)

-- `inout` is true for the request and false for the reply.
abbrev pub swab_mask : SwabRequest → Bool → ℕ
swab_mask req inout = if inout then req.rq_req_swab_mask else req.rq_rep_swab_mask

abbrev pub msg_of : SwabRequest → Bool → LustreMsg
msg_of req inout = if inout then req.rq_reqmsg else req.rq_repmsg

abbrev pub with_mask : SwabRequest → Bool → ℕ → SwabRequest
with_mask req inout mask =
    if inout then record req { rq_req_swab_mask = mask } else record req { rq_rep_swab_mask = mask }

abbrev pub with_msg : SwabRequest → Bool → LustreMsg → SwabRequest
with_msg req inout m = if inout then record req { rq_reqmsg = m } else record req { rq_repmsg = m }

unfoldable pub ptlrpc_buf_set_swabbed : SwabRequest → Bool → ℕ → Option SwabRequest
ptlrpc_buf_set_swabbed req inout index = do
  mask ← set_swabbed_bit (swab_mask req inout) index
  some (with_mask req inout mask)

-- Whether the header came swabbed and this buffer was not turned yet.
unfoldable pub ptlrpc_buf_need_swab : SwabRequest → Bool → ℕ → Option Bool
ptlrpc_buf_need_swab req inout index = do
  header ← swabbed_bit (swab_mask req inout) msg_ptlrpc_header_off
  if header
      then (do done ← swabbed_bit (swab_mask req inout) index; some (not done))
      else some false

-- ptlrpc_unpack_req_msg and ptlrpc_unpack_rep_msg.
unfoldable pub ptlrpc_unpack_msg : Libcfs → SwabRequest → Bool → ℤ → Option (SwabRequest × ℤ)
ptlrpc_unpack_msg l req inout len =
    let (m, rc) = lustre_unpack_msg l (msg_of req inout) len in
    let req1 = with_msg req inout m in
    if eqb_ℤ rc (pos 1)
    then (do req2 ← ptlrpc_buf_set_swabbed req1 inout msg_ptlrpc_header_off; some (req2, success))
    else some (req1, rc)

-- A store of a 32-bit word.
unfoldable pub store_le : ℕ → ℕ → Memory → Memory
store_le p v mem a = if inside p 4 a then v / 256 ^ (a - p) % 256 else mem a

abbrev pub with_bytes : SwabRequest → Bool → (Memory → Memory) → SwabRequest
with_bytes req inout f =
    let m = msg_of req inout in with_msg req inout (record m { bytes = f m.bytes })

-- `ptlrpc_status_ntoh` is not in the repository. The body is looked up by the size of the older
-- structure, 152 bytes.
module _ (l : Libcfs) (ptlrpc_status_ntoh : ℕ → ℕ) where
  unfoldable pub swab_body_once : SwabRequest → Bool → ℕ → ℕ → Option SwabRequest
  swab_body_once req inout offset pb = do
    need ← ptlrpc_buf_need_swab req inout offset
    if need
        then ptlrpc_buf_set_swabbed (with_bytes req inout (lustre_swab_ptlrpc_body pb)) inout offset
        else some req

  unfoldable pub check_body : SwabRequest → Bool → ℕ → SwabRequest × ℤ
  check_body req inout pb =
      let mem = (msg_of req inout).bytes in
      if (load_le mem (pb + 12) 4 % 2 ^ 16) == 3
      then (
        (if inout
            then req
            else with_bytes req inout
                (store_le (pb + 20) (ptlrpc_status_ntoh (load_le mem (pb + 20) 4)))),
        success,
      )
      else (req, einval)

  unfoldable pub lustre_unpack_ptlrpc_body_v2 : SwabRequest → Bool → ℕ → Option (SwabRequest × ℤ)
  lustre_unpack_ptlrpc_body_v2 req inout offset =
      elim (lustre_msg_buf_v2 l (msg_of req inout) offset 152) [
        | none ↦ some (req, efault)
        | some pb ↦ do req' ← swab_body_once req inout offset pb; some (check_body req' inout pb)
      ]

  -- lustre_unpack_req_ptlrpc_body and lustre_unpack_rep_ptlrpc_body.
  unfoldable pub lustre_unpack_ptlrpc_body : SwabRequest → Bool → ℕ → Option (SwabRequest × ℤ)
  lustre_unpack_ptlrpc_body req inout offset =
      if (msg_of req inout).lm_magic == lustre_msg_magic_v2
      then lustre_unpack_ptlrpc_body_v2 req inout offset
      else some (req, einval)
