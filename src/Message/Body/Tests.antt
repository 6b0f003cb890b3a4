-- ===== src/Message/Body/Tests.antt =====
-- Runs of the unpacking of a request's body from a machine of the other byte order.
use lustre_tools.Base.{
  ℕ, ◌+◌, ◌*◌, ◌/◌, ◌^◌, ◌≡◌, refl, true, false, some, ◌==◌, if◌then◌else◌, success,
}
use lustre_tools.Message.{
  Memory, Libcfs, LustreMsg, lustre_msg_magic_v2, add_sizes, lustre_msg_hdr_size_v2,
  lustre_msg_buf_v2,
}
use lustre_tools.Message.Unpack.{
  SwabRequest, swabbed_bit, set_swabbed_bit, ptlrpc_buf_set_swabbed, ptlrpc_buf_need_swab,
  swab_body_once, check_body, lustre_unpack_ptlrpc_body_v2,
}
use lustre_tools.Message.Body.{unpack_body-again, unpack_body-orders}
use lustre_tools.Wire.{load_le, load_be, swab_at, swabs}
use lustre_tools.Wire.Structs.{pb_opc, lustre_swab_ptlrpc_body}

abbrev libcfs : Libcfs
libcfs = record {
  cfs_size_round = λ v. (v + 7) / 8 * 8;
  logl = λ var len (mem, ptr). (mem, ptr + (len + 7) / 8 * 8);
}

-- One buffer of 152 bytes at 40, with version 3 and opcode 400 in the other order.
abbrev body_bytes : Memory
body_bytes a = if a == 55 then 3 else if a == 58 then 1 else if a == 59 then 144 else 0

abbrev msg : LustreMsg
msg = record {
  lm_bufcount = 1;
  lm_secflvr = 0;
  lm_magic = lustre_msg_magic_v2;
  lm_repsize = 0;
  lm_cksum = 0;
  lm_flags = 0;
  lm_padding_2 = 0;
  lm_padding_3 = 0;
  lm_buflens = λ i. 152;
  bytes = body_bytes;
}

-- The header was turned.
abbrev fresh : SwabRequest
fresh = record { rq_reqmsg = msg; rq_repmsg = msg; rq_req_swab_mask = 2 ^ 31; rq_rep_swab_mask = 0 }

abbrev done : SwabRequest
unfolding lustre_swab_ptlrpc_body
done = record fresh {
  rq_reqmsg = record msg { bytes = lustre_swab_ptlrpc_body 40 body_bytes };
  rq_req_swab_mask = 2 ^ 31 + 1;
}

-- The status is not translated.
abbrev same_status : ℕ → ℕ
same_status n = n

body_at_40 : lustre_msg_buf_v2 libcfs msg 0 152 ≡ some 40
unfolding lustre_msg_buf_v2 add_sizes lustre_msg_hdr_size_v2
body_at_40 = refl

unpacked : lustre_unpack_ptlrpc_body_v2 libcfs same_status fresh true 0 ≡ some (done, success)
unfolding lustre_unpack_ptlrpc_body_v2 lustre_msg_buf_v2 add_sizes lustre_msg_hdr_size_v2
    swab_body_once ptlrpc_buf_need_swab ptlrpc_buf_set_swabbed swabbed_bit set_swabbed_bit
    check_body load_le swabs swab_at lustre_swab_ptlrpc_body done
unpacked = refl

header_came_foreign : swabbed_bit (2 ^ 31) 31 ≡ some true
unfolding swabbed_bit
header_came_foreign = refl

not_yet : swabbed_bit (2 ^ 31) 0 ≡ some false
unfolding swabbed_bit
not_yet = refl

opcode_sent : load_be body_bytes 56 4 ≡ 400
unfolding load_be
opcode_sent = refl

unpack_body-again_example :
    lustre_unpack_ptlrpc_body_v2 libcfs same_status done true 0 ≡ some (done, success)
unpack_body-again_example = unpack_body-again libcfs same_status fresh done 0 success unpacked

unpack_body-orders_example : load_le done.rq_reqmsg.bytes 56 4 ≡ load_be body_bytes 56 4
unpack_body-orders_example =
    unpack_body-orders libcfs same_status fresh done 0 40 success pb_opc header_came_foreign not_yet
      body_at_40 unpacked
