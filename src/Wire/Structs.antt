-- ===== src/Wire/Structs.antt =====
-- struct ptlrpc_body_v3 and struct obd_connect_data of source/build/metric/lustre_idl.h by their
-- members, each at the offset that lustre_ptlrpc_wiretest.c asserts, and the routines of
-- pack_generic.c that swab them.
use lustre_tools.Base.{
  ℕ, ◌+◌, ◌/◌, ◌%◌, ◌^◌, ◌==◌, Bool, true, false, List, [], ◌∷◌, map, if◌then◌else◌,
}
use lustre_tools.Wire.{Memory, load_le, swab_at, Field, swabs}

-- ptlrpc_body_v2 is the same without pb_jobid.
pub data PtlrpcBody : Type 0 where
  pb_handle pb_type pb_version pb_opc pb_status pb_last_xid pb_tag pb_padding0 pb_padding1 :
      PtlrpcBody
  pb_last_committed pb_transno pb_flags pb_op_flags pb_conn_cnt pb_timeout pb_service_time :
      PtlrpcBody
  pb_limit pb_slv pb_pre_versions_0 pb_pre_versions_1 pb_pre_versions_2 pb_pre_versions_3 :
      PtlrpcBody
  pb_mbits pb_padding64_0 pb_padding64_1 pb_padding64_2 pb_jobid : PtlrpcBody

abbrev pub member : PtlrpcBody → Field
member pb_handle = (0, 8)
member pb_type = (8, 4)
member pb_version = (12, 4)
member pb_opc = (16, 4)
member pb_status = (20, 4)
member pb_last_xid = (24, 8)
member pb_tag = (32, 2)
member pb_padding0 = (34, 2)
member pb_padding1 = (36, 4)
member pb_last_committed = (40, 8)
member pb_transno = (48, 8)
member pb_flags = (56, 4)
member pb_op_flags = (60, 4)
member pb_conn_cnt = (64, 4)
member pb_timeout = (68, 4)
member pb_service_time = (72, 4)
member pb_limit = (76, 4)
member pb_slv = (80, 8)
member pb_pre_versions_0 = (88, 8)
member pb_pre_versions_1 = (96, 8)
member pb_pre_versions_2 = (104, 8)
member pb_pre_versions_3 = (112, 8)
member pb_mbits = (120, 8)
member pb_padding64_0 = (128, 8)
member pb_padding64_1 = (136, 8)
member pb_padding64_2 = (144, 8)
member pb_jobid = (152, 32)

-- The integers among them; the rest are padding, the handle, which only its owner reads, and a
-- string.
abbrev pub is_word : PtlrpcBody → Bool
is_word pb_handle = false
is_word pb_padding0 = false
is_word pb_padding1 = false
is_word pb_padding64_0 = false
is_word pb_padding64_1 = false
is_word pb_padding64_2 = false
is_word pb_jobid = false
is_word x = true

-- The members that the routine names, each in a statement for its width.
abbrev pub ptlrpc_body_swabs : List PtlrpcBody
ptlrpc_body_swabs =
    pb_type ∷ pb_version ∷ pb_opc ∷ pb_status ∷ pb_last_xid ∷ pb_tag ∷ pb_last_committed
    ∷ pb_transno ∷ pb_flags ∷ pb_op_flags ∷ pb_conn_cnt ∷ pb_timeout ∷ pb_service_time ∷ pb_limit
    ∷ pb_slv ∷ pb_pre_versions_0 ∷ pb_pre_versions_1 ∷ pb_pre_versions_2 ∷ pb_pre_versions_3
    ∷ pb_mbits ∷ []

unfoldable pub lustre_swab_ptlrpc_body : ℕ → Memory → Memory
lustre_swab_ptlrpc_body b mem = swabs (map member ptlrpc_body_swabs) b mem

pub data ObdConnectData : Type 0 where
  ocd_connect_flags ocd_version ocd_grant ocd_index ocd_brw_size ocd_ibits_known ocd_blocksize :
      ObdConnectData
  ocd_inodespace ocd_grant_extent ocd_unused ocd_transno ocd_group ocd_cksum_types : ObdConnectData
  ocd_max_easize ocd_instance ocd_maxbytes ocd_maxmodrpcs ocd_padding0 ocd_padding1 : ObdConnectData
  ocd_connect_flags2 : ObdConnectData

abbrev pub ocd_member : ObdConnectData → Field
ocd_member ocd_connect_flags = (0, 8)
ocd_member ocd_version = (8, 4)
ocd_member ocd_grant = (12, 4)
ocd_member ocd_index = (16, 4)
ocd_member ocd_brw_size = (20, 4)
ocd_member ocd_ibits_known = (24, 8)
ocd_member ocd_blocksize = (32, 1)
ocd_member ocd_inodespace = (33, 1)
ocd_member ocd_grant_extent = (34, 2)
ocd_member ocd_unused = (36, 4)
ocd_member ocd_transno = (40, 8)
ocd_member ocd_group = (48, 4)
ocd_member ocd_cksum_types = (52, 4)
ocd_member ocd_max_easize = (56, 4)
ocd_member ocd_instance = (60, 4)
ocd_member ocd_maxbytes = (64, 8)
ocd_member ocd_maxmodrpcs = (72, 2)
ocd_member ocd_padding0 = (74, 2)
ocd_member ocd_padding1 = (76, 4)
ocd_member ocd_connect_flags2 = (80, 8)

abbrev pub connect_swabs : List ObdConnectData
connect_swabs =
    ocd_connect_flags ∷ ocd_version ∷ ocd_grant ∷ ocd_ibits_known ∷ ocd_index ∷ ocd_brw_size
    ∷ ocd_grant_extent ∷ ocd_unused ∷ ocd_transno ∷ ocd_group ∷ ocd_cksum_types ∷ ocd_instance ∷ []

-- The bits of ocd_connect_flags that say which later members are there: OBD_CONNECT_MAX_EASIZE,
-- OBD_CONNECT_MAXBYTES, OBD_CONNECT_MULTIMODRPCS and OBD_CONNECT_FLAGS2.
abbrev pub flagged_swabs : List (ℕ × ObdConnectData)
flagged_swabs =
    (35, ocd_max_easize) ∷ (39, ocd_maxbytes) ∷ (57, ocd_maxmodrpcs) ∷ (63, ocd_connect_flags2) ∷ []

abbrev pub has_flag : ℕ → ℕ → Bool
has_flag flags bit = (flags / 2 ^ bit % 2) == 1

-- `if (ocd->ocd_connect_flags & FLAG) __swab..s(&ocd->member)`, one after the other.
unfoldable pub swab_flagged : List (ℕ × Field) → ℕ → Memory → Memory
swab_flagged [] b mem = mem
swab_flagged ((bit, (offset, w)) ∷ rest) b mem =
    swab_flagged rest b (if has_flag (load_le mem b 8) bit then swab_at (b + offset) w mem else mem)

-- Which members a receiver of these flags reads as integers of more than a byte.
abbrev pub is_read : ℕ → ObdConnectData → Bool
is_read flags ocd_blocksize = false
is_read flags ocd_inodespace = false
is_read flags ocd_padding0 = false
is_read flags ocd_padding1 = false
is_read flags ocd_max_easize = has_flag flags 35
is_read flags ocd_maxbytes = has_flag flags 39
is_read flags ocd_maxmodrpcs = has_flag flags 57
is_read flags ocd_connect_flags2 = has_flag flags 63
is_read flags x = true

abbrev pub at_member : ℕ × ObdConnectData → ℕ × Field
at_member (bit, x) = (bit, ocd_member x)

unfoldable pub lustre_swab_connect : ℕ → Memory → Memory
lustre_swab_connect ocd mem =
    swab_flagged (map at_member flagged_swabs) ocd (swabs (map ocd_member connect_swabs) ocd mem)
