-- ===== src/Wire/Tests.antt =====
-- Runs of the swabbing routines.
use lustre_tools.Base.{◌≡◌, refl, ◌==◌, if◌then◌else◌}
use lustre_tools.Wire.{Memory, load_le, load_be, swab_at, swabs}
use lustre_tools.Wire.Structs.{ocd_maxbytes, is_read, swab_flagged, lustre_swab_connect}
use lustre_tools.Wire.Connect.{swab_connect-orders}

-- OBD_CONNECT_MAXBYTES alone, sent with the high byte first, and 513 for the largest file.
abbrev from_client : Memory
from_client a = if a == 3 then 128 else if a == 70 then 2 else if a == 71 then 1 else 0

flags_of_client : load_be from_client 0 8 ≡ 0x8000000000
unfolding load_be
flags_of_client = refl

maxbytes_read : load_le (lustre_swab_connect 0 from_client) 64 8 ≡ 513
unfolding load_le swabs swab_at swab_flagged lustre_swab_connect
maxbytes_read = refl

swab_connect-orders_example : load_le (lustre_swab_connect 0 from_client) 64 8 ≡ (
    if is_read (load_be from_client 0 8) ocd_maxbytes
    then load_be from_client 64 8
    else load_le from_client 64 8)
swab_connect-orders_example = swab_connect-orders 0 from_client ocd_maxbytes
