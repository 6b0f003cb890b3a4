-- ===== src/Qos/Proc.antt =====
-- The files under /proc that write the control's data (source/build/metric/lproc_osc.c), and
-- `init_qos` (source/build/metric/genops.c). `copy_from_user`, the allocator and what
-- `lprocfs_write_helper` reads of the text are arguments.
pub mod Restart
use lustre_tools.Base.{
  ℕ, ◌+◌, ◌*◌, Bool, true, false, List, Option, none, some, ℤ, pos, neg_part, pos_part, ltb_ℤ,
  eqb_ℤ, ltb, ◌||◌, if◌then◌else◌, Timeval, success, enomem, efault, erange, length,
}
use lustre_tools.Qos.Data.{TimeEwma, QosData}
use lustre_tools.Qos.Ewma.{init_time_ewma}
use lustre_tools.Qos.Rules.{Scanner, parse_qos_rules}
use lustre_tools.Qos.Adjust.{ClientObd, set_mrif}

unfoldable pub init_qos : QosData → ClientObd → QosData
init_qos q cli = record q {
  ack_ewma = init_time_ewma;
  sent_ewma = init_time_ewma;
  max_rpc_in_flight100 = pos (cli.cl_max_rpcs_in_flight * 100);
}

abbrev pub osc_max_rif_max : ℕ
osc_max_rif_max = 256

-- `read` is the code of `lprocfs_write_helper` and the value, and `set` the part of the handler that
-- it shares with `qos_adjust`.
unfoldable pub osc_max_rpcs_in_flight_seq_write :
    (ClientObd → ℕ → ℤ × ClientObd) → ℤ → ℤ → ℕ → QosData → ClientObd → ℤ × QosData × ClientObd
osc_max_rpcs_in_flight_seq_write set rc val count q cli =
    if ltb_ℤ rc (pos 0) || ltb_ℤ (pos 0) rc
    then (rc, q, cli)
    else if ltb_ℤ val (pos 1) || ltb_ℤ (pos osc_max_rif_max) val
    then (erange, q, cli)
    else let (code, cli') = set cli (pos_part val) in
      if ltb_ℤ code (pos 0)
      then (code, q, cli')
      else (pos count, record q { max_rpc_in_flight100 = pos (pos_part val * 100) }, cli')

-- The code of `lprocfs_write_helper` is not looked at; `val` is whatever it left in the variable.
unfoldable pub osc_min_brw_rpc_gap_seq_write : ℤ → ℤ → ℕ → QosData → ℤ × QosData
osc_min_brw_rpc_gap_seq_write rc val count q =
    if ltb_ℤ val (pos 0)
    then (erange, q)
    else (pos count, record q { min_usec_between_rpcs = pos_part val })

abbrev pub never : Timeval
never = record { tv_sec = 0; tv_usec = 0 }

-- The measurements start again, whether or not the rules could be parsed.
abbrev pub restarted : QosData → QosData
restarted q = record q {
  ack_ewma = record q.ack_ewma { ea = 0; last_time = never };
  sent_ewma = record q.sent_ewma { ea = 0; last_time = never };
  rtt_ratio100 = pos 0;
  smallest_rtt = pos 0;
}

-- `kernbuf` says whether the buffer could be had, and `copied` is the user's text.
unfoldable pub osc_qos_rules_seq_write :
    Scanner → (ℕ → Bool) → Bool → Option (List ℕ) → ℕ → QosData → ℤ × QosData
osc_qos_rules_seq_write scan alloc false copied count q = (enomem, q)
osc_qos_rules_seq_write scan alloc true none count q = (efault, q)
osc_qos_rules_seq_write scan alloc true (some text) count q =
    let (rc, q') = parse_qos_rules scan alloc text q in
    (if eqb_ℤ rc (pos 0) then pos count else rc, restarted q')
