-- ===== src/Lfz.antt =====
-- source/build/lfz/lfz.c: the bandwidth throttle of the object storage target. `tgt_brw_read` and
-- `tgt_brw_write` (source/build/lfz/tgt_handler.c) call it once for each bulk transfer, and
-- `tgt_mod_init` (source/build/lfz/tgt_main.c) initialises it.
-- The file system, `simple_strtoll` and the clock are arguments.
pub mod Budget
mod Tests
use lustre_tools.Base.{
  ℕ, ◌-◌, ◌%◌, ◌^◌, List, [], ◌∷◌, Option, none, some, ltb, ◌==◌, if◌then◌else◌, ℤ, pos, negsuc,
  to_u64, eqb_ℤ, sub_u64, Timeval,
}

-- `struct tbf_counter_t`; the spin lock serialises the calls.
pub record TbfCounter : Type 0 where
  pub total_tbf_rate : ℕ
  pub resid_tbf : ℕ
  pub last_time : Timeval

abbrev pub one_million : ℕ
one_million = 1000000

-- `1<<30`, the rate where no configuration file can be opened.
abbrev pub default_rate : ℕ
default_rate = 2 ^ 30

-- What `filp_open` and `read` give is `none` where the file does not open, or the bytes read. The
-- result holds the return code.
pub total_tbf_rate_init : (List ℕ → ℤ) → Option (List ℕ) → Timeval → TbfCounter × ℤ
total_tbf_rate_init strtoll none now =
    (record { total_tbf_rate = default_rate; resid_tbf = default_rate; last_time = now }, negsuc 0)
total_tbf_rate_init strtoll (some buf) now =
    let rate = to_u64 (strtoll buf) in
    (record { total_tbf_rate = rate; resid_tbf = rate; last_time = now }, pos 0)

-- From the test of the budget on. The difference is an unsigned word, and so is the 0.
unfoldable pub charge : TbfCounter → Timeval → ℤ → TbfCounter × ℕ
charge c now bytes_transferred =
    if ltb (sub_u64 c.resid_tbf (to_u64 bytes_transferred)) 0
    then (c, one_million - now.tv_usec % one_million)
    else (record c { resid_tbf = sub_u64 c.resid_tbf (to_u64 bytes_transferred) }, 0)

-- A new second refills the budget.
unfoldable pub refill : TbfCounter → Timeval → TbfCounter
refill c now =
    if ltb c.last_time.tv_sec now.tv_sec
    then record c { last_time = now; resid_tbf = c.total_tbf_rate }
    else c

-- The new counter, and the microseconds that `udelay` is called with (0: it is not called).
unfoldable pub throttle_bandwidth : TbfCounter → Timeval → ℤ → TbfCounter × ℕ
unfolding charge refill
throttle_bandwidth c now bytes_transferred =
    if eqb_ℤ bytes_transferred (pos 0)
    then (c, 0)
    else if ltb now.tv_sec c.last_time.tv_sec
    then (c, 0)
    else charge (refill c now) now bytes_transferred

-- The transfers of a target in the order in which they take the lock.
unfoldable pub throttle_all : TbfCounter → List (Timeval × ℕ) → TbfCounter
throttle_all c [] = c
throttle_all c ((now, bytes) ∷ rest) = throttle_all (throttle_bandwidth c now (pos bytes)).0 rest
