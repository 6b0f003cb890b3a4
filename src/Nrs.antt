-- ===== src/Nrs.antt =====
-- The network request scheduler's policies: the token bucket filter
-- (source/build/metric/nrs_tbf.c) and the time window policy (code/nrs_sscdt.c).
pub mod Tbf
pub mod Sscdt
