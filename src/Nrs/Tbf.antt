-- ===== src/Nrs/Tbf.antt =====
-- source/build/metric/nrs_tbf.c and lustre_nrs_tbf.h: the token bucket filter policy.
pub mod Bucket
pub mod Rules
pub mod Table
pub mod Command
pub mod Compare
pub mod Sched
pub mod Jobid
mod Tests
