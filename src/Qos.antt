-- ===== src/Qos.antt =====
-- The client's quality-of-service control (source/build/metric/metric.h, qos_rules.c, and the parts
-- of osc_request.c, genops.c and lproc_osc.c that use them): it measures the gaps between replies,
-- selects a rule, and adjusts the number of requests in flight and the gap between requests.
pub mod Data
pub mod Bandwidth
pub mod Ewma
pub mod Throttle
pub mod Rules
pub mod Adjust
pub mod Proc
mod Tests
