-- ===== src/Examples/Sequence.antt =====
-- Sequence numbers, the RTT estimator and the probe timeout.
use resd_dpdk_tcp.Base.{some}
use resd_dpdk_tcp.Rtt.{RttEstimator}

abbrev estimator : RttEstimator
estimator = record {
  srtt_us = some 800;
  rttvar_us = 100;
  rto_us = 5000;
  min_rto_us = 5000;
  max_rto_us = 1000000;
}
