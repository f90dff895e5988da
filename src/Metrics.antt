-- ===== src/Metrics.antt =====
-- The metrics plugin (plugins/MetricsPlugin.cxx): its keys, the fields of instances that are gone,
-- the time series, the sockets and the rounds in which the metrics are sent.
pub mod Keys
pub mod Expiry
pub mod Line
pub mod Sockets
pub mod Commands
pub mod Rounds
