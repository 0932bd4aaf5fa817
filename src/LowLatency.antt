-- ===== src/LowLatency.antt =====
-- When the network of the device is asked for low latency
-- (services/distributedhardwarefwkservice/src/lowlatency and the timer of utils).
pub mod Switches
pub mod Timer
mod Examples
