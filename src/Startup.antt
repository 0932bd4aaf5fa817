-- ===== src/Startup.antt =====
-- How the component manager starts, stops and recovers the components
-- (services/distributedhardwarefwkservice/src/componentmanager).
pub mod Defs
pub mod Lifecycle
pub mod Recovery
pub mod Counts
pub mod Stages
pub mod Balance
mod Examples
