-- ===== src/Capability.antt =====
-- The capabilities of the devices (services/distributedhardwarefwkservice/src/resourcemanager).
pub mod Key
pub mod Info
pub mod Store
pub mod Queries
pub mod StoreLaws
pub mod Keyed
pub mod Refine
pub mod Changes
pub mod ChangeLaws
mod Examples
