-- ===== src/Component.antt =====
-- The component manager (services/distributedhardwarefwkservice/src/componentmanager).
pub mod Register
pub mod Params
pub mod Parameters
pub mod Manager
pub mod Enabling
pub mod Retries
pub mod Outcomes
pub mod Versions
pub mod Business
mod Examples
