-- ===== src/Access.antt =====
-- The framework's manager, its factory and the access manager: devices come online and go offline,
-- and the framework is initialised and released.
pub mod Manager
pub mod Factory
pub mod Callbacks
pub mod Lifecycle
pub mod Online
pub mod Released
pub mod Reinit
mod Examples
