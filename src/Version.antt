-- ===== src/Version.antt =====
-- services/distributedhardwarefwkservice/src/versionmanager/version_manager.cpp.
pub mod Manager
pub mod Laws
