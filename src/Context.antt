-- ===== src/Context.antt =====
-- services/distributedhardwarefwkservice/src/utils/dh_context.cpp: the online devices, the devices
-- that are online in real time and the connected isomerism devices.
pub mod Defs
pub mod Devices
mod Examples
