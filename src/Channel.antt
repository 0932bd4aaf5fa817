-- ===== src/Channel.antt =====
-- The channels of the softbus that the engines and the control center share
-- (av_transport/common/src/softbus_channel_adapter.cpp).
pub mod Names
pub mod Adapter
pub mod Callbacks
pub mod Keys
pub mod Sessions
mod Examples
