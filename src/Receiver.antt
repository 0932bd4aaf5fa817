-- ===== src/Receiver.antt =====
-- The engine that receives audio or video from another device
-- (av_transport/av_trans_engine/av_receiver/src/av_receiver_engine.cpp).
pub mod Engine
pub mod Parameters
pub mod Codecs
pub mod Failed
pub mod Reached
mod Examples
