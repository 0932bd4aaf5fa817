-- ===== src/Sender.antt =====
-- The engine that sends audio or video to another device
-- (av_transport/av_trans_engine/av_sender/src/av_sender_engine.cpp).
pub mod Types
pub mod Setup
pub mod Engine
pub mod Parameters
pub mod Released
pub mod Shared
pub mod Pushes
mod Examples
