-- ===== src/AvCenter.antt =====
-- The control center of the audio and video transport (av_transport/av_trans_control_center).
pub mod Center
pub mod Channels
pub mod SyncTypes
pub mod SyncManager
pub mod Events
pub mod Scenes
pub mod Streams
pub mod Memories
mod Examples
mod SyncExamples
