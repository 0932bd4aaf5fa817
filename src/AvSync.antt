-- ===== src/AvSync.antt =====
-- The shared memory of the audio and video synchronisation (av_transport/common).
pub mod Bytes
pub mod Memory
pub mod Slots
pub mod Clock
mod Examples
