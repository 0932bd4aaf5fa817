-- ===== src/Output.antt =====
-- The control of the output of a video stream
-- (av_transport/av_trans_engine/plugin/plugins/av_trans_output/output_control).
pub mod Statistician
pub mod Controller
pub mod Queue
pub mod Times
pub mod Averages
pub mod Frames
pub mod Looper
pub mod Rereads
mod Examples
