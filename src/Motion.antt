-- ===== src/Motion.antt =====
-- The motion detection of the streamer: src/raspi_motion.cc, src/raspi_motionfile.cc and
-- src/raspi_motionvector.cc.
pub mod Detection
pub mod DirLimit
pub mod File
pub mod Drain
pub mod Vector
mod Tests
