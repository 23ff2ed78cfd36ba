-- ===== src/Log.antt =====
-- The log of the program: src/log_rotating_stream.cc.
pub mod Rotating
mod Tests
