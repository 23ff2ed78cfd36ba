-- ===== src/Blob.antt =====
-- RaspiMotionBlob of src/raspi_motionblob.cc: the blobs of the motion picture.
pub mod Detect
pub mod Ids
pub mod Search
mod Tests
