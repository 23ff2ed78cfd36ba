-- ===== src/FileWriter.antt =====
-- The motion file writer, file_writer_handle.cc and file_writer_handle.h: `Buffer` is the byte
-- buffer between the drain thread and the writer thread, `Handle` the file that it is written to.
pub mod Buffer
pub mod Handle
mod Tests
