-- ===== src/Fs.antt =====
-- src/fs.rs
pub mod Chunks
pub mod Disk
pub mod Listing
pub mod NamedFile
pub mod Range
pub mod Segments
pub mod Service
mod Tests
