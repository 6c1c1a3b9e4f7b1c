-- ===== src/EdgeFs.antt =====
-- EdgeFS, the file store of EdgeFS/src.
pub mod Format
pub mod Bitmap
pub mod Init
pub mod File
pub mod Chain
pub mod Write
pub mod Read
pub mod Logging
pub mod MediaLog
pub mod Disk
pub mod Contents
