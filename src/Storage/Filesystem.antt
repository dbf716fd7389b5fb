-- ===== src/Storage/Filesystem.antt =====
-- The storage on a local filesystem (src/wenchang/storage/filesystem.py): the names of its files.
pub mod Segment
