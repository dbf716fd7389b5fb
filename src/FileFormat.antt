-- ===== src/FileFormat.antt =====
-- The format of a memory file (src/wenchang/file_format.py): fact lines, and bodies of them.
pub mod Facts
pub mod Body
pub mod Metadata
