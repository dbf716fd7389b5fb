-- ===== src/Tests.antt =====
-- Concrete inputs for the theorems, and tests of the definitions.
mod Codec
mod Paths
mod Texts
mod Store
mod Returns
mod Access
mod Index
mod Interleaved
mod Tools
mod JsonCodec
mod Listing
mod Filesystem
