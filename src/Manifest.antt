-- ===== src/Manifest.antt =====
-- The builder of the file-access manifest: src/manifest_builder.h and src/manifest_builder.cpp.
pub mod Policy
pub mod Fragment
pub mod Bytes
pub mod Canonical
pub mod Tree
pub mod Buckets
pub mod Builder
